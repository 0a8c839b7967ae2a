-- ===== src/VersionsFile/Overflow.antt =====
-- Texts of too many fields in `rrc_versionsfile_split_by` of source/update/versionsfile.c.
use rr_launcher.Prelude.{
  ℕ, ◌+◌, ◌<◌, ◌≤◌, ◌≡◌, Bool, true, false, List, [], ◌∷◌, ◌++◌, length, length-append, ltb, ◌==◌,
  Bytes, arith, Bool-cases, inl, inr,
}
use rr_launcher.Result.{fault}
use rr_launcher.VersionsFile.{split_lim, split_room, no_more, add_part, split_loop, split_by}
use rr_launcher.VersionsFile.Split.{
  fields, in_front, add_part-room, length-fields_end, length-fields_on,
}

module _ (allocates : ℕ → Bool) (by : ℕ) (memory : (n : ℕ) → allocates n ≡ true) where
  add_part-full :
      (parts : List Bytes) (this : Bytes)
      → split_room ≤ length parts
      → add_part allocates by parts this ≡ fault
  unfolding add_part
  add_part-full parts this h =
      let full : ltb (length parts) split_room ≡ false = ground arith in rw full

  length-one : (c : ℕ) → length (fields by (c ∷ [])) ≡ 1
  unfolding fields in_front
  length-one c = elim (Bool-cases (c == by)) [ inl here ↦ rw here | inr other ↦ rw other ]

  split_loop-overflow :
      (parts : List Bytes) (current text : Bytes)
      → length parts ≤ split_room
      → split_room < length parts + length (fields by text)
      → split_loop allocates by parts current text ≡ fault
  unfolding split_loop no_more
  split_loop-overflow parts current [] few many = absurd (unfold fields in omega arith)
  split_loop-overflow parts current (c ∷ []) few many =
      let full : split_room ≤ length parts = omega (arith, length-one c) in
      elim (Bool-cases (c == by)) [
        | inl here ↦ rw (here, memory (length current + 1), add_part-full parts current full)
        | inr other ↦ rw (
          other,
          memory (length (current ++ c ∷ []) + 1),
          add_part-full parts (current ++ c ∷ []) full,
        )
      ]
  split_loop-overflow parts current (c ∷ d ∷ rest) few many = elim (Bool-cases (c == by)) [
    | inl here ↦ elim (Bool-cases (ltb (length parts) split_room)) [
      | inl room ↦
          rw
            (
              here,
              memory (length current + 1),
              add_part-room allocates by memory parts current (ground arith),
            )
            (split_loop-overflow (parts ++ current ∷ []) [] (d ∷ rest)
              (ground (arith, length-append {0} parts (current ∷ [])))
              (omega (
                arith,
                length-append {0} parts (current ∷ []),
                length-fields_end allocates by memory c (d ∷ rest) here,
                many,
              )))
      | inr full ↦
          rw (here, memory (length current + 1), add_part-full parts current (ground arith))
    ]
    | inr other ↦ rw other (
        split_loop-overflow parts (current ++ c ∷ []) (d ∷ rest) few
          (omega (arith, length-fields_on allocates by memory c d rest other, many)))
  ]

  -- Where there is memory, splitting a text of more than 1024 fields writes past the array that
  -- it allocated.
  pub split_by-overflow :
      (text : Bytes) → split_room < length (fields by text) → split_by allocates by text ≡ fault
  unfolding split_by
  split_by-overflow text many =
      rw (memory split_lim) (split_loop-overflow [] [] text (omega arith) (omega (arith, many)))
