-- ===== src/VersionsFile/Split.antt =====
-- `rrc_versionsfile_split_by` of source/update/versionsfile.c, against the fields of a text.
use mathlib.Core.List.{append_assoc, append-nil}
use rr_launcher.Prelude.{
  ℕ, suc, ◌+◌, ◌<◌, ◌≤◌, ◌≡◌, refl, sym, ap, ◌∙◌, Bool, true, false, List, [], ◌∷◌, ◌++◌, length,
  length-append, ltb, lt→ltb, ◌==◌, if◌then◌else◌, Bytes, arith, Bool-cases, inl, inr,
}
use rr_launcher.Result.{done}
use rr_launcher.VersionsFile.{
  split_lim, split_room, split_ok, no_more, add_part, split_loop, split_by,
}

-- The first field with `c` in front of it.
unfoldable pub in_front : ℕ → List Bytes → List Bytes
in_front c [] = (c ∷ []) ∷ []
in_front c (x ∷ xs) = (c ∷ x) ∷ xs

-- The fields of a text, each ended by `by` or by the end of the text.
unfoldable pub fields : ℕ → Bytes → List Bytes
unfolding in_front
fields by [] = []
fields by (c ∷ s) = if c == by then [] ∷ fields by s else in_front c (fields by s)

-- The first field with what was read before it.
behind : Bytes → List Bytes → List Bytes
behind current [] = []
behind current (x ∷ xs) = (current ++ x) ∷ xs

module _ (allocates : ℕ → Bool) (by : ℕ) (memory : (n : ℕ) → allocates n ≡ true) where
  behind-nothing : (xs : List Bytes) → behind [] xs ≡ xs
  unfolding behind
  behind-nothing [] = refl
  behind-nothing (x ∷ xs) = refl

  in_front-length : (c : ℕ) (xs : List Bytes) → 0 < length xs → length (in_front c xs) ≡ length xs
  unfolding in_front
  in_front-length c [] h = elim h [ ]
  in_front-length c (x ∷ xs) h = refl

  fields-length : (c : ℕ) (s : Bytes) → 0 < length (fields by (c ∷ s))
  unfolding fields in_front
  fields-length c s = elim (Bool-cases (c == by)) [
    | inl here ↦ rw here (omega arith)
    | inr other ↦ rw other (shown (fields by s))
  ]
    where
      shown : (xs : List Bytes) → 0 < length (in_front c xs)
      shown [] = omega arith
      shown (x ∷ xs) = omega arith

  behind-in_front :
      (current : Bytes) (c : ℕ) (xs : List Bytes)
      → 0 < length xs
      → behind (current ++ c ∷ []) xs ≡ behind current (in_front c xs)
  unfolding behind in_front
  behind-in_front current c [] h = elim h [ ]
  behind-in_front current c (x ∷ xs) h =
      ap (λ (t : Bytes). t ∷ xs) (append_assoc current (c ∷ []) x)

  behind-empty : (parts : List Bytes) (current : Bytes) → parts ++ behind current [] ≡ parts
  unfolding behind
  behind-empty parts current = append-nil parts

  rejoin :
      (parts : List Bytes) (current : Bytes) (xs : List Bytes)
      → (parts ++ current ∷ []) ++ behind [] xs ≡ parts ++ behind current ([] ∷ xs)
  unfolding behind
  rejoin parts current xs =
      ap (λ (t : List Bytes). (parts ++ current ∷ []) ++ t) (behind-nothing xs)
      ∙ (append_assoc parts (current ∷ []) xs
          ∙ ap (λ (t : Bytes). parts ++ t ∷ xs) (sym (append-nil current)))

  -- One part, where there is room for it.
  pub add_part-room :
      (parts : List Bytes) (this : Bytes)
      → length parts < split_room
      → add_part allocates by parts this ≡ done (split_ok, parts ++ this ∷ [])
  unfolding add_part
  add_part-room parts this h =
      let few : ltb split_lim (length (parts ++ this ∷ [])) ≡ false =
        ground (arith, length-append {0} parts (this ∷ [])) in
      rw (lt→ltb (length parts) split_room h, few)

  pub length-fields_end :
      (c : ℕ) (s : Bytes)
      → (c == by) ≡ true
      → length (fields by (c ∷ s)) ≡ suc (length (fields by s))
  unfolding fields
  length-fields_end c s here = rw here

  pub length-fields_on :
      (c d : ℕ) (s : Bytes)
      → (c == by) ≡ false
      → length (fields by (c ∷ d ∷ s)) ≡ length (fields by (d ∷ s))
  length-fields_on c d s other =
      let shown : fields by (c ∷ d ∷ s) ≡ in_front c (fields by (d ∷ s)) =
        unfold fields in rw other in
      ap (length {A = Bytes}) shown ∙ in_front-length c (fields by (d ∷ s)) (fields-length d s)

  room_left :
      (parts : List Bytes) (c : ℕ) (s : Bytes)
      → length parts + length (fields by (c ∷ s)) ≤ split_room
      → length parts < split_room
  room_left parts c s h = omega (arith, fields-length c s)

  split_loop-fields :
      (parts : List Bytes) (current text : Bytes)
      → length parts + length (fields by text) ≤ split_room
      → split_loop allocates by parts current text
        ≡ done (split_ok, parts ++ behind current (fields by text))
  unfolding split_loop fields no_more
  split_loop-fields parts current [] h =
      ap (λ (t : List Bytes). done (split_ok, t)) (sym (behind-empty parts current))
  split_loop-fields parts current (c ∷ []) h = elim (Bool-cases (c == by)) [
    | inl here ↦
        rw (here, memory (length current + 1), add_part-room parts current (room_left parts c [] h))
          (ap (λ (t : List Bytes). done (split_ok, t))
            (sym (behind-empty (parts ++ current ∷ []) []) ∙ rejoin parts current []))
    | inr other ↦
        rw
          (
            other,
            memory (length (current ++ c ∷ []) + 1),
            add_part-room parts (current ++ c ∷ []) (room_left parts c [] h),
          )
          (unfold behind in_front in refl)
  ]
  split_loop-fields parts current (c ∷ d ∷ rest) h = elim (Bool-cases (c == by)) [
    | inl here ↦
        rw
          (
            here,
            memory (length current + 1),
            add_part-room parts current (room_left parts c (d ∷ rest) h),
          )
          (split_loop-fields (parts ++ current ∷ []) [] (d ∷ rest) (
              omega (
                arith,
                length-append {0} parts (current ∷ []),
                length-fields_end c (d ∷ rest) here,
                h,
              ))
            ∙ ap (λ (t : List Bytes). done (split_ok, t))
                (rejoin parts current (fields by (d ∷ rest))))
    | inr other ↦ rw other (
        split_loop-fields parts (current ++ c ∷ []) (d ∷ rest)
          (omega (arith, length-fields_on c d rest other, h))
        ∙ ap (λ (t : List Bytes). done (split_ok, parts ++ t))
            (behind-in_front current c (fields by (d ∷ rest)) (fields-length d rest)))
  ]

  -- Where there is memory and the text has at most 1024 fields, splitting gives all of them, in order. A
  -- field ends at each `by` or at the end of the text: a `by` at the end of the text adds no field, but a
  -- second one before it adds an empty one.
  pub split_by-fields :
      (text : Bytes)
      → length (fields by text) ≤ split_room
      → split_by allocates by text ≡ done (split_ok, fields by text)
  unfolding split_by
  split_by-fields text h = rw (memory split_lim) (
      split_loop-fields [] [] text (omega (arith, h))
      ∙ ap (λ (t : List Bytes). done (split_ok, t)) (behind-nothing (fields by text)))
