-- ===== src/Console/AsciiSafe.antt =====
-- `rrc_con_ascii_safe` of source/console.c with its output on top of its input: what it writes never
-- overtakes what it has still to read.
use Prim.Native.Nat.{bit_and}
use rr_launcher.Prelude.{
  ℕ, zero, suc, ◌+◌, ◌-◌, ◌≤◌, ◌<◌, ◌≡◌, refl, ap, ◌∙◌, Bool, true, false, ◌&&◌, if◌then◌else◌, ltb,
  ◌==◌, Bool-cases, le_or_lt, inl, inr, some, [], ◌∷◌, ◌++◌, length, get_or, get_elem?,
  get_elem?-append_past, Bytes, codes, arith,
}
use rr_launcher.Result.{done, read}
use rr_launcher.Console.{
  load, and_then, is_continuation, continued, sequence, codepoint2, codepoint3, codepoint4,
  replacement, character,
}

-- The i-th byte after a character, with the terminator.
abbrev pub following : Bytes → ℕ → ℕ
following rest i = get_or rest i 0

-- `n` continuations, from the i-th byte on.
abbrev pub continuations : ℕ → Bytes → ℕ → Bool
continuations zero rest i = true
continuations (suc n) rest i = is_continuation (following rest i) && continuations n rest (i + 1)

-- One character of a text: what stands for it, and its bytes.
abbrev pub printable : ℕ → Bytes → Bytes × ℕ
printable c rest =
    if ltb c 0x80
    then (c ∷ [], 1)
    else if bit_and c 0xE0 == 0xC0 && continuations 1 rest 0
    then (replacement (codepoint2 c (following rest 0)), 2)
    else if bit_and c 0xF0 == 0xE0 && continuations 2 rest 0
    then (replacement (codepoint3 c (following rest 0) (following rest 1)), 3)
    else if bit_and c 0xF8 == 0xF0 && continuations 3 rest 0
    then (replacement (codepoint4 c (following rest 0) (following rest 1) (following rest 2)), 4)
    else (codes "?", 1)

-- The printable form of a text, of which `skip` bytes belong to a character that was taken.
unfoldable pub printable_text : ℕ → Bytes → Bytes
printable_text skip [] = []
printable_text (suc skip) (c ∷ rest) = printable_text skip rest
printable_text zero (c ∷ rest) =
    let (repl, consumed) = printable c rest in repl ++ printable_text (consumed - 1) rest

module _ (pre : Bytes) (c : ℕ) (rest after : Bytes) where
  abbrev mem : Bytes
  mem = pre ++ (c ∷ (rest ++ (0 ∷ after)))

  get_elem?-terminated :
      (rest : Bytes) (i : ℕ)
      → i ≤ length rest
      → get_elem? (rest ++ (0 ∷ after)) i ≡ some (following rest i)
  get_elem?-terminated [] zero h = refl
  get_elem?-terminated [] (suc i) h = absurd (omega arith)
  get_elem?-terminated (b ∷ rest) zero h = refl
  get_elem?-terminated (b ∷ rest) (suc i) h = get_elem?-terminated rest i (omega arith)

  load-following :
      (i p : ℕ) → i ≤ length rest → p ≡ length pre + (i + 1) → load mem p ≡ done (following rest i)
  load-following i p h e = ap read (
      get_elem?-append_past pre (c ∷ (rest ++ (0 ∷ after))) (suc i) p (omega arith)
      ∙ get_elem?-terminated rest i h)

  following_end : (rest : Bytes) (i : ℕ) → length rest ≤ i → following rest i ≡ 0
  following_end [] i h = refl
  following_end (b ∷ rest) zero h = absurd (omega arith)
  following_end (b ∷ rest) (suc i) h = following_end rest i (omega arith)

  -- A continuation is no terminator.
  inside : (i : ℕ) → is_continuation (following rest i) ≡ true → i < length rest
  inside i h = elim (le_or_lt (length rest) i) [
    | inr in_text ↦ in_text
    | inl past ↦ absurd (cc (rw (following_end rest i past) at h))
  ]

  continued-continuations :
      (n i p : ℕ)
      → i ≤ length rest
      → p ≡ length pre + (i + 1)
      → continued n mem p ≡ done (continuations n rest i)
  continued-continuations zero i p h e = refl
  continued-continuations (suc n) i p h e = elim (Bool-cases (is_continuation (following rest i))) [
    | inr stop ↦ rw (load-following i p h e, stop) refl
    | inl next ↦
        rw (load-following i p h e, next)
          (continued-continuations n (i + 1) (p + 1) (omega (arith, inside i next)) (omega arith))
  ]

  pub continuations-fit :
      (n i : ℕ) → i ≤ length rest → continuations n rest i ≡ true → i + n ≤ length rest
  continuations-fit zero i h e = omega arith
  continuations-fit (suc n) i h e = elim (Bool-cases (is_continuation (following rest i))) [
    | inr stop ↦ absurd (cc (rw stop at e))
    | inl next ↦
        omega (arith, continuations-fit n (i + 1) (omega (arith, inside i next)) (rw next at e))
  ]

  and_then-done : (a b : Bool) → and_then a (done b) ≡ done (a && b)
  and_then-done true b = refl
  and_then-done false b = refl

  pub both : (a b : Bool) → (a && b) ≡ true → b ≡ true
  both true b e = e
  both false b e = cc

  -- The code finds the character that stands there, and reads no byte past the terminator.
  pub character-printable : character mem (length pre) c ≡ done (printable c rest)
  character-printable =
      let step : (n : ℕ) (lead : Bool)
          → sequence lead n mem (length pre) ≡ done (lead && continuations n rest 0) =
        λ n lead.
          ap (and_then lead)
            (continued-continuations n 0 (length pre + 1) (omega arith) (omega arith))
          ∙ and_then-done lead (continuations n rest 0) in
      let first = load-following 0 (length pre + 1) (omega arith) (omega arith) in
      let lead2 = bit_and c 0xE0 == 0xC0 in
      let lead3 = bit_and c 0xF0 == 0xE0 in
      let lead4 = bit_and c 0xF8 == 0xF0 in
      let inside2 : continuations 2 rest 0 ≡ true → 2 ≤ length rest =
        λ e. continuations-fit 2 0 (omega arith) e in
      let inside3 : continuations 3 rest 0 ≡ true → 3 ≤ length rest =
        λ e. continuations-fit 3 0 (omega arith) e in
      elim (Bool-cases (ltb c 0x80)) [
        | inl ascii ↦ rw ascii refl
        | inr wide ↦ elim (Bool-cases (lead2 && continuations 1 rest 0)) [
          | inl two ↦ rw (wide, step 1 lead2, step 2 lead3, step 3 lead4, two, first) refl
          | inr not2 ↦ elim (Bool-cases (lead3 && continuations 2 rest 0)) [
            | inl three ↦
                let fit = inside2 (both lead3 (continuations 2 rest 0) three) in
                let second = load-following 1 (length pre + 2) (omega arith) (omega arith) in
                rw (wide, step 1 lead2, step 2 lead3, step 3 lead4, not2, three, first, second) refl
            | inr not3 ↦ elim (Bool-cases (lead4 && continuations 3 rest 0)) [
              | inl four ↦
                  let fit = inside3 (both lead4 (continuations 3 rest 0) four) in
                  let second = load-following 1 (length pre + 2) (omega arith) (omega arith) in
                  let third = load-following 2 (length pre + 3) (omega arith) (omega arith) in
                  rw
                    (
                      wide,
                      step 1 lead2,
                      step 2 lead3,
                      step 3 lead4,
                      not2,
                      not3,
                      four,
                      first,
                      second,
                      third,
                    )
                    refl
              | inr not4 ↦
                  rw (wide, step 1 lead2, step 2 lead3, step 3 lead4, not2, not3, not4) refl
            ]
          ]
        ]
      ]
