-- ===== src/UpnpErrors/Nesting.antt =====
-- `rr_json_find_object_end` of source/upnp_error_codes.c finds the brace that closes an object, whatever
-- stands in its strings and however deep its objects are.
use mathlib.Core.List.{append_assoc}
use std.Path.{transport}
use rr_launcher.Prelude.{
  ℕ, suc, ◌+◌, ◌<◌, ◌≡◌, refl, ap, ◌∙◌, true, false, ◌||◌, ◌==◌, ==_iff, Bool-cases, inl, inr, some,
  [], ◌∷◌, ◌++◌, length, length-append, Bytes, arith,
}
use rr_launcher.Prelude.Int.{ℤ, pos}
use rr_launcher.ServerStatus.Quoting.{quoted_char, quoted}
use rr_launcher.UpnpErrors.{object_end_from, find_object_end}

-- The inside of an object: strings, objects, and characters that are no quote and no brace.
pub data Inner : Type 0 where
  end : Inner
  string : Bytes → Inner → Inner
  object : Inner → Inner → Inner
  plain : (c : ℕ) → (c == 34 || c == 123 || c == 125) ≡ false → Inner → Inner

unfoldable pub text_of_inner : Inner → Bytes
text_of_inner end = []
text_of_inner (string s rest) = 34 ∷ (quoted s ++ (34 ∷ text_of_inner rest))
text_of_inner (object inner rest) = 123 ∷ (text_of_inner inner ++ (125 ∷ text_of_inner rest))
text_of_inner (plain c ok rest) = c ∷ text_of_inner rest

-- Past one character of a string.
past_char :
    (depth : ℤ) (c : ℕ) (after : Bytes) (i : ℕ)
    → 0 < length after
    → object_end_from depth true (quoted_char c ++ after) i
      ≡ object_end_from depth true after (i + length (quoted_char c))
unfolding object_end_from
past_char depth c [] i h = absurd (omega arith)
past_char depth c (d ∷ after) i h =
    let Past : ℕ → Type 0 = λ c.
      object_end_from depth true (quoted_char c ++ (d ∷ after)) i
      ≡ object_end_from depth true (d ∷ after) (i + length (quoted_char c)) in
    elim (Bool-cases (c == 34)) [
      | inl quote ↦ let e : 34 ≡ c = ground (arith, ==_iff c 34) in transport (ap Past e) refl
      | inr no_quote ↦ elim (Bool-cases (c == 92)) [
        | inl slash ↦ let e : 92 ≡ c = ground (arith, ==_iff c 92) in transport (ap Past e) refl
        | inr no_slash ↦ elim (Bool-cases (c == 10)) [
          | inl line ↦ let e : 10 ≡ c = ground (arith, ==_iff c 10) in transport (ap Past e) refl
          | inr other ↦
              let alone : quoted_char c ≡ c ∷ [] = rw (no_quote, no_slash, other) refl in
              rw (alone, no_slash, no_quote) refl
        ]
      ]
    ]

-- Past a string.
past_string :
    (depth : ℤ) (s after : Bytes) (i : ℕ)
    → 0 < length after
    → object_end_from depth true (quoted s ++ (34 ∷ after)) i
      ≡ object_end_from depth false after (i + (length (quoted s) + 1))
unfolding object_end_from quoted
past_string depth [] [] i h = absurd (omega arith)
past_string depth [] (d ∷ after) i h = refl
past_string depth (c ∷ s) after i h =
    ap (λ (t : Bytes). object_end_from depth true t i)
      (append_assoc (quoted_char c) (quoted s) (34 ∷ after))
    ∙ past_char depth c (quoted s ++ (34 ∷ after)) i
        (omega (arith, length-append {0} (quoted s) (34 ∷ after)))
    ∙ past_string depth s after (i + length (quoted_char c)) h
    ∙ ap (object_end_from depth false after) (
        let e : i + length (quoted_char c) + (length (quoted s) + 1)
            ≡ i + (length (quoted_char c ++ quoted s) + 1) =
          omega (arith, length-append {0} (quoted_char c) (quoted s)) in
        e)

-- Past the inside of an object, at any depth.
past_inner :
    (n : ℕ) (inner : Inner) (after : Bytes) (i : ℕ)
    → 0 < length after
    → object_end_from (pos (suc n)) false (text_of_inner inner ++ after) i
      ≡ object_end_from (pos (suc n)) false after (i + length (text_of_inner inner))
unfolding object_end_from text_of_inner
past_inner n end after i h =
    ap (object_end_from (pos (suc n)) false after) (let e : i ≡ i + 0 = omega arith in e)
past_inner n (string s rest) after i h =
    let tail = text_of_inner rest in
    ap (λ (t : Bytes). object_end_from (pos (suc n)) true t (i + 1))
      (append_assoc (quoted s) (34 ∷ tail) after)
    ∙ past_string (pos (suc n)) s (tail ++ after) (i + 1)
        (omega (arith, length-append {0} tail after))
    ∙ past_inner n rest after (i + 1 + (length (quoted s) + 1)) h
    ∙ ap (object_end_from (pos (suc n)) false after) (
        let e : i + 1 + (length (quoted s) + 1) + length tail
            ≡ i + suc (length (quoted s ++ (34 ∷ tail))) =
          omega (arith, length-append {0} (quoted s) (34 ∷ tail)) in
        e)
past_inner n (object inner rest) after i h =
    let body = text_of_inner inner in
    let tail = text_of_inner rest in
    ap (λ (t : Bytes). object_end_from (pos (suc (suc n))) false t (i + 1))
      (append_assoc body (125 ∷ tail) after)
    ∙ past_inner (suc n) inner (125 ∷ (tail ++ after)) (i + 1) (omega arith)
    ∙ past_inner n rest after (i + 1 + length body + 1) h
    ∙ ap (object_end_from (pos (suc n)) false after) (
        let e : i + 1 + length body + 1 + length tail ≡ i + suc (length (body ++ (125 ∷ tail))) =
          omega (arith, length-append {0} body (125 ∷ tail)) in
        e)
past_inner n (plain c ok rest) after i h =
    let quote : (c == 34) ≡ false = ground arith in
    let opening : (c == 123) ≡ false = ground arith in
    let closing : (c == 125) ≡ false = ground arith in
    rw (quote, opening, closing) (past_inner n rest after (i + 1) h)
    ∙ ap (object_end_from (pos (suc n)) false after) (
        let e : i + 1 + length (text_of_inner rest) ≡ i + suc (length (text_of_inner rest)) =
          omega arith in
        e)

-- The brace that is found is the one that closes the object.
pub find_object_end-closes :
    (inner : Inner) (after : Bytes)
    → find_object_end (123 ∷ (text_of_inner inner ++ (125 ∷ after)))
      ≡ some (1 + length (text_of_inner inner))
unfolding find_object_end object_end_from
find_object_end-closes inner after =
    let body = text_of_inner inner in past_inner 0 inner (125 ∷ after) 1 (omega arith)
