-- ===== src/Console/Replacement.antt =====
-- What `rrc_con_ascii_safe` of source/console.c writes for a character: ASCII, and no more bytes than the
-- character has.
use Prim.Native.Nat.{bit_and}
use native.Mathlib.Nat.{mod-lt, one-le-pow}
use rr_launcher.Prelude.{
  ℕ, suc, ◌-◌, ◌^◌, ◌≤◌, ◌<◌, ◌≡◌, ◌⊎◌, refl, Bool, true, false, ◌&&◌, ◌||◌, if◌then◌else◌, ltb,
  ◌==◌, ==_iff, Bool-cases, inl, inr, [], ◌∷◌, length, Bytes, All, arith,
}
use rr_launcher.Prelude.Bits.{bit_or_fields, bit_and_mask}
use rr_launcher.Console.{codepoint2, codepoint3, codepoint4, replacement}
use rr_launcher.Console.AsciiSafe.{following, continuations, printable, continuations-fit, both}

-- What stands for a character that took `n` bytes: it is ASCII, and no longer.
pub record IsPrintable (n : ℕ) (repl : Bytes) : Type 0 where
  pub ascii : All (λ b. (0 < b) × (b < 0x80)) repl
  pub short : length repl ≤ n

if-IsPrintable :
    (n : ℕ) (b : Bool) {x y : Bytes}
    → IsPrintable n x
    → (b ≡ false → IsPrintable n y)
    → IsPrintable n (if b then x else y)
if-IsPrintable n true p q = p
if-IsPrintable n false p q = q refl

if-IsPrintable' :
    (n : ℕ) (b : Bool) {x y : Bytes}
    → (b ≡ true → IsPrintable n x)
    → (b ≡ false → IsPrintable n y)
    → IsPrintable n (if b then x else y)
if-IsPrintable' n true p q = p refl
if-IsPrintable' n false p q = q refl

-- A literal of one or two characters.
literal :
    (n : ℕ) (text : Bytes)
    → 2 ≤ n
    → length text ≤ 2
    → All (λ b. (0 < b) × (b < 0x80)) text
    → IsPrintable n text
literal n text h k a = record { ascii = a; short = omega arith }

ascii2 :
    (a b : ℕ) → 0 < a → a < 0x80 → 0 < b → b < 0x80 → All (λ b. (0 < b) × (b < 0x80)) (a ∷ b ∷ [])
ascii2 a b p q r s = ((p, q), ((r, s), tt))

ascii1 : (a : ℕ) → 0 < a → a < 0x80 → All (λ b. (0 < b) × (b < 0x80)) (a ∷ [])
ascii1 a p q = ((p, q), tt)

-- Only the ellipsis takes three.
replacement-IsPrintable :
    (n codepoint : ℕ)
    → 2 ≤ n
    → (codepoint < 0x2026) ⊎ (3 ≤ n)
    → IsPrintable n (replacement codepoint)
unfolding replacement
replacement-IsPrintable n codepoint h room =
    let pair : (a b : ℕ) → 0 < a → a < 0x80 → 0 < b → b < 0x80 → IsPrintable n (a ∷ b ∷ []) =
      λ a b p q r s. literal n (a ∷ b ∷ []) h (omega arith) (ascii2 a b p q r s) in
    let one : (a : ℕ) → 0 < a → a < 0x80 → IsPrintable n (a ∷ []) =
      λ a p q. literal n (a ∷ []) h (omega arith) (ascii1 a p q) in
    if-IsPrintable n (codepoint == 0xE4)
      (pair 97 101 (omega arith) (omega arith) (omega arith) (omega arith))
      (λ _.
        if-IsPrintable n (codepoint == 0xC4)
          (pair 65 101 (omega arith) (omega arith) (omega arith) (omega arith))
          (λ _.
            if-IsPrintable n (codepoint == 0xF6)
              (pair 111 101 (omega arith) (omega arith) (omega arith) (omega arith))
              (λ _.
                if-IsPrintable n (codepoint == 0xD6)
                  (pair 79 101 (omega arith) (omega arith) (omega arith) (omega arith))
                  (λ _.
                    if-IsPrintable n (codepoint == 0xFC)
                      (pair 117 101 (omega arith) (omega arith) (omega arith) (omega arith))
                      (λ _.
                        if-IsPrintable n (codepoint == 0xDC)
                          (pair 85 101 (omega arith) (omega arith) (omega arith) (omega arith))
                          (λ _.
                            if-IsPrintable n (codepoint == 0xDF)
                              (pair 115 115 (omega arith) (omega arith) (omega arith) (omega arith))
                              (λ _.
                                if-IsPrintable n (codepoint == 0x2013 || codepoint == 0x2014)
                                  (one 45 (omega arith) (omega arith))
                                  (λ _.
                                    if-IsPrintable n (codepoint == 0x2018 || codepoint == 0x2019)
                                      (one 39 (omega arith) (omega arith))
                                      (λ _.
                                        if-IsPrintable n
                                          (codepoint == 0x201C || codepoint == 0x201D)
                                          (one 34 (omega arith) (omega arith))
                                          (λ _.
                                            if-IsPrintable' n (codepoint == 0x2026)
                                              (λ e. record {
                                                ascii = (
                                                  (omega arith, omega arith),
                                                  (
                                                    (omega arith, omega arith),
                                                    ((omega arith, omega arith), tt),
                                                  ),
                                                );
                                                short = ground (arith, ==_iff codepoint 0x2026);
                                              })
                                              (λ _. one 63 (omega arith) (omega arith))))))))))))

low_bits : (k a : ℕ) → bit_and a (2 ^ k - 1) < 2 ^ k
low_bits k a = omega (arith, bit_and_mask k a, mod-lt a (one-le-pow k 2 (omega arith)))

-- Two bytes hold less than the ellipsis.
codepoint2-lt : (c b : ℕ) → codepoint2 c b < 0x2026
codepoint2-lt c b = omega (
  arith,
  bit_or_fields 6 (bit_and c 0x1F) (bit_and b 0x3F) (low_bits 6 b),
  low_bits 5 c,
  low_bits 6 b,
)

-- What the code writes for a character is ASCII, and takes no more room than the character.
pub printable-IsPrintable :
    (c : ℕ) (rest : Bytes)
    → 0 < c
    → IsPrintable (printable c rest).1 (printable c rest).0
      × (0 < (printable c rest).1)
      × ((printable c rest).1 ≤ suc (length rest))
printable-IsPrintable c rest h = elim (Bool-cases (ltb c 0x80)) [
  | inl ascii ↦
      rw ascii
        (record { ascii = ((h, ground arith), tt); short = omega arith }, omega arith, omega arith)
  | inr wide ↦
      let lead2 = bit_and c 0xE0 == 0xC0 in
      let lead3 = bit_and c 0xF0 == 0xE0 in
      let lead4 = bit_and c 0xF8 == 0xF0 in
      let fits : (n : ℕ) (lead : Bool) → (lead && continuations n rest 0) ≡ true → n ≤ length rest =
        λ n lead e. omega (
          arith,
          continuations-fit [] c rest [] n 0 (omega arith)
              (both [] c rest [] lead (continuations n rest 0) e),
        ) in
      elim (Bool-cases (lead2 && continuations 1 rest 0)) [
        | inl two ↦
            rw (wide, two)
              (
                replacement-IsPrintable 2 (codepoint2 c (following rest 0)) (omega arith)
                    (inl (codepoint2-lt c (following rest 0))),
                omega arith,
                omega (arith, fits 1 lead2 two),
              )
        | inr not2 ↦ elim (Bool-cases (lead3 && continuations 2 rest 0)) [
          | inl three ↦
              rw (wide, not2, three)
                (
                  replacement-IsPrintable 3 (codepoint3 c (following rest 0) (following rest 1))
                      (omega arith) (inr (omega arith)),
                  omega arith,
                  omega (arith, fits 2 lead3 three),
                )
          | inr not3 ↦ elim (Bool-cases (lead4 && continuations 3 rest 0)) [
            | inl four ↦
                rw (wide, not2, not3, four)
                  (
                    replacement-IsPrintable 4
                        (codepoint4 c (following rest 0) (following rest 1) (following rest 2))
                        (omega arith) (inr (omega arith)),
                    omega arith,
                    omega (arith, fits 3 lead4 four),
                  )
            | inr not4 ↦
                rw (wide, not2, not3, not4)
                  (
                    record { ascii = ((omega arith, omega arith), tt); short = omega arith },
                    omega arith,
                    omega arith,
                  )
          ]
        ]
      ]
]
