-- ===== src/Version/Decimal.antt =====
-- Printing a number by `%d` and reading it by `strtol`, as source/update/update.c and
-- source/versionutils.c do.
use native.Mathlib.Nat.{pow-suc}
use rr_launcher.Prelude.{
  ℕ, zero, suc, ◌+◌, ◌-◌, ◌*◌, ◌/◌, ◌%◌, ◌^◌, ◌<◌, ◌≡◌, refl, sym, ap, ◌∙◌, true, false, List, [],
  ◌∷◌, ◌++◌, ltb, ◌==◌, Bytes, All, min, arith, Bool-cases, inl, inr,
}
use rr_launcher.Prelude.Int.{ℤ, pos, negsuc, sub_ℕ}
use rr_launcher.Version.{
  is_space, is_digit, skip_spaces, digits_value, strtol_signed, strtol, decimal, print_int,
}

abbrev pub AllDigits : Bytes → Type 0
AllDigits = All (λ c. is_digit c ≡ true)

All-append {ℓ κ} :
    {A : Type ℓ} (P : A → Type κ) (xs ys : List A) → All P xs → All P ys → All P (xs ++ ys)
All-append P [] ys p q = q
All-append P (x ∷ xs) ys p q = (p.0, All-append P xs ys p.1 q)

is_digit-digit : (d : ℕ) → d < 10 → is_digit (d + b'0') ≡ true
unfolding is_digit
is_digit-digit d h = ground arith

pub decimal-AllDigits : (fuel n : ℕ) → AllDigits (decimal fuel n)
unfolding decimal
decimal-AllDigits zero n = tt
decimal-AllDigits (suc fuel) n = elim (Bool-cases (ltb n 10)) [
  | inl small ↦ rw small (is_digit-digit n (ground arith), tt)
  | inr large ↦ rw large (
      All-append (λ c. is_digit c ≡ true) (decimal fuel (n / 10)) ((n % 10 + b'0') ∷ [])
        (decimal-AllDigits fuel (n / 10)) (is_digit-digit (n % 10) (omega arith), tt))
]

digits_value-append :
    (acc : ℕ) (xs ys : Bytes)
    → AllDigits xs
    → digits_value acc (xs ++ ys) ≡ digits_value (digits_value acc xs) ys
unfolding digits_value
digits_value-append acc [] ys p = refl
digits_value-append acc (x ∷ xs) ys p =
    rw p.0 (digits_value-append (acc * 10 + (x - b'0')) xs ys p.1)

digits_value-digit : (acc d : ℕ) → d < 10 → digits_value acc ((d + b'0') ∷ []) ≡ acc * 10 + d
unfolding digits_value
digits_value-digit acc d h = rw (is_digit-digit d h) (omega arith)

div_lt : (fuel n : ℕ) → n < 10 ^ suc fuel → n / 10 < 10 ^ fuel
div_lt fuel n h = omega (arith, pow-suc 10 fuel)

pub digits_value-decimal : (fuel n : ℕ) → n < 10 ^ fuel → digits_value 0 (decimal fuel n) ≡ n
unfolding decimal
digits_value-decimal zero n h = unfold digits_value in omega arith
digits_value-decimal (suc fuel) n h = elim (Bool-cases (ltb n 10)) [
  | inl small ↦ rw small (omega (arith, digits_value-digit 0 n (ground arith)))
  | inr large ↦
      rw
        (
          large,
          digits_value-append 0 (decimal fuel (n / 10)) ((n % 10 + b'0') ∷ [])
              (decimal-AllDigits fuel (n / 10)),
          digits_value-decimal fuel (n / 10) (div_lt fuel n h),
          digits_value-digit (n / 10) (n % 10) (omega arith),
        )
        (omega arith)
]

-- What is printed starts with a digit.
pub decimal-first :
    (fuel n : ℕ) → (c : ℕ) × (s : Bytes) × (decimal (suc fuel) n ≡ c ∷ s) × (is_digit c ≡ true)
unfolding decimal
decimal-first zero n = elim (Bool-cases (ltb n 10)) [
  | inl small ↦ (n + b'0', [], rw small, is_digit-digit n (ground arith))
  | inr large ↦ (n % 10 + b'0', [], rw large, is_digit-digit (n % 10) (omega arith))
]
decimal-first (suc fuel) n = elim (Bool-cases (ltb n 10)) [
  | inl small ↦ (n + b'0', [], rw small, is_digit-digit n (ground arith))
  | inr large ↦
      let (c, s, e, d) = decimal-first fuel (n / 10) in
      (c, s ++ (n % 10 + b'0') ∷ [], rw large (ap (λ (t : Bytes). t ++ (n % 10 + b'0') ∷ []) e), d)
]

-- An `int`.
abbrev pub IsInt : ℤ → Type 0
IsInt (pos n) = n < 2 ^ 31
IsInt (negsuc n) = n < 2 ^ 31

digit-plain :
    (c : ℕ)
    → is_digit c ≡ true
    → (is_space c ≡ false) × ((c == b'-') ≡ false) × ((c == b'+') ≡ false)
unfolding is_digit is_space
digit-plain c h = (ground arith, ground arith, ground arith)

strtol-digits :
    (t : Bytes) (c : ℕ) (s : Bytes)
    → t ≡ c ∷ s
    → is_digit c ≡ true
    → strtol t ≡ pos (min (digits_value 0 t) 0x7FFFFFFF)
unfolding strtol skip_spaces strtol_signed
strtol-digits t c s e d =
    let (space, minus, plus) = digit-plain c d in
    ap strtol e
    ∙ (rw (space, minus, plus)
        (ap (λ (u : Bytes). pos (min (digits_value 0 u) 0x7FFFFFFF)) (sym e)))

strtol-minus : (t : Bytes) → strtol (b'-' ∷ t) ≡ sub_ℕ 0 (min (digits_value 0 t) 0x80000000)
unfolding strtol skip_spaces strtol_signed is_space
strtol-minus t = refl

pos-value : (n : ℕ) → n < 2 ^ 31 → pos (min n 0x7FFFFFFF) ≡ pos n
pos-value n h = ap pos (omega arith)

neg-value : (n : ℕ) → n < 2 ^ 31 → sub_ℕ 0 (min (suc n) 0x80000000) ≡ negsuc n
neg-value n h =
    let whole : min (suc n) 0x80000000 ≡ suc n = omega arith in ap (sub_ℕ 0) whole ∙ (ground arith)

-- `strtol` reads what `%d` prints.
pub strtol-print_int : (v : ℤ) → IsInt v → strtol (print_int v) ≡ v
unfolding print_int
strtol-print_int (pos n) h =
    let (c, s, e, d) = decimal-first 9 n in
    strtol-digits (decimal 10 n) c s e d
    ∙ (ap (λ (m : ℕ). pos (min m 0x7FFFFFFF)) (digits_value-decimal 10 n (omega arith))
        ∙ pos-value n h)
strtol-print_int (negsuc n) h =
    strtol-minus (decimal 10 (suc n))
    ∙ (ap (λ (m : ℕ). sub_ℕ 0 (min m 0x80000000)) (digits_value-decimal 10 (suc n) (omega arith))
        ∙ neg-value n h)
