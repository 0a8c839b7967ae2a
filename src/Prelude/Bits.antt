-- ===== src/Prelude/Bits.antt =====
-- `&` and `|` on bit fields, as arithmetic. Both are taken apart digit by digit, so one law about
-- fields serves both.
use Prim.Native.Nat.{
  ℕ, zero, suc, ◌+◌, ◌-◌, ◌*◌, ◌/◌, ◌%◌, ◌^◌, ◌≤◌, ◌<◌, min, max, bit_and, bit_or, digits,
  bit_and-bitwise, bit_or-bitwise,
}
use mathlib.Core.Path.{◌≡◌, refl, ap, ap₂}
use native.Mathlib.Nat.{pow-suc, one-le-pow, mod-lt, div-add-mod'}
use native.Mathlib.Omega.{arith}

-- Fuel past the number of digits changes nothing.
pub enough_fuel :
    (z : ℕ → ℕ) (bit : ℕ → ℕ → ℕ) (a b few many : ℕ)
    → a ≤ few
    → few ≤ many
    → digits z bit many a b ≡ digits z bit few a b
enough_fuel z bit zero b zero zero p q = refl
enough_fuel z bit zero b zero (suc many) p q = refl
enough_fuel z bit zero b (suc few) zero p q = refl
enough_fuel z bit zero b (suc few) (suc many) p q = refl
enough_fuel z bit (suc a) b zero many p q = absurd (omega arith)
enough_fuel z bit (suc a) b (suc few) zero p q = absurd (omega arith)
enough_fuel z bit (suc a) b (suc few) (suc many) p q =
    ap (λ (t : ℕ). t * 2 + bit (suc a % 2) (b % 2))
      (enough_fuel z bit (suc a / 2) (b / 2) few many (omega arith) (omega arith))

and_step : (a b : ℕ) → bit_and a b ≡ bit_and (a / 2) (b / 2) * 2 + min (a % 2) (b % 2)
and_step zero b = omega (arith, bit_and-bitwise 0 b, bit_and-bitwise 0 (b / 2))
and_step (suc a) b = omega (
  arith,
  bit_and-bitwise (suc a) b,
  bit_and-bitwise (suc a / 2) (b / 2),
  enough_fuel (λ _. 0) min (suc a / 2) (b / 2) (suc a / 2) a (omega arith) (omega arith),
)

or_step : (a b : ℕ) → bit_or a b ≡ bit_or (a / 2) (b / 2) * 2 + max (a % 2) (b % 2)
or_step zero b = omega (arith, bit_or-bitwise 0 b, bit_or-bitwise 0 (b / 2))
or_step (suc a) b = omega (
  arith,
  bit_or-bitwise (suc a) b,
  bit_or-bitwise (suc a / 2) (b / 2),
  enough_fuel (λ y. y) max (suc a / 2) (b / 2) (suc a / 2) a (omega arith) (omega arith),
)

half_field : (q r k : ℕ) → (q * 2 ^ suc k + r) / 2 ≡ q * 2 ^ k + r / 2
half_field q r k = omega (arith, ap (λ (t : ℕ). q * t) (pow-suc 2 k))

low_digit : (q r k : ℕ) → (q * 2 ^ suc k + r) % 2 ≡ r % 2
low_digit q r k = omega (arith, ap (λ (t : ℕ). q * t) (pow-suc 2 k))

module _ (op bit : ℕ → ℕ → ℕ)
    (op_step : (a b : ℕ) → op a b ≡ op (a / 2) (b / 2) * 2 + bit (a % 2) (b % 2))
    (op_zero : op 0 0 ≡ 0) where
  -- The operation works on high and low fields apart.
  fields :
      (k q p r s : ℕ)
      → r < 2 ^ k
      → s < 2 ^ k
      → op (q * 2 ^ k + r) (p * 2 ^ k + s) ≡ op q p * 2 ^ k + op r s
  fields zero q p r s h j = omega (
    arith,
    ap₂ op (let e : q * 2 ^ 0 + r ≡ q = omega arith in e)
        (let e : p * 2 ^ 0 + s ≡ p = omega arith in e),
    ap₂ op (let e : r ≡ 0 = omega arith in e) (let e : s ≡ 0 = omega arith in e),
    op_zero,
  )
  fields (suc k) q p r s h j = omega (
    arith,
    op_step (q * 2 ^ suc k + r) (p * 2 ^ suc k + s),
    op_step r s,
    ap₂ op (half_field q r k) (half_field p s k),
    ap₂ bit (low_digit q r k) (low_digit p s k),
    fields k q p (r / 2) (s / 2) (omega (arith, pow-suc 2 k)) (omega (arith, pow-suc 2 k)),
    ap (λ (t : ℕ). op q p * t) (pow-suc 2 k),
  )

or-zero : (a b : ℕ) → a ≤ b → bit_or a 0 ≡ a
or-zero zero b h = refl
or-zero (suc a) zero h = absurd (omega arith)
or-zero (suc a) (suc b) h = omega (arith, or_step (suc a) 0, or-zero (suc a / 2) b (omega arith))

zero-or : (a b : ℕ) → a ≤ b → bit_or 0 a ≡ a
zero-or zero b h = refl
zero-or (suc a) zero h = absurd (omega arith)
zero-or (suc a) (suc b) h = omega (arith, or_step 0 (suc a), zero-or (suc a / 2) b (omega arith))

and-zero : (a b : ℕ) → a ≤ b → bit_and a 0 ≡ 0
and-zero zero b h = refl
and-zero (suc a) zero h = absurd (omega arith)
and-zero (suc a) (suc b) h = omega (arith, and_step (suc a) 0, and-zero (suc a / 2) b (omega arith))

-- `(q << k) | r`, where `r` fits `k` bits, is a sum.
pub bit_or_fields : (k q r : ℕ) → r < 2 ^ k → bit_or (q * 2 ^ k) r ≡ q * 2 ^ k + r
bit_or_fields k q r h = omega (
  arith,
  fields bit_or max or_step refl k q 0 0 r (one-le-pow k 2 (omega arith)) h,
  ap₂ bit_or (let e : q * 2 ^ k + 0 ≡ q * 2 ^ k = omega arith in e)
      (let e : 0 * 2 ^ k + r ≡ r = omega arith in e),
  ap (λ (t : ℕ). t * 2 ^ k) (or-zero q q (omega arith)),
  zero-or r r (omega arith),
)

ones : (k r : ℕ) → r < 2 ^ k → bit_and r (2 ^ k - 1) ≡ r
ones zero r h = omega (arith, and-zero r r (omega arith))
ones (suc k) r h = omega (
  arith,
  and_step r (2 ^ suc k - 1),
  ones k (r / 2) (omega (arith, pow-suc 2 k)),
  ap (bit_and (r / 2))
      (let e : (2 ^ suc k - 1) / 2 ≡ 2 ^ k - 1 = omega (arith, pow-suc 2 k, one-le-pow k 2) in e),
  pow-suc 2 k,
  one-le-pow k 2,
)

-- `a & mask`, where the mask has its ones from bit `k` on for as many bits as `p` has.
pub bit_and_high :
    (k q p r : ℕ) → r < 2 ^ k → bit_and (q * 2 ^ k + r) (p * 2 ^ k) ≡ bit_and q p * 2 ^ k
bit_and_high k q p r h = omega (
  arith,
  fields bit_and min and_step refl k q p r 0 h (one-le-pow k 2 (omega arith)),
  ap (bit_and (q * 2 ^ k + r)) (let e : p * 2 ^ k + 0 ≡ p * 2 ^ k = omega arith in e),
  and-zero r r (omega arith),
)

-- `a & (2^k - 1)` is the remainder.
pub bit_and_mask : (k a : ℕ) → bit_and a (2 ^ k - 1) ≡ a % 2 ^ k
bit_and_mask k a =
    let pow : 1 ≤ 2 ^ k = one-le-pow k 2 (omega arith) in
    let low : a % 2 ^ k < 2 ^ k = mod-lt a pow in
    omega (
      arith,
      fields bit_and min and_step refl k (a / 2 ^ k) 0 (a % 2 ^ k) (2 ^ k - 1) low (omega arith),
      ap₂ bit_and (div-add-mod' a (2 ^ k))
          (let e : 0 * 2 ^ k + (2 ^ k - 1) ≡ 2 ^ k - 1 = omega arith in e),
      ap (λ (t : ℕ). t * 2 ^ k) (and-zero (a / 2 ^ k) (a / 2 ^ k) (omega arith)),
      ones k (a % 2 ^ k) low,
    )
