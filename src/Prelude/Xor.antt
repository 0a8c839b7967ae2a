-- ===== src/Prelude/Xor.antt =====
-- `^` on numbers: what is masked twice with the same mask is as it was.
use Prim.Native.Nat.{
  ℕ, zero, suc, ◌+◌, ◌*◌, ◌/◌, ◌%◌, ◌≤◌, ◌<◌, ◌^◌, bit_xor, bit_xor-bitwise, differ,
}
use mathlib.Core.Path.{◌≡◌, refl, ap}
use mathlib.Core.Logic.{◌⊎◌, inl, inr}
use native.Mathlib.Nat.{pow-suc}
use native.Mathlib.Omega.{arith}
use rr_launcher.Prelude.Bits.{enough_fuel}

xor_step : (a b : ℕ) → bit_xor a b ≡ bit_xor (a / 2) (b / 2) * 2 + differ (a % 2) (b % 2)
xor_step zero b = omega (arith, bit_xor-bitwise 0 b, bit_xor-bitwise 0 (b / 2))
xor_step (suc a) b = omega (
  arith,
  bit_xor-bitwise (suc a) b,
  bit_xor-bitwise (suc a / 2) (b / 2),
  enough_fuel (λ y. y) differ (suc a / 2) (b / 2) (suc a / 2) a (omega arith) (omega arith),
)

digit : (n : ℕ) → n < 2 → (n ≡ 0) ⊎ (n ≡ 1)
digit zero h = inl refl
digit (suc n) h = inr (omega arith)

differ_twice : (x y : ℕ) → x < 2 → y < 2 → differ (differ x y) y ≡ x
differ_twice x y p q = elim (digit x p) [
  | inl e ↦ elim (digit y q) [ inl f ↦ rw (e, f) refl | inr f ↦ rw (e, f) refl ]
  | inr e ↦ elim (digit y q) [ inl f ↦ rw (e, f) refl | inr f ↦ rw (e, f) refl ]
]

differ_small : (x y : ℕ) → x < 2 → y < 2 → differ x y < 2
differ_small x y p q = elim (digit x p) [
  | inl e ↦ elim (digit y q) [ inl f ↦ rw (e, f) (omega arith) | inr f ↦ rw (e, f) (omega arith) ]
  | inr e ↦ elim (digit y q) [ inl f ↦ rw (e, f) (omega arith) | inr f ↦ rw (e, f) (omega arith) ]
]

xor_half : (a b : ℕ) → bit_xor a b / 2 ≡ bit_xor (a / 2) (b / 2)
xor_half a b = omega (arith, xor_step a b, differ_small (a % 2) (b % 2) (omega arith) (omega arith))

xor_digit : (a b : ℕ) → bit_xor a b % 2 ≡ differ (a % 2) (b % 2)
xor_digit a b =
    omega (arith, xor_step a b, differ_small (a % 2) (b % 2) (omega arith) (omega arith))

xor_twice_fuel : (n a b : ℕ) → a ≤ n → b ≤ n → bit_xor (bit_xor a b) b ≡ a
xor_twice_fuel zero a b p q =
    let e : a ≡ 0 = omega arith in
    let f : b ≡ 0 = omega arith in
    rw (e, f)
      (omega (arith, bit_xor-bitwise 0 0, ap (λ (t : ℕ). bit_xor t 0) (bit_xor-bitwise 0 0)))
xor_twice_fuel (suc n) a b p q = omega (
  arith,
  xor_step (bit_xor a b) b,
  ap (λ (t : ℕ). bit_xor t (b / 2)) (xor_half a b),
  ap (λ (t : ℕ). differ t (b % 2)) (xor_digit a b),
  xor_twice_fuel n (a / 2) (b / 2) (omega arith) (omega arith),
  differ_twice (a % 2) (b % 2) (omega arith) (omega arith),
)

pub xor_twice : (a b : ℕ) → bit_xor (bit_xor a b) b ≡ a
xor_twice a b = xor_twice_fuel (a + b) a b (omega arith) (omega arith)

-- A number of k digits masked by one of k digits has k digits.
pub xor-lt : (k a b : ℕ) → a < 2 ^ k → b < 2 ^ k → bit_xor a b < 2 ^ k
xor-lt zero a b p q =
    let e : a ≡ 0 = omega arith in
    let f : b ≡ 0 = omega arith in rw (e, f) (omega (arith, bit_xor-bitwise 0 0))
xor-lt (suc k) a b p q = omega (
  arith,
  pow-suc 2 k,
  xor_step a b,
  differ_small (a % 2) (b % 2) (omega arith) (omega arith),
  xor-lt k (a / 2) (b / 2) (omega (arith, pow-suc 2 k)) (omega (arith, pow-suc 2 k)),
)
