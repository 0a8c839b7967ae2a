-- ===== src/Dvd/EntryNum.antt =====
-- The special entry numbers of runtime-ext/source/dvd.c, as 32-bit patterns.
use Prim.Native.Nat.{bit_and, bit_or}
use rr_launcher.Prelude.{
  ℕ, ◌+◌, ◌-◌, ◌*◌, ◌/◌, ◌%◌, ◌^◌, ◌<◌, ◌≡◌, ap, Bool, true, ◌==◌, ◌↔◌, arith, u32_mod, ==_iff,
}
use rr_launcher.Prelude.Bits.{bit_or_fields, bit_and_high, bit_and_mask}

-- `SPECIAL_ENTRYNUM`
abbrev pub special_entrynum : ℕ
special_entrynum = 0b0111111101 * 2 ^ 22

-- `SPECIAL_ENTRYNUM_MASK`
abbrev pub special_entrynum_mask : ℕ
special_entrynum_mask = 0b1111111111 * 2 ^ 22

-- `SPECIAL_ENTRYNUM | entry_num`
unfoldable pub mark_special : ℕ → ℕ
mark_special entry_num = bit_or special_entrynum entry_num

-- `(n & SPECIAL_ENTRYNUM_MASK) == SPECIAL_ENTRYNUM`
unfoldable pub is_special : ℕ → Bool
is_special n = bit_and n special_entrynum_mask == special_entrynum

-- `n & ~SPECIAL_ENTRYNUM_MASK`
unfoldable pub unmark : ℕ → ℕ
unmark n = bit_and n (2 ^ 22 - 1)

high_bits : (n : ℕ) → bit_and n special_entrynum_mask ≡ n / 2 ^ 22 % 2 ^ 10 * 2 ^ 22
high_bits n = omega (
  arith,
  bit_and_high 22 (n / 2 ^ 22) 0b1111111111 (n % 2 ^ 22) (omega arith),
  ap (λ (t : ℕ). bit_and t special_entrynum_mask)
      (let e : n / 2 ^ 22 * 2 ^ 22 + n % 2 ^ 22 ≡ n = omega arith in e),
  bit_and_mask 10 (n / 2 ^ 22),
)

-- A marked entry number of up to 22 bits is recognised, and unmarking it gives it back.
unmark-mark_special :
    (entry_num : ℕ)
    → entry_num < 2 ^ 22
    → (is_special (mark_special entry_num) ≡ true) × (unmark (mark_special entry_num) ≡ entry_num)
unfolding is_special unmark mark_special
unmark-mark_special n h =
    let marked : bit_or special_entrynum n ≡ special_entrynum + n =
      bit_or_fields 22 0b0111111101 n h in
    (
      (==_iff (bit_and (bit_or special_entrynum n) special_entrynum_mask) special_entrynum).1
          (omega (arith, high_bits (bit_or special_entrynum n), marked)),
      omega (arith, bit_and_mask 22 (bit_or special_entrynum n), marked),
    )

-- A 32-bit pattern is special exactly when it lies in one block of 2^22 values.
pub is_special_iff : (n : ℕ) → n < u32_mod → (is_special n ≡ true) ↔ (n / 2 ^ 22 ≡ 0b0111111101)
unfolding is_special
is_special_iff n h = (
  λ e. omega (arith, high_bits n, (==_iff (bit_and n special_entrynum_mask) special_entrynum).0 e),
  λ e. (==_iff (bit_and n special_entrynum_mask) special_entrynum).1 (omega (arith, high_bits n)),
)
