-- ===== src/Prelude/Words.antt =====
-- Machine words: the range of each width, and the wrap of a cast to it.
use Prim.Native.Nat.{ℕ, ◌-◌, ◌%◌, ◌^◌}

abbrev pub u8_mod : ℕ
u8_mod = 2 ^ 8

abbrev pub u16_mod : ℕ
u16_mod = 2 ^ 16

abbrev pub u32_mod : ℕ
u32_mod = 2 ^ 32

-- The greatest `int`.
abbrev pub int_max : ℕ
int_max = 2 ^ 31 - 1

abbrev pub u8 : ℕ → ℕ
u8 n = n % u8_mod

abbrev pub u16 : ℕ → ℕ
u16 n = n % u16_mod

abbrev pub u32 : ℕ → ℕ
u32 n = n % u32_mod
