-- ===== src/PrivatePort.antt =====
-- source/private_port.c: the private port, from the serial number in the console's settings. The file is
-- read by ISFS calls, a parameter. An int of the loop is a number; a `uint32_t` wraps.
use Prim.Native.Nat.{bit_and, bit_or, bit_xor}
use rr_launcher.Prelude.{
  ℕ, zero, suc, ◌+◌, ◌-◌, ◌*◌, ◌/◌, ◌%◌, ◌^◌, Bool, true, false, ◌&&◌, ◌||◌, not, if◌then◌else◌,
  ltb, ◌==◌, Option, none, some, List, [], ◌∷◌, length, Bytes, codes, u16, u32,
}
mod Secret
mod Tests

abbrev pub setting_size : ℕ
setting_size = 256

abbrev pub setting_xor_key : ℕ
setting_xor_key = 0x73B5DBFA

-- `(key << 1) | (key >> 31)`
abbrev pub rotate : ℕ → ℕ
rotate key = bit_or (u32 (key * 2)) (key / 2 ^ 31)

-- The loop of `rr_setting_decrypt`.
unfoldable pub decrypt_from : ℕ → Bytes → Bytes
decrypt_from key [] = []
decrypt_from key (b ∷ buf) = bit_xor b (bit_and key 0xff) ∷ decrypt_from (rotate key) buf

-- `rr_setting_decrypt`
unfoldable pub decrypt : Bytes → Bytes
decrypt buf = decrypt_from setting_xor_key buf

abbrev pub is_digit : ℕ → Bool
is_digit c = not (ltb c 48) && not (ltb 57 c)

-- The digits that stand next: their value in 32 bits, and how many.
unfoldable pub digits_from : ℕ → ℕ → Bytes → ℕ × ℕ
digits_from value digits [] = (value, digits)
digits_from value digits (c ∷ rest) =
    let more = digits_from (u32 (value * 10 + (c - 48))) (digits + 1) rest in
    if is_digit c then more else (value, digits)

abbrev after_prefix : Bytes → Bytes → Option Bytes
after_prefix [] buf = some buf
after_prefix (a ∷ prefix) [] = none
after_prefix (a ∷ prefix) (b ∷ buf) = if a == b then after_prefix prefix buf else none

abbrev pub serno_of : ℕ × ℕ → Option ℕ
serno_of (value, digits) = if digits == 0 then none else some value

abbrev pub found_or : Option Bytes → Option ℕ → Option ℕ
found_or none later = later
found_or (some rest) later = serno_of (digits_from 0 0 rest)

-- `rr_parse_serno`: at the first place where "SERNO=" stands.
unfoldable pub parse_serno : Bytes → Option ℕ
parse_serno [] = none
parse_serno (b ∷ buf) = found_or (after_prefix (codes "SERNO=") (b ∷ buf)) (parse_serno buf)

-- What ISFS does: it starts, the file opens, and what a read of 256 bytes gives.
pub record Settings : Type 0 where
  pub starts : Bool
  pub opens : Bool
  pub content : Bytes

abbrev pub port_of : Option ℕ → Option ℕ
port_of none = none
port_of (some serno) = some (u16 (22000 + serno % 1000))

-- `rr_get_mkwii_private_port`
unfoldable pub get_private_port : Settings → Option ℕ
get_private_port file =
    if file.starts && file.opens && (length file.content == setting_size)
    then port_of (parse_serno (decrypt file.content))
    else none
