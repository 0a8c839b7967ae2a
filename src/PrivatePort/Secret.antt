-- ===== src/PrivatePort/Secret.antt =====
-- source/private_port.c: the settings are masked by a fixed stream, so decrypting is encrypting, and the
-- port comes from the serial number in them.
use rr_launcher.Prelude.{
  ℕ, suc, ◌+◌, ◌-◌, ◌*◌, ◌%◌, ◌^◌, ◌≤◌, ◌<◌, ◌≡◌, refl, ap, ap₂, ◌∙◌, true, false, ◌==◌, some, [],
  ◌∷◌, ◌++◌, length, Bytes, codes, u16, u32, All, arith,
}
use Prim.Native.Nat.{bit_and}
use rr_launcher.Prelude.Xor.{xor_twice}
use rr_launcher.PrivatePort.{
  setting_size, setting_xor_key, rotate, decrypt_from, decrypt, is_digit, digits_from, parse_serno,
  Settings, get_private_port,
}

decrypt_from-twice : (key : ℕ) (buf : Bytes) → decrypt_from key (decrypt_from key buf) ≡ buf
unfolding decrypt_from
decrypt_from-twice key [] = refl
decrypt_from-twice key (b ∷ buf) =
    ap₂ (λ (x : ℕ) (xs : Bytes). x ∷ xs) (xor_twice b (bit_and key 0xff))
      (decrypt_from-twice (rotate key) buf)

length-decrypt_from : (key : ℕ) (buf : Bytes) → length (decrypt_from key buf) ≡ length buf
unfolding decrypt_from
length-decrypt_from key [] = refl
length-decrypt_from key (b ∷ buf) = ap suc (length-decrypt_from (rotate key) buf)

-- The value of digits, one after the other.
abbrev pub value_of : ℕ → Bytes → ℕ
value_of value [] = value
value_of value (c ∷ text) = value_of (value * 10 + (c - 48)) text

abbrev pub IsNumber : Bytes → Type 0
IsNumber = All (λ c. (48 ≤ c) × (c ≤ 57))

value_of-grows : (value : ℕ) (text : Bytes) → value ≤ value_of value text
value_of-grows value [] = omega arith
value_of-grows value (c ∷ text) = omega (arith, value_of-grows (value * 10 + (c - 48)) text)

digits_from-number :
    (value digits : ℕ) (text : Bytes) (after : Bytes)
    → IsNumber text
    → value_of value text < 2 ^ 32
    → digits_from value digits (text ++ (13 ∷ after)) ≡ (value_of value text, digits + length text)
unfolding digits_from
digits_from-number value digits [] after ok small =
    ap (λ (n : ℕ). (value, n)) (let e : digits ≡ digits + 0 = omega arith in e)
digits_from-number value digits (c ∷ text) after ((low, high), ok) small =
    let is : is_digit c ≡ true = ground arith in
    let grows = value_of-grows (value * 10 + (c - 48)) text in
    let fits : u32 (value * 10 + (c - 48)) ≡ value * 10 + (c - 48) = omega arith in
    rw (is, fits)
      (digits_from-number (value * 10 + (c - 48)) (digits + 1) text after ok small
        ∙ ap (λ (n : ℕ). (value_of (value * 10 + (c - 48)) text, n))
            (let e : digits + 1 + length text ≡ digits + suc (length text) = omega arith in e))

-- Encrypted settings of 256 bytes that begin with "SERNO=", digits of a number below 2^32 and a line's end
-- give the port of that serial number, which lies from 22000 to 22999.
pub get_private_port-serno :
    (c : ℕ) (text after : Bytes)
    → IsNumber (c ∷ text)
    → value_of 0 (c ∷ text) < 2 ^ 32
    → length (codes "SERNO=" ++ ((c ∷ text) ++ (13 ∷ after))) ≡ setting_size
    → let settings : Settings = record {
      starts = true;
      opens = true;
      content = decrypt (codes "SERNO=" ++ ((c ∷ text) ++ (13 ∷ after)));
    } in
      (get_private_port settings ≡ some (22000 + value_of 0 (c ∷ text) % 1000))
      × (22000 + value_of 0 (c ∷ text) % 1000 ≤ 22999)
unfolding get_private_port decrypt parse_serno
get_private_port-serno c text after ok small whole =
    let plain = codes "SERNO=" ++ ((c ∷ text) ++ (13 ∷ after)) in
    let size : (length (decrypt_from setting_xor_key plain) == setting_size) ≡ true =
      ground (arith, length-decrypt_from setting_xor_key plain) in
    let read = digits_from-number 0 0 (c ∷ text) after ok small in
    let port : u16 (22000 + value_of 0 (c ∷ text) % 1000) ≡ 22000 + value_of 0 (c ∷ text) % 1000 =
      omega arith in
    let some_digits : (0 + length (c ∷ text) == 0) ≡ false = ground arith in
    (rw (size, decrypt_from-twice setting_xor_key plain, read, some_digits, port) refl, omega arith)
