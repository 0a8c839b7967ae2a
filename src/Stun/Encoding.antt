-- ===== src/Stun/Encoding.antt =====
-- STUN messages as RFC 5389 lays them out, and what the loop of source/stun.c makes of them.
use Prim.Native.Nat.{bit_and}
use native.Mathlib.Nat.{div-add-mod'}
use mathlib.Core.List.{append_assoc}
use rr_launcher.Prelude.{
  ℕ, zero, suc, ◌+◌, ◌-◌, ◌*◌, ◌/◌, ◌%◌, ◌^◌, ◌<◌, ◌≡◌, refl, sym, ap, ap₂, ◌∙◌, Bool, true, false,
  ltb, ◌==◌, Bool-cases, inl, inr, List, [], ◌∷◌, ◌++◌, length, length-append, length-replicate,
  replicate, get_elem?-append_left, get_elem?-append_past, Bytes, All, arith,
}
use rr_launcher.Prelude.Bits.{bit_or_fields, bit_and_high, bit_and_mask}
use rr_launcher.Result.{Outcome, done, ◌>>=◌, read, >>=-congr}
use rr_launcher.Stun.{byte, u16_at}
use rr_launcher.Stun.Message.{Found, parse_address, attribute, attributes_step, attributes, padded}

-- An attribute, and that its type and length fit their fields.
pub record Attribute : Type 0 where
  pub type : ℕ
  pub value : Bytes

pub record IsAttribute (a : Attribute) : Type 0 where
  pub type_fits : a.type < 2 ^ 16
  pub length_fits : length a.value < 2 ^ 16

-- A number in two bytes, high byte first.
unfoldable pub be16 : ℕ → Bytes
be16 n = n / 2 ^ 8 ∷ n % 2 ^ 8 ∷ []

-- The value of an attribute, with the zeros that fill it to a multiple of four bytes.
unfoldable pub encoded_value : Bytes → Bytes
encoded_value value = value ++ replicate ((length value + 3) / 4 * 4 - length value) 0

unfoldable pub encoded : List Attribute → Bytes
encoded [] = []
encoded (a ∷ attrs) =
    be16 a.type ++ (be16 (length a.value) ++ (encoded_value a.value ++ encoded attrs))

-- What the attributes say, each by itself, one after the other.
unfoldable pub understood : Bool → Found → List Attribute → Outcome Found
understood wanted found [] = done found
understood wanted found (a ∷ attrs) =
    attribute wanted a.value 0 a.type (length a.value) found >>= λ next.
    understood wanted next attrs

byte-append : (pre ys : Bytes) (off i : ℕ) → off ≡ length pre + i → byte (pre ++ ys) off ≡ byte ys i
byte-append pre ys off i h = ap read (get_elem?-append_past pre ys i off h)

u16_at-append :
    (pre ys : Bytes) (off i : ℕ) → off ≡ length pre + i → u16_at (pre ++ ys) off ≡ u16_at ys i
u16_at-append pre ys off i h =
    rw (byte-append pre ys off i h, byte-append pre ys (off + 1) (i + 1) (omega arith)) refl

module _ (pre value rest : Bytes) (off : ℕ) (at : off ≡ length pre) where
  byte-within : (j : ℕ) → j < length value → byte (pre ++ (value ++ rest)) (off + j) ≡ byte value j
  byte-within j h =
      byte-append pre (value ++ rest) (off + j) j (omega arith)
      ∙ ap read (get_elem?-append_left value rest j h)

  u16_at-within :
      (j k : ℕ)
      → k ≡ off + j
      → j + 1 < length value
      → u16_at (pre ++ (value ++ rest)) k ≡ u16_at value j
  u16_at-within j k e h =
      let next : k + 1 ≡ off + (j + 1) = omega arith in
      rw (next, e, byte-within j (omega arith), byte-within (j + 1) h) refl

  parse_address-within :
      (xor_address : Bool)
      → parse_address (pre ++ (value ++ rest)) off (length value) xor_address
        ≡ parse_address value 0 (length value) xor_address
  unfolding parse_address
  parse_address-within xor_address = elim (Bool-cases (ltb (length value) 8)) [
    | inl short ↦ rw short refl
    | inr long ↦
        rw
          (
            long,
            byte-within 1 (ground arith),
            u16_at-within 2 (off + 2) refl (ground arith),
            u16_at-within 4 (off + 4) refl (ground arith),
            u16_at-within 6 (off + 4 + 2) (omega arith) (ground arith),
          )
          refl
  ]

  attribute-within :
      (wanted : Bool) (type : ℕ) (found : Found)
      → attribute wanted (pre ++ (value ++ rest)) off type (length value) found
        ≡ attribute wanted value 0 type (length value) found
  unfolding attribute
  attribute-within wanted type found = elim (Bool-cases (ltb (length value) 8)) [
    | inl short ↦ rw (short, parse_address-within (type == 0x0020), parse_address-within false) refl
    | inr long ↦
        rw
          (
            long,
            byte-within 1 (ground arith),
            parse_address-within (type == 0x0020),
            parse_address-within false,
          )
          refl
  ]

padded-eq : (len : ℕ) → len < 2 ^ 16 → padded len ≡ (len + 3) / 4 * 4
padded-eq len h =
    let q = (len + 3) / 4 in
    omega (
      arith,
      ap (λ (t : ℕ). bit_and t (2 ^ 32 - 1 - 3)) (div-add-mod' (len + 3) 4),
      bit_and_high 2 q (2 ^ 30 - 1) ((len + 3) % 4) (omega arith),
      bit_and_mask 30 q,
    )

u16_at-be16 : (n : ℕ) (rest : Bytes) → n < 2 ^ 16 → u16_at (be16 n ++ rest) 0 ≡ done n
unfolding be16
u16_at-be16 n rest h =
    ap done (omega (arith, bit_or_fields 8 (n / 2 ^ 8) (n % 2 ^ 8) (omega arith)))

length-encoded_value : (value : Bytes) → length (encoded_value value) ≡ (length value + 3) / 4 * 4
unfolding encoded_value
length-encoded_value value = omega (
  arith,
  length-append {0} value (replicate ((length value + 3) / 4 * 4 - length value) 0),
  length-replicate {A = ℕ} ((length value + 3) / 4 * 4 - length value) 0,
)

-- The value of an attribute of a message is read as it is by itself.
value_read :
    (wanted : Bool) (pre : Bytes) (a : Attribute) (after : Bytes) (found : Found)
    → attribute wanted
        (pre ++ (be16 a.type ++ (be16 (length a.value) ++ (encoded_value a.value ++ after))))
        (length pre + 4)
        a.type
        (length a.value)
        found
      ≡ attribute wanted a.value 0 a.type (length a.value) found
unfolding be16 encoded_value
value_read wanted pre a after found =
    let header = be16 a.type ++ be16 (length a.value) in
    let padding : Bytes = replicate ((length a.value + 3) / 4 * 4 - length a.value) 0 in
    let parts : pre ++ (header ++ ((a.value ++ padding) ++ after))
        ≡ (pre ++ header) ++ (a.value ++ (padding ++ after)) =
      ap (λ (t : Bytes). pre ++ (header ++ t)) (append_assoc a.value padding after)
      ∙ sym (append_assoc pre header (a.value ++ (padding ++ after))) in
    ap (λ (t : Bytes). attribute wanted t (length pre + 4) a.type (length a.value) found) parts
    ∙ attribute-within (pre ++ header) a.value (padding ++ after) (length pre + 4)
        (omega (arith, length-append {0} pre header)) wanted a.type found

-- One round of the loop, over one attribute of a message.
attributes_step-encoded :
    (wanted : Bool) (pre : Bytes) (a : Attribute) (after : Bytes) (found : Found)
    (rest : ℕ → Found → Outcome Found)
    → IsAttribute a
    → attributes_step wanted
        (pre ++ (be16 a.type ++ (be16 (length a.value) ++ (encoded_value a.value ++ after))))
        (length pre)
        found
        rest
      ≡ (attribute wanted a.value 0 a.type (length a.value) found
          >>= rest (length pre + (4 + length (encoded_value a.value))))
unfolding be16
attributes_step-encoded wanted pre a after found rest ok =
    let buf = pre ++ (be16 a.type ++ (be16 (length a.value) ++ (encoded_value a.value ++ after))) in
    let ys = be16 a.type ++ (be16 (length a.value) ++ (encoded_value a.value ++ after)) in
    let header = be16 a.type ++ be16 (length a.value) in
    let size : length buf ≡ length pre + (4 + (length (encoded_value a.value) + length after)) =
      omega (arith, length-append {0} pre ys, length-append {0} (encoded_value a.value) after) in
    let more : ltb (length buf) (length pre + 4) ≡ false = ground arith in
    let fits = length-encoded_value a.value in
    let whole : ltb (length buf) (length pre + 4 + length a.value) ≡ false = ground arith in
    let next : length pre + 4 + padded (length a.value)
        ≡ length pre + (4 + length (encoded_value a.value)) =
      omega (arith, padded-eq (length a.value) ok.length_fits, fits) in
    let type_read : u16_at buf (length pre) ≡ done a.type =
      u16_at-append pre ys (length pre) 0 (omega arith)
      ∙ u16_at-be16 a.type (be16 (length a.value) ++ (encoded_value a.value ++ after))
          ok.type_fits in
    let length_read : u16_at buf (length pre + 2) ≡ done (length a.value) =
      u16_at-append pre ys (length pre + 2) 2 (omega arith)
      ∙ u16_at-be16 (length a.value) (encoded_value a.value ++ after) ok.length_fits in
    rw (more, type_read, length_read, whole, next, value_read wanted pre a after found) refl

one-append :
    (a : Attribute) (rest : Bytes)
    → (be16 a.type ++ (be16 (length a.value) ++ encoded_value a.value)) ++ rest
      ≡ be16 a.type ++ (be16 (length a.value) ++ (encoded_value a.value ++ rest))
unfolding be16
one-append a rest = refl

-- The loop understands a message as its attributes, one after the other: each is read by itself, and
-- what fills it up is skipped.
pub attributes-encoded :
    (fuel : ℕ) (wanted : Bool) (pre : Bytes) (attrs : List Attribute) (found : Found)
    → All IsAttribute attrs
    → length attrs < fuel
    → attributes fuel wanted (pre ++ encoded attrs) (length pre) found
      ≡ understood wanted found attrs
unfolding attributes encoded understood be16
attributes-encoded zero wanted pre attrs found ok h = elim h [ ]
attributes-encoded (suc fuel) wanted pre [] found ok h =
    let over : ltb (length (pre ++ [])) (length pre + 4) ≡ true =
      ground (arith, length-append {0} pre []) in
    rw over refl
attributes-encoded (suc fuel) wanted pre (a ∷ attrs) found (a_ok, ok) h =
    let one = be16 a.type ++ (be16 (length a.value) ++ encoded_value a.value) in
    let whole : (pre ++ one) ++ encoded attrs ≡ pre ++ encoded (a ∷ attrs) =
      append_assoc pre one (encoded attrs)
      ∙ ap (λ (t : Bytes). pre ++ t) (one-append a (encoded attrs)) in
    let offset : length (pre ++ one) ≡ length pre + (4 + length (encoded_value a.value)) =
      omega (arith, length-append {0} pre one) in
    attributes_step-encoded wanted pre a (encoded attrs) found
      (attributes fuel wanted (pre ++ encoded (a ∷ attrs))) a_ok
    ∙ >>=-congr (attribute wanted a.value 0 a.type (length a.value) found) (λ next.
      ap₂ (λ (t : Bytes) (off : ℕ). attributes fuel wanted t off next) (sym whole) (sym offset)
      ∙ attributes-encoded fuel wanted (pre ++ one) attrs next ok (omega arith))
