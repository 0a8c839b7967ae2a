-- ===== src/Stun/Walk.antt =====
-- The loop over the attributes of an answer in source/stun.c: it ends and stays inside the packet, and
-- what it makes of a message is what its attributes say one by one.
use Prim.Native.Nat.{bit_or}
use rr_launcher.Prelude.{
  ℕ, zero, suc, ◌+◌, ◌*◌, ◌^◌, ◌≤◌, ◌<◌, ◌≡◌, refl, Bool, false, ◌&&◌, ◌||◌, not, ltb, ◌==◌, none,
  length, get_elem?-some, Bytes, u16, arith,
}
use rr_launcher.Result.{done, Returns, Returns-if, Returns->>=}
use rr_launcher.Stun.{byte, u16_at}
use rr_launcher.Stun.Message.{Found, parse_address, is_ipv4, attribute, padded, attributes, word_at}

byte-Returns : (buf : Bytes) (i : ℕ) → i < length buf → Returns (byte buf i)
byte-Returns buf i h = let (b, e) = get_elem?-some buf i h in rw e (b, refl)

pub u16_at-Returns : (buf : Bytes) (i : ℕ) → i + 1 < length buf → Returns (u16_at buf i)
u16_at-Returns buf i h = Returns->>= (byte buf i) (byte-Returns buf i (omega arith)) (λ high.
    Returns->>= (byte buf (i + 1)) (byte-Returns buf (i + 1) h)
      (λ low. (u16 (bit_or (high * 2 ^ 8) low), refl)))

word_at-Returns : (buf : Bytes) (i : ℕ) → i + 3 < length buf → Returns (word_at buf i)
word_at-Returns buf i h = Returns->>= (u16_at buf i) (u16_at-Returns buf i (omega arith)) (λ high.
    Returns->>= (u16_at buf (i + 2)) (u16_at-Returns buf (i + 2) (omega arith))
      (λ low. (high * 2 ^ 16 + low, refl)))

pub parse_address-Returns :
    (buf : Bytes) (off len : ℕ) (xor_address : Bool)
    → off + len ≤ length buf
    → Returns (parse_address buf off len xor_address)
unfolding parse_address
parse_address-Returns buf off len xor_address h =
    Returns-if (ltb len 8) (λ short. (none, refl))
      (λ long.
        Returns->>= (byte buf (off + 1)) (byte-Returns buf (off + 1) (ground arith)) (λ family.
          Returns-if (not (family == 1)) (λ e. (none, refl))
            (λ e.
              Returns->>= (u16_at buf (off + 2)) (u16_at-Returns buf (off + 2) (ground arith)) (λ p.
                Returns->>= (word_at buf (off + 4)) (word_at-Returns buf (off + 4) (ground arith))
                  (λ addr. (_, refl))))))

pub is_ipv4-Returns :
    (buf : Bytes) (off len : ℕ) → off + len ≤ length buf → Returns (is_ipv4 buf off len)
is_ipv4-Returns buf off len h =
    Returns-if (ltb len 8) (λ short. (false, refl))
      (λ long.
        Returns->>= (byte buf (off + 1)) (byte-Returns buf (off + 1) (ground arith))
          (λ family. (family == 1, refl)))

pub attribute-Returns :
    (wanted : Bool) (buf : Bytes) (off type len : ℕ) (found : Found)
    → off + len ≤ length buf
    → Returns (attribute wanted buf off type len found)
unfolding attribute
attribute-Returns wanted buf off type len found h =
    let mapped = parse_address-Returns buf off len (type == 0x0020) h in
    let plain = parse_address-Returns buf off len false h in
    Returns->>= (is_ipv4 buf off len) (is_ipv4-Returns buf off len h) (λ ipv4.
      Returns-if ((type == 0x0020 || type == 0x0001) && ipv4)
        (λ e. Returns->>= (parse_address buf off len (type == 0x0020)) mapped (λ a. (_, refl)))
        (λ e.
          Returns-if (type == 0x802B && ipv4)
            (λ e. Returns->>= (parse_address buf off len false) plain (λ a. (_, refl)))
            (λ e.
              Returns-if (type == 0x802C && ipv4)
                (λ e. Returns->>= (parse_address buf off len false) plain (λ a. (_, refl)))
                (λ e. (found, refl)))))

-- The loop over the attributes ends within as many rounds as the packet has bytes past `off`, and reads
-- no byte past the packet, whatever the packet holds.
pub attributes-Returns :
    (fuel : ℕ) (wanted : Bool) (buf : Bytes) (off : ℕ) (found : Found)
    → length buf < off + fuel
    → 0 < fuel
    → (found' : Found) × (attributes fuel wanted buf off found ≡ done found')
unfolding attributes
attributes-Returns zero wanted buf off found h p = elim p [ ]
attributes-Returns (suc fuel) wanted buf off found h p =
    Returns-if (ltb (length buf) (off + 4)) (λ over. (found, refl))
      (λ more. Returns->>= (u16_at buf off) (u16_at-Returns buf off (ground arith)) (λ type.
        Returns->>= (u16_at buf (off + 2)) (u16_at-Returns buf (off + 2) (ground arith)) (λ len.
          Returns-if (ltb (length buf) (off + 4 + len)) (λ cut. (found, refl))
            (λ whole.
              Returns->>= (attribute wanted buf (off + 4) type len found)
                (attribute-Returns wanted buf (off + 4) type len found (ground arith))
                (λ next.
                  attributes-Returns fuel wanted buf (off + 4 + padded len) next (omega arith)
                    (ground arith))))))
