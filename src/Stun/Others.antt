-- ===== src/Stun/Others.antt =====
-- The attributes that source/stun.c leaves aside where only the public address is asked for.
use rr_launcher.Prelude.{
  ℕ, ◌+◌, ◌≤◌, ◌≡◌, ◌≢◌, refl, Bool, true, false, ◌&&◌, ◌||◌, if◌then◌else◌, ◌==◌, ==_iff, List, [],
  ◌∷◌, length, Bytes, All, arith,
}
use rr_launcher.Result.{Outcome, done, error, fatal, fault, ◌>>=◌, Returns}
use rr_launcher.Stun.Message.{
  Found, is_ipv4, parse_address, attribute, set_response_origin, set_other,
}
use rr_launcher.Stun.Walk.{is_ipv4-Returns, parse_address-Returns}
use rr_launcher.Stun.Encoding.{Attribute, understood}

-- An attribute that gives no public address: neither XOR-MAPPED-ADDRESS nor MAPPED-ADDRESS.
abbrev pub IsOther : Attribute → Type 0
IsOther a = (a.type ≢ 0x0020) × (a.type ≢ 0x0001)

>>=-constant {ℓ κ} :
    {A : Type ℓ} {B : Type κ} (m : Outcome A) (k : A → Outcome B) (o : Outcome B)
    → Returns m
    → ((a : A) → k a ≡ o)
    → (m >>= k) ≡ o
>>=-constant (done a) k o r h = h a
>>=-constant (error source context) k o (a, e) h = cc
>>=-constant (fatal message) k o (a, e) h = cc
>>=-constant fault k o (a, e) h = cc

if-both {ℓ} : {A : Type ℓ} (b : Bool) {x y z : A} → x ≡ z → y ≡ z → (if b then x else y) ≡ z
if-both true e f = e
if-both false e f = f

attribute-other :
    (buf : Bytes) (off type len : ℕ) (found : Found)
    → off + len ≤ length buf
    → type ≢ 0x0020
    → type ≢ 0x0001
    → attribute false buf off type len found ≡ done found
unfolding attribute
attribute-other buf off type len found h not_xor not_mapped =
    let plain = parse_address-Returns buf off len false h in
    let no_address : (type == 0x0020 || type == 0x0001) ≡ false =
      ground (arith, ==_iff type 0x0020, ==_iff type 0x0001) in
    rw no_address (
      >>=-constant (is_ipv4 buf off len)
        (λ ipv4.
          if type == 0x802B && ipv4
          then (parse_address buf off len false >>= λ address.
              done (set_response_origin false found address))
          else if type == 0x802C && ipv4
          then (parse_address buf off len false >>= λ address. done (set_other false found address))
          else done found)
        (done found) (is_ipv4-Returns buf off len h)
        (λ ipv4.
          if-both (type == 0x802B && ipv4)
            (>>=-constant (parse_address buf off len false) (λ address. done found) (done found)
              plain (λ a. refl))
            (if-both (type == 0x802C && ipv4)
              (>>=-constant (parse_address buf off len false) (λ address. done found) (done found)
                plain (λ a. refl))
              refl)))

pub understood-others :
    (found : Found) (attrs : List Attribute)
    → All IsOther attrs
    → understood false found attrs ≡ done found
unfolding understood
understood-others found [] others = refl
understood-others found (a ∷ attrs) ((not_xor, not_mapped), others) =
    rw (attribute-other a.value 0 a.type (length a.value) found (omega arith) not_xor not_mapped)
      (understood-others found attrs others)
