-- ===== src/Stun/Mapping.antt =====
-- A whole binding of source/stun.c: a request, the server's answer among other packets, and the public
-- address that is read from it.
use Prim.Native.Nat.{bit_or, bit_xor}
use rr_launcher.Prelude.{
  ℕ, zero, suc, ◌+◌, ◌*◌, ◌/◌, ◌%◌, ◌^◌, ◌≤◌, ◌<◌, ◌≡◌, ◌≢◌, ◌⊎◌, refl, sym, ap, ap₂, subst, ◌∙◌,
  Bool, true, false, not, ◌&&◌, ◌||◌, ltb, leb, ◌==◌, ==_iff, some, List, [], ◌∷◌, ◌++◌, length,
  length-append, take, take-all, Bytes, bytes_eq, bytes_eq_iff, All, u16, arith,
}
use rr_launcher.Prelude.Bits.{bit_or_fields}
use rr_launcher.Prelude.Xor.{xor_twice, xor-lt}
use rr_launcher.Result.{done, ◌>>=◌, Returns, Returns->>=, >>=-congr, >>=-assoc}
use rr_launcher.Stun.{Endpoint, Turn, readable, packet, received, buf_size, is_response}
use rr_launcher.Stun.Message.{
  magic_cookie, binding_request, Found, nothing_found, parse_address, attribute, attributes,
  set_public,
}
use rr_launcher.Stun.Client.{
  sent, Host, Client, random_bytes, make_transaction_id, exchange, await, read_answer, result_of,
  binding_internal_addr, binding_socket_addr,
}
use rr_launcher.Stun.Waiting.{IsPassed}
use rr_launcher.Stun.Deadline.{InTime}
use rr_launcher.Stun.Answers.{wait_for_matching_response-found}
use rr_launcher.Stun.Walk.{attribute-Returns}
use rr_launcher.Stun.Others.{IsOther, understood-others}
use rr_launcher.Stun.Encoding.{
  Attribute, IsAttribute, be16, encoded, understood, attributes-encoded, encoded_value,
}

-- A success response to a transaction.
unfoldable pub response : Bytes → List Attribute → Bytes
response id attrs =
    be16 0x0101
    ++ (be16 (length (encoded attrs)) ++ (0x21 ∷ 0x12 ∷ 0xA4 ∷ 0x42 ∷ (id ++ encoded attrs)))

-- The attribute XOR-MAPPED-ADDRESS.
unfoldable pub xor_mapped : Endpoint → Attribute
xor_mapped e =
    let ip = bit_xor e.ip magic_cookie in
    record {
      type = 0x0020;
      value =
          0x00
          ∷ 0x01
          ∷ (be16 (bit_xor e.port 0x2112) ++ (be16 (ip / 2 ^ 16) ++ be16 (ip % 2 ^ 16)));
    }

pub record IsEndpoint (e : Endpoint) : Type 0 where
  pub ip_fits : e.ip < 2 ^ 32
  pub port_fits : e.port < 2 ^ 16

take-length : (xs ys : Bytes) → take (length xs) (xs ++ ys) ≡ xs
take-length [] ys = refl
take-length (x ∷ xs) ys = ap (◌∷◌ x) (take-length xs ys)

u16-bytes : (n : ℕ) → n < 2 ^ 16 → u16 (bit_or (n / 2 ^ 8 * 2 ^ 8) (n % 2 ^ 8)) ≡ n
u16-bytes n h = omega (arith, bit_or_fields 8 (n / 2 ^ 8) (n % 2 ^ 8) (omega arith))

-- A response passes the tests of the wait.
pub response-is_response :
    (id : Bytes) (attrs : List Attribute)
    → length id ≡ 12
    → length (encoded attrs) < 2 ^ 16
    → is_response (response id attrs) id ≡ done true
unfolding is_response response be16
response-is_response id attrs twelve small =
    let body = length-append {0} id (encoded attrs) in
    let long : ltb (length (response id attrs)) 20 ≡ false = ground arith in
    let size = u16-bytes (length (encoded attrs)) small in
    let whole : ltb (length (response id attrs)) (length (encoded attrs) + 20) ≡ false =
      ground arith in
    let fits : leb (8 + 12) (length (response id attrs)) && leb 12 (length id) ≡ true =
      ground arith in
    let echoed : bytes_eq (take 12 (id ++ encoded attrs)) (take 12 id) ≡ true =
      subst (λ (n : ℕ). bytes_eq (take n (id ++ encoded attrs)) (take n id) ≡ true) twelve
        ((bytes_eq_iff (take (length id) (id ++ encoded attrs)) (take (length id) id)).1
          (take-length id (encoded attrs) ∙ sym (take-all (length id) id (omega arith)))) in
    rw (long, size, whole, fits, echoed) refl

read_mapped :
    (wanted : Bool) (found : Found) (e : Endpoint)
    → IsEndpoint e
    → understood wanted found (xor_mapped e ∷ []) ≡ done (set_public found (some e))
unfolding understood xor_mapped attribute parse_address be16
read_mapped wanted found e ok =
    let ip = bit_xor e.ip magic_cookie in
    let port = bit_xor e.port 0x2112 in
    let ip_fits : ip < 2 ^ 32 = xor-lt 32 e.ip magic_cookie ok.ip_fits (omega arith) in
    let high = u16-bytes (ip / 2 ^ 16) (omega arith) in
    let low = u16-bytes (ip % 2 ^ 16) (omega arith) in
    let port_read = u16-bytes port (xor-lt 16 e.port 0x2112 ok.port_fits (omega arith)) in
    let ip_back : bit_xor
          (u16 (bit_or (ip / 2 ^ 16 / 2 ^ 8 * 2 ^ 8) (ip / 2 ^ 16 % 2 ^ 8)) * 2 ^ 16
            + u16 (bit_or (ip % 2 ^ 16 / 2 ^ 8 * 2 ^ 8) (ip % 2 ^ 16 % 2 ^ 8)))
          magic_cookie
        ≡ e.ip =
      ap (λ (t : ℕ). bit_xor t magic_cookie) (omega (arith, high, low))
      ∙ xor_twice e.ip magic_cookie in
    let port_back : bit_xor (u16 (bit_or (port / 2 ^ 8 * 2 ^ 8) (port % 2 ^ 8))) 0x2112 ≡ e.port =
      ap (λ (t : ℕ). bit_xor t 0x2112) port_read ∙ xor_twice e.port 0x2112 in
    ap₂ (λ (i p : ℕ). done (set_public found (some (record { ip = i; port = p })))) ip_back
      port_back

understood-append :
    (wanted : Bool) (found : Found) (xs ys : List Attribute)
    → understood wanted found (xs ++ ys)
      ≡ (understood wanted found xs >>= λ next. understood wanted next ys)
unfolding understood
understood-append wanted found [] ys = refl
understood-append wanted found (x ∷ xs) ys =
    let first = attribute wanted x.value 0 x.type (length x.value) found in
    >>=-congr first (λ next. understood-append wanted next xs ys)
    ∙ >>=-assoc first (λ next. understood wanted next xs) (λ next. understood wanted next ys)

understood-Returns :
    (wanted : Bool) (found : Found) (xs : List Attribute) → Returns (understood wanted found xs)
unfolding understood
understood-Returns wanted found [] = (found, refl)
understood-Returns wanted found (x ∷ xs) =
    Returns->>= (attribute wanted x.value 0 x.type (length x.value) found)
      (attribute-Returns wanted x.value 0 x.type (length x.value) found (omega arith))
      (λ next. understood-Returns wanted next xs)

length-attributes : (attrs : List Attribute) → length attrs ≤ length (encoded attrs)
unfolding encoded be16
length-attributes [] = omega arith
length-attributes (a ∷ attrs) =
    omega
      (arith, length-attributes attrs, length-append {0} (encoded_value a.value) (encoded attrs))

attributes-response :
    (wanted : Bool) (id : Bytes) (attrs : List Attribute) (found : Found)
    → length id ≡ 12
    → All IsAttribute attrs
    → attributes (length (response id attrs)) wanted (response id attrs) 20 found
      ≡ understood wanted found attrs
unfolding response be16
attributes-response wanted id attrs found twelve ok =
    let message = response id attrs in
    let header : Bytes =
      1
      ∷ 1
      ∷ length (encoded attrs) / 2 ^ 8
      ∷ length (encoded attrs) % 2 ^ 8
      ∷ 0x21
      ∷ 0x12
      ∷ 0xA4
      ∷ 0x42
      ∷ id in
    let size = length-append {0} id (encoded attrs) in
    let start : 20 ≡ length header = omega arith in
    ap (λ (off : ℕ). attributes (length message) wanted message off found) start
    ∙ attributes-encoded (length message) wanted header attrs found ok
        (omega (arith, size, length-attributes attrs))

pub length-random_bytes : (rand : ℕ → ℕ) (n i : ℕ) → length (random_bytes rand n i) ≡ n
unfolding random_bytes
length-random_bytes rand zero i = refl
length-random_bytes rand (suc n) i = ap suc (length-random_bytes rand n (i + 1))

succeeds :
    (e : Endpoint) → (e.ip ≢ 0) ⊎ (e.port ≢ 0) → (not (e.ip == 0) || not (e.port == 0)) ≡ true
succeeds e h = ground (arith, ==_iff e.ip 0, ==_iff e.port 0)

length-response :
    (id : Bytes) (attrs : List Attribute)
    → length (response id attrs) ≡ 8 + (length id + length (encoded attrs))
unfolding response be16
length-response id attrs = omega (arith, length-append {0} id (encoded attrs))

All-mapped :
    (before : List Attribute) (e : Endpoint) (after : List Attribute)
    → All IsAttribute before
    → All IsAttribute after
    → All IsAttribute (before ++ (xor_mapped e ∷ after))
unfolding xor_mapped be16
All-mapped [] e after ok later =
    (record { type_fits = omega arith; length_fits = omega arith }, later)
All-mapped (a ∷ before) e after (one, ok) later = (one, All-mapped before e after ok later)

-- What is read of attributes of which the last one with a public address is an XOR-MAPPED-ADDRESS.
understood-mapped :
    (before after : List Attribute) (e : Endpoint)
    → IsEndpoint e
    → All IsOther after
    → (found : Found) × (understood false nothing_found (before ++ (xor_mapped e ∷ after))
        ≡ done (set_public found (some e)))
understood-mapped before after e fits others =
    let (found, read) = understood-Returns false nothing_found before in
    (
      found,
      understood-append false nothing_found before (xor_mapped e ∷ after)
          ∙ ap (λ o. o >>= λ next. understood false next (xor_mapped e ∷ after)) read
          ∙ understood-append false found (xor_mapped e ∷ []) after
          ∙ ap (λ o. o >>= λ next. understood false next after) (read_mapped false found e fits)
          ∙ understood-others (set_public found (some e)) after others,
    )

-- A binding reports the public address that the server saw: when the server's answer to the request, of at
-- most 1024 bytes, comes in a turn before the deadline and repeats its transaction id, and the last of its
-- attributes that are a MAPPED-ADDRESS or an XOR-MAPPED-ADDRESS is an XOR-MAPPED-ADDRESS of that address,
-- the binding succeeds with it, if it is not all zero, whatever other attributes the answer has and whatever
-- other packets came in such turns before.
pub binding_socket_addr-mapped :
    (host : Host) (c : Client) (dst : Endpoint) (timeout_ms : ℕ) (before after : List Attribute)
    (e : Endpoint) (start now : ℕ) (from : Endpoint) (early late : List Turn)
    → let id = random_bytes host.rand 12 c.drawn in
      let message = response id (before ++ (xor_mapped e ∷ after)) in
      let answer : Turn = record { now = now; selected = readable (packet from message) } in
      All IsAttribute before
      → All IsAttribute after
      → All IsOther after
      → IsEndpoint e
      → (e.ip ≢ 0) ⊎ (e.port ≢ 0)
      → length message ≤ buf_size
      → timeout_ms < 2 ^ 32
      → All (λ t. InTime start timeout_ms t × IsPassed id t.selected) early
      → InTime start timeout_ms answer
      → host.network c.requests dst (binding_request id) ≡ sent start (early ++ (answer ∷ late))
      → (binding_socket_addr host c dst timeout_ms).0
        ≡ done (record { success = true; endpoint = e })
unfolding binding_socket_addr binding_internal_addr make_transaction_id exchange
binding_socket_addr-mapped host c dst timeout_ms before after e start now from early late ok later
      others fits public room small passed time answered =
    let id = random_bytes host.rand 12 c.drawn in
    let attrs = before ++ (xor_mapped e ∷ after) in
    let message = response id attrs in
    let twelve = length-random_bytes host.rand 12 c.drawn in
    let whole = take-all buf_size message room in
    let judged : is_response (take buf_size message) id ≡ done true =
      rw whole (response-is_response id attrs twelve (omega (arith, length-response id attrs))) in
    let awaited : await timeout_ms id (host.network c.requests dst (binding_request id))
        ≡ done (received from message) =
      ap (await timeout_ms id) answered
      ∙ wait_for_matching_response-found id start timeout_ms early late now from message small
          passed time judged
      ∙ ap (λ (t : Bytes). done (received from t)) whole in
    let (found, read) = understood-mapped before after e fits others in
    let walked : attributes (length message) false message 20 nothing_found
        ≡ done (set_public found (some e)) =
      attributes-response false id attrs nothing_found twelve (All-mapped before e after ok later)
      ∙ read in
    ap (λ o. o >>= read_answer false >>= λ r. done (result_of r)) awaited
    ∙ ap (λ o. o >>= (λ f. done (some f)) >>= λ r. done (result_of r)) walked
    ∙ ap (λ b. done (record { success = b; endpoint = e })) (succeeds e public)
