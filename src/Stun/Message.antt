-- ===== src/Stun/Message.antt =====
-- source/stun.c: the messages. What a request consists of, and what is read from the answer.
use Prim.Native.Nat.{bit_and, bit_xor}
use rr_launcher.Prelude.{
  ℕ, zero, suc, ◌+◌, ◌-◌, ◌*◌, ◌/◌, ◌^◌, Bool, true, false, ◌&&◌, ◌||◌, not, if◌then◌else◌, ltb,
  ◌==◌, Option, none, some, [], ◌∷◌, ◌++◌, length, take, Bytes, u8,
}
use rr_launcher.Result.{Outcome, done, fault, ◌>>=◌}
use rr_launcher.Stun.{Endpoint, byte, u16_at}

abbrev pub magic_cookie : ℕ
magic_cookie = 0x2112A442

-- The header of a request: its type, the length of its attributes, the cookie and the transaction id.
abbrev request_header : ℕ → Bytes → Bytes
request_header attr_len transaction_id =
    0x00
    ∷ 0x01
    ∷ u8 (attr_len / 2 ^ 8)
    ∷ u8 attr_len
    ∷ 0x21
    ∷ 0x12
    ∷ 0xA4
    ∷ 0x42
    ∷ take 12 transaction_id

-- `req` of `rr_stun_binding_internal_addr` and `rr_stun_ping_socket_addr`.
unfoldable pub binding_request : Bytes → Bytes
binding_request transaction_id = request_header 0 transaction_id

-- `req` of `rr_stun_send_request`: its first 20 + attr_len bytes.
unfoldable pub change_request : ℕ → Bytes → Bytes
change_request change_flags transaction_id =
    if change_flags == 0
    then request_header 0 transaction_id
    else (request_header 8 transaction_id
        ++ (0x00
            ∷ 0x03
            ∷ 0x00
            ∷ 0x04
            ∷ u8 (change_flags / 2 ^ 24)
            ∷ u8 (change_flags / 2 ^ 16)
            ∷ u8 (change_flags / 2 ^ 8)
            ∷ u8 change_flags
            ∷ []))

-- The address of four bytes in network order.
abbrev pub word_at : Bytes → ℕ → Outcome ℕ
word_at buf i = u16_at buf i >>= λ high. u16_at buf (i + 2) >>= λ low. done (high * 2 ^ 16 + low)

-- `rr_stun_parse_address` of the `len` bytes at `off`, where `ip` and `port` are given.
unfoldable pub parse_address : Bytes → ℕ → ℕ → Bool → Outcome (Option Endpoint)
parse_address buf off len xor_address =
    if ltb len 8
    then done none
    else (byte buf (off + 1) >>= λ family.
        if not (family == 1)
        then done none
        else (u16_at buf (off + 2) >>= λ p. word_at buf (off + 4) >>= λ addr. done (
            some (
              if xor_address
              then record {
                ip = bit_xor addr magic_cookie;
                port = bit_xor p (magic_cookie / 2 ^ 16);
              }
              else record { ip = addr; port = p }))))

-- What a walk over the attributes of an answer has found: the result and what the last four arguments
-- of `rr_stun_binding_internal_addr` point to. Zero is nothing found.
pub record Found : Type 0 where
  pub public : Endpoint
  pub response_origin : Endpoint
  pub other : Endpoint

abbrev pub no_endpoint : Endpoint
no_endpoint = record { ip = 0; port = 0 }

abbrev pub nothing_found : Found
nothing_found = record { public = no_endpoint; response_origin = no_endpoint; other = no_endpoint }

-- Where an attribute's address goes.
abbrev pub set_public : Found → Option Endpoint → Found
set_public found none = found
set_public found (some e) = record found { public = e }

abbrev pub set_response_origin : Bool → Found → Option Endpoint → Found
set_response_origin true found (some e) = record found { response_origin = e }
set_response_origin wanted found address = found

abbrev pub set_other : Bool → Found → Option Endpoint → Found
set_other true found (some e) = record found { other = e }
set_other wanted found address = found

-- `len >= 8 && buf[off + 1] == 0x01`
abbrev pub is_ipv4 : Bytes → ℕ → ℕ → Outcome Bool
is_ipv4 buf off len =
    if ltb len 8 then done false else (byte buf (off + 1) >>= λ family. done (family == 1))

-- One attribute of the loop of `rr_stun_binding_internal_addr`, its value at `off`. `wanted` is whether
-- the caller gives addresses for the origin and the other address; it gives all four or none.
unfoldable pub attribute : Bool → Bytes → ℕ → ℕ → ℕ → Found → Outcome Found
attribute wanted buf off type len found = is_ipv4 buf off len >>= λ ipv4.
    if (type == 0x0020 || type == 0x0001) && ipv4
    then (parse_address buf off len (type == 0x0020) >>= λ address. done (set_public found address))
    else if type == 0x802B && ipv4
    then (parse_address buf off len false >>= λ address.
        done (set_response_origin wanted found address))
    else if type == 0x802C && ipv4
    then (parse_address buf off len false >>= λ address. done (set_other wanted found address))
    else done found

-- `(len + 3u) & ~3u`
abbrev pub padded : ℕ → ℕ
padded len = bit_and (len + 3) (2 ^ 32 - 1 - 3)

-- The loop's body at `off`, given the loop from the next offset.
abbrev pub attributes_step : Bool → Bytes → ℕ → Found → (ℕ → Found → Outcome Found) → Outcome Found
attributes_step wanted buf off found rest =
    if ltb (length buf) (off + 4)
    then done found
    else (u16_at buf off >>= λ type. u16_at buf (off + 2) >>= λ len.
        if ltb (length buf) (off + 4 + len)
        then done found
        else (attribute wanted buf (off + 4) type len found >>= rest (off + 4 + padded len)))

-- The loop over the attributes, by at most `fuel` of them.
unfoldable pub attributes : ℕ → Bool → Bytes → ℕ → Found → Outcome Found
attributes zero wanted buf off found = fault
attributes (suc fuel) wanted buf off found =
    attributes_step wanted buf off found (attributes fuel wanted buf)

-- `result`
pub record BindingResult : Type 0 where
  pub success : Bool
  pub endpoint : Endpoint

-- `result->success` and `result` after the loop.
abbrev pub binding_result : Found → BindingResult
binding_result found = record {
  success = not (found.public.ip == 0) || not (found.public.port == 0);
  endpoint = found.public;
}
