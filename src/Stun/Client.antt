-- ===== src/Stun/Client.antt =====
-- source/stun.c: the calls. The system, the generator behind `rand()` and the servers are a parameter:
-- what they answer may depend on how often they were asked before, which the state counts. Sockets are
-- open, and no pointer is NULL but those that a caller may leave out.
use Prim.Native.Nat.{bit_and}
use rr_launcher.Prelude.{
  ℕ, zero, suc, ◌+◌, Bool, true, false, ◌||◌, not, if◌then◌else◌, ◌==◌, Option, none, some, List,
  [], ◌∷◌, length, Bytes,
}
use rr_launcher.Result.{Outcome, done, ◌>>=◌}
use rr_launcher.Stun.{
  Endpoint, Turn, Answer, received, broken, timed_out, waiting, wait_for_matching_response,
}
use rr_launcher.Stun.Message.{
  binding_request, change_request, Found, nothing_found, attributes, BindingResult, binding_result,
}

-- What comes of one `sendto`: an error, or what the wait for the answer meets, from `start` on.
pub data Reply : Type 0 where
  refused : Reply
  sent : ℕ → List Turn → Reply

pub record Host : Type 0 where
  -- The value of the n-th call of `rand()`.
  pub rand : ℕ → ℕ
  -- The n-th packet that is sent: where it goes, and its bytes.
  pub network : ℕ → Endpoint → Bytes → Reply
  -- `inet_aton` and `gethostbyname`
  pub lookup : Bytes → Option ℕ

-- `rr_stun_rng_seeded`, and how many calls of `rand` and `sendto` there were.
pub record Client : Type 0 where
  pub seeded : Bool
  pub drawn : ℕ
  pub requests : ℕ

-- `n` bytes of `rand() & 0xff`, from the i-th call on.
unfoldable pub random_bytes : (ℕ → ℕ) → ℕ → ℕ → Bytes
random_bytes rand zero i = []
random_bytes rand (suc n) i = bit_and (rand i) 0xff ∷ random_bytes rand n (i + 1)

-- `rr_stun_make_transaction_id`
unfoldable pub make_transaction_id : Host → Client → Bytes × Client
make_transaction_id host c = (
  random_bytes host.rand 12 c.drawn,
  record { seeded = true; drawn = c.drawn + 12; requests = c.requests },
)

-- `rr_stun_resolve` and `rr_stun_resolve_server`
unfoldable pub resolve_server : Host → Bytes → ℕ → Option Endpoint
resolve_server host server port = at (host.lookup server)
  where
    at : Option ℕ → Option Endpoint
    at none = none
    at (some ip) = some (record { ip = ip; port = port })

-- A packet is sent, and the answer waited for: -1 of `sendto` counts as a broken socket.
abbrev pub await : ℕ → Bytes → Reply → Outcome Answer
await timeout_ms transaction_id refused = done broken
await timeout_ms transaction_id (sent start turns) =
    wait_for_matching_response (suc (length turns)) transaction_id start timeout_ms turns

unfoldable pub exchange : Host → Client → Endpoint → ℕ → Bytes → Bytes → Outcome Answer × Client
exchange host c dst timeout_ms transaction_id req = (
  await timeout_ms transaction_id (host.network c.requests dst req),
  record { seeded = c.seeded; drawn = c.drawn; requests = c.requests + 1 },
)

-- `n >= 0`
abbrev pub is_received : Answer → Bool
is_received (received from buf) = true
is_received broken = false
is_received timed_out = false
is_received waiting = false

-- `rr_stun_send_request`: whether it was answered.
unfoldable pub send_request : Host → Client → Endpoint → ℕ → ℕ → Bytes → Outcome Bool × Client
send_request host c dst timeout_ms change_flags transaction_id =
    answered
      (exchange host c dst timeout_ms transaction_id (change_request change_flags transaction_id))
  where
    answered : Outcome Answer × Client → Outcome Bool × Client
    answered (o, c) = (o >>= λ answer. done (is_received answer), c)

-- What is read from the answer to a binding request.
abbrev pub read_answer : Bool → Answer → Outcome (Option Found)
read_answer wanted (received from buf) =
    attributes (length buf) wanted buf 20 nothing_found >>= λ found. done (some found)
read_answer wanted broken = done none
read_answer wanted timed_out = done none
read_answer wanted waiting = done none

-- `rr_stun_binding_internal_addr`: what the walk found, or nothing where no answer came.
unfoldable pub binding_internal_addr :
    Host → Client → Bool → Endpoint → ℕ → Outcome (Option Found) × Client
binding_internal_addr host c wanted dst timeout_ms = bind (make_transaction_id host c)
  where
    answered : Outcome Answer × Client → Outcome (Option Found) × Client
    answered (o, c) = (o >>= read_answer wanted, c)

    bind : Bytes × Client → Outcome (Option Found) × Client
    bind (id, c) = answered (exchange host c dst timeout_ms id (binding_request id))

-- The result after a wait that no answer came to is the zero it was set to.
abbrev pub result_of : Option Found → BindingResult
result_of none = binding_result nothing_found
result_of (some found) = binding_result found

-- `rr_stun_binding_socket_addr`
unfoldable pub binding_socket_addr : Host → Client → Endpoint → ℕ → Outcome BindingResult × Client
binding_socket_addr host c dst timeout_ms =
    result (binding_internal_addr host c false dst timeout_ms)
  where
    result : Outcome (Option Found) × Client → Outcome BindingResult × Client
    result (o, c) = (o >>= λ found. done (result_of found), c)

-- `rr_stun_ping_socket_addr`
unfoldable pub ping_socket_addr : Host → Client → Endpoint → ℕ → Outcome Bool × Client
ping_socket_addr host c dst timeout_ms = ping (make_transaction_id host c)
  where
    answered : Outcome Answer × Client → Outcome Bool × Client
    answered (o, c) = (o >>= λ answer. done (is_received answer), c)

    ping : Bytes × Client → Outcome Bool × Client
    ping (id, c) = answered (exchange host c dst timeout_ms id (binding_request id))

-- `rr_stun_behavior_result_t`
pub record Behavior : Type 0 where
  pub success : Bool
  pub change_port : Bool
  pub change_ip : Bool
  pub change_ip_port : Bool

abbrev pub no_behavior : Behavior
no_behavior = record {
  success = false;
  change_port = false;
  change_ip = false;
  change_ip_port = false;
}

-- `!origin_ip || !origin_port || !other_ip || !other_port`
abbrev pub lacks_addresses : Found → Bool
lacks_addresses found =
    found.response_origin.ip == 0
    || found.response_origin.port == 0
    || found.other.ip == 0
    || found.other.port == 0

-- The request for a change of address, or of port, with an id of its own.
unfoldable pub ask_change : Host → Client → Endpoint → ℕ → ℕ → Outcome Bool × Client
ask_change host c primary timeout_ms change_flags = ask (make_transaction_id host c)
  where
    ask : Bytes × Client → Outcome Bool × Client
    ask (id, c) = send_request host c primary timeout_ms change_flags id

-- After the request for a change of the port only.
abbrev pub after_change_port : Outcome Bool × Client → Outcome Behavior × Client
after_change_port (o, c) = (
  o >>= λ got.
      done
        (record { success = true; change_port = got; change_ip = false; change_ip_port = false }),
  c,
)

-- After the request for a change of both.
abbrev pub after_change_both :
    Host → Endpoint → ℕ → Outcome Bool × Client → Outcome Behavior × Client
after_change_both host primary timeout_ms (done true, c) = (
  done (record { success = true; change_port = false; change_ip = false; change_ip_port = true }),
  c,
)
after_change_both host primary timeout_ms (done false, c) =
    after_change_port (ask_change host c primary timeout_ms 0x02)
after_change_both host primary timeout_ms (o, c) = (o >>= λ got. done no_behavior, c)

abbrev pub after_discovery :
    Host → Endpoint → ℕ → Outcome (Option Found) × Client → Outcome Behavior × Client
after_discovery host primary timeout_ms (done (some found), c) =
    if not ((binding_result found).success) || lacks_addresses found
    then (done no_behavior, c)
    else after_change_both host primary timeout_ms (ask_change host c primary timeout_ms 0x06)
after_discovery host primary timeout_ms (o, c) = (o >>= λ found. done no_behavior, c)

-- `rr_stun_behavior_test`
unfoldable pub behavior_test : Host → Client → Bytes → ℕ → ℕ → Outcome Behavior × Client
behavior_test host c server port timeout_ms = test (resolve_server host server port)
  where
    test : Option Endpoint → Outcome Behavior × Client
    test none = (done no_behavior, c)
    test (some primary) =
        after_discovery host primary timeout_ms
          (binding_internal_addr host c true primary timeout_ms)
