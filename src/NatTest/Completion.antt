-- ===== src/NatTest/Completion.antt =====
-- `rr_nat_test_run` of source/nat_test.c comes to an end: every wait does.
use rr_launcher.Prelude.{
  ℕ, suc, ◌+◌, ◌*◌, ◌≤◌, ◌≡◌, ◌⊎◌, refl, Bool, true, false, ◌||◌, not, if◌then◌else◌, Bool-cases,
  Option-cases, inl, inr, Option, none, some, List, ◌∷◌, ◌++◌, length, Bytes, codes, arith,
}
use rr_launcher.Result.{Outcome, done, error, fatal, fault, Returns, Returns->>=}
use rr_launcher.Stun.{
  Endpoint, Turn, Answer, received, broken, timed_out, waiting, wait_for_matching_response,
}
use rr_launcher.Stun.Message.{
  BindingResult, binding_result, Found, nothing_found, attributes, binding_request, change_request,
}
use rr_launcher.Stun.Client.{
  refused, sent, Host, Client, Behavior, no_behavior, random_bytes, make_transaction_id,
  resolve_server, await, exchange, is_received, read_answer, result_of, binding_internal_addr,
  binding_socket_addr, send_request, ask_change, lacks_addresses, after_change_port,
  after_change_both, after_discovery, behavior_test,
}
use rr_launcher.Stun.Answers.{wait_for_matching_response-ends, wait_for_matching_response-Arrived}
use rr_launcher.Stun.Walk.{attributes-Returns}
use rr_launcher.Stun.Mapping.{length-random_bytes}
use rr_launcher.NatTest.{
  NatResult, nat_result, no_binding, Sockets, retry, bind_server, behavior_of, with_behavior,
  with_server1, with_server2, nat_test_run,
}

-- A network in which every wait of ten seconds or less sees the deadline pass, if nothing ends it before.
abbrev pub IsPunctual : Host → Type 0
IsPunctual host =
    (n : ℕ) (dst : Endpoint) (req : Bytes)
    → (host.network n dst req ≡ refused)
      ⊎ ((start : ℕ) × (early : List Turn) × (turn : Turn) × (late : List Turn) × (host.network n
              dst req
            ≡ sent start (early ++ (turn ∷ late)))
          × (start + 10000 * 1000 ≤ turn.now))

-- An answer that was read is long enough to hold a header.
abbrev pub Long : Answer → Type 0
Long (received from buf) = 20 ≤ length buf
Long broken = Unit
Long timed_out = Unit
Long waiting = Unit

either-Returns :
    {A : Type 0} (b : Bool) (p q : Outcome A × Client)
    → Returns p.0
    → Returns q.0
    → Returns (if b then p else q).0
either-Returns true p q r s = r
either-Returns false p q r s = s

answer-Long :
    (id : Bytes) (start timeout_ms : ℕ) (turns : List Turn) (a : Answer)
    → wait_for_matching_response (suc (length turns)) id start timeout_ms turns ≡ done a
    → Long a
answer-Long id start timeout_ms turns (received from buf) e =
    let arrived = wait_for_matching_response-Arrived id start timeout_ms turns e in
    omega (arith, arrived.response.whole)
answer-Long id start timeout_ms turns broken e = tt
answer-Long id start timeout_ms turns timed_out e = tt
answer-Long id start timeout_ms turns waiting e = tt

module _ (host : Host) (punctual : IsPunctual host) where
  await-Returns :
      (n timeout_ms : ℕ) (dst : Endpoint) (id req : Bytes)
      → timeout_ms ≤ 10000
      → 12 ≤ length id
      → (a : Answer) × (await timeout_ms id (host.network n dst req) ≡ done a) × Long a
  await-Returns n timeout_ms dst id req few h = elim (punctual n dst req) [
    | inl failed ↦ rw failed (broken, refl, tt)
    | inr (start, early, turn, late, went, over) ↦
        let (a, e, ended) =
          wait_for_matching_response-ends id start timeout_ms early turn late h (omega arith) in
        rw went (a, e, answer-Long id start timeout_ms (early ++ (turn ∷ late)) a e)
  ]

  pub exchange-Returns :
      (c : Client) (dst : Endpoint) (timeout_ms : ℕ) (id req : Bytes)
      → timeout_ms ≤ 10000
      → 12 ≤ length id
      → (a : Answer) × ((exchange host c dst timeout_ms id req).0 ≡ done a) × Long a
  unfolding exchange
  exchange-Returns c dst timeout_ms id req few h =
      await-Returns c.requests timeout_ms dst id req few h

  read_answer-Returns : (wanted : Bool) (a : Answer) → Long a → Returns (read_answer wanted a)
  read_answer-Returns wanted (received from buf) h =
      Returns->>= (attributes (length buf) wanted buf 20 nothing_found)
        (attributes-Returns (length buf) wanted buf 20 nothing_found (omega arith) (omega arith))
        (λ found. (some found, refl))
  read_answer-Returns wanted broken h = (none, refl)
  read_answer-Returns wanted timed_out h = (none, refl)
  read_answer-Returns wanted waiting h = (none, refl)

  binding_internal_addr-Returns :
      (c : Client) (wanted : Bool) (dst : Endpoint)
      → Returns (binding_internal_addr host c wanted dst 10000).0
  unfolding binding_internal_addr make_transaction_id exchange
  binding_internal_addr-Returns c wanted dst =
      let id = random_bytes host.rand 12 c.drawn in
      let (a, e, long) =
        exchange-Returns c dst 10000 id (binding_request id) (omega arith)
          (omega (arith, length-random_bytes host.rand 12 c.drawn)) in
      rw e (read_answer-Returns wanted a long)

  binding_socket_addr-Returns :
      (c : Client) (dst : Endpoint) → Returns (binding_socket_addr host c dst 10000).0
  unfolding binding_socket_addr
  binding_socket_addr-Returns c dst =
      Returns->>= (binding_internal_addr host c false dst 10000).0
        (binding_internal_addr-Returns c false dst) (λ found. (result_of found, refl))

  retry-Returns :
      (addr : Endpoint) (p : Outcome BindingResult × Client)
      → Returns p.0
      → Returns (retry host addr p).0
  retry-Returns addr (done first, c) r =
      either-Returns first.success (done first, c) (binding_socket_addr host c addr 10000) r
        (binding_socket_addr-Returns c addr)
  retry-Returns addr (error source context, c) (a, e) = cc
  retry-Returns addr (fatal message, c) (a, e) = cc
  retry-Returns addr (fault, c) (a, e) = cc

  bind_server-Returns : (c : Client) (addr : Option Endpoint) → Returns (bind_server host c addr).0
  unfolding bind_server
  bind_server-Returns c none = (no_binding, refl)
  bind_server-Returns c (some addr) =
      retry-Returns addr (binding_socket_addr host c addr 10000)
        (binding_socket_addr-Returns c addr)

  ask_change-Returns :
      (c : Client) (dst : Endpoint) (flags : ℕ) → Returns (ask_change host c dst 10000 flags).0
  unfolding ask_change send_request make_transaction_id exchange
  ask_change-Returns c dst flags =
      let id = random_bytes host.rand 12 c.drawn in
      let (a, e, long) =
        exchange-Returns c dst 10000 id (change_request flags id) (omega arith)
          (omega (arith, length-random_bytes host.rand 12 c.drawn)) in
      rw e (is_received a, refl)

  after_change_port-Returns :
      (p : Outcome Bool × Client) → Returns p.0 → Returns (after_change_port p).0
  after_change_port-Returns (done got, c) r = (_, refl)
  after_change_port-Returns (error source context, c) (a, e) = cc
  after_change_port-Returns (fatal message, c) (a, e) = cc
  after_change_port-Returns (fault, c) (a, e) = cc

  after_change_both-Returns :
      (dst : Endpoint) (p : Outcome Bool × Client)
      → Returns p.0
      → Returns (after_change_both host dst 10000 p).0
  after_change_both-Returns dst (done true, c) r = (_, refl)
  after_change_both-Returns dst (done false, c) r =
      after_change_port-Returns (ask_change host c dst 10000 0x02) (ask_change-Returns c dst 0x02)
  after_change_both-Returns dst (error source context, c) (a, e) = cc
  after_change_both-Returns dst (fatal message, c) (a, e) = cc
  after_change_both-Returns dst (fault, c) (a, e) = cc

  after_discovery-Returns :
      (dst : Endpoint) (p : Outcome (Option Found) × Client)
      → Returns p.0
      → Returns (after_discovery host dst 10000 p).0
  after_discovery-Returns dst (done none, c) r = (_, refl)
  after_discovery-Returns dst (done (some found), c) r =
      elim (Bool-cases (not ((binding_result found).success) || lacks_addresses found)) [
        | inl lacking ↦ rw lacking (no_behavior, refl)
        | inr full ↦ rw full (
            after_change_both-Returns dst (ask_change host c dst 10000 0x06)
              (ask_change-Returns c dst 0x06))
      ]
  after_discovery-Returns dst (error source context, c) (a, e) = cc
  after_discovery-Returns dst (fatal message, c) (a, e) = cc
  after_discovery-Returns dst (fault, c) (a, e) = cc

  behavior_of-Returns : (c : Client) (opens : Bool) → Returns (behavior_of host c opens).0
  unfolding behavior_of behavior_test
  behavior_of-Returns c false = (no_behavior, refl)
  behavior_of-Returns c true =
      elim (Option-cases (resolve_server host (codes "stunserver2025.stunprotocol.org") 3478)) [
        | inl unknown ↦ rw unknown (no_behavior, refl)
        | inr (primary, known) ↦ rw known (
            after_discovery-Returns primary (binding_internal_addr host c true primary 10000)
              (binding_internal_addr-Returns c true primary))
      ]

-- The test reports a result.
Reports : Outcome (Option NatResult) × Client → Type 0
Reports p = (r : NatResult) × (p.0 ≡ done (some r))

with_behavior-Reports :
    (s1 s2 : BindingResult) (p : Outcome Behavior × Client)
    → Returns p.0
    → Reports (with_behavior s1 s2 p)
unfolding Reports
with_behavior-Reports s1 s2 (done b, c) r = (nat_result s1 s2 b, refl)
with_behavior-Reports s1 s2 (error source context, c) (a, e) = cc
with_behavior-Reports s1 s2 (fatal message, c) (a, e) = cc
with_behavior-Reports s1 s2 (fault, c) (a, e) = cc

with_server2-Reports :
    (host : Host) (sockets : Sockets) (s1 : BindingResult) (p : Outcome BindingResult × Client)
    → IsPunctual host
    → Returns p.0
    → Reports (with_server2 host sockets s1 p)
with_server2-Reports host sockets s1 (done s2, c) punctual r =
    with_behavior-Reports s1 s2 (behavior_of host c sockets.second_opens)
      (behavior_of-Returns host punctual c sockets.second_opens)
with_server2-Reports host sockets s1 (error source context, c) punctual (a, e) = cc
with_server2-Reports host sockets s1 (fatal message, c) punctual (a, e) = cc
with_server2-Reports host sockets s1 (fault, c) punctual (a, e) = cc

with_server1-Reports :
    (host : Host) (sockets : Sockets) (addr : Option Endpoint) (p : Outcome BindingResult × Client)
    → IsPunctual host
    → Returns p.0
    → Reports (with_server1 host sockets addr p)
with_server1-Reports host sockets addr (done s1, c) punctual r =
    with_server2-Reports host sockets s1 (bind_server host c addr) punctual
      (bind_server-Returns host punctual c addr)
with_server1-Reports host sockets addr (error source context, c) punctual (a, e) = cc
with_server1-Reports host sockets addr (fatal message, c) punctual (a, e) = cc
with_server1-Reports host sockets addr (fault, c) punctual (a, e) = cc

-- The NAT test completes: once its private port is known and its socket is open it reports a result,
-- whatever the servers send or do not send, as long as the clock reaches the deadline of each wait.
pub nat_test_run-Reports :
    (host : Host) (private_port : ℕ) (second_opens : Bool) (c : Client)
    → IsPunctual host
    → let sockets : Sockets = record {
      private_port = some private_port;
      first_opens = true;
      second_opens = second_opens;
    } in
      (r : NatResult) × ((nat_test_run host sockets c).0 ≡ done (some r))
unfolding nat_test_run Reports
nat_test_run-Reports host private_port second_opens c punctual =
    let sockets : Sockets = record {
      private_port = some private_port;
      first_opens = true;
      second_opens = second_opens;
    } in
    let addr = resolve_server host (codes "stun.t-online.de") 3478 in
    with_server1-Reports host sockets (resolve_server host (codes "stun.cloudflare.com") 3478)
      (bind_server host c addr) punctual (bind_server-Returns host punctual c addr)
