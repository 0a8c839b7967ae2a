-- ===== src/NatTest/Tests.antt =====
-- The NAT test and the ping test of source/nat_test.c against a server at hand.
use rr_launcher.Prelude.{
  ◌+◌, ◌*◌, ◌≤◌, min, Option, Bytes, codes, take, drop, ℕ, ◌≡◌, ◌↔◌, ◌⊎◌, refl, true, false, some,
  [], ◌∷◌, arith, inr,
}
use rr_launcher.Result.{done}
use rr_launcher.Stun.{
  Endpoint, Turn, nothing, readable, packet, wait_for_matching_response, recv_until, remaining_ms,
  is_response,
}
use rr_launcher.Stun.Message.{BindingResult, binding_request}
use rr_launcher.Stun.Client.{
  random_bytes, Host, Client, Behavior, sent, resolve_server, exchange, make_transaction_id,
  ping_socket_addr,
}
use rr_launcher.NatTest.{NatResult, good, nat_result, nat_test_run}
use rr_launcher.NatTest.Ping.{Timeval, PingResult, ping_elapsed_ms, ping_test_run}
use rr_launcher.NatTest.Tally.{longest, Measures}
use rr_launcher.NatTest.Times.{answered_times, test_times, ping_test_run-Measures}
use rr_launcher.NatTest.Verdict.{nat_result-good_iff}
use rr_launcher.NatTest.Completion.{nat_test_run-Reports}

-- 2.9 s to 4.1 s, and a clock that went back.
elapsed :
    ping_elapsed_ms (record { sec = 2; usec = 900000 }) (record { sec = 4; usec = 100000 }) ≡ 1200
unfolding ping_elapsed_ms
elapsed = refl

abbrev bound : BindingResult
bound = record { success = true; endpoint = record { ip = 7; port = 9 } }

abbrev open_port : Behavior
open_port = record { success = true; change_port = true; change_ip = false; change_ip_port = false }

nat_result-good_iff_example : ((nat_result bound bound open_port).p2p_compatibility ≡ good) ↔ (
    (true ≡ true)
    × (true ≡ true)
    × (bound.endpoint ≡ bound.endpoint)
    × (true ≡ true)
    × ((false ≡ true) ⊎ (true ≡ true)))
nat_result-good_iff_example = nat_result-good_iff bound bound open_port

-- One packet that is no response to anything, and then silence past the deadline.
abbrev silent : Host
silent = record {
  rand = λ n. n;
  network = λ n dst req. sent 0 (
      record { now = 5; selected = readable (packet dst (1 ∷ 2 ∷ [])) }
      ∷ record { now = 10000000; selected = nothing }
      ∷ []);
  lookup = λ name. some 0x01020304;
}

abbrev client : Client
client = record { seeded = false; drawn = 0; requests = 0 }

nat_test_run-Reports_example :
    (r : NatResult) × ((nat_test_run silent
        (record { private_port = some 22000; first_opens = true; second_opens = true })
        client).0
      ≡ done (some r))
nat_test_run-Reports_example = nat_test_run-Reports silent 22000 true client (λ n dst req. inr (
  0,
  record { now = 5; selected = readable (packet dst (1 ∷ 2 ∷ [])) } ∷ [],
  record { now = 10000000; selected = nothing },
  [],
  refl,
  omega arith,
))

-- A server that answers each request with a response that repeats its id.
abbrev answer : Endpoint → Bytes → Turn
answer dst req = record {
  now = 5;
  selected = readable (packet dst (1 ∷ 1 ∷ 0 ∷ 0 ∷ take 16 (drop 4 req)));
}

abbrev echoing : Host
echoing = record {
  rand = λ n. n;
  network =
      λ n dst req. sent 0 (answer dst req ∷ record { now = 10000000; selected = nothing } ∷ []);
  lookup = λ name. some 0x01020304;
}

-- The n-th round lasts 10 (n + 1) ms.
abbrev clock : ℕ → Timeval × Timeval
clock n = (record { sec = 0; usec = 0 }, record { sec = 0; usec = 10000 * (min n 4 + 1) })

quick : (n : ℕ) → ping_elapsed_ms (clock n).0 (clock n).1 ≤ longest
unfolding ping_elapsed_ms
quick n = ground arith

abbrev server : Option Endpoint
server = resolve_server echoing (codes "stun-anycast.l.google.com") 19302

all_answered : test_times echoing clock client server true ≡ 10 ∷ 20 ∷ 30 ∷ 40 ∷ 50 ∷ []
unfolding resolve_server answered_times ping_elapsed_ms ping_socket_addr exchange
    make_transaction_id binding_request wait_for_matching_response recv_until remaining_ms
    is_response random_bytes
all_answered = refl

ping_test_run-Measures_example :
    (r : PingResult) × ((ping_test_run echoing clock client true).0 ≡ done r)
    × Measures (test_times echoing clock client server true) r
ping_test_run-Measures_example =
    ping_test_run-Measures echoing clock client true
      (λ n dst req. inr (
        0,
        answer dst req ∷ [],
        record { now = 10000000; selected = nothing },
        [],
        refl,
        omega arith,
      ))
      quick
