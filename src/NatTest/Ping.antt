-- ===== src/NatTest/Ping.antt =====
-- `rr_ping_test_run` of source/nat_test.c: five pings.
use rr_launcher.Prelude.{
  ℕ, zero, suc, ◌+◌, ◌-◌, ◌*◌, ◌/◌, ◌%◌, ◌^◌, Bool, true, false, if◌then◌else◌, ltb, ◌==◌, Option,
  some, none, codes, u32,
}
use rr_launcher.Prelude.Int.{ℤ, pos, negsuc, pos_part, neg_part, sub_ℕ}
use rr_launcher.Result.{Outcome, done, ◌>>=◌}
use rr_launcher.Stun.{Endpoint}
use rr_launcher.Stun.Client.{Host, Client, resolve_server, ping_socket_addr}

-- `struct timeval`
pub record Timeval : Type 0 where
  pub sec : ℕ
  pub usec : ℕ

abbrev to_u32 : ℤ → ℕ
to_u32 (pos n) = n % 2 ^ 32
to_u32 (negsuc n) = 2 ^ 32 - 1 - n % 2 ^ 32

-- `rr_ping_elapsed_ms`
unfoldable pub ping_elapsed_ms : Timeval → Timeval → ℕ
ping_elapsed_ms start end =
    let borrow = if ltb end.usec start.usec then 1 else 0 in
    let usec = end.usec + borrow * 1000000 - start.usec in
    let sec = sub_ℕ end.sec (start.sec + borrow) in
    to_u32 (sub_ℕ (pos_part sec * 1000 + usec / 1000) (neg_part sec * 1000))

-- What the loop keeps.
pub record Stats : Type 0 where
  pub min_ms : ℕ
  pub max_ms : ℕ
  pub total_ms : ℕ
  pub successful : ℕ

abbrev pub no_pings : Stats
no_pings = record { min_ms = 0xffffffff; max_ms = 0; total_ms = 0; successful = 0 }

-- The end of a round of the loop, with the answer of the ping.
unfoldable pub tally : Stats → Bool → ℕ → Stats
tally s ok elapsed =
    if ok
    then record {
      min_ms = if ltb elapsed s.min_ms then elapsed else s.min_ms;
      max_ms = if ltb s.max_ms elapsed then elapsed else s.max_ms;
      total_ms = u32 (s.total_ms + elapsed);
      successful = s.successful + 1;
    }
    else s

abbrev pub after_ping :
    Stats
    → ℕ
    → (Client → Stats → Outcome Stats × Client)
    → Outcome Bool × Client
    → Outcome Stats × Client
after_ping s elapsed rest (done ok, c) = rest c (tally s ok elapsed)
after_ping s elapsed rest (o, c) = (o >>= λ ok. done s, c)

-- The rounds that are left, the next the i-th: `clock` is what `gettimeofday` gives at the start and at
-- the end of a round.
unfoldable pub ping_rounds :
    Host → (ℕ → Timeval × Timeval) → Endpoint → ℕ → ℕ → Client → Stats → Outcome Stats × Client
ping_rounds host clock dst zero i c s = (done s, c)
ping_rounds host clock dst (suc n) i c s =
    after_ping s (ping_elapsed_ms (clock i).0 (clock i).1) (ping_rounds host clock dst n (i + 1))
      (ping_socket_addr host c dst 2000)

-- `rr_ping_result_t`
pub record PingResult : Type 0 where
  pub success : Bool
  pub min_ms : ℕ
  pub avg_ms : ℕ
  pub max_ms : ℕ

abbrev pub no_ping_result : PingResult
no_ping_result = record { success = false; min_ms = 0; avg_ms = 0; max_ms = 0 }

-- The end of the function.
unfoldable pub ping_result : Stats → PingResult
ping_result s = if s.successful == 0 then no_ping_result else record {
  success = true;
  min_ms = s.min_ms;
  avg_ms = s.total_ms / s.successful;
  max_ms = s.max_ms;
}

-- `rr_ping_test_run`, given whether the socket is open or opens.
unfoldable pub ping_test_run :
    Host → (ℕ → Timeval × Timeval) → Client → Bool → Outcome PingResult × Client
ping_test_run host clock c opens =
    run (resolve_server host (codes "stun-anycast.l.google.com") 19302) opens
  where
    result : Outcome Stats × Client → Outcome PingResult × Client
    result (o, c) = (o >>= λ s. done (ping_result s), c)

    run : Option Endpoint → Bool → Outcome PingResult × Client
    run dst false = (done no_ping_result, c)
    run none true = (done no_ping_result, c)
    run (some dst) true = result (ping_rounds host clock dst 5 0 c no_pings)
