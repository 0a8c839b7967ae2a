-- ===== src/NatTest/Times.antt =====
-- `rr_ping_test_run` of source/nat_test.c measures: what it reports is the least, the mean and the greatest of
-- the times of the pings that were answered.
use rr_launcher.Prelude.{
  ℕ, zero, suc, ◌+◌, ◌≤◌, ◌≡◌, refl, ap, Bool, true, false, Bool-cases, Option-cases, inl, inr,
  Option, some, none, List, [], ◌∷◌, length, codes, arith,
}
use rr_launcher.Result.{Outcome, done, error, fatal, fault, ◌>>=◌, Returns}
use rr_launcher.Stun.{Endpoint}
use rr_launcher.Stun.Message.{binding_request}
use rr_launcher.Stun.Client.{
  Host, Client, random_bytes, make_transaction_id, resolve_server, is_received, ping_socket_addr,
}
use rr_launcher.Stun.Mapping.{length-random_bytes}
use rr_launcher.NatTest.Completion.{IsPunctual, exchange-Returns}
use rr_launcher.NatTest.Ping.{
  Timeval, ping_elapsed_ms, Stats, no_pings, tally, after_ping, ping_rounds, PingResult,
  no_ping_result, ping_result, ping_test_run,
}
use rr_launcher.NatTest.Tally.{longest, Measures, IsShort, tally_all, ping_result-Measures}

-- The times of the next rounds, of those in which the ping was answered.
abbrev pub answered_time : ℕ → (Client → List ℕ) → Outcome Bool × Client → List ℕ
answered_time elapsed later (done true, c) = elapsed ∷ later c
answered_time elapsed later (done false, c) = later c
answered_time elapsed later (o, c) = []

unfoldable pub answered_times : Host → (ℕ → Timeval × Timeval) → Endpoint → ℕ → ℕ → Client → List ℕ
answered_times host clock dst zero i c = []
answered_times host clock dst (suc n) i c =
    answered_time (ping_elapsed_ms (clock i).0 (clock i).1)
      (answered_times host clock dst n (i + 1)) (ping_socket_addr host c dst 2000)

-- No ping is sent where the name is not known or no socket opens.
abbrev pub test_times : Host → (ℕ → Timeval × Timeval) → Client → Option Endpoint → Bool → List ℕ
test_times host clock c dst false = []
test_times host clock c none true = []
test_times host clock c (some dst) true = answered_times host clock dst 5 0 c

module _ (host : Host) (clock : ℕ → Timeval × Timeval) (dst : Endpoint) (punctual : IsPunctual host)
    (quick : (j : ℕ) → ping_elapsed_ms (clock j).0 (clock j).1 ≤ longest) where
  ping-Returns : (c : Client) → Returns (ping_socket_addr host c dst 2000).0
  unfolding ping_socket_addr make_transaction_id
  ping-Returns c =
      let id = random_bytes host.rand 12 c.drawn in
      let (a, e, long) =
        exchange-Returns host punctual (make_transaction_id host c).1 dst 2000 id
          (binding_request id) (omega arith)
          (omega (arith, length-random_bytes host.rand 12 c.drawn)) in
      (is_received a, rw e refl)

  -- What the rounds that are left come to.
  ComesTo : ℕ → ℕ → Client → Stats → Type 0
  ComesTo n i c s =
      let times = answered_times host clock dst n i c in
      ((ping_rounds host clock dst n i c s).0 ≡ done (tally_all s times))
      × IsShort times
      × (length times ≤ n)

  after_ping-ComesTo :
      (n i : ℕ) (s : Stats) (elapsed : ℕ) (p : Outcome Bool × Client)
      → elapsed ≤ longest
      → Returns p.0
      → ((c : Client) (s : Stats) → ComesTo n i c s)
      → let times = answered_time elapsed (answered_times host clock dst n i) p in
        ((after_ping s elapsed (ping_rounds host clock dst n i) p).0 ≡ done (tally_all s times))
        × IsShort times
        × (length times ≤ suc n)
  unfolding ComesTo tally_all tally
  after_ping-ComesTo n i s elapsed (done true, c) short r later =
      let (e, all, few) = later c (tally s true elapsed) in (e, (short, all), omega (arith, few))
  after_ping-ComesTo n i s elapsed (done false, c) short r later =
      let (e, all, few) = later c s in (e, all, omega (arith, few))
  after_ping-ComesTo n i s elapsed (error source context, c) short (a, e) later = cc
  after_ping-ComesTo n i s elapsed (fatal message, c) short (a, e) later = cc
  after_ping-ComesTo n i s elapsed (fault, c) short (a, e) later = cc

  ping_rounds-ComesTo : (n i : ℕ) (c : Client) (s : Stats) → ComesTo n i c s
  unfolding ComesTo ping_rounds answered_times tally_all
  ping_rounds-ComesTo zero i c s = (refl, tt, omega arith)
  ping_rounds-ComesTo (suc n) i c s =
      after_ping-ComesTo n (i + 1) s (ping_elapsed_ms (clock i).0 (clock i).1)
        (ping_socket_addr host c dst 2000) (quick i) (ping-Returns c)
        (ping_rounds-ComesTo n (i + 1))

-- The ping test returns, whatever the server sends or does not send, if the clock reaches the deadline of
-- each wait; and if no round is longer than 2^29 ms, it reports the least, the mean and the greatest of the
-- times of the pings that were answered, the mean of their sum without a wrap, or zeros and no success if
-- none was.
pub ping_test_run-Measures :
    (host : Host) (clock : ℕ → Timeval × Timeval) (c : Client) (opens : Bool)
    → IsPunctual host
    → ((j : ℕ) → ping_elapsed_ms (clock j).0 (clock j).1 ≤ longest)
    → let server = resolve_server host (codes "stun-anycast.l.google.com") 19302 in
      (r : PingResult) × ((ping_test_run host clock c opens).0 ≡ done r)
      × Measures (test_times host clock c server opens) r
unfolding ping_test_run ComesTo
ping_test_run-Measures host clock c opens punctual quick =
    let name = codes "stun-anycast.l.google.com" in
    elim (Bool-cases opens) [
      | inr shut ↦ rw shut (no_ping_result, refl, refl)
      | inl opened ↦ elim (Option-cases (resolve_server host name 19302)) [
        | inl unknown ↦ rw (unknown, opened) (no_ping_result, refl, refl)
        | inr (dst, known) ↦
            let times = answered_times host clock dst 5 0 c in
            let (e, short, few) =
              ping_rounds-ComesTo host clock dst punctual quick 5 0 c no_pings in
            rw (known, opened)
              (
                ping_result (tally_all no_pings times),
                ap (λ o. o >>= λ s. done (ping_result s)) e,
                ping_result-Measures times short few,
              )
      ]
    ]
