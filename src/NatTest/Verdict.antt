-- ===== src/NatTest/Verdict.antt =====
-- What `rr_nat_test_run` of source/nat_test.c concludes, and that it comes to a conclusion.
use rr_launcher.Prelude.{
  ℕ, ◌≡◌, ◌⊎◌, ◌↔◌, ap₂, Bool, true, false, ◌&&◌, if◌then◌else◌, ◌==◌, ==_iff, arith,
}
use rr_launcher.Stun.{Endpoint}
use rr_launcher.Stun.Message.{BindingResult}
use rr_launcher.Stun.Client.{Behavior}
use rr_launcher.NatTest.{
  nat_unknown, nat_endpoint_independent, symmetric, filter_unknown, filter_endpoint_independent,
  address_dependent, address_port_dependent, good, nat_result, nat_type_of, filter_type_of,
  compatibility_of,
}

verdict :
    (success1 success2 same answered both port : Bool)
    → (compatibility_of
          (if success1 && success2
            then (if same then nat_endpoint_independent else symmetric)
            else nat_unknown)
          (if answered
            then (if both
                then filter_endpoint_independent
                else if port
                then address_dependent
                else address_port_dependent)
            else filter_unknown)
        ≡ good)
      ↔ ((success1 ≡ true)
          × (success2 ≡ true)
          × (same ≡ true)
          × (answered ≡ true)
          × ((both ≡ true) ⊎ (port ≡ true)))
unfolding compatibility_of
verdict true true true true true port = ground arith
verdict true true true true false true = ground arith
verdict true true true true false false = ground arith
verdict true true true false both port = ground arith
verdict true true false answered both port = ground arith
verdict true false same answered both port = ground arith
verdict false success2 same answered both port = ground arith

same_endpoint : (a b : Endpoint) → ((a.ip == b.ip && a.port == b.port) ≡ true) ↔ (a ≡ b)
same_endpoint a b = (
  λ h.
      let ips : a.ip ≡ b.ip = ground (arith, ==_iff a.ip b.ip) in
      let ports : a.port ≡ b.port = ground (arith, ==_iff a.port b.port) in
      ap₂ (λ (i p : ℕ). record { ip = i; port = p }) ips ports,
  λ e. rw e (ground (arith, ==_iff b.ip b.ip, ==_iff b.port b.port)),
)

-- Peers are promised to be reachable just when both servers saw the same public address and port and the
-- behavior server could answer from another port.
pub nat_result-good_iff :
    (server1 server2 : BindingResult) (behavior : Behavior)
    → ((nat_result server1 server2 behavior).p2p_compatibility ≡ good) ↔ (
        (server1.success ≡ true)
        × (server2.success ≡ true)
        × (server1.endpoint ≡ server2.endpoint)
        × (behavior.success ≡ true)
        × ((behavior.change_ip_port ≡ true) ⊎ (behavior.change_port ≡ true)))
unfolding nat_result nat_type_of filter_type_of compatibility_of
nat_result-good_iff server1 server2 behavior =
    let (forward, back) =
      verdict server1.success server2.success
        (server1.endpoint.ip == server2.endpoint.ip
          && server1.endpoint.port == server2.endpoint.port)
        behavior.success behavior.change_ip_port behavior.change_port in
    let (alike, equal) = same_endpoint server1.endpoint server2.endpoint in
    (
      λ h. let (a, b, same, answered, from) = forward h in (a, b, alike same, answered, from),
      λ (a, b, same, answered, from). back (a, b, equal same, answered, from),
    )
