-- ===== src/NatTest.antt =====
-- source/nat_test.c and source/nat_test.h: the NAT test and the ping test, on the calls of source/stun.c.
-- The sockets are the system's: whether one can be opened is a parameter, and closing one has no result.
use rr_launcher.Prelude.{
  ℕ, zero, suc, ◌+◌, ◌-◌, ◌*◌, ◌/◌, ◌%◌, ◌^◌, Bool, true, false, ◌&&◌, ◌||◌, not, if◌then◌else◌,
  ltb, ◌==◌, Option, none, some, List, [], ◌∷◌, Bytes, codes, u32,
}
use rr_launcher.Result.{Outcome, done, error, fatal, fault, ◌>>=◌}
use rr_launcher.Stun.{Endpoint}
use rr_launcher.Stun.Message.{BindingResult, no_endpoint}
use rr_launcher.Stun.Client.{
  Host, Client, Behavior, resolve_server, binding_socket_addr, behavior_test, no_behavior,
}
mod Ping
mod Verdict
mod Completion
mod Tally
mod Times
mod Tests

pub data NatType : Type 0 where
  nat_unknown nat_endpoint_independent symmetric : NatType

pub data NatFilterType : Type 0 where
  filter_unknown filter_endpoint_independent : NatFilterType
  address_dependent address_port_dependent : NatFilterType

pub data P2pCompatibility : Type 0 where
  compatibility_unknown good fair bad : P2pCompatibility

-- `rr_nat_result_t`
pub record NatResult : Type 0 where
  pub stun_server1 : Bool
  pub stun_server2 : Bool
  pub stun_behavior : Bool
  pub public_server1 : Endpoint
  pub public_server2 : Endpoint
  pub udp_outbound : Bool
  pub nat_type : NatType
  pub nat_filter_type : NatFilterType
  pub udp_inbound : Bool
  pub p2p_compatibility : P2pCompatibility

abbrev pub no_binding : BindingResult
no_binding = record { success = false; endpoint = no_endpoint }

-- The second try, where the first had no success.
abbrev pub retry : Host → Endpoint → Outcome BindingResult × Client → Outcome BindingResult × Client
retry host addr (done first, c) =
    if first.success then (done first, c) else binding_socket_addr host c addr 10000
retry host addr (o, c) = (o, c)

-- A binding that is tried once more where the server is known.
unfoldable pub bind_server : Host → Client → Option Endpoint → Outcome BindingResult × Client
bind_server host c none = (done no_binding, c)
bind_server host c (some addr) = retry host addr (binding_socket_addr host c addr 10000)

-- The public addresses of a result stay zero where there was no success.
abbrev shown : BindingResult → Endpoint
shown r = if r.success then r.endpoint else no_endpoint

unfoldable pub nat_type_of : BindingResult → BindingResult → NatType
nat_type_of server1 server2 =
    if server1.success && server2.success
    then (if server1.endpoint.ip == server2.endpoint.ip
          && server1.endpoint.port == server2.endpoint.port
        then nat_endpoint_independent
        else symmetric)
    else nat_unknown

-- The filter that a behavior test shows.
unfoldable pub filter_type_of : Behavior → NatFilterType
filter_type_of behavior =
    if behavior.success
    then (if behavior.change_ip_port
        then filter_endpoint_independent
        else if behavior.change_port
        then address_dependent
        else address_port_dependent)
    else filter_unknown

abbrev if_independent : NatFilterType → P2pCompatibility
if_independent filter_endpoint_independent = good
if_independent address_dependent = good
if_independent address_port_dependent = fair
if_independent filter_unknown = compatibility_unknown

unfoldable pub compatibility_of : NatType → NatFilterType → P2pCompatibility
compatibility_of symmetric filter = bad
compatibility_of nat_endpoint_independent filter = if_independent filter
compatibility_of nat_unknown filter = compatibility_unknown

-- What `rr_nat_test_run` writes, after the two bindings and the behavior test.
unfoldable pub nat_result : BindingResult → BindingResult → Behavior → NatResult
nat_result server1 server2 behavior = record {
  stun_server1 = server1.success;
  stun_server2 = server2.success;
  stun_behavior = behavior.success;
  public_server1 = shown server1;
  public_server2 = shown server2;
  udp_outbound = server1.success || server2.success;
  nat_type = nat_type_of server1 server2;
  nat_filter_type = filter_type_of behavior;
  udp_inbound = behavior.success;
  p2p_compatibility = compatibility_of (nat_type_of server1 server2) (filter_type_of behavior);
}

-- What the system gives a run: the private port of `rr_get_mkwii_private_port`, and whether the first
-- and the second socket on it can be opened.
pub record Sockets : Type 0 where
  pub private_port : Option ℕ
  pub first_opens : Bool
  pub second_opens : Bool

-- The behavior test, if its socket opens.
unfoldable pub behavior_of : Host → Client → Bool → Outcome Behavior × Client
behavior_of host c true = behavior_test host c (codes "stunserver2025.stunprotocol.org") 3478 10000
behavior_of host c false = (done no_behavior, c)

abbrev pub with_behavior :
    BindingResult → BindingResult → Outcome Behavior × Client → Outcome (Option NatResult) × Client
with_behavior server1 server2 (o, c) =
    (o >>= λ behavior. done (some (nat_result server1 server2 behavior)), c)

abbrev pub with_server2 :
    Host
    → Sockets
    → BindingResult
    → Outcome BindingResult × Client
    → Outcome (Option NatResult) × Client
with_server2 host sockets server1 (done server2, c) =
    with_behavior server1 server2 (behavior_of host c sockets.second_opens)
with_server2 host sockets server1 (o, c) = (o >>= λ r. done none, c)

abbrev pub with_server1 :
    Host
    → Sockets
    → Option Endpoint
    → Outcome BindingResult × Client
    → Outcome (Option NatResult) × Client
with_server1 host sockets server2_addr (done server1, c) =
    with_server2 host sockets server1 (bind_server host c server2_addr)
with_server1 host sockets server2_addr (o, c) = (o >>= λ r. done none, c)

-- `rr_nat_test_run`: nothing where the test could not be run.
unfoldable pub nat_test_run : Host → Sockets → Client → Outcome (Option NatResult) × Client
nat_test_run host sockets c = run sockets.private_port sockets.first_opens
  where
    run : Option ℕ → Bool → Outcome (Option NatResult) × Client
    run none opens = (done none, c)
    run (some port) false = (done none, c)
    run (some port) true =
        with_server1 host sockets (resolve_server host (codes "stun.cloudflare.com") 3478)
          (bind_server host c (resolve_server host (codes "stun.t-online.de") 3478))
