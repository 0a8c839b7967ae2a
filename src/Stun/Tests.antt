-- ===== src/Stun/Tests.antt =====
-- Waits and answers of source/stun.c at concrete packets.
use rr_launcher.Prelude.{
  ℕ, ◌+◌, ◌≡◌, ◌≢◌, refl, true, false, none, List, [], ◌∷◌, ◌++◌, take, Bytes, arith, inl,
}
use rr_launcher.Result.{done}
use rr_launcher.Stun.{
  Endpoint, eintr, packet, select_failed, readable, nothing, Turn, Answer, received, waiting,
  remaining_ms, is_response, wait_for_matching_response, recv_until,
}
use rr_launcher.Stun.Message.{Found, nothing_found, attributes, change_request}
use rr_launcher.Stun.Client.{Host, Client, sent, random_bytes, binding_socket_addr}
use rr_launcher.Stun.Answers.{
  Arrived, wait_for_matching_response-Arrived, wait_for_matching_response-found,
  wait_for_matching_response-ends,
}
use rr_launcher.Stun.Walk.{attributes-Returns}
use rr_launcher.Stun.Encoding.{Attribute, encoded, be16, encoded_value}
use rr_launcher.Stun.Mapping.{response, xor_mapped, binding_socket_addr-mapped}

-- The clock may go back: what remains is then more than the timeout.
remaining : remaining_ms 5000 10 4000 ≡ 11
unfolding remaining_ms
remaining = refl

a_change_request : take 4 (change_request 6 []) ≡ 0 ∷ 1 ∷ 0 ∷ 8 ∷ []
unfolding change_request
a_change_request = refl

abbrev server : Endpoint
server = record { ip = 0x01020304; port = 3478 }

abbrev public : Endpoint
public = record { ip = 0xC0000201; port = 40000 }

-- What `rand` gives, and the id made of it.
abbrev dice : ℕ → ℕ
dice n = 256 + n

abbrev id : Bytes
id = 0 ∷ 1 ∷ 2 ∷ 3 ∷ 4 ∷ 5 ∷ 6 ∷ 7 ∷ 8 ∷ 9 ∷ 10 ∷ 11 ∷ []

abbrev software : Attribute
software = record { type = 0x8022; value = 65 ∷ 66 ∷ 67 ∷ 68 ∷ 69 ∷ [] }

abbrev answer : Bytes
answer = response id (software ∷ xor_mapped public ∷ software ∷ [])

-- An interruption and a packet cut short come first.
abbrev early : List Turn
early =
    record { now = 1000; selected = select_failed eintr }
    ∷ record { now = 2000; selected = readable (packet server (1 ∷ 1 ∷ 0 ∷ [])) }
    ∷ []

abbrev answering : Turn
answering = record { now = 3000; selected = readable (packet server answer) }

wait_for_matching_response-found_example :
    wait_for_matching_response 4 id 1000 10 (early ++ (answering ∷ []))
    ≡ done (received server (take 1024 answer))
unfolding is_response response xor_mapped encoded be16 encoded_value
wait_for_matching_response-found_example =
    wait_for_matching_response-found id 1000 10 early [] 3000 server answer (omega arith)
      (((omega arith, omega arith), tt), (((omega arith, omega arith), refl), tt))
      (omega arith, omega arith) refl

ran :
    wait_for_matching_response 4 id 1000 10 (early ++ (answering ∷ []))
    ≡ done (received server (take 1024 answer))
unfolding wait_for_matching_response recv_until remaining_ms is_response response xor_mapped encoded
    be16 encoded_value
ran = refl

wait_for_matching_response-Arrived_example :
    Arrived id 1000 10 (early ++ (answering ∷ [])) server (take 1024 answer)
wait_for_matching_response-Arrived_example =
    wait_for_matching_response-Arrived id 1000 10 (early ++ (answering ∷ [])) ran

-- Without an answer, past the deadline of 11000.
wait_for_matching_response-ends_example :
    (a : Answer) × (wait_for_matching_response 4 id 1000 10
        (early ++ (record { now = 11000; selected = nothing } ∷ []))
      ≡ done a)
    × (a ≢ waiting)
wait_for_matching_response-ends_example =
    wait_for_matching_response-ends id 1000 10 early (record { now = 11000; selected = nothing }) []
      (omega arith) (omega arith)

-- An attribute that claims more than the packet holds.
abbrev lying : Bytes
lying = 0 ∷ 0x20 ∷ 0xFF ∷ 0xFF ∷ 0 ∷ 1 ∷ []

attributes-Returns_example :
    (found : Found) × (attributes 7 false lying 0 nothing_found ≡ done found)
attributes-Returns_example =
    attributes-Returns 7 false lying 0 nothing_found (omega arith) (omega arith)

abbrev host : Host
host = record {
  rand = dice;
  network = λ n dst req. sent 1000 (early ++ (answering ∷ []));
  lookup = λ name. none;
}

abbrev client : Client
client = record { seeded = false; drawn = 0; requests = 0 }

binding_socket_addr-mapped_example :
    (binding_socket_addr host client server 10).0
    ≡ done (record { success = true; endpoint = public })
unfolding random_bytes response xor_mapped encoded be16 is_response encoded_value
binding_socket_addr-mapped_example =
    binding_socket_addr-mapped host client server 10 (software ∷ []) (software ∷ []) public 1000
      3000 server early [] (record { type_fits = omega arith; length_fits = omega arith }, tt)
      (record { type_fits = omega arith; length_fits = omega arith }, tt)
      (((λ e. omega (arith, e)), (λ e. omega (arith, e))), tt)
      (record { ip_fits = omega arith; port_fits = omega arith }) (inl (λ e. cc)) (omega arith)
      (omega arith) (((omega arith, omega arith), tt), (((omega arith, omega arith), refl), tt))
      (omega arith, omega arith) refl
