-- ===== src/PrivatePort/Tests.antt =====
-- The private port of source/private_port.c from settings at hand.
use rr_launcher.Prelude.{
  ◌+◌, ◌%◌, ◌≤◌, ◌≡◌, refl, true, some, [], ◌∷◌, ◌++◌, replicate, Bytes, codes, arith,
}
use rr_launcher.PrivatePort.{get_private_port, decrypt}
use rr_launcher.PrivatePort.Secret.{value_of, get_private_port-serno}

abbrev plain : Bytes
plain = codes "SERNO=" ++ ((49 ∷ 50 ∷ 51 ∷ 52 ∷ []) ++ (13 ∷ replicate 245 0))

get_private_port-serno_example :
    (get_private_port (record { starts = true; opens = true; content = decrypt plain })
      ≡ some (22000 + value_of 0 (49 ∷ 50 ∷ 51 ∷ 52 ∷ []) % 1000))
    × (22000 + value_of 0 (49 ∷ 50 ∷ 51 ∷ 52 ∷ []) % 1000 ≤ 22999)
get_private_port-serno_example =
    get_private_port-serno 49 (50 ∷ 51 ∷ 52 ∷ []) (replicate 245 0)
      (
        (omega arith, omega arith),
        (
          (omega arith, omega arith),
          ((omega arith, omega arith), ((omega arith, omega arith), tt)),
        ),
      )
      (omega arith) refl
