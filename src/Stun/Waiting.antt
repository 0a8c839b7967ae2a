-- ===== src/Stun/Waiting.antt =====
-- The wait of source/stun.c, turn by turn: which packet ends it, and that it ends.
use Prim.Native.Nat.{bit_or}
use rr_launcher.Prelude.{
  ℕ, zero, suc, ◌+◌, ◌*◌, ◌^◌, ◌≤◌, ◌<◌, ◌≡◌, refl, ap, ap₂, Bool, true, false, ◌&&◌, not,
  if◌then◌else◌, ltb, leb, ◌==◌, ==_iff, Bool-cases, inl, inr, List, [], ◌∷◌, length, take, drop,
  Bytes, bytes_eq, bytes_eq_iff, u16, arith,
}
use rr_launcher.Result.{Outcome, done, done-inj}
use rr_launcher.Stun.{
  eintr, eagain, other, recv_failed, packet, Selected, select_failed, nothing, readable, Turn,
  Answer, received, broken, timed_out, waiting, remaining_ms, buf_size, after_turn, recv_until,
  u16_at, same_bytes, is_response, keep, after_packet, wait_for_matching_response,
}

-- A success response to the transaction: its header is whole, what it says of its length fits the packet,
-- and it repeats the transaction id.
pub record IsResponseTo (transaction_id buf : Bytes) : Type 0 where
  pub message_length : ℕ
  pub success : take 2 buf ≡ 1 ∷ 1 ∷ []
  pub length_field : u16_at buf 2 ≡ done message_length
  pub whole : message_length + 20 ≤ length buf
  pub echoed : take 12 (drop 8 buf) ≡ take 12 transaction_id

-- The last two tests, of a packet whose type is right.
length_and_id : Bytes → Bytes → ℕ → Outcome Bool
length_and_id buf id msg_len =
    if ltb (length buf) (msg_len + 20) then done false else same_bytes buf 8 id 12

length_and_id-total :
    (buf id : Bytes) (msg_len : ℕ)
    → 12 ≤ length id
    → 20 ≤ length buf
    → (b : Bool) × (length_and_id buf id msg_len ≡ done b)
unfolding length_and_id
length_and_id-total buf id msg_len h k = elim (Bool-cases (ltb (length buf) (msg_len + 20))) [
  | inl short ↦ rw short (false, refl)
  | inr long ↦
      let whole : leb (8 + 12) (length buf) ≡ true = ground arith in
      let enough : leb 12 (length id) ≡ true = ground arith in
      rw (long, whole, enough) (bytes_eq (take 12 (drop 8 buf)) (take 12 id), refl)
]

length_and_id-true :
    (buf id : Bytes) (msg_len : ℕ)
    → length_and_id buf id msg_len ≡ done true
    → (msg_len + 20 ≤ length buf) × (take 12 (drop 8 buf) ≡ take 12 id)
unfolding length_and_id
length_and_id-true buf id msg_len e = elim (Bool-cases (ltb (length buf) (msg_len + 20))) [
  | inl short ↦ absurd (cc (rw short at e))
  | inr long ↦ elim (Bool-cases (leb (8 + 12) (length buf) && leb 12 (length id))) [
    | inr bad ↦ absurd (cc (rw (long, bad) at e))
    | inl good ↦
        let same : done (bytes_eq (take 12 (drop 8 buf)) (take 12 id)) ≡ done true =
          rw (long, good) at e in
        (ground arith, (bytes_eq_iff (take 12 (drop 8 buf)) (take 12 id)).0 (done-inj same))
  ]
]

-- Every packet is judged: no test reads past it.
pub is_response-total :
    (buf id : Bytes) → 12 ≤ length id → (b : Bool) × (is_response buf id ≡ done b)
unfolding is_response length_and_id
is_response-total [] id h = (false, refl)
is_response-total (a ∷ []) id h = (false, refl)
is_response-total (a ∷ b ∷ []) id h = (false, refl)
is_response-total (a ∷ b ∷ c ∷ []) id h = (false, refl)
is_response-total (a ∷ b ∷ c ∷ d ∷ buf) id h =
    elim (Bool-cases (ltb (length (a ∷ b ∷ c ∷ d ∷ buf)) 20)) [
      | inl short ↦ rw short (false, refl)
      | inr long ↦ elim (Bool-cases (not (a == 1 && b == 1))) [
        | inl wrong ↦ rw (long, wrong) (false, refl)
        | inr right ↦
            rw (long, right)
              (length_and_id-total (a ∷ b ∷ c ∷ d ∷ buf) id (u16 (bit_or (c * 2 ^ 8) d)) h
                (ground arith))
      ]
    ]

pub is_response-IsResponseTo :
    (buf id : Bytes) → is_response buf id ≡ done true → IsResponseTo id buf
unfolding is_response length_and_id
is_response-IsResponseTo [] id e = cc
is_response-IsResponseTo (a ∷ []) id e = cc
is_response-IsResponseTo (a ∷ b ∷ []) id e = cc
is_response-IsResponseTo (a ∷ b ∷ c ∷ []) id e = cc
is_response-IsResponseTo (a ∷ b ∷ c ∷ d ∷ buf) id e =
    elim (Bool-cases (ltb (length (a ∷ b ∷ c ∷ d ∷ buf)) 20)) [
      | inl short ↦ absurd (cc (rw short at e))
      | inr long ↦ elim (Bool-cases (a == 1 && b == 1)) [
        | inr wrong ↦ absurd (cc (rw (long, wrong) at e))
        | inl right ↦
            let one_high : a ≡ 1 = ground (arith, ==_iff a 1) in
            let one_low : b ≡ 1 = ground (arith, ==_iff b 1) in
            let msg_len = u16 (bit_or (c * 2 ^ 8) d) in
            let (whole, echoed) =
              length_and_id-true (a ∷ b ∷ c ∷ d ∷ buf) id msg_len (rw (long, right) at e) in
            record {
              message_length = msg_len;
              success = ap₂ (λ x y. x ∷ y ∷ []) one_high one_low;
              length_field = refl;
              whole = whole;
              echoed = echoed;
            }
      ]
    ]

-- One turn that has time left, given what the turns after it come to.
unfoldable pub met : Bytes → Selected → Outcome Answer → Outcome Answer
met id nothing rest = done timed_out
met id (select_failed eintr) rest = rest
met id (select_failed eagain) rest = done broken
met id (select_failed other) rest = done broken
met id (readable (recv_failed eintr)) rest = rest
met id (readable (recv_failed eagain)) rest = rest
met id (readable (recv_failed other)) rest = done broken
met id (readable (packet from bytes)) rest =
    keep (is_response (take buf_size bytes) id) rest (received from (take buf_size bytes))

-- The same wait as one recursion over the turns.
unfoldable pub first_response : Bytes → ℕ → ℕ → List Turn → Outcome Answer
first_response id start timeout_ms [] = done waiting
first_response id start timeout_ms (turn ∷ turns) =
    let rest = first_response id start timeout_ms turns in
    if remaining_ms start timeout_ms turn.now == 0
    then done timed_out
    else met id turn.selected rest

after_packet-met :
    (id : Bytes) (wait : List Turn → Outcome Answer) (s : Selected) (next : Answer × List Turn)
    (turns : List Turn) (rest : Outcome Answer)
    → after_packet id wait next ≡ rest
    → wait turns ≡ rest
    → after_packet id wait (after_turn s next turns) ≡ met id s rest
unfolding met
after_packet-met id wait nothing next turns rest again onward = refl
after_packet-met id wait (select_failed eintr) next turns rest again onward = again
after_packet-met id wait (select_failed eagain) next turns rest again onward = refl
after_packet-met id wait (select_failed other) next turns rest again onward = refl
after_packet-met id wait (readable (recv_failed eintr)) next turns rest again onward = again
after_packet-met id wait (readable (recv_failed eagain)) next turns rest again onward = again
after_packet-met id wait (readable (recv_failed other)) next turns rest again onward = refl
after_packet-met id wait (readable (packet from bytes)) next turns rest again onward =
    let buf = take buf_size bytes in
    ap (λ (r : Outcome Answer). keep (is_response buf id) r (received from buf)) onward

-- With fuel for one packet a turn, the nested loops come to the same.
pub wait_for_matching_response-first_response :
    (fuel : ℕ) (id : Bytes) (start timeout_ms : ℕ) (turns : List Turn)
    → length turns < fuel
    → wait_for_matching_response fuel id start timeout_ms turns
      ≡ first_response id start timeout_ms turns
unfolding wait_for_matching_response recv_until first_response
wait_for_matching_response-first_response zero id start timeout_ms turns h = elim h [ ]
wait_for_matching_response-first_response (suc fuel) id start timeout_ms [] h = refl
wait_for_matching_response-first_response (suc fuel) id start timeout_ms (turn ∷ turns) h =
    elim (Bool-cases (remaining_ms start timeout_ms turn.now == 0)) [
      | inl over ↦ rw over refl
      | inr left ↦ rw left (
          after_packet-met id (wait_for_matching_response fuel id start timeout_ms) turn.selected
            (recv_until start timeout_ms turns) turns (first_response id start timeout_ms turns)
            (wait_for_matching_response-first_response (suc fuel) id start timeout_ms turns
              (omega arith))
            (wait_for_matching_response-first_response fuel id start timeout_ms turns
              (omega arith)))
    ]

-- A turn that the wait goes past: there is time left, and what came is an interruption or a packet that
-- is no response to the transaction.
abbrev pub IsPassed : Bytes → Selected → Type 0
IsPassed id (select_failed eintr) = Unit
IsPassed id (readable (recv_failed eintr)) = Unit
IsPassed id (readable (recv_failed eagain)) = Unit
IsPassed id (readable (packet from bytes)) = is_response (take buf_size bytes) id ≡ done false
IsPassed id s = ⊥
