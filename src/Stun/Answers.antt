-- ===== src/Stun/Answers.antt =====
-- What the wait of source/stun.c promises: which packet it accepts, that it finds a response, and that
-- it ends.
use rr_launcher.Prelude.{
  ℕ, suc, ◌+◌, ◌*◌, ◌≤◌, ◌<◌, ◌≡◌, ◌≢◌, ◌⊎◌, ◌^◌, refl, sym, ap, subst, ◌∙◌, Bool, true, false,
  ◌==◌, Bool-cases, inl, inr, List, [], ◌∷◌, ◌++◌, length, take, Bytes, arith, All,
}
use rr_launcher.Result.{Outcome, done, error, fatal, fault}
use rr_launcher.Stun.{
  Endpoint, eintr, eagain, other, recv_failed, packet, Selected, select_failed, nothing, readable,
  Turn, Answer, received, broken, timed_out, waiting, remaining_ms, buf_size, is_response, keep,
  wait_for_matching_response,
}
use rr_launcher.Stun.Deadline.{
  InTime, remaining_ms-in_time, remaining_ms-timeout, remaining_ms-over, remaining_ms-left,
}
use rr_launcher.Stun.Waiting.{
  IsResponseTo, is_response-total, is_response-IsResponseTo, met, first_response,
  wait_for_matching_response-first_response, IsPassed,
}

-- A turn that brought a packet that answers the transaction: it began before the deadline, and `select` was
-- told to wait no longer than to the deadline and the rest of a millisecond.
pub record Arrived (id : Bytes) (start timeout_ms : ℕ) (turns : List Turn) (from : Endpoint)
    (buf : Bytes) : Type 0 where
  pub early : List Turn
  pub turn : Turn
  pub late : List Turn
  pub bytes : Bytes
  pub place : turns ≡ early ++ (turn ∷ late)
  pub came : turn.selected ≡ readable (packet from bytes)
  pub in_time : turn.now < start + timeout_ms * 1000
  pub timeout :
      turn.now + remaining_ms start timeout_ms turn.now * 1000 < start + timeout_ms * 1000 + 1000
  pub cut : buf ≡ take buf_size bytes
  pub response : IsResponseTo id buf

-- What a turn that ends the wait with a packet was.
met-received :
    (id : Bytes) (s : Selected) (rest : Outcome Answer) {from : Endpoint} {buf : Bytes}
    → met id s rest ≡ done (received from buf)
    → (rest ≡ done (received from buf))
      ⊎ ((bytes : Bytes) × (s ≡ readable (packet from bytes))
          × (buf ≡ take buf_size bytes)
          × IsResponseTo id buf)
unfolding met
met-received id nothing rest e = cc
met-received id (select_failed eintr) rest e = inl e
met-received id (select_failed eagain) rest e = cc
met-received id (select_failed other) rest e = cc
met-received id (readable (recv_failed eintr)) rest e = inl e
met-received id (readable (recv_failed eagain)) rest e = inl e
met-received id (readable (recv_failed other)) rest e = cc
met-received id (readable (packet f bytes)) rest {from = from} {buf = buf} e =
    kept (is_response (take buf_size bytes) id) refl e
  where
    kept :
        (o : Outcome Bool)
        → is_response (take buf_size bytes) id ≡ o
        → keep o rest (received f (take buf_size bytes)) ≡ done (received from buf)
        → (rest ≡ done (received from buf))
          ⊎ ((bytes' : Bytes) × (readable (packet f bytes) ≡ readable (packet from bytes'))
              × (buf ≡ take buf_size bytes')
              × IsResponseTo id buf)
    kept (done true) judged e =
        let same : take buf_size bytes ≡ buf = cc in
        inr (
          bytes,
          cc,
          sym same,
          subst (IsResponseTo id) same (is_response-IsResponseTo (take buf_size bytes) id judged),
        )
    kept (done false) judged e = inl e
    kept (error s c) judged e = cc
    kept (fatal c) judged e = cc
    kept fault judged e = cc

first_response-Arrived :
    (id : Bytes) (start timeout_ms : ℕ) (turns : List Turn) {from : Endpoint} {buf : Bytes}
    → first_response id start timeout_ms turns ≡ done (received from buf)
    → Arrived id start timeout_ms turns from buf
unfolding first_response
first_response-Arrived id start timeout_ms [] e = cc
first_response-Arrived id start timeout_ms (turn ∷ turns) e =
    elim (Bool-cases (remaining_ms start timeout_ms turn.now == 0)) [
      | inl over ↦ absurd (cc (rw over at e))
      | inr left ↦
          elim (met-received id turn.selected (first_response id start timeout_ms turns)
            (rw left at e)) [
              | inl later ↦
                  let a = first_response-Arrived id start timeout_ms turns later in
                  record {
                    early = turn ∷ a.early;
                    turn = a.turn;
                    late = a.late;
                    bytes = a.bytes;
                    place = ap (◌∷◌ turn) a.place;
                    came = a.came;
                    in_time = a.in_time;
                    timeout = a.timeout;
                    cut = a.cut;
                    response = a.response;
                  }
              | inr (bytes, came, cut, response) ↦ record {
                early = [];
                turn = turn;
                late = turns;
                bytes = bytes;
                place = refl;
                came = came;
                in_time = remaining_ms-in_time start timeout_ms turn.now left;
                timeout = remaining_ms-timeout start timeout_ms turn.now left;
                cut = cut;
                response = response;
              }
            ]
    ]

-- A packet that the wait returns is one that a turn brought, cut to the buffer, and is a whole success
-- response with the id of the transaction. The turn began before the deadline, and the time that `select`
-- was given in it ends less than a millisecond after the deadline.
pub wait_for_matching_response-Arrived :
    (id : Bytes) (start timeout_ms : ℕ) (turns : List Turn) {from : Endpoint} {buf : Bytes}
    → wait_for_matching_response (suc (length turns)) id start timeout_ms turns
      ≡ done (received from buf)
    → Arrived id start timeout_ms turns from buf
wait_for_matching_response-Arrived id start timeout_ms turns e =
    first_response-Arrived id start timeout_ms turns (
      sym (
        wait_for_matching_response-first_response (suc (length turns)) id start timeout_ms turns
          (omega arith))
      ∙ e)

met-passed :
    (id : Bytes) (s : Selected) (rest : Outcome Answer) → IsPassed id s → met id s rest ≡ rest
unfolding met
met-passed id nothing rest p = elim p [ ]
met-passed id (select_failed eintr) rest p = refl
met-passed id (select_failed eagain) rest p = elim p [ ]
met-passed id (select_failed other) rest p = elim p [ ]
met-passed id (readable (recv_failed eintr)) rest p = refl
met-passed id (readable (recv_failed eagain)) rest p = refl
met-passed id (readable (recv_failed other)) rest p = elim p [ ]
met-passed id (readable (packet from bytes)) rest p = rw p refl

first_response-passed :
    (id : Bytes) (start timeout_ms : ℕ) (early late : List Turn)
    → timeout_ms < 2 ^ 32
    → All (λ t. InTime start timeout_ms t × IsPassed id t.selected) early
    → first_response id start timeout_ms (early ++ late) ≡ first_response id start timeout_ms late
unfolding first_response
first_response-passed id start timeout_ms [] late small a = refl
first_response-passed id start timeout_ms (turn ∷ early) late small ((time, passed), a) =
    rw
      (
        remaining_ms-left start timeout_ms turn small time,
        met-passed id turn.selected (first_response id start timeout_ms (early ++ late)) passed,
      )
      (first_response-passed id start timeout_ms early late small a)

-- A response that comes in a turn begun before the deadline is not missed: whatever interruptions and
-- whatever other packets the turns before bring, begun before the deadline themselves, the wait returns it,
-- if the clock is not set back before its start.
pub wait_for_matching_response-found :
    (id : Bytes) (start timeout_ms : ℕ) (early late : List Turn) (now : ℕ) (from : Endpoint)
    (bytes : Bytes)
    → timeout_ms < 2 ^ 32
    → All (λ t. InTime start timeout_ms t × IsPassed id t.selected) early
    → InTime start timeout_ms (record { now = now; selected = readable (packet from bytes) })
    → is_response (take buf_size bytes) id ≡ done true
    → let turn : Turn = record { now = now; selected = readable (packet from bytes) } in
      let turns = early ++ (turn ∷ late) in
      wait_for_matching_response (suc (length turns)) id start timeout_ms turns
      ≡ done (received from (take buf_size bytes))
unfolding first_response met
wait_for_matching_response-found id start timeout_ms early late now from bytes small a time
      response =
    let turn : Turn = record { now = now; selected = readable (packet from bytes) } in
    let turns = early ++ (turn ∷ late) in
    wait_for_matching_response-first_response (suc (length turns)) id start timeout_ms turns
      (omega arith)
    ∙ first_response-passed id start timeout_ms early (turn ∷ late) small a
    ∙ rw (remaining_ms-left start timeout_ms turn small time, response) refl

Ends : Outcome Answer → Type 0
Ends o = (answer : Answer) × (o ≡ done answer) × (answer ≢ waiting)

keep-Ends :
    (judged : Bool) (rest : Outcome Answer) (answer : Answer)
    → Ends rest
    → answer ≢ waiting
    → Ends (keep (done judged) rest answer)
unfolding Ends
keep-Ends true rest answer r ended = (answer, refl, ended)
keep-Ends false rest answer r ended = r

met-Ends :
    (id : Bytes) (s : Selected) (rest : Outcome Answer)
    → 12 ≤ length id
    → Ends rest
    → Ends (met id s rest)
unfolding met Ends
met-Ends id nothing rest h r = (timed_out, refl, λ e. cc)
met-Ends id (select_failed eintr) rest h r = r
met-Ends id (select_failed eagain) rest h r = (broken, refl, λ e. cc)
met-Ends id (select_failed other) rest h r = (broken, refl, λ e. cc)
met-Ends id (readable (recv_failed eintr)) rest h r = r
met-Ends id (readable (recv_failed eagain)) rest h r = r
met-Ends id (readable (recv_failed other)) rest h r = (broken, refl, λ e. cc)
met-Ends id (readable (packet from bytes)) rest h r =
    let (judged, e) = is_response-total (take buf_size bytes) id h in
    rw e (keep-Ends judged rest (received from (take buf_size bytes)) r (λ e. cc))

first_response-Ends :
    (id : Bytes) (start timeout_ms : ℕ) (early : List Turn) (turn : Turn) (late : List Turn)
    → 12 ≤ length id
    → start + timeout_ms * 1000 ≤ turn.now
    → Ends (first_response id start timeout_ms (early ++ (turn ∷ late)))
unfolding first_response Ends
first_response-Ends id start timeout_ms [] turn late h over =
    rw (remaining_ms-over start timeout_ms turn.now over) (timed_out, refl, λ e. cc)
first_response-Ends id start timeout_ms (t ∷ early) turn late h over =
    elim (Bool-cases (remaining_ms start timeout_ms t.now == 0)) [
      | inl end ↦ rw end (timed_out, refl, λ e. cc)
      | inr left ↦ rw left (
          met-Ends id t.selected (first_response id start timeout_ms (early ++ (turn ∷ late))) h
            (first_response-Ends id start timeout_ms early turn late h over))
    ]

-- Every wait ends: when one of the turns comes at or after the deadline, the wait returns a packet, an
-- error or a timeout, whatever the other turns bring, and reads no byte that it was not given.
pub wait_for_matching_response-ends :
    (id : Bytes) (start timeout_ms : ℕ) (early : List Turn) (turn : Turn) (late : List Turn)
    → 12 ≤ length id
    → start + timeout_ms * 1000 ≤ turn.now
    → let turns = early ++ (turn ∷ late) in
      (answer : Answer) × (wait_for_matching_response (suc (length turns)) id start timeout_ms turns
        ≡ done answer)
      × (answer ≢ waiting)
unfolding Ends
wait_for_matching_response-ends id start timeout_ms early turn late h over =
    let turns = early ++ (turn ∷ late) in
    let (answer, e, ended) = first_response-Ends id start timeout_ms early turn late h over in
    (
      answer,
      wait_for_matching_response-first_response (suc (length turns)) id start timeout_ms turns
            (omega arith)
          ∙ e,
      ended,
    )
