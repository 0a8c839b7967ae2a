-- ===== src/Stun.antt =====
-- source/stun.c: the wait for the answer to a request. The clock, `select` and `recvfrom` are the
-- system's: what they give in one turn of the receiving loop is an event, and a wait is over a list of
-- them. Times are microseconds, from any origin.
use Prim.Native.Nat.{bit_or}
use rr_launcher.Prelude.{
  ℕ, zero, suc, ◌+◌, ◌-◌, ◌*◌, ◌/◌, ◌^◌, Bool, true, false, ◌&&◌, not, if◌then◌else◌, ltb, leb,
  ◌==◌, List, [], ◌∷◌, length, take, drop, get_elem?, Bytes, bytes_eq, u16, u32,
}
use rr_launcher.Result.{Outcome, done, fault, ◌>>=◌, read, defined}
pub mod Message
pub mod Client
pub mod Waiting
pub mod Walk
pub mod Deadline
pub mod Answers
pub mod Encoding
pub mod Others
pub mod Mapping
mod Tests

-- An address and a port, of `struct sockaddr_in`.
pub record Endpoint : Type 0 where
  pub ip : ℕ
  pub port : ℕ

-- `errno` after a failed call.
pub data Errno : Type 0 where
  eintr eagain other : Errno

-- `recvfrom`: an error, or a packet and its sender.
pub data Received : Type 0 where
  recv_failed : Errno → Received
  packet : Endpoint → Bytes → Received

-- `select`: an error, nothing to read in the time given, or something to read.
pub data Selected : Type 0 where
  select_failed : Errno → Selected
  nothing : Selected
  readable : Received → Selected

-- One turn of the loop in `rr_stun_recv_until`: the time at its start, which is the only one that the code
-- reads in it, and what the socket does. When within the turn a packet arrives is not modelled.
pub record Turn : Type 0 where
  pub now : ℕ
  pub selected : Selected

-- The result of a wait: a packet, -1, -2, or no end to it within the turns.
pub data Answer : Type 0 where
  received : Endpoint → Bytes → Answer
  broken : Answer
  timed_out : Answer
  waiting : Answer

-- `rr_stun_remaining_ms`
unfoldable pub remaining_ms : ℕ → ℕ → ℕ → ℕ
remaining_ms start timeout_ms now =
    let elapsed_us = now - start in
    let set_back_us = start - now in
    if leb (timeout_ms * 1000 + set_back_us) elapsed_us
    then 0
    else u32 ((timeout_ms * 1000 + set_back_us - elapsed_us + 999) / 1000)

-- `uint8_t buf[1024]`
abbrev pub buf_size : ℕ
buf_size = 1024

-- What `rr_stun_recv_until` does with a failed `select`, given what the next turns come to.
abbrev pub after_select : Errno → Answer × List Turn → List Turn → Answer × List Turn
after_select eintr rest turns = rest
after_select eagain rest turns = (broken, turns)
after_select other rest turns = (broken, turns)

-- And with the result of `recvfrom`, which cuts a packet to the buffer.
abbrev pub after_recv : Received → Answer × List Turn → List Turn → Answer × List Turn
after_recv (recv_failed eintr) rest turns = rest
after_recv (recv_failed eagain) rest turns = rest
after_recv (recv_failed other) rest turns = (broken, turns)
after_recv (packet from bytes) rest turns = (received from (take buf_size bytes), turns)

abbrev pub after_turn : Selected → Answer × List Turn → List Turn → Answer × List Turn
after_turn (select_failed e) rest turns = after_select e rest turns
after_turn nothing rest turns = (timed_out, turns)
after_turn (readable r) rest turns = after_recv r rest turns

-- `rr_stun_recv_until`: the packet, and the turns that are left.
unfoldable pub recv_until : ℕ → ℕ → List Turn → Answer × List Turn
recv_until start timeout_ms [] = (waiting, [])
recv_until start timeout_ms (turn ∷ turns) =
    let rest = recv_until start timeout_ms turns in
    if remaining_ms start timeout_ms turn.now == 0
    then (timed_out, turns)
    else after_turn turn.selected rest turns

-- A byte of the buffer: one past the packet was never written.
abbrev pub byte : Bytes → ℕ → Outcome ℕ
byte buf i = read (get_elem? buf i)

-- `(uint16_t)((buf[i] << 8) | buf[i + 1])`
abbrev pub u16_at : Bytes → ℕ → Outcome ℕ
u16_at buf i =
    byte buf i >>= λ high. byte buf (i + 1) >>= λ low. done (u16 (bit_or (high * 2 ^ 8) low))

-- `memcmp(buf + i, text, n) == 0`
abbrev pub same_bytes : Bytes → ℕ → Bytes → ℕ → Outcome Bool
same_bytes buf i text n = defined (leb (i + n) (length buf) && leb n (length text)) >>= λ _.
    done (bytes_eq (take n (drop i buf)) (take n text))

-- The tests of `rr_stun_wait_for_matching_response`, in turn.
unfoldable pub is_response : Bytes → Bytes → Outcome Bool
is_response buf transaction_id =
    if ltb (length buf) 20
    then done false
    else (byte buf 0 >>= λ high. byte buf 1 >>= λ low.
        if not (high == 1 && low == 1)
        then done false
        else (u16_at buf 2 >>= λ msg_len.
            if ltb (length buf) (msg_len + 20)
            then done false
            else same_bytes buf 8 transaction_id 12))

-- What `rr_stun_wait_for_matching_response` does with a packet of which the tests say `o`, given what
-- the next packets come to.
abbrev pub keep : Outcome Bool → Outcome Answer → Answer → Outcome Answer
keep (done true) rest answer = done answer
keep (done false) rest answer = rest
keep o rest answer = fault

-- And with a result of `rr_stun_recv_until`, given the wait from what turns are left.
abbrev pub after_packet : Bytes → (List Turn → Outcome Answer) → Answer × List Turn → Outcome Answer
after_packet transaction_id rest (received from buf, left) =
    keep (is_response buf transaction_id) (rest left) (received from buf)
after_packet transaction_id rest (broken, left) = done broken
after_packet transaction_id rest (timed_out, left) = done timed_out
after_packet transaction_id rest (waiting, left) = done waiting

-- `rr_stun_wait_for_matching_response`, by at most `fuel` packets.
unfoldable pub wait_for_matching_response : ℕ → Bytes → ℕ → ℕ → List Turn → Outcome Answer
wait_for_matching_response zero transaction_id start timeout_ms turns = fault
wait_for_matching_response (suc fuel) transaction_id start timeout_ms turns =
    after_packet transaction_id (wait_for_matching_response fuel transaction_id start timeout_ms)
      (recv_until start timeout_ms turns)
