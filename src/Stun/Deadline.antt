-- ===== src/Stun/Deadline.antt =====
-- The time that source/stun.c has left, against the deadline.
use rr_launcher.Prelude.{
  ℕ, ◌+◌, ◌-◌, ◌*◌, ◌≤◌, ◌<◌, ◌≡◌, ◌^◌, refl, true, false, leb, ◌==◌, Bool-cases, inl, inr, arith,
}
use rr_launcher.Stun.{Turn, remaining_ms}

pub remaining_ms-in_time :
    (start timeout_ms now : ℕ)
    → (remaining_ms start timeout_ms now == 0) ≡ false
    → now < start + timeout_ms * 1000
unfolding remaining_ms
remaining_ms-in_time start timeout_ms now h =
    elim (Bool-cases (leb (timeout_ms * 1000 + (start - now)) (now - start))) [
      | inl over ↦ absurd (cc (rw over at h))
      | inr left ↦ ground arith
    ]

pub remaining_ms-timeout :
    (start timeout_ms now : ℕ)
    → (remaining_ms start timeout_ms now == 0) ≡ false
    → now + remaining_ms start timeout_ms now * 1000 < start + timeout_ms * 1000 + 1000
unfolding remaining_ms
remaining_ms-timeout start timeout_ms now h =
    elim (Bool-cases (leb (timeout_ms * 1000 + (start - now)) (now - start))) [
      | inl over ↦ absurd (cc (rw over at h))
      | inr left ↦ rw left (ground arith)
    ]

pub remaining_ms-over :
    (start timeout_ms now : ℕ)
    → start + timeout_ms * 1000 ≤ now
    → (remaining_ms start timeout_ms now == 0) ≡ true
unfolding remaining_ms
remaining_ms-over start timeout_ms now h =
    let over : leb (timeout_ms * 1000 + (start - now)) (now - start) ≡ true = ground arith in
    rw over refl

-- While the clock is not set back and the deadline not reached.
abbrev pub InTime : ℕ → ℕ → Turn → Type 0
InTime start timeout_ms turn = (start ≤ turn.now) × (turn.now < start + timeout_ms * 1000)

pub remaining_ms-left :
    (start timeout_ms : ℕ) (turn : Turn)
    → timeout_ms < 2 ^ 32
    → InTime start timeout_ms turn
    → (remaining_ms start timeout_ms turn.now == 0) ≡ false
unfolding remaining_ms
remaining_ms-left start timeout_ms turn small (after, before) =
    let left : leb (timeout_ms * 1000 + (start - turn.now)) (turn.now - start) ≡ false =
      ground arith in
    rw left (ground arith)
