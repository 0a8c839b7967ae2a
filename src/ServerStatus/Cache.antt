-- ===== src/ServerStatus/Cache.antt =====
-- What a fetch of source/server_status.c leaves in the cache.
use mathlib.Core.List.{append_assoc, append-nil}
use mathlib.Core.Logic.{◌≢◌}
use rr_launcher.Prelude.{
  ap, sym, ◌∙◌, ℕ, Bool, true, false, ◌||◌, ltb, leb, Option, none, some, List, [], ◌∷◌, ◌++◌,
  Bytes, ◌≤◌, ◌<◌, ◌≡◌, ◌⊎◌, refl, inl, inr, Bool-cases, All, length, ◌==◌, arith,
}
use rr_launcher.Result.{done, ◌>>=◌}
use rr_launcher.ServerStatus.{Status, text_of, variant_size, parse}
use rr_launcher.ServerStatus.Reading.{parse-total}
use rr_launcher.ServerStatus.Fetch.{
  Cached, Piece, Transfer, no_handle, failed, finished, held, write_callback, received_by, invalid,
  after_parse, after_transfer, fetch, is_cached, has_alert, bright_green, alert_color,
}

-- The bytes of the pieces of a response, if there is memory for each and there is one at all.
abbrev pub gathered : List Piece → Bytes
gathered [] = []
gathered (piece ∷ pieces) = piece.bytes ++ gathered pieces

abbrev pub IsWhole : List Piece → Type 0
IsWhole pieces = All (λ p. p.allocated ≡ true) pieces × (pieces ≢ [])

-- A response is accepted: it came whole, its code is a success, and its text parses to the status.
abbrev pub Accepted : Bytes → Transfer → Status → Type 0
Accepted junk no_handle status = ⊥
Accepted junk (failed pieces) status = ⊥
Accepted junk (finished code pieces) status =
    IsWhole pieces
    × (200 ≤ code)
    × (code < 300)
    × (parse (text_of (gathered pieces)) junk ≡ done (true, status))

-- What a fetch leaves: the status of a response that is accepted, or, if there is none, the old status, no
-- longer valid.
abbrev pub Leaves : Cached → Bytes → Transfer → Bool × Cached → Type 0
Leaves c junk transfer (ok, after) =
    ((ok ≡ true) × (is_cached after ≡ true) × Accepted junk transfer after.status)
    ⊎ ((ok ≡ false)
        × ((status : Status) → ¬ Accepted junk transfer status)
        × (is_cached after ≡ false)
        × (after.status ≡ c.status)
        × (has_alert after ≡ false)
        × (alert_color after ≡ bright_green))

invalid-Leaves :
    (c : Cached) (junk : Bytes) (transfer : Transfer)
    → ((status : Status) → ¬ Accepted junk transfer status)
    → Leaves c junk transfer (invalid c)
unfolding is_cached has_alert alert_color
invalid-Leaves c junk transfer refused = inr (refl, refused, refl, refl, refl, refl)

abbrev Allocated : List Piece → Type 0
Allocated = All (λ p. p.allocated ≡ true)

received_by-some :
    (data_ : Bytes) (pieces : List Piece)
    → Allocated pieces
    → received_by (some data_) pieces ≡ (true, some (data_ ++ gathered pieces))
unfolding received_by write_callback
received_by-some data_ [] a = ap (λ (t : Bytes). (true, some t)) (sym (append-nil data_))
received_by-some data_ (piece ∷ pieces) (here, a) = rw here (
    received_by-some (data_ ++ piece.bytes) pieces a
    ∙ ap (λ (t : Bytes). (true, some t)) (append_assoc data_ piece.bytes (gathered pieces)))

received_by-whole :
    (piece : Piece) (pieces : List Piece)
    → Allocated (piece ∷ pieces)
    → received_by none (piece ∷ pieces) ≡ (true, some (gathered (piece ∷ pieces)))
unfolding received_by write_callback
received_by-whole piece pieces (here, a) = rw here (received_by-some piece.bytes pieces a)

-- Every piece has memory, and the response is there; or one has none, and the transfer fails.
received_by-cases :
    (buffer : Option Bytes) (pieces : List Piece)
    → Allocated pieces
      ⊎ ((¬ Allocated pieces) × (left : Option Bytes) × (received_by buffer pieces ≡ (false, left)))
unfolding received_by write_callback
received_by-cases buffer [] = inl tt
received_by-cases buffer (piece ∷ pieces) = elim (Bool-cases piece.allocated) [
  | inr none_left ↦ inr (λ (here, a). cc, buffer, rw none_left refl)
  | inl here ↦ elim (received_by-cases (some (held buffer ++ piece.bytes)) pieces) [
    | inl all ↦ inl (here, all)
    | inr (missing, left, e) ↦ inr (λ (h, a). missing a, left, rw here e)
  ]
]

text_of-positive : (buf : Bytes) → All (λ c. 0 < c) (text_of buf)
text_of-positive [] = tt
text_of-positive (c ∷ buf) = elim (Bool-cases (c == 0)) [
  | inl end ↦ rw end tt
  | inr more ↦ rw more (ground arith, text_of-positive buf)
]

after_parse-Leaves :
    (c : Cached) (junk : Bytes) (code : ℕ) (pieces : List Piece) (ok : Bool) (status : Status)
    → IsWhole pieces
    → (200 ≤ code) × (code < 300)
    → parse (text_of (gathered pieces)) junk ≡ done (ok, status)
    → Leaves c junk (finished code pieces) (after_parse c (ok, status))
unfolding is_cached
after_parse-Leaves c junk code pieces false status whole fine parsed =
    invalid-Leaves c junk (finished code pieces) (λ status (whole, low, high, accepted). cc)
after_parse-Leaves c junk code pieces true status whole (low, high) parsed =
    inl (refl, refl, (whole, low, high, parsed))

checked-Leaves :
    (c : Cached) (junk : Bytes) (code : ℕ) (pieces : List Piece)
    → length junk ≡ variant_size
    → IsWhole pieces
    → (r : Bool × Cached) × (after_transfer c junk code (true, some (gathered pieces)) ≡ done r)
      × Leaves c junk (finished code pieces) r
checked-Leaves c junk code pieces h whole = elim (Bool-cases (ltb code 200 || leb 300 code)) [
  | inl bad ↦ rw bad (
    invalid c,
    refl,
    invalid-Leaves c junk (finished code pieces)
        (λ status (whole, low, high, accepted). ground arith),
  )
  | inr fine ↦
      let text = text_of (gathered pieces) in
      let (ok, status, parsed) = parse-total text junk (text_of-positive (gathered pieces)) h in
      rw fine (
        after_parse c (ok, status),
        ap (λ o. o >>= λ r. done (after_parse c r)) parsed,
        after_parse-Leaves c junk code pieces ok status whole (ground arith, ground arith) parsed,
      )
]

finished-Leaves :
    (c : Cached) (junk : Bytes) (code : ℕ) (pieces : List Piece)
    → length junk ≡ variant_size
    → (r : Bool × Cached) × (after_transfer c junk code (received_by none pieces) ≡ done r)
      × Leaves c junk (finished code pieces) r
unfolding received_by write_callback
finished-Leaves c junk code [] h = (
  invalid c,
  refl,
  invalid-Leaves c junk (finished code [])
      (λ status ((all, some_piece), low, high, parsed). some_piece refl),
)
finished-Leaves c junk code (piece ∷ pieces) h = elim (received_by-cases none (piece ∷ pieces)) [
  | inr (missing, left, e) ↦ (
    invalid c,
    ap (after_transfer c junk code) e,
    invalid-Leaves c junk (finished code (piece ∷ pieces))
        (λ status ((all, some_piece), low, high, parsed). missing all),
  )
  | inl all ↦
      let (r, e, left) = checked-Leaves c junk code (piece ∷ pieces) h (all, λ e. cc) in
      (r, ap (after_transfer c junk code) (received_by-whole piece pieces all) ∙ e, left)
]

-- A fetch returns, whatever the server sends. It succeeds, with the status in the cache, just when the
-- response is accepted: each piece came and there is one, the code is from 200 to 299, and the text
-- parses to the status. Otherwise the cache is no longer valid, even if it was, its status is the old
-- one, and there is no alert.
pub fetch-Leaves :
    (c : Cached) (junk : Bytes) (transfer : Transfer)
    → length junk ≡ variant_size
    → (r : Bool × Cached) × (fetch c junk transfer ≡ done r) × Leaves c junk transfer r
unfolding fetch
fetch-Leaves c junk no_handle h = (invalid c, refl, invalid-Leaves c junk no_handle (λ status e. e))
fetch-Leaves c junk (failed pieces) h =
    (invalid c, refl, invalid-Leaves c junk (failed pieces) (λ status e. e))
fetch-Leaves c junk (finished code pieces) h = finished-Leaves c junk code pieces h
