-- ===== src/ServerStatus/Fetch.antt =====
-- source/server_status.c: the fetch and the cached status. What curl does is a parameter: an event that
-- says how the transfer goes.
use rr_launcher.Prelude.{
  ℕ, Bool, true, false, ◌&&◌, ◌||◌, not, if◌then◌else◌, ltb, leb, Option, none, some, List, [], ◌∷◌,
  ◌++◌, Bytes,
}
use rr_launcher.Result.{Outcome, done, ◌>>=◌}
use rr_launcher.ServerStatus.{
  Status, Variant, no_status, warning, failure, success, info, party, question, unknown, text_of,
  parse,
}

-- `rr_server_status_cached` and `rr_server_status_cached_valid`
pub record Cached : Type 0 where
  pub status : Status
  pub valid : Bool

-- A piece of the response that curl hands over, and whether there is memory for it.
pub record Piece : Type 0 where
  pub bytes : Bytes
  pub allocated : Bool

-- No handle, a transfer that fails, or one that comes to an end with a response code.
pub data Transfer : Type 0 where
  no_handle : Transfer
  failed : List Piece → Transfer
  finished : ℕ → List Piece → Transfer

-- What the buffer holds.
abbrev pub held : Option Bytes → Bytes
held none = []
held (some data_) = data_

-- `rr_server_status_write_callback`: the buffer, or nothing where it returns 0.
unfoldable pub write_callback : Option Bytes → Piece → Option Bytes
write_callback buffer piece = if piece.allocated then some (held buffer ++ piece.bytes) else none

abbrev pub taken :
    (Option Bytes → Bool × Option Bytes) → Option Bytes → Option Bytes → Bool × Option Bytes
taken rest buffer none = (false, buffer)
taken rest buffer (some data_) = rest (some data_)

-- The buffer after a transfer; curl gives up at a callback that does not take all.
unfoldable pub received_by : Option Bytes → List Piece → Bool × Option Bytes
received_by buffer [] = (true, buffer)
received_by buffer (piece ∷ pieces) =
    taken (λ b. received_by b pieces) buffer (write_callback buffer piece)

abbrev pub invalid : Cached → Bool × Cached
invalid c = (false, record { status = c.status; valid = false })

abbrev pub after_parse : Cached → Bool × Status → Bool × Cached
after_parse c (true, status) = (true, record { status = status; valid = true })
after_parse c (false, status) = invalid c

-- The response is there: the checks of `rr_server_status_fetch_internal`.
abbrev pub after_transfer : Cached → Bytes → ℕ → Bool × Option Bytes → Outcome (Bool × Cached)
after_transfer c junk code (false, buffer) = done (invalid c)
after_transfer c junk code (true, none) = done (invalid c)
after_transfer c junk code (true, some buffer) =
    if ltb code 200 || leb 300 code
    then done (invalid c)
    else (parse (text_of buffer) junk >>= λ r. done (after_parse c r))

-- `rr_server_status_fetch_internal`, without what it displays.
unfoldable pub fetch : Cached → Bytes → Transfer → Outcome (Bool × Cached)
fetch c junk no_handle = done (invalid c)
fetch c junk (failed pieces) = done (invalid c)
fetch c junk (finished code pieces) = after_transfer c junk code (received_by none pieces)

-- `rr_server_status_is_cached`
unfoldable pub is_cached : Cached → Bool
is_cached c = c.valid

abbrev is_none : Variant → Bool
is_none no_status = true
is_none v = false

-- `rr_server_status_has_alert`
unfoldable pub has_alert : Cached → Bool
has_alert c = c.valid && not (is_none c.status.variant)

pub data Color : Type 0 where
  bright_green bright_yellow bright_red bright_cyan bright_magenta : Color

-- `rr_server_status_variant_color`
unfoldable pub variant_color : Variant → Color
variant_color warning = bright_yellow
variant_color failure = bright_red
variant_color info = bright_cyan
variant_color party = bright_magenta
variant_color question = bright_yellow
variant_color no_status = bright_green
variant_color success = bright_green
variant_color unknown = bright_green

-- `rr_server_status_alert_color`
unfoldable pub alert_color : Cached → Color
alert_color c = if c.valid then variant_color c.status.variant else bright_green

-- `rr_server_status_test`: whether there is a status to show.
unfoldable pub status_test : Cached → Bytes → Transfer → Outcome (Bool × Cached)
status_test c junk transfer = if c.valid then done (true, c) else fetch c junk transfer
