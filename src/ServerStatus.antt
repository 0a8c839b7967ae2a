-- ===== src/ServerStatus.antt =====
-- source/server_status.c: the server's status message, read from a JSON text that curl fetched. A text is
-- its bytes before the terminator; a buffer is all its bytes. What the program shows is left out.
use rr_launcher.Prelude.{
  ℕ, zero, suc, ◌+◌, ◌≤◌, Bool, true, false, ◌&&◌, ◌||◌, not, if◌then◌else◌, ltb, leb, ◌==◌, Option,
  none, some, List, [], ◌∷◌, ◌++◌, length, take, replicate, Bytes, codes, bytes_eq,
}
use rr_launcher.Result.{Outcome, done, error, fatal, fault, ◌>>=◌}
use rr_launcher.Console.{store, ascii_safe}
mod Positive
pub mod Reading
pub mod Quoting
mod Parsing
pub mod Fetch
pub mod Cache
mod Tests

-- What follows the first occurrence of a text: `strstr` and `strlen`.
abbrev pub after_prefix : Bytes → Bytes → Option Bytes
after_prefix [] text = some text
after_prefix (a ∷ prefix) [] = none
after_prefix (a ∷ prefix) (b ∷ text) = if a == b then after_prefix prefix text else none

abbrev or_later : Option Bytes → Option Bytes → Option Bytes
or_later (some rest) later = some rest
or_later none later = later

abbrev pub after_first : Bytes → Bytes → Option Bytes
after_first pattern [] = after_prefix pattern []
after_first pattern (c ∷ text) =
    or_later (after_prefix pattern (c ∷ text)) (after_first pattern text)

abbrev pub is_blank : ℕ → Bool
is_blank c = c == 32 || c == 9 || c == 13 || c == 10

abbrev pub skip_blanks : Bytes → Bytes
skip_blanks [] = []
skip_blanks (c ∷ text) = let rest = skip_blanks text in if is_blank c then rest else c ∷ text

-- What follows `c`, if it comes next.
abbrev pub expect_byte : ℕ → Bytes → Option Bytes
expect_byte c [] = none
expect_byte c (b ∷ text) = if b == c then some text else none

abbrev pub bind {ℓ κ} : {A : Type ℓ} {B : Type κ} → Option A → (A → Option B) → Option B
bind (some a) k = k a
bind none k = none

-- `rr_server_status_find_string`
unfoldable pub find_string : Bytes → Bytes → Option Bytes
find_string json key =
    bind (after_first (take 63 (34 ∷ (key ++ (34 ∷ [])))) json)
      (λ p. bind (expect_byte 58 (skip_blanks p)) (λ p. expect_byte 34 (skip_blanks p)))

-- The character that an escape stands for.
unfoldable pub unescaped : ℕ → ℕ
unescaped c = if c == 110 then 10 else if c == 114 then 13 else if c == 116 then 9 else c

-- The end of `rr_server_status_read_string` at the closing quote.
abbrev pub close : Bytes → ℕ → ℕ → Outcome (Bool × Bytes)
close out out_len out_size =
    store out out_len 0 >>= λ out. ascii_safe out 0 0 out_size >>= λ out. done (true, out)

abbrev Rest : Type 0
Rest = Bytes → ℕ → Outcome (Bool × Bytes)

-- A character that is copied, given the loop after it.
abbrev pub copied : ℕ → Bytes → ℕ → ℕ → Rest → Outcome (Bool × Bytes)
copied c out out_len out_size rest =
    if leb out_size (out_len + 1)
    then done (false, out)
    else (store out out_len c >>= λ out. rest out (out_len + 1))

-- An escape, which is dropped where there is no room.
abbrev pub escaped : ℕ → Bytes → ℕ → ℕ → Rest → Outcome (Bool × Bytes)
escaped c out out_len out_size rest =
    if ltb (out_len + 1) out_size
    then (store out out_len (unescaped c) >>= λ out. rest out (out_len + 1))
    else rest out out_len

-- The loop of `rr_server_status_read_string` from a character on.
unfoldable pub read_loop : Bytes → Bytes → ℕ → ℕ → Outcome (Bool × Bytes)
read_loop [] out out_len out_size = done (false, out)
read_loop (c ∷ []) out out_len out_size =
    if c == 34
    then close out out_len out_size
    else copied c out out_len out_size (λ out out_len. done (false, out))
read_loop (c ∷ d ∷ text) out out_len out_size =
    if c == 34
    then close out out_len out_size
    else if c == 92
    then escaped d out out_len out_size (λ out out_len. read_loop text out out_len out_size)
    else copied c out out_len out_size (λ out out_len. read_loop (d ∷ text) out out_len out_size)

abbrev read_from : Option Bytes → Bytes → ℕ → Outcome (Bool × Bytes)
read_from none out out_size = done (false, out)
read_from (some text) out out_size =
    if out_size == 0 then done (false, out) else read_loop text out 0 out_size

-- `rr_server_status_read_string`
unfoldable pub read_string : Bytes → Bytes → Bytes → ℕ → Outcome (Bool × Bytes)
read_string json key out out_size = read_from (find_string json key) out out_size

pub data Variant : Type 0 where
  no_status warning failure success : Variant
  info party question unknown : Variant

-- `rr_server_status_parse_variant`
unfoldable pub parse_variant : Bytes → Variant
parse_variant text =
    if bytes_eq text (codes "none")
    then no_status
    else if bytes_eq text (codes "warning")
    then warning
    else if bytes_eq text (codes "error")
    then failure
    else if bytes_eq text (codes "success")
    then success
    else if bytes_eq text (codes "info")
    then info
    else if bytes_eq text (codes "party")
    then party
    else if bytes_eq text (codes "question")
    then question
    else unknown

abbrev pub is_unknown : Variant → Bool
is_unknown unknown = true
is_unknown v = false

-- `struct rr_server_status_result`
pub record Status : Type 0 where
  pub variant : Variant
  pub message : Bytes

-- The text in a buffer.
abbrev pub text_of : Bytes → Bytes
text_of [] = []
text_of (c ∷ buf) = let rest = text_of buf in if c == 0 then [] else c ∷ rest

abbrev pub message_size : ℕ
message_size = 256

abbrev pub variant_size : ℕ
variant_size = 32

-- The end of `rr_server_status_parse`, with the message.
abbrev pub with_message : Bytes → Bool × Bytes → Bool × Status
with_message variant (false, message) = (false, record { variant = unknown; message = message })
with_message variant (true, message) =
    let v = parse_variant (text_of variant) in
    (not (is_unknown v), record { variant = v; message = message })

abbrev pub with_variant : Bytes → Bool × Bytes → Outcome (Bool × Status)
with_variant json (false, variant) =
    done (false, record { variant = unknown; message = replicate message_size 0 })
with_variant json (true, variant) =
    read_string json (codes "message") (replicate message_size 0) message_size >>= λ r.
    done (with_message variant r)

-- `rr_server_status_parse`; `junk` is what `variant` holds before.
unfoldable pub parse : Bytes → Bytes → Outcome (Bool × Status)
parse json junk = read_string json (codes "variant") junk variant_size >>= λ r. with_variant json r
