-- ===== src/ServerStatus/Parsing.antt =====
-- A status as a server prints it is parsed back by source/server_status.c.
use rr_launcher.Prelude.{
  ℕ, ◌<◌, ◌≡◌, refl, sym, ap, ◌∙◌, true, not, some, [], ◌∷◌, ◌++◌, length, length-replicate,
  replicate, Bytes, codes, All, arith,
}
use rr_launcher.Result.{done}
use rr_launcher.Console.InPlace.{IsAscii}
use rr_launcher.ServerStatus.Quoting.{
  all_ascii, all_ascii-IsAscii, text_of-ascii, quoted, read_loop-quoted,
}
use rr_launcher.ServerStatus.{
  find_string, read_loop, read_string, Variant, no_status, warning, failure, success, info, party,
  question, unknown, parse_variant, is_unknown, Status, text_of, message_size, variant_size, parse,
}

-- `rr_server_status_variant_name`, in the lower case of the JSON.
unfoldable pub name_of : Variant → Bytes
name_of no_status = codes "none"
name_of warning = codes "warning"
name_of failure = codes "error"
name_of success = codes "success"
name_of info = codes "info"
name_of party = codes "party"
name_of question = codes "question"
name_of unknown = codes "unknown"

-- `{"variant": "...", "message": "..."}`
unfoldable pub printed : Variant → Bytes → Bytes
printed v message =
    codes "{\"variant\": \""
    ++ (name_of v ++ (codes "\", \"message\": \"" ++ (quoted message ++ codes "\"}")))

-- What stands after the two keys.
find_variant :
    (v : Variant) (message : Bytes)
    → find_string (printed v message) (codes "variant")
      ≡ some (name_of v ++ (34 ∷ (codes ", \"message\": \"" ++ (quoted message ++ codes "\"}"))))
unfolding find_string printed
find_variant v message = refl

find_message :
    (v : Variant) (message : Bytes)
    → find_string (printed v message) (codes "message") ≡ some (quoted message ++ (34 ∷ codes "}"))
unfolding find_string printed name_of
find_message no_status message = refl
find_message warning message = refl
find_message failure message = refl
find_message success message = refl
find_message info message = refl
find_message party message = refl
find_message question message = refl
find_message unknown message = refl

name_of-quoted : (v : Variant) → quoted (name_of v) ≡ name_of v
unfolding quoted name_of
name_of-quoted no_status = refl
name_of-quoted warning = refl
name_of-quoted failure = refl
name_of-quoted success = refl
name_of-quoted info = refl
name_of-quoted party = refl
name_of-quoted question = refl
name_of-quoted unknown = refl

parse_variant-name_of : (v : Variant) → parse_variant (name_of v) ≡ v
unfolding parse_variant name_of
parse_variant-name_of no_status = refl
parse_variant-name_of warning = refl
parse_variant-name_of failure = refl
parse_variant-name_of success = refl
parse_variant-name_of info = refl
parse_variant-name_of party = refl
parse_variant-name_of question = refl
parse_variant-name_of unknown = refl

name_of-short : (v : Variant) → (all_ascii (name_of v) ≡ true) × (length (name_of v) < variant_size)
unfolding name_of
name_of-short no_status = (refl, omega arith)
name_of-short warning = (refl, omega arith)
name_of-short failure = (refl, omega arith)
name_of-short success = (refl, omega arith)
name_of-short info = (refl, omega arith)
name_of-short party = (refl, omega arith)
name_of-short question = (refl, omega arith)
name_of-short unknown = (refl, omega arith)

-- A printed status is parsed back, with any ASCII message that fits the buffer, quotes, backslashes and
-- line ends included; only the variant that none of the names stands for is refused.
pub parse-printed :
    (v : Variant) (message junk : Bytes)
    → length junk ≡ variant_size
    → length message < message_size
    → All IsAscii message
    → (status : Status) × (parse (printed v message) junk ≡ done (not (is_unknown v), status))
      × (status.variant ≡ v)
      × (text_of status.message ≡ message)
unfolding parse read_string
parse-printed v message junk fits room ok =
    let (small, short) = name_of-short v in
    let ascii = all_ascii-IsAscii (name_of v) small in
    let rest = codes ", \"message\": \"" ++ (quoted message ++ codes "\"}") in
    let (left, name_read) =
      read_loop-quoted variant_size (name_of v) rest [] junk (omega (arith, fits)) (omega arith)
        ascii tt in
    let (left2, message_read) =
      read_loop-quoted message_size message (codes "}") [] (replicate message_size 0)
        (omega (arith, length-replicate {A = ℕ} message_size 0))
        (omega (arith, length-replicate {A = ℕ} message_size 0)) ok tt in
    let named : parse_variant (text_of (name_of v ++ (0 ∷ left))) ≡ v =
      ap parse_variant (text_of-ascii (name_of v) left ascii) ∙ parse_variant-name_of v in
    let name_there =
      ap (λ (t : Bytes). read_loop (t ++ (34 ∷ rest)) junk 0 variant_size) (sym (name_of-quoted v))
      ∙ name_read in
    let status : Status = record {
      variant = parse_variant (text_of (name_of v ++ (0 ∷ left)));
      message = message ++ (0 ∷ left2);
    } in
    (
      status,
      rw (find_variant v message, name_there, find_message v message, message_read)
          (ap (λ (w : Variant). done (not (is_unknown w), status)) named),
      named,
      text_of-ascii message left2 ok,
    )
