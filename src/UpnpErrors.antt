-- ===== src/UpnpErrors.antt =====
-- source/upnp_error_codes.c: the registry of UPnP error codes, a JSON text that is built into the channel.
-- A text up to `end` is a list of its bytes, none of which is NUL. The depth is an `int`, which a text of less
-- than 2^31 bytes keeps in range.
use rr_launcher.Prelude.{
  ℕ, zero, suc, ◌+◌, Bool, true, false, ◌&&◌, ◌||◌, not, if◌then◌else◌, ltb, leb, ◌==◌, Option,
  none, some, List, [], ◌∷◌, ◌++◌, length, take, drop, replicate, Bytes, codes,
}
use rr_launcher.Prelude.Int.{ℤ, pos, negsuc}
use rr_launcher.Result.{Outcome, done, error, fatal, fault, ◌>>=◌}
use rr_launcher.Version.{print_int}
use rr_launcher.ServerStatus.{after_prefix, skip_blanks, expect_byte, unescaped, close, copied}
mod Nesting
mod Strings
mod Entry
mod Registry
mod Tests

-- What a key's occurrence says: it is no key, its value is no string, or its value starts.
abbrev after_key : Bytes → Option (Option Bytes)
after_key [] = none
after_key (c ∷ q) = if c == 58 then some (expect_byte 34 (skip_blanks q)) else none

abbrev pub key_at : Option Bytes → Option (Option Bytes)
key_at none = none
key_at (some q) = after_key (skip_blanks q)

abbrev pub first_of {ℓ} : {A : Type ℓ} → Option A → A → A
first_of none later = later
first_of (some a) later = a

-- The search for the key in `rr_json_read_string`: what follows the quote of its value.
unfoldable pub find_value : Bytes → Bytes → Option Bytes
find_value pattern [] = none
find_value pattern (c ∷ text) =
    first_of (key_at (after_prefix pattern (c ∷ text))) (find_value pattern text)

-- The loop that copies the value.
unfoldable pub value_loop : Bytes → Bytes → ℕ → ℕ → Outcome (Bool × Bytes)
value_loop [] out used out_size = done (false, out)
value_loop (c ∷ []) out used out_size =
    if c == 34
    then close out used out_size
    else copied c out used out_size (λ out used. done (false, out))
value_loop (c ∷ d ∷ text) out used out_size =
    if c == 34
    then close out used out_size
    else if c == 92
    then copied (unescaped d) out used out_size (λ out used. value_loop text out used out_size)
    else copied c out used out_size (λ out used. value_loop (d ∷ text) out used out_size)

abbrev value_from : Option Bytes → Bytes → ℕ → Outcome (Bool × Bytes)
value_from none out out_size = done (false, out)
value_from (some text) out out_size = value_loop text out 0 out_size

-- `rr_json_read_string`
unfoldable pub json_read_string : Bytes → Bytes → Bytes → ℕ → Outcome (Bool × Bytes)
json_read_string text key out out_size =
    if leb 96 (length key + 2) || out_size == 0
    then done (false, out)
    else value_from (find_value (34 ∷ (key ++ (34 ∷ []))) text) out out_size

-- `++depth` and `--depth`
abbrev pub up : ℤ → ℤ
up (pos n) = pos (suc n)
up (negsuc zero) = pos zero
up (negsuc (suc n)) = negsuc n

abbrev pub down : ℤ → ℤ
down (pos zero) = negsuc zero
down (pos (suc n)) = pos n
down (negsuc n) = negsuc (suc n)

abbrev pub is_closed : ℤ → Bool
is_closed (pos zero) = true
is_closed (pos (suc n)) = false
is_closed (negsuc n) = false

-- The loop of `rr_json_find_object_end`, at the i-th byte.
unfoldable pub object_end_from : ℤ → Bool → Bytes → ℕ → Option ℕ
object_end_from depth in_string [] i = none
object_end_from depth true (c ∷ []) i = none
object_end_from depth true (c ∷ d ∷ text) i =
    let escaped = object_end_from depth true text (i + 2) in
    let ended = object_end_from depth false (d ∷ text) (i + 1) in
    let onward = object_end_from depth true (d ∷ text) (i + 1) in
    if c == 92 then escaped else if c == 34 then ended else onward
object_end_from depth false (c ∷ text) i =
    let quoted = object_end_from depth true text (i + 1) in
    let deeper = object_end_from (up depth) false text (i + 1) in
    let higher = object_end_from (down depth) false text (i + 1) in
    let onward = object_end_from depth false text (i + 1) in
    if c == 34
    then quoted
    else if c == 123
    then deeper
    else if c == 125
    then (if is_closed (down depth) then some i else higher)
    else onward

-- `rr_json_find_object_end`: where the brace stands.
unfoldable pub find_object_end : Bytes → Option ℕ
find_object_end text = object_end_from (pos 0) false text 0

-- `rr_upnp_error_info_t`
pub record ErrorInfo : Type 0 where
  pub code : ℤ
  pub known : Bool
  pub name : Bytes
  pub description : Bytes
  pub solution : Bytes

-- The three strings of an object, each read if those before it were.
unfoldable pub read_info : ℤ → Bytes → Outcome (Option ErrorInfo)
read_info code object =
    json_read_string object (codes "name") (replicate 64 0) 64 >>= λ (named, name).
    json_read_string object (codes "description") (replicate 256 0) 256
    >>= λ (described, description).
        json_read_string object (codes "solution") (replicate 256 0) 256 >>= λ (solved, solution).
        done (
          if named && described && solved
          then some (record {
            code = code;
            known = true;
            name = name;
            description = description;
            solution = solution;
          })
          else none)

-- From the first opening brace on: `strchr`.
abbrev from_brace : Bytes → Bytes
from_brace [] = []
from_brace (c ∷ text) = let rest = from_brace text in if c == 123 then c ∷ text else rest

abbrev read_object : ℤ → Bytes → Option ℕ → Outcome (Option ErrorInfo)
read_object code object none = done none
read_object code object (some end) = read_info code (take end object)

abbrev object_after : ℤ → Bytes → Option (Outcome (Option ErrorInfo))
object_after code [] = none
object_after code (c ∷ after) =
    let object = from_brace (c ∷ after) in
    if c == 58 then some (read_object code object (find_object_end object)) else none

abbrev pub code_at : ℤ → Option Bytes → Option (Outcome (Option ErrorInfo))
code_at code none = none
code_at code (some after) = object_after code (skip_blanks after)

-- The loop of `rr_upnp_error_lookup` over the occurrences of the code.
unfoldable pub find_code : ℤ → Bytes → Bytes → Outcome (Option ErrorInfo)
find_code code code_key [] = done none
find_code code code_key (c ∷ json) =
    first_of (code_at code (after_prefix code_key (c ∷ json))) (find_code code code_key json)

-- `rr_upnp_error_lookup` in the registry: nothing where the code is not known.
unfoldable pub error_lookup : Bytes → ℤ → Outcome (Option ErrorInfo)
error_lookup json (negsuc n) = done none
error_lookup json (pos zero) = done none
error_lookup json (pos (suc n)) =
    find_code (pos (suc n)) (34 ∷ (print_int (pos (suc n)) ++ (34 ∷ []))) json
