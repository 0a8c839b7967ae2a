-- ===== src/ServerStatus/Tests.antt =====
-- source/server_status.c on responses at hand.
use rr_launcher.Prelude.{
  ◌≡◌, ◌⊎◌, refl, Bool, true, false, not, [], ◌∷◌, replicate, Bytes, codes, arith,
}
use rr_launcher.Result.{done}
use rr_launcher.Console.{ascii_safe, ascii_loop}
use rr_launcher.ServerStatus.{
  find_string, unescaped, read_loop, read_string, parse, text_of, Status, warning, is_unknown,
}
use rr_launcher.ServerStatus.Reading.{HoldsAscii, read_string-Reads}
use rr_launcher.ServerStatus.Parsing.{printed, parse-printed}
use rr_launcher.ServerStatus.Fetch.{Cached, Transfer, finished, fetch}
use rr_launcher.ServerStatus.Cache.{Leaves, fetch-Leaves}

abbrev junk : Bytes
junk = replicate 32 1

abbrev json : Bytes
json = codes "{\"variant\" : \"a\\n\\q\"}"

-- A buffer of three bytes: the second escape is dropped without an error.
dropped : read_string json (codes "variant") (1 ∷ 1 ∷ 1 ∷ []) 3 ≡ done (true, 97 ∷ 10 ∷ 0 ∷ [])
unfolding read_string find_string read_loop unescaped ascii_safe ascii_loop
dropped = refl

read_string-Reads_example :
    (ok : Bool) × (buf : Bytes) × (read_string (65 ∷ 66 ∷ []) (codes "variant") (1 ∷ []) 1
      ≡ done (ok, buf))
    × ((ok ≡ false) ⊎ HoldsAscii 1 buf)
read_string-Reads_example =
    read_string-Reads (65 ∷ 66 ∷ []) (codes "variant") (1 ∷ []) 1 (omega arith, (omega arith, tt))
      refl

parse-printed_example :
    (status : Status) × (parse (printed warning (34 ∷ 92 ∷ 10 ∷ [])) junk
      ≡ done (not (is_unknown warning), status))
    × (status.variant ≡ warning)
    × (text_of status.message ≡ 34 ∷ 92 ∷ 10 ∷ [])
parse-printed_example =
    parse-printed warning (34 ∷ 92 ∷ 10 ∷ []) junk refl (omega arith)
      ((omega arith, omega arith), ((omega arith, omega arith), ((omega arith, omega arith), tt)))

abbrev cached : Cached
cached = record { status = record { variant = warning; message = 0 ∷ [] }; valid = true }

abbrev answer : Transfer
answer = finished 200 (
    record { bytes = codes "{\"variant\": \"info\", "; allocated = true }
    ∷ record { bytes = codes "\"message\": \"hi\"}"; allocated = true }
    ∷ [])

fetch-Leaves_example :
    (r : Bool × Cached) × (fetch cached junk answer ≡ done r) × Leaves cached junk answer r
fetch-Leaves_example = fetch-Leaves cached junk answer refl
