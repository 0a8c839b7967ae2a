-- ===== src/UpnpErrors/Tests.antt =====
-- The braces that source/upnp_error_codes.c finds in an object at hand.
use rr_launcher.Prelude.{◌+◌, Bytes, arith, ◌≡◌, refl, some, ◌∷◌, ◌++◌, length, codes}
use rr_launcher.Prelude.Int.{pos}
use rr_launcher.Result.{done}
use rr_launcher.ServerStatus.Quoting.{all_ascii-IsAscii}
use rr_launcher.UpnpErrors.Strings.{NoQuote-tested}
use rr_launcher.UpnpErrors.Registry.{Tells, error_lookup-entry}
use rr_launcher.UpnpErrors.Entry.{entry}
use rr_launcher.UpnpErrors.{ErrorInfo, error_lookup, object_end_from, find_object_end}
use rr_launcher.UpnpErrors.Nesting.{
  Inner, end, string, object, plain, text_of_inner, find_object_end-closes,
}

-- `"}\\"": {"a": 1}`
abbrev inner : Inner
inner = string (codes "}\\\"") (plain 58 refl (object (string (codes "a") (plain 49 refl end)) end))

find_object_end-closes_example :
    find_object_end (123 ∷ (text_of_inner inner ++ (125 ∷ codes "}")))
    ≡ some (1 + length (text_of_inner inner))
find_object_end-closes_example = find_object_end-closes inner (codes "}")

read_at_once : find_object_end (codes "{\"a}\": {}}}") ≡ some 9
unfolding find_object_end object_end_from
read_at_once = refl

abbrev name : Bytes
name = codes "ConflictInMappingEntry"

abbrev description : Bytes
description = codes "The port is\ntaken {by another host}."

error_lookup-entry_example :
    (info : ErrorInfo) × (error_lookup
        (codes "{" ++ entry 717 name description (codes "Ask \\ it.") (codes "}"))
        (pos 718)
      ≡ done (some info))
    × Tells 717 name description (codes "Ask \\ it.") info
error_lookup-entry_example =
    error_lookup-entry 717 (codes "{") name description (codes "Ask \\ it.") (codes "}")
      (NoQuote-tested (codes "{") refl)
      (omega arith, all_ascii-IsAscii name refl, NoQuote-tested name refl)
      (omega arith, all_ascii-IsAscii description refl, NoQuote-tested description refl)
      (
        omega arith,
        all_ascii-IsAscii (codes "Ask \\ it.") refl,
        NoQuote-tested (codes "Ask \\ it.") refl,
      )
