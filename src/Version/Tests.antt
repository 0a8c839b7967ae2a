-- ===== src/Version/Tests.antt =====
-- Runs of the versions of source/versionutils.c and instances of their laws.
use rr_launcher.Prelude.{ℕ, ◌≡◌, ◌↔◌, refl, true, codes, Bytes, none, arith}
use rr_launcher.Prelude.Int.{pos}
use rr_launcher.Result.{done, error, ErrorSource}
use rr_launcher.Version.{Version, is_older, from_string, print_version}
use rr_launcher.Version.File.{
  VersionFile, get_current_version, set_current_version, get_current_version-set_current_version,
}
use rr_launcher.Version.Order.{IsBefore, is_older_iff}
use rr_launcher.Version.RoundTrip.{from_string-print_version}

abbrev version : ℕ → ℕ → ℕ → Version
version a b c = record { major = pos a; minor = pos b; patch = pos c }

is_older_iff_example :
    (is_older (version 6 2 3) (version 6 3 0) ≡ true) ↔ IsBefore (version 6 2 3) (version 6 3 0)
is_older_iff_example = is_older_iff (version 6 2 3) (version 6 3 0)

read_6_2_13 : from_string (codes "6.2.13") ≡ done (version 6 2 13)
unfolding from_string
read_6_2_13 = refl

empty_section :
    from_string (codes "6..1") ≡ error ErrorSource.corrupted_versionfile "Invalid format"
unfolding from_string
empty_section = refl

from_string-print_version_example : from_string (codes "6.2.13") ≡ done (version 6 2 13)
from_string-print_version_example =
    from_string-print_version (version 6 2 13) (codes "6.2.13")
      (record { major_int = omega arith; minor_int = omega arith; patch_int = omega arith })
      (unfold print_version in refl)

abbrev blank : VersionFile
blank = record { content = none; opens = true; stats = true; closes = true }

abbrev accepts : Bytes → ℕ
accepts out = 100

get_current_version-set_current_version_example :
    ((set_current_version accepts (version 6 2 13) blank).0 ≡ done tt)
    × (get_current_version (set_current_version accepts (version 6 2 13) blank).1
        ≡ done (version 6 2 13))
get_current_version-set_current_version_example =
    get_current_version-set_current_version accepts (version 6 2 13) (codes "6.2.13") blank
      (record { major_int = omega arith; minor_int = omega arith; patch_int = omega arith })
      (unfold print_version in refl) (omega arith) refl refl refl
