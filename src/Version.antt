-- ===== src/Version.antt =====
-- source/versionutils.c, and the text of a version in source/update/update.c.
pub mod Order
pub mod Decimal
pub mod RoundTrip
pub mod File
mod Tests
use rr_launcher.Prelude.{
  ℕ, zero, suc, ◌+◌, ◌-◌, ◌*◌, ◌/◌, ◌%◌, Bool, true, false, ◌&&◌, ◌||◌, List, [], ◌∷◌, ◌++◌, String,
  length, ltb, leb, ◌==◌, if◌then◌else◌, Bytes, min,
}
use rr_launcher.Prelude.Int.{ℤ, pos, negsuc, sub_ℕ, ltb_ℤ}
use rr_launcher.Result.{Outcome, done, error, ErrorSource, ◌>>=◌, ◌>>◌, assert}

-- `struct rrc_version`
pub record Version : Type 0 where
  pub major : ℤ
  pub minor : ℤ
  pub patch : ℤ

-- `==` on two `int`s.
eq_ℤ : ℤ → ℤ → Bool
eq_ℤ (pos m) (pos n) = m == n
eq_ℤ (negsuc m) (negsuc n) = m == n
eq_ℤ (pos m) (negsuc n) = false
eq_ℤ (negsuc m) (pos n) = false

-- `rrc_version_is_older`
pub is_older : Version → Version → Bool
is_older a b =
    if ltb_ℤ a.major b.major
    then true
    else if ltb_ℤ b.major a.major
    then false
    else if ltb_ℤ a.minor b.minor
    then true
    else if ltb_ℤ b.minor a.minor
    then false
    else if ltb_ℤ a.patch b.patch
    then true
    else false

-- `rrc_version_equals`
pub equals : Version → Version → Bool
unfolding eq_ℤ
equals a b = (eq_ℤ a.major b.major && eq_ℤ a.minor b.minor) && eq_ℤ a.patch b.patch

-- `isspace` and `isdigit`, in the C locale.
pub is_space : ℕ → Bool
is_space c = (c == b' ') || (leb 9 c && leb c 13)

pub is_digit : ℕ → Bool
is_digit c = leb b'0' c && leb c b'9'

pub skip_spaces : Bytes → Bytes
unfolding is_space
skip_spaces [] = []
skip_spaces (c ∷ s) = let rest = skip_spaces s in if is_space c then rest else c ∷ s

-- The number that the digits at the front make, behind those of `acc`.
pub digits_value : ℕ → Bytes → ℕ
unfolding is_digit
digits_value acc [] = acc
digits_value acc (c ∷ s) =
    let more = digits_value (acc * 10 + (c - b'0')) s in if is_digit c then more else acc

pub strtol_signed : Bytes → ℤ
unfolding digits_value
strtol_signed [] = pos 0
strtol_signed (c ∷ s) =
    if c == b'-'
    then sub_ℕ 0 (min (digits_value 0 s) 0x80000000)
    else if c == b'+'
    then pos (min (digits_value 0 s) 0x7FFFFFFF)
    else pos (min (digits_value 0 (c ∷ s)) 0x7FFFFFFF)

-- `strtol(section, NULL, 10)`, whose `long` has 32 bits.
pub strtol : Bytes → ℤ
unfolding skip_spaces strtol_signed
strtol section = strtol_signed (skip_spaces section)

-- `parts[current] = section_l;`, with the parts in the fields that they end up in.
pub set_part : ℕ → ℤ → Version → Version
set_part zero n v = record v { major = n }
set_part (suc zero) n v = record v { minor = n }
set_part (suc (suc current)) n v = record v { patch = n }

pub is_empty : Bytes → Bool
is_empty [] = true
is_empty (c ∷ s) = false

-- The loop of `rrc_version_from_string`, over the rest of the string. `section` is what was read
-- since `started_at`.
pub from_string_loop : Version → ℕ → Bytes → Bytes → Outcome Version
unfolding strtol set_part is_empty
from_string_loop parts current section [] =
    if is_empty section
    then error ErrorSource.corrupted_versionfile "Invalid format"
    else done (set_part current (strtol section) parts)
from_string_loop parts current section (c ∷ rest) =
    let parts' = set_part current (strtol section) parts in
    let next = from_string_loop parts' (current + 1) [] rest in
    let more = from_string_loop parts current (section ++ c ∷ []) rest in
    if c == b'.'
    then (if is_empty section
        then error ErrorSource.corrupted_versionfile "Invalid format"
        else if ltb 2 (current + 1)
        then done parts'
        else next)
    else more

-- `rrc_version_from_string`
unfoldable pub from_string : Bytes → Outcome Version
unfolding from_string_loop
from_string version_str =
    from_string_loop (record { major = pos 0; minor = pos 0; patch = pos 0 }) 0 [] version_str

-- The digits of a number; an `int` has at most `fuel` of them, 10.
pub decimal : ℕ → ℕ → Bytes
decimal zero n = []
decimal (suc fuel) n =
    let before = decimal fuel (n / 10) in
    if ltb n 10 then (n + b'0') ∷ [] else before ++ (n % 10 + b'0') ∷ []

-- `%d`
pub print_int : ℤ → Bytes
unfolding decimal
print_int (pos n) = decimal 10 n
print_int (negsuc n) = b'-' ∷ decimal 10 (suc n)

-- What `rrc_update_set_current_version` writes to the version file.
pub print_version : Version → Outcome Bytes
unfolding print_int
print_version version = do
  let out =
      print_int version.major ++ b'.' ∷ (print_int version.minor ++ b'.' ∷ print_int version.patch)
  assert (ltb (length out) 32) "version string too long"
  done out
