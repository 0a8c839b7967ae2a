-- ===== src/Version/File.antt =====
-- The version file of source/update/update.c.
use rr_launcher.Prelude.{
  ℕ, suc, ◌<◌, ◌≤◌, ◌≡◌, refl, ap, ◌∙◌, subst, Bool, true, false, not, Option, none, some, [], ◌∷◌,
  ◌++◌, length, leb, ltb, ◌==◌, if◌then◌else◌, Bytes, All, arith, Bool-cases, inl, inr, String,
  take, length-append,
}
use rr_launcher.Prelude.Int.{ℤ, pos, negsuc}
use rr_launcher.Result.{Outcome, done, error, fatal, fault, ErrorSource, ◌>>=◌, ◌>>◌, done-inj}
use rr_launcher.Version.{Version, from_string, print_version, print_int, decimal, is_digit}
use rr_launcher.Version.Decimal.{AllDigits, decimal-AllDigits}
use rr_launcher.Version.RoundTrip.{IsVersion, from_string-print_version}

-- The version file, if it is there, and what the calls of the C library on it give.
pub record VersionFile : Type 0 where
  pub content : Option Bytes
  pub opens : Bool
  pub stats : Bool
  pub closes : Bool

attempt : Bool → String → Outcome (Unit {0})
attempt true context = done tt
attempt false context = error ErrorSource.errno context

opened : VersionFile → Outcome Bytes
opened file = elim file.content [
  | some content ↦
      if file.opens
      then done content
      else error ErrorSource.errno "Failed to open version file for reading"
  | none ↦ error ErrorSource.errno "Failed to open version file for reading"
]

-- The bytes before the first terminator.
before_terminator : Bytes → Bytes
before_terminator [] = []
before_terminator (c ∷ s) = let rest = before_terminator s in if c == 0 then [] else c ∷ rest

-- `rrc_update_get_current_version`
pub get_current_version : VersionFile → Outcome Version
unfolding attempt opened before_terminator
get_current_version file = do
  content ← opened file
  attempt file.stats "Failed to stat version file to get its file size"
  attempt (ltb 0 (length content)) "Failed to read version string from file"
  attempt file.closes "Failed to close version file"
  from_string (before_terminator content)

-- What follows the `snprintf`: the writing of `out`.
write_out : (Bytes → ℕ) → VersionFile → Outcome Bytes → Outcome (Unit {0}) × VersionFile
unfolding attempt
write_out accepts file (done out) =
    if not file.opens
    then (error ErrorSource.errno "Failed to open version file for writing", file)
    else if leb (length out) (accepts out)
    then (attempt file.closes "Failed to close version file", record file { content = some out })
    else (
      error ErrorSource.errno "Failed to write version string",
      record file { content = some (take (accepts out) out) },
    )
write_out accepts file (error source context) = (error source context, file)
write_out accepts file (fatal message) = (fatal message, file)
write_out accepts file fault = (fault, file)

-- `rrc_update_set_current_version`: what it returns and the file after it. `accepts` says how many
-- bytes the card takes.
pub set_current_version : (Bytes → ℕ) → Version → VersionFile → Outcome (Unit {0}) × VersionFile
unfolding write_out
set_current_version accepts version file = write_out accepts file (print_version version)

IsFilled : Bytes → Type 0
IsFilled = All (λ c. (c == 0) ≡ false)

before_terminator-IsFilled : (s : Bytes) → IsFilled s → before_terminator s ≡ s
unfolding before_terminator IsFilled
before_terminator-IsFilled [] p = refl
before_terminator-IsFilled (c ∷ s) p = rw (p.0, before_terminator-IsFilled s p.1)

append-IsFilled : (a b : Bytes) → IsFilled a → IsFilled b → IsFilled (a ++ b)
unfolding IsFilled
append-IsFilled [] b p q = q
append-IsFilled (c ∷ a) b p q = (p.0, append-IsFilled a b p.1 q)

AllDigits-IsFilled : (s : Bytes) → AllDigits s → IsFilled s
unfolding is_digit IsFilled
AllDigits-IsFilled [] p = tt
AllDigits-IsFilled (c ∷ s) p = (ground (arith, p.0), AllDigits-IsFilled s p.1)

print_int-IsFilled : (v : ℤ) → IsFilled (print_int v)
unfolding print_int IsFilled
print_int-IsFilled (pos n) = AllDigits-IsFilled (decimal 10 n) (decimal-AllDigits 10 n)
print_int-IsFilled (negsuc n) =
    (refl, AllDigits-IsFilled (decimal 10 (suc n)) (decimal-AllDigits 10 (suc n)))

dot-IsFilled : (s : Bytes) → IsFilled s → IsFilled (b'.' ∷ s)
unfolding IsFilled
dot-IsFilled s p = (refl, p)

-- A printed version is a text of its own.
print_version-IsFilled :
    (v : Version) (out : Bytes) → print_version v ≡ done out → IsFilled out × (0 < length out)
unfolding print_version
print_version-IsFilled v out e =
    let rest = b'.' ∷ (print_int v.minor ++ b'.' ∷ print_int v.patch) in
    let text = print_int v.major ++ rest in
    let filled : IsFilled text =
      append-IsFilled (print_int v.major) rest (print_int-IsFilled v.major) (
        dot-IsFilled (print_int v.minor ++ b'.' ∷ print_int v.patch) (
          append-IsFilled (print_int v.minor) (b'.' ∷ print_int v.patch)
            (print_int-IsFilled v.minor)
            (dot-IsFilled (print_int v.patch) (print_int-IsFilled v.patch)))) in
    let long : 0 < length text = omega (arith, length-append {0} (print_int v.major) rest) in
    elim (Bool-cases (ltb (length text) 32)) [
      | inl fits ↦
          subst (λ (t : Bytes). IsFilled t × (0 < length t)) (done-inj (rw fits at e))
            (filled, long)
      | inr over ↦ absurd (cc (rw over at e))
    ]

set_current_version-done :
    (accepts : Bytes → ℕ) (v : Version) (out : Bytes) (file : VersionFile)
    → print_version v ≡ done out
    → length out ≤ accepts out
    → file.opens ≡ true
    → file.closes ≡ true
    → set_current_version accepts v file ≡ (done tt, record file { content = some out })
unfolding set_current_version write_out
set_current_version-done accepts v out file e room opens closes =
    let fits : leb (length out) (accepts out) ≡ true = ground arith in
    ap (write_out accepts file) e ∙ rw (opens, fits, closes)

get_current_version-text :
    (v : Version) (out : Bytes) (file : VersionFile)
    → IsVersion v
    → print_version v ≡ done out
    → file.content ≡ some out
    → file.opens ≡ true
    → file.stats ≡ true
    → file.closes ≡ true
    → get_current_version file ≡ done v
unfolding get_current_version opened attempt
get_current_version-text v out file ok e there opens stats closes =
    let (filled, long) = print_version-IsFilled v out e in
    let some_bytes : ltb 0 (length out) ≡ true = ground arith in
    rw (there, opens, stats, some_bytes, closes, before_terminator-IsFilled out filled)
      (from_string-print_version v out ok e)

-- On a card that takes it, setting a version that prints in fewer than 32 characters succeeds, and the
-- version that is then read from the file is the one that was set, whatever was there before.
pub get_current_version-set_current_version :
    (accepts : Bytes → ℕ) (v : Version) (out : Bytes) (file : VersionFile)
    → IsVersion v
    → print_version v ≡ done out
    → length out ≤ accepts out
    → file.opens ≡ true
    → file.stats ≡ true
    → file.closes ≡ true
    → ((set_current_version accepts v file).0 ≡ done tt)
      × (get_current_version (set_current_version accepts v file).1 ≡ done v)
get_current_version-set_current_version accepts v out file ok e room opens stats closes =
    let stored = set_current_version-done accepts v out file e room opens closes in
    (
      ap (λ (r : Outcome (Unit {0}) × VersionFile). r.0) stored,
      ap (λ (r : Outcome (Unit {0}) × VersionFile). get_current_version r.1) stored
          ∙ get_current_version-text v out (record file { content = some out }) ok e refl opens
              stats closes,
    )
