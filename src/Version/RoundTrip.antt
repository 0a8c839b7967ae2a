-- ===== src/Version/RoundTrip.antt =====
-- Reading versions in source/versionutils.c, and what source/update/update.c writes.
use mathlib.Core.List.{append_assoc, append-nil}
use rr_launcher.Prelude.{
  ℕ, suc, ◌+◌, ◌≡◌, refl, sym, ap, ◌∙◌, false, [], ◌∷◌, ◌++◌, ltb, ◌==◌, if◌then◌else◌, Bytes, All,
  arith, Bool-cases, inl, inr, length,
}
use rr_launcher.Prelude.Int.{ℤ, pos, negsuc}
use rr_launcher.Result.{done, done-inj}
use rr_launcher.Version.{
  Version, is_digit, strtol, set_part, is_empty, from_string_loop, from_string, decimal, print_int,
  print_version,
}
use rr_launcher.Version.Decimal.{
  IsInt, strtol-print_int, AllDigits, decimal-AllDigits, decimal-first,
}

-- A text without a dot.
abbrev pub IsDotless : Bytes → Type 0
IsDotless = All (λ c. (c == b'.') ≡ false)

-- Reading characters that are no dots adds them to the section.
loop-dotless :
    (parts : Version) (current : ℕ) (section s rest : Bytes)
    → IsDotless s
    → from_string_loop parts current section (s ++ rest)
      ≡ from_string_loop parts current (section ++ s) rest
unfolding from_string_loop
loop-dotless parts current section [] rest p =
    ap (λ (t : Bytes). from_string_loop parts current t rest) (sym (append-nil section))
loop-dotless parts current section (c ∷ s) rest p = rw p.0 (
    loop-dotless parts current (section ++ c ∷ []) s rest p.1
    ∙ ap (λ (t : Bytes). from_string_loop parts current t rest) (append_assoc section (c ∷ []) s))

-- A section of a version: not empty, and without a dot.
pub record IsSection (s : Bytes) : Type 0 where
  pub dotless : IsDotless s
  pub filled : is_empty s ≡ false

-- A section ends at a dot; the third one is the last.
loop-section :
    (parts : Version) (current : ℕ) (s rest : Bytes)
    → IsSection s
    → from_string_loop parts current [] (s ++ b'.' ∷ rest) ≡ (
        if ltb 2 (current + 1)
        then done (set_part current (strtol s) parts)
        else from_string_loop (set_part current (strtol s) parts) (current + 1) [] rest)
loop-section parts current s rest p =
    loop-dotless parts current [] s (b'.' ∷ rest) p.dotless
    ∙ (unfold from_string_loop in rw p.filled)

-- The end of the third section: the string's, or a dot and anything behind it.
pub data IsTail : Bytes → Type 0 where
  string_end : IsTail []
  more : (rest : Bytes) → IsTail (b'.' ∷ rest)

third_section :
    (parts : Version) (s tail : Bytes)
    → IsSection s
    → IsTail tail
    → from_string_loop parts 2 [] (s ++ tail) ≡ done (set_part 2 (strtol s) parts)
third_section parts s _ p string_end =
    loop-dotless parts 2 [] s [] p.dotless ∙ (unfold from_string_loop in rw p.filled)
third_section parts s _ p (more rest) = loop-section parts 2 s rest p

-- Three sections that are not empty are read by `strtol`, and what follows a third dot is ignored.
pub from_string-sections :
    (a b c tail : Bytes)
    → IsSection a
    → IsSection b
    → IsSection c
    → IsTail tail
    → from_string (a ++ b'.' ∷ (b ++ b'.' ∷ (c ++ tail)))
      ≡ done (record { major = strtol a; minor = strtol b; patch = strtol c })
unfolding from_string set_part
from_string-sections a b c tail p q r end =
    loop-section (record { major = pos 0; minor = pos 0; patch = pos 0 }) 0 a
      (b ++ b'.' ∷ (c ++ tail)) p
    ∙ (loop-section (record { major = strtol a; minor = pos 0; patch = pos 0 }) 1 b (c ++ tail) q
        ∙ third_section (record { major = strtol a; minor = strtol b; patch = pos 0 }) c tail r end)

AllDigits-IsDotless : (s : Bytes) → AllDigits s → IsDotless s
unfolding is_digit
AllDigits-IsDotless [] p = tt
AllDigits-IsDotless (c ∷ s) p = (ground (arith, p.0), AllDigits-IsDotless s p.1)

print_int-IsSection : (v : ℤ) → IsSection (print_int v)
unfolding print_int
print_int-IsSection (pos n) =
    let (c, s, e, d) = decimal-first 9 n in
    record {
      dotless = AllDigits-IsDotless (decimal 10 n) (decimal-AllDigits 10 n);
      filled = ap is_empty e ∙ (unfold is_empty in refl);
    }
print_int-IsSection (negsuc n) = record {
  dotless = (refl, AllDigits-IsDotless (decimal 10 (suc n)) (decimal-AllDigits 10 (suc n)));
  filled = unfold is_empty in refl;
}

-- A version of three `int`s.
pub record IsVersion (v : Version) : Type 0 where
  pub major_int : IsInt v.major
  pub minor_int : IsInt v.minor
  pub patch_int : IsInt v.patch

read_back :
    (v : Version)
    → IsVersion v
    → from_string (print_int v.major ++ b'.' ∷ (print_int v.minor ++ b'.' ∷ print_int v.patch))
      ≡ done v
read_back v ok =
    ap (λ (t : Bytes). from_string (print_int v.major ++ b'.' ∷ (print_int v.minor ++ b'.' ∷ t)))
      (sym (append-nil (print_int v.patch)))
    ∙ (from_string-sections (print_int v.major) (print_int v.minor) (print_int v.patch) []
          (print_int-IsSection v.major) (print_int-IsSection v.minor) (print_int-IsSection v.patch)
          string_end
        ∙ (rw (
          strtol-print_int v.major ok.major_int,
          strtol-print_int v.minor ok.minor_int,
          strtol-print_int v.patch ok.patch_int,
        )))

-- What the update writes to the version file, where it writes, is read back as the same version.
pub from_string-print_version :
    (v : Version) (out : Bytes)
    → IsVersion v
    → print_version v ≡ done out
    → from_string out ≡ done v
unfolding print_version
from_string-print_version v out ok e =
    let text = print_int v.major ++ b'.' ∷ (print_int v.minor ++ b'.' ∷ print_int v.patch) in
    elim (Bool-cases (ltb (length text) 32)) [
      | inl fits ↦ ap from_string (sym (done-inj (rw fits at e))) ∙ read_back v ok
      | inr long ↦ absurd (cc (rw long at e))
    ]
