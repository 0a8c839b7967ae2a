-- ===== src/Update/Paths.antt =====
-- On which paths the unpacking of source/update/update.c acts.
use mathlib.Core.List.{append_assoc}
use rr_launcher.Prelude.{
  ℕ, ◌<◌, ◌≡◌, ◌≢◌, refl, sym, ap, ◌∙◌, Bool, true, false, ◌&&◌, ◌||◌, not, if◌then◌else◌, ◌==◌,
  Bool-cases, inl, inr, List, [], ◌∷◌, ◌++◌, length, Bytes, All,
}
use rr_launcher.Update.{
  Effect, downloaded, made_dir, created, wrote, removed, versioned, Log, Host, World,
}
use rr_launcher.Update.Extract.{has_two_dots, path_is_safe, extract_zip_archive}
use rr_launcher.Update.Stays.{IsPreorder, extract_zip_archive-Stays}

abbrev pub is_separator : ℕ → Bool
is_separator c = c == 47 || c == 92

abbrev push : ℕ → List Bytes → List Bytes
push c [] = (c ∷ []) ∷ []
push c (segment ∷ segments) = (c ∷ segment) ∷ segments

-- The segments of a path, whichever way its slashes lean.
unfoldable pub segments : Bytes → List Bytes
segments [] = [] ∷ []
segments (c ∷ path) = let rest = segments path in if is_separator c then [] ∷ rest else push c rest

abbrev pub starts_with_separator : Bytes → Bool
starts_with_separator [] = false
starts_with_separator (c ∷ path) = is_separator c

-- A path with no slash or backslash in front, none of whose segments is `..`. A device in front, as in
-- sd:/apps, is not excluded.
pub record HasSafeSegments (path : Bytes) : Type 0 where
  pub relative : starts_with_separator path ≡ false
  pub no_parent : All (λ s. s ≢ 46 ∷ 46 ∷ []) (segments path)

either : (a b : Bool) → (a || b) ≡ false → b ≡ false
either true b e = cc
either false b e = e

two_dots-tail : (c : ℕ) (path : Bytes) → has_two_dots (c ∷ path) ≡ false → has_two_dots path ≡ false
two_dots-tail c [] e = refl
two_dots-tail c (d ∷ path) e = either (c == 46 && d == 46) (has_two_dots (d ∷ path)) e

not_dots : (c d : ℕ) (path : Bytes) → has_two_dots (c ∷ d ∷ path) ≡ false → c ≡ 46 → d ≡ 46 → ⊥
not_dots c d path e p q = cc (rw (p, q) at e)

first_false : (a b : Bool) → (a || b) ≡ false → a ≡ false
first_false true b e = cc
first_false false b e = refl

neither : (a b : Bool) → a ≡ false → b ≡ false → (a || b) ≡ false
neither true b p q = cc
neither false b p q = q

push-no_parent :
    (c d : ℕ) (path : Bytes)
    → has_two_dots (c ∷ d ∷ path) ≡ false
    → (ss : List Bytes) → All (λ s. s ≢ 46 ∷ 46 ∷ []) (push d ss)
    → All (λ s. s ≢ 46 ∷ 46 ∷ []) (push c (push d ss))
push-no_parent c d path e [] (first, rest) = (
  λ dots.
      let first_dot : c ≡ 46 = cc in
      let second_dot : d ≡ 46 = cc in not_dots c d path e first_dot second_dot,
  tt,
)
push-no_parent c d path e (s ∷ ss) (first, rest) = (
  λ dots.
      let first_dot : c ≡ 46 = cc in
      let second_dot : d ≡ 46 = cc in not_dots c d path e first_dot second_dot,
  rest,
)

segments-no_parent :
    (path : Bytes) → has_two_dots path ≡ false → All (λ s. s ≢ 46 ∷ 46 ∷ []) (segments path)
unfolding segments
segments-no_parent [] e = (λ dots. cc, tt)
segments-no_parent (c ∷ []) e = elim (Bool-cases (is_separator c)) [
  | inl separates ↦ rw separates (λ dots. cc, (λ dots. cc, tt))
  | inr plain ↦ rw plain (λ dots. cc, tt)
]
segments-no_parent (c ∷ d ∷ path) e =
    let rest = segments-no_parent (d ∷ path) (two_dots-tail c (d ∷ path) e) in
    elim (Bool-cases (is_separator c)) [
      | inl separates ↦ rw separates (λ dots. cc, rest)
      | inr plain ↦ elim (Bool-cases (is_separator d)) [
        | inl separates ↦ rw (plain, separates) (λ dots. cc, (rw separates at rest).1)
        | inr inner ↦
            rw (plain, inner) (push-no_parent c d path e (segments path) (rw inner at rest))
      ]
    ]

two_dots-prefix :
    (before rest : Bytes) → has_two_dots (before ++ rest) ≡ false → has_two_dots before ≡ false
two_dots-prefix [] rest e = refl
two_dots-prefix (a ∷ []) rest e = refl
two_dots-prefix (a ∷ b ∷ before) rest e =
    neither (a == 46 && b == 46) (has_two_dots (b ∷ before))
      (first_false (a == 46 && b == 46) (has_two_dots (b ∷ (before ++ rest))) e)
      (two_dots-prefix (b ∷ before) rest
        (either (a == 46 && b == 46) (has_two_dots (b ∷ (before ++ rest))) e))

starts-prefix :
    (before rest : Bytes)
    → 0 < length before
    → starts_with_separator (before ++ rest) ≡ false
    → starts_with_separator before ≡ false
starts-prefix [] rest h e = refl
starts-prefix (c ∷ before) rest h e = e

negated : (b : Bool) → not b ≡ true → b ≡ false
negated true e = cc
negated false e = refl

-- The paths that pass the test have safe segments, and so have the directories above them.
record Passes (path : Bytes) : Type 0 where
  relative : starts_with_separator path ≡ false
  no_dots : has_two_dots path ≡ false

both_true : (a b : Bool) → (a && b) ≡ true → (a ≡ true) × (b ≡ true)
both_true true b e = (refl, e)
both_true false b e = cc

path_is_safe-Passes : (name : Bytes) → path_is_safe name ≡ true → Passes name
unfolding path_is_safe
path_is_safe-Passes [] e = cc
path_is_safe-Passes (c ∷ name) e =
    let (first, dots) = both_true (not (c == 47 || c == 92)) (not (has_two_dots (c ∷ name))) e in
    record {
      relative = negated (c == 47 || c == 92) first;
      no_dots = negated (has_two_dots (c ∷ name)) dots;
    }

Passes-HasSafeSegments : (path : Bytes) → Passes path → HasSafeSegments path
Passes-HasSafeSegments path p = record {
  relative = p.relative;
  no_parent = segments-no_parent path p.no_dots;
}

-- An effect on a path with safe segments, if on one at all.
abbrev pub WritesSafeSegments : Effect → Type 0
WritesSafeSegments (downloaded url) = Unit
WritesSafeSegments (made_dir path) = HasSafeSegments path
WritesSafeSegments (created path) = HasSafeSegments path
WritesSafeSegments (wrote path chunk) = HasSafeSegments path
WritesSafeSegments (removed path) = HasSafeSegments path
WritesSafeSegments (versioned v) = Unit

-- The second card has done more than the first, and all of it on paths with safe segments.
MoreSafe : World → World → Type 0
MoreSafe u v = (new : Log) × (v.log ≡ new ++ u.log) × All WritesSafeSegments new

All-both :
    (xs ys : Log)
    → All WritesSafeSegments xs
    → All WritesSafeSegments ys
    → All WritesSafeSegments (xs ++ ys)
All-both [] ys p q = q
All-both (x ∷ xs) ys (p, a) q = (p, All-both xs ys a q)

MoreSafe-IsPreorder : IsPreorder MoreSafe
unfolding MoreSafe
MoreSafe-IsPreorder = record {
  same = λ w. ([], refl, tt);
  both = λ {u} {v} {w} (new, e, a) (new2, e2, a2). (
    new2 ++ new,
    e2 ∙ ap (λ (l : Log). new2 ++ l) e ∙ sym (append_assoc new2 new u.log),
    All-both new2 new a2 a,
  );
}

-- Unpacking an archive makes a directory at, creates and writes to only paths that have no slash or
-- backslash in front and no segment `..`, whatever names the entries have and whatever the card answers.
-- A path with a device in front, as in sd:/apps, is not excluded.
pub extract_zip_archive-WritesSafeSegments :
    (host : Host) (w : World)
    → (new : Log) × ((extract_zip_archive host w).1.log ≡ new ++ w.log) × All WritesSafeSegments new
unfolding MoreSafe
extract_zip_archive-WritesSafeSegments host =
    extract_zip_archive-Stays MoreSafe MoreSafe-IsPreorder host Passes
      (λ before rest h p. record {
        relative = starts-prefix before rest h p.relative;
        no_dots = two_dots-prefix before rest p.no_dots;
      })
      (λ path p w. (made_dir path ∷ [], refl, (Passes-HasSafeSegments path p, tt)))
      (λ path p w. (created path ∷ [], refl, (Passes-HasSafeSegments path p, tt)))
      (λ path chunk p w. (wrote path chunk ∷ [], refl, (Passes-HasSafeSegments path p, tt)))
      path_is_safe-Passes
