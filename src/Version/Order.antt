-- ===== src/Version/Order.antt =====
-- The order of versions in source/versionutils.c.
use rr_launcher.Prelude.{
  ◌+◌, ◌<◌, ◌≡◌, ◌↔◌, ◌⊎◌, inl, inr, true, false, arith, Bool-cases, if◌then◌else◌, ltb, ℕ,
}
use rr_launcher.Prelude.Int.{ℤ, pos, negsuc, pos_part, neg_part, eq_of_parts}
use rr_launcher.Version.{Version, is_older, equals, eq_ℤ}

-- The order and the equality of two integers, on their parts.
abbrev IsBelow : ℤ → ℤ → Type 0
IsBelow a b = pos_part a + neg_part b < pos_part b + neg_part a

abbrev IsSame : ℤ → ℤ → Type 0
IsSame a b = pos_part a + neg_part b ≡ pos_part b + neg_part a

-- The parts in turn, the first that differs deciding.
abbrev pub IsBefore : Version → Version → Type 0
IsBefore a b =
    IsBelow a.major b.major
    ⊎ (IsSame a.major b.major
        × (IsBelow a.minor b.minor ⊎ (IsSame a.minor b.minor × IsBelow a.patch b.patch)))

lexicographic :
    (a b c d e f : ℕ)
    → ((if ltb a b
          then true
          else if ltb b a
          then false
          else if ltb c d
          then true
          else if ltb d c
          then false
          else if ltb e f
          then true
          else false)
        ≡ true)
      ↔ ((a < b) ⊎ ((a ≡ b) × ((c < d) ⊎ ((c ≡ d) × (e < f)))))
lexicographic a b c d e f = ground arith

-- A version is older than another just where the first of their parts that differs is smaller.
pub is_older_iff : (a b : Version) → (is_older a b ≡ true) ↔ IsBefore a b
unfolding is_older
is_older_iff a b =
    lexicographic (pos_part a.major + neg_part b.major) (pos_part b.major + neg_part a.major)
      (pos_part a.minor + neg_part b.minor) (pos_part b.minor + neg_part a.minor)
      (pos_part a.patch + neg_part b.patch) (pos_part b.patch + neg_part a.patch)

-- A version older than an older one is older.
pub is_older_trans :
    (a b c : Version) → is_older a b ≡ true → is_older b c ≡ true → is_older a c ≡ true
is_older_trans a b c h k =
    (is_older_iff a c).1 (omega (arith, (is_older_iff a b).0 h, (is_older_iff b c).0 k))

eq_ℤ_iff : (a b : ℤ) → (eq_ℤ a b ≡ true) ↔ (a ≡ b)
unfolding eq_ℤ
eq_ℤ_iff (pos m) (pos n) = ground arith
eq_ℤ_iff (pos m) (negsuc n) = ground arith
eq_ℤ_iff (negsuc m) (pos n) = ground arith
eq_ℤ_iff (negsuc m) (negsuc n) = ground arith

-- Two versions are equal just where all their parts are.
pub equals_iff : (a b : Version) → (equals a b ≡ true) ↔ (a ≡ b)
unfolding equals
equals_iff a b =
    ground (arith, eq_ℤ_iff a.major b.major, eq_ℤ_iff a.minor b.minor, eq_ℤ_iff a.patch b.patch)

lexicographic_same :
    (a b c d e f : ℕ)
    → (if ltb a b
        then true
        else if ltb b a
        then false
        else if ltb c d
        then true
        else if ltb d c
        then false
        else if ltb e f
        then true
        else false)
      ≡ false
    → (if ltb b a
        then true
        else if ltb a b
        then false
        else if ltb d c
        then true
        else if ltb c d
        then false
        else if ltb f e
        then true
        else false)
      ≡ false
    → (a ≡ b) × (c ≡ d) × (e ≡ f)
lexicographic_same a b c d e f h k = (ground arith, ground arith, ground arith)

-- Where neither is older, the versions are equal.
same_version : (a b : Version) → is_older a b ≡ false → is_older b a ≡ false → a ≡ b
unfolding is_older
same_version a b h k =
    let (s, t, u) =
      lexicographic_same (pos_part a.major + neg_part b.major) (pos_part b.major + neg_part a.major)
        (pos_part a.minor + neg_part b.minor) (pos_part b.minor + neg_part a.minor)
        (pos_part a.patch + neg_part b.patch) (pos_part b.patch + neg_part a.patch) h k in
    let major = eq_of_parts a.major b.major s in
    let minor = eq_of_parts a.minor b.minor t in let patch = eq_of_parts a.patch b.patch u in cc

-- Of two versions one is older than the other, or they are equal, and no version is older than one
-- that is older than it.
pub is_older-total :
    (a b : Version)
    → ((is_older a b ≡ true) ⊎ ((is_older b a ≡ true) ⊎ (equals a b ≡ true)))
      × (is_older a b ≡ true → is_older b a ≡ true → ⊥)
is_older-total a b = (
  elim (Bool-cases (is_older a b)) [
    | inl older ↦ inl older
    | inr not_older ↦ elim (Bool-cases (is_older b a)) [
      | inl newer ↦ inr (inl newer)
      | inr not_newer ↦ inr (inr ((equals_iff a b).1 (same_version a b not_older not_newer)))
    ]
  ],
  λ h k. omega (arith, (is_older_iff a b).0 h, (is_older_iff b a).0 k),
)
