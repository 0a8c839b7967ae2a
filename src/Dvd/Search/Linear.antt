-- ===== src/Dvd/Search/Linear.antt =====
-- The lookup of a path in runtime-ext/source/dvd.c, against searches that look at every entry.
use rr_launcher.Prelude.{
  ℕ, zero, suc, ◌≤◌, ◌<◌, ◌≡◌, ◌≢◌, refl, sym, ap, ◌∙◌, Option, none, some, List, [], ◌∷◌, ◌&&◌,
  length, drop, ◌==◌, if◌then◌else◌, arith, All, Bool-cases, inl, inr, ne_of_test, ==_iff, Bytes,
  IsCString, bytes_eq, bytes_eq_iff, and_false,
}
use rr_launcher.Prelude.Int.{is_zero, eq_of_is_zero}
use rr_launcher.Result.{Outcome, done, ◌>>=◌}
use rr_launcher.Hash.{hash_string, hash_string_lowercase, to_lowercase, strcicmp}
use rr_launcher.Hash.Laws.{hash_string_lowercase-eq}
use rr_launcher.Hash.Fold.{strcicmp_iff}
use rr_launcher.Riivo.{Replacement}
use rr_launcher.Dvd.Search.{search_replacement_by_hash, scan, scan_from, search_replacement}
use rr_launcher.Dvd.Search.Binary.{
  IsSorted, hash_at, Finds, absent, first, search_replacement_by_hash-Finds,
}

-- The first entry with this hash and, but for case, this path.
pub linear : ℕ → Bytes → List Replacement → Option ℕ
linear hash filename [] = none
linear hash filename (r ∷ rest) =
    if r.hash == hash && is_zero (strcicmp r.disc filename)
    then some r.entrynum
    else linear hash filename rest

-- The first entry for this path.
unfoldable pub find_disc : Bytes → List Replacement → Option ℕ
find_disc path [] = none
find_disc path (r ∷ rest) = if bytes_eq r.disc path then some r.entrynum else find_disc path rest

module _ (hash : ℕ) (filename : Bytes) where
  linear-drop :
      (k : ℕ) (rs : List Replacement)
      → ((i : ℕ) → i < k → hash_at rs i ≢ hash)
      → linear hash filename rs ≡ linear hash filename (drop k rs)
  unfolding linear
  linear-drop zero rs h = refl
  linear-drop (suc k) [] h = refl
  linear-drop (suc k) (r ∷ rs) h =
      ground (arith, h 0 (omega arith), linear-drop k rs (λ i p. h (suc i) (omega arith)))

  linear_absent :
      (rs : List Replacement)
      → ((i : ℕ) → i < length rs → hash_at rs i ≢ hash)
      → linear hash filename rs ≡ none
  unfolding linear
  linear_absent [] h = refl
  linear_absent (r ∷ rs) h =
      ground (arith, h 0 (omega arith), linear_absent rs (λ i p. h (suc i) (omega arith)))

  linear_above :
      (rs : List Replacement) → All (λ s. hash < s.hash) rs → linear hash filename rs ≡ none
  unfolding linear
  linear_above [] a = refl
  linear_above (r ∷ rs) a = ground (arith, a.0, linear_above rs a.1)

  All-above :
      (n : ℕ) (rs : List Replacement)
      → hash < n
      → All (λ s. n ≤ s.hash) rs
      → All (λ s. hash < s.hash) rs
  All-above n [] h a = tt
  All-above n (r ∷ rs) h a = (omega (arith, a.0), All-above n rs h a.1)

  scan-linear :
      (rs : List Replacement)
      → IsSorted rs
      → All (λ s. hash ≤ s.hash) rs
      → scan hash filename rs ≡ linear hash filename rs
  unfolding scan linear
  scan-linear [] s a = refl
  scan-linear (r ∷ rs) s a = elim (Bool-cases (r.hash == hash)) [
    | inl here ↦ rw here (ground (arith, scan-linear rs s.1 a.1))
    | inr above ↦ rw above (
        sym (
          linear_above rs
            (All-above r.hash rs (omega (arith, a.0, ne_of_test r.hash hash above)) s.0)))
  ]

  IsSorted-drop : (k : ℕ) (rs : List Replacement) → IsSorted rs → IsSorted (drop k rs)
  IsSorted-drop zero rs s = s
  IsSorted-drop (suc k) [] s = s
  IsSorted-drop (suc k) (r ∷ rs) s = IsSorted-drop k rs s.1

  All-weaken :
      (n : ℕ) (rs : List Replacement)
      → n ≡ hash
      → All (λ s. n ≤ s.hash) rs
      → All (λ s. hash ≤ s.hash) rs
  All-weaken n [] e a = tt
  All-weaken n (r ∷ rs) e a = (omega (arith, a.0), All-weaken n rs e a.1)

  All-drop :
      (k : ℕ) (rs : List Replacement)
      → IsSorted rs
      → k < length rs
      → hash_at rs k ≡ hash
      → All (λ s. hash ≤ s.hash) (drop k rs)
  All-drop k [] s h e = elim h [ ]
  All-drop zero (r ∷ rs) s h e = (omega arith, All-weaken r.hash rs e s.0)
  All-drop (suc k) (r ∷ rs) s h e = All-drop k rs s.1 (omega arith) e

-- On a sorted list the binary search with its forward walk gives what a search of every entry
-- gives: the first that has the hash and, but for case, the path.
pub search_replacement-linear :
    (hash : ℕ) (filename : Bytes) (rs : List Replacement)
    → IsSorted rs
    → search_replacement hash filename rs ≡ done (linear hash filename rs)
unfolding search_replacement scan_from
search_replacement-linear hash filename rs sorted =
    go (search_replacement_by_hash hash rs) (search_replacement_by_hash-Finds hash rs sorted)
  where
    go :
        (o : Outcome (Option ℕ))
        → Finds hash rs o
        → (o >>= λ index. done (scan_from hash filename rs index)) ≡ done (linear hash filename rs)
    go _ (absent h) = ap done (sym (linear_absent hash filename rs h))
    go _ (first k below at before) = ap done (
        scan-linear hash filename (drop k rs) (IsSorted-drop hash filename k rs sorted)
          (All-drop hash filename k rs sorted below at)
        ∙ sym (linear-drop hash filename k rs before))

-- What the patch loader registers: a path in lower case, under its hash.
pub record IsRegistered (r : Replacement) : Type 0 where
  pub folded : to_lowercase r.disc ≡ r.disc
  pub hashed : r.hash ≡ hash_string r.disc
  pub text : IsCString r.disc

module _ (filename : Bytes) (text : IsCString filename) where
  matches_lem :
      (r : Replacement)
      → IsRegistered r
      → (r.hash == hash_string_lowercase filename && is_zero (strcicmp r.disc filename))
        ≡ bytes_eq r.disc (to_lowercase filename)
  matches_lem r reg = elim (Bool-cases (bytes_eq r.disc (to_lowercase filename))) [
    | inl same ↦
        let e = (bytes_eq_iff r.disc (to_lowercase filename)).0 same in
        let hashes : r.hash ≡ hash_string_lowercase filename =
          reg.hashed ∙ ap hash_string e ∙ sym (hash_string_lowercase-eq filename) in
        let zero_diff = (strcicmp_iff r.disc filename reg.text text).1 (reg.folded ∙ e) in
        rw (same, zero_diff, (==_iff r.hash (hash_string_lowercase filename)).1 hashes)
    | inr differ ↦ elim (Bool-cases (is_zero (strcicmp r.disc filename))) [
      | inl z ↦
          let e =
            (strcicmp_iff r.disc filename reg.text text).0
              (eq_of_is_zero (strcicmp r.disc filename) z) in
          let same = (bytes_eq_iff r.disc (to_lowercase filename)).1 (sym reg.folded ∙ e) in
          absurd (cc (same, differ))
      | inr nz ↦ rw (nz, differ) (and_false (r.hash == hash_string_lowercase filename))
    ]
  ]

  pub linear-find_disc :
      (rs : List Replacement)
      → All IsRegistered rs
      → linear (hash_string_lowercase filename) filename rs ≡ find_disc (to_lowercase filename) rs
  unfolding linear find_disc
  linear-find_disc [] a = refl
  linear-find_disc (r ∷ rs) a = rw (matches_lem r a.0, linear-find_disc rs a.1)

-- Among registered replacements, sorted by hash, the lookup by the hash of a path gives the first
-- entry for that path in lower case: a hash that two paths share does no harm.
pub search_replacement-find_disc :
    (filename : Bytes) (rs : List Replacement)
    → IsCString filename
    → IsSorted rs
    → All IsRegistered rs
    → search_replacement (hash_string_lowercase filename) filename rs
      ≡ done (find_disc (to_lowercase filename) rs)
search_replacement-find_disc filename rs text sorted reg =
    search_replacement-linear (hash_string_lowercase filename) filename rs sorted
    ∙ ap done (linear-find_disc filename text rs reg)
