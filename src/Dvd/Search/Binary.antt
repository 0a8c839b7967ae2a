-- ===== src/Dvd/Search/Binary.antt =====
-- The binary search for a hash in runtime-ext/source/dvd.c.
use rr_launcher.Prelude.{
  ℕ, zero, suc, ◌+◌, ◌/◌, ◌≤◌, ◌<◌, ◌≡◌, ◌≢◌, refl, sym, le_or_lt, Option, none, some, List, [],
  ◌∷◌, length, get_elem?, ltb, ◌==◌, if◌then◌else◌, arith, All, Bool-cases, inl, inr, ne_of_test,
  ltb→lt,
}
use rr_launcher.Result.{Outcome, done, ◌>>=◌, read}
use rr_launcher.Riivo.{Replacement}
use rr_launcher.Dvd.Search.{walk_back, search_between, search_replacement_by_hash}

-- The hashes rise along the list.
abbrev pub IsSorted : List Replacement → Type 0
IsSorted [] = Unit
IsSorted (r ∷ rest) = All (λ s. r.hash ≤ s.hash) rest × IsSorted rest

-- The hash at an index; 0 past the end.
abbrev pub hash_at : List Replacement → ℕ → ℕ
hash_at [] i = 0
hash_at (r ∷ rest) zero = r.hash
hash_at (r ∷ rest) (suc i) = hash_at rest i

All-hash_at :
    (h : ℕ) (rs : List Replacement) (j : ℕ)
    → All (λ s. h ≤ s.hash) rs
    → j < length rs
    → h ≤ hash_at rs j
All-hash_at h [] j a b = elim b [ ]
All-hash_at h (r ∷ rs) zero a b = a.0
All-hash_at h (r ∷ rs) (suc j) a b = All-hash_at h rs j a.1 (omega arith)

hash_at_mono :
    (rs : List Replacement) (i j : ℕ)
    → IsSorted rs
    → i ≤ j
    → j < length rs
    → hash_at rs i ≤ hash_at rs j
hash_at_mono [] i j s le lt = elim lt [ ]
hash_at_mono (r ∷ rs) zero zero s le lt = omega arith
hash_at_mono (r ∷ rs) zero (suc j) s le lt = All-hash_at r.hash rs j s.0 (omega arith)
hash_at_mono (r ∷ rs) (suc i) zero s le lt = absurd (omega arith)
hash_at_mono (r ∷ rs) (suc i) (suc j) s le lt = hash_at_mono rs i j s.1 (omega arith) (omega arith)

read-hash_at :
    (rs : List Replacement) (i : ℕ)
    → i < length rs
    → (r : Replacement) × (get_elem? rs i ≡ some r) × (r.hash ≡ hash_at rs i)
read-hash_at [] i h = elim h [ ]
read-hash_at (r ∷ rs) zero h = (r, refl, refl)
read-hash_at (r ∷ rs) (suc i) h = read-hash_at rs i (omega arith)

-- What a search for a hash finds: nothing, where no entry has it, or the first entry that has it.
pub data Finds (hash : ℕ) (rs : List Replacement) : Outcome (Option ℕ) → Type 0 where
  absent : ((i : ℕ) → i < length rs → hash_at rs i ≢ hash) → Finds hash rs (done none)
  first :
      (k : ℕ)
      → k < length rs
      → hash_at rs k ≡ hash
      → ((i : ℕ) → i < k → hash_at rs i ≢ hash)
      → Finds hash rs (done (some k))

module _ (hash : ℕ) (rs : List Replacement) (sorted : IsSorted rs) where
  walk_back-Finds :
      (mid : ℕ)
      → mid < length rs
      → hash_at rs mid ≡ hash
      → Finds hash rs (do k ← walk_back hash rs mid; done (some k))
  unfolding walk_back
  walk_back-Finds zero below at = first 0 below at (λ i h. elim h [ ])
  walk_back-Finds (suc mid) below at =
      let (r, there, same) = read-hash_at rs mid (omega arith) in
      rw there (elim (Bool-cases (r.hash == hash)) [
        | inl more ↦ rw more (walk_back-Finds mid (omega arith) (ground arith))
        | inr stop ↦ rw stop (
            first (suc mid) below at λ i h e. ne_of_test r.hash hash stop omega (
              arith,
              same,
              hash_at_mono rs i mid sorted (omega arith) (omega arith),
              hash_at_mono rs mid (suc mid) sorted (omega arith) below,
            ))
      ])

  -- One round at `mid`, which the recursive calls go on from.
  round-Finds :
      (fuel start end mid : ℕ) (r : Replacement)
      → get_elem? rs mid ≡ some r
      → mid < length rs
      → hash_at rs mid ≡ r.hash
      → (r.hash < hash → Finds hash rs (search_between hash rs fuel (mid + 1) end))
      → (hash < r.hash → Finds hash rs (search_between hash rs fuel start mid))
      → Finds hash rs (do
        at ← read (get_elem? rs mid)
        if at.hash == hash
            then (do k ← walk_back hash rs mid; done (some k))
            else if ltb at.hash hash
            then search_between hash rs fuel (mid + 1) end
            else search_between hash rs fuel start mid)
  round-Finds fuel start end mid r there below same right left =
      rw there (elim (Bool-cases (r.hash == hash)) [
        | inl found ↦ rw found (walk_back-Finds mid below (ground arith))
        | inr other ↦ rw other (elim (Bool-cases (ltb r.hash hash)) [
          | inl less ↦ rw less (right (ltb→lt r.hash hash less))
          | inr more ↦ rw more (left (ground arith))
        ])
      ])

  search_between-Finds :
      (fuel start end : ℕ)
      → start ≤ end
      → end < start + fuel
      → end ≤ length rs
      → ((i : ℕ) → i < start → hash_at rs i < hash)
      → ((i : ℕ) → end ≤ i → i < length rs → hash < hash_at rs i)
      → Finds hash rs (search_between hash rs fuel start end)
  unfolding search_between
  search_between-Finds zero start end o f e lo hi = absurd (omega arith)
  search_between-Finds (suc fuel) start end o f e lo hi = elim (Bool-cases (ltb start end)) [
    | inl go ↦
        let mid = (start + end) / 2 in
        let less : start < end = ltb→lt start end go in
        let below : mid < length rs = omega arith in
        let (r, there, same) = read-hash_at rs mid below in
        rw go (
          round-Finds fuel start end mid r there below (sym same)
            (λ less_at.
              search_between-Finds fuel (mid + 1) end (omega arith) (omega arith) e
                (λ i h. omega (arith, same, hash_at_mono rs i mid sorted (omega arith) below)) hi)
            (λ more_at.
              search_between-Finds fuel start mid (omega arith) (omega arith) (omega arith) lo
                (λ i h k. omega (arith, same, hash_at_mono rs mid i sorted h k))))
    | inr stop ↦ rw stop (
        absent λ i h eq. elim (le_or_lt start i) [
          | inl le ↦ omega (arith, hi i (ground arith) h)
          | inr lt ↦ omega (arith, lo i lt)
        ])
  ]

-- On a sorted list the search ends, reads nothing out of range, and finds the first entry that has
-- the hash, or that no entry has it.
pub search_replacement_by_hash-Finds :
    (hash : ℕ) (rs : List Replacement)
    → IsSorted rs
    → Finds hash rs (search_replacement_by_hash hash rs)
unfolding search_replacement_by_hash
search_replacement_by_hash-Finds hash rs sorted =
    search_between-Finds hash rs sorted (length rs + 1) 0 (length rs) (omega arith) (omega arith)
      (omega arith) (λ i h. absurd (omega arith)) (λ i h k. absurd (omega arith))
