-- ===== src/PatchLoader/Sort.antt =====
-- A sort of file replacements by their hash, as the C library's `qsort` may do it: what the theorems
-- ask of `qsort` can be had.
use mathlib.Core.List.{Permᴰ}
use mathlib.Core.List.Permᴰ
use rr_launcher.Prelude.{
  ℕ, ◌≤◌, refl, List, [], ◌∷◌, leb, if◌then◌else◌, All, arith, Bool-cases, inl, inr, leb→le,
}
use rr_launcher.Riivo.{Replacement}
use rr_launcher.Dvd.Search.Binary.{IsSorted}
use rr_launcher.PatchLoader.Distinct.{All-Permᴰ}
use rr_launcher.PatchLoader.Build.{IsSort}

-- A replacement in front of the first whose hash is not smaller.
insert : Replacement → List Replacement → List Replacement
insert r [] = r ∷ []
insert r (s ∷ rs) = if leb r.hash s.hash then r ∷ s ∷ rs else s ∷ insert r rs

unfoldable pub insertion_sort : List Replacement → List Replacement
unfolding insert
insertion_sort [] = []
insertion_sort (r ∷ rs) = insert r (insertion_sort rs)

insert-Permᴰ : (r : Replacement) (rs : List Replacement) → Permᴰ (r ∷ rs) (insert r rs)
unfolding insert
insert-Permᴰ r [] = Permᴰ.cons refl Permᴰ.nil
insert-Permᴰ r (s ∷ rs) = elim (Bool-cases (leb r.hash s.hash)) [
  | inl first ↦ rw first (Permᴰ.refl (r ∷ s ∷ rs))
  | inr later ↦ rw later (Permᴰ.trans (Permᴰ.swap refl refl) (Permᴰ.cons refl (insert-Permᴰ r rs)))
]

All-le :
    (m n : ℕ) (rs : List Replacement) → m ≤ n → All (λ s. n ≤ s.hash) rs → All (λ s. m ≤ s.hash) rs
All-le m n [] h a = tt
All-le m n (r ∷ rs) h a = (omega (arith, a.0), All-le m n rs h a.1)

insert-IsSorted : (r : Replacement) (rs : List Replacement) → IsSorted rs → IsSorted (insert r rs)
unfolding insert
insert-IsSorted r [] s = (tt, tt)
insert-IsSorted r (x ∷ rs) s = elim (Bool-cases (leb r.hash x.hash)) [
  | inl first ↦
      let le = leb→le r.hash x.hash first in rw first ((le, All-le r.hash x.hash rs le s.0), s)
  | inr later ↦ rw later (
    All-Permᴰ (λ (y : Replacement). x.hash ≤ y.hash) (insert-Permᴰ r rs) (ground arith, s.0),
    insert-IsSorted r rs s.1,
  )
]

insertion_sort-IsSorted : (rs : List Replacement) → IsSorted (insertion_sort rs)
unfolding insertion_sort
insertion_sort-IsSorted [] = tt
insertion_sort-IsSorted (r ∷ rs) =
    insert-IsSorted r (insertion_sort rs) (insertion_sort-IsSorted rs)

insertion_sort-Permᴰ : (rs : List Replacement) → Permᴰ rs (insertion_sort rs)
unfolding insertion_sort
insertion_sort-Permᴰ [] = Permᴰ.nil
insertion_sort-Permᴰ (r ∷ rs) =
    Permᴰ.trans (Permᴰ.cons refl (insertion_sort-Permᴰ rs)) (insert-Permᴰ r (insertion_sort rs))

pub insertion_sort-IsSort : IsSort insertion_sort
insertion_sort-IsSort = record { sorted = insertion_sort-IsSorted; permuted = insertion_sort-Permᴰ }
