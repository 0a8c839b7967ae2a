-- ===== src/PatchLoader/Register.antt =====
-- What a registered replacement is found by later, in source/loader/riivo_patch_loader.c.
use mathlib.Core.List.Permᴰ
use rr_launcher.Prelude.{
  ℕ, suc, ◌≡◌, refl, sym, ap, ◌∙◌, subst, true, false, ◌&&◌, Option, none, some, List, [], ◌∷◌,
  ◌++◌, get_elem?, ◌==◌, if◌then◌else◌, Bytes, bytes_eq, bytes_eq_iff, All, arith, ==_iff, ◌⊎◌,
  Bool-cases, Option-cases, inl, inr,
}
use rr_launcher.Hash.{hash_string}
use rr_launcher.Vec.Remove.{swap_removed, swap_removed-Permᴰ, snoc-Permᴰ}
use rr_launcher.Riivo.{Replacement}
use rr_launcher.Dvd.Search.Linear.{find_disc, IsRegistered}
use rr_launcher.PatchLoader.Distinct.{Absent, Distinct, All-Permᴰ, Distinct-Permᴰ, find_disc-Permᴰ}
use rr_launcher.PatchLoader.{find_same, remove_at, remove_replacement}

find_same-none_tail :
    (r new : Replacement) (rs : List Replacement)
    → find_same (r ∷ rs) new ≡ none
    → ((r.hash == new.hash && bytes_eq r.disc new.disc) ≡ false) × (find_same rs new ≡ none)
unfolding find_same
find_same-none_tail r new rs e = (ground arith, ground arith)

-- Where no entry has the hash and path of a registered entry, none has its path.
find_same-none :
    (rs : List Replacement) (new : Replacement)
    → All IsRegistered rs
    → IsRegistered new
    → find_same rs new ≡ none
    → Absent new.disc rs
find_same-none [] new reg n e = tt
find_same-none (r ∷ rs) new reg n e =
    let (differ, later) = find_same-none_tail r new rs e in
    (
      elim (Bool-cases (bytes_eq r.disc new.disc)) [
        | inl same ↦
            let hashes : r.hash ≡ new.hash =
              reg.0.hashed
              ∙ (ap hash_string ((bytes_eq_iff r.disc new.disc).0 same) ∙ sym n.hashed) in
            absurd (cc (rw (same, (==_iff r.hash new.hash).1 hashes) at differ))
        | inr differs ↦ differs
      ],
      find_same-none rs new reg.1 n later,
    )

find_same-some_tail :
    (r new : Replacement) (rs : List Replacement) (i : ℕ)
    → find_same (r ∷ rs) new ≡ some i
    → ((bytes_eq r.disc new.disc ≡ true) × (i ≡ 0))
      ⊎ ((j : ℕ) × (find_same rs new ≡ some j) × (i ≡ suc j))
unfolding find_same
find_same-some_tail r new rs i e = elim (Option-cases (find_same rs new)) [
  | inl no_more ↦ inl (ground arith, ground arith)
  | inr (j, at) ↦ elim (Bool-cases (r.hash == new.hash && bytes_eq r.disc new.disc)) [
    | inl here ↦ inl (ground arith, ground arith)
    | inr later ↦ inr (j, at, ground arith)
  ]
]

find_same-some :
    (rs : List Replacement) (new : Replacement) (i : ℕ)
    → find_same rs new ≡ some i
    → (x : Replacement) × (get_elem? rs i ≡ some x) × (x.disc ≡ new.disc)
find_same-some [] new i e = absurd (unfold find_same in ground arith)
find_same-some (r ∷ rs) new i e = elim (find_same-some_tail r new rs i e) [
  | inl (same, zero_index) ↦
      (r, ap (get_elem? (r ∷ rs)) zero_index, (bytes_eq_iff r.disc new.disc).0 same)
  | inr (j, at, suc_index) ↦
      let (x, there, same) = find_same-some rs new j at in
      (x, ap (get_elem? (r ∷ rs)) suc_index ∙ there, same)
]

-- The invariant of a vector of replacements.
pub record IsIndex (rs : List Replacement) : Type 0 where
  pub registered : All IsRegistered rs
  pub distinct : Distinct rs

-- What is left once the entry for the path of `new` is gone.
record IsRemoved (rs : List Replacement) (new : Replacement) (left : List Replacement)
    : Type 0 where
  registered : All IsRegistered left
  distinct : Distinct left
  absent : Absent new.disc left
  others : (d : Bytes) → bytes_eq new.disc d ≡ false → find_disc d left ≡ find_disc d rs

find_disc-skip :
    (d : Bytes) (x : Replacement) (rs : List Replacement)
    → bytes_eq x.disc d ≡ false
    → find_disc d (x ∷ rs) ≡ find_disc d rs
unfolding find_disc
find_disc-skip d x rs h = rw h

remove_at-IsRemoved :
    (rs : List Replacement) (new : Replacement) (o : Option ℕ)
    → IsIndex rs
    → IsRegistered new
    → find_same rs new ≡ o
    → IsRemoved rs new (remove_at rs o)
unfolding remove_at
remove_at-IsRemoved rs new none ix n e = record {
  registered = ix.registered;
  distinct = ix.distinct;
  absent = find_same-none rs new ix.registered n e;
  others = λ d ne. refl;
}
remove_at-IsRemoved rs new (some i) ix n e =
    let (x, there, same) = find_same-some rs new i e in
    let p = swap_removed-Permᴰ rs i there in
    let s = Distinct-Permᴰ p ix.distinct in
    record {
      registered = (All-Permᴰ IsRegistered p ix.registered).1;
      distinct = s.1;
      absent = subst (λ (d : Bytes). Absent d (swap_removed rs i)) same s.0;
      others = λ d ne. sym (
          find_disc-Permᴰ d p ix.distinct
          ∙ find_disc-skip d x (swap_removed rs i) (ap (λ (t : Bytes). bytes_eq t d) same ∙ ne));
    }

-- Registering a replacement keeps the vector an index, replaces its path by its file, and leaves
-- what every other path is replaced by.
pub register-IsIndex :
    (rs : List Replacement) (new : Replacement)
    → IsIndex rs
    → IsRegistered new
    → IsIndex (remove_replacement rs new ++ new ∷ [])
      × ((d : Bytes)
          → find_disc d (remove_replacement rs new ++ new ∷ [])
            ≡ (if bytes_eq new.disc d then some new.entrynum else find_disc d rs))
unfolding remove_replacement
register-IsIndex rs new ix n =
    let left = remove_at-IsRemoved rs new (find_same rs new) ix n refl in
    let p = snoc-Permᴰ (remove_replacement rs new) new in
    let ix' : IsIndex (remove_replacement rs new ++ new ∷ []) = record {
      registered = All-Permᴰ IsRegistered (Permᴰ.symm p) (n, left.registered);
      distinct = Distinct-Permᴰ (Permᴰ.symm p) (left.absent, left.distinct);
    } in
    (
      ix',
      λ d. find_disc-Permᴰ d p ix'.distinct ∙ (unfold find_disc in ground (arith, left.others d)),
    )
