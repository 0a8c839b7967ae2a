-- ===== src/Dvd/Files/Slots.antt =====
-- The slot of each SD file and the use of each slot, as runtime-ext/source/dvd.c stores them.
use rr_launcher.Prelude.{
  ℕ, zero, suc, ◌<◌, ◌≡◌, refl, ap, subst, Option, none, some, List, [], ◌∷◌, length, get_elem?,
  set, ◌==◌, if◌then◌else◌, arith, inl, inr, true, Bool-cases, Option-cases, some-inj,
}
use rr_launcher.Riivo.{SdFile}
use rr_launcher.Dvd.Files.{OpenFile, free_slot}

-- The slot that a file holds.
abbrev pub slot_of : List SdFile → ℕ → Option ℕ
slot_of [] i = none
slot_of (f ∷ fs) zero = f.file_info
slot_of (f ∷ fs) (suc i) = slot_of fs i

pub slot_of-get :
    (fs : List SdFile) (i : ℕ) {f : SdFile} → get_elem? fs i ≡ some f → slot_of fs i ≡ f.file_info
slot_of-get [] i e = absurd (ground arith)
slot_of-get (g ∷ fs) zero e = ap (λ (h : SdFile). h.file_info) (some-inj e)
slot_of-get (g ∷ fs) (suc i) e = slot_of-get fs i e

pub slot_of-set :
    (fs : List SdFile) (i j : ℕ) (f : SdFile)
    → i < length fs
    → slot_of (set fs i f) j ≡ (if i == j then f.file_info else slot_of fs j)
slot_of-set [] i j f h = elim h [ ]
slot_of-set (g ∷ fs) zero zero f h = refl
slot_of-set (g ∷ fs) zero (suc j) f h = ground arith
slot_of-set (g ∷ fs) (suc i) zero f h = ground arith
slot_of-set (g ∷ fs) (suc i) (suc j) f h = ground (arith, slot_of-set fs i j f (omega arith))

module _ {File : Type 0} where
  -- How often a slot is in use.
  abbrev pub refs_of : List (OpenFile File) → ℕ → ℕ
  refs_of [] t = 0
  refs_of (f ∷ fs) zero = f.refcount
  refs_of (f ∷ fs) (suc t) = refs_of fs t

  pub refs_of-get :
      (fs : List (OpenFile File)) (t : ℕ) {f : OpenFile File}
      → get_elem? fs t ≡ some f
      → refs_of fs t ≡ f.refcount
  refs_of-get [] t e = absurd (ground arith)
  refs_of-get (g ∷ fs) zero e = ap (λ (h : OpenFile File). h.refcount) (some-inj e)
  refs_of-get (g ∷ fs) (suc t) e = refs_of-get fs t e

  pub refs_of-set :
      (fs : List (OpenFile File)) (s t : ℕ) (f : OpenFile File)
      → s < length fs
      → refs_of (set fs s f) t ≡ (if s == t then f.refcount else refs_of fs t)
  refs_of-set [] s t f h = elim h [ ]
  refs_of-set (g ∷ fs) zero zero f h = refl
  refs_of-set (g ∷ fs) zero (suc t) f h = ground arith
  refs_of-set (g ∷ fs) (suc s) zero f h = ground arith
  refs_of-set (g ∷ fs) (suc s) (suc t) f h = ground (arith, refs_of-set fs s t f (omega arith))

  free_here :
      (f : OpenFile File) (fs : List (OpenFile File)) (s : ℕ)
      → (f.refcount == 0) ≡ true
      → some 0 ≡ some s
      → (s < suc (length fs)) × (refs_of (f ∷ fs) s ≡ 0)
  free_here f fs s free e =
      subst (λ (t : ℕ). (t < suc (length fs)) × (refs_of (f ∷ fs) t ≡ 0)) (some-inj e)
        (omega arith, ground arith)

  -- A free slot is one that is not in use.
  pub free_slot-free :
      (fs : List (OpenFile File)) {s : ℕ}
      → free_slot fs ≡ some s
      → (s < length fs) × (refs_of fs s ≡ 0)
  unfolding free_slot
  free_slot-free [] e = absurd (ground arith)
  free_slot-free (f ∷ fs) {s} e = elim (Bool-cases (f.refcount == 0)) [
    | inl free ↦ free_here f fs s free (rw free at e)
    | inr used ↦ elim (Option-cases (free_slot fs)) [
      | inl full ↦ absurd (cc (rw (used, full) at e))
      | inr (i, found) ↦
          let (below, unused) = free_slot-free fs found in
          subst (λ (t : ℕ). (t < suc (length fs)) × (refs_of (f ∷ fs) t ≡ 0))
            (some-inj (rw (used, found) at e)) (omega arith, unused)
    ]
  ]
