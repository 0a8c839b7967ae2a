-- ===== src/PatchLoader/Files.antt =====
-- `_rrc_riivo_handle_file_patch` of source/loader/riivo_patch_loader.c: by which file of the SD card
-- a path is replaced, before and after.
use rr_launcher.Prelude.{
  ℕ, zero, suc, ◌<◌, ◌≡◌, refl, sym, ap, ◌∙◌, subst, Option, none, some, List, [], ◌∷◌, ◌++◌,
  length, ◌==◌, if◌then◌else◌, Bytes, bytes_eq, bytes_eq_iff, arith, Bool-cases, Option-cases, inl,
  inr, IsCString, some-inj,
}
use rr_launcher.Hash.{to_lowercase}
use rr_launcher.Riivo.{SdFile, Replacement}
use rr_launcher.Dvd.Search.{strip_slash}
use rr_launcher.Dvd.Search.Linear.{find_disc}
use rr_launcher.PatchLoader.{Loader, find_sd_file}
use rr_launcher.PatchLoader.Register.{IsIndex}

-- The path of the SD file with this number.
abbrev pub path_at : List SdFile → ℕ → Option Bytes
path_at [] n = none
path_at (f ∷ fs) zero = some f.path
path_at (f ∷ fs) (suc n) = path_at fs n

abbrev pub external_at : List SdFile → Option ℕ → Option Bytes
external_at files none = none
external_at files (some n) = path_at files n

-- The file of the SD card that a path is replaced by.
unfoldable pub external_of : List SdFile → List Replacement → Bytes → Option Bytes
external_of files rs d = external_at files (find_disc d rs)

-- Every entry names a file of the list.
abbrev pub InRange : List SdFile → List Replacement → Type 0
InRange files rs = (d : Bytes) (n : ℕ) → find_disc d rs ≡ some n → n < length files

pub record IsLoader (st : Loader) : Type 0 where
  pub full : IsIndex st.replacements
  pub named : IsIndex st.filename_replacements
  pub full_range : InRange st.sd_files st.replacements
  pub named_range : InRange st.sd_files st.filename_replacements

-- A disc path as the patch loader passes it: in lower case.
pub record IsPath (disc : Bytes) : Type 0 where
  pub folded : to_lowercase disc ≡ disc
  pub text : IsCString disc

pub strip_slash-IsPath : (disc : Bytes) → IsPath disc → IsPath (strip_slash disc)
unfolding strip_slash to_lowercase
strip_slash-IsPath [] p = p
strip_slash-IsPath (c ∷ s) p = elim (Bool-cases (c == b'/')) [
  | inl slash ↦ rw slash (record { folded = ground (arith, p.folded); text = p.text.1 })
  | inr plain ↦ rw plain p
]

path_at-append : (fs gs : List SdFile) (n : ℕ) → n < length fs → path_at (fs ++ gs) n ≡ path_at fs n
path_at-append [] gs n h = elim h [ ]
path_at-append (f ∷ fs) gs zero h = refl
path_at-append (f ∷ fs) gs (suc n) h = path_at-append fs gs n (omega arith)

pub path_at-last :
    (fs : List SdFile) (g : SdFile) → path_at (fs ++ g ∷ []) (length fs) ≡ some g.path
path_at-last [] g = refl
path_at-last (f ∷ fs) g = path_at-last fs g

path_at-lt : (fs : List SdFile) (n : ℕ) {p : Bytes} → path_at fs n ≡ some p → n < length fs
path_at-lt [] n e = absurd (ground arith)
path_at-lt (f ∷ fs) zero e = omega arith
path_at-lt (f ∷ fs) (suc n) e = omega (arith, path_at-lt fs n e)

pub find_sd_file-path :
    (fs : List SdFile) (path : Bytes) (n : ℕ)
    → find_sd_file fs path ≡ some n
    → path_at fs n ≡ some path
unfolding find_sd_file
find_sd_file-path [] path n e = absurd (ground arith)
find_sd_file-path (f ∷ fs) path n e = elim (Bool-cases (bytes_eq f.path path)) [
  | inl here ↦
      let zero_index : n ≡ 0 = ground arith in
      ap (path_at (f ∷ fs)) zero_index ∙ ap some ((bytes_eq_iff f.path path).0 here)
  | inr later ↦ elim (Option-cases (find_sd_file fs path)) [
    | inl nowhere ↦ absurd (ground arith)
    | inr (i, at) ↦
        let suc_index : n ≡ suc i = ground arith in
        ap (path_at (f ∷ fs)) suc_index ∙ find_sd_file-path fs path i at
  ]
]

pub external_of-grow :
    (fs gs : List SdFile) (rs : List Replacement) (d : Bytes)
    → InRange fs rs
    → external_of (fs ++ gs) rs d ≡ external_of fs rs d
unfolding external_of
external_of-grow fs gs rs d r = elim (Option-cases (find_disc d rs)) [
  | inl nothing ↦ rw nothing
  | inr (n, at) ↦ rw at (path_at-append fs gs n (r d n at))
]

-- What a new vector gives when it gives the new file for one path and agrees on the others.
module _ (fs : List SdFile) (rs rs' : List Replacement) (disc external : Bytes) (n : ℕ)
    (found : (d : Bytes) → find_disc d rs' ≡ (if bytes_eq disc d then some n else find_disc d rs))
    (at : path_at fs n ≡ some external) where
  pub replaced-InRange : InRange fs rs → InRange fs rs'
  replaced-InRange range d m e = elim (Bool-cases (bytes_eq disc d)) [
    | inl same ↦
        let here : some m ≡ some n = sym e ∙ found d ∙ rw same in
        subst (λ (k : ℕ). k < length fs) (sym (some-inj here)) (path_at-lt fs n at)
    | inr differ ↦
        let old : find_disc d rs ≡ find_disc d rs' = sym (found d ∙ rw differ) in
        range d m (old ∙ e)
  ]

  pub external_of-replaced :
      (d : Bytes)
      → external_of fs rs' d ≡ (if bytes_eq disc d then some external else external_of fs rs d)
  unfolding external_of
  external_of-replaced d = elim (Bool-cases (bytes_eq disc d)) [
    | inl same ↦ let here : find_disc d rs' ≡ some n = found d ∙ rw same in rw (same, here) at
    | inr differ ↦
        let there : find_disc d rs' ≡ find_disc d rs = found d ∙ rw differ in rw (differ, there)
  ]
