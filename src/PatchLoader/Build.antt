-- ===== src/PatchLoader/Build.antt =====
-- The end of `rrc_riivo_patch_loader_parse` in source/loader/riivo_patch_loader.c, and the lookup of
-- runtime-ext/source/dvd.c in what it builds.
use mathlib.Core.List.{Permᴰ}
use rr_launcher.Prelude.{
  ℕ, suc, ◌+◌, ◌<◌, ◌≡◌, refl, sym, ap, ◌∙◌, subst, Option, none, some, List, [], ◌∷◌, length, ltb,
  ◌==◌, zero, if◌then◌else◌, Bytes, arith, Bool-cases, Option-cases, inl, inr, IsCString,
}
use rr_launcher.Result.{Outcome, done, fatal, done-inj}
use rr_launcher.Hash.{hash_string_lowercase, to_lowercase}
use rr_launcher.Riivo.{SdFile, Replacement, Disc}
use rr_launcher.Dvd.Search.{
  strip_slash, segment_from, filename_segment, resolve_path, search_replacement,
}
use rr_launcher.Dvd.Search.Binary.{IsSorted}
use rr_launcher.Dvd.Search.Linear.{find_disc, IsRegistered, search_replacement-find_disc}
use rr_launcher.PatchLoader.{Loader}
use rr_launcher.PatchLoader.Distinct.{All-Permᴰ, find_disc-Permᴰ}
use rr_launcher.PatchLoader.Register.{IsIndex}
use rr_launcher.PatchLoader.Files.{path_at, external_at, external_of, IsLoader}

-- `GLOBAL_MAX_FOLDER_FILES`
abbrev pub global_max_folder_files : ℕ
global_max_folder_files = 30000

-- What the loader puts into memory for the DVD functions. `qsort` is the C library's, with
-- `cmp_file_replacements_by_hash`.
unfoldable pub build_disc : (List Replacement → List Replacement) → Loader → Outcome Disc
build_disc qsort st =
    if ltb global_max_folder_files (length st.replacements + length st.filename_replacements)
    then fatal "Too many SD files for Riivolution patch loader!"
    else done (record {
      sd_files = st.sd_files;
      filename_replacements = qsort st.filename_replacements;
      replacements = qsort st.replacements;
    })

-- What the C library promises of `qsort`: the entries in rising order of their hash.
pub record IsSort (qsort : List Replacement → List Replacement) : Type 0 where
  pub sorted : (rs : List Replacement) → IsSorted (qsort rs)
  pub permuted : (rs : List Replacement) → Permᴰ rs (qsort rs)

-- The first that there is.
pub or_else {ℓ} : {A : Type ℓ} → Option A → Option A → Option A
or_else none o = o
or_else (some a) o = some a

search_replacement-sorted :
    (qsort : List Replacement → List Replacement) (rs : List Replacement) (filename : Bytes)
    → IsSort qsort
    → IsIndex rs
    → IsCString filename
    → search_replacement (hash_string_lowercase filename) filename (qsort rs)
      ≡ done (find_disc (to_lowercase filename) rs)
search_replacement-sorted qsort rs filename sort ix text =
    let p = sort.permuted rs in
    search_replacement-find_disc filename (qsort rs) text (sort.sorted rs)
      (All-Permᴰ IsRegistered p ix.registered)
    ∙ ap done (sym (find_disc-Permᴰ (to_lowercase filename) p ix.distinct))

strip_slash-IsCString : (s : Bytes) → IsCString s → IsCString (strip_slash s)
unfolding strip_slash
strip_slash-IsCString [] text = text
strip_slash-IsCString (c ∷ s) text = elim (Bool-cases (c == b'/')) [
  | inl slash ↦ rw slash text.1
  | inr plain ↦ rw plain text
]

segment_from-IsCString :
    (start s : Bytes) → IsCString start → IsCString s → IsCString (segment_from start s)
unfolding segment_from
segment_from-IsCString start [] text rest = text
segment_from-IsCString start (c ∷ s) text rest = elim (Bool-cases (c == b'/')) [
  | inl slash ↦ rw slash (segment_from-IsCString s s rest.1 rest.1)
  | inr plain ↦ rw plain (segment_from-IsCString start s text rest.1)
]

path_at-some : (fs : List SdFile) (n : ℕ) → n < length fs → (p : Bytes) × (path_at fs n ≡ some p)
path_at-some [] n h = elim h [ ]
path_at-some (f ∷ fs) zero h = (f.path, refl)
path_at-some (f ∷ fs) (suc n) h = path_at-some fs n (omega arith)

-- What a path that the game opens is replaced by: what its filename is, or else what the whole path
-- is, both in lower case.
pub replacement_of : Loader → Bytes → Option Bytes
unfolding strip_slash filename_segment
replacement_of st path =
    or_else
      (external_of st.sd_files st.filename_replacements
        (to_lowercase (filename_segment (strip_slash path))))
      (external_of st.sd_files st.replacements (to_lowercase (strip_slash path)))

resolve_path-sorted :
    (qsort : List Replacement → List Replacement) (st : Loader) (path : Bytes)
    → IsSort qsort
    → IsLoader st
    → IsCString path
    → (o : Option ℕ) × (resolve_path
          (record {
            sd_files = st.sd_files;
            filename_replacements = qsort st.filename_replacements;
            replacements = qsort st.replacements;
          })
          path
        ≡ done o)
      × (external_at st.sd_files o ≡ replacement_of st path)
unfolding resolve_path replacement_of external_of filename_segment or_else
resolve_path-sorted qsort st path sort ok text =
    let filename = strip_slash path in
    let filename_text = strip_slash-IsCString path text in
    let segment = filename_segment filename in
    let segment_text = segment_from-IsCString filename filename filename_text filename_text in
    let by_name =
      search_replacement-sorted qsort st.filename_replacements segment sort ok.named segment_text in
    let by_path =
      search_replacement-sorted qsort st.replacements filename sort ok.full filename_text in
    elim (Option-cases (find_disc (to_lowercase segment) st.filename_replacements)) [
      | inl no_name ↦ (
        find_disc (to_lowercase filename) st.replacements,
        rw (by_name, no_name) by_path,
        rw no_name,
      )
      | inr (n, named) ↦
          let (p, at) =
            path_at-some st.sd_files n (ok.named_range (to_lowercase segment) n named) in
          (some n, rw (by_name, named), rw (named, at))
    ]

-- The DVD functions look a path up in what the loader built, and find exactly what the enabled file
-- patches replace it by, in whatever order the C library's sort put them and whatever hashes paths
-- share; the lookup reads nothing out of range and ends.
pub resolve_path-build_disc :
    (qsort : List Replacement → List Replacement) (st : Loader) (disc : Disc) (path : Bytes)
    → IsSort qsort
    → IsLoader st
    → IsCString path
    → build_disc qsort st ≡ done disc
    → (o : Option ℕ) × (resolve_path disc path ≡ done o)
      × (external_at disc.sd_files o ≡ replacement_of st path)
unfolding build_disc
resolve_path-build_disc qsort st disc path sort ok text e =
    elim (Bool-cases
      (ltb global_max_folder_files (length st.replacements + length st.filename_replacements))) [
        | inl many ↦ absurd (cc (rw many at e))
        | inr fits ↦
            subst
              (λ (d : Disc).
                (o : Option ℕ) × (resolve_path d path ≡ done o)
                × (external_at d.sd_files o ≡ replacement_of st path))
              (done-inj (rw fits at e)) (resolve_path-sorted qsort st path sort ok text)
      ]
