-- ===== src/PatchLoader/Patches.antt =====
-- What a file patch of source/loader/riivo_patch_loader.c changes: by which file of the SD card a
-- path is replaced.
use rr_launcher.Prelude.{
  ℕ, ◌≡◌, refl, ap, ◌∙◌, Bool, true, false, not, ◌&&◌, ◌||◌, Option, none, some, [], ◌∷◌, ◌++◌,
  length, length-append, if◌then◌else◌, Bytes, codes, bytes_eq, arith, Bool-cases, Option-cases,
  inl, inr,
}
use rr_launcher.Hash.{hash_string}
use rr_launcher.Riivo.{Replacement}
use rr_launcher.Dvd.Search.{strip_slash}
use rr_launcher.Dvd.Search.Linear.{IsRegistered}
use rr_launcher.PatchLoader.{
  Loader, find_sd_file, is_absolute, is_apple_double, register, add_sd_file, handle_file_patch,
  remove_replacement,
}
use rr_launcher.PatchLoader.Register.{register-IsIndex}
use rr_launcher.PatchLoader.Files.{
  path_at, external_of, IsLoader, IsPath, strip_slash-IsPath, path_at-last, find_sd_file-path,
  external_of-grow, replaced-InRange, external_of-replaced,
}

-- From `st` to `st'`, exactly `disc` has come to be replaced, by `external`: as a full path if
-- `as_path`, as a filename if `as_name`.
pub record IsReplaced (as_path as_name : Bool) (disc external : Bytes) (st st' : Loader)
    : Type 0 where
  pub loader : IsLoader st'
  pub full :
      (d : Bytes)
      → external_of st'.sd_files st'.replacements d ≡ (
          if as_path && bytes_eq disc d
          then some external
          else external_of st.sd_files st.replacements d)
  pub named :
      (d : Bytes)
      → external_of st'.sd_files st'.filename_replacements d ≡ (
          if as_name && bytes_eq disc d
          then some external
          else external_of st.sd_files st.filename_replacements d)

register-IsReplaced :
    (st : Loader) (disc external : Bytes) (n : ℕ)
    → IsLoader st
    → IsPath disc
    → path_at st.sd_files n ≡ some external
    → IsReplaced
        (is_absolute disc)
        (not (is_absolute disc))
        (strip_slash disc)
        external
        st
        (register st disc n)
unfolding register
register-IsReplaced st disc external n ok p at =
    let new : Replacement = record {
      disc = strip_slash disc;
      hash = hash_string (strip_slash disc);
      entrynum = n;
    } in
    let stripped = strip_slash-IsPath disc p in
    let reg : IsRegistered new = record {
      folded = stripped.folded;
      hashed = refl;
      text = stripped.text;
    } in
    elim (Bool-cases (is_absolute disc)) [
      | inl absolute ↦
          let (ix, found) = register-IsIndex st.replacements new ok.full reg in
          let rs' = remove_replacement st.replacements new ++ new ∷ [] in
          rw absolute (record {
            loader = record {
              full = ix;
              named = ok.named;
              full_range =
                  replaced-InRange st.sd_files st.replacements rs' (strip_slash disc) external n
                    found at ok.full_range;
              named_range = ok.named_range;
            };
            full =
                external_of-replaced st.sd_files st.replacements rs' (strip_slash disc) external n
                  found at;
            named = λ d. refl;
          })
      | inr relative ↦
          let (ix, found) = register-IsIndex st.filename_replacements new ok.named reg in
          let rs' = remove_replacement st.filename_replacements new ++ new ∷ [] in
          rw relative (record {
            loader = record {
              full = ok.full;
              named = ix;
              full_range = ok.full_range;
              named_range =
                  replaced-InRange st.sd_files st.filename_replacements rs' (strip_slash disc)
                    external n found at ok.named_range;
            };
            full = λ d. refl;
            named =
                external_of-replaced st.sd_files st.filename_replacements rs' (strip_slash disc)
                  external n found at;
          })
    ]

is_listed : Option ℕ → Bool
is_listed none = false
is_listed (some n) = true

-- Whether a file patch is taken up: not for the main DOL, not for a file of macOS, and, where the
-- SD file is to be checked and is not yet listed, only if it can be opened.
pub is_taken : (Bytes → Bool) → Loader → Bytes → Bytes → Bool → Bool
is_taken exists st disc external check_exists =
    not (bytes_eq disc (codes "main.dol"))
    && (not (is_apple_double disc)
        && (is_listed (find_sd_file st.sd_files external) || (not check_exists || exists external)))

add_sd_file-IsLoader :
    (st : Loader) (external : Bytes) → IsLoader st → IsLoader (add_sd_file st external)
unfolding add_sd_file
add_sd_file-IsLoader st external ok = record {
  full = ok.full;
  named = ok.named;
  full_range = λ d n e. omega (arith, ok.full_range d n e, length-append {0} st.sd_files _);
  named_range = λ d n e. omega (arith, ok.named_range d n e, length-append {0} st.sd_files _);
}

add_sd_file-last :
    (st : Loader) (external : Bytes)
    → path_at (add_sd_file st external).sd_files (length st.sd_files) ≡ some external
unfolding add_sd_file
add_sd_file-last st external = path_at-last st.sd_files _

not_taken : (check found : Bool) → (check && not found) ≡ true → (not check || found) ≡ false
not_taken check found e = ground arith

taken : (check found : Bool) → (check && not found) ≡ false → (not check || found) ≡ true
taken check found e = ground arith

add_sd_file-IsReplaced :
    {as_path as_name : Bool} {disc external : Bytes} (st st' : Loader) (listed : Bytes)
    → IsLoader st
    → IsReplaced as_path as_name disc external (add_sd_file st listed) st'
    → IsReplaced as_path as_name disc external st st'
unfolding add_sd_file
add_sd_file-IsReplaced {as_path} {as_name} {disc} {external} st st' listed ok r =
    let files = record { path = listed; file_info = none } ∷ [] in
    record {
      loader = r.loader;
      full = λ d.
          r.full d
          ∙ ap (λ o. if as_path && bytes_eq disc d then some external else o)
              (external_of-grow st.sd_files files st.replacements d ok.full_range);
      named = λ d.
          r.named d
          ∙ ap (λ o. if as_name && bytes_eq disc d then some external else o)
              (external_of-grow st.sd_files files st.filename_replacements d ok.named_range);
    }

unchanged :
    (st : Loader) (disc external : Bytes) (dol : Option Bytes)
    → IsLoader st
    → IsReplaced false false disc external st (record st { main_dol_path = dol })
unchanged st disc external dol ok = record {
  loader = record {
    full = ok.full;
    named = ok.named;
    full_range = ok.full_range;
    named_range = ok.named_range;
  };
  full = λ d. refl;
  named = λ d. refl;
}

-- A file patch keeps the loader's invariant. Where it is taken up, exactly its path, without a slash
-- at the front, comes to be replaced, by its SD file: as a full path if there was a slash, as a
-- filename if not. Where it is not, nothing comes to be replaced.
pub handle_file_patch-IsReplaced :
    (exists : Bytes → Bool) (st : Loader) (disc external : Bytes) (check_exists : Bool)
    → IsLoader st
    → IsPath disc
    → IsReplaced
        (is_taken exists st disc external check_exists && is_absolute disc)
        (is_taken exists st disc external check_exists && not (is_absolute disc))
        (strip_slash disc)
        external
        st
        (handle_file_patch exists st disc external check_exists)
unfolding handle_file_patch is_taken is_listed
handle_file_patch-IsReplaced exists st disc external check_exists ok p =
    elim (Bool-cases (bytes_eq disc (codes "main.dol"))) [
      | inl dol ↦ rw dol (unchanged st (strip_slash disc) external (some external) ok)
      | inr no_dol ↦ elim (Bool-cases (is_apple_double disc)) [
        | inl apple ↦
            rw (no_dol, apple) (unchanged st (strip_slash disc) external st.main_dol_path ok)
        | inr no_apple ↦ elim (Option-cases (find_sd_file st.sd_files external)) [
          | inr (n, at) ↦
              rw (no_dol, no_apple, at)
                (register-IsReplaced st disc external n ok p
                  (find_sd_file-path st.sd_files external n at))
          | inl new ↦ elim (Bool-cases (check_exists && not (exists external))) [
            | inl missing ↦
                rw
                  (no_dol, no_apple, new, missing, not_taken check_exists (exists external) missing)
                  (unchanged st (strip_slash disc) external st.main_dol_path ok)
            | inr found ↦
                rw (no_dol, no_apple, new, found, taken check_exists (exists external) found)
                  (add_sd_file-IsReplaced st _ external ok (
                    register-IsReplaced (add_sd_file st external) disc external (length st.sd_files)
                      (add_sd_file-IsLoader st external ok) p (add_sd_file-last st external)))
          ]
        ]
      ]
    ]
