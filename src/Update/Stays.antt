-- ===== src/Update/Stays.antt =====
-- What the unpacking of source/update/update.c keeps: any relation between the card before and after that
-- its single steps are in.
use mathlib.Core.List.{append_assoc}
use rr_launcher.Prelude.{
  ℕ, ◌+◌, ◌%◌, ◌^◌, ◌<◌, ◌≡◌, refl, sym, subst, length-append, Bool, true, false, not,
  if◌then◌else◌, ltb, ◌==◌, Bool-cases, inl, inr, Option, none, some, List, [], ◌∷◌, ◌++◌, length,
  Bytes, String, arith,
}
use rr_launcher.Result.{Outcome, done, error, fatal, fault, ErrorSource, assert}
use rr_launcher.Update.{
  made_dir, created, wrote, ZipEntry, MadeDir, made, existed, no_dir, OpenedOut, opened,
  no_directory, not_opened, Log, Host, World, Run, carry_on, ◌&>=◌, ◌&>◌, ask, act, fail_if, skip,
}
use rr_launcher.Update.Extract.{
  make_dir, make_dirs, from_second, mkdir_recursive, path_is_safe, misc, uncompressed_size,
  reopened, first_opened, open_output, write_chunks, ends_in_slash, extract_file, extract_entry,
  extract_entries, extract_from, extract_zip_archive,
}

-- A relation that holds of no step and of steps one after the other.
pub record IsPreorder (R : World → World → Type 0) : Type 0 where
  pub same : (w : World) → R w w
  pub both : {u v w : World} → R u v → R v w → R u w

abbrev pub Stays {ℓ} : (World → World → Type 0) → {A : Type ℓ} → Run A → Type 0
Stays R m = (w : World) → R w (m w).1

pub passes : (b : Bool) → not b ≡ false → b ≡ true
passes true e = refl
passes false e = cc

module _ (R : World → World → Type 0) (p : IsPreorder R) where
  carry_on-Stays {ℓ κ} :
      {A : Type ℓ} {B : Type κ} (k : A → Run B) (u : World) (r : Outcome A × World)
      → ((a : A) → Stays R (k a))
      → R u r.1
      → R u (carry_on k r).1
  carry_on-Stays k u (done a, w) h s = p.both s (h a w)
  carry_on-Stays k u (error source context, w) h s = s
  carry_on-Stays k u (fatal message, w) h s = s
  carry_on-Stays k u (fault, w) h s = s

  pub bind-Stays {ℓ κ} :
      {A : Type ℓ} {B : Type κ} (m : Run A) (k : A → Run B)
      → Stays R m
      → ((a : A) → Stays R (k a))
      → Stays R (m &>= k)
  bind-Stays m k s h w = carry_on-Stays k w (m w) h (s w)

  pub fail_if-Stays :
      (b : Bool) (source : ErrorSource) (context : String) → Stays R (fail_if b source context)
  fail_if-Stays true source context w = p.same w
  fail_if-Stays false source context w = p.same w

  pub guard-Stays {ℓ} :
      {A : Type ℓ} (b : Bool) (source : ErrorSource) (context : String) (k : Run A)
      → (b ≡ false → Stays R k)
      → Stays R (fail_if b source context &> k)
  guard-Stays true source context k h w = p.same w
  guard-Stays false source context k h w = h refl w

  pub ask-Stays {ℓ κ} :
      {A : Type ℓ} {B : Type κ} (f : Log → A) (k : A → Run B)
      → ((a : A) → Stays R (k a))
      → Stays R (ask f &>= k)
  ask-Stays f k h w = h (f w.log) w

  -- `rrc_sd_get_free_space`
  pub space-Stays {ℓ} :
      {A : Type ℓ} (f : Log → Outcome ℕ) (k : ℕ → Run A)
      → ((n : ℕ) → Stays R (k n))
      → Stays R ((λ w. (f w.log, w)) &>= k)
  space-Stays f k h w = carry_on-Stays k w (f w.log, w) h (p.same w)

  -- What is done for a file, if each effect on a path that `Q` holds of is in the relation, and `Q` holds
  -- of the directories above.
  module _ (host : Host) (Q : Bytes → Type 0)
      (Q-prefix : (before rest : Bytes) → 0 < length before → Q (before ++ rest) → Q before)
      (on_dir : (path : Bytes) → Q path → Stays R (act (made_dir path)))
      (on_created : (path : Bytes) → Q path → Stays R (act (created path)))
      (on_wrote : (path chunk : Bytes) → Q path → Stays R (act (wrote path chunk))) where
    make_dir-Stays : (path : Bytes) (r : MadeDir) → Q path → Stays R (make_dir path r)
    make_dir-Stays path made q w = on_dir path q w
    make_dir-Stays path existed q w = p.same w
    make_dir-Stays path no_dir q w = p.same w

    make_dirs-Stays :
        (before rest : Bytes)
        → 0 < length before
        → Q (before ++ rest)
        → Stays R (make_dirs host before rest)
    unfolding make_dirs
    make_dirs-Stays before [] h q w = p.same w
    make_dirs-Stays before (c ∷ rest) h q w =
        let longer = before ++ (c ∷ []) in
        let onward : Stays R (make_dirs host longer rest) =
          make_dirs-Stays longer rest (omega (arith, length-append {0} before (c ∷ [])))
            (subst Q (sym (append_assoc before (c ∷ []) rest)) q) in
        elim (Bool-cases (c == 47)) [
          | inr other ↦ rw other (onward w)
          | inl slash ↦ rw slash (
              bind-Stays (ask (λ log. host.mkdir log before) &>= make_dir before)
                (λ _. make_dirs host longer rest)
                (ask-Stays (λ log. host.mkdir log before) (make_dir before)
                  (λ r. make_dir-Stays before r (Q-prefix before (c ∷ rest) h q)))
                (λ _. onward) w)
        ]

    from_second-Stays : (fp : Bytes) → Q fp → Stays R (from_second host fp)
    from_second-Stays [] q w = p.same w
    from_second-Stays (c ∷ rest) q w = make_dirs-Stays (c ∷ []) rest (omega arith) q w

    pub mkdir_recursive-Stays : (fp : Bytes) → Q fp → Stays R (mkdir_recursive host fp)
    unfolding mkdir_recursive
    mkdir_recursive-Stays fp q w =
        carry_on-Stays (λ _. from_second host fp) w
          (assert (ltb (length fp) host.path_max) "path should never be longer than PATH_MAX", w)
          (λ _. from_second-Stays fp q) (p.same w)

    reopened-Stays : (path : Bytes) (r : OpenedOut) → Q path → Stays R (reopened path r)
    reopened-Stays path opened q w = on_created path q w
    reopened-Stays path no_directory q w = p.same w
    reopened-Stays path not_opened q w = p.same w

    first_opened-Stays :
        (path : Bytes) (r : OpenedOut) → Q path → Stays R (first_opened host path r)
    first_opened-Stays path opened q w = on_created path q w
    first_opened-Stays path no_directory q w =
        bind-Stays (mkdir_recursive host path)
          (λ _. ask (λ log. host.open_out log path) &>= reopened path)
          (mkdir_recursive-Stays path q)
          (λ _.
            ask-Stays (λ log. host.open_out log path) (reopened path)
              (λ r. reopened-Stays path r q))
          w
    first_opened-Stays path not_opened q w = p.same w

    open_output-Stays : (path : Bytes) → Q path → Stays R (open_output host path)
    unfolding open_output
    open_output-Stays path q =
        ask-Stays (λ log. host.open_out log path) (first_opened host path)
          (λ r. first_opened-Stays path r q)

    write_chunks-Stays :
        (path : Bytes) (chunks : List Bytes) → Q path → Stays R (write_chunks host path chunks)
    unfolding write_chunks
    write_chunks-Stays path [] q = p.same
    write_chunks-Stays path (chunk ∷ chunks) q =
        ask-Stays (λ log. host.accepts log chunk)
          (λ written.
            act (wrote path chunk)
            &> fail_if (not (written == length chunk)) ErrorSource.errno
                "Failed to fully write ZIP chunk"
            &> write_chunks host path chunks)
          (λ written.
            bind-Stays (act (wrote path chunk))
              (λ _.
                fail_if (not (written == length chunk)) ErrorSource.errno
                  "Failed to fully write ZIP chunk"
                &> write_chunks host path chunks)
              (on_wrote path chunk q)
              (λ _.
                guard-Stays (not (written == length chunk)) ErrorSource.errno
                  "Failed to fully write ZIP chunk" (write_chunks host path chunks)
                  (λ _. write_chunks-Stays path chunks q)))

    extract_file-Stays : (e : ZipEntry) → Q e.name → Stays R (extract_file host e)
    unfolding extract_file
    extract_file-Stays e q =
        let end = fail_if (not e.read_ok) ErrorSource.errno "Failed to write ZIP chunk" in
        let chunks = write_chunks host e.name e.chunks &> end in
        guard-Stays (not e.opens) ErrorSource.update_misc "Failed to open file in ZIP archive"
          (open_output host e.name &> chunks)
          (λ _.
            bind-Stays (open_output host e.name) (λ _. chunks) (open_output-Stays e.name q)
              (λ _.
                bind-Stays (write_chunks host e.name e.chunks) (λ _. end)
                  (write_chunks-Stays e.name e.chunks q)
                  (λ _.
                    fail_if-Stays (not e.read_ok) ErrorSource.errno "Failed to write ZIP chunk")))

    if-Stays :
        (b : Bool) (x y : Run (Unit {0})) → Stays R x → Stays R y → Stays R (if b then x else y)
    if-Stays true x y s t = s
    if-Stays false x y s t = t

    module _ (safe : (name : Bytes) → path_is_safe name ≡ true → Q name) where
      -- An entry is unpacked only after the test of its path.
      extract_entry-Stays : (e : ZipEntry) → Stays R (extract_entry host e)
      unfolding extract_entry
      extract_entry-Stays e =
          let after_space : ℕ → Run (Unit {0}) = λ sd_free.
            misc (ltb sd_free e.size) "Not enough free space on SD card to extract file."
            &> (if ends_in_slash e.name then skip else extract_file host e) in
          let space = (λ w. (host.free_space w.log, w)) &>= after_space in
          let path_test =
            misc (not (path_is_safe e.name)) "ZIP archive entry has an unsafe file path" &> space in
          let name_test = misc (length e.name == 0) "Empty file name in ZIP archive" &> path_test in
          let valid_test =
            misc (not e.valid) "ZIP Archive entry contains invalid attributes" &> name_test in
          guard-Stays (not e.stats) ErrorSource.zip "Failed to stat file in archive" valid_test
            (λ _.
              guard-Stays (not e.valid) ErrorSource.update_misc
                "ZIP Archive entry contains invalid attributes" name_test
                (λ _.
                  guard-Stays (length e.name == 0) ErrorSource.update_misc
                    "Empty file name in ZIP archive" path_test
                    (λ _.
                      guard-Stays (not (path_is_safe e.name)) ErrorSource.update_misc
                        "ZIP archive entry has an unsafe file path" space
                        (λ tested. space-Stays host.free_space after_space (λ sd_free.
                          guard-Stays (ltb sd_free e.size) ErrorSource.update_misc
                            "Not enough free space on SD card to extract file."
                            (if ends_in_slash e.name then skip else extract_file host e)
                            (λ _.
                              if-Stays (ends_in_slash e.name) skip (extract_file host e) p.same (
                                extract_file-Stays e
                                  (safe e.name (passes (path_is_safe e.name) tested)))))))))

      extract_entries-Stays : (entries : List ZipEntry) → Stays R (extract_entries host entries)
      unfolding extract_entries
      extract_entries-Stays [] = p.same
      extract_entries-Stays (e ∷ entries) =
          bind-Stays (extract_entry host e) (λ _. extract_entries host entries)
            (extract_entry-Stays e) (λ _. extract_entries-Stays entries)

      uncompressed_size-Stays :
          (entries : List ZipEntry) (total : ℕ) → Stays R (uncompressed_size entries total)
      unfolding uncompressed_size
      uncompressed_size-Stays [] total = p.same
      uncompressed_size-Stays (e ∷ entries) total =
          let next = if e.valid_size then (total + e.size) % 2 ^ 64 else total in
          guard-Stays (not e.stats) ErrorSource.zip "Failed to stat file in archive"
            (uncompressed_size entries next) (λ _. uncompressed_size-Stays entries next)

      extract_from-Stays : (archive : Option (List ZipEntry)) → Stays R (extract_from host archive)
      extract_from-Stays none = p.same
      extract_from-Stays (some entries) =
          let after_space : ℕ → ℕ → Run (Unit {0}) = λ size sd_free.
            misc (ltb sd_free size) "Not enough free space on SD card to extract update."
            &> extract_entries host entries in
          bind-Stays (uncompressed_size entries 0)
            (λ size. (λ w. (host.free_space w.log, w)) &>= after_space size)
            (uncompressed_size-Stays entries 0)
            (λ size. space-Stays host.free_space (after_space size) (λ sd_free.
              guard-Stays (ltb sd_free size) ErrorSource.update_misc
                "Not enough free space on SD card to extract update." (extract_entries host entries)
                (λ _. extract_entries-Stays entries)))

      pub extract_zip_archive-Stays : Stays R (extract_zip_archive host)
      unfolding extract_zip_archive
      extract_zip_archive-Stays =
          ask-Stays (λ log. host.archive log) (extract_from host) extract_from-Stays
