-- ===== src/Update/Unpacking.antt =====
-- An archive that source/update/update.c unpacks without an error is unpacked whole.
use mathlib.Core.List.{append_assoc}
use rr_launcher.Prelude.{
  ℕ, ◌+◌, ◌%◌, ◌^◌, ◌≡◌, ◌⊎◌, refl, sym, ap, subst, ◌∙◌, Bool, true, false, not, if◌then◌else◌, ltb,
  ◌==◌, ==_iff, inl, inr, Option, none, some, List, [], ◌∷◌, ◌++◌, length, Bytes,
}
use rr_launcher.Result.{Outcome, done, error, fatal, fault, ErrorSource}
use rr_launcher.Update.{
  made_dir, created, wrote, Log, ZipEntry, OpenedOut, opened, no_directory, not_opened, Host, World,
  Run, carry_on, ◌&>=◌, ◌&>◌, ask, fail_if, skip,
}
use rr_launcher.Update.Extract.{
  mkdir_recursive, path_is_safe, misc, uncompressed_size, reopened, first_opened, open_output,
  write_chunks, ends_in_slash, extract_file, extract_entry, extract_entries, extract_from,
  extract_zip_archive,
}
use rr_launcher.Update.Stays.{IsPreorder, Stays, mkdir_recursive-Stays, passes}
use rr_launcher.Update.Installed.{
  Written, Unpacked, Extracted, Post, bind-Post, Post-map, guard-Post, fail_if-Post, space-Post,
}

-- The log only grows.
Grows : World → World → Type 0
Grows u v = (new : Log) × (v.log ≡ new ++ u.log)

Grows-IsPreorder : IsPreorder Grows
unfolding Grows
Grows-IsPreorder = record {
  same = λ w. ([], refl);
  both = λ {u} {v} {w} (new, e) (new2, e2).
      (new2 ++ new, e2 ∙ ap (λ (l : Log). new2 ++ l) e ∙ sym (append_assoc new2 new u.log));
}

module _ (host : Host) where
  write_chunks-Written :
      (path : Bytes) (chunks : List Bytes) (w : World)
      → Post (λ _ v. Written host path chunks w.log v.log) (write_chunks host path chunks w)
  unfolding write_chunks
  write_chunks-Written path [] w = refl
  write_chunks-Written path (chunk ∷ chunks) w =
      let written = host.accepts w.log chunk in
      let next : World = record { log = wrote path chunk ∷ w.log; version_file = w.version_file } in
      guard-Post (λ _ v. Written host path (chunk ∷ chunks) w.log v.log)
        (not (written == length chunk)) ErrorSource.errno "Failed to fully write ZIP chunk"
        (write_chunks host path chunks) next
        (λ e.
          Post-map (λ _ v. Written host path chunks next.log v.log)
            (λ _ v. Written host path (chunk ∷ chunks) w.log v.log)
            (write_chunks host path chunks next)
            (λ _ v more.
              ((==_iff written (length chunk)).0 (passes (written == length chunk) e), more))
            (write_chunks-Written path chunks next))

  mkdir_recursive-Grows : (path : Bytes) → Stays Grows (mkdir_recursive host path)
  unfolding Grows
  mkdir_recursive-Grows path =
      mkdir_recursive-Stays Grows Grows-IsPreorder host (λ _. Unit) (λ before rest h q. tt)
        (λ path q w. (made_dir path ∷ [], refl)) (λ path q w. (created path ∷ [], refl))
        (λ path chunk q w. (wrote path chunk ∷ [], refl)) path tt

  Opened : Bytes → World → Unit {0} → World → Type 0
  Opened path w _ v = (dirs : Log) × (v.log ≡ created path ∷ (dirs ++ w.log))

  reopened-Opened :
      (path : Bytes) (r : OpenedOut) (w v : World)
      → Grows w v
      → Post (Opened path w) (reopened path r v)
  unfolding Opened Grows
  reopened-Opened path opened w v (new, e) = (new, ap (λ (l : Log). created path ∷ l) e)
  reopened-Opened path no_directory w v g = tt
  reopened-Opened path not_opened w v g = tt

  first_opened-Opened :
      (path : Bytes) (r : OpenedOut) (w : World) → Post (Opened path w) (first_opened host path r w)
  unfolding Opened
  first_opened-Opened path opened w = ([], refl)
  first_opened-Opened path no_directory w =
      grown (mkdir_recursive host path w) (mkdir_recursive-Grows path w)
    where
      grown :
          (r : Outcome (Unit {0}) × World)
          → Grows w r.1
          → Post
              (Opened path w)
              (carry_on (λ _. ask (λ log. host.open_out log path) &>= reopened path) r)
      grown (done u, v) g = reopened-Opened path (host.open_out v.log path) w v g
      grown (error source context, v) g = tt
      grown (fatal message, v) g = tt
      grown (fault, v) g = tt
  first_opened-Opened path not_opened w = tt

  extract_file-Unpacked :
      (e : ZipEntry) (w : World) → Post (λ _ v. Unpacked host e w.log v.log) (extract_file host e w)
  unfolding extract_file open_output Opened
  extract_file-Unpacked e w =
      let Q : Unit {0} → World → Type 0 = λ _ v. Unpacked host e w.log v.log in
      let read : Run (Unit {0}) =
        fail_if (not e.read_ok) ErrorSource.errno "Failed to write ZIP chunk" in
      guard-Post Q (not e.opens) ErrorSource.update_misc "Failed to open file in ZIP archive"
        (open_output host e.name &> write_chunks host e.name e.chunks &> read) w
        (λ _.
          bind-Post Q (Opened e.name w) (λ _. write_chunks host e.name e.chunks &> read)
            (open_output host e.name w) (first_opened-Opened e.name (host.open_out w.log e.name) w)
            (λ _ v (dirs, there).
              bind-Post Q (λ _ u. Written host e.name e.chunks v.log u.log) (λ _. read)
                (write_chunks host e.name e.chunks v) (write_chunks-Written e.name e.chunks v)
                (λ _ u written.
                  fail_if-Post Q (not e.read_ok) ErrorSource.errno "Failed to write ZIP chunk" u
                    (λ ok. (
                      dirs,
                      subst (λ (l : Log). Written host e.name e.chunks l u.log) there written,
                      passes e.read_ok ok,
                    )))))

  file_or_none-Extracted :
      (e : ZipEntry) (w : World) (is_dir : Bool)
      → Post
          (λ _ v.
            ((is_dir ≡ true) × (v.log ≡ w.log)) ⊎ ((is_dir ≡ false) × Unpacked host e w.log v.log))
          ((if is_dir then skip else extract_file host e) w)
  file_or_none-Extracted e w true = inl (refl, refl)
  file_or_none-Extracted e w false =
      Post-map (λ _ v. Unpacked host e w.log v.log)
        (λ _ v.
          ((false ≡ true) × (v.log ≡ w.log)) ⊎ ((false ≡ false) × Unpacked host e w.log v.log))
        (extract_file host e w) (λ _ v done. inr (refl, done)) (extract_file-Unpacked e w)

  extract_entry-Extracted :
      (e : ZipEntry) (w : World)
      → Post
          (λ _ v.
            ((ends_in_slash e.name ≡ true) × (v.log ≡ w.log))
            ⊎ ((ends_in_slash e.name ≡ false) × Unpacked host e w.log v.log))
          (extract_entry host e w)
  unfolding extract_entry
  extract_entry-Extracted e w =
      let Q : Unit {0} → World → Type 0 = λ _ v.
        ((ends_in_slash e.name ≡ true) × (v.log ≡ w.log))
        ⊎ ((ends_in_slash e.name ≡ false) × Unpacked host e w.log v.log) in
      let file : Run (Unit {0}) = if ends_in_slash e.name then skip else extract_file host e in
      let room : ℕ → Run (Unit {0}) = λ sd_free.
        misc (ltb sd_free e.size) "Not enough free space on SD card to extract file." &> file in
      let space : Run (Unit {0}) = (λ w. (host.free_space w.log, w)) &>= room in
      let safe : Run (Unit {0}) =
        misc (not (path_is_safe e.name)) "ZIP archive entry has an unsafe file path" &> space in
      let named : Run (Unit {0}) =
        misc (length e.name == 0) "Empty file name in ZIP archive" &> safe in
      let valid : Run (Unit {0}) =
        misc (not e.valid) "ZIP Archive entry contains invalid attributes" &> named in
      guard-Post Q (not e.stats) ErrorSource.zip "Failed to stat file in archive" valid w (λ _.
        guard-Post Q (not e.valid) ErrorSource.update_misc
          "ZIP Archive entry contains invalid attributes" named w
          (λ _.
            guard-Post Q (length e.name == 0) ErrorSource.update_misc
              "Empty file name in ZIP archive" safe w
              (λ _.
                guard-Post Q (not (path_is_safe e.name)) ErrorSource.update_misc
                  "ZIP archive entry has an unsafe file path" space w
                  (λ _. space-Post Q (host.free_space w.log) room w (λ sd_free.
                    guard-Post Q (ltb sd_free e.size) ErrorSource.update_misc
                      "Not enough free space on SD card to extract file." file w
                      (λ _. file_or_none-Extracted e w (ends_in_slash e.name)))))))

  extract_entries-Extracted :
      (entries : List ZipEntry) (w : World)
      → Post (λ _ v. Extracted host entries w.log v.log) (extract_entries host entries w)
  unfolding extract_entries
  extract_entries-Extracted [] w = refl
  extract_entries-Extracted (e ∷ entries) w =
      let Q : Unit {0} → World → Type 0 = λ _ v. Extracted host (e ∷ entries) w.log v.log in
      bind-Post Q
        (λ _ v.
          ((ends_in_slash e.name ≡ true) × (v.log ≡ w.log))
          ⊎ ((ends_in_slash e.name ≡ false) × Unpacked host e w.log v.log))
        (λ _. extract_entries host entries) (extract_entry host e w) (extract_entry-Extracted e w)
        (λ _ v one.
          Post-map (λ _ u. Extracted host entries v.log u.log) Q (extract_entries host entries v)
            (λ _ u more. (v.log, one, more)) (extract_entries-Extracted entries v))

  uncompressed_size-same :
      (entries : List ZipEntry) (total : ℕ) (w : World)
      → Post (λ _ v. v ≡ w) (uncompressed_size entries total w)
  unfolding uncompressed_size
  uncompressed_size-same [] total w = refl
  uncompressed_size-same (e ∷ entries) total w =
      guard-Post (λ _ v. v ≡ w) (not e.stats) ErrorSource.zip "Failed to stat file in archive"
        (uncompressed_size entries (if e.valid_size then (total + e.size) % 2 ^ 64 else total)) w
        (λ _.
          uncompressed_size-same entries (if e.valid_size then (total + e.size) % 2 ^ 64 else total)
            w)

  pub extract_zip_archive-Extracted :
      (w : World)
      → Post
          (λ _ v.
            (entries : List ZipEntry) × (host.archive w.log ≡ some entries)
            × Extracted host entries w.log v.log)
          (extract_zip_archive host w)
  unfolding extract_zip_archive
  extract_zip_archive-Extracted w = opened_as (host.archive w.log)
    where
      opened_as :
          (archive : Option (List ZipEntry))
          → Post
              (λ _ v.
                (entries : List ZipEntry) × (archive ≡ some entries)
                × Extracted host entries w.log v.log)
              (extract_from host archive w)
      opened_as none = tt
      opened_as (some entries) =
          let Q : Unit {0} → World → Type 0 = λ _ v.
            (entries' : List ZipEntry) × (some entries ≡ some entries')
            × Extracted host entries' w.log v.log in
          let room : ℕ → ℕ → Run (Unit {0}) = λ size sd_free.
            misc (ltb sd_free size) "Not enough free space on SD card to extract update."
            &> extract_entries host entries in
          bind-Post Q (λ _ v. v ≡ w) (λ size. (λ w. (host.free_space w.log, w)) &>= room size)
            (uncompressed_size entries 0 w) (uncompressed_size-same entries 0 w)
            (λ size v same. space-Post Q (host.free_space v.log) (room size) v (λ sd_free.
              guard-Post Q (ltb sd_free size) ErrorSource.update_misc
                "Not enough free space on SD card to extract update." (extract_entries host entries)
                v
                (λ _.
                  Post-map (λ _ u. Extracted host entries v.log u.log) Q
                    (extract_entries host entries v)
                    (λ _ u all. (
                      entries,
                      refl,
                      subst (λ (t : World). Extracted host entries t.log u.log) same all,
                    ))
                    (extract_entries-Extracted entries v))))
