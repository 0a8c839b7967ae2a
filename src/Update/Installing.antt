-- ===== src/Update/Installing.antt =====
-- Each step of an update of source/update/update.c that succeeds has installed what it should.
use rr_launcher.Prelude.{
  ℕ, ◌≡◌, ◌⊎◌, refl, ap, subst, ◌∙◌, Bool, true, false, not, if◌then◌else◌, ltb, inl, inr, Option,
  none, some, List, [], ◌∷◌, Bytes,
}
use rr_launcher.Prelude.Int.{ℤ}
use rr_launcher.Result.{ErrorSource}
use rr_launcher.Version.{Version, equals}
use rr_launcher.VersionsFile.{Entry}
use rr_launcher.Update.{
  downloaded, removed, Removal, gone, absent, stuck, Log, ZipEntry, Host, World, Run, ◌&>=◌, ◌&>◌,
  ask, act, fail_if,
}
use rr_launcher.Update.Extract.{misc, extract_zip_archive}
use rr_launcher.Update.Loop.{
  zip_name, download_zip, size_or_fail, to_u64, after_removal, remove_deleted, zip_removed, install,
  fetch_and_install,
}
use rr_launcher.Update.Stays.{passes}
use rr_launcher.Update.Unpacking.{extract_zip_archive-Extracted}
use rr_launcher.Update.Installed.{
  Extracted, Removed, Deleted, Installed, Post, bind-Post, Post-map, guard-Post, fail_if-Post,
  space-Post,
}

module _ (host : Host) where
  zip_removed-log :
      (r : Removal) (w : World) → Post (λ _ v. v.log ≡ removed zip_name ∷ w.log) (zip_removed r w)
  zip_removed-log gone w = refl
  zip_removed-log absent w = tt
  zip_removed-log stuck w = tt

  after_removal-Removed :
      (path : Bytes) (r : Removal) (w : World)
      → host.remove w.log path ≡ r
      → Post (λ _ v. Removed host path w.log v.log) (after_removal path r w)
  after_removal-Removed path gone w e = inl refl
  after_removal-Removed path absent w e = inr (e, refl)
  after_removal-Removed path stuck w e = tt

  delete_one-Deleted :
      (version : Version) (file : Entry) (files : List Entry) (w : World)
      → ((v : World)
          → Post
              (λ _ u. Deleted host version files v.log u.log)
              (remove_deleted host version files v))
      → (b : Bool)
      → Post
          (λ _ v.
            (mid : Log) × (((b ≡ false) × (mid ≡ w.log))
              ⊎ ((b ≡ true) × Removed host file.target w.log mid))
            × Deleted host version files mid v.log)
          ((if b
              then ((ask (λ log. host.remove log file.target) &>= after_removal file.target)
                  &> remove_deleted host version files)
              else remove_deleted host version files)
            w)
  delete_one-Deleted version file files w later false =
      Post-map (λ _ v. Deleted host version files w.log v.log)
        (λ _ v.
          (mid : Log) × (((false ≡ false) × (mid ≡ w.log))
            ⊎ ((false ≡ true) × Removed host file.target w.log mid))
          × Deleted host version files mid v.log)
        (remove_deleted host version files w) (λ _ v more. (w.log, inl (refl, refl), more))
        (later w)
  delete_one-Deleted version file files w later true =
      let Q : Unit {0} → World → Type 0 = λ _ v.
        (mid : Log) × (((true ≡ false) × (mid ≡ w.log))
          ⊎ ((true ≡ true) × Removed host file.target w.log mid))
        × Deleted host version files mid v.log in
      bind-Post Q (λ _ v. Removed host file.target w.log v.log)
        (λ _. remove_deleted host version files)
        (after_removal file.target (host.remove w.log file.target) w)
        (after_removal-Removed file.target (host.remove w.log file.target) w refl)
        (λ _ v one.
          Post-map (λ _ u. Deleted host version files v.log u.log) Q
            (remove_deleted host version files v) (λ _ u more. (v.log, inr (refl, one), more))
            (later v))

  remove_deleted-Deleted :
      (version : Version) (files : List Entry) (w : World)
      → Post (λ _ v. Deleted host version files w.log v.log) (remove_deleted host version files w)
  unfolding remove_deleted
  remove_deleted-Deleted version [] w = refl
  remove_deleted-Deleted version (file ∷ files) w =
      delete_one-Deleted version file files w (remove_deleted-Deleted version files)
        (equals file.version version)

  Unzipped : Version → List Entry → World → Unit {0} → World → Type 0
  Unzipped version files w _ v =
      (entries : List ZipEntry) × (unpacked : Log) × (host.archive w.log ≡ some entries)
      × Extracted host entries w.log unpacked
      × Deleted host version files (removed zip_name ∷ unpacked) v.log

  install-Unzipped :
      (version : Version) (files : List Entry) (w : World)
      → Post (Unzipped version files w) (install host version files w)
  unfolding install Unzipped
  install-Unzipped version files w =
      let Q : Unit {0} → World → Type 0 = Unzipped version files w in
      let remove_zip : Run (Unit {0}) = ask (λ log. host.remove log zip_name) &>= zip_removed in
      let clean : Run (Unit {0}) = remove_zip &> remove_deleted host version files in
      guard-Post Q (not (host.zip_stats w.log)) ErrorSource.errno "Failed to stat update ZIP file"
        (extract_zip_archive host &> clean) w
        (λ _.
          bind-Post Q
            (λ _ v.
              (entries : List ZipEntry) × (host.archive w.log ≡ some entries)
              × Extracted host entries w.log v.log)
            (λ _. clean) (extract_zip_archive host w) (extract_zip_archive-Extracted host w)
            (λ _ v (entries, archive, extracted).
              bind-Post Q (λ _ u. u.log ≡ removed zip_name ∷ v.log)
                (λ _. remove_deleted host version files) (remove_zip v)
                (zip_removed-log (host.remove v.log zip_name) v)
                (λ _ u gone.
                  Post-map (λ _ t. Deleted host version files u.log t.log) Q
                    (remove_deleted host version files u)
                    (λ _ t deleted. (
                      entries,
                      v.log,
                      archive,
                      extracted,
                      subst (λ (l : Log). Deleted host version files l t.log) gone deleted,
                    ))
                    (remove_deleted-Deleted version files u))))

  Fetched : Bytes → World → Unit {0} → World → Type 0
  Fetched url w _ v = (v.log ≡ downloaded url ∷ w.log) × (host.transfers v.log url ≡ true)

  download_zip-Fetched : (url : Bytes) (w : World) → Post (Fetched url w) (download_zip host url w)
  unfolding download_zip Fetched
  download_zip-Fetched url w =
      let Q : Unit {0} → World → Type 0 = Fetched url w in
      let transfer : Run (Unit {0}) = ask (λ log. host.transfers log url) &>= λ whole.
      fail_if (not whole) ErrorSource.curl "Failed to download update ZIP" in
      let create : Run (Unit {0}) = ask (λ log. host.zip_created log) &>= λ created.
      fail_if (not created) ErrorSource.errno
        "Failed to create temporary ZIP file for update download"
      &> act (downloaded url)
      &> transfer in
      let next : World = record { log = downloaded url ∷ w.log; version_file = w.version_file } in
      guard-Post Q (not (host.curl_starts w.log)) ErrorSource.curl "Failed to init curl" create w
        (λ _.
          guard-Post Q (not (host.zip_created w.log)) ErrorSource.errno
            "Failed to create temporary ZIP file for update download"
            (act (downloaded url) &> transfer) w
            (λ _.
              fail_if-Post Q (not (host.transfers next.log url)) ErrorSource.curl
                "Failed to download update ZIP" next
                (λ e. (refl, passes (host.transfers next.log url) e))))

  size_or_fail-same : (size : Option ℤ) (w : World) → Post (λ _ v. v ≡ w) (size_or_fail size w)
  size_or_fail-same none w = tt
  size_or_fail-same (some size) w = refl

  -- An update that succeeds was installed.
  pub fetch_and_install-Installed :
      (update : Entry) (files : List Entry) (w : World)
      → Post
          (λ _ v. Installed host update files w.log v.log)
          (fetch_and_install host update.target update.version files w)
  unfolding fetch_and_install Unzipped Fetched
  fetch_and_install-Installed update files w =
      let url = update.target in
      let Q : Unit {0} → World → Type 0 = λ _ v. Installed host update files w.log v.log in
      let fetch : Run (Unit {0}) = download_zip host url &> install host update.version files in
      let after_space : ℤ → ℕ → Run (Unit {0}) = λ size sd_free.
        misc (ltb sd_free (to_u64 size)) "Not enough free space on SD card for update ZIP."
        &> fetch in
      bind-Post Q (λ _ v. v ≡ w) (λ size. (λ w. (host.free_space w.log, w)) &>= after_space size)
        (size_or_fail (host.zip_size w.log url) w) (size_or_fail-same (host.zip_size w.log url) w)
        (λ size v same. space-Post Q (host.free_space v.log) (after_space size) v (λ sd_free.
          guard-Post Q (ltb sd_free (to_u64 size)) ErrorSource.update_misc
            "Not enough free space on SD card for update ZIP." fetch v
            (λ _.
              bind-Post Q (Fetched url v) (λ _. install host update.version files)
                (download_zip host url v) (download_zip-Fetched url v)
                (λ _ u (there, whole).
                  Post-map (Unzipped update.version files u) Q (install host update.version files u)
                    (λ _ t (entries, unpacked, archive, extracted, deleted).
                      let started : u.log ≡ downloaded url ∷ w.log =
                        there ∙ ap (λ (x : World). downloaded url ∷ x.log) same in
                      record {
                        entries = entries;
                        unpacked = unpacked;
                        whole = subst (λ (l : Log). host.transfers l url ≡ true) started whole;
                        archive =
                            subst (λ (l : Log). host.archive l ≡ some entries) started archive;
                        extracted =
                            subst (λ (l : Log). Extracted host entries l unpacked) started
                              extracted;
                        deleted = deleted;
                      })
                    (install-Unzipped update.version files u)))))
