-- ===== src/Update/Unversioned.antt =====
-- What installs an update, in source/update/update.c, records no version.
use mathlib.Core.List.{append_assoc, append-nil}
use rr_launcher.Prelude.{
  ℕ, ◌≡◌, refl, sym, ap, ◌∙◌, not, ltb, Bool-cases, inl, inr, Option, none, some, List, [], ◌∷◌,
  ◌++◌, Bytes,
}
use rr_launcher.Prelude.Int.{ℤ}
use rr_launcher.Result.{ErrorSource}
use rr_launcher.Version.{Version, equals}
use rr_launcher.VersionsFile.{Entry}
use rr_launcher.Update.{
  downloaded, made_dir, created, wrote, removed, versioned, Removal, gone, absent, stuck, Log, Host,
  World, Run, ◌&>=◌, ◌&>◌, ask, act, fail_if,
}
use rr_launcher.Update.Extract.{extract_zip_archive, misc}
use rr_launcher.Update.Loop.{
  zip_name, download_zip, size_or_fail, to_u64, after_removal, remove_deleted, zip_removed, install,
  fetch_and_install,
}
use rr_launcher.Update.Stays.{
  IsPreorder, Stays, bind-Stays, fail_if-Stays, guard-Stays, ask-Stays, space-Stays,
  extract_zip_archive-Stays,
}

-- The versions that were recorded, the first one first.
unfoldable pub recorded : Log → List Version
recorded [] = []
recorded (versioned v ∷ log) = recorded log ++ (v ∷ [])
recorded (downloaded url ∷ log) = recorded log
recorded (made_dir path ∷ log) = recorded log
recorded (created path ∷ log) = recorded log
recorded (wrote path chunk ∷ log) = recorded log
recorded (removed path ∷ log) = recorded log

recorded_both : (new log : Log) → recorded (new ++ log) ≡ recorded log ++ recorded new
unfolding recorded
recorded_both [] log = sym (append-nil (recorded log))
recorded_both (versioned v ∷ new) log =
    ap (λ (l : List Version). l ++ (v ∷ [])) (recorded_both new log)
    ∙ append_assoc (recorded log) (recorded new) (v ∷ [])
recorded_both (downloaded url ∷ new) log = recorded_both new log
recorded_both (made_dir path ∷ new) log = recorded_both new log
recorded_both (created path ∷ new) log = recorded_both new log
recorded_both (wrote path chunk ∷ new) log = recorded_both new log
recorded_both (removed path ∷ new) log = recorded_both new log

pub recorded_append : (new log : Log) → recorded new ≡ [] → recorded (new ++ log) ≡ recorded log
recorded_append new log e =
    recorded_both new log
    ∙ ap (λ (l : List Version). recorded log ++ l) e
    ∙ append-nil (recorded log)

-- No version was recorded between.
abbrev pub NoVersion : World → World → Type 0
NoVersion u v = (new : Log) × (v.log ≡ new ++ u.log) × (recorded new ≡ [])

no_version : IsPreorder NoVersion
no_version = record {
  same = λ w. ([], refl, unfold recorded in refl);
  both = λ {u} {v} {w} (new, e, none_new) (new2, e2, none_new2). (
    new2 ++ new,
    e2 ∙ ap (λ (l : Log). new2 ++ l) e ∙ sym (append_assoc new2 new u.log),
    recorded_append new2 new none_new2 ∙ none_new,
  );
}

-- What installs an update records no version.
module _ (host : Host) where
  download_zip-Stays : (url : Bytes) → Stays NoVersion (download_zip host url)
  unfolding download_zip recorded
  download_zip-Stays url =
      let transfer : Run (Unit {0}) = ask (λ log. host.transfers log url) &>= λ whole.
      fail_if (not whole) ErrorSource.curl "Failed to download update ZIP" in
      let create : Run (Unit {0}) = ask (λ log. host.zip_created log) &>= λ created.
      fail_if (not created) ErrorSource.errno
        "Failed to create temporary ZIP file for update download"
      &> act (downloaded url)
      &> transfer in
      ask-Stays NoVersion no_version host.curl_starts
        (λ starts. fail_if (not starts) ErrorSource.curl "Failed to init curl" &> create)
        (λ starts.
          guard-Stays NoVersion no_version (not starts) ErrorSource.curl "Failed to init curl"
            create
            (λ _.
              ask-Stays NoVersion no_version host.zip_created
                (λ created.
                  fail_if (not created) ErrorSource.errno
                    "Failed to create temporary ZIP file for update download"
                  &> act (downloaded url)
                  &> transfer)
                (λ created.
                  guard-Stays NoVersion no_version (not created) ErrorSource.errno
                    "Failed to create temporary ZIP file for update download"
                    (act (downloaded url) &> transfer)
                    (λ _.
                      bind-Stays NoVersion no_version (act (downloaded url)) (λ _. transfer)
                        (λ w. (downloaded url ∷ [], refl, unfold recorded in refl))
                        (λ _.
                          ask-Stays NoVersion no_version (λ log. host.transfers log url)
                            (λ whole.
                              fail_if (not whole) ErrorSource.curl "Failed to download update ZIP")
                            (λ whole.
                              fail_if-Stays NoVersion no_version (not whole) ErrorSource.curl
                                "Failed to download update ZIP"))))))

  after_removal-Stays : (path : Bytes) (r : Removal) → Stays NoVersion (after_removal path r)
  unfolding recorded
  after_removal-Stays path gone w = (removed path ∷ [], refl, refl)
  after_removal-Stays path absent w = no_version.same w
  after_removal-Stays path stuck w = no_version.same w

  zip_removed-Stays : (r : Removal) → Stays NoVersion (zip_removed r)
  unfolding recorded
  zip_removed-Stays gone w = (removed zip_name ∷ [], refl, refl)
  zip_removed-Stays absent w = no_version.same w
  zip_removed-Stays stuck w = no_version.same w

  remove_deleted-Stays :
      (version : Version) (files : List Entry) → Stays NoVersion (remove_deleted host version files)
  unfolding remove_deleted
  remove_deleted-Stays version [] w = no_version.same w
  remove_deleted-Stays version (file ∷ files) w = elim (Bool-cases (equals file.version version)) [
    | inr other ↦ rw other (remove_deleted-Stays version files w)
    | inl due ↦ rw due (
        bind-Stays NoVersion no_version
          (ask (λ log. host.remove log file.target) &>= after_removal file.target)
          (λ _. remove_deleted host version files)
          (ask-Stays NoVersion no_version (λ log. host.remove log file.target)
            (after_removal file.target) (after_removal-Stays file.target))
          (λ _. remove_deleted-Stays version files) w)
  ]

  extract-Stays : Stays NoVersion (extract_zip_archive host)
  unfolding recorded
  extract-Stays =
      extract_zip_archive-Stays NoVersion no_version host (λ path. Unit) (λ before rest h q. tt)
        (λ path q w. (made_dir path ∷ [], refl, refl)) (λ path q w. (created path ∷ [], refl, refl))
        (λ path chunk q w. (wrote path chunk ∷ [], refl, refl)) (λ name safe. tt)

  install-Stays :
      (version : Version) (files : List Entry) → Stays NoVersion (install host version files)
  unfolding install
  install-Stays version files =
      let remove_zip : Run (Unit {0}) = ask (λ log. host.remove log zip_name) &>= zip_removed in
      let clean : Run (Unit {0}) = remove_zip &> remove_deleted host version files in
      ask-Stays NoVersion no_version host.zip_stats
        (λ stats.
          fail_if (not stats) ErrorSource.errno "Failed to stat update ZIP file"
          &> extract_zip_archive host
          &> clean)
        (λ stats.
          guard-Stays NoVersion no_version (not stats) ErrorSource.errno
            "Failed to stat update ZIP file" (extract_zip_archive host &> clean)
            (λ _.
              bind-Stays NoVersion no_version (extract_zip_archive host) (λ _. clean) extract-Stays
                (λ _.
                  bind-Stays NoVersion no_version remove_zip
                    (λ _. remove_deleted host version files)
                    (ask-Stays NoVersion no_version (λ log. host.remove log zip_name) zip_removed
                      zip_removed-Stays)
                    (λ _. remove_deleted-Stays version files))))

  size_or_fail-Stays : (size : Option ℤ) → Stays NoVersion (size_or_fail size)
  size_or_fail-Stays none w = no_version.same w
  size_or_fail-Stays (some size) w = no_version.same w

  pub fetch_and_install-Stays :
      (url : Bytes) (version : Version) (files : List Entry)
      → Stays NoVersion (fetch_and_install host url version files)
  unfolding fetch_and_install
  fetch_and_install-Stays url version files =
      let after_space : ℤ → ℕ → Run (Unit {0}) = λ size sd_free.
        misc (ltb sd_free (to_u64 size)) "Not enough free space on SD card for update ZIP."
        &> download_zip host url
        &> install host version files in
      bind-Stays NoVersion no_version (ask (λ log. host.zip_size log url) &>= size_or_fail)
        (λ size. (λ w. (host.free_space w.log, w)) &>= after_space size)
        (ask-Stays NoVersion no_version (λ log. host.zip_size log url) size_or_fail
          size_or_fail-Stays)
        (λ size. space-Stays NoVersion no_version host.free_space (after_space size) (λ sd_free.
          guard-Stays NoVersion no_version (ltb sd_free (to_u64 size)) ErrorSource.update_misc
            "Not enough free space on SD card for update ZIP."
            (download_zip host url &> install host version files)
            (λ _.
              bind-Stays NoVersion no_version (download_zip host url)
                (λ _. install host version files) (download_zip-Stays url)
                (λ _. install-Stays version files))))
