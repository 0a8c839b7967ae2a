-- ===== src/Update/Order.antt =====
-- The updates of source/update/update.c come in order: a version is recorded only after its update, and all
-- before it, were installed.
use mathlib.Core.List.{append_assoc, append-nil}
use rr_launcher.Prelude.{
  ℕ, suc, ◌<◌, ◌≡◌, ◌≢◌, ◌⊎◌, refl, sym, ap, ◌∙◌, inl, inr, List, [], ◌∷◌, ◌++◌, length, map, take,
  Bytes, arith,
}
use rr_launcher.Result.{Outcome, done, error, fatal, fault}
use rr_launcher.Version.{Version}
use rr_launcher.Version.File.{VersionFile, set_current_version}
use rr_launcher.VersionsFile.{Entry}
use rr_launcher.Update.{versioned, Log, Host, World, Run, carry_on, ◌&>◌}
use rr_launcher.Update.Installed.{Installed, Post}
use rr_launcher.Update.Installing.{fetch_and_install-Installed}
use rr_launcher.Update.Unversioned.{recorded, recorded_append, NoVersion, fetch_and_install-Stays}
use rr_launcher.Update.Loop.{
  record_version, version_written, fetch_and_install, do_updates_with_state,
}

-- The log of the first updates: each was installed, and then its version was recorded.
abbrev pub Updated : Host → List Entry → List Entry → Log → Log → Type 0
Updated host files [] before after = after ≡ before
Updated host files (update ∷ updates) before after =
    (installed : Log) × Installed host update files before installed
    × Updated host files updates (versioned update.version ∷ installed) after

-- What the loop over the updates comes to: the log after the first `n` of them, the versions that were
-- recorded, and that these are all the updates, or that the next one failed.
abbrev pub Progress : Host → List Entry → List Entry → World → Outcome (Unit {0}) × World → Type 0
Progress host files updates w (o, after) =
    (n : ℕ) × (reached : Log) × Updated host files (take n updates) w.log reached
    × (recorded after.log ≡ recorded w.log ++ take n (map (λ u. u.version) updates))
    × (((o ≡ done tt) × (n ≡ length updates) × (after.log ≡ reached))
        ⊎ ((o ≢ done tt)
            × (n < length updates)
            × (new : Log) × (after.log ≡ new ++ reached)
            × (recorded new ≡ [])))

module _ (host : Host) (files : List Entry) (update : Entry) (updates : List Entry)
    (w : World) where
  -- An update that failed leaves no version behind.
  stopped :
      (v : World) (o : Outcome (Unit {0}))
      → NoVersion w v
      → o ≢ done tt
      → Progress host files (update ∷ updates) w (o, v)
  stopped v o (new, e, none_new) failed = (
    0,
    w.log,
    refl,
    ap recorded e ∙ recorded_append new w.log none_new ∙ sym (append-nil (recorded w.log)),
    inr (failed, omega arith, new, e, none_new),
  )

  module _ (rest : Run (Unit {0}))
      (goes_on : (v : World) → Progress host files updates v (rest v)) where
    one_more :
        (v : World) (file : VersionFile) (r : Outcome (Unit {0}) × World)
        → NoVersion w v
        → Installed host update files w.log v.log
        → Progress host files updates
            (record { log = versioned update.version ∷ v.log; version_file = file })
            r
        → Progress host files (update ∷ updates) w r
    unfolding recorded
    one_more v file (o, after) (new, e, none_new) installed (n, reached, updated, more, end) =
        let shown = take n (map (λ u. u.version) updates) in
        let before : recorded v.log ≡ recorded w.log =
          ap recorded e ∙ recorded_append new w.log none_new in
        (
          suc n,
          reached,
          (v.log, installed, updated),
          more
              ∙ ap (λ (l : List Version). (l ++ (update.version ∷ [])) ++ shown) before
              ∙ append_assoc (recorded w.log) (update.version ∷ []) shown,
          elim end [
            | inl (finished, all, there) ↦ inl (finished, ap suc all, there)
            | inr (failed, some_left, new2, began, none_new2) ↦
                inr (failed, omega (arith, some_left), new2, began, none_new2)
          ],
        )

    after_version :
        (v : World) (r : Outcome (Unit {0}) × VersionFile)
        → NoVersion w v
        → Installed host update files w.log v.log
        → Progress host files
            (update ∷ updates)
            w
            (carry_on (λ _. rest) (version_written update.version v r))
    after_version v (done u, file) none_new installed =
        let next : World = record { log = versioned update.version ∷ v.log; version_file = file } in
        one_more v file (rest next) none_new installed (goes_on next)
    after_version v (error source context, file) none_new installed =
        stopped (record { log = v.log; version_file = file }) (error source context) none_new
          (λ h. cc)
    after_version v (fatal message, file) none_new installed =
        stopped (record { log = v.log; version_file = file }) (fatal message) none_new (λ h. cc)
    after_version v (fault, file) none_new installed =
        stopped (record { log = v.log; version_file = file }) fault none_new (λ h. cc)

    after_install :
        (accepts : Bytes → ℕ) (r : Outcome (Unit {0}) × World)
        → NoVersion w r.1
        → Post (λ _ v. Installed host update files w.log v.log) r
        → Progress host files
            (update ∷ updates)
            w
            (carry_on (λ _. record_version accepts update.version &> rest) r)
    unfolding record_version
    after_install accepts (done u, v) none_new installed =
        after_version v (set_current_version accepts update.version v.version_file) none_new
          installed
    after_install accepts (error source context, v) none_new installed =
        stopped v (error source context) none_new (λ h. cc)
    after_install accepts (fatal message, v) none_new installed =
        stopped v (fatal message) none_new (λ h. cc)
    after_install accepts (fault, v) none_new installed = stopped v fault none_new (λ h. cc)

-- The updates are installed and recorded in order: whatever fails, the log goes on with that of the first
-- updates, each of which was downloaded, unpacked with every file of its archive written whole, and cleaned
-- up, before its version was recorded; the versions recorded are theirs, and they are all the updates just
-- when the loop succeeds. What a failed update has left in the log after them records no version.
pub do_updates_with_state-Progress :
    (host : Host) (accepts : Bytes → ℕ) (files updates : List Entry) (w : World)
    → Progress host files updates w (do_updates_with_state host accepts files updates w)
unfolding do_updates_with_state
do_updates_with_state-Progress host accepts files [] w =
    (0, w.log, refl, sym (append-nil (recorded w.log)), inl (refl, refl, refl))
do_updates_with_state-Progress host accepts files (update ∷ updates) w =
    after_install host files update updates w (do_updates_with_state host accepts files updates)
      (do_updates_with_state-Progress host accepts files updates) accepts
      (fetch_and_install host update.target update.version files w)
      (fetch_and_install-Stays host update.target update.version files w)
      (fetch_and_install-Installed host update files w)
