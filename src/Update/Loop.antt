-- ===== src/Update/Loop.antt =====
-- source/update/update.c: the updates, one after the other.
use rr_launcher.Prelude.{
  ℕ, ◌-◌, ◌%◌, ◌^◌, Bool, not, if◌then◌else◌, ltb, Option, none, some, List, [], ◌∷◌, Bytes, codes,
}
use rr_launcher.Prelude.Int.{ℤ, pos, negsuc, ◌+ℤ◌, ltb_ℤ}
use rr_launcher.Result.{Outcome, done, error, fatal, fault, ErrorSource}
use rr_launcher.Version.{Version, equals}
use rr_launcher.Version.File.{VersionFile, set_current_version}
use rr_launcher.VersionsFile.{Entry}
use rr_launcher.Update.{
  downloaded, removed, versioned, Removal, gone, absent, stuck, Host, World, Run, return, ◌&>=◌,
  ◌&>◌, ask, act, fail_if, skip,
}
use rr_launcher.Update.Extract.{extract_zip_archive, misc}

abbrev pub zip_name : Bytes
zip_name = codes "rr.update.zip"

-- `rrc_update_download_zip`
unfoldable pub download_zip : Host → Bytes → Run (Unit {0})
download_zip host url = ask (λ log. host.curl_starts log) &>= λ starts.
    fail_if (not starts) ErrorSource.curl "Failed to init curl"
    &> ask (λ log. host.zip_created log)
    &>= λ created.
        fail_if (not created) ErrorSource.errno
          "Failed to create temporary ZIP file for update download"
        &> act (downloaded url)
        &> ask (λ log. host.transfers log url)
        &>= λ whole. fail_if (not whole) ErrorSource.curl "Failed to download update ZIP"

abbrev pub size_or_fail : Option ℤ → Run ℤ
size_or_fail none = return (error ErrorSource.curl "Failed to get update ZIP size")
size_or_fail (some size) = return (done size)

-- A `curl_off_t` as the unsigned 64 bits that it is compared in.
unfoldable pub to_u64 : ℤ → ℕ
to_u64 (pos n) = n % 2 ^ 64
to_u64 (negsuc n) = 2 ^ 64 - 1 - n % 2 ^ 64

abbrev pub after_removal : Bytes → Removal → Run (Unit {0})
after_removal path gone = act (removed path)
after_removal path absent = skip
after_removal path stuck =
    return (error ErrorSource.errno "Failed to remove deleted file for update")

-- The loop over the deleted files, for those of the update's version.
unfoldable pub remove_deleted : Host → Version → List Entry → Run (Unit {0})
remove_deleted host version [] = skip
remove_deleted host version (file ∷ files) =
    let onward = remove_deleted host version files in
    if equals file.version version
    then ((ask (λ log. host.remove log file.target) &>= after_removal file.target) &> onward)
    else onward

abbrev pub zip_removed : Removal → Run (Unit {0})
zip_removed gone = act (removed zip_name)
zip_removed absent = return (error ErrorSource.errno "Failed to remove temporary update file")
zip_removed stuck = return (error ErrorSource.errno "Failed to remove temporary update file")

abbrev pub version_written :
    Version → World → Outcome (Unit {0}) × VersionFile → Outcome (Unit {0}) × World
version_written version w (done u, file) =
    (done tt, record { log = versioned version ∷ w.log; version_file = file })
version_written version w (error source context, file) =
    (error source context, record { log = w.log; version_file = file })
version_written version w (fatal message, file) =
    (fatal message, record { log = w.log; version_file = file })
version_written version w (fault, file) = (fault, record { log = w.log; version_file = file })

-- `rrc_update_set_current_version` on the version file of the card.
unfoldable pub record_version : (Bytes → ℕ) → Version → Run (Unit {0})
record_version accepts version w =
    version_written version w (set_current_version accepts version w.version_file)

-- The unpacking of what was downloaded, and what is no longer wanted.
unfoldable pub install : Host → Version → List Entry → Run (Unit {0})
install host version deleted_files = ask (λ log. host.zip_stats log) &>= λ stats.
    fail_if (not stats) ErrorSource.errno "Failed to stat update ZIP file"
    &> extract_zip_archive host
    &> (ask (λ log. host.remove log zip_name) &>= zip_removed)
    &> remove_deleted host version deleted_files

-- One update, to the files of the card.
unfoldable pub fetch_and_install : Host → Bytes → Version → List Entry → Run (Unit {0})
fetch_and_install host url version deleted_files =
    (ask (λ log. host.zip_size log url) &>= size_or_fail) &>= λ size.
    (λ w. (host.free_space w.log, w)) &>= λ sd_free.
    misc (ltb sd_free (to_u64 size)) "Not enough free space on SD card for update ZIP."
    &> download_zip host url
    &> install host version deleted_files

-- The loop of `rrc_update_do_updates_with_state`, over the updates that are left.
unfoldable pub do_updates_with_state : Host → (Bytes → ℕ) → List Entry → List Entry → Run (Unit {0})
do_updates_with_state host accepts deleted_files [] = skip
do_updates_with_state host accepts deleted_files (update ∷ updates) =
    fetch_and_install host update.target update.version deleted_files
    &> record_version accepts update.version
    &> do_updates_with_state host accepts deleted_files updates

abbrev add_size : Option ℤ → Option ℤ → Option ℤ
add_size none total = none
add_size (some size) none = none
add_size (some size) (some total) = some (size +ℤ total)

-- `rrc_update_get_total_update_size`
unfoldable pub total_update_size : Host → List Entry → World → Option ℤ
total_update_size host [] w = some (pos 0)
total_update_size host (update ∷ updates) w =
    add_size (host.zip_size w.log update.target) (total_update_size host updates w)

-- `rrc_update_is_large`: nothing where a size is not known.
unfoldable pub is_large : Host → List Entry → World → Option Bool
is_large host updates w = large (total_update_size host updates w)
  where
    large : Option ℤ → Option Bool
    large none = none
    large (some size) = some (ltb_ℤ (pos 100000000) size)
