-- ===== src/Update/Extract.antt =====
-- source/update/update.c: the unpacking of an archive.
use rr_launcher.Prelude.{
  ℕ, ◌+◌, ◌%◌, ◌^◌, Bool, false, ◌&&◌, ◌||◌, not, if◌then◌else◌, ltb, ◌==◌, Option, none, some,
  List, [], ◌∷◌, ◌++◌, length, Bytes, String,
}
use rr_launcher.Result.{done, error, ErrorSource, assert}
use rr_launcher.Update.{
  made_dir, created, wrote, ZipEntry, MadeDir, made, existed, no_dir, OpenedOut, opened,
  no_directory, not_opened, Host, Run, return, ◌&>=◌, ◌&>◌, ask, act, fail_if, skip,
}

-- A `mkdir` that made the directory or found it.
abbrev pub make_dir : Bytes → MadeDir → Run (Unit {0})
make_dir path made = act (made_dir path)
make_dir path existed = skip
make_dir path no_dir =
    return (error ErrorSource.errno "Failed to create recursive directories for path")

-- The loop of `mkdir_recursive`, after `before`.
unfoldable pub make_dirs : Host → Bytes → Bytes → Run (Unit {0})
make_dirs host before [] = skip
make_dirs host before (c ∷ rest) =
    let onward = make_dirs host (before ++ (c ∷ [])) rest in
    if c == 47 then ((ask (λ log. host.mkdir log before) &>= make_dir before) &> onward) else onward

abbrev pub from_second : Host → Bytes → Run (Unit {0})
from_second host [] = skip
from_second host (c ∷ rest) = make_dirs host (c ∷ []) rest

-- `mkdir_recursive`
unfoldable pub mkdir_recursive : Host → Bytes → Run (Unit {0})
mkdir_recursive host fp =
    return (assert (ltb (length fp) host.path_max) "path should never be longer than PATH_MAX")
    &> from_second host fp

-- `strstr(name, "..") != NULL`
abbrev pub has_two_dots : Bytes → Bool
has_two_dots [] = false
has_two_dots (a ∷ []) = false
has_two_dots (a ∷ b ∷ rest) = a == 46 && b == 46 || has_two_dots (b ∷ rest)

-- `rr_update_zip_entry_path_is_safe`
unfoldable pub path_is_safe : Bytes → Bool
path_is_safe [] = false
path_is_safe (c ∷ name) = not (c == 47 || c == 92) && not (has_two_dots (c ∷ name))

abbrev pub misc : Bool → String → Run (Unit {0})
misc b context = fail_if b ErrorSource.update_misc context

-- The sum of the sizes, in 64 bits.
unfoldable pub uncompressed_size : List ZipEntry → ℕ → Run ℕ
uncompressed_size [] total = return (done total)
uncompressed_size (e ∷ entries) total =
    fail_if (not e.stats) ErrorSource.zip "Failed to stat file in archive"
    &> uncompressed_size entries (if e.valid_size then (total + e.size) % 2 ^ 64 else total)

-- The second `fopen`, after the directories were made.
abbrev pub reopened : Bytes → OpenedOut → Run (Unit {0})
reopened path opened = act (created path)
reopened path no_directory = return (
    error ErrorSource.errno
      "Failed to open output file for extracting ZIP entry after creating directories")
reopened path not_opened = return (
    error ErrorSource.errno
      "Failed to open output file for extracting ZIP entry after creating directories")

abbrev pub first_opened : Host → Bytes → OpenedOut → Run (Unit {0})
first_opened host path opened = act (created path)
first_opened host path no_directory =
    mkdir_recursive host path &> (ask (λ log. host.open_out log path) &>= reopened path)
first_opened host path not_opened =
    return (error ErrorSource.errno "Failed to create output file for extracting ZIP entry")

-- The output file, with the directories it needs.
unfoldable pub open_output : Host → Bytes → Run (Unit {0})
open_output host path = ask (λ log. host.open_out log path) &>= first_opened host path

-- The loop of `zip_fread` and `fwrite`.
unfoldable pub write_chunks : Host → Bytes → List Bytes → Run (Unit {0})
write_chunks host path [] = skip
write_chunks host path (chunk ∷ chunks) = ask (λ log. host.accepts log chunk) &>= λ written.
    act (wrote path chunk)
    &> fail_if (not (written == length chunk)) ErrorSource.errno "Failed to fully write ZIP chunk"
    &> write_chunks host path chunks

-- `name[strlen(name) - 1] == '/'`
abbrev pub ends_in_slash : Bytes → Bool
ends_in_slash [] = false
ends_in_slash (c ∷ []) = c == 47
ends_in_slash (c ∷ d ∷ rest) = ends_in_slash (d ∷ rest)

-- The file of an entry that is no directory.
unfoldable pub extract_file : Host → ZipEntry → Run (Unit {0})
extract_file host e =
    misc (not e.opens) "Failed to open file in ZIP archive"
    &> open_output host e.name
    &> write_chunks host e.name e.chunks
    &> fail_if (not e.read_ok) ErrorSource.errno "Failed to write ZIP chunk"

-- One round of the second loop of `rrc_update_extract_zip_archive`.
unfoldable pub extract_entry : Host → ZipEntry → Run (Unit {0})
extract_entry host e =
    fail_if (not e.stats) ErrorSource.zip "Failed to stat file in archive"
    &> misc (not e.valid) "ZIP Archive entry contains invalid attributes"
    &> misc (length e.name == 0) "Empty file name in ZIP archive"
    &> misc (not (path_is_safe e.name)) "ZIP archive entry has an unsafe file path"
    &> (λ w. (host.free_space w.log, w))
    &>= λ sd_free.
        misc (ltb sd_free e.size) "Not enough free space on SD card to extract file."
        &> (if ends_in_slash e.name then skip else extract_file host e)

unfoldable pub extract_entries : Host → List ZipEntry → Run (Unit {0})
extract_entries host [] = skip
extract_entries host (e ∷ entries) = extract_entry host e &> extract_entries host entries

abbrev pub extract_from : Host → Option (List ZipEntry) → Run (Unit {0})
extract_from host none = return (error ErrorSource.zip "Failed to open downloaded ZIP archive")
extract_from host (some entries) = uncompressed_size entries 0 &>= λ size.
    (λ w. (host.free_space w.log, w)) &>= λ sd_free.
    misc (ltb sd_free size) "Not enough free space on SD card to extract update."
    &> extract_entries host entries

-- `rrc_update_extract_zip_archive`
unfoldable pub extract_zip_archive : Host → Run (Unit {0})
extract_zip_archive host = ask (λ log. host.archive log) &>= extract_from host
