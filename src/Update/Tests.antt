-- ===== src/Update/Tests.antt =====
-- Paths and updates of source/update/update.c at hand.
use rr_launcher.Prelude.{
  ◌≡◌, refl, true, false, some, List, [], ◌∷◌, ◌++◌, length, Bytes, codes, All,
}
use rr_launcher.Prelude.Int.{pos, negsuc}
use rr_launcher.Result.{done}
use rr_launcher.VersionsFile.{Entry}
use rr_launcher.Update.{
  OpenedOut, ZipEntry, made, opened, no_directory, gone, Log, Host, World, made_dir, created, wrote,
}
use rr_launcher.Update.Extract.{
  path_is_safe, extract_zip_archive, extract_entries, extract_entry, extract_file, open_output,
  mkdir_recursive, make_dirs, write_chunks, uncompressed_size,
}
use rr_launcher.Update.Loop.{to_u64, do_updates_with_state}
use rr_launcher.Update.Paths.{WritesSafeSegments, extract_zip_archive-WritesSafeSegments}
use rr_launcher.Update.Order.{Progress, do_updates_with_state-Progress}

-- A path with a device in front passes the test.
device : path_is_safe (codes "sd:/apps/x") ≡ true
unfolding path_is_safe
device = refl

climbing : path_is_safe (codes "a/../b") ≡ false
unfolding path_is_safe
climbing = refl

-- A size that the server does not say is more than any card has.
unknown_size : to_u64 (negsuc 0) ≡ 0xFFFFFFFFFFFFFFFF
unfolding to_u64
unknown_size = refl

abbrev entry : ZipEntry
entry = record {
  stats = true;
  valid = true;
  valid_size = true;
  size = 1;
  name = codes "a/b";
  opens = true;
  chunks = (7 ∷ []) ∷ [];
  read_ok = true;
}

-- A card on which a directory is missing until it is made.
abbrev answer_open : Log → Bytes → OpenedOut
answer_open [] path = no_directory
answer_open (e ∷ log) path = opened

abbrev host : Host
host = record {
  path_max = 4096;
  free_space = λ log. done 1000;
  zip_size = λ log url. some (pos 100);
  curl_starts = λ log. true;
  zip_created = λ log. true;
  transfers = λ log url. true;
  zip_stats = λ log. true;
  archive = λ log. some (entry ∷ []);
  mkdir = λ log path. made;
  open_out = answer_open;
  accepts = λ log chunk. length chunk;
  remove = λ log path. gone;
}

abbrev card : World
card = record {
  log = [];
  version_file = record { content = some []; opens = true; stats = true; closes = true };
}

unpacked :
    (extract_zip_archive host card).1.log
    ≡ wrote (codes "a/b") (7 ∷ []) ∷ created (codes "a/b") ∷ made_dir (codes "a") ∷ []
unfolding extract_zip_archive extract_entries extract_entry extract_file open_output mkdir_recursive
    make_dirs write_chunks uncompressed_size path_is_safe
unpacked = refl

extract_zip_archive-WritesSafeSegments_example :
    (new : Log) × ((extract_zip_archive host card).1.log ≡ new ++ []) × All WritesSafeSegments new
extract_zip_archive-WritesSafeSegments_example = extract_zip_archive-WritesSafeSegments host card

abbrev updates : List Entry
updates =
    record {
      version = record { major = pos 1; minor = pos 2; patch = pos 3 };
      target = codes "http://a";
    }
    ∷ []

do_updates_with_state-Progress_example :
    Progress host [] updates card (do_updates_with_state host (λ out. 100) [] updates card)
do_updates_with_state-Progress_example =
    do_updates_with_state-Progress host (λ out. 100) [] updates card
