-- ===== src/VersionsFile.antt =====
-- source/update/versionsfile.c: the lists of updates and of deleted files, as texts of lines.
pub mod Split
pub mod Overflow
pub mod Entries
mod Tests
use rr_launcher.Prelude.{
  ℕ, ◌+◌, ◌*◌, Bool, true, false, ◌&&◌, ◌||◌, not, List, [], ◌∷◌, ◌++◌, String, length, ltb, ◌==◌,
  get_elem?, if◌then◌else◌, Bytes,
}
use rr_launcher.Result.{Outcome, done, error, ErrorSource, ◌>>=◌, ◌>>◌, defined, read}
use rr_launcher.Version.{Version, is_older, from_string}

-- `_RRC_SPLIT_LIM`, in bytes where it is an argument of `malloc`, in entries where it is compared.
abbrev pub split_lim : ℕ
split_lim = 4096

-- How many pointers of four bytes fit what `malloc(_RRC_SPLIT_LIM)` gives.
abbrev pub split_room : ℕ
split_room = 1024

-- What `rrc_versionsfile_split_by` returns: 0, -1 or -2, and 2.
pub data SplitCode : Type 0 where
  split_ok split_oom split_many : SplitCode

abbrev pub Split : Type 0
Split = SplitCode × List Bytes

no_more : Bytes → Bool
no_more [] = true
no_more (c ∷ s) = false

module _ (allocates : ℕ → Bool) (by : ℕ) where
  -- `(*out)[count] = this;`, if there is memory for `this`.
  pub add_part : List Bytes → Bytes → Outcome Split
  add_part parts this = do
    defined (ltb (length parts) split_room)
    let parts' = parts ++ this ∷ []
    done (if ltb split_lim (length parts') then split_many else split_ok, parts')

  -- The loop, over the rest of the text; `current` is what `current_len` counts.
  pub split_loop : List Bytes → Bytes → Bytes → Outcome Split
  unfolding no_more add_part
  split_loop parts current [] = done (split_ok, parts)
  split_loop parts current (c ∷ rest) =
      let last = no_more rest in
      let this = if last && not (c == by) then current ++ c ∷ [] else current in
      let longer = split_loop parts (current ++ c ∷ []) rest in
      let added = (do
        added ← add_part parts this
        elim added.0 [
          | split_many ↦ done added
          | split_oom ↦ done added
          | split_ok ↦ split_loop added.1 [] rest
        ]) in
      if c == by || last
      then (if allocates (length this + 1) then added else done (split_oom, []))
      else longer

-- `rrc_versionsfile_split_by`
pub split_by : (ℕ → Bool) → ℕ → Bytes → Outcome Split
unfolding split_loop
split_by allocates by text =
    if allocates split_lim then split_loop allocates by [] [] text else done (split_oom, [])

-- A version and what stands behind it: a URL, or the path of `struct rrc_versionsfile_deleted_file`.
pub record Entry : Type 0 where
  pub version : Version
  pub target : Bytes

module _ (allocates : ℕ → Bool) (current_version : Version) (room : ℕ) (failed : String) where
  -- What the parts of a line say. They are read whether or not they were written.
  read_parts : List Bytes → Outcome Entry
  read_parts parts = do
    text ← read (get_elem? parts 0)
    version ← from_string text
    target ← read (get_elem? parts 1)
    done (record { version = version; target = target })

  read_line : Bytes → Outcome Entry
  unfolding read_parts
  read_line line = do
    parts ← split_by allocates b' ' line
    elim parts.0 [
      | split_oom ↦ error ErrorSource.corrupted_versionfile failed
      | split_ok ↦ read_parts parts.1
      | split_many ↦ read_parts parts.1
    ]

  -- The loop over the lines; `found` is what was put into the arrays, which have `room`.
  newer_entries : List Entry → List Bytes → Outcome (List Entry)
  unfolding read_line
  newer_entries found [] = done found
  newer_entries found (line ∷ lines) = do
    entry ← read_line line
    let newer = (do defined (ltb (length found) room); newer_entries (found ++ entry ∷ []) lines)
    let others = newer_entries found lines
    if is_older current_version entry.version then newer else others

module _ (allocates : ℕ → Bool) (current_version : Version) where
  -- `rrc_versionsfile_get_necessary_urls_and_versions`: the two arrays, side by side.
  pub get_necessary_urls_and_versions : Bytes → Outcome (List Entry)
  unfolding newer_entries
  get_necessary_urls_and_versions versionsfile = do
    lines ← split_by allocates b'\n' versionsfile
    let room = if allocates split_lim && allocates (split_lim * 12) then split_room else 0
    elim lines.0 [
      | split_oom ↦ error ErrorSource.corrupted_versionfile "Failed to split versionfile"
      | split_many ↦
          error ErrorSource.corrupted_versionfile "Versionfile had more than 4096 entries"
      | split_ok ↦
          newer_entries allocates current_version room "Failed to split versionfile" [] lines.1
    ]

  -- `rrc_versionsfile_parse_deleted_files`
  pub parse_deleted_files : Bytes → Outcome (List Entry)
  unfolding newer_entries
  parse_deleted_files input = do
    lines ← split_by allocates b'\n' input
    let room = if allocates (split_lim * 16) then split_lim else 0
    elim lines.0 [
      | split_oom ↦ error ErrorSource.corrupted_versionfile "Failed to split deleted versionfile"
      | split_many ↦
          error ErrorSource.corrupted_versionfile "Deleted versionfile had more than 4096 entries"
      | split_ok ↦
          newer_entries allocates current_version room "Failed to split deleted versionfile" []
            lines.1
    ]
