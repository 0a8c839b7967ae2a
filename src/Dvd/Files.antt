-- ===== src/Dvd/Files.antt =====
-- Opening, reading and closing replaced files in runtime-ext/source/dvd.c. The SD card library and
-- the game's own DVD functions are parameters.
pub mod Slots
pub mod Moves
pub mod Handles
pub mod Total
pub mod Table
pub mod Counts
use rr_launcher.Prelude.{
  ℕ, zero, suc, ◌+◌, ◌-◌, Option, none, some, List, [], ◌∷◌, Bool, not, ◌&&◌, String, get_elem?,
  set, ltb, ◌==◌, if◌then◌else◌, Bytes, int_max,
}
use rr_launcher.Result.{Outcome, done, fatal, fault, ◌>>=◌, ◌>>◌, assert, defined, read, expect}
use rr_launcher.Riivo.{SdFile, Disc}
use rr_launcher.Dvd.Search.{resolve_path}
use rr_launcher.Dvd.EntryNum.{mark_special, is_special, unmark}

-- The vendored SD library, over its `FILE_STRUCT`. A file descriptor is the slot of the structure.
pub record Sd (File : Type 0) : Type 0 where
  pub filesize : File → ℕ
  pub open_file : ℕ → Bytes → Option (ℕ × File)
  pub seek : File → ℕ → Option File
  pub read_file : File → ℕ → Option (Bytes × File)
  pub close_file : File → Bool

-- `FileInfo` of the game.
pub record FileInfo : Type 0 where
  pub start_addr : ℕ
  pub length_ : ℕ

-- The game's functions behind the trampolines.
pub record Game : Type 0 where
  pub convert_path : Bytes → ℕ
  pub open_path : Bytes → FileInfo → ℕ × FileInfo
  pub fast_open : ℕ → FileInfo → ℕ × FileInfo
  pub read_prio : FileInfo → ℕ → ℕ → ℕ → Bytes

-- `struct rte_open_file`
pub record OpenFile (File : Type 0) : Type 0 where
  pub file_struct : File
  pub refcount : ℕ

-- The statics of the module: `riivo_disc` and `open_files`.
pub record Runtime (File : Type 0) : Type 0 where
  pub disc : Disc
  pub open_files : List (OpenFile File)

module _ {File : Type 0} where
  -- The loop of `rte_dvd_alloc_open_file`: the first slot that nobody uses.
  unfoldable pub free_slot : List (OpenFile File) → Option ℕ
  free_slot [] = none
  free_slot (f ∷ rest) =
      if f.refcount == 0
      then some 0
      else elim (free_slot rest) [ none ↦ none | some i ↦ some (suc i) ]

  pub set_file_info : Runtime File → ℕ → SdFile → Option ℕ → Runtime File
  set_file_info rt entry_num etp info = record rt {
    disc = record (rt.disc) {
      sd_files = set rt.disc.sd_files entry_num (record etp { file_info = info });
    };
  }

  pub set_open_file : Runtime File → ℕ → OpenFile File → Runtime File
  set_open_file rt slot f = record rt { open_files = set rt.open_files slot f }

module _ {File : Type 0} (sd : Sd File) where
  -- The first branch of `rte_dvd_open_entry_num`: the file is open already.
  reuse : ℕ → ℕ → Runtime File → Outcome (FileInfo × Runtime File)
  unfolding set_open_file
  reuse entry_num slot rt = do
    opened_file ← read (get_elem? rt.open_files slot)
    defined (ltb opened_file.refcount int_max)
    done (
      record { start_addr = mark_special entry_num; length_ = sd.filesize opened_file.file_struct },
      set_open_file rt slot (record opened_file { refcount = opened_file.refcount + 1 }),
    )

  -- The other branch: take a slot and open the file on the SD card.
  open_new : ℕ → SdFile → Runtime File → Outcome (FileInfo × Runtime File)
  unfolding free_slot set_file_info set_open_file
  open_new entry_num etp rt = do
    slot ←
        expect (free_slot rt.open_files)
          "Attempted to open more than MAX_CONCURRENT_FILES SD files at once!"
    opened ← expect (sd.open_file slot etp.path) "FastOpen: SD error!"
    assert (opened.0 == slot) "Broken assumption: SD_open() fd is not the same as the file pointer!"
    let taken = set_open_file rt slot (record { file_struct = opened.1; refcount = 1 })
    done (
      record { start_addr = mark_special entry_num; length_ = sd.filesize opened.1 },
      set_file_info taken entry_num etp (some slot),
    )

  -- The branch on `etp->file_info`.
  open_with : ℕ → SdFile → Option ℕ → Runtime File → Outcome (FileInfo × Runtime File)
  unfolding reuse open_new
  open_with entry_num etp (some slot) rt = reuse entry_num slot rt
  open_with entry_num etp none rt = open_new entry_num etp rt

  -- `rte_dvd_open_entry_num`
  unfoldable pub open_entry_num : ℕ → Runtime File → Outcome (FileInfo × Runtime File)
  unfolding open_with
  open_entry_num entry_num rt = do
    etp ← read (get_elem? rt.disc.sd_files entry_num)
    open_with entry_num etp etp.file_info rt

  -- The part of `custom_close_impl` for a file of the SD card.
  unfoldable pub close_entry_num : ℕ → Runtime File → Outcome (Runtime File)
  unfolding set_file_info set_open_file
  close_entry_num entrynum rt = do
    etp ← read (get_elem? rt.disc.sd_files entrynum)
    slot ← expect etp.file_info "Attempted to close file that is not open!"
    opened_file ← read (get_elem? rt.open_files slot)
    assert (not (opened_file.refcount == 0)) "BUG: refcount should never be 0 for open files."
    let closed = set_open_file rt slot (record opened_file { refcount = opened_file.refcount - 1 })
    if opened_file.refcount - 1 == 0
        then (do
          assert (sd.close_file opened_file.file_struct) "Failed to close SD file due to SD error"
          done (set_file_info closed entrynum etp none))
        else done closed

  -- The part of `custom_read_prio_impl` for a file of the SD card: the bytes that it read.
  pub read_entry_num : ℕ → ℕ → ℕ → Runtime File → Outcome (Bytes × Runtime File)
  unfolding set_open_file
  read_entry_num entrynum length offset rt = do
    etp ← read (get_elem? rt.disc.sd_files entrynum)
    slot ← expect etp.file_info "ReadPrio: attempted to read from file before it is opened!"
    opened_file ← read (get_elem? rt.open_files slot)
    sought ← expect (sd.seek opened_file.file_struct offset) "ReadPrio: Failed to seek"
    got ← expect (sd.read_file sought length) "ReadPrio: failed to read bytes in ReadPrio"
    done (got.0, set_open_file rt slot (record opened_file { file_struct = got.1 }))

module _ {File : Type 0} (sd : Sd File) (game : Game) where
  convert_found : Bytes → Option ℕ → Outcome ℕ
  convert_found filename (some entry_num) = done (mark_special entry_num)
  convert_found filename none =
      if is_special (game.convert_path filename)
      then fatal "DVD Convert path returned special entry"
      else done (game.convert_path filename)

  -- `custom_convert_path_to_entry_num_impl`
  pub convert_path_to_entry_num : Bytes → Runtime File → Outcome ℕ
  unfolding convert_found
  convert_path_to_entry_num filename rt = do
    found ← resolve_path rt.disc filename
    convert_found filename found

  open_found : Bytes → FileInfo → Runtime File → Option ℕ → Outcome (ℕ × FileInfo × Runtime File)
  open_found path file_info rt (some entry_num) = do
    opened ← open_entry_num sd entry_num rt
    done (1, opened.0, opened.1)
  open_found path file_info rt none =
      let res = game.open_path path file_info in done (res.0, res.1, rt)

  -- `custom_open_impl`: the value that is returned, and the `FileInfo` that is filled in.
  pub open_path : Bytes → FileInfo → Runtime File → Outcome (ℕ × FileInfo × Runtime File)
  unfolding open_found
  open_path path file_info rt = do
    found ← resolve_path rt.disc path
    open_found path file_info rt found

  -- `custom_fast_open_impl`; the -1 of the game is the 32-bit pattern.
  pub fast_open : ℕ → FileInfo → Runtime File → Outcome (ℕ × FileInfo × Runtime File)
  fast_open entry_num file_info rt =
      if is_special entry_num
      then (do opened ← open_entry_num sd (unmark entry_num) rt; done (1, opened.0, opened.1))
      else let res = game.fast_open entry_num file_info in
        if not (res.0 == 0xFFFFFFFF) && is_special res.1.start_addr
        then fatal "Normal FastOpen() returned special bitpattern"
        else done (res.0, res.1, rt)

  -- `custom_read_prio_impl`
  pub read_prio : FileInfo → ℕ → ℕ → ℕ → Runtime File → Outcome (Bytes × Runtime File)
  read_prio file_info length offset prio rt =
      if is_special file_info.start_addr
      then read_entry_num sd (unmark file_info.start_addr) length offset rt
      else done (game.read_prio file_info length offset prio, rt)

  -- `custom_close_impl`, which always returns true.
  pub close : FileInfo → Runtime File → Outcome (Runtime File)
  close file_info rt =
      if is_special file_info.start_addr
      then close_entry_num sd (unmark file_info.start_addr) rt
      else done rt
