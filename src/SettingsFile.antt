-- ===== src/SettingsFile.antt =====
-- source/settingsfile.c: the settings on the SD card.
pub mod Words
pub mod RoundTrip
mod Tests
use rr_launcher.Prelude.{
  ℕ, zero, suc, ◌+◌, ◌*◌, ◌/◌, ◌%◌, ◌^◌, Bool, true, false, Option, none, some, List, [], ◌∷◌, ◌++◌,
  String, length, take, drop, ltb, leb, ◌==◌, if◌then◌else◌, Bytes, codes, bytes_eq,
}
use rr_launcher.Result.{Outcome, done, error, fatal, fault, ErrorSource, ◌>>=◌, ◌>>◌}

-- `struct rrc_settingsfile`
pub record Settings : Type 0 where
  pub my_stuff : ℕ
  pub separate_savegame : ℕ
  pub auto_update : ℕ

-- `RRC_SETTINGSFILE_MAGIC` and `RRC_SETTINGSFILE_VERSION`
abbrev pub magic : ℕ
magic = 1920234103

abbrev pub format_version : ℕ
format_version = 0

-- `rrc_settingsfile_init_defaults`
abbrev pub defaults : Settings
defaults = record { my_stuff = 0; separate_savegame = 0; auto_update = 1 }

-- The four bytes of a `u32` on this big-endian machine.
pub be32 : ℕ → Bytes
be32 n = n / 2 ^ 24 % 256 ∷ n / 2 ^ 16 % 256 ∷ n / 2 ^ 8 % 256 ∷ n % 256 ∷ []

-- What a routine that writes returns, and what the file holds after it.
abbrev pub Written : Type 0
Written = Outcome (Unit {0}) × Bytes

-- `TRY` around a routine that writes.
pub then_write : Written → (Bytes → Written) → Written
then_write (done u, file) k = k file
then_write (error source context, file) k = (error source context, file)
then_write (fatal message, file) k = (fatal message, file)
then_write (fault, file) k = (fault, file)

-- `fwrite`; `accepts` says how many bytes the card takes behind those of the file.
module _ (accepts : Bytes → Bytes → ℕ) where
  pub fwrite : String → Bytes → Bytes → Written
  fwrite context bytes file =
      if leb (length bytes) (accepts file bytes)
      then (done tt, file ++ bytes)
      else (error ErrorSource.errno context, file ++ take (accepts file bytes) bytes)

  -- `rrc_settingsfile_write_header`
  pub write_header : ℕ → Bytes → Written
  unfolding fwrite then_write be32
  write_header entry_count file =
      then_write (fwrite "Failed to write magic header" (be32 magic) file) (λ file.
        then_write (fwrite "Failed to write version" (be32 format_version) file)
          (λ file. fwrite "Failed to write entry count" (be32 entry_count) file))

  -- `rrc_settingsfile_set_option`
  pub set_option : Bytes → ℕ → Bytes → Written
  unfolding fwrite then_write be32
  set_option key value file =
      then_write (fwrite "Failed to write key length" (be32 (length key)) file) (λ file.
        then_write (fwrite "Failed to write key" key file) (λ file.
          then_write (fwrite "Failed to write value length" (be32 4) file)
            (λ file. fwrite "Failed to write value" (be32 value) file)))

-- The settings file on the SD card, if it is there, and whether it can be opened.
pub record Card : Type 0 where
  pub content : Option Bytes
  pub readable : Bool
  pub writable : Bool

module _ (accepts : Bytes → Bytes → ℕ) where
  -- `rrc_settingsfile_create`
  pub create : Card → Outcome (Unit {0}) × Card
  unfolding write_header
  create card =
      if card.writable
      then (done tt, record card { content = some (write_header accepts 0 []).1 })
      else (
        error ErrorSource.errno "could not create settingsfile, maybe the sd card is locked?",
        card,
      )

  pub store_options : Settings → Bytes → Written
  unfolding set_option then_write
  store_options settings file =
      then_write (set_option accepts (codes "My Stuff") settings.my_stuff file) (λ file.
        then_write (set_option accepts (codes "Separate savegame") settings.separate_savegame file)
          (λ file. set_option accepts (codes "Auto update") settings.auto_update file))

  -- `rrc_settingsfile_store`. What writing the header returns is dropped.
  pub store : Settings → Card → Outcome (Unit {0}) × Card
  unfolding write_header store_options
  store settings card =
      if card.writable
      then (let stored = store_options settings (write_header accepts 3 []).1 in
          (stored.0, record card { content = some stored.1 }))
      else (error ErrorSource.errno "Failed to open settingsfile", card)

corrupted {ℓ} : {A : Type ℓ} → String → Outcome A
corrupted what = error ErrorSource.corrupted_settingsfile what

-- `expect_read_u32`: the value and the rest of the file.
pub read_u32 : String → Bytes → Outcome (ℕ × Bytes)
unfolding corrupted
read_u32 what (a ∷ b ∷ c ∷ d ∷ rest) = done (((a * 256 + b) * 256 + c) * 256 + d, rest)
read_u32 what file = corrupted what

-- The bytes before the first terminator, as `strcmp` reads them.
pub c_string : Bytes → Bytes
c_string [] = []
c_string (c ∷ s) = let rest = c_string s in if c == 0 then [] else c ∷ rest

-- The assignments at the end of the loop.
pub set_value : Settings → Bytes → ℕ → Settings
unfolding c_string
set_value settings key value =
    if bytes_eq (c_string key) (codes "My Stuff")
    then record settings { my_stuff = value }
    else if bytes_eq (c_string key) (codes "Separate savegame")
    then record settings { separate_savegame = value }
    else if bytes_eq (c_string key) (codes "Auto update")
    then record settings { auto_update = value }
    else settings

pub check : Bool → String → Outcome (Unit {0})
unfolding corrupted
check true what = done tt
check false what = corrupted what

-- The body of the loop of `rrc_settingsfile_parse`: the settings and the rest of the file.
pub parse_entry : Settings → Bytes → Outcome (Settings × Bytes)
unfolding read_u32 set_value check
parse_entry settings file = do
  key_length ← read_u32 "Failed to read length of key" file
  check (ltb key_length.0 32) "Settings key cannot be longer than 32 characters"
  check (leb key_length.0 (length key_length.1)) "Failed to fully read key"
  let key = take key_length.0 key_length.1
  value_length ← read_u32 "Failed to read length of value" (drop key_length.0 key_length.1)
  check (value_length.0 == 4) "Value length currently should always be 4 (u32)"
  value ← read_u32 "Failed to fully read u32 value" value_length.1
  done (set_value settings key value.0, value.1)

-- What a parse leaves in the settings, and what it returns.
abbrev pub Parsed : Type 0
Parsed = Settings × Outcome (Unit {0})

-- The loop, for the entries that are left.
pub parse_entries : ℕ → Bytes → Settings → Parsed
unfolding parse_entry
parse_entries zero file settings = (settings, done tt)
parse_entries (suc n) file settings = elim (parse_entry settings file) [
  | done r ↦ parse_entries n r.1 r.0
  | error source context ↦ (settings, error source context)
  | fatal message ↦ (settings, fatal message)
  | fault ↦ (settings, fault)
]

-- The header before the entries: their number and the rest of the file.
pub parse_header : Bytes → Outcome (ℕ × Bytes)
unfolding read_u32 check
parse_header file = do
  first ← read_u32 "Failed to read magic bytes" file
  check (first.0 == magic) "Magic header mismatch"
  version ← read_u32 "Failed to read version number" first.1
  read_u32 "Failed to read entry count" version.1

pub parse_file : Bytes → Parsed
unfolding parse_entries parse_header
parse_file file = elim (parse_header file) [
  | done r ↦ parse_entries r.0 r.1 defaults
  | error source context ↦ (defaults, error source context)
  | fatal message ↦ (defaults, fatal message)
  | fault ↦ (defaults, fault)
]

-- `fopen(RRC_SETTINGSFILE_PATH, "r")` and all that follows it.
pub parse_opened : Card → Parsed
unfolding parse_file
parse_opened card = elim card.content [
  | some file ↦
      if card.readable
      then parse_file file
      else (defaults, error ErrorSource.errno "failed to open file for reading after creating it")
  | none ↦ (defaults, error ErrorSource.errno "failed to open file for reading after creating it")
]

-- What follows `TRY(rrc_settingsfile_create())`.
pub after_create : Card → Outcome (Unit {0}) × Card → Parsed × Card
unfolding parse_opened
after_create card (done u, created) = (parse_opened created, created)
after_create card (error source context, created) = ((defaults, error source context), card)
after_create card (fatal message, created) = ((defaults, fatal message), card)
after_create card (fault, created) = ((defaults, fault), card)

-- Whether the file is there: if not, it is created.
pub parse_found : (Bytes → Bytes → ℕ) → Option Bytes → Card → Parsed × Card
unfolding create after_create
parse_found accepts (some file) card = (parse_opened card, card)
parse_found accepts none card = after_create card (create accepts card)

-- `rrc_settingsfile_parse`
pub parse : (Bytes → Bytes → ℕ) → Card → Parsed × Card
unfolding parse_found
parse accepts card = parse_found accepts card.content card
