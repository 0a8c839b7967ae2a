-- ===== src/Riivo.antt =====
-- shared/riivo.h: what the channel's patch loader hands to the DVD functions of runtime-ext.
use rr_launcher.Prelude.{ℕ, Option, List, Bytes}

-- `struct rrc_riivo_sd_file`; `file_info` is the slot of the open file, or `NULL`.
pub record SdFile : Type 0 where
  pub path : Bytes
  pub file_info : Option ℕ

-- `struct rrc_riivo_file_replacement`
pub record Replacement : Type 0 where
  pub disc : Bytes
  pub hash : ℕ
  pub entrynum : ℕ

-- `struct rrc_riivo_disc`; each count is the length of its list.
pub record Disc : Type 0 where
  pub sd_files : List SdFile
  pub filename_replacements : List Replacement
  pub replacements : List Replacement

-- `struct rrc_riivo_memory_patch`; no `original` where `original_init` is false.
pub record MemoryPatch : Type 0 where
  pub addr : ℕ
  pub value : ℕ
  pub original : Option ℕ
