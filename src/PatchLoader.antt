-- ===== src/PatchLoader.antt =====
-- source/loader/riivo_patch_loader.c: registers the file replacements of the enabled patches. A
-- vector of source/vec.c is the list of its values here.
pub mod Distinct
pub mod Register
pub mod Files
pub mod Patches
pub mod Build
pub mod Xml
mod Sort
mod Tests
use rr_launcher.Prelude.{
  ℕ, suc, ◌+◌, ◌-◌, ◌%◌, Bool, true, false, not, ◌&&◌, Option, none, some, List, [], ◌∷◌, ◌++◌,
  String, length, get_elem?, ◌==◌, if◌then◌else◌, Bytes, codes, bytes_eq, u32, u32_mod,
}
use rr_launcher.Hash.{hash_string, to_lowercase}
use rr_launcher.Vec.Remove.{swap_removed}
use rr_launcher.Riivo.{SdFile, Replacement}
use rr_launcher.Dvd.Search.{strip_slash}

-- What `rrc_riivo_patch_loader_parse` collects: its vectors, the low end of the memory that it hands
-- out, and the replacement for the main DOL.
pub record Loader : Type 0 where
  pub sd_files : List SdFile
  pub replacements : List Replacement
  pub filename_replacements : List Replacement
  pub mem1 : ℕ
  pub main_dol_path : Option Bytes

-- `bump_alloc_string`: the arena after the string is copied below it, in 32 bits.
pub bump_alloc_string : ℕ → Bytes → ℕ
bump_alloc_string arena src = u32 (arena + u32_mod - u32 (length src + 1))

-- The first entry with the hash and the path of `remove`.
find_same : List Replacement → Replacement → Option ℕ
find_same [] remove = none
find_same (r ∷ rest) remove =
    if r.hash == remove.hash && bytes_eq r.disc remove.disc
    then some 0
    else elim (find_same rest remove) [ none ↦ none | some i ↦ some (suc i) ]

remove_at : List Replacement → Option ℕ → List Replacement
remove_at replacements none = replacements
remove_at replacements (some i) = swap_removed replacements i

-- `_rrc_riivo_remove_replacement`
pub remove_replacement : List Replacement → Replacement → List Replacement
unfolding find_same remove_at
remove_replacement replacements remove = remove_at replacements (find_same replacements remove)

-- The loop that looks for a file of the SD card by its path.
pub find_sd_file : List SdFile → Bytes → Option ℕ
find_sd_file [] path = none
find_sd_file (f ∷ rest) path =
    if bytes_eq f.path path
    then some 0
    else elim (find_sd_file rest path) [ none ↦ none | some i ↦ some (suc i) ]

-- `disc_path[0] == '/'`
pub is_absolute : Bytes → Bool
is_absolute [] = false
is_absolute (c ∷ s) = c == b'/'

-- `disc_path[0] == '.' && disc_path[1] == '_'`
pub is_apple_double : Bytes → Bool
is_apple_double (a ∷ b ∷ s) = a == b'.' && b == b'_'
is_apple_double s = false

-- The end of `_rrc_riivo_handle_file_patch`: the replacement of `disc_path` by the SD file.
pub register : Loader → Bytes → ℕ → Loader
unfolding is_absolute strip_slash remove_replacement
register st disc_path entrynum =
    let disc = strip_slash disc_path in
    let new_replacement : Replacement = record {
      disc = disc;
      hash = hash_string disc;
      entrynum = entrynum;
    } in
    let mem1 = bump_alloc_string st.mem1 disc in
    if is_absolute disc_path
    then record st {
      mem1 = mem1;
      replacements = remove_replacement st.replacements new_replacement ++ new_replacement ∷ [];
    }
    else record st {
      mem1 = mem1;
      filename_replacements =
          remove_replacement st.filename_replacements new_replacement ++ new_replacement ∷ [];
    }

-- A new entry for a file of the SD card, behind the others.
pub add_sd_file : Loader → Bytes → Loader
add_sd_file st external_path = record st {
  sd_files = st.sd_files ++ record { path = external_path; file_info = none } ∷ [];
  mem1 = bump_alloc_string st.mem1 external_path;
}

-- `_rrc_riivo_handle_file_patch`; `exists` says which paths of the SD card can be opened.
pub handle_file_patch : (Bytes → Bool) → Loader → Bytes → Bytes → Bool → Loader
unfolding find_sd_file is_apple_double register add_sd_file
handle_file_patch exists st disc_path external_path check_exists =
    if bytes_eq disc_path (codes "main.dol")
    then record st { main_dol_path = some external_path }
    else if is_apple_double disc_path
    then st
    else elim (find_sd_file st.sd_files external_path) [
      | some entrynum ↦ register st disc_path entrynum
      | none ↦
          if check_exists && not (exists external_path)
          then st
          else register (add_sd_file st external_path) disc_path (length st.sd_files)
    ]

-- `left[strlen(left) - 1] == '/'`, of a string that is not empty.
ends_with_slash : Bytes → Bool
ends_with_slash [] = false
ends_with_slash (c ∷ []) = c == b'/'
ends_with_slash (c ∷ d ∷ s) = ends_with_slash (d ∷ s)

-- `_rrc_riivo_combine_paths`, into a buffer that is large enough.
pub combine_paths : Bytes → Bytes → Bytes
unfolding ends_with_slash strip_slash
combine_paths [] right = to_lowercase right
combine_paths (c ∷ left) [] = to_lowercase (c ∷ left)
combine_paths (c ∷ left) (d ∷ right) = to_lowercase (
    (c ∷ left)
    ++ ((if ends_with_slash (c ∷ left) then [] else b'/' ∷ []) ++ strip_slash (d ∷ right)))

-- What `opendir` and `readdir` give of a folder of the SD card, in order: regular files, folders,
-- with whether they can be opened and what they hold, and entries of other types.
pub data Listing : Type 0 where
  end : Listing
  file : Bytes → Listing → Listing
  folder : Bytes → Bool → Listing → Listing → Listing
  other : Bytes → Listing → Listing

-- `strcmp(d_name, ".") == 0 || strcmp(d_name, "..") == 0`
is_dots : Bytes → Bool
is_dots name = if bytes_eq name (codes ".") then true else bytes_eq name (codes "..")

-- Whether a folder patch failed, and the state that it left.
abbrev pub FolderResult : Type 0
FolderResult = Bool × Loader

-- The loop of `_rrc_riivo_handle_folder_patch` over an open folder. An error in a folder below ends
-- it, with what was registered up to there.
handle_entries : (Bytes → Bool) → Bytes → Bytes → Bool → Listing → Loader → FolderResult
unfolding is_dots
handle_entries exists disc_path external_path recursive end st = (false, st)
handle_entries exists disc_path external_path recursive (other name rest) st =
    handle_entries exists disc_path external_path recursive rest st
handle_entries exists disc_path external_path recursive (file name rest) st =
    handle_entries exists disc_path external_path recursive rest (
      if is_dots name
      then st
      else handle_file_patch exists st (combine_paths disc_path name)
          (combine_paths external_path name) false)
handle_entries exists disc_path external_path recursive (folder name opens content rest) st =
    let below =
      handle_entries exists (combine_paths disc_path name) (combine_paths external_path name) true
        content st in
    let skipped = handle_entries exists disc_path external_path recursive rest st in
    let after = handle_entries exists disc_path external_path recursive rest below.1 in
    if is_dots name
    then skipped
    else if not recursive
    then skipped
    else if not opens
    then (true, st)
    else if below.0
    then (true, below.1)
    else after

-- `_rrc_riivo_handle_folder_patch`
pub handle_folder_patch :
    (Bytes → Bool) → Bytes → Bytes → Bool → Bool → Listing → Loader → FolderResult
unfolding handle_entries
handle_folder_patch exists disc_path external_path recursive opens listing st =
    if opens then handle_entries exists disc_path external_path recursive listing st else (true, st)
