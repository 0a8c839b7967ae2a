-- ===== src/PatchLoader/Xml.antt =====
-- The walk over the Riivolution XML in source/loader/riivo_patch_loader.c. The XML library is not
-- modelled: the records hold what it gives of each element, in the order in which it gives them.
pub mod Limits
pub mod Paths
pub mod Keeps
pub mod Walk
mod Tests
use rr_launcher.Prelude.{
  ℕ, suc, ◌+◌, ◌-◌, ◌*◌, ◌^◌, Bool, true, false, not, ◌&&◌, ◌||◌, Option, none, some, List, [], ◌∷◌,
  ◌++◌, String, length, get_elem?, ltb, leb, ◌==◌, if◌then◌else◌, Bytes, codes, bytes_eq, u32,
  u32_mod, min,
}
use rr_launcher.Result.{Outcome, done, error, fault, ErrorSource, ◌>>=◌, ◌>>◌, defined, read}
use rr_launcher.Hash.{to_lowercase}
use rr_launcher.Riivo.{MemoryPatch}
use rr_launcher.PatchLoader.{Loader, Listing, handle_file_patch, handle_folder_patch}

-- A `<choice>`: its elements from the first `<patch>` on, each with its name and its `id`.
abbrev pub Choice : Type 0
Choice = List (Bytes × Option Bytes)

-- An `<option>`: its name, and its elements from the first `<choice>` on.
pub record XmlOption : Type 0 where
  pub name : Option Bytes
  pub choices : List Choice

-- The attributes of a `<file>`, a `<folder>` and a `<memory>`.
pub record FileElement : Type 0 where
  pub disc : Option Bytes
  pub external : Option Bytes

pub record FolderElement : Type 0 where
  pub disc : Option Bytes
  pub external : Option Bytes
  pub recursive : Option Bytes

pub record MemoryElement : Type 0 where
  pub offset : Option Bytes
  pub valuefile : Option Bytes
  pub value : Option Bytes
  pub original : Option Bytes

-- A `<patch>`.
pub record PatchElement : Type 0 where
  pub id : Option Bytes
  pub files : List FileElement
  pub folders : List FolderElement
  pub memories : List MemoryElement

corrupted {ℓ} : {A : Type ℓ} → String → Outcome A
corrupted context = error ErrorSource.corrupted_rr_xml context

-- An attribute without which the XML is corrupted.
required : Option Bytes → String → Outcome Bytes
unfolding corrupted
required (some value) context = done value
required none context = corrupted context

-- `MAX_ENABLED_SETTINGS` and `MAX_MEMORY_PATCHES`
abbrev pub max_enabled_settings : ℕ
max_enabled_settings = 64

abbrev pub max_memory_patches : ℕ
max_memory_patches = 128

-- The loop that appends the patches of the selected choice.
pub append_patches : Choice → List Bytes → Outcome (List Bytes)
unfolding required corrupted
append_patches [] patch_list = done patch_list
append_patches ((element, id) ∷ rest) patch_list =
    let appended = (do
      patch_name ← required id "<patch> without an id encountered"
      if leb max_enabled_settings (length patch_list)
          then corrupted "Attempted to enable more than MAX_ENABLED_SETTINGS settings!"
          else append_patches rest (patch_list ++ patch_name ∷ [])) in
    let skipped = append_patches rest patch_list in
    if bytes_eq element (codes "patch") then appended else skipped

append_choice : Option Choice → List Bytes → Outcome (List Bytes)
unfolding append_patches corrupted
append_choice (some choice) patch_list = append_patches choice patch_list
append_choice none patch_list = corrupted "choice option has no children"

-- The loop over the options; comparing with a name that is not there is a fault.
find_option : List XmlOption → Bytes → ℕ → List Bytes → Outcome (List Bytes)
unfolding append_choice corrupted
find_option [] name value patch_list = corrupted "option not found in xml"
find_option (option ∷ options) name value patch_list = do
  option_name ← read option.name
  let later = find_option options name value patch_list
  if bytes_eq option_name name
      then append_choice (get_elem? option.choices (value - 1)) patch_list
      else later

-- `rrc_patch_loader_append_patches_for_option`
pub append_patches_for_option : List XmlOption → Bytes → ℕ → List Bytes → Outcome (List Bytes)
unfolding find_option
append_patches_for_option options name value patch_list =
    if value == 0 then done patch_list else find_option options name value patch_list

-- The digit that a character is in base 16.
hex_digit : ℕ → Option ℕ
hex_digit c =
    if leb b'0' c && leb c b'9'
    then some (c - b'0')
    else if leb b'a' c && leb c b'f'
    then some (c - b'a' + 10)
    else if leb b'A' c && leb c b'F'
    then some (c - b'A' + 10)
    else none

hex_value : ℕ → Bytes → ℕ
unfolding hex_digit
hex_value acc [] = acc
hex_value acc (c ∷ s) = elim (hex_digit c) [ none ↦ acc | some d ↦ hex_value (acc * 16 + d) s ]

is_hex : Bytes → Bool
unfolding hex_digit
is_hex [] = false
is_hex (c ∷ s) = elim (hex_digit c) [ none ↦ false | some d ↦ true ]

-- The digits behind an optional "0x" or "0X".
hex_unsigned : Bytes → ℕ
unfolding hex_value is_hex
hex_unsigned (a ∷ b ∷ s) =
    if (a == b'0' && (b == b'x' || b == b'X')) && is_hex s
    then hex_value 0 s
    else hex_value 0 (a ∷ b ∷ s)
hex_unsigned s = hex_value 0 s

hex_signed : Bytes → ℕ
unfolding hex_unsigned
hex_signed [] = 0
hex_signed (c ∷ s) =
    if c == b'-'
    then (if leb u32_mod (hex_unsigned s) then u32_mod - 1 else u32 (u32_mod - hex_unsigned s))
    else if c == b'+'
    then min (hex_unsigned s) (u32_mod - 1)
    else min (hex_unsigned (c ∷ s)) (u32_mod - 1)

skip_spaces : Bytes → Bytes
skip_spaces [] = []
skip_spaces (c ∷ s) =
    let rest = skip_spaces s in if c == b' ' || (leb 9 c && leb c 13) then rest else c ∷ s

-- `strtoul(s, NULL, 16)`, whose `unsigned long` has 32 bits.
pub strtoul : Bytes → ℕ
unfolding hex_signed skip_spaces
strtoul s = hex_signed (skip_spaces s)

-- What `rrc_riivo_patch_loader_parse` collects.
pub record Output : Type 0 where
  pub loader : Loader
  pub mem_patches : List MemoryPatch
  pub loader_pul_dest : Option ℕ

optional_original : Option Bytes → Option ℕ
unfolding strtoul
optional_original none = none
optional_original (some original) = some (strtoul original)

module _ (loader_pul_path : Bytes) where
  -- The branch on `valuefile`.
  pub with_valuefile : Bytes → Option Bytes → MemoryElement → Output → Outcome Output
  unfolding corrupted required strtoul optional_original
  with_valuefile addr (some valuefile) memory out =
      if bytes_eq valuefile loader_pul_path
      then done (record out { loader_pul_dest = some (strtoul addr) })
      else corrupted "Unsupported valuefile in memory patch"
  with_valuefile addr none memory out = do
    value ← required memory.value "missing value attribute on memory replacement"
    defined (ltb (length out.mem_patches) max_memory_patches)
    let patch : MemoryPatch = record {
      addr = strtoul addr;
      value = strtoul value;
      original = optional_original memory.original;
    }
    done (record out { mem_patches = out.mem_patches ++ patch ∷ [] })

  -- The loop over the `<memory>` elements of a patch.
  pub handle_memories : List MemoryElement → Output → Outcome Output
  unfolding with_valuefile required
  handle_memories [] out = done out
  handle_memories (memory ∷ rest) out = do
    addr ← required memory.offset "missing offset attribute on memory replacement"
    out ← with_valuefile addr memory.valuefile memory out
    handle_memories rest out

-- The loop over the `<file>` elements; `exists` says which files can be opened.
pub handle_files : (Bytes → Bool) → List FileElement → Loader → Outcome Loader
unfolding required
handle_files exists [] st = done st
handle_files exists (file ∷ rest) st = do
  disc ← required file.disc "missing disc attribute on file replacement"
  external ← required file.external "missing external attribute on file replacement"
  handle_files exists rest
      (handle_file_patch exists st (to_lowercase disc) (to_lowercase external) true)

or_empty : Option Bytes → Bytes
or_empty none = []
or_empty (some s) = s

is_recursive : Option Bytes → Bool
is_recursive none = true
is_recursive (some s) = bytes_eq s (codes "true")

-- The loop over the `<folder>` elements, over the folders of the SD card. What a folder patch
-- returns is dropped.
pub handle_folders :
    (Bytes → Bool) → (Bytes → Bool × Listing) → List FolderElement → Loader → Outcome Loader
unfolding required or_empty is_recursive
handle_folders exists folder_at [] st = done st
handle_folders exists folder_at (folder ∷ rest) st = do
  external ← required folder.external "missing external attribute on folder replacement"
  let opened = folder_at external
  let handled =
      handle_folder_patch exists (or_empty folder.disc) external (is_recursive folder.recursive)
        opened.0 opened.1 st
  handle_folders exists folder_at rest handled.1

-- The test for an enabled patch; comparing with an `id` that is not there is a fault.
pub is_enabled : List Bytes → Option Bytes → Outcome Bool
is_enabled [] id = done false
is_enabled (active ∷ rest) none = fault
is_enabled (active ∷ rest) (some id) =
    let later = is_enabled rest (some id) in if bytes_eq active id then done true else later

module _ (exists : Bytes → Bool) (folder_at : Bytes → Bool × Listing)
    (loader_pul_path : Bytes) where
  pub handle_patch : PatchElement → Output → Outcome Output
  unfolding handle_files handle_folders handle_memories
  handle_patch patch out = do
    st ← handle_files exists patch.files out.loader
    st ← handle_folders exists folder_at patch.folders st
    handle_memories loader_pul_path patch.memories (record out { loader = st })

  -- The loop over the `<patch>` elements.
  pub handle_patches : List Bytes → List PatchElement → Output → Outcome Output
  unfolding is_enabled handle_patch
  handle_patches active [] out = done out
  handle_patches active (patch ∷ rest) out = do
    enabled ← is_enabled active patch.id
    let skipped = handle_patches active rest out
    let handled = (do out ← handle_patch patch out; handle_patches active rest out)
    if enabled then handled else skipped

-- The patches that the settings enable: those of "My Stuff", then those of the pack.
pub active_patches : List XmlOption → ℕ → Outcome (List Bytes)
unfolding append_patches_for_option
active_patches options my_stuff = do
  first ← append_patches_for_option options (codes "My Stuff") my_stuff []
  append_patches_for_option options (codes "Pack") 1 first
