-- ===== src/PatchLoader/Xml/Limits.antt =====
-- The arrays of fixed length in source/loader/riivo_patch_loader.c: the enabled patches and the memory
-- patches.
use mathlib.Core.List.{append_assoc, append-nil}
use rr_launcher.Prelude.{
  ℕ, suc, ◌+◌, ◌-◌, ◌≤◌, ◌≡◌, sym, ap, ap₂, ◌∙◌, true, false, Option, none, some, List, [], ◌∷◌,
  ◌++◌, length, length-append, get_elem?, ltb, leb, ◌==◌, if◌then◌else◌, Bytes, codes, bytes_eq,
  arith, Bool-cases, Option-cases, inl, inr, All,
}
use rr_launcher.Result.{done, fault, Ensures, Ensures-done, >>=-eq-done}
use rr_launcher.Riivo.{MemoryPatch}
use rr_launcher.PatchLoader.Xml.{
  Choice, XmlOption, MemoryElement, Output, required, corrupted, max_enabled_settings,
  max_memory_patches, append_patches, append_choice, find_option, append_patches_for_option,
  active_patches, with_valuefile, handle_memories, strtoul, optional_original,
}

-- A list that fits the array of the enabled patches.
abbrev Fits : List Bytes → Type 0
Fits l = length l ≤ max_enabled_settings

append_patches-Fits :
    (choice : Choice) (l : List Bytes) → Fits l → Ensures Fits (append_patches choice l)
unfolding append_patches required corrupted
append_patches-Fits [] l h = h
append_patches-Fits ((element, id) ∷ rest) l h =
    elim (Bool-cases (bytes_eq element (codes "patch"))) [
      | inr other ↦ rw other (append_patches-Fits rest l h)
      | inl patch ↦ elim (Option-cases id) [
        | inl missing ↦ rw (patch, missing) tt
        | inr (name, there) ↦ elim (Bool-cases (leb max_enabled_settings (length l))) [
          | inl full ↦ rw (patch, there, full) tt
          | inr room ↦
              rw (patch, there, room)
                (append_patches-Fits rest (l ++ name ∷ [])
                  (ground (arith, length-append {0} l (name ∷ []))))
        ]
      ]
    ]

append_choice-Fits :
    (o : Option Choice) (l : List Bytes) → Fits l → Ensures Fits (append_choice o l)
unfolding append_choice corrupted
append_choice-Fits none l h = tt
append_choice-Fits (some choice) l h = append_patches-Fits choice l h

find_option-Fits :
    (options : List XmlOption) (name : Bytes) (value : ℕ) (l : List Bytes)
    → Fits l
    → Ensures Fits (find_option options name value l)
unfolding find_option corrupted
find_option-Fits [] name value l h = tt
find_option-Fits (option ∷ options) name value l h = elim (Option-cases option.name) [
  | inl missing ↦ rw missing tt
  | inr (option_name, there) ↦ elim (Bool-cases (bytes_eq option_name name)) [
    | inl here ↦ rw (there, here) (append_choice-Fits (get_elem? option.choices (value - 1)) l h)
    | inr later ↦ rw (there, later) (find_option-Fits options name value l h)
  ]
]

append_patches_for_option-Fits :
    (options : List XmlOption) (name : Bytes) (value : ℕ) (l : List Bytes)
    → Fits l
    → Ensures Fits (append_patches_for_option options name value l)
unfolding append_patches_for_option
append_patches_for_option-Fits options name value l h = elim (Bool-cases (value == 0)) [
  | inl off ↦ rw off h
  | inr on ↦ rw on (find_option-Fits options name value l h)
]

-- Whatever the XML and the setting, the enabled patches fit the array of 64 that holds them.
pub active_patches-fit :
    (options : List XmlOption) (my_stuff : ℕ) (active : List Bytes)
    → active_patches options my_stuff ≡ done active
    → length active ≤ max_enabled_settings
unfolding active_patches
active_patches-fit options my_stuff active e =
    let (first, got, rest) =
      >>=-eq-done (append_patches_for_option options (codes "My Stuff") my_stuff [])
        (λ first. append_patches_for_option options (codes "Pack") 1 first) e in
    let fits =
      Ensures-done Fits (append_patches_for_option options (codes "My Stuff") my_stuff []) first
        (append_patches_for_option-Fits options (codes "My Stuff") my_stuff [] (omega arith)) got in
    Ensures-done Fits (append_patches_for_option options (codes "Pack") 1 first) active
      (append_patches_for_option-Fits options (codes "Pack") 1 first fits) rest

-- A `<memory>` with an address and a value, and no value file.
pub record IsPlain (m : MemoryElement) : Type 0 where
  pub addr : Bytes
  pub offset_there : m.offset ≡ some addr
  pub no_file : m.valuefile ≡ none
  pub word : Bytes
  pub value_there : m.value ≡ some word

-- The patch that such an element asks for.
pub patch_of : (m : MemoryElement) → IsPlain m → MemoryPatch
patch_of m p = record {
  addr = strtoul p.addr;
  value = strtoul p.word;
  original = optional_original m.original;
}

pub patches_of : (ms : List MemoryElement) → All IsPlain ms → List MemoryPatch
unfolding patch_of
patches_of [] a = []
patches_of (m ∷ ms) a = patch_of m a.0 ∷ patches_of ms a.1

-- Memory patches that fit the array of 128 are all taken, in order; where there are more, one is
-- written past its end, since their number is not checked.
pub handle_memories-IsPlain :
    (path : Bytes) (ms : List MemoryElement) (out : Output) (a : All IsPlain ms)
    → length out.mem_patches ≤ max_memory_patches
    → handle_memories path ms out ≡ (
        if leb (length out.mem_patches + length ms) max_memory_patches
        then done (record out { mem_patches = out.mem_patches ++ patches_of ms a })
        else fault)
unfolding handle_memories with_valuefile required patches_of patch_of
handle_memories-IsPlain path [] out a h =
    let fits : leb (length out.mem_patches + 0) max_memory_patches ≡ true = ground arith in
    rw fits (
      ap (λ (l : List MemoryPatch). done (record out { mem_patches = l }))
        (sym (append-nil out.mem_patches)))
handle_memories-IsPlain path (m ∷ ms) out a h =
    let p = a.0 in
    let patch = patch_of m p in
    let taken = out.mem_patches ++ patch ∷ [] in
    elim (Bool-cases (ltb (length out.mem_patches) max_memory_patches)) [
      | inl room ↦
          let count : length taken + length ms ≡ length out.mem_patches + suc (length ms) =
            omega (arith, length-append {0} out.mem_patches (patch ∷ [])) in
          let fits : length taken ≤ max_memory_patches =
            ground (arith, length-append {0} out.mem_patches (patch ∷ [])) in
          rw (p.offset_there, p.no_file, p.value_there, room)
            (handle_memories-IsPlain path ms (record out { mem_patches = taken }) a.1 fits
              ∙ ap₂
                  (λ (n : ℕ) (l : List MemoryPatch).
                    if leb n max_memory_patches
                    then done (record out { mem_patches = l })
                    else fault)
                  count (append_assoc out.mem_patches (patch ∷ []) (patches_of ms a.1)))
      | inr full ↦
          let over : leb (length out.mem_patches + suc (length ms)) max_memory_patches ≡ false =
            ground arith in
          rw (p.offset_there, p.no_file, p.value_there, full, over)
    ]
