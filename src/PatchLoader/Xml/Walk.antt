-- ===== src/PatchLoader/Xml/Walk.antt =====
-- The walk over all patches in source/loader/riivo_patch_loader.c.
use rr_launcher.Prelude.{
  ◌≡◌, Bool, true, false, if◌then◌else◌, Option, none, some, List, [], ◌∷◌, Bytes, bytes_eq,
  Bool-cases, Option-cases, inl, inr, All, ltb, length,
}
use rr_launcher.Result.{Outcome, done, error, fatal, fault, ◌>>=◌, Ensures, Ensures-done}
use rr_launcher.PatchLoader.{Listing}
use rr_launcher.PatchLoader.Files.{IsLoader}
use rr_launcher.PatchLoader.Xml.{
  MemoryElement, PatchElement, Output, max_memory_patches, required, corrupted, with_valuefile,
  handle_memories, handle_files, handle_folders, is_enabled, handle_patch, handle_patches,
}
use rr_launcher.PatchLoader.Xml.Keeps.{
  IsListing, IsText, handle_files-IsLoader, handle_folders-IsLoader,
}

-- The disc paths of a patch are C strings.
pub record IsPatch (patch : PatchElement) : Type 0 where
  pub file_texts : All (λ f. IsText f.disc) patch.files
  pub folder_texts : All (λ f. IsText f.disc) patch.folders

Ensures->>= {ℓ κ} :
    {A B : Type ℓ} (P : A → Type κ) (Q : B → Type κ) (m : Outcome A) (k : A → Outcome B)
    → Ensures P m
    → ((a : A) → P a → Ensures Q (k a))
    → Ensures Q (m >>= k)
Ensures->>= P Q (done a) k p q = q a p
Ensures->>= P Q (error source context) k p q = tt
Ensures->>= P Q (fatal message) k p q = tt
Ensures->>= P Q fault k p q = tt

nothing_known {ℓ} : {A : Type ℓ} (m : Outcome A) → Ensures (λ a. Unit {0}) m
nothing_known (done a) = tt
nothing_known (error source context) = tt
nothing_known (fatal message) = tt
nothing_known fault = tt

-- The loader's invariant, of what was collected.
abbrev Keeps : Output → Type 0
Keeps out = IsLoader out.loader

with_valuefile-Keeps :
    (path addr : Bytes) (o : Option Bytes) (m : MemoryElement) (out : Output)
    → Keeps out
    → Ensures Keeps (with_valuefile path addr o m out)
unfolding with_valuefile required corrupted
with_valuefile-Keeps path addr (some valuefile) m out ok =
    elim (Bool-cases (bytes_eq valuefile path)) [
      | inl pul ↦ rw pul ok
      | inr unknown ↦ rw unknown tt
    ]
with_valuefile-Keeps path addr none m out ok = elim (Option-cases m.value) [
  | inl missing ↦ rw missing tt
  | inr (value, there) ↦ elim (Bool-cases (ltb (length out.mem_patches) max_memory_patches)) [
    | inl room ↦ rw (there, room) ok
    | inr full ↦ rw (there, full) tt
  ]
]

handle_memories-Keeps :
    (path : Bytes) (ms : List MemoryElement) (out : Output)
    → Keeps out
    → Ensures Keeps (handle_memories path ms out)
unfolding handle_memories required corrupted
handle_memories-Keeps path [] out ok = ok
handle_memories-Keeps path (m ∷ ms) out ok =
    Ensures->>= (λ addr. Unit) Keeps (required m.offset _) _ (nothing_known (required m.offset _))
      λ addr u.
        Ensures->>= (Keeps) Keeps (with_valuefile path addr m.valuefile m out)
          (handle_memories path ms) (with_valuefile-Keeps path addr m.valuefile m out ok)
          (handle_memories-Keeps path ms)

if-Keeps :
    (b : Bool) (x y : Outcome Output)
    → Ensures Keeps x
    → Ensures Keeps y
    → Ensures Keeps (if b then x else y)
if-Keeps true x y p q = p
if-Keeps false x y p q = q

module _ (exists : Bytes → Bool) (folder_at : Bytes → Bool × Listing)
    (names : (path : Bytes) → IsListing (folder_at path).1) (loader_pul_path : Bytes) where
  handle_patch-Keeps :
      (patch : PatchElement) (out : Output)
      → IsPatch patch
      → Keeps out
      → Ensures Keeps (handle_patch exists folder_at loader_pul_path patch out)
  unfolding handle_patch
  handle_patch-Keeps patch out p ok =
      Ensures->>= (IsLoader) Keeps (handle_files exists patch.files out.loader) _
        (handle_files-IsLoader exists patch.files out.loader p.file_texts ok)
        λ st ok.
          Ensures->>= (IsLoader) Keeps (handle_folders exists folder_at patch.folders st) _
            (handle_folders-IsLoader exists folder_at names patch.folders st p.folder_texts ok)
            λ st ok.
              handle_memories-Keeps loader_pul_path patch.memories (record out { loader = st }) ok

  handle_patches-Keeps :
      (active : List Bytes) (patches : List PatchElement) (out : Output)
      → All IsPatch patches
      → Keeps out
      → Ensures Keeps (handle_patches exists folder_at loader_pul_path active patches out)
  unfolding handle_patches
  handle_patches-Keeps active [] out a ok = ok
  handle_patches-Keeps active (patch ∷ patches) out a ok =
      Ensures->>= (λ enabled. Unit) Keeps (is_enabled active patch.id) _
        (nothing_known (is_enabled active patch.id))
        λ enabled u.
          if-Keeps enabled
            (handle_patch exists folder_at loader_pul_path patch out
              >>= handle_patches exists folder_at loader_pul_path active patches)
            (handle_patches exists folder_at loader_pul_path active patches out)
            (Ensures->>= (Keeps) Keeps (handle_patch exists folder_at loader_pul_path patch out)
              (handle_patches exists folder_at loader_pul_path active patches)
              (handle_patch-Keeps patch out a.0 ok)
              (λ out ok. handle_patches-Keeps active patches out a.1 ok))
            (handle_patches-Keeps active patches out a.1 ok)

  -- Whichever patches are enabled, a walk over the XML that succeeds keeps the loader's invariant, in
  -- which every replacement is registered once, under the hash of its path in lower case, for a file
  -- that is listed.
  pub handle_patches-IsLoader :
      (active : List Bytes) (patches : List PatchElement) (out out' : Output)
      → All IsPatch patches
      → IsLoader out.loader
      → handle_patches exists folder_at loader_pul_path active patches out ≡ done out'
      → IsLoader out'.loader
  handle_patches-IsLoader active patches out out' a ok e =
      Ensures-done Keeps (handle_patches exists folder_at loader_pul_path active patches out) out'
        (handle_patches-Keeps active patches out a ok) e
