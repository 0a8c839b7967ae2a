-- ===== src/PatchLoader/Xml/Keeps.antt =====
-- The loader's invariant across the patches of source/loader/riivo_patch_loader.c.
use rr_launcher.Prelude.{
  ◌≡◌, subst, Bool, true, false, not, Option, none, some, List, [], ◌∷◌, Bytes, Option-cases, inl,
  inr, All, IsCString, if◌then◌else◌,
}
use rr_launcher.Result.{Ensures}
use rr_launcher.Hash.{to_lowercase}
use rr_launcher.PatchLoader.{
  Loader, FolderResult, Listing, end, file, folder, other, is_dots, combine_paths,
  handle_file_patch, handle_entries, handle_folder_patch,
}
use rr_launcher.PatchLoader.Files.{IsLoader, IsPath}
use rr_launcher.PatchLoader.Patches.{handle_file_patch-IsReplaced}
use rr_launcher.PatchLoader.Xml.{
  FileElement, FolderElement, required, corrupted, handle_files, handle_folders, or_empty,
  is_recursive,
}
use rr_launcher.PatchLoader.Xml.Paths.{to_lowercase-IsPath, combine_paths-IsPath}

-- The names in a folder are C strings.
abbrev pub IsListing : Listing → Type 0
IsListing end = Unit
IsListing (file name rest) = IsCString name × IsListing rest
IsListing (folder name opens content rest) = IsCString name × (IsListing content × IsListing rest)
IsListing (other name rest) = IsListing rest

after_file :
    {st patched : Loader} (dots : Bool)
    → IsLoader st
    → IsLoader patched
    → IsLoader (if dots then st else patched)
after_file true ok patched = ok
after_file false ok patched = patched

-- The four ways on from an entry for a folder.
after_folder :
    (dots recursive opens failed : Bool) (skipped : FolderResult) (st below : Loader)
    (after : FolderResult)
    → IsLoader skipped.1
    → IsLoader st
    → IsLoader below
    → IsLoader after.1
    → IsLoader
        (if dots
          then skipped
          else if not recursive
          then skipped
          else if not opens
          then (true, st)
          else if failed
          then (true, below)
          else after).1
after_folder true recursive opens failed skipped st below after p q r s = p
after_folder false false opens failed skipped st below after p q r s = p
after_folder false true false failed skipped st below after p q r s = q
after_folder false true true true skipped st below after p q r s = r
after_folder false true true false skipped st below after p q r s = s

module _ (exists : Bytes → Bool) where
  handle_file_patch-IsLoader :
      (st : Loader) (disc external : Bytes) (check_exists : Bool)
      → IsLoader st
      → IsPath disc
      → IsLoader (handle_file_patch exists st disc external check_exists)
  handle_file_patch-IsLoader st disc external check_exists ok p =
      (handle_file_patch-IsReplaced exists st disc external check_exists ok p).loader

  handle_entries-IsLoader :
      (disc external : Bytes) (recursive : Bool) (listing : Listing) (st : Loader)
      → IsCString disc
      → IsListing listing
      → IsLoader st
      → IsLoader (handle_entries exists disc external recursive listing st).1
  unfolding handle_entries
  handle_entries-IsLoader disc external recursive end st p q ok = ok
  handle_entries-IsLoader disc external recursive (other name rest) st p q ok =
      handle_entries-IsLoader disc external recursive rest st p q ok
  handle_entries-IsLoader disc external recursive (file name rest) st p q ok =
      handle_entries-IsLoader disc external recursive rest _ p q.1 (
        after_file (is_dots name) ok (
          handle_file_patch-IsLoader st (combine_paths disc name) (combine_paths external name)
            false ok (combine_paths-IsPath disc name p q.0)))
  handle_entries-IsLoader disc external recursive (folder name opens content rest) st p q ok =
      let path = combine_paths-IsPath disc name p q.0 in
      let below =
        handle_entries exists (combine_paths disc name) (combine_paths external name) true content
          st in
      let below_ok : IsLoader below.1 =
        handle_entries-IsLoader (combine_paths disc name) (combine_paths external name) true content
          st path.text q.1.0 ok in
      let skipped = handle_entries-IsLoader disc external recursive rest st p q.1.1 ok in
      let after = handle_entries-IsLoader disc external recursive rest below.1 p q.1.1 below_ok in
      after_folder (is_dots name) recursive opens below.0
        (handle_entries exists disc external recursive rest st) st below.1
        (handle_entries exists disc external recursive rest below.1) skipped ok below_ok after

  handle_folder_patch-IsLoader :
      (disc external : Bytes) (recursive opens : Bool) (listing : Listing) (st : Loader)
      → IsCString disc
      → IsListing listing
      → IsLoader st
      → IsLoader (handle_folder_patch exists disc external recursive opens listing st).1
  unfolding handle_folder_patch
  handle_folder_patch-IsLoader disc external recursive true listing st p q ok =
      handle_entries-IsLoader disc external recursive listing st p q ok
  handle_folder_patch-IsLoader disc external recursive false listing st p q ok = ok

-- An attribute, where it is there, is a C string.
abbrev pub IsText : Option Bytes → Type 0
IsText none = Unit
IsText (some s) = IsCString s

text_there : (o : Option Bytes) {s : Bytes} → IsText o → o ≡ some s → IsCString s
text_there o t e = subst IsText e t

or_empty-IsCString : (o : Option Bytes) → IsText o → IsCString (or_empty o)
unfolding or_empty
or_empty-IsCString none t = tt
or_empty-IsCString (some s) t = t

module _ (exists : Bytes → Bool) where
  pub handle_files-IsLoader :
      (files : List FileElement) (st : Loader)
      → All (λ f. IsText f.disc) files
      → IsLoader st
      → Ensures IsLoader (handle_files exists files st)
  unfolding handle_files required corrupted
  handle_files-IsLoader [] st a ok = ok
  handle_files-IsLoader (f ∷ files) st a ok = elim (Option-cases f.disc) [
    | inl no_disc ↦ rw no_disc tt
    | inr (disc, there) ↦ elim (Option-cases f.external) [
      | inl no_external ↦ rw (there, no_external) tt
      | inr (external, given) ↦
          rw (there, given)
            (handle_files-IsLoader files
              (handle_file_patch exists st (to_lowercase disc) (to_lowercase external) true) a.1
              (handle_file_patch-IsLoader exists st (to_lowercase disc) (to_lowercase external) true
                ok (to_lowercase-IsPath disc (text_there f.disc a.0 there))))
    ]
  ]

  module _ (folder_at : Bytes → Bool × Listing)
      (names : (path : Bytes) → IsListing (folder_at path).1) where
    pub handle_folders-IsLoader :
        (folders : List FolderElement) (st : Loader)
        → All (λ f. IsText f.disc) folders
        → IsLoader st
        → Ensures IsLoader (handle_folders exists folder_at folders st)
    unfolding handle_folders required corrupted
    handle_folders-IsLoader [] st a ok = ok
    handle_folders-IsLoader (f ∷ folders) st a ok = elim (Option-cases f.external) [
      | inl no_external ↦ rw no_external tt
      | inr (external, given) ↦ rw given (
          handle_folders-IsLoader folders
            (handle_folder_patch exists (or_empty f.disc) external (is_recursive f.recursive)
              (folder_at external).0 (folder_at external).1 st).1
            a.1
            (handle_folder_patch-IsLoader exists (or_empty f.disc) external
              (is_recursive f.recursive) (folder_at external).0 (folder_at external).1 st
              (or_empty-IsCString f.disc a.0) (names external) ok))
    ]
