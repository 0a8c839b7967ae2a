-- ===== src/PatchLoader/Xml/Paths.antt =====
-- The disc paths that source/loader/riivo_patch_loader.c registers: C strings in lower case.
use rr_launcher.Prelude.{
  ℕ, ◌<◌, Bool, true, false, [], ◌∷◌, ◌++◌, ◌==◌, if◌then◌else◌, Bytes, arith, Bool-cases, inl, inr,
  IsCString,
}
use rr_launcher.Hash.{tolower, to_lowercase}
use rr_launcher.Hash.Fold.{to_lowercase_idem}
use rr_launcher.Dvd.Search.{strip_slash}
use rr_launcher.PatchLoader.{combine_paths, ends_with_slash}
use rr_launcher.PatchLoader.Files.{IsPath}

tolower-byte : (c : ℕ) → (0 < c) × (c < 256) → (0 < tolower c) × (tolower c < 256)
unfolding tolower
tolower-byte c h = (ground (arith, h.0), ground (arith, h.1))

to_lowercase-IsCString : (s : Bytes) → IsCString s → IsCString (to_lowercase s)
unfolding to_lowercase
to_lowercase-IsCString [] p = p
to_lowercase-IsCString (c ∷ s) p = (tolower-byte c p.0, to_lowercase-IsCString s p.1)

-- A C string in lower case can be registered.
pub to_lowercase-IsPath : (s : Bytes) → IsCString s → IsPath (to_lowercase s)
to_lowercase-IsPath s p = record { folded = to_lowercase_idem s; text = to_lowercase-IsCString s p }

append-IsCString : (a b : Bytes) → IsCString a → IsCString b → IsCString (a ++ b)
append-IsCString [] b p q = q
append-IsCString (c ∷ a) b p q = (p.0, append-IsCString a b p.1 q)

strip_slash-text : (s : Bytes) → IsCString s → IsCString (strip_slash s)
unfolding strip_slash
strip_slash-text [] p = p
strip_slash-text (c ∷ s) p = elim (Bool-cases (c == b'/')) [
  | inl slash ↦ rw slash p.1
  | inr plain ↦ rw plain p
]

separator-IsCString : (b : Bool) → IsCString (if b then [] else b'/' ∷ [])
separator-IsCString true = tt
separator-IsCString false = ((omega arith, omega arith), tt)

-- Two joined C strings can be registered.
pub combine_paths-IsPath :
    (left right : Bytes) → IsCString left → IsCString right → IsPath (combine_paths left right)
unfolding combine_paths
combine_paths-IsPath [] right p q = to_lowercase-IsPath right q
combine_paths-IsPath (c ∷ left) [] p q = to_lowercase-IsPath (c ∷ left) p
combine_paths-IsPath (c ∷ left) (d ∷ right) p q = to_lowercase-IsPath _ (
    append-IsCString (c ∷ left) _ p (
      append-IsCString _ _ (separator-IsCString (ends_with_slash (c ∷ left)))
        (strip_slash-text (d ∷ right) q)))
