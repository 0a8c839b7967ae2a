-- ===== src/VersionsFile/Entries.antt =====
-- The lists of updates and of deleted files in source/update/versionsfile.c.
use mathlib.Core.List.{append_assoc, append-nil}
use rr_launcher.Prelude.{
  ℕ, ◌+◌, ◌<◌, ◌≤◌, ◌≡◌, refl, sym, ap, ◌∙◌, Bool, true, false, List, [], ◌∷◌, ◌++◌, length,
  length-append, lt→ltb, ◌==◌, if◌then◌else◌, Bytes, arith, Bool-cases, inl, inr, All, map,
  length-map, ==_iff, String, ◌*◌,
}
use rr_launcher.Result.{done}
use rr_launcher.Version.{Version, is_older, from_string}
use rr_launcher.VersionsFile.{
  split_lim, split_room, split_ok, split_by, Entry, read_line, read_parts, newer_entries,
  get_necessary_urls_and_versions, parse_deleted_files,
}
use rr_launcher.VersionsFile.Split.{fields, in_front, split_by-fields}

-- A text without a separator.
abbrev pub IsFree : ℕ → Bytes → Type 0
IsFree by = All (λ c. (c == by) ≡ false)

-- A line of the file: the text of a version, a space, and the target.
pub record Line : Type 0 where
  pub text : Bytes
  pub entry : Entry

line_of : Line → Bytes
line_of l = l.text ++ b' ' ∷ l.entry.target

-- The whole file, each line ended by a line feed.
pub text_of : List Line → Bytes
unfolding line_of
text_of [] = []
text_of (l ∷ ls) = line_of l ++ b'\n' ∷ text_of ls

-- The version is the one of the text; neither text is empty or has a separator.
pub record IsLine (l : Line) : Type 0 where
  pub version : from_string l.text ≡ done l.entry.version
  pub text_free : IsFree b' ' l.text
  pub target_free : IsFree b' ' l.entry.target
  pub target_filled : 0 < length l.entry.target
  pub text_inline : IsFree b'\n' l.text
  pub target_inline : IsFree b'\n' l.entry.target

-- The entries with a newer version, in the order of the file.
pub newer_of : Version → List Line → List Entry
newer_of current [] = []
newer_of current (l ∷ ls) =
    if is_older current l.entry.version then l.entry ∷ newer_of current ls else newer_of current ls

fields-field :
    (by : ℕ) (s rest : Bytes) → IsFree by s → fields by (s ++ by ∷ rest) ≡ s ∷ fields by rest
unfolding fields in_front
fields-field by [] rest p = rw (==_iff by by).1 refl
fields-field by (c ∷ s) rest p = rw (p.0, fields-field by s rest p.1)

fields-last : (by : ℕ) (s : Bytes) → IsFree by s → 0 < length s → fields by s ≡ s ∷ []
unfolding fields in_front
fields-last by [] p h = elim h [ ]
fields-last by (c ∷ []) p h = rw p.0
fields-last by (c ∷ d ∷ s) p h = rw (p.0, fields-last by (d ∷ s) p.1 (omega arith))

All-append {ℓ κ} :
    {A : Type ℓ} (P : A → Type κ) (xs ys : List A) → All P xs → All P ys → All P (xs ++ ys)
All-append P [] ys p q = q
All-append P (x ∷ xs) ys p q = (p.0, All-append P xs ys p.1 q)

fields-text_of : (ls : List Line) → All IsLine ls → fields b'\n' (text_of ls) ≡ map line_of ls
unfolding text_of line_of fields
fields-text_of [] a = refl
fields-text_of (l ∷ ls) a =
    fields-field b'\n' (line_of l) (text_of ls) (
      All-append (λ c. (c == b'\n') ≡ false) l.text (b' ' ∷ l.entry.target) a.0.text_inline
        (refl, a.0.target_inline))
    ∙ ap (◌∷◌ (line_of l)) (fields-text_of ls a.1)

module _ (allocates : ℕ → Bool) (memory : (n : ℕ) → allocates n ≡ true) (current : Version) where
  read_line-IsLine :
      (room : ℕ) (failed : String) (l : Line)
      → IsLine l
      → read_line allocates current room failed (line_of l) ≡ done l.entry
  unfolding read_line read_parts line_of
  read_line-IsLine room failed l p =
      let two : fields b' ' (line_of l) ≡ l.text ∷ l.entry.target ∷ [] =
        fields-field b' ' l.text l.entry.target p.text_free
        ∙ ap (λ (t : List Bytes). l.text ∷ t)
            (fields-last b' ' l.entry.target p.target_free p.target_filled) in
      let few : length (fields b' ' (line_of l)) ≤ split_room =
        omega (arith, ap (length {A = Bytes}) two) in
      let split =
        split_by-fields allocates b' ' memory (line_of l) few
        ∙ ap (λ (t : List Bytes). done (split_ok, t)) two in
      rw (split, p.version)

  split_lines :
      (ls : List Line)
      → All IsLine ls
      → length ls ≤ split_room
      → split_by allocates b'\n' (text_of ls) ≡ done (split_ok, map line_of ls)
  split_lines ls a h =
      let few : length (fields b'\n' (text_of ls)) ≤ split_room =
        omega
          (arith, ap (length {A = Bytes}) (fields-text_of ls a), length-map {0, 0} ls line_of, h) in
      split_by-fields allocates b'\n' memory (text_of ls) few
      ∙ ap (λ (t : List Bytes). done (split_ok, t)) (fields-text_of ls a)

  newer_entries-lines :
      (room : ℕ) (failed : String) (found : List Entry) (ls : List Line)
      → All IsLine ls
      → length found + length ls ≤ room
      → newer_entries allocates current room failed found (map line_of ls)
        ≡ done (found ++ newer_of current ls)
  unfolding newer_entries newer_of
  newer_entries-lines room failed found [] a h = ap done (sym (append-nil found))
  newer_entries-lines room failed found (l ∷ ls) a h =
      elim (Bool-cases (is_older current l.entry.version)) [
        | inl newer ↦
            rw (read_line-IsLine room failed l a.0, newer, lt→ltb (length found) room (omega arith))
              (newer_entries-lines room failed (found ++ l.entry ∷ []) ls a.1
                  (omega (arith, length-append {0} found (l.entry ∷ []), h))
                ∙ ap done (append_assoc found (l.entry ∷ []) (newer_of current ls)))
        | inr older ↦
            rw (read_line-IsLine room failed l a.0, older)
              (newer_entries-lines room failed found ls a.1 (omega (arith, h)))
      ]

  -- Where there is memory, and a file has at most 1024 lines, each a version, a space and a URL, the
  -- updates are the lines whose version is newer than the current one, in the order of the file.
  pub get_necessary_urls_and_versions-newer :
      (ls : List Line)
      → All IsLine ls
      → length ls ≤ split_room
      → get_necessary_urls_and_versions allocates current (text_of ls) ≡ done (newer_of current ls)
  unfolding get_necessary_urls_and_versions
  get_necessary_urls_and_versions-newer ls a h =
      rw (split_lines ls a h, memory split_lim, memory (split_lim * 12))
        (newer_entries-lines split_room "Failed to split versionfile" [] ls a (omega (arith, h)))

  -- Where there is memory, and a file has at most 1024 lines, each a version, a space and a path, the
  -- deleted files are the lines whose version is newer than the current one, in the order of the file.
  pub parse_deleted_files-newer :
      (ls : List Line)
      → All IsLine ls
      → length ls ≤ split_room
      → parse_deleted_files allocates current (text_of ls) ≡ done (newer_of current ls)
  unfolding parse_deleted_files
  parse_deleted_files-newer ls a h =
      rw (split_lines ls a h, memory (split_lim * 16))
        (newer_entries-lines split_lim "Failed to split deleted versionfile" [] ls a
          (omega (arith, h)))
