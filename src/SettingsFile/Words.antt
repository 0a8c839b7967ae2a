-- ===== src/SettingsFile/Words.antt =====
-- Entries of the settings file of source/settingsfile.c: what is written is read back.
use rr_launcher.Prelude.{
  ℕ, ◌+◌, ◌*◌, ◌/◌, ◌%◌, ◌^◌, ◌<◌, ◌≡◌, refl, ap, true, List, [], ◌∷◌, ◌++◌, String, length,
  length-append, take, drop, leb, lt→ltb, Bytes, arith, All,
}
use rr_launcher.Result.{done}
use rr_launcher.SettingsFile.{
  Settings, be32, read_u32, set_value, parse_entry, parse_entries, check,
}

-- A `u32` is read back from its bytes.
pub read_u32-be32 :
    (what : String) (n : ℕ) (rest : Bytes)
    → n < 2 ^ 32
    → read_u32 what (be32 n ++ rest) ≡ done (n, rest)
unfolding read_u32 be32
read_u32-be32 what n rest h =
    let value : ((n / 2 ^ 24 % 256 * 256 + n / 2 ^ 16 % 256) * 256 + n / 2 ^ 8 % 256) * 256
          + n % 256
        ≡ n =
      omega arith in
    ap (λ (m : ℕ). done (m, rest)) value

take-length : (xs ys : Bytes) → take (length xs) (xs ++ ys) ≡ xs
take-length [] ys = refl
take-length (x ∷ xs) ys = ap (◌∷◌ x) (take-length xs ys)

drop-length : (xs ys : Bytes) → drop (length xs) (xs ++ ys) ≡ ys
drop-length [] ys = refl
drop-length (x ∷ xs) ys = drop-length xs ys

-- A key and a value.
pub record Setting : Type 0 where
  pub key : Bytes
  pub value : ℕ

-- A key short enough to be read, and a `u32`.
pub record IsSetting (e : Setting) : Type 0 where
  pub short : length e.key < 32
  pub word : e.value < 2 ^ 32

-- Entries as they stand in the file.
unfoldable pub encoded : List Setting → Bytes
encoded [] = []
encoded (e ∷ es) = be32 (length e.key) ++ (e.key ++ (be32 4 ++ (be32 e.value ++ encoded es)))

-- The settings after the entries, one after the other.
unfoldable pub assigned : Settings → List Setting → Settings
assigned settings [] = settings
assigned settings (e ∷ es) = assigned (set_value settings e.key e.value) es

parse_entry-encoded :
    (s : Settings) (e : Setting) (rest : Bytes)
    → IsSetting e
    → parse_entry s (be32 (length e.key) ++ (e.key ++ (be32 4 ++ (be32 e.value ++ rest))))
      ≡ done (set_value s e.key e.value, rest)
unfolding parse_entry check
parse_entry-encoded s e rest p =
    let after = be32 4 ++ (be32 e.value ++ rest) in
    let whole : leb (length e.key) (length (e.key ++ after)) ≡ true =
      ground (arith, length-append {0} e.key after) in
    rw (
      read_u32-be32 "Failed to read length of key" (length e.key) (e.key ++ after)
          (omega (arith, p.short)),
      lt→ltb (length e.key) 32 p.short,
      whole,
      take-length e.key after,
      drop-length e.key after,
      read_u32-be32 "Failed to read length of value" 4 (be32 e.value ++ rest) (omega arith),
      read_u32-be32 "Failed to fully read u32 value" e.value rest p.word,
    )

-- Any entries with short keys are read in turn: each assigns to the setting that its key names, a key
-- that names none is skipped, and the parse succeeds.
pub parse_entries-encoded :
    (s : Settings) (es : List Setting)
    → All IsSetting es
    → parse_entries (length es) (encoded es) s ≡ (assigned s es, done tt)
unfolding parse_entries encoded assigned
parse_entries-encoded s [] a = refl
parse_entries-encoded s (e ∷ es) a =
    rw (parse_entries, parse_entry-encoded s e (encoded es) a.0)
      (parse_entries-encoded (set_value s e.key e.value) es a.1)
