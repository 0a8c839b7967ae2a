-- ===== src/SettingsFile/RoundTrip.antt =====
-- What source/settingsfile.c stores, it parses.
use rr_launcher.Prelude.{
  ℕ, ◌^◌, ◌<◌, ◌≤◌, ◌≡◌, refl, ap, ◌∙◌, true, Option, none, some, List, [], ◌∷◌, ◌++◌, String,
  length, leb, codes, Bytes, arith, All,
}
use rr_launcher.Result.{Outcome, done}
use rr_launcher.SettingsFile.{
  Settings, Card, Parsed, magic, format_version, defaults, be32, then_write, fwrite, write_header,
  set_option, store_options, store, create, parse, parse_found, after_create, parse_opened,
  parse_file, parse_header, set_value, check,
}
use rr_launcher.SettingsFile.Words.{
  read_u32-be32, Setting, IsSetting, encoded, assigned, parse_entries-encoded,
}

-- A file: the header, then the entries.
pub document : List Setting → Bytes
document es = be32 magic ++ (be32 format_version ++ (be32 (length es) ++ encoded es))

parse_header-document :
    (es : List Setting)
    → length es < 2 ^ 32
    → parse_header (document es) ≡ done (length es, encoded es)
unfolding parse_header check document
parse_header-document es h = rw (
  read_u32-be32 "Failed to read magic bytes" magic
      (be32 format_version ++ (be32 (length es) ++ encoded es)) (omega arith),
  read_u32-be32 "Failed to read version number" format_version (be32 (length es) ++ encoded es)
      (omega arith),
  read_u32-be32 "Failed to read entry count" (length es) (encoded es) h,
)

-- The settings that a file sets, over the defaults.
pub parse_file-document :
    (es : List Setting)
    → length es < 2 ^ 32
    → All IsSetting es
    → parse_file (document es) ≡ (assigned defaults es, done tt)
unfolding parse_file
parse_file-document es h a =
    rw (parse_file, parse_header-document es h) (parse_entries-encoded defaults es a)

module _ (accepts : Bytes → Bytes → ℕ)
    (room : (file bytes : Bytes) → length bytes ≤ accepts file bytes) where
  fwrite-room :
      (context : String) (bytes file : Bytes)
      → fwrite accepts context bytes file ≡ (done tt, file ++ bytes)
  unfolding fwrite
  fwrite-room context bytes file =
      let fits : leb (length bytes) (accepts file bytes) ≡ true = ground (arith, room file bytes) in
      rw fits

  set_option-room :
      (key : Bytes) (value : ℕ) (file : Bytes)
      → set_option accepts key value file
        ≡ (done tt, (((file ++ be32 (length key)) ++ key) ++ be32 4) ++ be32 value)
  unfolding set_option then_write
  set_option-room key value file = rw (
    fwrite-room "Failed to write key length" (be32 (length key)) file,
    fwrite-room "Failed to write key" key (file ++ be32 (length key)),
    fwrite-room "Failed to write value length" (be32 4) ((file ++ be32 (length key)) ++ key),
    fwrite-room "Failed to write value" (be32 value)
        (((file ++ be32 (length key)) ++ key) ++ be32 4),
  )

  write_header-room :
      (count : ℕ) (file : Bytes)
      → write_header accepts count file
        ≡ (done tt, ((file ++ be32 magic) ++ be32 format_version) ++ be32 count)
  unfolding write_header then_write
  write_header-room count file = rw (
    fwrite-room "Failed to write magic header" (be32 magic) file,
    fwrite-room "Failed to write version" (be32 format_version) (file ++ be32 magic),
    fwrite-room "Failed to write entry count" (be32 count)
        ((file ++ be32 magic) ++ be32 format_version),
  )

  -- The entries that are stored.
  abbrev pub settings_of : Settings → List Setting
  settings_of s =
      record { key = codes "My Stuff"; value = s.my_stuff }
      ∷ record { key = codes "Separate savegame"; value = s.separate_savegame }
      ∷ record { key = codes "Auto update"; value = s.auto_update }
      ∷ []

  store_options-room :
      (s : Settings)
      → store_options accepts s (((([] ++ be32 magic) ++ be32 format_version)) ++ be32 3)
        ≡ (done tt, document (settings_of s))
  unfolding store_options then_write
  store_options-room s =
      rw
        (
          set_option-room (codes "My Stuff") s.my_stuff _,
          set_option-room (codes "Separate savegame") s.separate_savegame _,
          set_option-room (codes "Auto update") s.auto_update _,
        )
        (unfold document encoded be32 in refl)

  store-room :
      (s : Settings) (card : Card)
      → card.writable ≡ true
      → store accepts s card ≡ (done tt, record card { content = some (document (settings_of s)) })
  unfolding store
  store-room s card writable = rw (writable, write_header-room 3 [], store_options-room s)

  parse-document :
      (es : List Setting) (card : Card)
      → card.content ≡ some (document es)
      → card.readable ≡ true
      → length es < 2 ^ 32
      → All IsSetting es
      → (parse accepts card).0 ≡ (assigned defaults es, done tt)
  unfolding parse parse_found parse_opened
  parse-document es card there readable few a = rw (there, readable) (parse_file-document es few a)

  assigned-settings_of : (s : Settings) → assigned defaults (settings_of s) ≡ s
  unfolding assigned set_value
  assigned-settings_of s = refl

  -- What is stored on a card that takes it is what is parsed from it, whatever was there before.
  pub parse-store :
      (s : Settings) (card : Card)
      → card.readable ≡ true
      → card.writable ≡ true
      → s.my_stuff < 2 ^ 32
      → s.separate_savegame < 2 ^ 32
      → s.auto_update < 2 ^ 32
      → ((store accepts s card).0 ≡ done tt)
        × ((parse accepts (store accepts s card).1).0 ≡ (s, done tt))
  parse-store s card readable writable h k l =
      let stored = store-room s card writable in
      (
        ap (λ (r : Outcome (Unit {0}) × Card). r.0) stored,
        ap (λ (r : Outcome (Unit {0}) × Card). (parse accepts r.1).0) stored
            ∙ (parse-document (settings_of s)
                  (record card { content = some (document (settings_of s)) }) refl readable
                  (omega arith)
                  (
                    record { short = omega arith; word = h },
                    (
                      record { short = omega arith; word = k },
                      (record { short = omega arith; word = l }, tt),
                    ),
                  )
                ∙ ap (λ (t : Settings). (t, done tt)) (assigned-settings_of s)),
      )

  create-room :
      (card : Card)
      → card.writable ≡ true
      → create accepts card ≡ (done tt, record card { content = some (document []) })
  unfolding create document be32 encoded
  create-room card writable = rw (writable, write_header-room 0 [])

  no_settings : parse_file (document []) ≡ (defaults, done tt)
  unfolding assigned
  no_settings = parse_file-document [] (omega arith) tt

  opened-empty :
      (card : Card)
      → card.readable ≡ true
      → parse_opened (record card { content = some (document []) }) ≡ (defaults, done tt)
  unfolding parse_opened
  opened-empty card readable = rw readable no_settings

  parse-created :
      (card : Card)
      → card.content ≡ none
      → card.readable ≡ true
      → card.writable ≡ true
      → parse accepts card ≡ ((defaults, done tt), record card { content = some (document []) })
  unfolding parse parse_found after_create
  parse-created card absent readable writable =
      ap (λ (o : Option Bytes). parse_found accepts o card) absent
      ∙ (ap (after_create card) (create-room card writable)
          ∙ ap (λ (t : Parsed). (t, record card { content = some (document []) }))
              (opened-empty card readable))

  -- Where there is no settings file, a parse creates one without entries and leaves the defaults, and
  -- the next parse leaves them too.
  pub parse-absent :
      (card : Card)
      → card.content ≡ none
      → card.readable ≡ true
      → card.writable ≡ true
      → ((parse accepts card).0 ≡ (defaults, done tt))
        × ((parse accepts card).1 ≡ record card { content = some (document []) })
        × ((parse accepts (parse accepts card).1).0 ≡ (defaults, done tt))
  parse-absent card absent readable writable =
      let created = parse-created card absent readable writable in
      (
        ap (λ (r : Parsed × Card). r.0) created,
        ap (λ (r : Parsed × Card). r.1) created,
        ap (λ (r : Parsed × Card). (parse accepts r.1).0) created
            ∙ (parse-document [] (record card { content = some (document []) }) refl readable
                  (omega arith) tt
                ∙ (unfold assigned in refl)),
      )
