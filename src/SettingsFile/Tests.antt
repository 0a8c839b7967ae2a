-- ===== src/SettingsFile/Tests.antt =====
-- Instances of the laws of the settings file of source/settingsfile.c.
use rr_launcher.Prelude.{ℕ, ◌≤◌, ◌≡◌, refl, true, none, List, [], ◌∷◌, Bytes, codes, length, arith}
use rr_launcher.Result.{done}
use rr_launcher.SettingsFile.{Settings, Card, store, parse}
use rr_launcher.SettingsFile.Words.{Setting}
use rr_launcher.SettingsFile.RoundTrip.{parse-store}

-- A card that takes every byte.
abbrev accepts : Bytes → Bytes → ℕ
accepts file bytes = length bytes

room : (file bytes : Bytes) → length bytes ≤ accepts file bytes
room file bytes = omega arith

abbrev settings : Settings
settings = record { my_stuff = 2; separate_savegame = 1; auto_update = 0 }

abbrev card : Card
card = record { content = none; readable = true; writable = true }

parse-store_example :
    ((store accepts settings card).0 ≡ done tt)
    × ((parse accepts (store accepts settings card).1).0 ≡ (settings, done tt))
parse-store_example =
    parse-store accepts room settings card refl refl (omega arith) (omega arith) (omega arith)

abbrev two : List Setting
two = record { key = codes "My Stuff"; value = 4 } ∷ record { key = codes "other"; value = 9 } ∷ []
