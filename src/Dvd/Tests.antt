-- ===== src/Dvd/Tests.antt =====
-- Runs of the DVD functions of runtime-ext/source/dvd.c and instances of their laws.
use rr_launcher.Prelude.{
  ℕ, zero, suc, ◌+◌, ◌-◌, ◌<◌, ◌≡◌, ◌⊎◌, inr, refl, true, none, some, List, [], ◌∷◌, codes, ◌==◌,
  if◌then◌else◌, arith, Bytes, All,
}
use rr_launcher.Result.{done, fatal}
use rr_launcher.Hash.{hash_string, hash_string_lowercase, to_lowercase, tolower}
use rr_launcher.Riivo.{SdFile, Replacement}
use rr_launcher.Dvd.Search.{search_replacement_by_hash, search_replacement}
use rr_launcher.Dvd.Search.Binary.{IsSorted, Finds, search_replacement_by_hash-Finds}
use rr_launcher.Dvd.Search.Linear.{IsRegistered, find_disc, search_replacement-find_disc}
use rr_launcher.Dvd.EntryNum.{mark_special}
use rr_launcher.Dvd.Files.{
  Sd, FileInfo, OpenFile, Runtime, open_entry_num, close_entry_num, free_slot,
}
use rr_launcher.Dvd.Files.Moves.{Consistent, handles, handles-shut}
use rr_launcher.Dvd.Files.Slots.{slot_of, refs_of}
use rr_launcher.Dvd.Files.Handles.{
  open_entry_num-handles, close_entry_num-handles, opens, closes, opened_in, closed_in, run,
  run-handles,
}
use rr_launcher.Dvd.Files.Total.{open_entry_num-total, close_entry_num-total}

-- A registered entry, under the hash of its path.
abbrev entry : Bytes → ℕ → Replacement
entry path n = record { disc = path; hash = hash_string path; entrynum = n }

-- Entries in the order of their hashes; the paths "a~" and "b_" share one.
abbrev entries : List Replacement
entries =
    entry (codes "a1") 4 ∷ entry (codes "a~") 5 ∷ entry (codes "b_") 6 ∷ entry (codes "cy") 7 ∷ []

entries-IsSorted : IsSorted entries
unfolding hash_string
entries-IsSorted = (
  (omega arith, (omega arith, (omega arith, tt))),
  ((omega arith, (omega arith, tt)), ((omega arith, tt), (tt, tt))),
)

search_replacement_by_hash-Finds_example :
    Finds 3133 entries (search_replacement_by_hash 3133 entries)
search_replacement_by_hash-Finds_example =
    search_replacement_by_hash-Finds 3133 entries entries-IsSorted

entries-IsRegistered : All IsRegistered entries
unfolding to_lowercase tolower
entries-IsRegistered = (
  record {
    folded = refl;
    hashed = refl;
    text = ((omega arith, omega arith), ((omega arith, omega arith), tt));
  },
  (
    record {
      folded = refl;
      hashed = refl;
      text = ((omega arith, omega arith), ((omega arith, omega arith), tt));
    },
    (
      record {
        folded = refl;
        hashed = refl;
        text = ((omega arith, omega arith), ((omega arith, omega arith), tt));
      },
      (
        record {
          folded = refl;
          hashed = refl;
          text = ((omega arith, omega arith), ((omega arith, omega arith), tt));
        },
        tt,
      ),
    ),
  ),
)

search_replacement-find_disc_example :
    search_replacement (hash_string_lowercase (codes "B_")) (codes "B_") entries
    ≡ done (find_disc (to_lowercase (codes "B_")) entries)
search_replacement-find_disc_example =
    search_replacement-find_disc (codes "B_") entries
      ((omega arith, omega arith), ((omega arith, omega arith), tt)) entries-IsSorted
      entries-IsRegistered

-- An SD card whose files are numbers.
abbrev sd : Sd ℕ
sd = record {
  filesize = λ f. f;
  open_file = λ s p. some (s, 100);
  seek = λ f o. some f;
  read_file = λ f n. some ([], f);
  close_file = λ f. true;
}

abbrev shut_file : SdFile
shut_file = record { path = codes "f"; file_info = none }

abbrev free : OpenFile ℕ
free = record { file_struct = 0; refcount = 0 }

-- Two files and two slots, nothing open.
abbrev init : Runtime ℕ
init = record {
  disc = record {
    sd_files = shut_file ∷ shut_file ∷ [];
    filename_replacements = [];
    replacements = [];
  };
  open_files = free ∷ free ∷ [];
}

shut : (i : ℕ) → slot_of init.disc.sd_files i ≡ none
shut zero = refl
shut (suc zero) = refl
shut (suc (suc i)) = refl

idle : (s : ℕ) → refs_of init.open_files s ≡ 0
idle zero = refl
idle (suc zero) = refl
idle (suc (suc s)) = refl

init-Consistent : Consistent init
init-Consistent = record {
  live = λ i s h. absurd (cc (shut i, h));
  distinct = λ i j s h k. absurd (cc (shut i, h));
  owned = λ s h. absurd (omega (arith, idle s));
}

-- File 1 open twice, in slot 0.
abbrev twice : Runtime ℕ
twice = record {
  disc = record {
    sd_files = shut_file ∷ record { path = codes "f"; file_info = some 0 } ∷ [];
    filename_replacements = [];
    replacements = [];
  };
  open_files = record { file_struct = 100; refcount = 2 } ∷ free ∷ [];
}

-- File 1 open once.
abbrev once : Runtime ℕ
once = record {
  disc = twice.disc;
  open_files = record { file_struct = 100; refcount = 1 } ∷ free ∷ [];
}

abbrev info : FileInfo
info = record { start_addr = mark_special 1; length_ = 100 }

first_open : open_entry_num sd 1 init ≡ done (info, once)
unfolding open_entry_num free_slot
first_open = refl

once-Consistent : Consistent once
once-Consistent = (open_entry_num-handles sd 1 init info once init-Consistent first_open).0

open_entry_num-handles_example :
    Consistent twice
    × (info.start_addr ≡ mark_special 1)
    × ((j : ℕ) → handles twice j ≡ (if 1 == j then handles once 1 + 1 else handles once j))
open_entry_num-handles_example =
    open_entry_num-handles sd 1 once info twice once-Consistent (unfold open_entry_num in refl)

twice-Consistent : Consistent twice
twice-Consistent =
    (open_entry_num-handles sd 1 once info twice once-Consistent (unfold open_entry_num in refl)).0

close_entry_num-handles_example :
    Consistent once
    × (0 < handles twice 1)
    × ((j : ℕ) → handles once j ≡ (if 1 == j then handles twice 1 - 1 else handles twice j))
close_entry_num-handles_example =
    close_entry_num-handles sd 1 twice once twice-Consistent (unfold close_entry_num in refl)

run-handles_example :
    Consistent once
    × ((j : ℕ)
        → handles once j + closed_in j (opens 1 ∷ opens 1 ∷ closes 1 ∷ [])
          ≡ handles init j + opened_in j (opens 1 ∷ opens 1 ∷ closes 1 ∷ []))
run-handles_example =
    run-handles sd (opens 1 ∷ opens 1 ∷ closes 1 ∷ []) init once init-Consistent
      (unfold run open_entry_num close_entry_num in refl)

open_entry_num-total_example : (r : FileInfo × Runtime ℕ) × (open_entry_num sd 1 init ≡ done r)
open_entry_num-total_example =
    open_entry_num-total sd 1 shut_file init init-Consistent refl
      (inr (handles-shut init 1 refl, 0, 100, (unfold free_slot in refl), refl))

close_entry_num-total_example :
    ((handles once 1 ≡ 0)
      × (close_entry_num sd 1 once ≡ fatal "Attempted to close file that is not open!"))
    ⊎ ((0 < handles once 1) × (rt : Runtime ℕ) × (close_entry_num sd 1 once ≡ done rt))
close_entry_num-total_example =
    close_entry_num-total sd 1 (record { path = codes "f"; file_info = some 0 }) once
      once-Consistent refl (λ f. refl)
