-- ===== src/PatchLoader/Tests.antt =====
-- Runs of the patch loader of source/loader/riivo_patch_loader.c and instances of its laws.
use rr_launcher.Prelude.{
  ℕ, ◌≡◌, refl, Bool, true, ◌&&◌, not, none, some, Option, [], ◌∷◌, ◌++◌, if◌then◌else◌, arith,
  codes, Bytes, bytes_eq,
}
use rr_launcher.Result.{done}
use rr_launcher.Hash.{hash_string, to_lowercase, tolower}
use rr_launcher.Riivo.{Replacement, Disc}
use rr_launcher.Dvd.Search.{strip_slash, resolve_path}
use rr_launcher.Dvd.Search.Linear.{find_disc, IsRegistered}
use rr_launcher.PatchLoader.{Loader, handle_file_patch, is_absolute, remove_replacement}
use rr_launcher.PatchLoader.Register.{IsIndex, register-IsIndex}
use rr_launcher.PatchLoader.Files.{IsLoader, external_at}
use rr_launcher.PatchLoader.Patches.{IsReplaced, is_taken, handle_file_patch-IsReplaced}
use rr_launcher.PatchLoader.Sort.{insertion_sort, insertion_sort-IsSort}
use rr_launcher.PatchLoader.Build.{build_disc, replacement_of, resolve_path-build_disc}

-- What `rrc_riivo_patch_loader_parse` starts with.
abbrev start : Loader
start = record {
  sd_files = [];
  replacements = [];
  filename_replacements = [];
  mem1 = 0x81700000;
  main_dol_path = none;
}

start-IsLoader : IsLoader start
unfolding find_disc
start-IsLoader = record {
  full = record { registered = tt; distinct = tt };
  named = record { registered = tt; distinct = tt };
  full_range = λ d n e. absurd (cc e);
  named_range = λ d n e. absurd (cc e);
}

abbrev exists : Bytes → Bool
exists path = true

handle_file_patch-IsReplaced_example :
    IsReplaced
      (is_taken exists start (codes "/a") (codes "/rr/a") true && is_absolute (codes "/a"))
      (is_taken exists start (codes "/a") (codes "/rr/a") true && not (is_absolute (codes "/a")))
      (strip_slash (codes "/a"))
      (codes "/rr/a")
      start
      (handle_file_patch exists start (codes "/a") (codes "/rr/a") true)
handle_file_patch-IsReplaced_example =
    handle_file_patch-IsReplaced exists start (codes "/a") (codes "/rr/a") true start-IsLoader
      (record {
        folded = unfold to_lowercase tolower in refl;
        text = ((omega arith, omega arith), ((omega arith, omega arith), tt));
      })

-- A loader in which one path is replaced by the only SD file.
abbrev entry_a : Replacement
entry_a = record { disc = codes "a"; hash = hash_string (codes "a"); entrynum = 0 }

abbrev loaded : Loader
loaded = record start {
  sd_files = record { path = codes "/rr/a"; file_info = none } ∷ [];
  replacements = entry_a ∷ [];
}

entry_a-IsRegistered : IsRegistered entry_a
unfolding to_lowercase tolower
entry_a-IsRegistered = record {
  folded = refl;
  hashed = refl;
  text = ((omega arith, omega arith), tt);
}

loaded-IsLoader : IsLoader loaded
unfolding find_disc
loaded-IsLoader = record {
  full = record { registered = (entry_a-IsRegistered, tt); distinct = (tt, tt) };
  named = record { registered = tt; distinct = tt };
  full_range = λ d n e. ground arith;
  named_range = λ d n e. absurd (cc e);
}

abbrev built : Disc
built = record {
  sd_files = loaded.sd_files;
  filename_replacements = [];
  replacements = entry_a ∷ [];
}

resolve_path-build_disc_example :
    (o : Option ℕ) × (resolve_path built (codes "/A") ≡ done o)
    × (external_at built.sd_files o ≡ replacement_of loaded (codes "/A"))
resolve_path-build_disc_example =
    resolve_path-build_disc insertion_sort loaded built (codes "/A") insertion_sort-IsSort
      loaded-IsLoader ((omega arith, omega arith), ((omega arith, omega arith), tt))
      (unfold build_disc insertion_sort in refl)

register-IsIndex_example :
    IsIndex (
      remove_replacement (entry_a ∷ []) (record entry_a { entrynum = 1 })
      ++ record entry_a { entrynum = 1 } ∷ [])
    × ((d : Bytes)
        → find_disc d (
            remove_replacement (entry_a ∷ []) (record entry_a { entrynum = 1 })
            ++ record entry_a { entrynum = 1 } ∷ [])
          ≡ (if bytes_eq (codes "a") d then some 1 else find_disc d (entry_a ∷ [])))
register-IsIndex_example =
    register-IsIndex (entry_a ∷ []) (record entry_a { entrynum = 1 })
      (record { registered = (entry_a-IsRegistered, tt); distinct = (tt, tt) })
      (record {
        folded = entry_a-IsRegistered.folded;
        hashed = refl;
        text = entry_a-IsRegistered.text;
      })
