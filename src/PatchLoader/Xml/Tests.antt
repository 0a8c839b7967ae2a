-- ===== src/PatchLoader/Xml/Tests.antt =====
-- Instances of the laws of the walk over the XML in source/loader/riivo_patch_loader.c.
use rr_launcher.Prelude.{
  ◌+◌, ◌≡◌, refl, Bool, true, none, some, List, [], ◌∷◌, ◌++◌, Bytes, codes, leb, if◌then◌else◌,
  arith,
}
use rr_launcher.Result.{done, fault}
use rr_launcher.Hash.{hash_string, to_lowercase, tolower}
use rr_launcher.Dvd.Search.Linear.{find_disc}
use rr_launcher.PatchLoader.{Listing, end, handle_file_patch, bump_alloc_string}
use rr_launcher.PatchLoader.Files.{IsLoader}
use rr_launcher.PatchLoader.Xml.{
  XmlOption, MemoryElement, PatchElement, Output, max_memory_patches, handle_memories,
  handle_patches,
}
use rr_launcher.PatchLoader.Xml.Limits.{IsPlain, patches_of, handle_memories-IsPlain}
use rr_launcher.PatchLoader.Xml.Walk.{handle_patches-IsLoader}

abbrev options : List XmlOption
options =
    record { name = some (codes "Pack"); choices = ((codes "patch", some (codes "p")) ∷ []) ∷ [] }
    ∷ []

abbrev start : Output
start = record {
  loader = record {
    sd_files = [];
    replacements = [];
    filename_replacements = [];
    mem1 = 0x81700000;
    main_dol_path = none;
  };
  mem_patches = [];
  loader_pul_dest = none;
}

abbrev memory : MemoryElement
memory = record {
  offset = some (codes "0x80001234");
  valuefile = none;
  value = some (codes "38600000");
  original = none;
}

memory-IsPlain : IsPlain memory
memory-IsPlain = record {
  addr = codes "0x80001234";
  offset_there = refl;
  no_file = refl;
  word = codes "38600000";
  value_there = refl;
}

handle_memories-IsPlain_example : handle_memories (codes "/L") (memory ∷ []) start ≡ (
    if leb (0 + 1) max_memory_patches
    then done (record start { mem_patches = [] ++ patches_of (memory ∷ []) (memory-IsPlain, tt) })
    else fault)
handle_memories-IsPlain_example =
    handle_memories-IsPlain (codes "/L") (memory ∷ []) start (memory-IsPlain, tt) (omega arith)

abbrev patch : PatchElement
patch = record {
  id = some (codes "p");
  files = record { disc = some (codes "/A"); external = some (codes "/b") } ∷ [];
  folders = [];
  memories = [];
}

-- After the patch, the path "a" is registered, and both paths are in the arena.
abbrev after : Output
after = record start {
  loader = record {
    sd_files = record { path = codes "/b"; file_info = none } ∷ [];
    replacements = record { disc = codes "a"; hash = hash_string (codes "a"); entrynum = 0 } ∷ [];
    filename_replacements = [];
    mem1 = 0x816FFFFB;
    main_dol_path = none;
  };
}

abbrev exists : Bytes → Bool
exists path = true

abbrev no_folders : Bytes → Bool × Listing
no_folders path = (true, end)

start-IsLoader : IsLoader start.loader
unfolding find_disc
start-IsLoader = record {
  full = record { registered = tt; distinct = tt };
  named = record { registered = tt; distinct = tt };
  full_range = λ d n e. absurd (cc e);
  named_range = λ d n e. absurd (cc e);
}

handle_patches-IsLoader_example : IsLoader after.loader
handle_patches-IsLoader_example =
    handle_patches-IsLoader exists no_folders (λ path. tt) (codes "/L") (codes "p" ∷ [])
      (patch ∷ []) start after
      (
        record {
          file_texts = (((omega arith, omega arith), ((omega arith, omega arith), tt)), tt);
          folder_texts = tt;
        },
        tt,
      )
      start-IsLoader
      (unfold handle_patches handle_file_patch to_lowercase tolower bump_alloc_string in refl)
