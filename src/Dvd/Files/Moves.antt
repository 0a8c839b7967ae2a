-- ===== src/Dvd/Files/Moves.antt =====
-- How the statics of runtime-ext/source/dvd.c change when one file is opened or closed.
use rr_launcher.Prelude.{ℕ, ◌<◌, ◌≡◌, ◌∙◌, none, some, get_elem?, arith, inl, inr, get_elem?-lt}
use rr_launcher.Riivo.{SdFile}
use rr_launcher.Dvd.Files.{OpenFile, Runtime, free_slot, set_file_info, set_open_file}
use rr_launcher.Dvd.Files.Slots.{
  slot_of, slot_of-get, slot_of-set, refs_of, refs_of-set, free_slot-free,
}
use rr_launcher.Dvd.Files.Table
use rr_launcher.Dvd.Files.Table.{IsConsistent, Change, Change-handles, Change-IsConsistent}

module _ {File : Type 0} where
  abbrev pub Consistent : Runtime File → Type 0
  Consistent rt = IsConsistent (slot_of rt.disc.sd_files) (refs_of rt.open_files)

  -- The open handles of a file.
  abbrev pub handles : Runtime File → ℕ → ℕ
  handles rt i = Table.handles (slot_of rt.disc.sd_files) (refs_of rt.open_files) i

  pub handles-held :
      (rt : Runtime File) (e s : ℕ)
      → slot_of rt.disc.sd_files e ≡ some s
      → handles rt e ≡ refs_of rt.open_files s
  unfolding Table.handles
  handles-held rt e s h = rw (h, Table.handles)

  pub handles-shut :
      (rt : Runtime File) (e : ℕ) → slot_of rt.disc.sd_files e ≡ none → handles rt e ≡ 0
  unfolding Table.handles
  handles-shut rt e h = rw (h, Table.handles)

  -- From `rt` to `rt'` the file `e` comes to have `n` open handles.
  pub record Moves (rt rt' : Runtime File) (e n : ℕ) : Type 0 where
    pub slot : ℕ
    pub change :
        Change
          (slot_of rt.disc.sd_files)
          (slot_of rt'.disc.sd_files)
          (refs_of rt.open_files)
          (refs_of rt'.open_files)
          e
          slot
          n

module _ {File : Type 0} where
  -- A slot's count changes, and the file goes on holding it.
  pub set_open_file-Moves :
      (e s : ℕ) (rt : Runtime File) (f f' : OpenFile File)
      → slot_of rt.disc.sd_files e ≡ some s
      → get_elem? rt.open_files s ≡ some f
      → 0 < f'.refcount
      → Moves rt (set_open_file rt s f') e f'.refcount
  unfolding set_open_file
  set_open_file-Moves e s rt f f' held at pos = record {
    slot = s;
    change = record {
      before = inl held;
      slots = λ j. ground (arith, held);
      counts = λ t. refs_of-set rt.open_files s t f' (get_elem?-lt rt.open_files s at);
    };
  }

  -- A file that holds no slot takes a free one.
  pub take_slot-Moves :
      (e s : ℕ) (etp : SdFile) (rt : Runtime File) (f : OpenFile File)
      → get_elem? rt.disc.sd_files e ≡ some etp
      → etp.file_info ≡ none
      → free_slot rt.open_files ≡ some s
      → f.refcount ≡ 1
      → Moves rt (set_file_info (set_open_file rt s f) e etp (some s)) e 1
  unfolding set_file_info set_open_file
  take_slot-Moves e s etp rt f there shut free one =
      let (below, unused) = free_slot-free rt.open_files free in
      record {
        slot = s;
        change = record {
          before = inr (slot_of-get rt.disc.sd_files e there ∙ shut, unused);
          slots = λ j.
              slot_of-set rt.disc.sd_files e j (record etp { file_info = some s })
                (get_elem?-lt rt.disc.sd_files e there);
          counts = λ t. refs_of-set rt.open_files s t f below ∙ ground arith;
        };
      }

  -- A file gives up the slot that it held alone.
  pub release-Moves :
      (e s : ℕ) (etp : SdFile) (rt : Runtime File) (f f' : OpenFile File)
      → get_elem? rt.disc.sd_files e ≡ some etp
      → etp.file_info ≡ some s
      → get_elem? rt.open_files s ≡ some f
      → f'.refcount ≡ 0
      → Moves rt (set_file_info (set_open_file rt s f') e etp none) e 0
  unfolding set_file_info set_open_file
  release-Moves e s etp rt f f' there info at idle = record {
    slot = s;
    change = record {
      before = inl (slot_of-get rt.disc.sd_files e there ∙ info);
      slots = λ j.
          slot_of-set rt.disc.sd_files e j (record etp { file_info = none })
            (get_elem?-lt rt.disc.sd_files e there);
      counts =
          λ t. refs_of-set rt.open_files s t f' (get_elem?-lt rt.open_files s at) ∙ ground arith;
    };
  }
