-- ===== src/Dvd/Files/Total.antt =====
-- When opening and closing in runtime-ext/source/dvd.c succeed, and when they stop the game.
use rr_launcher.Prelude.{
  ℕ, zero, suc, ◌+◌, ◌-◌, ◌<◌, ◌≡◌, refl, ◌∙◌, Option, none, some, List, [], ◌∷◌, ◌⊎◌, inl, inr,
  length, get_elem?, arith, int_max, true, false, Option-cases, Bool-cases, ◌==◌, ltb, lt→ltb,
  ==_iff,
}
use rr_launcher.Result.{done, fatal}
use rr_launcher.Riivo.{SdFile}
use rr_launcher.Dvd.EntryNum.{mark_special}
use rr_launcher.Dvd.Files.{
  Sd, FileInfo, OpenFile, Runtime, free_slot, reuse, open_new, open_with, open_entry_num,
  close_entry_num, set_open_file, set_file_info,
}
use rr_launcher.Dvd.Files.Slots.{slot_of, slot_of-get, refs_of, refs_of-get}
use rr_launcher.Dvd.Files.Moves.{Consistent, handles, handles-held, handles-shut}

module _ {File : Type 0} where
  -- A slot in use is there.
  used_slot :
      (fs : List (OpenFile File)) (s : ℕ)
      → 0 < refs_of fs s
      → (f : OpenFile File) × (get_elem? fs s ≡ some f)
  used_slot [] s h = elim h [ ]
  used_slot (f ∷ fs) zero h = (f, refl)
  used_slot (f ∷ fs) (suc s) h = used_slot fs s h

  -- Where no slot is free, every slot is in use.
  pub free_slot-none :
      (fs : List (OpenFile File)) (s : ℕ) → free_slot fs ≡ none → s < length fs → 0 < refs_of fs s
  unfolding free_slot
  free_slot-none [] s e h = elim h [ ]
  free_slot-none (f ∷ fs) zero e h = ground arith
  free_slot-none (f ∷ fs) (suc s) e h = free_slot-none fs s (ground arith) (omega arith)

module _ {File : Type 0} (sd : Sd File) where
  -- What opening a file takes: a handle to share and a count that can grow, or a free slot and an SD
  -- card that opens the path there.
  abbrev pub Openable : Runtime File → ℕ → SdFile → Type 0
  Openable rt e etp =
      ((0 < handles rt e) × (handles rt e < int_max))
      ⊎ ((handles rt e ≡ 0)
          × (s : ℕ) × (f : File) × (free_slot rt.open_files ≡ some s)
          × (sd.open_file s etp.path ≡ some (s, f)))

  open_with-total :
      (e : ℕ) (etp : SdFile) (info : Option ℕ) (rt : Runtime File)
      → Consistent rt
      → get_elem? rt.disc.sd_files e ≡ some etp
      → etp.file_info ≡ info
      → Openable rt e etp
      → (r : FileInfo × Runtime File) × (open_with sd e etp info rt ≡ done r)
  unfolding open_with reuse open_new
  open_with-total e etp (some s) rt c there info can =
      let held : slot_of rt.disc.sd_files e ≡ some s =
        slot_of-get rt.disc.sd_files e there ∙ info in
      let (f, at) = used_slot rt.open_files s (c.live e s held) in
      let fits : ltb f.refcount int_max ≡ true = lt→ltb f.refcount int_max (elim can [
        | inl shared ↦
            omega (arith, shared.1, handles-held rt e s held, refs_of-get rt.open_files s at)
        | inr fresh ↦ absurd (omega (arith, fresh.0, handles-held rt e s held, c.live e s held))
      ]) in
      (
        (
          record { start_addr = mark_special e; length_ = sd.filesize f.file_struct },
          set_open_file rt s (record f { refcount = f.refcount + 1 }),
        ),
        rw (at, fits),
      )
  open_with-total e etp none rt c there info can = elim can [
    | inl shared ↦
        absurd
          (omega (arith, shared.0, handles-shut rt e (slot_of-get rt.disc.sd_files e there ∙ info)))
    | inr (_, s, f, free, opens) ↦ (
      (
        record { start_addr = mark_special e; length_ = sd.filesize f },
        set_file_info (set_open_file rt s (record { file_struct = f; refcount = 1 })) e etp
            (some s),
      ),
      rw (free, opens, (==_iff s s).1 refl),
    )
  ]

  -- In a consistent runtime, opening a file of the list succeeds where it is open already with a count of
  -- handles that an int can still take one more of, or a slot is free and the SD card opens its path.
  pub open_entry_num-total :
      (e : ℕ) (etp : SdFile) (rt : Runtime File)
      → Consistent rt
      → get_elem? rt.disc.sd_files e ≡ some etp
      → Openable rt e etp
      → (r : FileInfo × Runtime File) × (open_entry_num sd e rt ≡ done r)
  unfolding open_entry_num
  open_entry_num-total e etp rt c there can =
      let (r, opened) = open_with-total e etp etp.file_info rt c there refl can in
      (r, rw there opened)

  -- Closing a file of the list stops the game just where it has no open handle; where it has one, the
  -- call succeeds, if the SD card closes files.
  pub close_entry_num-total :
      (e : ℕ) (etp : SdFile) (rt : Runtime File)
      → Consistent rt
      → get_elem? rt.disc.sd_files e ≡ some etp
      → ((f : File) → sd.close_file f ≡ true)
      → ((handles rt e ≡ 0)
          × (close_entry_num sd e rt ≡ fatal "Attempted to close file that is not open!"))
        ⊎ ((0 < handles rt e) × (rt' : Runtime File) × (close_entry_num sd e rt ≡ done rt'))
  unfolding close_entry_num
  close_entry_num-total e etp rt c there closes = elim (Option-cases etp.file_info) [
    | inl shut ↦
        inl (handles-shut rt e (slot_of-get rt.disc.sd_files e there ∙ shut), rw (there, shut))
    | inr (s, info) ↦
        let held : slot_of rt.disc.sd_files e ≡ some s =
          slot_of-get rt.disc.sd_files e there ∙ info in
        let live : 0 < refs_of rt.open_files s = c.live e s held in
        let (f, at) = used_slot rt.open_files s live in
        let busy : (f.refcount == 0) ≡ false =
          ground (arith, live, refs_of-get rt.open_files s at) in
        let some_handles : 0 < handles rt e = omega (arith, live, handles-held rt e s held) in
        let left = set_open_file rt s (record f { refcount = f.refcount - 1 }) in
        inr (elim (Bool-cases (f.refcount - 1 == 0)) [
          | inl last ↦ (
            some_handles,
            set_file_info left e etp none,
            rw (there, info, at, busy, last, closes f.file_struct),
          )
          | inr more ↦ (some_handles, left, rw (there, info, at, busy, more))
        ])
  ]
