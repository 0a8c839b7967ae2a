-- ===== src/Dvd/Files/Counts.antt =====
-- Opening and closing in runtime-ext/source/dvd.c, as moves of one file.
use rr_launcher.Prelude.{
  ℕ, ◌+◌, ◌-◌, ◌<◌, ◌≡◌, refl, ◌∙◌, subst, Option, none, some, get_elem?, ltb, ◌==◌, arith, inl,
  inr, Bool-cases, Option-cases, int_max,
}
use rr_launcher.Result.{Ensures}
use rr_launcher.Riivo.{SdFile}
use rr_launcher.Dvd.EntryNum.{mark_special}
use rr_launcher.Dvd.Files.{
  Sd, OpenFile, Runtime, free_slot, set_file_info, set_open_file, reuse, open_new, open_with,
  open_entry_num, close_entry_num,
}
use rr_launcher.Dvd.Files.Slots.{slot_of, slot_of-get, refs_of, refs_of-get}
use rr_launcher.Dvd.Files.Table
use rr_launcher.Dvd.Files.Table.{IsConsistent, Change, Change-handles, Change-IsConsistent}
use rr_launcher.Dvd.Files.Moves.{
  handles, Moves, set_open_file-Moves, take_slot-Moves, release-Moves,
}

module _ {File : Type 0} (sd : Sd File) where
  reuse-Moves :
      (e s : ℕ) (rt : Runtime File)
      → slot_of rt.disc.sd_files e ≡ some s
      → Ensures
          (λ r. Moves rt r.1 e (refs_of rt.open_files s + 1) × (r.0.start_addr ≡ mark_special e))
          (reuse sd e s rt)
  unfolding reuse
  reuse-Moves e s rt held = elim (Option-cases (get_elem? rt.open_files s)) [
    | inl out ↦ rw out tt
    | inr (f, at) ↦ rw at (elim (Bool-cases (ltb f.refcount int_max)) [
      | inl fits ↦
          rw (fits, refs_of-get rt.open_files s at)
            (
              set_open_file-Moves e s rt f (record f { refcount = f.refcount + 1 }) held at
                  (omega arith),
              refl,
            )
      | inr over ↦ rw over tt
    ])
  ]

  open_new-Moves :
      (e : ℕ) (etp : SdFile) (rt : Runtime File)
      → get_elem? rt.disc.sd_files e ≡ some etp
      → etp.file_info ≡ none
      → Ensures (λ r. Moves rt r.1 e 1 × (r.0.start_addr ≡ mark_special e)) (open_new sd e etp rt)
  unfolding open_new
  open_new-Moves e etp rt there shut = elim (Option-cases (free_slot rt.open_files)) [
    | inl full ↦ rw full tt
    | inr (s, free) ↦ rw free (elim (Option-cases (sd.open_file s etp.path)) [
      | inl failed ↦ rw failed tt
      | inr (r, opened) ↦ rw opened (elim (Bool-cases (r.0 == s)) [
        | inl right ↦ rw right (
          take_slot-Moves e s etp rt (record { file_struct = r.1; refcount = 1 }) there shut free
              refl,
          refl,
        )
        | inr wrong ↦ rw wrong tt
      ])
    ])
  ]

  open_with-Moves :
      (e : ℕ) (etp : SdFile) (info : Option ℕ) (rt : Runtime File)
      → get_elem? rt.disc.sd_files e ≡ some etp
      → etp.file_info ≡ info
      → Ensures
          (λ r. Moves rt r.1 e (handles rt e + 1) × (r.0.start_addr ≡ mark_special e))
          (open_with sd e etp info rt)
  unfolding open_with Table.handles
  open_with-Moves e etp (some s) rt there info =
      rw (slot_of-get rt.disc.sd_files e there, info, Table.handles)
        (reuse-Moves e s rt (slot_of-get rt.disc.sd_files e there ∙ info))
  open_with-Moves e etp none rt there info =
      rw (slot_of-get rt.disc.sd_files e there, info, Table.handles)
        (open_new-Moves e etp rt there info)

  -- Opening a file, where it succeeds, adds one handle to it and leaves the others'.
  pub open_entry_num-Moves :
      (e : ℕ) (rt : Runtime File)
      → Ensures
          (λ r. Moves rt r.1 e (handles rt e + 1) × (r.0.start_addr ≡ mark_special e))
          (open_entry_num sd e rt)
  unfolding open_entry_num
  open_entry_num-Moves e rt = elim (Option-cases (get_elem? rt.disc.sd_files e)) [
    | inl out ↦ rw out tt
    | inr (etp, there) ↦ rw there (open_with-Moves e etp etp.file_info rt there refl)
  ]

  close_slot-Moves :
      (e s : ℕ) (etp : SdFile) (f : OpenFile File) (rt : Runtime File)
      → get_elem? rt.disc.sd_files e ≡ some etp
      → etp.file_info ≡ some s
      → get_elem? rt.open_files s ≡ some f
      → Ensures
          (λ rt'. Moves rt rt' e (f.refcount - 1) × (0 < f.refcount))
          (close_entry_num sd e rt)
  unfolding close_entry_num
  close_slot-Moves e s etp f rt there info at =
      rw (there, info, at)
        (elim (Bool-cases (f.refcount == 0)) [
          | inl idle ↦ rw idle tt
          | inr busy ↦ rw busy (elim (Bool-cases (f.refcount - 1 == 0)) [
            | inl last ↦ rw last (elim (Bool-cases (sd.close_file f.file_struct)) [
              | inl closed ↦ rw closed (
                subst
                    (λ (n : ℕ).
                      Moves rt
                        (set_file_info (set_open_file rt s (record f { refcount = f.refcount - 1 }))
                          e etp none)
                        e n)
                    (let zero_left : 0 ≡ f.refcount - 1 = ground arith in zero_left)
                    (release-Moves e s etp rt f (record f { refcount = f.refcount - 1 }) there info
                      at (ground arith)),
                ground arith,
              )
              | inr failed ↦ rw failed tt
            ])
            | inr more ↦ rw more (
              set_open_file-Moves e s rt f (record f { refcount = f.refcount - 1 })
                  (slot_of-get rt.disc.sd_files e there ∙ info) at (ground arith),
              ground arith,
            )
          ])
        ])

  -- Closing a file, where it succeeds, takes one handle from it and leaves the others'.
  pub close_entry_num-Moves :
      (e : ℕ) (rt : Runtime File)
      → Ensures
          (λ rt'. Moves rt rt' e (handles rt e - 1) × (0 < handles rt e))
          (close_entry_num sd e rt)
  unfolding close_entry_num Table.handles
  close_entry_num-Moves e rt = elim (Option-cases (get_elem? rt.disc.sd_files e)) [
    | inl out ↦ rw out tt
    | inr (etp, there) ↦ elim (Option-cases etp.file_info) [
      | inl shut ↦ rw (there, shut) tt
      | inr (s, info) ↦ elim (Option-cases (get_elem? rt.open_files s)) [
        | inl lost ↦ rw (there, info, lost) tt
        | inr (f, at) ↦
            rw
              (
                slot_of-get rt.disc.sd_files e there,
                info,
                Table.handles,
                refs_of-get rt.open_files s at,
              )
              (close_slot-Moves e s etp f rt there info at)
      ]
    ]
  ]
