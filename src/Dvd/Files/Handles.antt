-- ===== src/Dvd/Files/Handles.antt =====
-- The open handles of each replaced file, across opening and closing in
-- runtime-ext/source/dvd.c.
use rr_launcher.Prelude.{
  ℕ, ◌+◌, ◌-◌, ◌<◌, ◌≡◌, ◌==◌, List, [], ◌∷◌, arith, ap, subst, if◌then◌else◌,
}
use rr_launcher.Result.{Outcome, done, ◌>>=◌, Ensures-done, >>=-eq-done, done-inj}
use rr_launcher.Dvd.EntryNum.{mark_special}
use rr_launcher.Dvd.Files.{Sd, FileInfo, Runtime, open_entry_num, close_entry_num}
use rr_launcher.Dvd.Files.Table.{Change-handles, Change-IsConsistent}
use rr_launcher.Dvd.Files.Moves.{Consistent, handles, Moves}
use rr_launcher.Dvd.Files.Counts.{open_entry_num-Moves, close_entry_num-Moves}

module _ {File : Type 0} (sd : Sd File) where
  -- Opening a file of the SD card, where it succeeds, keeps the tables consistent, adds one handle to
  -- that file and none to any other, and marks the entry number in the `FileInfo`.
  pub open_entry_num-handles :
      (e : ℕ) (rt : Runtime File) (fi : FileInfo) (rt' : Runtime File)
      → Consistent rt
      → open_entry_num sd e rt ≡ done (fi, rt')
      → Consistent rt'
        × (fi.start_addr ≡ mark_special e)
        × ((j : ℕ) → handles rt' j ≡ (if e == j then handles rt e + 1 else handles rt j))
  open_entry_num-handles e rt fi rt' c opened =
      let (m, mark) =
        Ensures-done
          (λ (r : FileInfo × Runtime File).
            Moves rt r.1 e (handles rt e + 1) × (r.0.start_addr ≡ mark_special e))
          (open_entry_num sd e rt) (fi, rt') (open_entry_num-Moves sd e rt) opened in
      (Change-IsConsistent c m.change, mark, Change-handles c m.change)

  -- Closing a file of the SD card, where it succeeds, keeps the tables consistent and takes one handle
  -- from that file, which had one, and none from any other.
  pub close_entry_num-handles :
      (e : ℕ) (rt rt' : Runtime File)
      → Consistent rt
      → close_entry_num sd e rt ≡ done rt'
      → Consistent rt'
        × (0 < handles rt e)
        × ((j : ℕ) → handles rt' j ≡ (if e == j then handles rt e - 1 else handles rt j))
  close_entry_num-handles e rt rt' c closed =
      let (m, pos) =
        Ensures-done (λ (r : Runtime File). Moves rt r e (handles rt e - 1) × (0 < handles rt e))
          (close_entry_num sd e rt) rt' (close_entry_num-Moves sd e rt) closed in
      (Change-IsConsistent c m.change, pos, Change-handles c m.change)

-- What the game does with the files of the SD card, one call after the other.
pub data Call : Type 0 where
  opens closes : ℕ → Call

-- How often the calls open, or close, a file.
pub opened_in : ℕ → List Call → ℕ
opened_in j [] = 0
opened_in j (opens e ∷ calls) = (if e == j then 1 else 0) + opened_in j calls
opened_in j (closes e ∷ calls) = opened_in j calls

pub closed_in : ℕ → List Call → ℕ
closed_in j [] = 0
closed_in j (opens e ∷ calls) = closed_in j calls
closed_in j (closes e ∷ calls) = (if e == j then 1 else 0) + closed_in j calls

module _ {File : Type 0} (sd : Sd File) where
  unfoldable pub run : List Call → Runtime File → Outcome (Runtime File)
  run [] rt = done rt
  run (opens e ∷ calls) rt = do opened ← open_entry_num sd e rt; run calls opened.1
  run (closes e ∷ calls) rt = do closed ← close_entry_num sd e rt; run calls closed

  -- After any calls that all succeed, the handles of a file are those that it had before, and one
  -- more for each time it was opened and one less for each time it was closed.
  pub run-handles :
      (calls : List Call) (rt rt' : Runtime File)
      → Consistent rt
      → run calls rt ≡ done rt'
      → Consistent rt'
        × ((j : ℕ) → handles rt' j + closed_in j calls ≡ handles rt j + opened_in j calls)
  unfolding run opened_in closed_in
  run-handles [] rt rt' c e = (
    subst Consistent (done-inj e) c,
    λ j. omega (arith, ap (λ (r : Runtime File). handles r j) (done-inj e)),
  )
  run-handles (opens e ∷ calls) rt rt' c ran =
      let ((fi, mid), opened, rest) =
        >>=-eq-done (open_entry_num sd e rt) (λ r. run calls r.1) ran in
      let (cm, mark, hm) = open_entry_num-handles sd e rt fi mid c opened in
      let (c', h') = run-handles calls mid rt' cm rest in (c', λ j. ground (arith, h' j, hm j))
  run-handles (closes e ∷ calls) rt rt' c ran =
      let (mid, closed, rest) = >>=-eq-done (close_entry_num sd e rt) (run calls) ran in
      let (cm, pos, hm) = close_entry_num-handles sd e rt mid c closed in
      let (c', h') = run-handles calls mid rt' cm rest in (c', λ j. ground (arith, h' j, hm j, pos))
