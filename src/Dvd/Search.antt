-- ===== src/Dvd/Search.antt =====
-- The lookup of a path among the replacements, in runtime-ext/source/dvd.c.
pub mod Binary
pub mod Linear
use rr_launcher.Prelude.{
  ℕ, zero, suc, ◌+◌, ◌/◌, Option, none, some, List, [], ◌∷◌, Bool, length, get_elem?, drop, ltb,
  ◌==◌, if◌then◌else◌, Bytes,
}
use rr_launcher.Prelude.Int.{is_zero}
use rr_launcher.Result.{Outcome, done, fault, ◌>>=◌, read}
use rr_launcher.Hash.{hash_string_lowercase, strcicmp}
use rr_launcher.Riivo.{Replacement, Disc}

module _ (hash : ℕ) (replacements : List Replacement) where
  -- `while (mid > 0 && replacements[mid - 1].hash == hash) mid--;`
  walk_back : ℕ → Outcome ℕ
  walk_back zero = done zero
  walk_back (suc mid) = do
    before ← read (get_elem? replacements mid)
    let rest = walk_back mid
    if before.hash == hash then rest else done (suc mid)

  -- The binary search between `start` and `end`, with fuel for its rounds; `fault` is a read out of
  -- range, or a loop that goes on for ever.
  search_between : ℕ → ℕ → ℕ → Outcome (Option ℕ)
  unfolding walk_back
  search_between zero start end = fault
  search_between (suc fuel) start end =
      let mid = (start + end) / 2 in
      let round = (do
        at ← read (get_elem? replacements mid)
        let left = search_between fuel start mid
        let right = search_between fuel (mid + 1) end
        if at.hash == hash
            then (do first ← walk_back mid; done (some first))
            else if ltb at.hash hash
            then right
            else left) in
      if ltb start end then round else done none

-- `rte_dvd_search_replacement_by_hash`; `none` is -1.
pub search_replacement_by_hash : ℕ → List Replacement → Outcome (Option ℕ)
unfolding search_between
search_replacement_by_hash hash replacements =
    search_between hash replacements (length replacements + 1) 0 (length replacements)

-- The loop that walks forward while the hash is the same, over what is left of the array.
scan : ℕ → Bytes → List Replacement → Option ℕ
scan hash filename [] = none
scan hash filename (r ∷ rest) =
    if r.hash == hash
    then (if is_zero (strcicmp r.disc filename) then some r.entrynum else scan hash filename rest)
    else none

scan_from : ℕ → Bytes → List Replacement → Option ℕ → Option ℕ
unfolding scan
scan_from hash filename replacements none = none
scan_from hash filename replacements (some index) = scan hash filename (drop index replacements)

-- `rte_dvd_search_replacement`: the entry number, where it returns true.
pub search_replacement : ℕ → Bytes → List Replacement → Outcome (Option ℕ)
unfolding scan_from
search_replacement hash filename replacements = do
  index ← search_replacement_by_hash hash replacements
  done (scan_from hash filename replacements index)

-- `if (filename[0] == '/') filename++;`
unfoldable pub strip_slash : Bytes → Bytes
strip_slash [] = []
strip_slash (c ∷ s) = if c == b'/' then s else c ∷ s

-- What follows the last '/' of the rest `s`, or `start` if it has none.
unfoldable pub segment_from : Bytes → Bytes → Bytes
segment_from start [] = start
segment_from start (c ∷ s) = segment_from (if c == b'/' then s else start) s

-- The part behind `strrchr(filename, '/')`, or the whole.
unfoldable pub filename_segment : Bytes → Bytes
unfolding segment_from
filename_segment filename = segment_from filename filename

-- `rte_dvd_resolve_path_to_entry_num`: the filename replacements first.
unfoldable pub resolve_path : Disc → Bytes → Outcome (Option ℕ)
unfolding strip_slash filename_segment
resolve_path disc path = do
  let filename = strip_slash path
  let segment = filename_segment filename
  by_name ← search_replacement (hash_string_lowercase segment) segment disc.filename_replacements
  elim by_name [
    | some entry_num ↦ done (some entry_num)
    | none ↦ search_replacement (hash_string_lowercase filename) filename disc.replacements
  ]
