-- ===== src/Dvd/Files/Table.antt =====
-- Which slot each SD file holds, and how often each slot is in use, apart from how
-- runtime-ext/source/dvd.c stores them.
use rr_launcher.Prelude.{
  ℕ, ◌<◌, ◌≡◌, ◌≢◌, Option, none, some, ◌==◌, if◌then◌else◌, arith, ◌⊎◌, inl, inr, Bool-cases,
  Option-cases,
}

-- A file that holds a slot keeps it in use, no two files hold one slot, and a slot in use is held.
pub record IsConsistent (slot : ℕ → Option ℕ) (refs : ℕ → ℕ) : Type 0 where
  pub live : (i s : ℕ) → slot i ≡ some s → 0 < refs s
  pub distinct : (i j s : ℕ) → slot i ≡ some s → slot j ≡ some s → i ≡ j
  pub owned : (s : ℕ) → 0 < refs s → (i : ℕ) × (slot i ≡ some s)

-- How many handles of a file are open.
unfoldable pub handles : (ℕ → Option ℕ) → (ℕ → ℕ) → ℕ → ℕ
handles slot refs i = elim (slot i) [ none ↦ 0 | some s ↦ refs s ]

-- One file `e` and one slot `s` change: the slot is in use `n` times from now on, and the file
-- holds it just where that is not 0.
pub record Change (slot slot' : ℕ → Option ℕ) (refs refs' : ℕ → ℕ) (e s n : ℕ) : Type 0 where
  pub before : (slot e ≡ some s) ⊎ ((slot e ≡ none) × (refs s ≡ 0))
  pub slots : (j : ℕ) → slot' j ≡ (if e == j then (if n == 0 then none else some s) else slot j)
  pub counts : (t : ℕ) → refs' t ≡ (if s == t then n else refs t)

module _ {slot slot' : ℕ → Option ℕ} {refs refs' : ℕ → ℕ} {e s n : ℕ} (c : IsConsistent slot refs)
    (ch : Change slot slot' refs refs' e s n) where
  -- No other file holds the slot.
  others : (j : ℕ) → e ≢ j → slot j ≢ some s
  others j ne held = elim ch.before [
    | inl mine ↦ ne (c.distinct e j s mine held)
    | inr fresh ↦ omega (arith, c.live j s held, fresh.1)
  ]

  pub Change-handles : (j : ℕ) → handles slot' refs' j ≡ (if e == j then n else handles slot refs j)
  unfolding handles
  Change-handles j = elim (Option-cases (slot j)) [
    | inl empty ↦ ground (arith, ch.slots j, ch.counts s, empty)
    | inr (t, held) ↦ ground (arith, ch.slots j, ch.counts s, ch.counts t, held, others j)
  ]

  owned' : (t : ℕ) → 0 < refs' t → (i : ℕ) × (slot' i ≡ some t)
  owned' t h = elim (Bool-cases (s == t)) [
    | inl same ↦ (e, ground (arith, ch.slots e, ch.counts t))
    | inr other ↦
        let (i, held) = c.owned t (ground (arith, ch.counts t)) in
        (i, ground (arith, ch.slots i, ch.before, held))
  ]

  pub Change-IsConsistent : IsConsistent slot' refs'
  Change-IsConsistent = record {
    live = λ i t h. ground (arith, ch.slots i, ch.counts t, c.live i t, others i);
    distinct =
        λ i j t h k. ground (arith, ch.slots i, ch.slots j, others i, others j, c.distinct i j t);
    owned = owned';
  }
