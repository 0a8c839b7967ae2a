-- ===== src/NatTest/Tally.antt =====
-- The statistics of source/nat_test.c over a list of times.
use mathlib.Core.List.{Memᴰ}
use rr_launcher.Prelude.{
  ℕ, ◌+◌, ◌*◌, ◌/◌, ◌^◌, ◌≤◌, ◌<◌, ◌≡◌, ◌⊎◌, refl, sym, ap₂, ◌∙◌, subst, true, false, Bool-cases,
  inl, inr, if◌then◌else◌, ltb, ◌==◌, List, [], ◌∷◌, length, u32, All, arith,
}
use rr_launcher.NatTest.Ping.{Stats, no_pings, tally, PingResult, no_ping_result, ping_result}

-- A round no longer than this cannot make the sum of five overflow.
abbrev pub longest : ℕ
longest = 2 ^ 29

abbrev pub sum : List ℕ → ℕ
sum [] = 0
sum (t ∷ times) = t + sum times

abbrev pub IsLeast : ℕ → List ℕ → Type 0
IsLeast m times = Memᴰ m times × All (λ t. m ≤ t) times

abbrev pub IsGreatest : ℕ → List ℕ → Type 0
IsGreatest m times = Memᴰ m times × All (λ t. t ≤ m) times

-- What a result says of the times of the pings that were answered.
abbrev pub Measures : List ℕ → PingResult → Type 0
Measures [] r = r ≡ no_ping_result
Measures (t ∷ times) r =
    (r.success ≡ true)
    × IsLeast r.min_ms (t ∷ times)
    × IsGreatest r.max_ms (t ∷ times)
    × (r.avg_ms ≡ sum (t ∷ times) / length (t ∷ times))

-- The loop over these times.
unfoldable pub tally_all : Stats → List ℕ → Stats
tally_all s [] = s
tally_all s (t ∷ times) = tally_all (tally s true t) times

abbrev pub IsShort : List ℕ → Type 0
IsShort = All (λ t. t ≤ longest)

lesser : (a b : ℕ) → let m = if ltb a b then a else b in (m ≤ a) × (m ≤ b) × ((m ≡ a) ⊎ (m ≡ b))
lesser a b = elim (Bool-cases (ltb a b)) [
  | inl less ↦ rw less (omega arith, ground arith, inl refl)
  | inr more ↦ rw more (ground arith, omega arith, inr refl)
]

greater : (a b : ℕ) → let m = if ltb b a then a else b in (a ≤ m) × (b ≤ m) × ((m ≡ a) ⊎ (m ≡ b))
greater a b = elim (Bool-cases (ltb b a)) [
  | inl more ↦ rw more (omega arith, ground arith, inl refl)
  | inr less ↦ rw less (ground arith, omega arith, inr refl)
]

-- A number that is one of those after it, or the first of them, or the one before.
among :
    {m x t before : ℕ} {times : List ℕ}
    → (m ≡ x) ⊎ Memᴰ m times
    → (x ≡ t) ⊎ (x ≡ before)
    → (m ≡ before) ⊎ Memᴰ m (t ∷ times)
among (inl e) (inl f) = inr (Memᴰ.head (e ∙ f))
among (inl e) (inr f) = inl (e ∙ f)
among (inr later) f = inr (Memᴰ.tail later)

tally_all-least :
    (s : Stats) (times : List ℕ)
    → let m = (tally_all s times).min_ms in
      (m ≤ s.min_ms) × All (λ t. m ≤ t) times × ((m ≡ s.min_ms) ⊎ Memᴰ m times)
unfolding tally_all tally
tally_all-least s [] = (omega arith, tt, inl refl)
tally_all-least s (t ∷ times) =
    let (below, all, one) = tally_all-least (tally s true t) times in
    let (at_most, at_most_old, either) = lesser t s.min_ms in
    (omega (arith, below, at_most_old), (omega (arith, below, at_most), all), among one either)

tally_all-greatest :
    (s : Stats) (times : List ℕ)
    → let m = (tally_all s times).max_ms in
      (s.max_ms ≤ m) × All (λ t. t ≤ m) times × ((m ≡ s.max_ms) ⊎ Memᴰ m times)
unfolding tally_all tally
tally_all-greatest s [] = (omega arith, tt, inl refl)
tally_all-greatest s (t ∷ times) =
    let (above, all, one) = tally_all-greatest (tally s true t) times in
    let (at_least, at_least_old, either) = greater t s.max_ms in
    (omega (arith, above, at_least_old), (omega (arith, above, at_least), all), among one either)

tally_all-sum :
    (s : Stats) (times : List ℕ)
    → s.total_ms + sum times < 2 ^ 32
    → ((tally_all s times).total_ms ≡ s.total_ms + sum times)
      × ((tally_all s times).successful ≡ s.successful + length times)
unfolding tally_all tally
tally_all-sum s [] small = (omega arith, omega arith)
tally_all-sum s (t ∷ times) small =
    let fits : u32 (s.total_ms + t) ≡ s.total_ms + t = omega arith in
    let (total, count) = tally_all-sum (tally s true t) times (omega (arith, fits)) in
    (omega (arith, total, fits), omega (arith, count))

sum-short : (times : List ℕ) → IsShort times → sum times ≤ length times * longest
sum-short [] short = omega arith
sum-short (t ∷ times) (one, short) = omega (arith, sum-short times short)

no_pings-IsLeast :
    (t : ℕ) (times : List ℕ)
    → t ≤ longest
    → IsLeast (tally_all no_pings (t ∷ times)).min_ms (t ∷ times)
no_pings-IsLeast t times short =
    let (below, (first, all), one) = tally_all-least no_pings (t ∷ times) in
    elim one [
      | inl none_less ↦ absurd (omega (arith, none_less, first))
      | inr there ↦ (there, (first, all))
    ]

no_pings-IsGreatest :
    (t : ℕ) (times : List ℕ) → IsGreatest (tally_all no_pings (t ∷ times)).max_ms (t ∷ times)
no_pings-IsGreatest t times =
    let (above, (first, all), one) = tally_all-greatest no_pings (t ∷ times) in
    elim one [
      | inl zero_most ↦
          let e : (tally_all no_pings (t ∷ times)).max_ms ≡ t = omega (arith, zero_most, first) in
          (Memᴰ.head e, (first, all))
      | inr there ↦ (there, (first, all))
    ]

pub ping_result-Measures :
    (times : List ℕ)
    → IsShort times
    → length times ≤ 5
    → Measures times (ping_result (tally_all no_pings times))
unfolding ping_result
ping_result-Measures [] short few = unfold tally_all in refl
ping_result-Measures (t ∷ times) (one, short) few =
    let s = tally_all no_pings (t ∷ times) in
    let bound = sum-short (t ∷ times) (one, short) in
    let (total, count) = tally_all-sum no_pings (t ∷ times) (omega (arith, bound)) in
    let some_back : (s.successful == 0) ≡ false = ground (arith, count) in
    let mean : s.total_ms / s.successful ≡ sum (t ∷ times) / length (t ∷ times) =
      ap₂ (λ (a b : ℕ). a / b) (let e : s.total_ms ≡ sum (t ∷ times) = omega (arith, total) in e)
        (let e : s.successful ≡ length (t ∷ times) = omega (arith, count) in e) in
    let reported : ping_result s ≡ record {
      success = true;
      min_ms = s.min_ms;
      avg_ms = s.total_ms / s.successful;
      max_ms = s.max_ms;
    } =
      rw some_back refl in
    subst (Measures (t ∷ times)) (sym reported)
      (refl, no_pings-IsLeast t times one, no_pings-IsGreatest t times, mean)
