-- ===== src/Vec/Remove.antt =====
-- `vec_swap_remove` of source/vec.c, on the values that a vector holds.
use mathlib.Core.List.{append_assoc, append-nil, map-append, Permᴰ}
use mathlib.Core.List.Permᴰ
use rr_launcher.Prelude.{
  ℕ, zero, suc, ◌+◌, ◌-◌, ◌<◌, ◌≡◌, refl, sym, ap, ◌∙◌, Option, none, some, List, [], ◌∷◌, ◌++◌,
  map, arith, length, get_elem?, set, length-append, get_elem?-append_at, set-append_left,
  get_elem?-append_left, set-map, snoc-cases, length-set, some-inj, get_elem?-lt, ◌==◌,
  if◌then◌else◌, ==_iff, ne_of_test, subst, Bool-cases, inl, inr,
}
use rr_launcher.Result.{done}
use rr_launcher.Vec.{Vec, store, load, vec_swap_remove}
use rr_launcher.Vec.Contents.{Holds, load-Holds, vec_at_lem, length-some}

module _ {ℓ} {A : Type ℓ} where
  -- A list without its last element.
  pub drop_last : List A → List A
  drop_last [] = []
  drop_last (x ∷ []) = []
  drop_last (x ∷ y ∷ xs) = x ∷ drop_last (y ∷ xs)

  drop_last-snoc : (ys : List A) (z : A) → drop_last (ys ++ z ∷ []) ≡ ys
  unfolding drop_last
  drop_last-snoc [] z = refl
  drop_last-snoc (y ∷ []) z = refl
  drop_last-snoc (y ∷ y' ∷ ys) z = ap (◌∷◌ y) (drop_last-snoc (y' ∷ ys) z)

  -- `last` is the last element, which takes the place of the one at the index.
  with_last : Option A → List A → ℕ → List A
  with_last none xs i = []
  with_last (some z) xs i = if i == length xs - 1 then drop_last xs else drop_last (set xs i z)

  -- The list that is left when the last element takes the place of the one at the index.
  unfoldable pub swap_removed : List A → ℕ → List A
  unfolding with_last drop_last
  swap_removed xs i = with_last (get_elem? xs (length xs - 1)) xs i

  last_index : (ys : List A) (z : A) → length (ys ++ z ∷ []) - 1 ≡ length ys
  last_index ys z = omega (arith, length-append {ℓ} ys (z ∷ []))

  with_last-snoc :
      (ys : List A) (z : A) (i : ℕ)
      → i < length (ys ++ z ∷ [])
      → with_last (some z) (ys ++ z ∷ []) i ≡ (if i == length ys then ys else set ys i z)
  unfolding with_last
  with_last-snoc ys z i h = rw last_index (elim (Bool-cases (i == length ys)) [
    | inl at ↦ rw at (drop_last-snoc ys z)
    | inr before ↦
        rw
          (
            before,
            set-append_left ys (z ∷ []) i z
                (omega (arith, length-append {ℓ} ys (z ∷ []), ne_of_test i (length ys) before)),
          )
          (drop_last-snoc (set ys i z) z)
  ])

  pub swap_removed-snoc :
      (ys : List A) (z : A) (i : ℕ)
      → i < length (ys ++ z ∷ [])
      → swap_removed (ys ++ z ∷ []) i ≡ (if i == length ys then ys else set ys i z)
  unfolding swap_removed
  swap_removed-snoc ys z i h = rw (last_index, get_elem?-append_at) (with_last-snoc ys z i h)

  Permᴰ-set :
      (ys : List A) (i : ℕ) (z : A) {x : A}
      → get_elem? ys i ≡ some x
      → Permᴰ (z ∷ ys) (x ∷ set ys i z)
  Permᴰ-set [] i z e = absurd (ground arith)
  Permᴰ-set (y ∷ ys) zero z e = Permᴰ.swap refl (some-inj e)
  Permᴰ-set (y ∷ ys) (suc i) z {x} e =
      Permᴰ.trans (Permᴰ.swap refl refl)
        (Permᴰ.trans (Permᴰ.cons refl (Permᴰ-set ys i z e)) (Permᴰ.swap refl refl))

  pub snoc-Permᴰ : (ys : List A) (z : A) → Permᴰ (ys ++ z ∷ []) (z ∷ ys)
  snoc-Permᴰ ys z =
      subst (λ (l : List A). Permᴰ (ys ++ z ∷ []) (z ∷ l)) (append-nil ys) (Permᴰ.middle z ys [])

  swap_removed-snoc-Permᴰ :
      (ys : List A) (z : A) (i : ℕ) {x : A}
      → get_elem? (ys ++ z ∷ []) i ≡ some x
      → Permᴰ (ys ++ z ∷ []) (x ∷ swap_removed (ys ++ z ∷ []) i)
  swap_removed-snoc-Permᴰ ys z i {x} e = elim (Bool-cases (i == length ys)) [
    | inl at ↦
        let there : z ≡ x = some-inj (
          sym (get_elem?-append_at ys z [])
          ∙ (ap (get_elem? (ys ++ z ∷ [])) (sym ((==_iff i (length ys)).0 at)) ∙ e)) in
        rw (swap_removed-snoc ys z i (get_elem?-lt (ys ++ z ∷ []) i e), at, ← there)
          (snoc-Permᴰ ys z)
    | inr before ↦
        let below : i < length ys = omega (
          arith,
          get_elem?-lt (ys ++ z ∷ []) i e,
          length-append {ℓ} ys (z ∷ []),
          ne_of_test i (length ys) before,
        ) in
        rw (swap_removed-snoc ys z i (get_elem?-lt (ys ++ z ∷ []) i e), before)
          (Permᴰ.trans (snoc-Permᴰ ys z)
            (Permᴰ-set ys i z (sym (get_elem?-append_left ys (z ∷ []) i below) ∙ e)))
  ]

  -- Exactly one element is gone, the one at the index.
  pub swap_removed-Permᴰ :
      (xs : List A) (i : ℕ) {x : A} → get_elem? xs i ≡ some x → Permᴰ xs (x ∷ swap_removed xs i)
  swap_removed-Permᴰ xs i {x} e =
      let (ys, z, cut) = snoc-cases xs (omega (arith, get_elem?-lt xs i e)) in
      subst (λ (l : List A). Permᴰ l (x ∷ swap_removed l i)) (sym cut)
        (swap_removed-snoc-Permᴰ ys z i (ap (λ (l : List A). get_elem? l i) (sym cut) ∙ e))

module _ {A : Type 0} where
  cut :
      (ys : List A) (z : A) (spare : List (Option A))
      → map some (ys ++ z ∷ []) ++ spare ≡ map some ys ++ some z ∷ spare
  cut ys z spare = rw (map-append some ys (z ∷ []), append_assoc)

  remove-layout :
      (v : Vec A) (ys : List A) (z : A) (spare : List (Option A)) (i : ℕ)
      → v.data_ ≡ map some (ys ++ z ∷ []) ++ spare
      → i < length ys
      → set v.data_ i (some z) ≡ map some (set ys i z) ++ some z ∷ spare
  remove-layout v ys z spare i l below =
      rw (l, cut)
        (rw (
          set-append_left (map some ys) (some z ∷ spare) i (some z)
              (omega (arith, length-some {0} ys)),
          set-map {B = Option A} some ys i z,
        ))

  vec_swap_remove-snoc :
      (v : Vec A) (ys : List A) (z : A) (i : ℕ)
      → Holds v (ys ++ z ∷ [])
      → i < length (ys ++ z ∷ [])
      → (v' : Vec A) × (vec_swap_remove v i ≡ done v')
        × Holds v' (if i == length ys then ys else set ys i z)
  unfolding vec_swap_remove store
  vec_swap_remove-snoc v ys z i h below =
      let n : v.len ≡ length ys + 1 = omega (arith, h.count, length-append {0} ys (z ∷ [])) in
      let cells : i < length v.data_ = omega (
        arith,
        ap length h.layout,
        length-append {0} (map some (ys ++ z ∷ [])) h.spare,
        length-some {0} (ys ++ z ∷ []),
      ) in
      let last : load v (v.len - 1) ≡ done z =
        load-Holds v (ys ++ z ∷ []) (v.len - 1) h
          (ap (get_elem? (ys ++ z ∷ [])) (omega arith) ∙ get_elem?-append_at ys z []) in
      let room : v.cap ≡ length ys + suc (length h.spare) = omega (arith, h.room, h.count) in
      elim (Bool-cases (i == length ys)) [
        | inl at ↦ (
          record v { len = v.len - 1 },
          ground (arith, h.count),
          rw at (record {
            spare = some z ∷ h.spare;
            layout = h.layout ∙ cut ys z h.spare;
            count = omega arith;
            room = room;
            size_fits = h.size_fits;
          }),
        )
        | inr before ↦ (
          record v { data_ = set v.data_ i (some z); len = v.len - 1 },
          ground (arith, h.count, last, cells, vec_at_lem v i h below),
          rw before (record {
            spare = some z ∷ h.spare;
            layout =
                remove-layout v ys z h.spare i h.layout
                  (omega (arith, ne_of_test i (length ys) before));
            count = omega (arith, length-set {0} ys i z);
            room = omega (arith, room, length-set {0} ys i z);
            size_fits = h.size_fits;
          }),
        )
      ]

  -- `vec_swap_remove` at an index within the vector leaves the list without that element, its place
  -- taken by the last one.
  pub vec_swap_remove-Holds :
      (v : Vec A) (xs : List A) (i : ℕ)
      → Holds v xs
      → i < length xs
      → (v' : Vec A) × (vec_swap_remove v i ≡ done v') × Holds v' (swap_removed xs i)
  vec_swap_remove-Holds v xs i h below =
      let (ys, z, cut) = snoc-cases xs (omega arith) in
      let (v', removed, holds) =
        vec_swap_remove-snoc v ys z i (subst (Holds v) cut h)
          (subst (λ (l : List A). i < length l) cut below) in
      (
        v',
        removed,
        subst (Holds v')
            (sym (swap_removed-snoc ys z i (subst (λ (l : List A). i < length l) cut below))
              ∙ ap (λ (l : List A). swap_removed l i) (sym cut))
            holds,
      )
