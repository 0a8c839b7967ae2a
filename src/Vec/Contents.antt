-- ===== src/Vec/Contents.antt =====
-- The values that a vector of source/vec.c holds, as a list.
use mathlib.Core.List.{append_assoc, map-append}
use rr_launcher.Prelude.{
  ℕ, ◌+◌, ◌*◌, ◌≤◌, ◌<◌, ◌≡◌, refl, sym, ap, ◌∙◌, Bool, true, Option, none, some, List, [], ◌∷◌,
  ◌++◌, map, arith, length, get_elem?, set, replicate, length-append, length-replicate, length-map,
  set-append_at, get_elem?-append_left, get_elem?-lt, get_elem?-map, cons-cases, leb, if◌then◌else◌,
  int_max, Bool-cases, leb→le, ◌⊎◌, inl, inr, tests,
}
use rr_launcher.Result.{done}
use rr_launcher.Vec.{Vec, int_mul, store, vec_at, load, vec_init, grow, place, vec_push}

-- `v` holds the values `xs`, in order: the first cells hold them, `len` counts them, and the
-- allocation has `cap` cells whose size in bytes is an `int`.
pub record Holds {A : Type 0} (v : Vec A) (xs : List A) : Type 0 where
  pub spare : List (Option A)
  pub layout : v.data_ ≡ map some xs ++ spare
  pub count : v.len ≡ length xs
  pub room : v.cap ≡ length xs + length spare
  pub size_fits : v.cap * v.value_size ≤ int_max

pub length-some {ℓ} : {A : Type ℓ} (xs : List A) → length (map {B = Option A} some xs) ≡ length xs
length-some xs = length-map xs some

offset_fits : (i n size : ℕ) → i ≤ n → n * size ≤ int_max → i * size ≤ int_max
offset_fits i n size h k = grind arith

module _ {A : Type 0} where
  pub vec_at_lem :
      (v : Vec A) {xs : List A} (i : ℕ) → Holds v xs → i < length xs → vec_at v i ≡ done i
  unfolding vec_at int_mul
  vec_at_lem v i h below =
      ground (arith, offset_fits i v.cap v.value_size, h.size_fits, h.room, h.count)

  -- `*vec_at(vec, i)` reads the i-th value.
  pub load-Holds :
      (v : Vec A) (xs : List A) (i : ℕ) {x : A}
      → Holds v xs
      → get_elem? xs i ≡ some x
      → load v i ≡ done x
  unfolding load
  load-Holds v xs i h e =
      let cell =
        ap (λ (l : List (Option A)). get_elem? l i) h.layout
        ∙ get_elem?-append_left (map some xs) h.spare i
            (omega (arith, length-some {0} xs, get_elem?-lt xs i e))
        ∙ get_elem?-map some xs i e in
      rw (vec_at_lem v i h (get_elem?-lt xs i e), cell)

module _ (allocates : ℕ → Bool) {A : Type 0} where
  -- A new vector is empty.
  pub vec_init-Holds :
      (capacity value_size : ℕ)
      → value_size * capacity ≤ int_max
      → allocates (value_size * capacity) ≡ true
      → (v : Vec A) × (vec_init allocates capacity value_size ≡ done v)
        × Holds v []
        × (v.cap ≡ capacity)
        × (v.value_size ≡ value_size)
  unfolding vec_init int_mul
  vec_init-Holds capacity value_size fits met = (
    record { data_ = replicate capacity none; value_size = value_size; len = 0; cap = capacity },
    ground arith,
    record {
      spare = replicate capacity none;
      layout = refl;
      count = refl;
      room = omega (arith, length-replicate {0} {A = Option A} capacity none);
      size_fits = omega arith;
    },
    refl,
    refl,
  )

module _ {A : Type 0} where
  place-layout :
      (v : Vec A) (xs spare rest : List (Option A)) (c : Option A) (x : A)
      → v.data_ ≡ xs ++ spare
      → spare ≡ c ∷ rest
      → v.len ≡ length xs
      → set v.data_ v.len (some x) ≡ xs ++ some x ∷ rest
  place-layout v xs spare rest c x l e n = rw (l, e, n) (set-append_at xs c rest (some x))

  -- One more value, where the allocation has room for it.
  place-Holds :
      (v : Vec A) (xs : List A) (x : A)
      → Holds v xs
      → v.len < v.cap
      → (v' : Vec A) × (place v x ≡ done v')
        × Holds v' (xs ++ x ∷ [])
        × (v'.cap ≡ v.cap)
        × (v'.value_size ≡ v.value_size)
  unfolding place vec_at store int_mul
  place-Holds v xs x h room =
      let (c, rest, e) = cons-cases h.spare (omega (arith, h.room, h.count)) in
      (
        record v { len = v.len + 1; data_ = set v.data_ v.len (some x) },
        ground (
          arith,
          offset_fits v.len v.cap v.value_size,
          ap length h.layout,
          length-append {0} (map some xs) h.spare,
          length-some {0} xs,
          h.room,
          h.count,
        ),
        record {
          spare = rest;
          layout =
              place-layout v (map some xs) h.spare rest c x h.layout e
                (h.count ∙ sym (length-some {0} xs))
              ∙ sym (
                  ap (λ (l : List (Option A)). l ++ rest) (map-append some xs (x ∷ []))
                  ∙ append_assoc (map some xs) (some x ∷ []) rest);
          count = omega (arith, h.count, length-append {0} xs (x ∷ []));
          room = omega (arith, h.room, length-append {0} xs (x ∷ []), ap length e);
          size_fits = h.size_fits;
        },
        refl,
        refl,
      )

module _ (allocates : ℕ → Bool) {A : Type 0} where
  -- What a full vector needs to grow: room to double, a size in bytes that is an `int`, memory.
  pub record CanGrow (v : Vec A) : Type 0 where
    pub some_cap : 0 < v.cap
    pub under_limit : v.cap < 0x3FFFFFFF
    pub doubled_fits : v.cap * 2 * v.value_size ≤ int_max
    pub memory : allocates (v.cap * 2 * v.value_size) ≡ true

  grow-Holds :
      (v : Vec A) (xs : List A)
      → Holds v xs
      → CanGrow v
      → (v' : Vec A) × (grow allocates v ≡ done v')
        × Holds v' xs
        × (v'.cap ≡ v.cap * 2)
        × (v'.value_size ≡ v.value_size)
  unfolding grow int_mul
  grow-Holds v xs h g = (
    record v { data_ = v.data_ ++ replicate v.cap none; cap = v.cap * 2 },
    ground (arith, g.under_limit, g.doubled_fits, g.memory),
    record {
      spare = h.spare ++ replicate v.cap none;
      layout =
          ap (λ (l : List (Option A)). l ++ replicate v.cap none) h.layout
          ∙ append_assoc (map some xs) h.spare (replicate v.cap none);
      count = h.count;
      room = omega (
        arith,
        h.room,
        length-append {0} h.spare (replicate v.cap none),
        length-replicate {0} {A = Option A} v.cap none,
      );
      size_fits = g.doubled_fits;
    },
    refl,
    refl,
  )

  -- Pushing a value onto a vector that has room, or can grow, puts it behind the others. A full
  -- vector doubles.
  pub vec_push-Holds :
      (v : Vec A) (xs : List A) (x : A)
      → Holds v xs
      → (v.len < v.cap) ⊎ CanGrow v
      → (v' : Vec A) × (vec_push allocates v x ≡ done v')
        × Holds v' (xs ++ x ∷ [])
        × (v'.cap ≡ (if leb v.cap v.len then v.cap * 2 else v.cap))
  unfolding vec_push
  vec_push-Holds v xs x h room = elim (Bool-cases (leb v.cap v.len)) [
    | inl full ↦
        let (w, grown, hw, doubled, same) =
          grow-Holds v xs h (elim room [ inl below ↦ absurd (ground arith) | inr g ↦ g ]) in
        let (v', placed, hv, cap', _) = place-Holds w xs x hw (
          omega (
            arith,
            hw.count,
            hw.room,
            h.count,
            h.room,
            tests,
            leb→le v.cap v.len full,
            doubled,
            elim room as (λ r. 0 < v.cap ⊎ v.len < v.cap) [
              | inl b ↦ inr b
              | inr g ↦ inl g.some_cap
            ],
          )) in
        (v', rw (full, grown) placed, hv, rw full (cap' ∙ doubled))
    | inr space ↦
        let (v', placed, hv, cap', _) = place-Holds v xs x h (ground arith) in
        (v', rw space placed, hv, rw space cap')
  ]
