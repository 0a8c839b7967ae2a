-- ===== src/Vec.antt =====
-- source/vec.c: a dynamic array. `data` is the allocation, one cell for each of the `cap` values
-- that fit; a cell that was never written holds nothing. `malloc` and `realloc` are the parameter
-- `allocates`, which says whether a request for so many bytes is met.
pub mod Contents
pub mod Remove
mod Tests
use rr_launcher.Prelude.{
  ℕ, ◌+◌, ◌-◌, ◌*◌, Bool, true, false, not, ◌||◌, ◌&&◌, Option, none, some, List, ◌++◌, length,
  get_elem?, set, replicate, ltb, leb, ◌==◌, if◌then◌else◌, int_max,
}
use rr_launcher.Result.{Outcome, done, fatal, fault, ◌>>=◌, ◌>>◌, assert, defined, read}

-- `struct vec`
pub record Vec (A : Type 0) : Type 0 where
  pub data_ : List (Option A)
  pub value_size : ℕ
  pub len : ℕ
  pub cap : ℕ

-- A product of two `int`s, which C leaves undefined past the greatest `int`.
int_mul : ℕ → ℕ → Outcome ℕ
int_mul a b = if leb (a * b) int_max then done (a * b) else fault

module _ {A : Type 0} where
  -- A store through a pointer to a cell.
  store : Vec A → ℕ → A → Outcome (Vec A)
  store v index value =
      if ltb index (length v.data_)
      then done (record v { data_ = set v.data_ index (some value) })
      else fault

  -- `vec_at` checks the index and returns a pointer to the cell, which is its index here.
  pub vec_at : Vec A → ℕ → Outcome ℕ
  unfolding int_mul
  vec_at v index = do
    assert (ltb index v.len) "vec index out of bounds"
    int_mul index v.value_size
    done index

  -- What `*vec_at(vec, index)` reads.
  pub load : Vec A → ℕ → Outcome A
  unfolding vec_at
  load v index = do at ← vec_at v index; cell ← read (get_elem? v.data_ at); read cell

  -- The end of `vec_push`: count one more value and copy it into the last cell.
  place : Vec A → A → Outcome (Vec A)
  unfolding store vec_at
  place v value = do
    let pushed = record v { len = v.len + 1 }
    dest ← vec_at pushed (pushed.len - 1)
    store pushed dest value

module _ (allocates : ℕ → Bool) {A : Type 0} where
  pub vec_init : ℕ → ℕ → Outcome (Vec A)
  unfolding int_mul
  vec_init capacity value_size = do
    size ← int_mul value_size capacity
    assert (allocates size) "OOM while allocating vec data"
    done (record {
      data_ = replicate capacity none;
      value_size = value_size;
      len = 0;
      cap = capacity;
    })

  -- The growth inside `vec_push`: the new cells hold nothing yet.
  grow : Vec A → Outcome (Vec A)
  unfolding int_mul
  grow v = do
    assert (ltb v.cap 0x3FFFFFFF) "vec capacity too large"
    size ← int_mul (v.cap * 2) v.value_size
    assert (allocates size) "OOM while reallocating vec data"
    done (record v { data_ = v.data_ ++ replicate v.cap none; cap = v.cap * 2 })

  pub vec_push : Vec A → A → Outcome (Vec A)
  vec_push v value = do v ← if leb v.cap v.len then grow v else done v; place v value

module _ {A : Type 0} where
  pub vec_swap_remove : Vec A → ℕ → Outcome (Vec A)
  unfolding vec_at store load
  vec_swap_remove v index = do
    assert (ltb index v.len) "vec index out of bounds"
    v ←
        if index == v.len - 1
        then done v
        else do last_value ← load v (v.len - 1); dest ← vec_at v index; store v dest last_value
    done (record v { len = v.len - 1 })
