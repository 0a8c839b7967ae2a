-- ===== src/Vec/Tests.antt =====
-- Runs of the vector of source/vec.c and instances of its laws.
use rr_launcher.Prelude.{
  ℕ, ◌*◌, ◌≡◌, refl, Bool, true, some, [], ◌∷◌, ◌++◌, leb, if◌then◌else◌, arith, inr,
}
use rr_launcher.Result.{done}
use rr_launcher.Vec.{Vec, vec_push, vec_swap_remove}
use rr_launcher.Vec.Contents.{Holds, vec_push-Holds}
use rr_launcher.Vec.Remove.{swap_removed, vec_swap_remove-Holds}

abbrev allocates : ℕ → Bool
allocates n = true

-- A full vector of two cells.
abbrev two : Vec ℕ
two = record { data_ = some 7 ∷ some 8 ∷ []; value_size = 4; len = 2; cap = 2 }

two-Holds : Holds two (7 ∷ 8 ∷ [])
two-Holds = record { spare = []; layout = refl; count = refl; room = refl; size_fits = omega arith }

vec_push-Holds_example :
    (v : Vec ℕ) × (vec_push allocates two 9 ≡ done v)
    × Holds v ((7 ∷ 8 ∷ []) ++ 9 ∷ [])
    × (v.cap ≡ (if leb 2 2 then 2 * 2 else 2))
vec_push-Holds_example = vec_push-Holds allocates two (7 ∷ 8 ∷ []) 9 two-Holds (
    inr (record {
      some_cap = omega arith;
      under_limit = omega arith;
      doubled_fits = omega arith;
      memory = refl;
    }))

vec_swap_remove-Holds_example :
    (v : Vec ℕ) × (vec_swap_remove two 0 ≡ done v) × Holds v (swap_removed (7 ∷ 8 ∷ []) 0)
vec_swap_remove-Holds_example = vec_swap_remove-Holds two (7 ∷ 8 ∷ []) 0 two-Holds (omega arith)
