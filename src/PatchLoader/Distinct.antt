-- ===== src/PatchLoader/Distinct.antt =====
-- Replacements with distinct paths, for source/loader/riivo_patch_loader.c: their order does not
-- matter.
use mathlib.Core.List.{Permᴰ}
use rr_launcher.Prelude.{
  ◌≡◌, refl, ap, ◌∙◌, subst, false, List, [], ◌∷◌, Bytes, bytes_eq, bytes_eq_iff, All, arith,
}
use rr_launcher.Riivo.{Replacement}
use rr_launcher.Dvd.Search.Linear.{find_disc}

-- No entry is for this path.
abbrev pub Absent : Bytes → List Replacement → Type 0
Absent d = All (λ r. bytes_eq r.disc d ≡ false)

-- Each path has at most one entry.
abbrev pub Distinct : List Replacement → Type 0
Distinct [] = Unit
Distinct (r ∷ rest) = Absent r.disc rest × Distinct rest

pub All-Permᴰ {ℓ κ} :
    {A : Type ℓ} (P : A → Type κ) {xs ys : List A} → Permᴰ xs ys → All P xs → All P ys
All-Permᴰ P Permᴰ.nil a = a
All-Permᴰ P (Permᴰ.cons e p) a = (subst P e a.0, All-Permᴰ P p a.1)
All-Permᴰ P (Permᴰ.swap e f) a = (subst P f a.1.0, (subst P e a.0, a.1.1))
All-Permᴰ P (Permᴰ.trans p q) a = All-Permᴰ P q (All-Permᴰ P p a)

bytes_eq_comm : (a b : Bytes) → bytes_eq a b ≡ false → bytes_eq b a ≡ false
bytes_eq_comm a b h = ground (arith, bytes_eq_iff a b, bytes_eq_iff b a)

Distinct-swap :
    (a b : Replacement) (l : List Replacement) → Distinct (a ∷ b ∷ l) → Distinct (b ∷ a ∷ l)
Distinct-swap a b l s = ((bytes_eq_comm b.disc a.disc s.0.0, s.1.0), (s.0.1, s.1.1))

-- Whether the paths are distinct does not depend on the order.
pub Distinct-Permᴰ : {xs ys : List Replacement} → Permᴰ xs ys → Distinct xs → Distinct ys
Distinct-Permᴰ Permᴰ.nil s = s
Distinct-Permᴰ (Permᴰ.cons {l₂ = ys} e p) s =
    subst (λ (r : Replacement). Distinct (r ∷ ys)) e
      (All-Permᴰ (λ (r : Replacement). bytes_eq r.disc _ ≡ false) p s.0, Distinct-Permᴰ p s.1)
Distinct-Permᴰ (Permᴰ.swap {a = a} {b = b} {a' = a'} {l = l} e f) s =
    subst (λ (r : Replacement). Distinct (a' ∷ r ∷ l)) e
      (subst (λ (r : Replacement). Distinct (r ∷ a ∷ l)) f (Distinct-swap a b l s))
Distinct-Permᴰ (Permᴰ.trans p q) s = Distinct-Permᴰ q (Distinct-Permᴰ p s)

find_disc-swap :
    (d : Bytes) (a b : Replacement) (l : List Replacement)
    → bytes_eq b.disc a.disc ≡ false
    → find_disc d (a ∷ b ∷ l) ≡ find_disc d (b ∷ a ∷ l)
unfolding find_disc
find_disc-swap d a b l h =
    ground (arith, bytes_eq_iff a.disc d, bytes_eq_iff b.disc d, bytes_eq_iff b.disc a.disc)

find_disc-cons :
    (d : Bytes) (r : Replacement) (xs ys : List Replacement)
    → find_disc d xs ≡ find_disc d ys
    → find_disc d (r ∷ xs) ≡ find_disc d (r ∷ ys)
unfolding find_disc
find_disc-cons d r xs ys h = rw h

-- Where the paths are distinct, what a path is replaced by does not depend on the order.
pub find_disc-Permᴰ :
    (d : Bytes) {xs ys : List Replacement}
    → Permᴰ xs ys
    → Distinct xs
    → find_disc d xs ≡ find_disc d ys
find_disc-Permᴰ d Permᴰ.nil s = refl
find_disc-Permᴰ d (Permᴰ.cons {a = a} {b = b} {l₁ = xs} {l₂ = ys} e p) s =
    find_disc-cons d a xs ys (find_disc-Permᴰ d p s.1)
    ∙ ap (λ (r : Replacement). find_disc d (r ∷ ys)) e
find_disc-Permᴰ d (Permᴰ.swap {a = a} {b = b} {a' = a'} {l = l} e f) s =
    find_disc-swap d a b l s.0.0
    ∙ (ap (λ (r : Replacement). find_disc d (r ∷ a ∷ l)) f
        ∙ ap (λ (r : Replacement). find_disc d (a' ∷ r ∷ l)) e)
find_disc-Permᴰ d (Permᴰ.trans p q) s =
    find_disc-Permᴰ d p s ∙ find_disc-Permᴰ d q (Distinct-Permᴰ p s)
