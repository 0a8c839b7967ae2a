-- ===== src/Hash/Fold.antt =====
-- Case folding: `tolower`, `to_lowercase` and `strcicmp` of runtime-ext/source/util.c.
use rr_launcher.Prelude.{ℕ, ◌≡◌, refl, ap₂, ◌↔◌, [], ◌∷◌, arith, Bytes, IsCString}
use rr_launcher.Prelude.Int.{pos}
use rr_launcher.Hash.{tolower, to_lowercase, strcicmp}

pub tolower_idem : (c : ℕ) → tolower (tolower c) ≡ tolower c
unfolding tolower
tolower_idem c = ground arith

-- Folding a folded string changes nothing.
pub to_lowercase_idem : (s : Bytes) → to_lowercase (to_lowercase s) ≡ to_lowercase s
unfolding to_lowercase
to_lowercase_idem [] = refl
to_lowercase_idem (c ∷ s) = ap₂ ◌∷◌ (tolower_idem c) (to_lowercase_idem s)

strcicmp-zero :
    (a b : Bytes)
    → IsCString a
    → IsCString b
    → strcicmp a b ≡ pos 0
    → to_lowercase a ≡ to_lowercase b
unfolding strcicmp to_lowercase tolower
strcicmp-zero [] [] h k e = refl
strcicmp-zero [] (y ∷ b) h k e = absurd (ground arith)
strcicmp-zero (x ∷ a) [] h k e = absurd (ground arith)
strcicmp-zero (x ∷ a) (y ∷ b) h k e = ground (arith, strcicmp-zero a b h.1 k.1)

strcicmp-fold : (a b : Bytes) → to_lowercase a ≡ to_lowercase b → strcicmp a b ≡ pos 0
unfolding strcicmp to_lowercase
strcicmp-fold [] [] e = refl
strcicmp-fold [] (y ∷ b) e = cc
strcicmp-fold (x ∷ a) [] e = cc
strcicmp-fold (x ∷ a) (y ∷ b) e = ground (arith, strcicmp-fold a b)

-- `strcicmp` returns 0 exactly when the two strings fold to the same string.
pub strcicmp_iff :
    (a b : Bytes)
    → IsCString a
    → IsCString b
    → (strcicmp a b ≡ pos 0) ↔ (to_lowercase a ≡ to_lowercase b)
strcicmp_iff a b h k = (strcicmp-zero a b h k, strcicmp-fold a b)
