-- ===== src/Hash/Tests.antt =====
-- Runs of the hashes of shared/hash.c and instances of their laws.
use rr_launcher.Prelude.{◌%◌, ◌≡◌, ◌↔◌, refl, codes, u32_mod, arith}
use rr_launcher.Prelude.Int.{pos}
use rr_launcher.Hash.{hash_string, to_lowercase, strcicmp}
use rr_launcher.Hash.Laws.{java_hash, hash_string-eq-java_hash}
use rr_launcher.Hash.Fold.{strcicmp_iff}

hash_abc : hash_string (codes "abc") ≡ 96354
unfolding hash_string
hash_abc = refl

hash_string-eq-java_hash_example : hash_string (codes "a/b") ≡ java_hash (codes "a/b") % u32_mod
hash_string-eq-java_hash_example = hash_string-eq-java_hash (codes "a/b")

strcicmp_iff_example :
    (strcicmp (codes "aB") (codes "Ab") ≡ pos 0)
    ↔ (to_lowercase (codes "aB") ≡ to_lowercase (codes "Ab"))
strcicmp_iff_example =
    strcicmp_iff (codes "aB") (codes "Ab")
      ((omega arith, omega arith), ((omega arith, omega arith), tt))
      ((omega arith, omega arith), ((omega arith, omega arith), tt))
