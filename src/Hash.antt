-- ===== src/Hash.antt =====
-- shared/hash.c: the string hashes of the file replacements, and the case folding of
-- runtime-ext/source/util.c that goes with them.
pub mod Laws
pub mod Fold
mod Tests
use rr_launcher.Prelude.{
  ℕ, ◌+◌, ◌*◌, Bool, ◌&&◌, List, [], ◌∷◌, map, leb, ◌==◌, if◌then◌else◌, u32, Bytes,
}
use rr_launcher.Prelude.Int.{ℤ, pos, sub_ℕ, is_zero}

-- `tolower` of the C locale.
unfoldable pub tolower : ℕ → ℕ
tolower c = if leb b'A' c && leb c b'Z' then c + 32 else c

-- The loops of both hashes run over the bytes up to the terminator.
hash_from : ℕ → Bytes → ℕ
hash_from hash [] = hash
hash_from hash (c ∷ str) = hash_from (u32 (hash * 31 + c)) str

unfoldable pub hash_string : Bytes → ℕ
unfolding hash_from
hash_string str = hash_from 0 str

hash_lowercase_from : ℕ → Bytes → ℕ
hash_lowercase_from hash [] = hash
hash_lowercase_from hash (c ∷ str) = hash_lowercase_from (u32 (hash * 31 + tolower c)) str

pub hash_string_lowercase : Bytes → ℕ
unfolding hash_lowercase_from tolower
hash_string_lowercase str = hash_lowercase_from 0 str

-- `to_lowercase` of runtime-ext, in place.
unfoldable pub to_lowercase : Bytes → Bytes
to_lowercase [] = []
to_lowercase (c ∷ str) = tolower c ∷ to_lowercase str

-- `strcicmp`: the difference of the first bytes that differ after folding, or 0.
pub strcicmp : Bytes → Bytes → ℤ
strcicmp [] [] = pos 0
strcicmp [] (b ∷ p2) = sub_ℕ 0 (tolower b)
strcicmp (a ∷ p1) [] = sub_ℕ (tolower a) 0
strcicmp (a ∷ p1) (b ∷ p2) =
    let result = sub_ℕ (tolower a) (tolower b) in if is_zero result then strcicmp p1 p2 else result
