-- ===== src/Hash/Laws.antt =====
-- What the hashes of shared/hash.c compute.
use native.Mathlib.Nat.{div-add-mod, pow-suc}
use rr_launcher.Prelude.{
  ℕ, ◌+◌, ◌*◌, ◌%◌, ◌^◌, ◌<◌, ◌≡◌, refl, ap, [], ◌∷◌, ◌++◌, arith, u32, u32_mod, Bytes, length,
}
use rr_launcher.Hash.{
  tolower, hash_from, hash_string, hash_lowercase_from, hash_string_lowercase, to_lowercase,
}

-- The hash of Java strings, with no bound on the numbers: the sum of s[i] * 31^(n-1-i).
pub java_hash : Bytes → ℕ
java_hash [] = 0
java_hash (c ∷ str) = c * 31 ^ length str + java_hash str

hash_from-lt : (h : ℕ) (str : Bytes) → h < u32_mod → hash_from h str < u32_mod
unfolding hash_from
hash_from-lt h [] p = p
hash_from-lt h (c ∷ str) p = hash_from-lt ((h * 31 + c) % u32_mod) str (omega arith)

-- Every hash fits a 32-bit word.
pub hash_string-lt : (str : Bytes) → hash_string str < u32_mod
unfolding hash_string
hash_string-lt str = hash_from-lt 0 str (omega arith)

-- A wrap before a product is lost in the wrap after it.
mod-mul_wrap : (a b j : ℕ) → (a % u32_mod * b + j) % u32_mod ≡ (a * b + j) % u32_mod
mod-mul_wrap a b j = omega (arith, ap (λ (t : ℕ). t * b) (div-add-mod a u32_mod))

hash_from-eq :
    (h : ℕ) (str : Bytes)
    → h < u32_mod
    → hash_from h str ≡ (h * 31 ^ length str + java_hash str) % u32_mod
unfolding hash_from java_hash
hash_from-eq h [] p = omega arith
hash_from-eq h (c ∷ str) p = omega (
  arith,
  hash_from-eq ((h * 31 + c) % u32_mod) str (omega arith),
  mod-mul_wrap (h * 31 + c) (31 ^ length str) (java_hash str),
  ap (λ (t : ℕ). h * t) (pow-suc 31 (length str)),
)

-- The loop computes the hash of Java strings modulo 2^32.
pub hash_string-eq-java_hash : (str : Bytes) → hash_string str ≡ java_hash str % u32_mod
unfolding hash_string
hash_string-eq-java_hash str = omega (arith, hash_from-eq 0 str (omega arith))

pow_append : (s t : Bytes) → 31 ^ length (s ++ t) ≡ 31 ^ length s * 31 ^ length t
pow_append [] t = omega arith
pow_append (c ∷ s) t = omega (
  arith,
  pow-suc 31 (length (s ++ t)),
  pow_append s t,
  ap (λ (p : ℕ). p * 31 ^ length t) (pow-suc 31 (length s)),
)

java_hash-append : (s t : Bytes) → java_hash (s ++ t) ≡ java_hash s * 31 ^ length t + java_hash t
unfolding java_hash
java_hash-append [] t = omega arith
java_hash-append (c ∷ s) t =
    omega (arith, java_hash-append s t, ap (λ (p : ℕ). c * p) (pow_append s t))

-- The hash of a joined string is had from the hashes of its parts.
pub hash_string-append :
    (s t : Bytes) → hash_string (s ++ t) ≡ (hash_string s * 31 ^ length t + hash_string t) % u32_mod
hash_string-append s t =
    rw
      (
        hash_string-eq-java_hash (s ++ t),
        hash_string-eq-java_hash s,
        hash_string-eq-java_hash t,
        java_hash-append s t,
        mod-mul_wrap (java_hash s) (31 ^ length t) (java_hash t % u32_mod),
      )
      (omega arith)

hash_lowercase_from-eq :
    (h : ℕ) (str : Bytes) → hash_lowercase_from h str ≡ hash_from h (to_lowercase str)
unfolding hash_from hash_lowercase_from to_lowercase
hash_lowercase_from-eq h [] = refl
hash_lowercase_from-eq h (c ∷ str) = hash_lowercase_from-eq (u32 (h * 31 + tolower c)) str

-- The folding hash of a string is the plain hash of the folded string.
pub hash_string_lowercase-eq :
    (str : Bytes) → hash_string_lowercase str ≡ hash_string (to_lowercase str)
unfolding hash_string hash_string_lowercase
hash_string_lowercase-eq str = hash_lowercase_from-eq 0 str
