-- ===== src/ServerStatus/Positive.antt =====
-- What source/server_status.c finds in a text without a NUL has none.
use rr_launcher.Prelude.{
  ℕ, ◌<◌, ◌≡◌, refl, subst, ◌==◌, Bool-cases, some-inj, Option-cases, inl, inr, Option, none, some,
  [], ◌∷◌, ◌++◌, take, Bytes, All,
}
use rr_launcher.ServerStatus.{
  is_blank, bind, after_prefix, after_first, skip_blanks, expect_byte, find_string,
}

after_prefix-positive :
    (pattern text : Bytes) {rest : Bytes}
    → All (λ c. 0 < c) text
    → after_prefix pattern text ≡ some rest
    → All (λ c. 0 < c) rest
after_prefix-positive [] text ok e = subst (All (λ c. 0 < c)) (some-inj e) ok
after_prefix-positive (a ∷ pattern) [] ok e = cc
after_prefix-positive (a ∷ pattern) (b ∷ text) (h, ok) e = elim (Bool-cases (a == b)) [
  | inl same ↦ after_prefix-positive pattern text ok (rw same at e)
  | inr differ ↦ absurd (cc (rw differ at e))
]

after_first-positive :
    (pattern text : Bytes) {rest : Bytes}
    → All (λ c. 0 < c) text
    → after_first pattern text ≡ some rest
    → All (λ c. 0 < c) rest
after_first-positive pattern [] ok e = after_prefix-positive pattern [] ok e
after_first-positive pattern (c ∷ text) (h, ok) e =
    elim (Option-cases (after_prefix pattern (c ∷ text))) [
      | inl later ↦ after_first-positive pattern text ok (rw later at e)
      | inr (found, here) ↦
          subst (All (λ c. 0 < c)) (some-inj (rw here at e))
            (after_prefix-positive pattern (c ∷ text) (h, ok) here)
    ]

skip_blanks-positive : (text : Bytes) → All (λ c. 0 < c) text → All (λ c. 0 < c) (skip_blanks text)
skip_blanks-positive [] ok = tt
skip_blanks-positive (c ∷ text) (h, ok) = elim (Bool-cases (is_blank c)) [
  | inl blank ↦ rw blank (skip_blanks-positive text ok)
  | inr dark ↦ rw dark (h, ok)
]

expect_byte-positive :
    (c : ℕ) (text : Bytes) {rest : Bytes}
    → All (λ c. 0 < c) text
    → expect_byte c text ≡ some rest
    → All (λ c. 0 < c) rest
expect_byte-positive c [] ok e = cc
expect_byte-positive c (b ∷ text) (h, ok) e = elim (Bool-cases (b == c)) [
  | inl same ↦ subst (All (λ c. 0 < c)) (some-inj (rw same at e)) ok
  | inr differ ↦ absurd (cc (rw differ at e))
]

bind-some {ℓ κ} :
    {A : Type ℓ} {B : Type κ} (o : Option A) (k : A → Option B) {b : B}
    → bind o k ≡ some b
    → (a : A) × (o ≡ some a) × (k a ≡ some b)
bind-some (some a) k e = (a, refl, e)
bind-some none k e = cc

pub find_string-positive :
    (json key : Bytes) {rest : Bytes}
    → All (λ c. 0 < c) json
    → find_string json key ≡ some rest
    → All (λ c. 0 < c) rest
unfolding find_string
find_string-positive json key ok e =
    let pattern = take 63 (34 ∷ (key ++ (34 ∷ []))) in
    let (p, found, e1) =
      bind-some (after_first pattern json)
        (λ p. bind (expect_byte 58 (skip_blanks p)) (λ p. expect_byte 34 (skip_blanks p))) e in
    let (q, colon, e2) =
      bind-some (expect_byte 58 (skip_blanks p)) (λ p. expect_byte 34 (skip_blanks p)) e1 in
    let p_ok = after_first-positive pattern json ok found in
    let q_ok = expect_byte-positive 58 (skip_blanks p) (skip_blanks-positive p p_ok) colon in
    expect_byte-positive 34 (skip_blanks q) (skip_blanks-positive q q_ok) e2
