-- ===== src/UpnpErrors/Strings.antt =====
-- The strings of an object in the registry of source/upnp_error_codes.c are found by their keys and read back.
use rr_launcher.Prelude.{
  ℕ, Bool, not, ◌&&◌, ◌+◌, ◌<◌, ◌≡◌, refl, true, false, ◌==◌, ==_iff, Bool-cases, inl, inr, ◌||◌,
  ◌&&◌, not, leb, none, some, [], ◌∷◌, ◌++◌, length, length-replicate, replicate, Bytes, All, arith,
}
use rr_launcher.Result.{done}
use rr_launcher.Console.Junk.{store-at}
use rr_launcher.Console.InPlace.{IsAscii}
use rr_launcher.ServerStatus.{unescaped, after_prefix}
use rr_launcher.ServerStatus.Quoting.{quoted_char, quoted, Unescapes, Copies, Ends, loop-quoted}
use rr_launcher.UpnpErrors.{key_at, find_value, value_loop, json_read_string}

value_loop-Unescapes : (size : ℕ) → Unescapes size value_loop
unfolding value_loop
value_loop-Unescapes size c text written x rest room =
    let not_full : leb size (length written + 1) ≡ false = ground arith in
    rw (not_full, store-at written x rest (length written) (unescaped c) refl) refl

value_loop-Copies : (size : ℕ) → Copies size value_loop
unfolding value_loop
value_loop-Copies size c d text written x rest room no_quote no_slash =
    let not_full : leb size (length written + 1) ≡ false = ground arith in
    rw (no_quote, no_slash, not_full, store-at written x rest (length written) c refl) refl

value_loop-Ends : (size : ℕ) → Ends size value_loop
unfolding value_loop
value_loop-Ends size [] written x rest = refl
value_loop-Ends size (c ∷ after) written x rest = refl

-- A value that is found is read.
pub json_read_string-found :
    (size : ℕ) (json key message after : Bytes)
    → length key + 2 < 96
    → length message < size
    → All IsAscii message
    → find_value (34 ∷ (key ++ (34 ∷ []))) json ≡ some (quoted message ++ (34 ∷ after))
    → (left : Bytes) × (json_read_string json key (replicate size 0) size
        ≡ done (true, message ++ (0 ∷ left)))
unfolding json_read_string
json_read_string-found size json key message after short room ok found =
    let whole = length-replicate {A = ℕ} size 0 in
    let (left, e) =
      loop-quoted size value_loop (value_loop-Unescapes size) (value_loop-Copies size)
        (value_loop-Ends size) message after [] (replicate size 0) (omega (arith, whole))
        (omega (arith, whole)) ok tt in
    let fits : (leb 96 (length key + 2) || size == 0) ≡ false = ground arith in
    (left, rw (fits, found) e)

abbrev pub NoQuote : Bytes → Type 0
NoQuote = All (λ c. (c == 34) ≡ false)

abbrev pub no_quotes : Bytes → Bool
no_quotes [] = true
no_quotes (c ∷ text) = not (c == 34) && no_quotes text

pub NoQuote-tested : (text : Bytes) → no_quotes text ≡ true → NoQuote text
NoQuote-tested [] e = tt
NoQuote-tested (c ∷ text) e = (ground arith, NoQuote-tested text (ground arith))

NoQuote-append : (xs ys : Bytes) → NoQuote xs → NoQuote ys → NoQuote (xs ++ ys)
NoQuote-append [] ys p q = q
NoQuote-append (x ∷ xs) ys (p, a) q = (p, NoQuote-append xs ys a q)

NoQuote-quoted_char : (c : ℕ) → (c == 34) ≡ false → NoQuote (quoted_char c)
NoQuote-quoted_char c no_quote = elim (Bool-cases (c == 92)) [
  | inl slash ↦ rw (no_quote, slash) (refl, (refl, tt))
  | inr no_slash ↦ elim (Bool-cases (c == 10)) [
    | inl line ↦ rw (no_quote, no_slash, line) (refl, (refl, tt))
    | inr other ↦ rw (no_quote, no_slash, other) (no_quote, tt)
  ]
]

pub NoQuote-quoted : (text : Bytes) → NoQuote text → NoQuote (quoted text)
unfolding quoted
NoQuote-quoted [] ok = tt
NoQuote-quoted (c ∷ text) (no_quote, ok) =
    NoQuote-append (quoted_char c) (quoted text) (NoQuote-quoted_char c no_quote)
      (NoQuote-quoted text ok)

-- A value is no key: no colon stands behind it.
value-no_key :
    (word text after : Bytes)
    → NoQuote word
    → NoQuote text
    → key_at (after_prefix (word ++ (34 ∷ [])) (text ++ (34 ∷ 44 ∷ after))) ≡ none
value-no_key [] [] after wordy ok = refl
value-no_key [] (c ∷ text) after wordy (no_quote, ok) =
    let other : (34 == c) ≡ false = ground (arith, ==_iff c 34) in rw other refl
value-no_key (a ∷ word) [] after (no_quote, wordy) ok = rw no_quote refl
value-no_key (a ∷ word) (c ∷ text) after (no_quote_a, wordy) (no_quote, ok) =
    elim (Bool-cases (a == c)) [
      | inl same ↦ rw same (value-no_key word text after wordy ok)
      | inr other ↦ rw other refl
    ]

find_value-unquoted :
    (word text after : Bytes)
    → NoQuote text
    → find_value (34 ∷ word) (text ++ after) ≡ find_value (34 ∷ word) after
unfolding find_value
find_value-unquoted word [] after ok = refl
find_value-unquoted word (c ∷ text) after (no_quote, ok) =
    let other : (34 == c) ≡ false = ground (arith, ==_iff c 34) in
    rw other (find_value-unquoted word text after ok)

-- The search for a key goes past a value.
pub find_value-value :
    (word text after : Bytes)
    → NoQuote word
    → NoQuote text
    → find_value (34 ∷ (word ++ (34 ∷ []))) (34 ∷ (text ++ (34 ∷ 44 ∷ after)))
      ≡ find_value (34 ∷ (word ++ (34 ∷ []))) (34 ∷ 44 ∷ after)
unfolding find_value
find_value-value word text after wordy ok =
    rw (value-no_key word text after wordy ok)
      (find_value-unquoted (word ++ (34 ∷ [])) text (34 ∷ 44 ∷ after) ok)
