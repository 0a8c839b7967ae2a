-- ===== src/ServerStatus/Reading.antt =====
-- `rr_server_status_read_string` of source/server_status.c stays inside its buffer.
use mathlib.Core.List.{append_assoc}
use rr_launcher.Prelude.{
  ℕ, ◌+◌, ◌-◌, ◌<◌, ◌≡◌, ◌⊎◌, refl, ap₂, subst, Bool, true, false, ltb, leb, ◌==◌, Bool-cases,
  replicate, length-replicate, Option-cases, inl, inr, [], ◌∷◌, ◌++◌, length, length-append, take,
  Bytes, codes, All, arith,
}
use rr_launcher.Result.{Outcome, done, ◌>>=◌}
use rr_launcher.Console.{store}
use rr_launcher.Console.AsciiSafe.{printable_text}
use rr_launcher.Console.Junk.{store-at}
use rr_launcher.Console.InPlace.{ascii_safe-in_place}
use rr_launcher.ServerStatus.Positive.{find_string-positive}
use rr_launcher.ServerStatus.{
  Status, message_size, variant_size, with_message, with_variant, parse, find_string, unescaped,
  close, copied, escaped, read_loop, read_string,
}

-- A buffer that holds an ASCII text of fewer than `size` bytes, and its terminator.
pub record HoldsAscii (size : ℕ) (buf : Bytes) : Type 0 where
  pub text : Bytes
  pub left : Bytes
  pub parts : buf ≡ text ++ (0 ∷ left)
  pub ascii : All (λ b. (0 < b) × (b < 0x80)) text
  pub short : length text < size

-- What reading a string may do: it returns, and if it succeeds the buffer holds a text.
abbrev pub Reads : ℕ → Outcome (Bool × Bytes) → Type 0
Reads size o =
    (ok : Bool) × (buf : Bytes) × (o ≡ done (ok, buf)) × ((ok ≡ false) ⊎ HoldsAscii size buf)

All-snoc : (xs : Bytes) (x : ℕ) → All (λ c. 0 < c) xs → 0 < x → All (λ c. 0 < c) (xs ++ (x ∷ []))
All-snoc [] x a h = (h, tt)
All-snoc (y ∷ xs) x (p, a) h = (p, All-snoc xs x a h)

-- The buffer so far: `written`, and as many more bytes as there is room for.
module _ (size : ℕ) where
  abbrev Going : Bytes → Bytes → Type 0
  Going written rest =
      (length written + length rest ≡ size) × (0 < length rest) × All (λ c. 0 < c) written

  close-Reads :
      (written rest : Bytes)
      → Going written rest
      → Reads size (close (written ++ rest) (length written) size)
  close-Reads written [] (fits, room, ok) = absurd (omega arith)
  close-Reads written (x ∷ rest) (fits, room, ok) =
      let ((left, e), ascii, short) = ascii_safe-in_place written rest size (omega arith) ok in
      let shown = take (size - 1) (printable_text 0 written) in
      (
        true,
        shown ++ (0 ∷ left),
        rw (store-at written x rest (length written) 0 refl, e) refl,
        inr (record { text = shown; left = left; parts = refl; ascii = ascii; short = short }),
      )

  -- A byte that is put where there is room for it and a terminator.
  put-Reads :
      (c : ℕ) (written rest : Bytes) (k : Bytes → ℕ → Outcome (Bool × Bytes))
      → 0 < c
      → length written + 1 < size
      → Going written rest
      → ((written rest : Bytes)
          → Going written rest
          → Reads size (k (written ++ rest) (length written)))
      → Reads size
          (store (written ++ rest) (length written) c >>= λ out. k out (length written + 1))
  put-Reads c written [] k h more (fits, room, ok) next = absurd (omega arith)
  put-Reads c written (x ∷ rest) k h more (fits, room, ok) next =
      let longer = written ++ (c ∷ []) in
      let count = length-append {0} written (c ∷ []) in
      let one_more : length longer ≡ length written + 1 = omega (arith, count) in
      rw (store-at written x rest (length written) c refl) (
        subst (Reads size) (ap₂ k (append_assoc written (c ∷ []) rest) one_more)
          (next longer rest (omega (arith, count), omega arith, All-snoc written c ok h)))

  copied-Reads :
      (c : ℕ) (written rest : Bytes) (k : Bytes → ℕ → Outcome (Bool × Bytes))
      → 0 < c
      → Going written rest
      → ((written rest : Bytes)
          → Going written rest
          → Reads size (k (written ++ rest) (length written)))
      → Reads size (copied c (written ++ rest) (length written) size k)
  copied-Reads c written rest k h going next = elim (Bool-cases (leb size (length written + 1))) [
    | inl full ↦ rw full (false, written ++ rest, refl, inl refl)
    | inr more ↦ rw more (put-Reads c written rest k h (ground arith) going next)
  ]

  escaped-Reads :
      (c : ℕ) (written rest : Bytes) (k : Bytes → ℕ → Outcome (Bool × Bytes))
      → 0 < c
      → Going written rest
      → ((written rest : Bytes)
          → Going written rest
          → Reads size (k (written ++ rest) (length written)))
      → Reads size (escaped c (written ++ rest) (length written) size k)
  unfolding unescaped
  escaped-Reads c written rest k h going next = elim (Bool-cases (ltb (length written + 1) size)) [
    | inl more ↦
        rw more (put-Reads (unescaped c) written rest k (ground arith) (ground arith) going next)
    | inr full ↦ rw full (next written rest going)
  ]

  read_loop-Reads :
      (text written rest : Bytes)
      → All (λ c. 0 < c) text
      → Going written rest
      → Reads size (read_loop text (written ++ rest) (length written) size)
  unfolding read_loop
  read_loop-Reads [] written rest ok going = (false, written ++ rest, refl, inl refl)
  read_loop-Reads (c ∷ []) written rest (h, ok) going = elim (Bool-cases (c == 34)) [
    | inl quote ↦ rw quote (close-Reads written rest going)
    | inr no_quote ↦ rw no_quote (
        copied-Reads c written rest (λ out n. done (false, out)) h going
          (λ written rest going. (false, written ++ rest, refl, inl refl)))
  ]
  read_loop-Reads (c ∷ d ∷ text) written rest (h, (h2, ok)) going = elim (Bool-cases (c == 34)) [
    | inl quote ↦ rw quote (close-Reads written rest going)
    | inr no_quote ↦ elim (Bool-cases (c == 92)) [
      | inl escape ↦
          rw (no_quote, escape)
            (escaped-Reads d written rest (λ out n. read_loop text out n size) h2 going
              (λ written rest going. read_loop-Reads text written rest ok going))
      | inr plain ↦
          rw (no_quote, plain)
            (copied-Reads c written rest (λ out n. read_loop (d ∷ text) out n size) h going
              (λ written rest going. read_loop-Reads (d ∷ text) written rest (h2, ok) going))
    ]
  ]

-- Reading a string writes only inside its buffer of `size` bytes, whatever the text holds; when it
-- succeeds, the buffer holds an ASCII text and its terminator.
pub read_string-Reads :
    (json key out : Bytes) (size : ℕ)
    → All (λ c. 0 < c) json
    → length out ≡ size
    → (ok : Bool) × (buf : Bytes) × (read_string json key out size ≡ done (ok, buf))
      × ((ok ≡ false) ⊎ HoldsAscii size buf)
unfolding read_string
read_string-Reads json key out size ok fits = elim (Option-cases (find_string json key)) [
  | inl missing ↦ rw missing (false, out, refl, inl refl)
  | inr (text, found) ↦ elim (Bool-cases (size == 0)) [
    | inl no_room ↦ rw (found, no_room) (false, out, refl, inl refl)
    | inr room ↦
        rw (found, room)
          (read_loop-Reads size text [] out (find_string-positive json key ok found)
            (omega arith, ground arith, tt))
  ]
]

with_variant-total :
    (json : Bytes) (r : Bool × Bytes)
    → All (λ c. 0 < c) json
    → (ok : Bool) × (status : Status) × (with_variant json r ≡ done (ok, status))
with_variant-total json (false, variant) ok = (_, _, refl)
with_variant-total json (true, variant) ok =
    let (read, buf, e, kept) =
      read_string-Reads json (codes "message") (replicate message_size 0) message_size ok
        (length-replicate {A = ℕ} message_size 0) in
    let (parsed, status) = with_message variant (read, buf) in rw e (parsed, status, refl)

-- A text is parsed to an end.
pub parse-total :
    (json junk : Bytes)
    → All (λ c. 0 < c) json
    → length junk ≡ variant_size
    → (ok : Bool) × (status : Status) × (parse json junk ≡ done (ok, status))
unfolding parse
parse-total json junk ok fits =
    let (read, buf, e, kept) = read_string-Reads json (codes "variant") junk variant_size ok fits in
    rw e (with_variant-total json (read, buf) ok)
