-- ===== src/ServerStatus/Quoting.antt =====
-- A text between quotes, as a server writes it, is read back by the loop of `rr_server_status_read_string` of
-- source/server_status.c.
use mathlib.Core.List.{append_assoc, append-nil}
use rr_launcher.Prelude.{
  ℕ, ◌&&◌, ltb, ◌+◌, ◌-◌, ◌<◌, ◌≡◌, refl, sym, ap, ap₂, ◌∙◌, Bool, true, false, if◌then◌else◌,
  lt→ltb, leb, ◌==◌, ==_iff, Bool-cases, inl, inr, [], ◌∷◌, ◌++◌, length, length-append, take,
  take-all, Bytes, All, arith,
}
use rr_launcher.Result.{Outcome, done}
use rr_launcher.Console.AsciiSafe.{printable_text}
use rr_launcher.Console.Junk.{store-at}
use rr_launcher.Console.InPlace.{IsAscii, ascii_safe-in_place, printable_text-ascii, All-append}
use rr_launcher.ServerStatus.{unescaped, close, read_loop, text_of}

-- A character in a JSON string, and a text.
abbrev pub quoted_char : ℕ → Bytes
quoted_char c =
    if c == 34
    then 92 ∷ 34 ∷ []
    else if c == 92
    then 92 ∷ 92 ∷ []
    else if c == 10
    then 92 ∷ 110 ∷ []
    else c ∷ []

unfoldable pub quoted : Bytes → Bytes
quoted [] = []
quoted (c ∷ text) = quoted_char c ++ quoted text

positive : (text : Bytes) → All IsAscii text → All (λ c. 0 < c) text
positive [] ok = tt
positive (c ∷ text) ((h, small), ok) = (h, positive text ok)

-- A loop that reads a string into a buffer of a size: it copies the character of an escape, a character and the
-- end of the string the same way.
abbrev pub Loop : Type 0
Loop = Bytes → Bytes → ℕ → ℕ → Outcome (Bool × Bytes)

abbrev pub Unescapes : ℕ → Loop → Type 0
Unescapes size loop =
    (c : ℕ) (text written : Bytes) (x : ℕ) (rest : Bytes)
    → length written + 1 < size
    → loop (92 ∷ c ∷ text) (written ++ (x ∷ rest)) (length written) size
      ≡ loop text (written ++ (unescaped c ∷ rest)) (length written + 1) size

abbrev pub Copies : ℕ → Loop → Type 0
Copies size loop =
    (c d : ℕ) (text written : Bytes) (x : ℕ) (rest : Bytes)
    → length written + 1 < size
    → (c == 34) ≡ false
    → (c == 92) ≡ false
    → loop (c ∷ d ∷ text) (written ++ (x ∷ rest)) (length written) size
      ≡ loop (d ∷ text) (written ++ (c ∷ rest)) (length written + 1) size

abbrev pub Ends : ℕ → Loop → Type 0
Ends size loop =
    (after written : Bytes) (x : ℕ) (rest : Bytes)
    → loop (34 ∷ after) (written ++ (x ∷ rest)) (length written) size
      ≡ close (written ++ (x ∷ rest)) (length written) size

module _ (size : ℕ) (loop : Loop) (escape_step : Unescapes size loop)
    (plain_step : Copies size loop) (loop-end : Ends size loop) where
  -- One character is read back.
  loop-quoted_char :
      (c : ℕ) (text written : Bytes) (x : ℕ) (rest : Bytes)
      → 0 < length text
      → length written + 1 < size
      → loop (quoted_char c ++ text) (written ++ (x ∷ rest)) (length written) size
        ≡ loop text (written ++ (c ∷ rest)) (length written + 1) size
  unfolding unescaped
  loop-quoted_char c [] written x rest h room = absurd (omega arith)
  loop-quoted_char c (d ∷ text) written x rest h room =
      let start : Bytes → Outcome (Bool × Bytes) =
        λ t. loop (t ++ (d ∷ text)) (written ++ (x ∷ rest)) (length written) size in
      let end : ℕ → Outcome (Bool × Bytes) =
        λ v. loop (d ∷ text) (written ++ (v ∷ rest)) (length written + 1) size in
      elim (Bool-cases (c == 34)) [
        | inl quote ↦
            let e : c ≡ 34 = ground (arith, ==_iff c 34) in
            ap (λ v. start (quoted_char v)) e
            ∙ escape_step 34 (d ∷ text) written x rest room
            ∙ ap end (sym e)
        | inr no_quote ↦ elim (Bool-cases (c == 92)) [
          | inl slash ↦
              let e : c ≡ 92 = ground (arith, ==_iff c 92) in
              ap (λ v. start (quoted_char v)) e
              ∙ escape_step 92 (d ∷ text) written x rest room
              ∙ ap end (sym e)
          | inr no_slash ↦ elim (Bool-cases (c == 10)) [
            | inl line ↦
                let e : c ≡ 10 = ground (arith, ==_iff c 10) in
                ap (λ v. start (quoted_char v)) e
                ∙ escape_step 110 (d ∷ text) written x rest room
                ∙ ap end (sym e)
            | inr other ↦
                let plain : quoted_char c ≡ c ∷ [] = rw (no_quote, no_slash, other) refl in
                ap start plain ∙ plain_step c d text written x rest room no_quote no_slash
          ]
        ]
      ]

  close-text :
      (written : Bytes) (x : ℕ) (rest : Bytes)
      → length written < size
      → All IsAscii written
      → (left : Bytes) × (close (written ++ (x ∷ rest)) (length written) size
          ≡ done (true, written ++ (0 ∷ left)))
  close-text written x rest room ok =
      let ((left, e), ascii, short) =
        ascii_safe-in_place written rest size (omega arith) (positive written ok) in
      let whole : take (size - 1) (printable_text 0 written) ≡ written =
        ap (take (size - 1)) (printable_text-ascii written ok)
        ∙ take-all (size - 1) written (omega arith) in
      (
        left,
        rw (store-at written x rest (length written) 0 refl, e)
            (ap (λ (t : Bytes). done (true, t ++ (0 ∷ left))) whole),
      )

  pub loop-quoted :
      (message after written rest : Bytes)
      → length written + length rest ≡ size
      → length message < length rest
      → All IsAscii message
      → All IsAscii written
      → (left : Bytes) × (loop
            (quoted message ++ (34 ∷ after))
            (written ++ rest)
            (length written)
            size
          ≡ done (true, (written ++ message) ++ (0 ∷ left)))
  unfolding quoted
  loop-quoted message after written [] fits room ok so_far = absurd (omega arith)
  loop-quoted [] after written (x ∷ rest) fits room ok so_far =
      let (left, e) = close-text written x rest (omega arith) so_far in
      (
        left,
        loop-end after written x rest
            ∙ e
            ∙ ap (λ (t : Bytes). done (true, t ++ (0 ∷ left))) (sym (append-nil written)),
      )
  loop-quoted (c ∷ message) after written (x ∷ rest) fits room (a, ok) so_far =
      let longer = written ++ (c ∷ []) in
      let count = length-append {0} written (c ∷ []) in
      let text = quoted message ++ (34 ∷ after) in
      let (left, e) =
        loop-quoted message after longer rest (omega (arith, count)) (omega arith) ok
          (All-append written (c ∷ []) so_far (a, tt)) in
      (
        left,
        ap (λ (t : Bytes). loop t (written ++ (x ∷ rest)) (length written) size)
              (append_assoc (quoted_char c) (quoted message) (34 ∷ after))
            ∙ loop-quoted_char c text written x rest
                (omega (arith, length-append {0} (quoted message) (34 ∷ after))) (omega arith)
            ∙ ap₂ (λ (out : Bytes) (n : ℕ). loop text out n size)
                (sym (append_assoc written (c ∷ []) rest))
                (let one_more : length written + 1 ≡ length longer = omega (arith, count) in
                  one_more)
            ∙ e
            ∙ ap (λ (t : Bytes). done (true, t ++ (0 ∷ left)))
                (append_assoc written (c ∷ []) message),
      )

-- The loop of `rr_server_status_read_string` is one of them.
read_loop-Unescapes : (size : ℕ) → Unescapes size read_loop
unfolding read_loop
read_loop-Unescapes size c text written x rest room =
    rw
      (
        lt→ltb (length written + 1) size room,
        store-at written x rest (length written) (unescaped c) refl,
      )
      refl

read_loop-Copies : (size : ℕ) → Copies size read_loop
unfolding read_loop
read_loop-Copies size c d text written x rest room no_quote no_slash =
    let not_full : leb size (length written + 1) ≡ false = ground arith in
    rw (no_quote, no_slash, not_full, store-at written x rest (length written) c refl) refl

read_loop-Ends : (size : ℕ) → Ends size read_loop
unfolding read_loop
read_loop-Ends size [] written x rest = refl
read_loop-Ends size (c ∷ after) written x rest = refl

pub read_loop-quoted :
    (size : ℕ) (message after written rest : Bytes)
    → length written + length rest ≡ size
    → length message < length rest
    → All IsAscii message
    → All IsAscii written
    → (left : Bytes) × (read_loop
          (quoted message ++ (34 ∷ after))
          (written ++ rest)
          (length written)
          size
        ≡ done (true, (written ++ message) ++ (0 ∷ left)))
read_loop-quoted size =
    loop-quoted size read_loop (read_loop-Unescapes size) (read_loop-Copies size)
      (read_loop-Ends size)

pub text_of-ascii : (text left : Bytes) → All IsAscii text → text_of (text ++ (0 ∷ left)) ≡ text
text_of-ascii [] left ok = refl
text_of-ascii (c ∷ text) left ((h, small), ok) =
    let more : (c == 0) ≡ false = ground arith in rw more (ap (◌∷◌ c) (text_of-ascii text left ok))

abbrev pub all_ascii : Bytes → Bool
all_ascii [] = true
all_ascii (c ∷ text) = ltb 0 c && ltb c 0x80 && all_ascii text

pub all_ascii-IsAscii : (text : Bytes) → all_ascii text ≡ true → All IsAscii text
all_ascii-IsAscii [] e = tt
all_ascii-IsAscii (c ∷ text) e =
    ((ground arith, ground arith), all_ascii-IsAscii text (ground arith))
