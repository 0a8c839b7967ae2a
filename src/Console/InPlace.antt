-- ===== src/Console/InPlace.antt =====
-- `rrc_con_ascii_safe` of source/console.c with its output on top of its input: what it writes never
-- overtakes what it has still to read.
use mathlib.Core.List.{append-nil}
use rr_launcher.Prelude.{
  ℕ, zero, suc, ◌+◌, ◌-◌, ◌<◌, ◌≡◌, refl, sym, ap, ◌∙◌, true, false, ltb, ◌==◌, Bool-cases, inl,
  inr, [], ◌∷◌, ◌++◌, length, length-append, length-take, length-drop, take, drop, Bytes, All,
  arith,
}
use rr_launcher.Result.{done}
use rr_launcher.Console.{character, put_all, ascii_loop, ascii_safe}
use rr_launcher.Console.AsciiSafe.{printable, printable_text}
use rr_launcher.Console.Junk.{
  load-past, store-junk, memory_parts, character-here, put_all-junk, output, take-nil, take-zero,
  All-drop,
}
use rr_launcher.Console.Replacement.{printable-IsPrintable}

-- The rest of the loop: `written` stands in front, `junk` has been read, `text` has not.
ascii_loop-printable :
    (fuel size : ℕ) (written junk text after : Bytes)
    → length text < fuel
    → length written < size
    → All (λ c. 0 < c) text
    → (left : Bytes) × (ascii_loop fuel
          (written ++ (junk ++ (text ++ (0 ∷ after))))
          (length written + length junk)
          0
          size
          (length written)
        ≡ done
            ((written ++ take (size - 1 - length written) (printable_text 0 text)) ++ (0 ∷ left)))
unfolding ascii_loop printable_text
ascii_loop-printable zero size written junk text after h k ok = elim h [ ]
ascii_loop-printable (suc fuel) size written junk [] after h k ok =
    let end = load-past written junk 0 after (length written + length junk) refl in
    let (left, e) =
      store-junk written (junk ++ (0 ∷ after)) 0
        (omega (arith, length-append {0} junk (0 ∷ after))) in
    let none_put = take-nil (size - 1 - length written) in
    (
      left,
      rw end (
          e
          ∙ ap (λ (w : Bytes). done (w ++ (0 ∷ left)))
              (sym (ap (λ (t : Bytes). written ++ t) none_put ∙ append-nil written))),
    )
ascii_loop-printable (suc fuel) size written junk (c ∷ text) after h k (positive, ok) =
    let p = length written + length junk in
    let here = load-past written junk c (text ++ (0 ∷ after)) p refl in
    let more : (c == 0) ≡ false = ground arith in
    elim (Bool-cases (ltb (length written + 1) size)) [
      | inr full ↦
          let (left, e) =
            store-junk written (junk ++ (c ∷ (text ++ (0 ∷ after)))) 0
              (omega (arith, length-append {0} junk (c ∷ (text ++ (0 ∷ after))))) in
          let none_put =
            take-zero (size - 1 - length written) (printable_text 0 (c ∷ text)) (ground arith) in
          (
            left,
            rw (here, more, full)
                (e
                  ∙ ap (λ (w : Bytes). done (w ++ (0 ∷ left)))
                      (sym (ap (λ (t : Bytes). written ++ t) none_put ∙ append-nil written))),
          )
      | inl room ↦
          let size_left = size - 1 - length written in
          let (repl, taken) = printable c text in
          let (fits, some_taken, in_text) = printable-IsPrintable c text positive in
          let read_part = take taken (c ∷ text) in
          let unread = drop (taken - 1) text in
          let tail = unread ++ (0 ∷ after) in
          let parts = memory_parts written junk c text after taken some_taken in
          let found : character (written ++ (junk ++ (c ∷ (text ++ (0 ∷ after))))) p c
              ≡ done (printable c text) =
            character-here written junk c text after p (omega arith) in
          let read_length : length read_part ≡ taken =
            omega (arith, length-take taken (c ∷ text)) in
          let junk_length = length-append {0} junk read_part in
          let (left, (e, count)) =
            put_all-junk size written (junk ++ read_part) tail repl
              (omega (arith, fits.short, read_length, junk_length)) in
          let put = take size_left repl in
          let written_length = length-append {0} written put in
          let put_length = length-take size_left repl in
          let putting = ap (λ (m : Bytes). put_all m 0 size (length written) repl) parts ∙ e in
          let (left2, loop) =
            ascii_loop-printable fuel size (written ++ put) left unread after
              (omega (arith, length-drop (taken - 1) text))
              (ground (arith, written_length, put_length))
              (All-drop (λ c. 0 < c) (taken - 1) text ok) in
          let place : p + taken ≡ length (written ++ put) + length left =
            omega (arith, written_length, count, junk_length, read_length) in
          (
            left2,
            rw (here, more, room, found, putting)
                (ap
                    (λ (q : ℕ).
                      ascii_loop fuel ((written ++ put) ++ (left ++ tail)) q 0 size
                        (length (written ++ put)))
                    place
                  ∙ loop
                  ∙ ap (λ (w : Bytes). done (w ++ (0 ∷ left2)))
                      (output written repl text (taken - 1) size (omega arith))),
          )
    ]

-- A whole text fits: its printable form stands where it stood.

pub ascii_safe-printable_text :
    (text after : Bytes) (size : ℕ)
    → 0 < size
    → All (λ c. 0 < c) text
    → (left : Bytes) × (ascii_safe (text ++ (0 ∷ after)) 0 0 size
        ≡ done (take (size - 1) (printable_text 0 text) ++ (0 ∷ left)))
unfolding ascii_safe
ascii_safe-printable_text text after size h ok =
    let some_size : (size == 0) ≡ false = ground arith in
    let (left, e) =
      ascii_loop-printable (suc (length (text ++ (0 ∷ after)))) size [] [] text after
        (omega (arith, length-append {0} text (0 ∷ after))) h ok in
    (
      left,
      rw some_size (
          e
          ∙ ap (λ (n : ℕ). done (take n (printable_text 0 text) ++ (0 ∷ left)))
              (let full : size - 1 - 0 ≡ size - 1 = omega arith in full)),
    )

abbrev pub IsAscii : ℕ → Type 0
IsAscii b = (0 < b) × (b < 0x80)

pub All-append : (xs ys : Bytes) → All IsAscii xs → All IsAscii ys → All IsAscii (xs ++ ys)
All-append [] ys p q = q
All-append (x ∷ xs) ys (p, a) q = (p, All-append xs ys a q)

All-take : (n : ℕ) (xs : Bytes) → All IsAscii xs → All IsAscii (take n xs)
All-take zero xs a = tt
All-take (suc n) [] a = tt
All-take (suc n) (x ∷ xs) (p, a) = (p, All-take n xs a)

printable_text-IsAscii :
    (skip : ℕ) (text : Bytes) → All (λ c. 0 < c) text → All IsAscii (printable_text skip text)
unfolding printable_text
printable_text-IsAscii skip [] a = tt
printable_text-IsAscii (suc skip) (c ∷ text) (p, a) = printable_text-IsAscii skip text a
printable_text-IsAscii zero (c ∷ text) (p, a) =
    let (repl, taken) = printable c text in
    let (fits, some_taken, in_text) = printable-IsPrintable c text p in
    All-append repl (printable_text (taken - 1) text) fits.ascii
      (printable_text-IsAscii (taken - 1) text a)

-- A text that is ASCII stays as it is.
pub printable_text-ascii : (text : Bytes) → All IsAscii text → printable_text 0 text ≡ text
unfolding printable_text
printable_text-ascii [] a = refl
printable_text-ascii (c ∷ text) (p, a) =
    let plain : ltb c 0x80 ≡ true = ground arith in
    rw plain (ap (◌∷◌ c) (printable_text-ascii text a))

-- A text is made printable on top of itself: the characters are read as if nothing had been written,
-- whatever their encoding; the result is ASCII, terminated and within `size`, and no byte outside the
-- text and its terminator is read.
pub ascii_safe-in_place :
    (text after : Bytes) (size : ℕ)
    → 0 < size
    → All (λ c. 0 < c) text
    → let shown = take (size - 1) (printable_text 0 text) in
      ((left : Bytes) × (ascii_safe (text ++ (0 ∷ after)) 0 0 size ≡ done (shown ++ (0 ∷ left))))
      × All (λ b. (0 < b) × (b < 0x80)) shown
      × (length shown < size)
ascii_safe-in_place text after size h ok = (
  ascii_safe-printable_text text after size h ok,
  All-take (size - 1) (printable_text 0 text) (printable_text-IsAscii 0 text ok),
  omega (arith, length-take (size - 1) (printable_text 0 text)),
)
