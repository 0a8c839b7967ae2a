-- ===== src/Console/Junk.antt =====
-- The memory of `rrc_con_ascii_safe` in source/console.c while its output grows over its input: what is
-- written, what was read and is junk, and what has still to be read.
use mathlib.Core.List.{append_assoc, append-nil}
use rr_launcher.Prelude.{
  ℕ, zero, suc, ◌+◌, ◌-◌, ◌≤◌, ◌<◌, ◌≡◌, refl, sym, ap, ap₂, ◌∙◌, true, ltb, Bool-cases, inl, inr,
  [], ◌∷◌, ◌++◌, length, length-append, length-take, take-append-drop, get_elem?-append_past,
  set-append_at, take, drop, Bytes, All, arith,
}
use rr_launcher.Result.{done, read}
use rr_launcher.Console.{load, store, character, put_all}
use rr_launcher.Console.AsciiSafe.{printable, printable_text, character-printable}

pub store-at :
    (xs : Bytes) (y : ℕ) (ys : Bytes) (i v : ℕ)
    → i ≡ length xs
    → store (xs ++ (y ∷ ys)) i v ≡ done (xs ++ (v ∷ ys))
store-at xs y ys i v e =
    let room : ltb (length xs) (length (xs ++ (y ∷ ys))) ≡ true =
      ground (arith, length-append {0} xs (y ∷ ys)) in
    rw (e, room, set-append_at xs y ys v) refl

pub take-nil : (n : ℕ) → take {A = ℕ} n [] ≡ []
take-nil zero = refl
take-nil (suc n) = refl

pub take-zero : (n : ℕ) (xs : Bytes) → n ≡ 0 → take n xs ≡ []
take-zero n xs e = rw e refl

take-append : (n : ℕ) (xs ys : Bytes) → take n (xs ++ ys) ≡ take n xs ++ take (n - length xs) ys
take-append n [] ys =
    ap₂ (λ (a : Bytes) (m : ℕ). a ++ take m ys) (sym (take-nil n))
      (let e : n ≡ n - 0 = omega arith in e)
take-append zero (x ∷ xs) ys = sym (take-zero (0 - suc (length xs)) ys (omega arith))
take-append (suc n) (x ∷ xs) ys = ap (◌∷◌ x) (
    take-append n xs ys
    ∙ ap (λ (m : ℕ). take n xs ++ take m ys)
        (let e : n - length xs ≡ suc n - suc (length xs) = omega arith in e))

-- The place after what is written holds something that is no longer needed.
pub store-junk :
    (written xs : Bytes) (v : ℕ)
    → 0 < length xs
    → (left : Bytes) × (store (written ++ xs) (0 + length written) v ≡ done (written ++ (v ∷ left)))
store-junk written [] v h = absurd (omega arith)
store-junk written (x ∷ xs) v h = (xs, store-at written x xs (0 + length written) v (omega arith))

-- What is put where there is junk: as much as the size allows.
pub put_all-junk :
    (size : ℕ) (written junk tail repl : Bytes)
    → length repl ≤ length junk
    → (left : Bytes) × (let put = take (size - 1 - length written) repl in
        (put_all (written ++ (junk ++ tail)) 0 size (length written) repl
          ≡ done ((written ++ put) ++ (left ++ tail), length (written ++ put)))
        × (length put + length left ≡ length junk))
put_all-junk size written junk tail [] h =
    let none_put = take-nil (size - 1 - length written) in
    (
      junk,
      (
        ap (λ (w : Bytes). done (w ++ (junk ++ tail), length w))
            (sym (ap (λ (t : Bytes). written ++ t) none_put ∙ append-nil written)),
        omega (arith, ap (λ (t : Bytes). length t) none_put),
      ),
    )
put_all-junk size written [] tail (c ∷ repl) h = absurd (omega arith)
put_all-junk size written (j ∷ junk) tail (c ∷ repl) h =
    elim (Bool-cases (ltb (length written + 1) size)) [
      | inl room ↦
          let longer = written ++ (c ∷ []) in
          let (left, (e, count)) = put_all-junk size longer junk tail repl (omega arith) in
          let one_more : length written + 1 ≡ length longer =
            omega (arith, length-append {0} written (c ∷ [])) in
          let rest_size : size - 1 - length written ≡ suc (size - 1 - length longer) =
            ground (arith, one_more) in
          let put : take (size - 1 - length written) (c ∷ repl)
              ≡ c ∷ take (size - 1 - length longer) repl =
            ap (λ (n : ℕ). take n (c ∷ repl)) rest_size in
          let stored = store-at written j (junk ++ tail) (0 + length written) c (omega arith) in
          (
            left,
            (
              rw (room, stored)
                  (ap₂ (λ (m : Bytes) (u : ℕ). put_all m 0 size u repl)
                      (sym (append_assoc written (c ∷ []) (junk ++ tail))) one_more
                    ∙ e
                    ∙ ap (λ (w : Bytes). done (w ++ (left ++ tail), length w))
                        (append_assoc written (c ∷ []) (take (size - 1 - length longer) repl)
                          ∙ ap (λ (t : Bytes). written ++ t) (sym put))),
              omega (arith, ap length put, count),
            ),
          )
      | inr full ↦
          let none_put = take-zero (size - 1 - length written) (c ∷ repl) (ground arith) in
          (
            j ∷ junk,
            (
              rw full (
                  ap (λ (w : Bytes). done (w ++ ((j ∷ junk) ++ tail), length w))
                    (sym (ap (λ (t : Bytes). written ++ t) none_put ∙ append-nil written))),
              omega (arith, ap (λ (t : Bytes). length t) none_put),
            ),
          )
    ]

printable_text-skip :
    (n : ℕ) (text : Bytes)
    → n ≤ length text
    → printable_text n text ≡ printable_text 0 (drop n text)
unfolding printable_text
printable_text-skip zero text h = refl
printable_text-skip (suc n) [] h = absurd (omega arith)
printable_text-skip (suc n) (c ∷ text) h = printable_text-skip n text (omega arith)

pub All-drop : (P : ℕ → Type 0) (n : ℕ) (xs : Bytes) → All P xs → All P (drop n xs)
All-drop P zero xs a = a
All-drop P (suc n) [] a = a
All-drop P (suc n) (x ∷ xs) (p, a) = All-drop P n xs a

pub load-past :
    (xs : Bytes) (ys : Bytes) (y : ℕ) (zs : Bytes) (p : ℕ)
    → p ≡ length xs + length ys
    → load (xs ++ (ys ++ (y ∷ zs))) p ≡ done y
load-past xs ys y zs p e = ap read (
    get_elem?-append_past xs (ys ++ (y ∷ zs)) (length ys) p e
    ∙ get_elem?-append_past ys (y ∷ zs) 0 (length ys) (omega arith))

pub memory_parts :
    (written junk : Bytes) (c : ℕ) (text after : Bytes) (taken : ℕ)
    → 0 < taken
    → written ++ (junk ++ (c ∷ (text ++ (0 ∷ after))))
      ≡ written ++ ((junk ++ take taken (c ∷ text)) ++ (drop (taken - 1) text ++ (0 ∷ after)))
memory_parts written junk c text after zero h = elim h [ ]
memory_parts written junk c text after (suc taken) h =
    ap (λ (t : Bytes). written ++ t)
      (ap (λ (t : Bytes). junk ++ (c ∷ (t ++ (0 ∷ after)))) (sym (take-append-drop taken text))
        ∙ ap (λ (t : Bytes). junk ++ (c ∷ t))
            (append_assoc (take taken text) (drop taken text) (0 ∷ after))
        ∙ sym (append_assoc junk (c ∷ take taken text) (drop taken text ++ (0 ∷ after)))
        ∙ ap (λ (n : ℕ). (junk ++ (c ∷ take taken text)) ++ (drop n text ++ (0 ∷ after)))
            (let e : taken ≡ suc taken - 1 = omega arith in e))

pub character-here :
    (written junk : Bytes) (c : ℕ) (text after : Bytes) (p : ℕ)
    → p ≡ length written + length junk
    → character (written ++ (junk ++ (c ∷ (text ++ (0 ∷ after))))) p c ≡ done (printable c text)
character-here written junk c text after p e =
    let rest = c ∷ (text ++ (0 ∷ after)) in
    ap₂ (λ (m : Bytes) (q : ℕ). character m q c) (sym (append_assoc written junk rest))
      (let q : p ≡ length (written ++ junk) = omega (arith, length-append {0} written junk) in q)
    ∙ character-printable (written ++ junk) c text after

pub output :
    (written repl text : Bytes) (n size : ℕ)
    → n ≤ length text
    → (written ++ take (size - 1 - length written) repl)
        ++ take
            (size - 1 - length (written ++ take (size - 1 - length written) repl))
            (printable_text 0 (drop n text))
      ≡ written ++ take (size - 1 - length written) (repl ++ printable_text n text)
output written repl text n size h =
    let size_left = size - 1 - length written in
    let put = take size_left repl in
    let left : size - 1 - length (written ++ put) ≡ size_left - length repl =
      ground (arith, length-append {0} written put, length-take size_left repl) in
    append_assoc written put
      (take (size - 1 - length (written ++ put)) (printable_text 0 (drop n text)))
    ∙ ap (λ (t : Bytes). written ++ t)
        (ap₂ (λ (m : ℕ) (t : Bytes). put ++ take m t) left (sym (printable_text-skip n text h))
          ∙ sym (take-append size_left repl (printable_text n text)))
