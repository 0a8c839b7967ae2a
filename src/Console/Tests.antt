-- ===== src/Console/Tests.antt =====
-- `rrc_con_ascii_safe` of source/console.c on texts at hand.
use rr_launcher.Prelude.{◌<◌, ◌≡◌, refl, [], ◌∷◌, ◌++◌, length, take, Bytes, All, codes, arith}
use rr_launcher.Result.{done}
use rr_launcher.Console.{replacement, ascii_safe, ascii_loop}
use rr_launcher.Console.AsciiSafe.{printable_text}
use rr_launcher.Console.InPlace.{ascii_safe-in_place}

-- An umlaut, a stray continuation and an ellipsis.
abbrev text : Bytes
text = 0xC3 ∷ 0xA4 ∷ 0x80 ∷ 0xE2 ∷ 0x80 ∷ 0xA6 ∷ []

shown : take 6 (printable_text 0 text) ≡ codes "ae?..."
unfolding printable_text replacement
shown = refl

run : ascii_safe (text ++ (0 ∷ [])) 0 0 7 ≡ done (codes "ae?..." ++ (0 ∷ []))
unfolding ascii_safe ascii_loop replacement
run = refl

ascii_safe-in_place_example :
    ((left : Bytes) × (ascii_safe (text ++ (0 ∷ [])) 0 0 7
        ≡ done (take 6 (printable_text 0 text) ++ (0 ∷ left))))
    × All (λ b. (0 < b) × (b < 0x80)) (take 6 (printable_text 0 text))
    × (length (take 6 (printable_text 0 text)) < 7)
ascii_safe-in_place_example =
    ascii_safe-in_place text [] 7 (omega arith)
      (omega arith, (omega arith, (omega arith, (omega arith, (omega arith, (omega arith, tt))))))
