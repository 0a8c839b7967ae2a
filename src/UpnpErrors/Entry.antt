-- ===== src/UpnpErrors/Entry.antt =====
-- An entry of the registry of source/upnp_error_codes.c: where its object ends, and where its strings stand.
use rr_launcher.Prelude.{
  ℕ, suc, ◌+◌, ◌<◌, ◌≡◌, refl, sym, ap, ◌∙◌, some, [], ◌∷◌, ◌++◌, length, take, Bytes, codes, All,
  arith,
}
use rr_launcher.Prelude.Int.{pos}
use rr_launcher.Version.{print_int}
use rr_launcher.Console.InPlace.{IsAscii}
use rr_launcher.ServerStatus.Quoting.{quoted}
use rr_launcher.UpnpErrors.{find_value, find_object_end}
use rr_launcher.UpnpErrors.Nesting.{
  Inner, end, string, plain, text_of_inner, find_object_end-closes,
}
use rr_launcher.UpnpErrors.Strings.{NoQuote, NoQuote-tested, NoQuote-quoted, find_value-value}

-- A text of ASCII characters without quotes that a buffer of a size takes.
abbrev pub Fits : ℕ → Bytes → Type 0
Fits size text = (length text < size) × All IsAscii text × NoQuote text

-- `"name": "...", "description": "...", "solution": "..."`
unfoldable pub body : Bytes → Bytes → Bytes → Bytes
body name description solution =
    codes "\"name\": \""
    ++ (quoted name
        ++ (codes "\", \"description\": \""
            ++ (quoted description
                ++ (codes "\", \"solution\": \"" ++ (quoted solution ++ (34 ∷ []))))))

abbrev pub key_of : ℕ → Bytes
key_of n = 34 ∷ (print_int (pos (suc n)) ++ (34 ∷ []))

-- The entry of a code: `"718": {...}`.
abbrev pub entry : ℕ → Bytes → Bytes → Bytes → Bytes → Bytes
entry n name description solution after =
    key_of n ++ (codes ": {" ++ (body name description solution ++ (125 ∷ after)))

-- The same as strings and characters.
inner_of : Bytes → Bytes → Bytes → Inner
inner_of name description solution = string (codes "name") (
    plain 58 refl (
      plain 32 refl (
        string name (
          plain 44 refl (
            plain 32 refl (
              string (codes "description") (
                plain 58 refl (
                  plain 32 refl (
                    string description (
                      plain 44 refl (
                        plain 32 refl (
                          string (codes "solution")
                            (plain 58 refl (plain 32 refl (string solution end)))))))))))))))

body-inner :
    (name description solution : Bytes)
    → text_of_inner (inner_of name description solution) ≡ body name description solution
unfolding text_of_inner inner_of body quoted
body-inner name description solution = refl

pub object_end :
    (name description solution after : Bytes)
    → find_object_end (123 ∷ (body name description solution ++ (125 ∷ after)))
      ≡ some (1 + length (body name description solution))
object_end name description solution after =
    let e = body-inner name description solution in
    ap (λ (t : Bytes). find_object_end (123 ∷ (t ++ (125 ∷ after)))) (sym e)
    ∙ find_object_end-closes (inner_of name description solution) after
    ∙ ap (λ (t : Bytes). some (1 + length t)) e

take-length : (text after : Bytes) → take (length text) (text ++ after) ≡ text
take-length [] after = refl
take-length (c ∷ text) after = ap (◌∷◌ c) (take-length text after)

pub take-one_more :
    (c : ℕ) (text after : Bytes) → take (1 + length text) (c ∷ (text ++ after)) ≡ c ∷ text
take-one_more c text after =
    ap (λ (n : ℕ). take n (c ∷ (text ++ after)))
      (let e : 1 + length text ≡ suc (length text) = omega arith in e)
    ∙ ap (◌∷◌ c) (take-length text after)

pub find_name :
    (n d s : Bytes)
    → find_value (codes "\"name\"") (123 ∷ body n d s)
      ≡ some (
          quoted n
          ++ (34
              ∷ (codes ", \"description\": \""
                  ++ (quoted d ++ (codes "\", \"solution\": \"" ++ (quoted s ++ (34 ∷ [])))))))
unfolding find_value body
find_name n d s = refl

pub find_description :
    (n d s : Bytes)
    → NoQuote n
    → find_value (codes "\"description\"") (123 ∷ body n d s)
      ≡ some (quoted d ++ (34 ∷ (codes ", \"solution\": \"" ++ (quoted s ++ (34 ∷ [])))))
unfolding find_value body
find_description n d s ok =
    find_value-value (codes "description") (quoted n)
      (32
        ∷ (codes "\"description\": \""
            ++ (quoted d ++ (codes "\", \"solution\": \"" ++ (quoted s ++ (34 ∷ []))))))
      (NoQuote-tested (codes "description") refl) (NoQuote-quoted n ok)

pub find_solution :
    (n d s : Bytes)
    → NoQuote n
    → NoQuote d
    → find_value (codes "\"solution\"") (123 ∷ body n d s) ≡ some (quoted s ++ (34 ∷ []))
unfolding find_value body
find_solution n d s ok okd =
    find_value-value (codes "solution") (quoted n)
      (32
        ∷ (codes "\"description\": \""
            ++ (quoted d ++ (codes "\", \"solution\": \"" ++ (quoted s ++ (34 ∷ []))))))
      (NoQuote-tested (codes "solution") refl) (NoQuote-quoted n ok)
    ∙ find_value-value (codes "solution") (quoted d)
        (32 ∷ (codes "\"solution\": \"" ++ (quoted s ++ (34 ∷ []))))
        (NoQuote-tested (codes "solution") refl) (NoQuote-quoted d okd)
