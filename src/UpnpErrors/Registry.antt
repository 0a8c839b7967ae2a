-- ===== src/UpnpErrors/Registry.antt =====
-- A code that stands in the registry of source/upnp_error_codes.c is looked up with its texts.
use rr_launcher.Prelude.{
  ℕ, suc, ◌≡◌, refl, ◌∙◌, true, false, ◌==◌, ==_iff, some, [], ◌∷◌, ◌++◌, Bytes, codes, arith,
}
use rr_launcher.Prelude.Int.{pos}
use rr_launcher.Result.{done}
use rr_launcher.Version.{print_int}
use rr_launcher.ServerStatus.{after_prefix, text_of}
use rr_launcher.ServerStatus.Quoting.{quoted, text_of-ascii}
use rr_launcher.UpnpErrors.{read_info, find_code, error_lookup, ErrorInfo}
use rr_launcher.UpnpErrors.Strings.{NoQuote, json_read_string-found}
use rr_launcher.UpnpErrors.Entry.{
  Fits, body, key_of, entry, object_end, take-one_more, find_name, find_description, find_solution,
}

after_prefix_self : (prefix after : Bytes) → after_prefix prefix (prefix ++ after) ≡ some after
after_prefix_self [] after = refl
after_prefix_self (c ∷ prefix) after =
    let same : (c == c) ≡ true = ground arith in rw same (after_prefix_self prefix after)

abbrev pub Tells : ℕ → Bytes → Bytes → Bytes → ErrorInfo → Type 0
Tells n name description solution info =
    (info.code ≡ pos (suc n))
    × (info.known ≡ true)
    × (text_of info.name ≡ name)
    × (text_of info.description ≡ description)
    × (text_of info.solution ≡ solution)

read_info-body :
    (n : ℕ) (name description solution : Bytes)
    → Fits 64 name
    → Fits 256 description
    → Fits 256 solution
    → (info : ErrorInfo) × (read_info (pos (suc n)) (123 ∷ body name description solution)
        ≡ done (some info))
      × Tells n name description solution info
unfolding read_info
read_info-body n name description solution (short, ok, plain1) (short2, ok2, plain2)
      (short3, ok3, plain3) =
    let object = 123 ∷ body name description solution in
    let (left, named) =
      json_read_string-found 64 object (codes "name") name
        (codes ", \"description\": \""
          ++ (quoted description
              ++ (codes "\", \"solution\": \"" ++ (quoted solution ++ (34 ∷ [])))))
        (omega arith) short ok (find_name name description solution) in
    let (left2, described) =
      json_read_string-found 256 object (codes "description") description
        (codes ", \"solution\": \"" ++ (quoted solution ++ (34 ∷ []))) (omega arith) short2 ok2
        (find_description name description solution plain1) in
    let (left3, solved) =
      json_read_string-found 256 object (codes "solution") solution [] (omega arith) short3 ok3
        (find_solution name description solution plain1 plain2) in
    let info : ErrorInfo = record {
      code = pos (suc n);
      known = true;
      name = name ++ (0 ∷ left);
      description = description ++ (0 ∷ left2);
      solution = solution ++ (0 ∷ left3);
    } in
    (
      info,
      rw (named, described, solved) refl,
      (
        refl,
        refl,
        text_of-ascii name left ok,
        text_of-ascii description left2 ok2,
        text_of-ascii solution left3 ok3,
      ),
    )

find_code_past :
    (n : ℕ) (word before after : Bytes)
    → NoQuote before
    → find_code (pos (suc n)) (34 ∷ word) (before ++ after)
      ≡ find_code (pos (suc n)) (34 ∷ word) after
unfolding find_code
find_code_past n word [] after ok = refl
find_code_past n word (c ∷ before) after (no_quote, ok) =
    let other : (34 == c) ≡ false = ground (arith, ==_iff c 34) in
    rw other (find_code_past n word before after ok)

find_code-entry :
    (n : ℕ) (name description solution after : Bytes)
    → find_code (pos (suc n)) (key_of n) (entry n name description solution after)
      ≡ read_info (pos (suc n)) (123 ∷ body name description solution)
unfolding find_code
find_code-entry n name description solution after =
    let text = body name description solution in
    let word = print_int (pos (suc n)) ++ (34 ∷ []) in
    let there = after_prefix_self word (codes ": {" ++ (text ++ (125 ∷ after))) in
    rw (there, object_end name description solution after, take-one_more 123 text (125 ∷ after))
      refl

-- The entry of a code that stands before any other quoted text of a registry is looked up: its three texts
-- are read back, whatever follows the entry, if each consists of ASCII characters without quotes and fits
-- its buffer.
pub error_lookup-entry :
    (n : ℕ) (before name description solution after : Bytes)
    → NoQuote before
    → Fits 64 name
    → Fits 256 description
    → Fits 256 solution
    → (info : ErrorInfo) × (error_lookup
          (before ++ entry n name description solution after)
          (pos (suc n))
        ≡ done (some info))
      × Tells n name description solution info
unfolding error_lookup
error_lookup-entry n before name description solution after ok fits fits2 fits3 =
    let (info, e, told) = read_info-body n name description solution fits fits2 fits3 in
    let word = print_int (pos (suc n)) ++ (34 ∷ []) in
    (
      info,
      find_code_past n word before (entry n name description solution after) ok
          ∙ find_code-entry n name description solution after
          ∙ e,
      told,
    )
