-- ===== src/VersionsFile/Tests.antt =====
-- Runs of the splitting of source/update/versionsfile.c and instances of its laws.
use rr_launcher.Prelude.{
  ℕ, zero, suc, ◌≡◌, refl, Bool, true, ap, [], ◌∷◌, codes, length, replicate, arith, ==_iff,
}
use rr_launcher.Prelude.Int.{pos}
use rr_launcher.Result.{done, fault}
use rr_launcher.Version.{Version, from_string}
use rr_launcher.VersionsFile.{split_ok, split_by, get_necessary_urls_and_versions}
use rr_launcher.VersionsFile.Split.{fields, split_by-fields}
use rr_launcher.VersionsFile.Overflow.{split_by-overflow}
use rr_launcher.VersionsFile.Entries.{
  Line, IsLine, text_of, newer_of, get_necessary_urls_and_versions-newer,
}

abbrev allocates : ℕ → Bool
allocates n = true

split_by-fields_example :
    split_by allocates b' ' (codes "1.2.3 http://u")
    ≡ done (split_ok, fields b' ' (codes "1.2.3 http://u"))
split_by-fields_example =
    split_by-fields allocates b' ' (λ n. refl) (codes "1.2.3 http://u")
      (unfold fields in omega arith)

two_parts : fields b' ' (codes "1.2.3 http://u") ≡ codes "1.2.3" ∷ codes "http://u" ∷ []
unfolding fields
two_parts = refl

-- One separator at the end adds no field; a second one adds an empty field.
trailing : fields b'\n' (codes "a\n\n") ≡ codes "a" ∷ [] ∷ []
unfolding fields
trailing = refl

-- A text of separators has as many fields.
length-fields-replicate : (n by : ℕ) → length (fields by (replicate n by)) ≡ n
unfolding fields
length-fields-replicate zero by = refl
length-fields-replicate (suc n) by =
    let same = (==_iff by by).1 refl in rw same (ap suc (length-fields-replicate n by))

split_by-overflow_example : split_by allocates b'\n' (replicate 1025 b'\n') ≡ fault
split_by-overflow_example =
    split_by-overflow allocates b'\n' (λ n. refl) (replicate 1025 b'\n')
      (omega (arith, length-fields-replicate 1025 b'\n'))

abbrev current : Version
current = record { major = pos 6; minor = pos 2; patch = pos 0 }

abbrev line : Line
line = record {
  text = codes "6.2.1";
  entry = record {
    version = record { major = pos 6; minor = pos 2; patch = pos 1 };
    target = codes "u";
  };
}

line-IsLine : IsLine line
unfolding from_string
line-IsLine = record {
  version = refl;
  text_free = (refl, (refl, (refl, (refl, (refl, tt)))));
  target_free = (refl, tt);
  target_filled = omega arith;
  text_inline = (refl, (refl, (refl, (refl, (refl, tt)))));
  target_inline = (refl, tt);
}

get_necessary_urls_and_versions-newer_example :
    get_necessary_urls_and_versions allocates current (text_of (line ∷ []))
    ≡ done (newer_of current (line ∷ []))
get_necessary_urls_and_versions-newer_example =
    get_necessary_urls_and_versions-newer allocates (λ n. refl) current (line ∷ [])
      (line-IsLine, tt) (omega arith)
