-- ===== src/Tests/OfUtils.antt =====
-- The theorems on the package utils at concrete inputs.
use gpbackup.Base.{
  String, ◌<>◌, ◌≡◌, refl, ◌↔◌, true, false, some, [], ◌∷◌, nat_comparable, string_comparable,
}
use gpbackup.Base.Counting.{contains}
use gpbackup.Utils.FilterSet.{new_include_set, new_exclude_set, matches_filter, equals}
use gpbackup.Utils.FilterSet.Laws.{matches_filter_lem, equals_iff}
use gpbackup.Utils.Text.{escape_single_quotes}
use gpbackup.Utils.Text.Literals.{read_literal, read_literal-escape}

matches_filter_lem_example :
    (matches_filter (new_include_set ("a" ∷ "b" ∷ [])) "b" ≡ true)
    × (matches_filter (new_exclude_set ("a" ∷ "b" ∷ [])) "b" ≡ false)
matches_filter_lem_example = matches_filter_lem ("a" ∷ "b" ∷ []) "b"

equals_iff_example :
    (equals (new_include_set ("a" ∷ "b" ∷ [])) (new_include_set ("b" ∷ "a" ∷ "b" ∷ [])) ≡ true)
    ↔ ((a : String) → contains a ("a" ∷ "b" ∷ []) ≡ contains a ("b" ∷ "a" ∷ "b" ∷ []))
equals_iff_example = equals_iff ("a" ∷ "b" ∷ []) ("b" ∷ "a" ∷ "b" ∷ [])

read_literal-escape_example :
    read_literal (escape_single_quotes "it's" <> ("'" <> ";")) ≡ some ("it's", ";")
read_literal-escape_example = read_literal-escape "it's" ";" refl
