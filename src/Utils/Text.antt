-- ===== src/Utils/Text.antt =====
-- utils/util.go: names, lists of names, and the quoting of SQL literals.
pub mod Literals
use gpbackup.Base.{
  ℕ, zero, suc, ◌+◌, ◌-◌, ◌*◌, ◌/◌, ◌%◌, ◌≤◌, ◌<◌, String, ◌<>◌, len, slice, ◌≡◌, refl, sym, ap,
  subst, ◌∙◌, ◌≢◌, ◌↔◌, ◌⊎◌, inl, inr, Bool, true, false, not, ◌&&◌, ◌||◌, Option, none, some, List,
  [], ◌∷◌, ◌++◌, map, arith, ltb, leb, nat_beq, if◌then◌else◌, nat_beq_iff, ltb→lt, lt→ltb, leb→le,
  Bool-cases, Option-cases, &&_left, &&_right, Comparable, ◌==◌, nat_comparable, string_comparable,
  ==_refl, ==_sound, ==_sym, length, is_empty, get_elem?, drop, filter, All, length-append,
  filter-append, All-append, All-map,
}
use gpbackup.Base.Results.{Outcome, ok, fatal, ◌>>=◌, ◌>>◌, fatal_if, >>-eq-ok}
use Prim.Native.Char.{Char, code}

-- The functions below walk a text by its characters.
abbrev pub is_code : Char → ℕ → Bool
is_code c n = code c == n

unfoldable pub make_fqn : String → String → String
make_fqn schema object = schema <> ("." <> object)

unfoldable pub exists : List String → String → Bool
exists [] val = false
exists (item ∷ slice) val = if item == val then true else exists slice val

unfoldable pub schema_is_excluded_by_user : List String → List String → String → Bool
unfolding exists
schema_is_excluded_by_user in_schemas ex_schemas schema =
    let included = exists in_schemas schema || is_empty in_schemas in
    let excluded = exists ex_schemas schema in excluded || not included

unfoldable pub relation_is_excluded_by_user : List String → List String → String → Bool
unfolding exists
relation_is_excluded_by_user in_relations ex_relations fqn =
    let included = exists in_relations fqn || is_empty in_relations in
    let excluded = exists ex_relations fqn in excluded || not included

-- `strings.Replace(str, "'", "''", -1)`
unfoldable pub escape_single_quotes : String → String
escape_single_quotes String.[] = String.[]
escape_single_quotes (String.◌∷◌ c s) =
    if is_code c b'\''
    then String.◌∷◌ c (String.◌∷◌ c (escape_single_quotes s))
    else String.◌∷◌ c (escape_single_quotes s)

-- `strings.Join(slice, sep)`
unfoldable pub join : List String → String → String
join [] sep = ""
join (x ∷ []) sep = x
join (x ∷ y ∷ xs) sep = x <> (sep <> join (y ∷ xs) sep)

quote_all : List String → List String
unfolding escape_single_quotes
quote_all [] = []
quote_all (str ∷ slice) = ("'" <> (escape_single_quotes str <> "'")) ∷ quote_all slice

unfoldable pub slice_to_quoted_string : List String → String
unfolding quote_all join
slice_to_quoted_string slice = join (quote_all slice) ","

starts_with_char : String → ℕ → Bool
starts_with_char String.[] n = false
starts_with_char (String.◌∷◌ c s) n = is_code c n

unfoldable pub validate_full_path : String → Outcome (Unit {0})
unfolding starts_with_char
validate_full_path path =
    fatal_if (not (path == "") && not (starts_with_char path b'/' || starts_with_char path b'~'))
      (path <> " is not an absolute path.")

-- The table of level bounds: gzip takes 1 to 9, zstd 1 to 19.
compression_levels : String → Option (ℕ × ℕ)
compression_levels compression_type =
    if compression_type == "gzip"
    then some (1, 9)
    else if compression_type == "zstd"
    then some (1, 19)
    else none

unfoldable pub validate_compression_type_and_level : String → ℕ → Outcome (Unit {0})
unfolding compression_levels
validate_compression_type_and_level compression_type level =
    elim (compression_levels compression_type) [
      | some (least, most) ↦
          fatal_if (ltb level least || ltb most level)
            (("compression type '" <> compression_type) <> "' does not allow this level")
      | none ↦ fatal (("unknown compression type '" <> compression_type) <> "'")
    ]
