-- ===== src/Utils/Text/Literals.antt =====
-- utils/util.go: a quoted and escaped text is one SQL string literal.
use gpbackup.Base.{
  String, ◌<>◌, ◌≡◌, refl, inl, inr, true, false, Option, none, some, if◌then◌else◌, Bool-cases,
  nat_comparable, string_comparable,
}
use Prim.Native.Char.{Char}
use Prim.Native.String.append
use gpbackup.Utils.Text.{is_code, escape_single_quotes}

abbrev glue : Char → Option (String × String) → Option (String × String)
glue c none = none
glue c (some (s, rest)) = some (String.◌∷◌ c s, rest)

-- How the server reads a string literal behind its opening quote: two quotes stand for one, and
-- a quote that no quote follows ends it. Gives the value and the rest of the text.
unfoldable pub read_literal : String → Option (String × String)
read_literal String.[] = none
read_literal (String.◌∷◌ c String.[]) = if is_code c b'\'' then some ("", "") else none
read_literal (String.◌∷◌ c (String.◌∷◌ d s)) =
    let escaped = glue c (read_literal s) in
    let plain = glue c (read_literal (String.◌∷◌ d s)) in
    if is_code c b'\''
    then if is_code d b'\'' then escaped else some ("", String.◌∷◌ d s)
    else plain

abbrev pub NoQuote : String → Type 0
NoQuote String.[] = Unit
NoQuote (String.◌∷◌ c s) = is_code c b'\'' ≡ false

read_literal-end : (rest : String) → NoQuote rest → read_literal ("'" <> rest) ≡ some ("", rest)
unfolding read_literal
read_literal-end String.[] h = refl
read_literal-end (String.◌∷◌ c s) h = rw (append.cons, append.nil) (rw h refl)

read_literal-plain :
    (c : Char) (t : String)
    → is_code c b'\'' ≡ false
    → read_literal (String.◌∷◌ c t) ≡ glue c (read_literal t)
unfolding read_literal
read_literal-plain c String.[] h = rw h
read_literal-plain c (String.◌∷◌ d t) h = rw h

read_literal-doubled :
    (c : Char) (t : String)
    → is_code c b'\'' ≡ true
    → read_literal (String.◌∷◌ c (String.◌∷◌ c t)) ≡ glue c (read_literal t)
unfolding read_literal
read_literal-doubled c t h = rw h

-- Behind an opening quote the server reads back an escaped text, and the literal ends at its
-- closing quote: no text can leave its literal. The text that follows must not begin with a quote.
pub read_literal-escape :
    (s rest : String)
    → NoQuote rest
    → read_literal (escape_single_quotes s <> ("'" <> rest)) ≡ some (s, rest)
unfolding escape_single_quotes
read_literal-escape String.[] rest h = rw append.nil (read_literal-end rest h)
read_literal-escape (String.◌∷◌ c s) rest h = elim (Bool-cases (is_code c b'\'')) [
  | inl e ↦ rw e (
      rw append.cons
        (rw append.cons (rw (read_literal-doubled c _ e) (rw (read_literal-escape s rest h)))))
  | inr e ↦
      rw e (rw append.cons (rw (read_literal-plain c _ e) (rw (read_literal-escape s rest h))))
]
