-- ===== src/Codegen/Names.antt =====
-- internal/codegen/go.go and ts.go: names and descriptions as they may stand in the source.
-- `to_upper` is unicode.ToUpper, of which only letters and digits of ASCII are asked.
pub mod Laws
pub mod Fields
use knobs.Base.{
  ℕ, Bool, true, false, Option, none, some, List, [], ◌∷◌, ◌++◌, if◌then◌else◌, not, ◌&&◌, ◌||◌,
  nat_eq,
}
use knobs.Base.Text.{Text, between, codes}

abbrev pub is_letter : ℕ → Bool
is_letter c = between b'A' b'Z' c || between b'a' b'z' c

abbrev pub is_alnum : ℕ → Bool
is_alnum c = is_letter c || between b'0' b'9' c

abbrev pub word_start : Text → List Text → List Text
word_start [] words = words
word_start (c ∷ w) words = (c ∷ w) ∷ words

-- The words between the runs of other characters, without the empty ones, which the loop skips;
-- `w` is what has been read of a word.
unfoldable pub words_from : Text → Text → List Text
words_from w [] = word_start w []
words_from w (c ∷ s) =
    let inside = words_from (w ++ c ∷ []) s in
    let outside = words_from [] s in if is_alnum c then inside else word_start w outside

abbrev pub capitalized : (ℕ → ℕ) → Text → Text
capitalized to_upper [] = []
capitalized to_upper (c ∷ w) = to_upper c ∷ w

unfoldable pub pascal : (ℕ → ℕ) → List Text → Text
pascal to_upper [] = []
pascal to_upper (w ∷ words) = capitalized to_upper w ++ pascal to_upper words

-- `goIdentifierPattern` behind its first character, `^[A-Za-z_][A-Za-z0-9_]*$`
unfoldable pub is_go_rest : Text → Bool
is_go_rest [] = true
is_go_rest (c ∷ s) = (is_alnum c || nat_eq c b'_') && is_go_rest s

abbrev pub is_go_identifier : Text → Bool
is_go_identifier [] = false
is_go_identifier (c ∷ s) = (is_letter c || nat_eq c b'_') && is_go_rest s

abbrev pub checked : Text → Option Text
checked s = if is_go_identifier s then some s else none

-- `is_digit` is unicode.IsDigit.
abbrev pub prefixed : (ℕ → Bool) → Text → Option Text
prefixed is_digit [] = none
prefixed is_digit (c ∷ s) = checked (if is_digit c then codes "Field" ++ (c ∷ s) else c ∷ s)

unfoldable pub go_field_name : (ℕ → ℕ) → (ℕ → Bool) → Text → Option Text
go_field_name to_upper is_digit name = prefixed is_digit (pascal to_upper (words_from [] name))

-- `identifierPattern`, `^[A-Za-z_$][A-Za-z0-9_$]*$`
abbrev pub is_ts_start : ℕ → Bool
is_ts_start c = is_letter c || nat_eq c b'_' || nat_eq c b'$'

unfoldable pub is_ts_rest : Text → Bool
is_ts_rest [] = true
is_ts_rest (c ∷ s) = (is_alnum c || nat_eq c b'_' || nat_eq c b'$') && is_ts_rest s

abbrev pub is_ts_identifier : Text → Bool
is_ts_identifier [] = false
is_ts_identifier (c ∷ s) = is_ts_start c && is_ts_rest s

-- `quote` is strconv.Quote.
unfoldable pub property_key : (Text → Text) → Text → Text
property_key quote name = if is_ts_identifier name then name else quote name

abbrev pub lf : ℕ
lf = 10

abbrev pub cr : ℕ
cr = 13

-- `strings.ReplaceAll(s, "\r\n", " ")`
unfoldable pub replace_crlf : Text → Text
replace_crlf [] = []
replace_crlf (c ∷ []) = c ∷ []
replace_crlf (c ∷ d ∷ s) =
    let one = replace_crlf (d ∷ s) in
    let two = replace_crlf s in if nat_eq c cr && nat_eq d lf then b' ' ∷ two else c ∷ one

-- `strings.ReplaceAll` of one character by a space
unfoldable pub replace_char : ℕ → Text → Text
replace_char old [] = []
replace_char old (c ∷ s) = (if nat_eq c old then b' ' else c) ∷ replace_char old s

-- `strings.ReplaceAll(s, "*/", "* /")`
unfoldable pub replace_close : Text → Text
replace_close [] = []
replace_close (c ∷ []) = c ∷ []
replace_close (c ∷ d ∷ s) =
    let one = replace_close (d ∷ s) in
    let two = replace_close s in
    if nat_eq c b'*' && nat_eq d b'/' then b'*' ∷ b' ' ∷ b'/' ∷ two else c ∷ one

unfoldable pub sanitize_description : Text → Text
sanitize_description s = replace_close (replace_char lf (replace_char cr (replace_crlf s)))
