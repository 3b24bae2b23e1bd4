-- ===== src/Codegen/Names/Fields.antt =====
-- internal/codegen/go.go: the name of a struct field.
use knobs.Base.{
  ◌≡◌, refl, sym, ◌∙◌, ℕ, ◌-◌, Bool, true, false, none, some, List, [], ◌∷◌, ◌++◌, if◌then◌else◌,
  ◌&&◌, ◌||◌, arith, Bool-cases, ◌⊎◌, inl, inr,
}
use knobs.Base.Text.{Text, between, codes}
use knobs.Codegen.Names.{
  is_letter, is_alnum, word_start, words_from, pascal, is_go_rest, checked, prefixed, go_field_name,
}

abbrev pub are_alnum : Text → Bool
are_alnum [] = true
are_alnum (c ∷ s) = is_alnum c && are_alnum s

abbrev pub has_alnum : Text → Bool
has_alnum [] = false
has_alnum (c ∷ s) = is_alnum c || has_alnum s

abbrev is_written : {A : Type 0} → List A → Bool
is_written [] = false
is_written (c ∷ s) = true

-- A name that other packages see, of letters and digits.
abbrev pub is_exported : Text → Bool
is_exported [] = false
is_exported (c ∷ s) = between b'A' b'Z' c && are_alnum s

abbrev are_words : List Text → Bool
are_words [] = true
are_words (w ∷ words) = (is_written w && are_alnum w) && are_words words

are_alnum-append : (s t : Text) → are_alnum (s ++ t) ≡ (are_alnum s && are_alnum t)
are_alnum-append [] t = refl
are_alnum-append (c ∷ s) t = ground (arith, are_alnum-append s t)

are_words-word_start :
    (w : Text) (words : List Text)
    → are_words (word_start w words) ≡ (are_alnum w && are_words words)
are_words-word_start [] words = refl
are_words-word_start (c ∷ w) words = ground arith

is_written_end : (w : Text) (c : ℕ) → is_written (w ++ c ∷ []) ≡ true
is_written_end [] c = refl
is_written_end (d ∷ w) c = refl

is_written-word_start :
    (w : Text) (words : List Text)
    → is_written (word_start w words) ≡ (is_written w || is_written words)
is_written-word_start [] words = refl
is_written-word_start (c ∷ w) words = refl

are_words-words_from : (w s : Text) → are_alnum w ≡ true → are_words (words_from w s) ≡ true
unfolding words_from
are_words-words_from w [] h = rw (are_words-word_start w []) (ground arith)
are_words-words_from w (c ∷ s) h = ground (
  arith,
  are_words-words_from (w ++ c ∷ []) s,
  are_words-words_from [] s,
  are_alnum-append w (c ∷ []),
  are_words-word_start w (words_from [] s),
)

is_written-words_from : (w s : Text) → is_written (words_from w s) ≡ (is_written w || has_alnum s)
unfolding words_from
is_written-words_from w [] = is_written-word_start w []
is_written-words_from w (c ∷ s) = ground (
  arith,
  is_written-words_from (w ++ c ∷ []) s,
  is_written-words_from [] s,
  is_written_end w c,
  is_written-word_start w (words_from [] s),
)

is_go_rest_of : (s : Text) → are_alnum s ≡ true → is_go_rest s ≡ true
unfolding is_go_rest
is_go_rest_of [] h = refl
is_go_rest_of (c ∷ s) h = ground (arith, is_go_rest_of s)

-- What is known of the letters and digits of ASCII.
abbrev pub IsUpper : (ℕ → ℕ) → Type 0
IsUpper to_upper =
    (c : ℕ) → is_alnum c ≡ true → to_upper c ≡ (if between b'a' b'z' c then c - 32 else c)

abbrev pub IsDigit : (ℕ → Bool) → Type 0
IsDigit is_digit = (c : ℕ) → is_alnum c ≡ true → is_digit c ≡ between b'0' b'9' c

-- The first character of a word is no lower-case letter any more.
abbrev is_high : Text → Bool
is_high [] = true
is_high (c ∷ s) = (between b'A' b'Z' c || between b'0' b'9' c) && are_alnum s

both : (a b : Bool) → (a && b) ≡ true → (a ≡ true) × (b ≡ true)
both true b h = (refl, h)
both false b h = absurd (ground (arith, h))

high_alnum : (c : ℕ) → (between b'A' b'Z' c || between b'0' b'9' c) ≡ true → is_alnum c ≡ true
high_alnum c h = ground arith

letter_alnum : (c : ℕ) → between b'A' b'Z' c ≡ true → is_letter c ≡ true
letter_alnum c h = ground arith

checked_exported : (s : Text) → is_exported s ≡ true → checked s ≡ some s
checked_exported [] h = absurd (ground (arith, h))
checked_exported (c ∷ s) h =
    let parts = both (between b'A' b'Z' c) (are_alnum s) h in
    rw (letter_alnum c parts.0, is_go_rest_of s parts.1) refl

high_letter :
    (c : ℕ)
    → (between b'A' b'Z' c || between b'0' b'9' c) ≡ true
    → between b'0' b'9' c ≡ false
    → between b'A' b'Z' c ≡ true
high_letter c h other = ground arith

module _ (to_upper : ℕ → ℕ) (upper : IsUpper to_upper) where
  upper_high :
      (c : ℕ)
      → is_alnum c ≡ true
      → (between b'A' b'Z' (to_upper c) || between b'0' b'9' (to_upper c)) ≡ true
  upper_high c h = rw (upper c h) (ground arith)

  are_alnum_of_high : (s : Text) → is_high s ≡ true → are_alnum s ≡ true
  are_alnum_of_high [] h = refl
  are_alnum_of_high (c ∷ s) h = ground arith

  is_high-pascal :
      (words : List Text) → are_words words ≡ true → is_high (pascal to_upper words) ≡ true
  unfolding pascal
  is_high-pascal [] h = refl
  is_high-pascal ([] ∷ words) h = ground arith
  is_high-pascal ((c ∷ w) ∷ words) h =
      let parts = both (is_alnum c && are_alnum w) (are_words words) h in
      let word = both (is_alnum c) (are_alnum w) parts.0 in
      let rest = are_alnum_of_high (pascal to_upper words) (is_high-pascal words parts.1) in
      rw (upper_high c word.0, are_alnum-append w (pascal to_upper words), word.1, rest) refl

  is_written-pascal :
      (words : List Text)
      → are_words words ≡ true
      → is_written (pascal to_upper words) ≡ is_written words
  unfolding pascal
  is_written-pascal [] h = refl
  is_written-pascal ([] ∷ words) h = ground arith
  is_written-pascal ((c ∷ w) ∷ words) h = refl

  module _ (is_digit : ℕ → Bool) (digit : IsDigit is_digit) where
    prefixed_lem :
        (s : Text)
        → is_high s ≡ true
        → is_written s ≡ true
        → (t : Text) × ((prefixed is_digit s ≡ some t) × (is_exported t ≡ true))
    prefixed_lem [] high written = absurd (ground (arith, written))
    prefixed_lem (c ∷ s) high written =
        let parts = both (between b'A' b'Z' c || between b'0' b'9' c) (are_alnum s) high in
        let alnum = high_alnum c parts.0 in
        elim (Bool-cases (is_digit c)) [
          | inl number ↦
              let exported : is_exported (codes "Field" ++ (c ∷ s)) ≡ true =
                rw (alnum, parts.1) refl in
              (
                codes "Field" ++ (c ∷ s),
                (rw number (checked_exported (codes "Field" ++ (c ∷ s)) exported), exported),
              )
          | inr letter ↦
              let upper_case = high_letter c parts.0 (sym (digit c alnum) ∙ letter) in
              let exported : is_exported (c ∷ s) ≡ true = rw (upper_case, parts.1) refl in
              (c ∷ s, (rw letter (checked_exported (c ∷ s) exported), exported))
        ]

    prefixed_empty : (s : Text) → is_written s ≡ false → prefixed is_digit s ≡ none
    prefixed_empty [] h = refl
    prefixed_empty (c ∷ s) h = absurd (ground (arith, h))

    -- With tables of upper cases and digits that are right for ASCII: a name without letters and
    -- digits has no field name, and any other has one, which is an upper-case letter with letters and
    -- digits behind it.
    pub go_field_name_exported :
        (name : Text)
        → ((has_alnum name ≡ false) × (go_field_name to_upper is_digit name ≡ none))
          ⊎ ((has_alnum name ≡ true)
              × ((s : Text) × ((go_field_name to_upper is_digit name ≡ some s)
                    × (is_exported s ≡ true))))
    unfolding go_field_name
    go_field_name_exported name =
        let words = words_from [] name in
        let good = are_words-words_from [] name refl in
        let same = is_written-pascal words good ∙ is_written-words_from [] name in
        elim (Bool-cases (has_alnum name)) [
          | inl some_alnum ↦ inr (
            some_alnum,
            prefixed_lem (pascal to_upper words) (is_high-pascal words good) (same ∙ some_alnum),
          )
          | inr no_alnum ↦ inl (no_alnum, prefixed_empty (pascal to_upper words) (same ∙ no_alnum))
        ]
