-- ===== src/Delivery/Listener/RoundTrip.antt =====
-- internal/delivery/listener.go: the payloads that are sent are parsed.
use knobs.Base.{
  ◌≡◌, refl, ◌∙◌, ap, ℕ, suc, ◌+◌, ◌*◌, ◌-◌, ◌/◌, ◌%◌, ◌≤◌, ◌<◌, Bool, true, false, Option, none,
  some, [], ◌∷◌, ◌++◌, nat_eq, ltb, arith, nat_eq_iff, lt→ltb, Bool-cases, inl, inr,
}
use knobs.Base.Text.{Text, between, has}
use knobs.Delivery.Listener.{cut_colon, digits_from, is_int64, parse_payload, digits, payload}

cut_colon_first : (s t : Text) → has b':' s ≡ false → cut_colon (s ++ (b':' ∷ t)) ≡ some (s, t)
unfolding cut_colon has
cut_colon_first [] t h = refl
cut_colon_first (c ∷ s) t h =
    let other : nat_eq c b':' ≡ false = ground (arith, h, nat_eq_iff c b':', nat_eq_iff b':' c) in
    rw (cut_colon, other, cut_colon_first s t (ground (arith, h))) refl

abbrev extended : ℕ → Option ℕ → Option ℕ
extended d none = none
extended d (some n) = some (n * 10 + d)

digit_is : (d : ℕ) → d < 10 → between b'0' b'9' (b'0' + d) ≡ true
digit_is d h = ground arith

digits_from_end :
    (acc d : ℕ) (s : Text)
    → d < 10
    → digits_from acc (s ++ (b'0' + d) ∷ []) ≡ extended d (digits_from acc s)
unfolding digits_from
digits_from_end acc d [] h = rw (digits_from, digit_is d h) (ap some (omega arith))
digits_from_end acc d (c ∷ s) h = elim (Bool-cases (between b'0' b'9' c)) [
  | inl digit ↦ rw (digits_from, digit) (digits_from_end (acc * 10 + (c - b'0')) d s h)
  | inr other ↦ rw (digits_from, other) refl
]

one_digit : (n : ℕ) → n < 10 → digits_from 0 ((b'0' + n) ∷ []) ≡ some n
unfolding digits_from
one_digit n h = digits_from_end 0 n [] h ∙ ap some (omega arith)

digits_from-digits : (steps n : ℕ) → n ≤ steps → digits_from 0 (digits steps n) ≡ some n
unfolding digits
digits_from-digits ℕ.zero n h = one_digit n (omega (arith, h))
digits_from-digits (suc steps) n h = elim (Bool-cases (ltb n 10)) [
  | inl small ↦ rw small (one_digit n (ground (arith, small)))
  | inr large ↦ rw large (
      digits_from_end 0 (n % 10) (digits steps (n / 10)) (omega arith)
      ∙ rw (digits_from-digits steps (n / 10) (ground (arith, large, h))) (ap some (omega arith)))
]

is_written : Text → Bool
is_written [] = false
is_written (c ∷ s) = true

is_written_end : (s : Text) (c : ℕ) → is_written (s ++ c ∷ []) ≡ true
unfolding is_written
is_written_end [] c = refl
is_written_end (d ∷ s) c = refl

is_written-digits : (steps n : ℕ) → is_written (digits steps n) ≡ true
unfolding is_written digits
is_written-digits ℕ.zero n = refl
is_written-digits (suc steps) n =
    ground (arith, is_written_end (digits steps (n / 10)) (b'0' + n % 10))

no_digits :
    (c : ℕ) (s : Text) (n : ℕ) → between b'0' b'9' c ≡ false → digits_from 0 (c ∷ s) ≡ some n → ⊥
unfolding digits_from
no_digits c s n other h = ground (arith, other, h)

is_int64_of :
    (t : Text) (n : ℕ)
    → is_written t ≡ true
    → digits_from 0 t ≡ some n
    → n < 9223372036854775808
    → is_int64 t ≡ true
unfolding is_written is_int64
is_int64_of [] n written h small = absurd (ground (arith, written))
is_int64_of (c ∷ s) n written h small = elim (Bool-cases (between b'0' b'9' c)) [
  | inl digit ↦
      let minus : nat_eq c b'-' ≡ false = ground (arith, digit) in
      let plus : nat_eq c b'+' ≡ false = ground (arith, digit) in
      rw (is_int64, minus, plus, h) (lt→ltb n 9223372036854775808 small)
  | inr other ↦ absurd (no_digits c s n other h)
]

pub parse_payload-payload :
    (print_id : ℕ → Text) (parse_id : Text → Option ℕ) (env revision : ℕ)
    → parse_id (print_id env) ≡ some env
    → has b':' (print_id env) ≡ false
    → revision < 9223372036854775808
    → parse_payload parse_id (payload print_id env revision) ≡ some env
unfolding parse_payload payload
parse_payload-payload print_id parse_id env revision known plain small =
    let number =
      is_int64_of (digits revision revision) revision (is_written-digits revision revision)
        (digits_from-digits revision revision (omega arith)) small in
    rw (parse_payload, cut_colon_first (print_id env) (digits revision revision) plain, number)
      known
