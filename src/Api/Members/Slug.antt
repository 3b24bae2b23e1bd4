-- ===== src/Api/Members/Slug.antt =====
-- internal/api/org_handlers.go: the slug of an organization. `to_lower` is the lower case of a
-- code point, as strings.ToLower finds it in the Unicode tables.
pub mod Laws
use knobs.Base.{
  ℕ, suc, ◌+◌, ◌/◌, ◌%◌, ◌≤◌, Bool, true, false, Option, none, some, List, [], ◌∷◌, ◌++◌,
  if◌then◌else◌, not, ◌==◌, ◌&&◌, ◌||◌, nat_eq, ltb,
}
use knobs.Base.Text.{Text, between}

abbrev pub is_slug_char : ℕ → Bool
is_slug_char c = between b'a' b'z' c || between b'0' b'9' c

-- `b.Len() > 0`
abbrev pub is_written : Text → Bool
is_written [] = false
is_written (c ∷ s) = true

-- The loop; `out` is what has been written.
unfoldable pub slug_loop : (ℕ → ℕ) → Text → Bool → Text → Text
slug_loop to_lower out prev_dash [] = out
slug_loop to_lower out prev_dash (r ∷ name) =
    let kept = slug_loop to_lower (out ++ to_lower r ∷ []) false name in
    let dashed = slug_loop to_lower (out ++ b'-' ∷ []) true name in
    let skipped = slug_loop to_lower out prev_dash name in
    if is_slug_char (to_lower r)
    then kept
    else if not prev_dash && is_written out
    then dashed
    else skipped

-- `strings.TrimRight(s, "-")`
unfoldable pub trim_right : Text → Text
trim_right [] = []
trim_right (c ∷ s) =
    let rest = trim_right s in if nat_eq c b'-' && not (is_written rest) then [] else c ∷ rest

abbrev pub or_org : Text → Text
or_org [] = b'o' ∷ b'r' ∷ b'g' ∷ []
or_org (c ∷ s) = c ∷ s

unfoldable pub derive_slug : (ℕ → ℕ) → Text → Text
derive_slug to_lower name = or_org (trim_right (slug_loop to_lower [] false name))

-- A number below 100 in decimal.
unfoldable pub decimal : ℕ → Text
decimal n = if ltb n 10 then (b'0' + n) ∷ [] else (b'0' + n / 10) ∷ (b'0' + n % 10) ∷ []

-- The slug of an attempt: with `-2`, `-3`, ... behind it from the second one on.
unfoldable pub numbered : Text → ℕ → Text
numbered base ℕ.zero = base
numbered base (suc attempt) = base ++ b'-' ∷ decimal (suc (suc attempt))
