-- ===== src/Api/Members/Slug/Laws.antt =====
-- internal/api/org_handlers.go: every slug that is tried is a slug.
use knobs.Base.{
  ◌≡◌, refl, ◌∙◌, ℕ, suc, ◌<◌, Bool, true, false, Option, none, some, [], ◌∷◌, ◌++◌, if◌then◌else◌,
  not, ◌&&◌, ◌||◌, nat_eq, nat_eq_iff, arith, ◌⊎◌, inl,
}
use knobs.Base.Text.{Text}
use knobs.Api.Members.Slug.{
  is_slug_char, is_written, slug_loop, trim_right, or_org, derive_slug, decimal, numbered,
}

-- Reads lower-case letters, digits, and dashes that stand after one of those; `open_end` says that
-- the text may not end here. The result is `none` where the text is no beginning of a slug.
unfoldable pub scan : Bool → Text → Option Bool
scan open_end [] = some open_end
scan open_end (c ∷ s) =
    let letter = scan false s in
    let dash = scan true s in
    if is_slug_char c then letter else if nat_eq c b'-' && not open_end then dash else none

-- Words of lower-case letters and digits, at least one, with a dash between two of them.
abbrev pub IsSlug : Text → Type 0
IsSlug s = scan true s ≡ some false

scan_end :
    (d e : Bool) (s : Text) (c : ℕ) → scan d s ≡ some e → scan d (s ++ c ∷ []) ≡ scan e (c ∷ [])
unfolding scan
scan_end d e [] c h = ground arith
scan_end d e (x ∷ s) c h = ground (arith, scan_end false e s c, scan_end true e s c)

is_written_end : (s : Text) (c : ℕ) → is_written (s ++ c ∷ []) ≡ true
is_written_end [] c = refl
is_written_end (x ∷ s) c = refl

-- A choice between three texts keeps what each of them has.
chosen :
    (P : Text → Type 0)
    → (first second : Bool) (a b c : Text) → (first ≡ true → P a)
    → (first ≡ false → second ≡ true → P b)
    → P c
    → P (if first then a else if second then b else c)
chosen P true second a b c pa pb pc = pa refl
chosen P false true a b c pa pb pc = pb refl refl
chosen P false false a b c pa pb pc = pc

scan-slug_loop :
    (to_lower : ℕ → ℕ) (name out : Text) (prev_dash : Bool)
    → scan true out ≡ some (prev_dash || not (is_written out))
    → (e : Bool) × (scan true (slug_loop to_lower out prev_dash name) ≡ some e)
unfolding slug_loop scan
scan-slug_loop to_lower [] out prev_dash h = (prev_dash || not (is_written out), h)
scan-slug_loop to_lower (r ∷ name) out prev_dash h =
    let state = prev_dash || not (is_written out) in
    chosen (λ s. (e : Bool) × (scan true s ≡ some e)) (is_slug_char (to_lower r))
      (not prev_dash && is_written out) (slug_loop to_lower (out ++ to_lower r ∷ []) false name)
      (slug_loop to_lower (out ++ b'-' ∷ []) true name) (slug_loop to_lower out prev_dash name)
      (λ letter. scan-slug_loop to_lower name (out ++ to_lower r ∷ []) false (
        scan_end true state out (to_lower r) h
        ∙ ground (arith, letter, is_written_end out (to_lower r))))
      (λ other after. scan-slug_loop to_lower name (out ++ b'-' ∷ []) true (
        scan_end true state out b'-' h
        ∙ ground (arith, after, is_written_end out b'-', nat_eq_iff b'-' b'-')))
      (scan-slug_loop to_lower name out prev_dash h)

scan-trim_right :
    (s : Text) (d e : Bool)
    → scan d s ≡ some e
    → (trim_right s ≡ []) ⊎ (scan d (trim_right s) ≡ some false)
unfolding scan trim_right
scan-trim_right [] d e h = inl refl
scan-trim_right (c ∷ s) d e h =
    ground (arith, scan-trim_right s false e, scan-trim_right s true e, nat_eq_iff c b'-')

or_org-IsSlug : (s : Text) → (s ≡ []) ⊎ (scan true s ≡ some false) → IsSlug (or_org s)
unfolding scan
or_org-IsSlug [] h = refl
or_org-IsSlug (c ∷ s) h = ground arith

derive_slug-IsSlug : (to_lower : ℕ → ℕ) (name : Text) → IsSlug (derive_slug to_lower name)
unfolding scan derive_slug
derive_slug-IsSlug to_lower name =
    let run = scan-slug_loop to_lower name [] false refl in
    or_org-IsSlug (trim_right (slug_loop to_lower [] false name))
      (scan-trim_right (slug_loop to_lower [] false name) true run.0 run.1)

scan-append : (d e : Bool) (s t : Text) → scan d s ≡ some e → scan d (s ++ t) ≡ scan e t
unfolding scan
scan-append d e [] t h = ground arith
scan-append d e (x ∷ s) t h = ground (arith, scan-append false e s t, scan-append true e s t)

scan-decimal : (n : ℕ) → n < 100 → scan true (decimal n) ≡ some false
unfolding scan decimal
scan-decimal n small = ground arith

scan-numbered : (n : ℕ) → n < 100 → scan false (b'-' ∷ decimal n) ≡ some false
unfolding scan
scan-numbered n small = scan-decimal n small

-- With any table of lower cases: every slug that is tried for a name is a slug, that is, words of
-- lower-case letters and digits with a dash between two of them, and not empty.
pub numbered-IsSlug :
    (to_lower : ℕ → ℕ) (name : Text) (attempt : ℕ)
    → attempt < 20
    → IsSlug (numbered (derive_slug to_lower name) attempt)
unfolding numbered
numbered-IsSlug to_lower name ℕ.zero within = derive_slug-IsSlug to_lower name
numbered-IsSlug to_lower name (suc attempt) within =
    scan-append true false (derive_slug to_lower name) (b'-' ∷ decimal (suc (suc attempt)))
      (derive_slug-IsSlug to_lower name)
    ∙ scan-numbered (suc (suc attempt)) (omega arith)
