-- ===== src/Codegen/Names/Laws.antt =====
-- internal/codegen/go.go and ts.go: the derived names are identifiers, and a description cannot
-- leave its comment.
use knobs.Base.{◌≡◌, refl, ℕ, Bool, false, [], ◌∷◌, not, ◌&&◌, ◌||◌, nat_eq, arith}
use knobs.Base.Text.{Text, has}
use knobs.Codegen.Names.{lf, cr, replace_crlf, replace_char, replace_close, sanitize_description}

-- Whether the text has two characters next to each other.
unfoldable pub has_pair : ℕ → ℕ → Text → Bool
has_pair a b [] = false
has_pair a b (c ∷ []) = false
has_pair a b (c ∷ d ∷ s) = (nat_eq c a && nat_eq d b) || has_pair a b (d ∷ s)

has-replace_char :
    (c old : ℕ) (s : Text)
    → nat_eq c b' ' ≡ false
    → has c (replace_char old s) ≡ (not (nat_eq c old) && has c s)
unfolding has replace_char
has-replace_char c old [] h = ground arith
has-replace_char c old (d ∷ s) h = ground (arith, has-replace_char c old s h)

has-replace_close : (c : ℕ) (s : Text) → nat_eq c b' ' ≡ false → has c (replace_close s) ≡ has c s
unfolding has replace_close
has-replace_close c [] h = refl
has-replace_close c (d ∷ []) h = refl
has-replace_close c (d ∷ e ∷ s) h =
    ground (arith, has-replace_close c (e ∷ s) h, has-replace_close c s h)

-- A text begins with the character.
abbrev starts : ℕ → Text → Bool
starts c [] = false
starts c (d ∷ s) = nat_eq d c

starts-replace_close : (s : Text) → starts b'/' (replace_close s) ≡ starts b'/' s
unfolding replace_close
starts-replace_close [] = refl
starts-replace_close (c ∷ []) = refl
starts-replace_close (c ∷ d ∷ s) = ground arith

has_pair_cons :
    (c : ℕ) (s : Text)
    → has_pair b'*' b'/' (c ∷ s) ≡ ((nat_eq c b'*' && starts b'/' s) || has_pair b'*' b'/' s)
unfolding has_pair
has_pair_cons c [] = ground arith
has_pair_cons c (d ∷ s) = refl

has_pair-replace_close : (s : Text) → has_pair b'*' b'/' (replace_close s) ≡ false
unfolding replace_close has_pair
has_pair-replace_close [] = refl
has_pair-replace_close (c ∷ []) = refl
has_pair-replace_close (c ∷ d ∷ s) = ground (
  arith,
  has_pair-replace_close (d ∷ s),
  has_pair-replace_close s,
  has_pair_cons c (replace_close (d ∷ s)),
  has_pair_cons b'/' (replace_close s),
  starts-replace_close (d ∷ s),
)

-- A description that is put into a comment has neither a line break nor the end of a comment.
pub sanitize_description_closed :
    (s : Text)
    → (has lf (sanitize_description s) ≡ false)
      × ((has cr (sanitize_description s) ≡ false)
          × (has_pair b'*' b'/' (sanitize_description s) ≡ false))
unfolding sanitize_description
sanitize_description_closed s =
    let t = replace_char cr (replace_crlf s) in
    (
      ground (arith, has-replace_close lf (replace_char lf t), has-replace_char lf lf t),
      (
        ground (
          arith,
          has-replace_close cr (replace_char lf t),
          has-replace_char cr lf t,
          has-replace_char cr cr (replace_crlf s),
        ),
        has_pair-replace_close (replace_char lf t),
      ),
    )
