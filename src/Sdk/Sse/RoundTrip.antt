-- ===== src/Sdk/Sse/RoundTrip.antt =====
-- sdk/go/stream.go reads what internal/api/stream_handler.go writes.
use knobs.Base.{
  ◌≡◌, refl, sym, ◌∙◌, ap, ℕ, suc, ◌+◌, ◌≤◌, false, Option, none, some, List, [], ◌∷◌, ◌++◌, nat_eq,
  length, All, arith, nat_eq_iff,
}
use mathlib.Core.List.{append_assoc, append-nil}
use knobs.Base.Text.{Text, codes, has}
use knobs.Sdk.Sse.{
  lf, cr, drop_cr, trim_space, after_prefix, classify, End, closed, join_lines, after_line,
  scan_lines, events, read_response,
}

-- What the server writes: a marshalled frame, or the heartbeat.
unfoldable pub wire : Option Text → Text
wire none = codes ": heartbeat" ++ (lf ∷ lf ∷ [])
wire (some json) = codes "data: " ++ (json ++ (lf ∷ lf ∷ []))

unfoldable pub wire_all : List (Option Text) → Text
wire_all [] = []
wire_all (f ∷ fs) = wire f ++ wire_all fs

-- The frames that are no heartbeats.
abbrev pub payloads : List (Option Text) → List Text
payloads [] = []
payloads (none ∷ fs) = payloads fs
payloads (some json ∷ fs) = json ∷ payloads fs

-- A marshalled frame has no line breaks, since JSON escapes them, and has to fit into a line.
abbrev pub IsLine : ℕ → Option Text → Type 0
IsLine most none = Unit
IsLine most (some json) = (has lf json ≡ false) × ((has cr json ≡ false) × (length json + 6 ≤ most))

drop_cr_none : (s : Text) → has cr s ≡ false → drop_cr s ≡ s
unfolding drop_cr has
drop_cr_none [] h = refl
drop_cr_none (c ∷ []) h = ground (arith, nat_eq_iff c cr)
drop_cr_none (c ∷ d ∷ s) h = ap (λ t. c ∷ t) (drop_cr_none (d ∷ s) (ground (arith, h)))

scan_lines_line :
    (most room : ℕ) (l s rest : Text)
    → has lf s ≡ false
    → length s ≤ room
    → scan_lines most room l (s ++ (lf ∷ rest))
      ≡ after_line (drop_cr (l ++ s)) (scan_lines most most [] rest)
unfolding scan_lines has
scan_lines_line most ℕ.zero l [] rest h fits =
    ap (λ t. after_line (drop_cr t) (scan_lines most most [] rest)) (sym (append-nil l))
scan_lines_line most (suc room) l [] rest h fits =
    ap (λ t. after_line (drop_cr t) (scan_lines most most [] rest)) (sym (append-nil l))
scan_lines_line most ℕ.zero l (c ∷ s) rest h fits = absurd (omega (arith, fits))
scan_lines_line most (suc room) l (c ∷ s) rest h fits =
    let other : nat_eq c lf ≡ false = ground (arith, h, nat_eq_iff c lf, nat_eq_iff lf c) in
    rw (scan_lines, other)
      (scan_lines_line most room (l ++ c ∷ []) s rest (ground (arith, h)) (omega (arith, fits))
        ∙ ap (λ t. after_line (drop_cr t) (scan_lines most most [] rest))
            (append_assoc l (c ∷ []) s))

-- A whole line, read from its start.
whole_line :
    (most : ℕ) (s rest : Text)
    → has lf s ≡ false
    → has cr s ≡ false
    → length s ≤ most
    → scan_lines most most [] (s ++ (lf ∷ rest)) ≡ after_line s (scan_lines most most [] rest)
whole_line most s rest no_lf no_cr fits =
    scan_lines_line most most [] s rest no_lf fits
    ∙ ap (λ t. after_line t (scan_lines most most [] rest)) (drop_cr_none s no_cr)

-- The lines of a frame.
abbrev frame_lines : Option Text → List Text
frame_lines none = codes ": heartbeat" ∷ [] ∷ []
frame_lines (some json) = (codes "data: " ++ json) ∷ [] ∷ []

abbrev after_lines : List Text → List Text × End → List Text × End
after_lines [] r = r
after_lines (l ∷ ls) r = after_line l (after_lines ls r)

two_lines :
    (most : ℕ) (s rest : Text)
    → has lf s ≡ false
    → has cr s ≡ false
    → length s ≤ most
    → scan_lines most most [] (s ++ (lf ∷ lf ∷ rest))
      ≡ after_line s (after_line [] (scan_lines most most [] rest))
unfolding has
two_lines most s rest no_lf no_cr fits =
    whole_line most s (lf ∷ rest) no_lf no_cr fits
    ∙ ap (after_line s) (whole_line most [] rest refl refl (omega arith))

scan_lines-wire :
    (most : ℕ) (f : Option Text) (rest : Text)
    → 11 ≤ most
    → IsLine most f
    → scan_lines most most [] (wire f ++ rest)
      ≡ after_lines (frame_lines f) (scan_lines most most [] rest)
unfolding has wire
scan_lines-wire most none rest room fits =
    two_lines most (codes ": heartbeat") rest refl refl (omega (arith, room))
scan_lines-wire most (some json) rest room (no_lf, (no_cr, fits)) =
    ap (λ t. scan_lines most most [] (codes "data: " ++ t)) (append_assoc json (lf ∷ lf ∷ []) rest)
    ∙ two_lines most (codes "data: " ++ json) rest no_lf no_cr (omega (arith, fits))

event_wire :
    (f : Option Text) (ls : List Text)
    → events [] (frame_lines f ++ ls) ≡ payloads (f ∷ []) ++ events [] ls
unfolding events classify after_prefix trim_space join_lines
event_wire none ls = refl
event_wire (some json) ls = refl

after_lines-append :
    (before : List Text) (r : List Text × End) → after_lines before r ≡ (before ++ r.0, r.1)
after_lines-append [] r = refl
after_lines-append (l ∷ ls) r = ap (after_line l) (after_lines-append ls r)

payloads_cons :
    (f : Option Text) (fs : List (Option Text))
    → payloads (f ∷ fs) ≡ payloads (f ∷ []) ++ payloads fs
payloads_cons none fs = refl
payloads_cons (some json) fs = refl

-- Where a line may have `most` bytes, enough for the heartbeat: of frames that the server writes,
-- with any heartbeats between them, each as one line that fits, the client reads the data of each
-- frame in order and nothing else, and then the end of the response.
pub read_response-wire_all :
    (most : ℕ) (fs : List (Option Text))
    → 11 ≤ most
    → All (IsLine most) fs
    → read_response most (wire_all fs) ≡ (payloads fs, closed)
unfolding read_response wire_all scan_lines events
read_response-wire_all most [] room fits = refl
read_response-wire_all most (f ∷ fs) room (fit, fits) =
    let rest = scan_lines most most [] (wire_all fs) in
    let lines : scan_lines most most [] (wire f ++ wire_all fs)
        ≡ (frame_lines f ++ rest.0, rest.1) =
      scan_lines-wire most f (wire_all fs) room fit ∙ after_lines-append (frame_lines f) rest in
    ap (λ (p : List Text × End). (events [] p.0, p.1)) lines
    ∙ (ap (λ (t : List Text). (t, rest.1)) (event_wire f rest.0)
        ∙ (ap (λ (p : List Text × End). (payloads (f ∷ []) ++ p.0, p.1))
              (read_response-wire_all most fs room fits)
            ∙ ap (λ (t : List Text). (t, closed)) (sym (payloads_cons f fs))))
