-- ===== src/Sdk/Sse.antt =====
-- sdk/go/stream.go: the lines of the response, and the events that they make. A text is a list of
-- bytes here.
pub mod RoundTrip
use knobs.Base.{ℕ, suc, ◌-◌, Bool, true, false, List, [], ◌∷◌, ◌++◌, nat_eq, String}
use knobs.Base.Text.{Text, codes}

-- Line feed and carriage return.
abbrev pub lf : ℕ
lf = 10

abbrev pub cr : ℕ
cr = 13

-- The scanner refuses a line of `maxSSELineLength` bytes and more.
abbrev pub longest_line : ℕ
longest_line = 1048575

-- `bufio.ScanLines` drops one carriage return at the end of a line.
unfoldable pub drop_cr : Text → Text
drop_cr [] = []
drop_cr (c ∷ []) = elim (nat_eq c cr) [ true ↦ [] | false ↦ c ∷ [] ]
drop_cr (c ∷ d ∷ s) = c ∷ drop_cr (d ∷ s)

-- `strings.TrimPrefix(d, " ")`
unfoldable pub trim_space : Text → Text
trim_space [] = []
trim_space (c ∷ s) = elim (nat_eq c b' ') [ true ↦ s | false ↦ c ∷ s ]

pub data Line : Type 0 where
  blank : Line
  comment : Line
  payload : Text → Line
  ignored : Line

-- What follows the prefix `"data:"`, or that it is not there.
unfoldable pub after_prefix : Text → Text → Line
after_prefix [] s = payload (trim_space s)
after_prefix (p ∷ prefix) [] = ignored
after_prefix (p ∷ prefix) (c ∷ s) = elim (nat_eq c p) [
  | true ↦ after_prefix prefix s
  | false ↦ ignored
]

-- The cases of the `switch`.
unfoldable pub classify : Text → Line
classify [] = blank
classify (c ∷ s) = elim (nat_eq c b':') [
  | true ↦ comment
  | false ↦ after_prefix (codes "data:") (c ∷ s)
]

-- `strings.Join(dataLines, "\n")`
unfoldable pub join_lines : List Text → Text
join_lines [] = []
join_lines (l ∷ []) = l
join_lines (l ∷ m ∷ ls) = l ++ (lf ∷ join_lines (m ∷ ls))

-- The data of the event that a blank line ends, before those that follow.
abbrev pub flush : List Text → List Text → List Text
flush [] events = events
flush (l ∷ ls) events = join_lines (l ∷ ls) ∷ events

-- How the response ends: by the server, or by a line that is too long.
pub data End : Type 0 where
  closed : End
  too_long : End

abbrev pub after_line : Text → List Text × End → List Text × End
after_line l (ls, end) = (l ∷ ls, end)

abbrev pub last_line : Text → List Text × End
last_line [] = ([], closed)
last_line (c ∷ l) = (drop_cr (c ∷ l) ∷ [], closed)

-- The scanner's lines: `l` is the one that is read, and `room` how many bytes more it may
-- have; `most` is the number for a new one. A last line without a line feed counts if it is not
-- empty.
unfoldable pub scan_lines : ℕ → ℕ → Text → Text → List Text × End
scan_lines most room l [] = last_line l
scan_lines most ℕ.zero l (c ∷ s) = elim (nat_eq c lf) [
  | true ↦ after_line (drop_cr l) (scan_lines most most [] s)
  | false ↦ ([], too_long)
]
scan_lines most (suc room) l (c ∷ s) = elim (nat_eq c lf) [
  | true ↦ after_line (drop_cr l) (scan_lines most most [] s)
  | false ↦ scan_lines most room (l ++ c ∷ []) s
]

-- The loop over the lines; `held` are the data lines since the last blank one.
unfoldable pub events : List Text → List Text → List Text
events held [] = []
events held (l ∷ ls) = elim (classify l) [
  | blank ↦ flush held (events [] ls)
  | comment ↦ events held ls
  | payload d ↦ events (held ++ d ∷ []) ls
  | ignored ↦ events held ls
]

-- The data of each event of a response, and how it ends, where a line has at most `most` bytes.
unfoldable pub read_response : ℕ → Text → List Text × End
read_response most body = let (lines, end) = scan_lines most most [] body in (events [] lines, end)
