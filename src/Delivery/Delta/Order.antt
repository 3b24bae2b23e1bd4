-- ===== src/Delivery/Delta/Order.antt =====
-- `sort.Strings`, which `ComputeDelta` calls on the removed keys: by code point, which for UTF-8 is
-- the order of the bytes.
use Prim.Native.Char.{code}
use knobs.Base.{
  ℕ, String, ◌≡◌, refl, Bool, true, false, List, [], ◌∷◌, ◌||◌, if◌then◌else◌, ltb, nat_eq, arith,
  contains, ◌==◌, String_eq,
}

abbrev pub code_points : String → List ℕ
code_points (String.◌∷◌ head rest) = code head ∷ code_points rest
code_points String.[] = []

-- Lexicographic.
pub codes_le : List ℕ → List ℕ → Bool
codes_le [] bs = true
codes_le (a ∷ as_) [] = false
codes_le (a ∷ as_) (b ∷ bs) =
    if ltb a b then true else if nat_eq a b then codes_le as_ bs else false

unfoldable pub str_le : String → String → Bool
unfolding codes_le
str_le s t = codes_le (code_points s) (code_points t)

pub insert_sorted : String → List String → List String
insert_sorted s [] = s ∷ []
insert_sorted s (t ∷ ts) = if str_le s t then s ∷ t ∷ ts else t ∷ insert_sorted s ts

unfoldable pub sort_strings : List String → List String
unfolding insert_sorted
sort_strings [] = []
sort_strings (s ∷ ss) = insert_sorted s (sort_strings ss)

codes_le_total : (as_ bs : List ℕ) → codes_le as_ bs ≡ false → codes_le bs as_ ≡ true
unfolding codes_le
codes_le_total [] bs h = ground arith
codes_le_total (a ∷ as_) [] h = refl
codes_le_total (a ∷ as_) (b ∷ bs) h = ground (arith, codes_le_total as_ bs)

pub str_le_total : (s t : String) → str_le s t ≡ false → str_le t s ≡ true
unfolding str_le
str_le_total s t h = codes_le_total (code_points s) (code_points t) h

-- `s` is at most the first of `ts`.
abbrev pub LeHead : String → List String → Type 0
LeHead s [] = Unit
LeHead s (t ∷ ts) = str_le s t ≡ true

abbrev pub IsSorted : List String → Type 0
IsSorted [] = Unit
IsSorted (s ∷ ts) = LeHead s ts × IsSorted ts

insert_sorted-LeHead :
    (x s : String) (ts : List String)
    → str_le x s ≡ true
    → LeHead x ts
    → LeHead x (insert_sorted s ts)
unfolding insert_sorted
insert_sorted-LeHead x s [] p h = p
insert_sorted-LeHead x s (t ∷ ts) p h = ground arith

insert_sorted-IsSorted :
    (s : String) (ts : List String) → IsSorted ts → IsSorted (insert_sorted s ts)
unfolding insert_sorted
insert_sorted-IsSorted s [] h = (tt, tt)
insert_sorted-IsSorted s (t ∷ ts) h =
    ground (arith, insert_sorted-IsSorted s ts h.1, insert_sorted-LeHead t s ts, str_le_total s t)

pub sort_strings-IsSorted : (ts : List String) → IsSorted (sort_strings ts)
unfolding sort_strings
sort_strings-IsSorted [] = tt
sort_strings-IsSorted (t ∷ ts) =
    insert_sorted-IsSorted t (sort_strings ts) (sort_strings-IsSorted ts)

pub contains-insert_sorted :
    (j s : String) (ts : List String) → contains j (insert_sorted s ts) ≡ (s == j) || contains j ts
unfolding insert_sorted
contains-insert_sorted j s [] = refl
contains-insert_sorted j s (t ∷ ts) = ground (arith, contains-insert_sorted j s ts)

pub contains-sort_strings :
    (j : String) (ts : List String) → contains j (sort_strings ts) ≡ contains j ts
unfolding sort_strings
contains-sort_strings j [] = refl
contains-sort_strings j (t ∷ ts) =
    ground (arith, contains-insert_sorted j t (sort_strings ts), contains-sort_strings j ts)
