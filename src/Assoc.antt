-- ===== src/Assoc.antt =====
-- Go's maps as association lists: `m[k]`, `m[k] = v`, `delete(m, k)`, and the copying loop
-- `for k, v := range src { dst[k] = v }`. The order of the entries stands for the order in which
-- `range` happens to visit them.
use knobs.Base.{
  ◌≡◌, refl, Option, none, some, List, [], ◌∷◌, HasEq, ◌==◌, if◌then◌else◌, or_else, arith,
  contains, String, String_eq,
}

abbrev pub Assoc {ℓ κ} : Type ℓ → Type κ → Type (ℓ ⊔ κ)
Assoc K V = List (K × V)

module _ {ℓ κ} {K : Type ℓ} {V : Type κ} ⦃e : HasEq K⦄ where
  unfoldable pub lookup : K → Assoc K V → Option V
  lookup k [] = none
  lookup k (entry ∷ m) = if entry.0 == k then some entry.1 else lookup k m

  -- `m[k] = v`
  unfoldable pub insert : K → V → Assoc K V → Assoc K V
  insert k v [] = (k, v) ∷ []
  insert k v (entry ∷ m) = if entry.0 == k then (entry.0, v) ∷ m else entry ∷ insert k v m

  -- `delete(m, k)`
  unfoldable pub delete : K → Assoc K V → Assoc K V
  delete k [] = []
  delete k ((j, w) ∷ m) = if j == k then delete k m else (j, w) ∷ delete k m

  -- `for k, v := range src { dst[k] = v }`
  unfoldable pub copy_into : Assoc K V → Assoc K V → Assoc K V
  copy_into [] dst = dst
  copy_into ((k, v) ∷ src) dst = copy_into src (insert k v dst)

  -- `for _, k := range ks { delete(m, k) }`
  unfoldable pub delete_all : List K → Assoc K V → Assoc K V
  delete_all [] m = m
  delete_all (k ∷ ks) m = delete_all ks (delete k m)

  -- Every key stands in one entry only, as in every Go map.
  abbrev pub IsMap : Assoc K V → Type κ
  IsMap [] = Unit
  IsMap ((k, v) ∷ m) = (lookup k m ≡ none) × IsMap m

  -- What a key holds after a write, whether or not it is the key written.
  pub lookup-insert :
      (written read : K) (v : V) (m : Assoc K V)
      → lookup read (insert written v m) ≡ (if written == read then some v else lookup read m)
  unfolding insert lookup
  lookup-insert written read v (entry ∷ m) = ground (
    arith,
    lookup-insert written read v m,
    e.equal_iff entry.0 written,
    e.equal_iff entry.0 read,
    e.equal_iff written read,
  )
  lookup-insert written read v [] = refl

  pub lookup-delete :
      (k j : K) (m : Assoc K V) → lookup j (delete k m) ≡ (if k == j then none else lookup j m)
  unfolding lookup delete
  lookup-delete k j [] = ground arith
  lookup-delete k j ((i, w) ∷ m) =
      ground (arith, e.equal_iff k j, e.equal_iff i k, e.equal_iff i j, lookup-delete k j m)

  pub lookup-copy_into :
      (j : K) (src dst : Assoc K V)
      → IsMap src
      → lookup j (copy_into src dst) ≡ or_else (lookup j src) (lookup j dst)
  unfolding lookup copy_into
  lookup-copy_into j [] dst h = refl
  lookup-copy_into j ((k, v) ∷ src) dst (fresh, h) =
      ground
        (arith, lookup-copy_into j src (insert k v dst) h, lookup-insert k j v dst, e.equal_iff k j)

  pub lookup-delete_all :
      (j : K) (ks : List K) (m : Assoc K V)
      → lookup j (delete_all ks m) ≡ (if contains j ks then none else lookup j m)
  unfolding delete_all
  lookup-delete_all j [] m = refl
  lookup-delete_all j (k ∷ ks) m =
      ground (arith, lookup-delete_all j ks (delete k m), lookup-delete k j m, e.equal_iff k j)

  -- The operations keep the keys apart.
  pub insert-IsMap : (k : K) (v : V) (m : Assoc K V) → IsMap m → IsMap (insert k v m)
  unfolding insert lookup
  insert-IsMap k v [] h = (refl, tt)
  insert-IsMap k v ((j, w) ∷ m) h =
      ground
        (arith, insert-IsMap k v m h.1, lookup-insert k j v m, e.equal_iff k j, e.equal_iff j k)

  pub delete-IsMap : (k : K) (m : Assoc K V) → IsMap m → IsMap (delete k m)
  unfolding delete
  delete-IsMap k [] h = tt
  delete-IsMap k ((j, w) ∷ m) h =
      ground (arith, delete-IsMap k m h.1, lookup-delete k j m, e.equal_iff k j, e.equal_iff j k)

  pub copy_into-IsMap : (src dst : Assoc K V) → IsMap dst → IsMap (copy_into src dst)
  unfolding copy_into
  copy_into-IsMap [] dst h = h
  copy_into-IsMap ((k, v) ∷ src) dst h =
      copy_into-IsMap src (insert k v dst) (insert-IsMap k v dst h)

  pub delete_all-IsMap : (ks : List K) (m : Assoc K V) → IsMap m → IsMap (delete_all ks m)
  unfolding delete_all
  delete_all-IsMap [] m h = h
  delete_all-IsMap (k ∷ ks) m h = delete_all-IsMap ks (delete k m) (delete-IsMap k m h)

-- A map with string keys that may be nil: it reads as an empty one.
pub data GoMap {ℓ} (V : Type ℓ) : Type ℓ where
  nil_map : GoMap V
  made : Assoc String V → GoMap V

module _ {ℓ} {V : Type ℓ} where
  abbrev pub entries : GoMap V → Assoc String V
  entries nil_map = []
  entries (made m) = m

  abbrev pub get : String → GoMap V → Option V
  get k m = lookup k (entries m)

  -- No key is held twice.
  abbrev pub IsGoMap : GoMap V → Type ℓ
  IsGoMap m = IsMap (entries m)

  -- The two maps hold the same entries, whether nil or not and in whatever order.
  abbrev pub SameMap : GoMap V → GoMap V → Type ℓ
  SameMap m n = (k : String) → get k m ≡ get k n

  -- `if m == nil { m = map[string]V{} }`
  abbrev pub or_made : GoMap V → GoMap V
  or_made nil_map = made []
  or_made (made m) = made m

  pub get-or_made : (k : String) (m : GoMap V) → get k (or_made m) ≡ get k m
  get-or_made k nil_map = refl
  get-or_made k (made m) = refl

  pub or_made-IsGoMap : (m : GoMap V) → IsGoMap m → IsGoMap (or_made m)
  or_made-IsGoMap nil_map h = h
  or_made-IsGoMap (made m) h = h
