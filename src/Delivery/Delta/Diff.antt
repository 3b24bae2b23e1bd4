-- ===== src/Delivery/Delta/Diff.antt =====
-- The loops of `diffValues` and `diffTargeting`.
use knobs.Base.{
  String, ◌≡◌, refl, Bool, false, Option, none, some, List, [], ◌∷◌, ◌++◌, ◌&&◌, ◌||◌, not,
  if◌then◌else◌, HasEq, ◌==◌, String_eq, or_else, is_some, contains, arith, contains-snoc,
  Bool-cases, inl, inr,
}
use knobs.Assoc.{
  Assoc, lookup, insert, IsMap, IsGoMap, lookup-insert, insert-IsMap, GoMap, nil_map, made, entries,
  get,
}
use knobs.Delivery.Delta.Order.{
  sort_strings, contains-sort_strings, IsSorted, sort_strings-IsSorted,
}

pub record FieldDelta (V : Type 0) : Type 0 where
  pub set : GoMap V
  pub remove : List String

module _ {V : Type 0} ⦃e : HasEq V⦄ where
  -- `if set == nil { set = map[string]any{} }; set[k] = v`
  abbrev pub put : String → V → GoMap V → GoMap V
  put k v nil_map = made (insert k v [])
  put k v (made m) = made (insert k v m)

  -- `ok && reflect.DeepEqual(ov, nv)`
  abbrev pub unchanged : Option V → V → Bool
  unchanged none nv = false
  unchanged (some ov) nv = ov == nv

  -- `for k, nv := range new { ... }`
  pub set_loop : GoMap V → Assoc String V → GoMap V → GoMap V
  set_loop old [] set = set
  set_loop old ((k, nv) ∷ new) set =
      set_loop old new (if unchanged (get k old) nv then set else put k nv set)

  -- `for k := range old { ... }`
  pub remove_loop : Assoc String V → GoMap V → List String → List String
  remove_loop [] new remove = remove
  remove_loop ((k, ov) ∷ old) new remove =
      remove_loop old new (if is_some (get k new) then remove else remove ++ k ∷ [])

  unfoldable pub diff : GoMap V → GoMap V → FieldDelta V
  unfolding set_loop remove_loop sort_strings
  diff old new = record {
    set = set_loop old (entries new) nil_map;
    remove = sort_strings (remove_loop (entries old) new []);
  }

  -- What the delta sets at a key that holds `nv` now and held `ov` before.
  abbrev pub changed : Option V → Option V → Option V
  changed ov none = none
  changed ov (some nv) = if unchanged ov nv then none else some nv

  get-put :
      (j k : String) (v : V) (m : GoMap V)
      → get j (put k v m) ≡ (if k == j then some v else get j m)
  get-put j k v nil_map = lookup-insert k j v []
  get-put j k v (made m) = lookup-insert k j v m

  set_loop_lem :
      (j : String) (old : GoMap V) (new : Assoc String V) (set : GoMap V)
      → IsMap new
      → get j (set_loop old new set) ≡ or_else (changed (get j old) (lookup j new)) (get j set)
  unfolding set_loop lookup
  set_loop_lem j old [] set h = refl
  set_loop_lem j old ((k, nv) ∷ new) set (fresh, h) = ground (
    arith,
    set_loop_lem j old new (if unchanged (get k old) nv then set else put k nv set) h,
    get-put j k nv set,
    String_eq.equal_iff k j,
  )

  remove_loop_lem :
      (j : String) (old : Assoc String V) (new : GoMap V) (remove : List String)
      → contains j (remove_loop old new remove)
        ≡ contains j remove || (is_some (lookup j old) && not (is_some (get j new)))
  unfolding remove_loop lookup
  remove_loop_lem j [] new remove = ground arith
  remove_loop_lem j ((k, ov) ∷ old) new remove = ground (
    arith,
    remove_loop_lem j old new (if is_some (get k new) then remove else remove ++ k ∷ []),
    contains-snoc j k remove,
    String_eq.equal_iff k j,
  )

  pub get-diff-set :
      (j : String) (old new : GoMap V)
      → IsGoMap new
      → get j (diff old new).set ≡ changed (get j old) (get j new)
  unfolding diff lookup
  get-diff-set j old new h = ground (arith, set_loop_lem j old (entries new) nil_map h)

  pub contains-diff-remove :
      (j : String) (old new : GoMap V)
      → contains j (diff old new).remove ≡ is_some (get j old) && not (is_some (get j new))
  unfolding diff
  contains-diff-remove j old new = ground (
    arith,
    contains-sort_strings j (remove_loop (entries old) new []),
    remove_loop_lem j (entries old) new [],
  )

  put-IsMap : (k : String) (v : V) (m : GoMap V) → IsGoMap m → IsGoMap (put k v m)
  put-IsMap k v nil_map h = insert-IsMap k v [] tt
  put-IsMap k v (made m) h = insert-IsMap k v m h

  set_loop-IsMap :
      (old : GoMap V) (new : Assoc String V) (set : GoMap V)
      → IsGoMap set
      → IsGoMap (set_loop old new set)
  unfolding set_loop
  set_loop-IsMap old [] set h = h
  set_loop-IsMap old ((k, nv) ∷ new) set h = elim (Bool-cases (unchanged (get k old) nv)) [
    | inl same ↦ rw same (set_loop-IsMap old new set h)
    | inr other ↦ rw other (set_loop-IsMap old new (put k nv set) (put-IsMap k nv set h))
  ]

  pub diff-set-IsMap : (old new : GoMap V) → IsGoMap (diff old new).set
  unfolding diff
  diff-set-IsMap old new = set_loop-IsMap old (entries new) nil_map tt

  pub diff-remove-IsSorted : (old new : GoMap V) → IsSorted (diff old new).remove
  unfolding diff
  diff-remove-IsSorted old new = sort_strings-IsSorted (remove_loop (entries old) new [])
