-- ===== src/Store/Keyed.antt =====
-- internal/store: what the UNIQUE constraints of a table come to, whatever the key of a row is made
-- of.
use knobs.Base.{◌≡◌, ◌≢◌, ℕ, ℕ_eq, Bool, true, some, nat_eq_iff, arith}
use knobs.Assoc.{Assoc, lookup, insert, lookup-insert}

module _ {V : Type 0} where
  -- Every row passes the test.
  abbrev pub AllRows : (V → Bool) → Assoc ℕ V → Type 0
  AllRows test m = (id : ℕ) (v : V) → lookup id m ≡ some v → test v ≡ true

  pub insert-AllRows :
      (test : V → Bool) (written : ℕ) (v : V) (m : Assoc ℕ V)
      → AllRows test m
      → test v ≡ true
      → AllRows test (insert written v m)
  insert-AllRows test written v m h fits id w found =
      ground (arith, lookup-insert written id v m, h id w)

  module _ {K : Type 0} (key : V → K) where
    -- No two rows have the same key.
    abbrev pub IsUnique : Assoc ℕ V → Type 0
    IsUnique m =
        (i j : ℕ) (v w : V) → lookup i m ≡ some v → lookup j m ≡ some w → key v ≡ key w → i ≡ j

    pub insert_new-IsUnique :
        (written : ℕ) (v : V) (m : Assoc ℕ V)
        → IsUnique m
        → ((id : ℕ) (w : V) → lookup id m ≡ some w → key w ≢ key v)
        → IsUnique (insert written v m)
    insert_new-IsUnique written v m h fresh i j a b first second same = ground (
      arith,
      lookup-insert written i v m,
      lookup-insert written j v m,
      nat_eq_iff written i,
      nat_eq_iff written j,
      fresh i a,
      fresh j b,
      h i j a b,
    )

    pub insert_kept-IsUnique :
        (written : ℕ) (old v : V) (m : Assoc ℕ V)
        → IsUnique m
        → lookup written m ≡ some old
        → key old ≡ key v
        → IsUnique (insert written v m)
    insert_kept-IsUnique written old v m h found kept i j a b first second same = ground (
      arith,
      lookup-insert written i v m,
      lookup-insert written j v m,
      nat_eq_iff written i,
      nat_eq_iff written j,
      h written j old b,
      h i written a old,
      h i j a b,
    )
