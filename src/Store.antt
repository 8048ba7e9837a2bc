-- ===== src/Store.antt =====
-- A JavaScript `Map` with string keys, as the list of its entries in insertion order. The
-- repositories of apps/signaling keep their records in such maps.
pub mod Maps
use remotetab.Prelude.{
  ℕ, ◌≡◌, refl, ◌≢◌, ◌⊎◌, inl, inr, String, Bool, true, false, List, [], ◌∷◌, Option, none, some,
  arith, str_eq, eq_iff, eq_refl, if◌then◌else◌, Bool-cases, length,
}

abbrev pub Store {ℓ} : Type ℓ → Type ℓ
Store V = List (String × V)

module _ {ℓ} {V : Type ℓ} where
  -- `map.get(key)`.
  unfoldable pub lookup : String → Store V → Option V
  lookup key [] = none
  lookup key ((first, value) ∷ rest) = if str_eq first key then some value else lookup key rest

  -- `map.set(key, value)`: in place if the key is there, at the end otherwise.
  unfoldable pub insert : String → V → Store V → Store V
  insert key value [] = (key, value) ∷ []
  insert key value ((first, old) ∷ rest) =
      let behind = insert key value rest in
      if str_eq first key then (first, value) ∷ rest else (first, old) ∷ behind

  -- `map.delete(key)`.
  unfoldable pub erase : String → Store V → Store V
  erase k [] = []
  erase k ((j, w) ∷ m) = let rest = erase k m in if str_eq j k then rest else (j, w) ∷ rest

  -- `map.has(key)`.
  unfoldable pub has : String → Store V → Bool
  has k [] = false
  has k ((j, w) ∷ m) = if str_eq j k then true else has k m

  -- `for (const v of map.values()) if (test(v)) return v;`
  unfoldable pub find_value : (V → Bool) → Store V → Option V
  find_value p [] = none
  find_value p ((j, w) ∷ m) = if p w then some w else find_value p m

  -- `for (const v of map.values()) if (test(v)) out.push(v);`
  unfoldable pub filter_values : (V → Bool) → Store V → List V
  filter_values p [] = []
  filter_values p ((j, w) ∷ m) = let rest = filter_values p m in if p w then w ∷ rest else rest

  -- The entries that stay when each entry that passes the test is deleted during iteration.
  unfoldable pub erase_where : (V → Bool) → Store V → Store V
  erase_where p [] = []
  erase_where p ((j, w) ∷ m) = let rest = erase_where p m in if p w then rest else (j, w) ∷ rest

  pub lookup-insert :
      (key other : String) (value : V) (entries : Store V)
      → lookup other (insert key value entries)
        ≡ (if str_eq key other then some value else lookup other entries)
  unfolding insert lookup
  lookup-insert key other value [] = refl
  lookup-insert key other value ((first, old) ∷ rest) = ground (
    lookup-insert key other value rest,
    eq_iff first key,
    eq_iff first other,
    eq_iff key other,
    arith,
  )

  pub lookup-erase :
      (k j : String) (m : Store V)
      → lookup j (erase k m) ≡ (if str_eq k j then none else lookup j m)
  unfolding lookup erase
  lookup-erase k j [] = ground arith
  lookup-erase k j ((i, w) ∷ m) =
      ground (arith, eq_iff k j, eq_iff i k, eq_iff i j, lookup-erase k j m)

  pub has-lookup : (k : String) (m : Store V) (v : V) → lookup k m ≡ some v → has k m ≡ true
  unfolding lookup has
  has-lookup k [] v e = ground arith
  has-lookup k ((j, w) ∷ m) v e = ground (arith, has-lookup k m v)

  pub lookup_of_has : (k : String) (m : Store V) → has k m ≡ true → (v : V) × (lookup k m ≡ some v)
  unfolding lookup has
  lookup_of_has k [] e = ground arith
  lookup_of_has k ((j, w) ∷ m) e = elim (Bool-cases (str_eq j k)) [
    | inl same ↦ (w, rw same refl)
    | inr other ↦ rw other (lookup_of_has k m (rw other at e))
  ]

  -- A search that finds nothing has refused every value of the map.
  pub find_value-none :
      (p : V → Bool) (k : String) (m : Store V) (v : V)
      → find_value p m ≡ none
      → lookup k m ≡ some v
      → p v ≡ false
  unfolding find_value lookup
  find_value-none p k [] v f e = ground arith
  find_value-none p k ((j, w) ∷ m) v f e = ground (arith, find_value-none p k m v)

  pub find_value-some : (p : V → Bool) (m : Store V) (v : V) → find_value p m ≡ some v → p v ≡ true
  unfolding find_value
  find_value-some p [] v f = ground arith
  find_value-some p ((j, w) ∷ m) v f = ground (arith, find_value-some p m v)

  pub has-insert :
      (k j : String) (v : V) (m : Store V)
      → has j (insert k v m) ≡ (if str_eq k j then true else has j m)
  unfolding has insert
  has-insert k j v [] = refl
  has-insert k j v ((i, w) ∷ m) =
      ground (arith, eq_iff k j, eq_iff i k, eq_iff i j, has-insert k j v m)

  pub has-erase_self : (k : String) (m : Store V) → has k (erase k m) ≡ false
  unfolding has erase
  has-erase_self k [] = refl
  has-erase_self k ((i, w) ∷ m) = ground (arith, eq_iff i k, has-erase_self k m)

  -- What is left after the deletion of the entries that pass a test fails it.
  pub lookup-erase_where :
      (p : V → Bool) (k : String) (m : Store V) (v : V)
      → lookup k (erase_where p m) ≡ some v
      → p v ≡ false
  unfolding lookup erase_where
  lookup-erase_where p k [] v e = ground arith
  lookup-erase_where p k ((j, w) ∷ m) v e = ground (arith, lookup-erase_where p k m v)
