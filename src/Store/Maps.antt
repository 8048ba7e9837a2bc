-- ===== src/Store/Maps.antt =====
-- Maps whose keys are distinct, as those that `insert` builds: then what a walk over the values
-- meets is what `lookup` finds.
use remotetab.Prelude.{
  ◌≡◌, refl, String, Bool, true, List, [], ◌∷◌, none, some, arith, str_eq, eq_iff, eq_refl, inl,
  inr, Bool-cases, All,
}
use remotetab.Store.{Store, lookup, insert, find_value, filter_values, lookup-insert}

module _ {ℓ} {V : Type ℓ} where
  abbrev pub IsMap : Store V → Type ℓ
  IsMap [] = Unit
  IsMap ((k, v) ∷ m) = (lookup k m ≡ none) × IsMap m

  pub insert-IsMap : (k : String) (v : V) (m : Store V) → IsMap m → IsMap (insert k v m)
  unfolding insert lookup
  insert-IsMap k v [] h = (refl, tt)
  insert-IsMap k v ((j, w) ∷ m) (n, h) = elim (Bool-cases (str_eq j k)) [
    | inl e ↦ rw e (n, h)
    | inr e ↦
        rw e (ground (arith, lookup-insert k j v m, eq_iff k j, eq_iff j k), insert-IsMap k v m h)
  ]

  lookup_cons :
      (j k : String) (w v : V) (m : Store V)
      → lookup j m ≡ none
      → lookup k m ≡ some v
      → lookup k ((j, w) ∷ m) ≡ some v
  unfolding lookup
  lookup_cons j k w v m n e = ground (arith, eq_iff j k)

  lookup_head : (k : String) (v : V) (m : Store V) → lookup k ((k, v) ∷ m) ≡ some v
  unfolding lookup
  lookup_head k v m = rw (eq_refl k) refl

  pub find_value-lookup :
      (p : V → Bool) (m : Store V) (v : V)
      → IsMap m
      → find_value p m ≡ some v
      → (k : String) × (lookup k m ≡ some v)
  unfolding find_value
  find_value-lookup p [] v h e = cc
  find_value-lookup p ((j, w) ∷ m) v (n, h) e = elim (Bool-cases (p w)) [
    | inl t ↦ (j, ground (arith, lookup_head j w m))
    | inr t ↦
        let (k, f) = find_value-lookup p m v h (ground arith) in (k, lookup_cons j k w v m n f)
  ]

  -- A value of the map, under some key, that passes the test.
  pub record IsHeld (p : V → Bool) (m : Store V) (v : V) : Type ℓ where
    pub key : String
    pub held : lookup key m ≡ some v
    pub passes : p v ≡ true

  All-IsHeld_cons :
      (p : V → Bool) (j : String) (w : V) (m : Store V) (vs : List V)
      → lookup j m ≡ none
      → All (IsHeld p m) vs
      → All (IsHeld p ((j, w) ∷ m)) vs
  All-IsHeld_cons p j w m [] n h = tt
  All-IsHeld_cons p j w m (v ∷ vs) n (x, h) = (
    record { key = x.key; held = lookup_cons j x.key w v m n x.held; passes = x.passes },
    All-IsHeld_cons p j w m vs n h,
  )

  pub filter_values-IsHeld :
      (p : V → Bool) (m : Store V) → IsMap m → All (IsHeld p m) (filter_values p m)
  unfolding filter_values
  filter_values-IsHeld p [] h = tt
  filter_values-IsHeld p ((j, w) ∷ m) (n, h) =
      let rest = All-IsHeld_cons p j w m (filter_values p m) n (filter_values-IsHeld p m h) in
      elim (Bool-cases (p w)) [
        | inl t ↦ rw t (record { key = j; held = lookup_head j w m; passes = t }, rest)
        | inr t ↦ rw t rest
      ]
