-- ===== src/LookupTable/Keys.antt =====
-- A bucket as a map: what is found under a key, and that no key stands twice.
use sundries.Prelude.{◌≡◌, refl, Option, none, some, [], ◌∷◌, if◌then◌else◌, arith}
use sundries.LookupTable.Bucket
use sundries.LookupTable.Bucket.{KeyEq, Bucket, erase_at, find_entry_for, assign}

abbrev pub get_or {ℓ} : {A : Type ℓ} → Option A → A → A
get_or none d = d
get_or (some a) d = a

module _ {ℓ κ} {K : Type ℓ} {V : Type κ} (e : KeyEq K) where
  abbrev pub lookup : K → Bucket K V → Option V
  lookup key [] = none
  lookup key (item ∷ items) = if e.key_eq item.0 key then some item.1 else lookup key items

  -- The functions of the class, without positions.
  abbrev put : K → V → Bucket K V → Bucket K V
  put key value [] = (key, value) ∷ []
  put key value (item ∷ items) =
      if e.key_eq item.0 key then (item.0, value) ∷ items else item ∷ put key value items

  abbrev drop_first : K → Bucket K V → Bucket K V
  drop_first key [] = []
  drop_first key (item ∷ items) = if e.key_eq item.0 key then items else item ∷ drop_first key items

  pub value_for-lookup :
      (key : K) (default : V) (items : Bucket K V)
      → Bucket.value_for e key default items ≡ get_or (lookup key items) default
  unfolding Bucket.value_for
  value_for-lookup key default [] = refl
  value_for-lookup key default (item ∷ items) = ground (arith, value_for-lookup key default items)

  add-put :
      (key : K) (value : V) (items : Bucket K V)
      → Bucket.add_or_update_mapping e key value items ≡ put key value items
  unfolding Bucket.add_or_update_mapping
  add-put key value [] = refl
  add-put key value (item ∷ items) = ground (arith, add-put key value items)

  remove-drop_first :
      (key : K) (items : Bucket K V) → Bucket.remove_mapping e key items ≡ drop_first key items
  unfolding Bucket.remove_mapping
  remove-drop_first key [] = refl
  remove-drop_first key (item ∷ items) = ground (arith, remove-drop_first key items)

  lookup-put :
      (key j : K) (value : V) (items : Bucket K V)
      → lookup j (put key value items) ≡ (if e.key_eq key j then some value else lookup j items)
  lookup-put key j value [] = refl
  lookup-put key j value (item ∷ items) = grind (arith, lookup-put key j value items, e.key_eq_iff)

  abbrev pub IsUnique : Bucket K V → Type κ
  IsUnique [] = Unit
  IsUnique (item ∷ items) = (lookup item.0 items ≡ none) × IsUnique items

  lookup-drop_first :
      (key j : K) (items : Bucket K V)
      → IsUnique items
      → lookup j (drop_first key items) ≡ (if e.key_eq key j then none else lookup j items)
  lookup-drop_first key j [] u = ground arith
  lookup-drop_first key j (item ∷ items) u = ground (
    arith,
    lookup-drop_first key j items u.1,
    e.key_eq_iff item.0 key,
    e.key_eq_iff item.0 j,
    e.key_eq_iff key j,
  )

  put-IsUnique :
      (key : K) (value : V) (items : Bucket K V) → IsUnique items → IsUnique (put key value items)
  put-IsUnique key value [] u = (refl, tt)
  put-IsUnique key value (item ∷ items) u = ground (
    arith,
    put-IsUnique key value items u.1,
    lookup-put key item.0 value items,
    e.key_eq_iff item.0 key,
    e.key_eq_iff key item.0,
  )

  drop_first-IsUnique :
      (key : K) (items : Bucket K V) → IsUnique items → IsUnique (drop_first key items)
  drop_first-IsUnique key [] u = tt
  drop_first-IsUnique key (item ∷ items) u =
      ground (arith, drop_first-IsUnique key items u.1, lookup-drop_first key item.0 items u.1)

  -- The class's own functions in the same words.
  pub lookup-add :
      (key j : K) (value : V) (items : Bucket K V)
      → lookup j (Bucket.add_or_update_mapping e key value items)
        ≡ (if e.key_eq key j then some value else lookup j items)
  lookup-add key j value items = rw (add-put key value items) (lookup-put key j value items)

  pub add-IsUnique :
      (key : K) (value : V) (items : Bucket K V)
      → IsUnique items
      → IsUnique (Bucket.add_or_update_mapping e key value items)
  add-IsUnique key value items u = rw (add-put key value items) (put-IsUnique key value items u)

  pub lookup-remove :
      (key j : K) (items : Bucket K V)
      → IsUnique items
      → lookup j (Bucket.remove_mapping e key items)
        ≡ (if e.key_eq key j then none else lookup j items)
  lookup-remove key j items u = rw (remove-drop_first key items) (lookup-drop_first key j items u)

  pub remove-IsUnique :
      (key : K) (items : Bucket K V) → IsUnique items → IsUnique (Bucket.remove_mapping e key items)
  remove-IsUnique key items u = rw (remove-drop_first key items) (drop_first-IsUnique key items u)
