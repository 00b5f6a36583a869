-- ===== src/LookupTable/Bucket.antt =====
-- class bucket_type: a std::list of pairs. An iterator is a position, `none` for end().
use mathlib.Core.Option
use sundries.Prelude.{
  ℕ, zero, suc, ◌≡◌, ◌↔◌, Bool, true, Option, none, some, List, [], ◌∷◌, ◌++◌, if◌then◌else◌,
  get_elem?, set,
}

-- operator== of the keys.
pub record KeyEq {ℓ} (K : Type ℓ) : Type ℓ where
  pub key_eq : K → K → Bool
  pub key_eq_iff : (j k : K) → (key_eq j k ≡ true) ↔ (j ≡ k)

abbrev pub Bucket {ℓ κ} : Type ℓ → Type κ → Type (ℓ ⊔ κ)
Bucket K V = List (K × V)

-- std::list::erase
unfoldable pub erase_at {ℓ} : {A : Type ℓ} → List A → ℕ → List A
erase_at [] i = []
erase_at (x ∷ xs) zero = xs
erase_at (x ∷ xs) (suc i) = x ∷ erase_at xs i

module _ {ℓ κ} {K : Type ℓ} {V : Type κ} (e : KeyEq K) where
  unfoldable pub find_entry_for : K → Bucket K V → Option ℕ
  find_entry_for key [] = none
  find_entry_for key (item ∷ items) =
      let rest = find_entry_for key items in
      if e.key_eq item.0 key then some 0 else Option.map suc rest

  abbrev second_of : Option (K × V) → V → V
  second_of none default = default
  second_of (some item) default = item.1

  unfoldable pub value_for : K → V → Bucket K V → V
  unfolding find_entry_for
  value_for key default items = elim (find_entry_for key items) [
    | none ↦ default
    | some i ↦ second_of (get_elem? items i) default
  ]

  -- found_entry->second = value, which leaves the key as it is.
  abbrev pub assign : Bucket K V → ℕ → V → Bucket K V
  assign items i value = elim (get_elem? items i) [
    | none ↦ items
    | some item ↦ set items i (item.0, value)
  ]

  unfoldable pub add_or_update_mapping : K → V → Bucket K V → Bucket K V
  unfolding find_entry_for
  add_or_update_mapping key value items = elim (find_entry_for key items) [
    | none ↦ items ++ (key, value) ∷ []
    | some i ↦ assign items i value
  ]

  unfoldable pub remove_mapping : K → Bucket K V → Bucket K V
  unfolding find_entry_for erase_at
  remove_mapping key items = elim (find_entry_for key items) [
    | none ↦ items
    | some i ↦ erase_at items i
  ]
