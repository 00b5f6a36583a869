-- ===== src/LookupTable/Table.antt =====
-- class threadsafe_lookup_table. `none` is undefined behaviour: a table without buckets.
use mathlib.Core.Option
use sundries.Prelude.{ℕ, ◌%◌, Option, some, List, [], ◌>>=◌, get_elem?, set, replicate, length}
use sundries.LookupTable.Bucket
use sundries.LookupTable.Bucket.{KeyEq, Bucket}

abbrev pub Buckets {ℓ κ} : Type ℓ → Type κ → Type (ℓ ⊔ κ)
Buckets K V = List (Bucket K V)

unfoldable pub new_table {ℓ κ} : {K : Type ℓ} {V : Type κ} → ℕ → Buckets K V
new_table num_buckets = replicate num_buckets []

module _ {ℓ κ} {K : Type ℓ} {V : Type κ} (e : KeyEq K) (hasher : K → ℕ) where
  abbrev pub index_of : K → Buckets K V → ℕ
  index_of key buckets = hasher key % length buckets

  unfoldable pub get_bucket : K → Buckets K V → Option (Bucket K V)
  get_bucket key buckets = get_elem? buckets (index_of key buckets)

  unfoldable pub value_for : K → V → Buckets K V → Option V
  unfolding get_bucket
  value_for key default buckets =
      Option.map (Bucket.value_for e key default) (get_bucket key buckets)

  unfoldable pub add_or_update_mapping : K → V → Buckets K V → Option (Buckets K V)
  unfolding get_bucket
  add_or_update_mapping key value buckets = do
    b ← get_bucket key buckets
    some (set buckets (index_of key buckets) (Bucket.add_or_update_mapping e key value b))

  unfoldable pub remove_mapping : K → Buckets K V → Option (Buckets K V)
  unfolding get_bucket
  remove_mapping key buckets = do
    b ← get_bucket key buckets
    some (set buckets (index_of key buckets) (Bucket.remove_mapping e key b))
