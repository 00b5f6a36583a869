-- ===== src/LookupTable/Run.antt =====
-- Any sequence of calls on a new table, against a map kept as a function.
use sundries.Prelude.{
  ℕ, ◌<◌, ◌≡◌, refl, ◌∙◌, Option, none, some, List, [], ◌∷◌, ◌>>=◌, if◌then◌else◌,
}
use sundries.LookupTable.Bucket.{KeyEq}
use sundries.LookupTable.Table.{Buckets, new_table, get_bucket}
use sundries.LookupTable.Table
use sundries.LookupTable.Keys.{get_or}
use sundries.LookupTable.Refinement.{
  view-new_table, view, IsTable, new_table-IsTable, value_for-view, add-Changes, remove-Changes,
}

pub data Call {ℓ κ} (K : Type ℓ) (V : Type κ) : Type (ℓ ⊔ κ) where
  adds : K → V → Call K V
  removes : K → Call K V

module _ {ℓ κ} {K : Type ℓ} {V : Type κ} (e : KeyEq K) where
  abbrev pub spec_step : Call K V → (K → Option V) → K → Option V
  spec_step (adds key value) m j = if e.key_eq key j then some value else m j
  spec_step (removes key) m j = if e.key_eq key j then none else m j

  abbrev pub spec_run : List (Call K V) → (K → Option V) → K → Option V
  spec_run [] m = m
  spec_run (c ∷ cs) m = spec_run cs (spec_step c m)

module _ {ℓ κ} {K : Type ℓ} {V : Type κ} (e : KeyEq K) (hasher : K → ℕ) where
  unfoldable pub step : Call K V → Buckets K V → Option (Buckets K V)
  unfolding Table.add_or_update_mapping Table.remove_mapping
  step (adds key value) t = Table.add_or_update_mapping e hasher key value t
  step (removes key) t = Table.remove_mapping e hasher key t

  unfoldable pub run : List (Call K V) → Buckets K V → Option (Buckets K V)
  run [] t = some t
  run (c ∷ cs) t = do t' ← step c t; run cs t'

  step_refines :
      (c : Call K V) (t : Buckets K V)
      → IsTable e hasher t
      → (t' : Buckets K V) × (step c t ≡ some t')
        × IsTable e hasher t'
        × ((j : K) → view e hasher t' j ≡ spec_step e c (view e hasher t) j)
  unfolding step
  step_refines (adds key value) t w = add-Changes e hasher key value t w
  step_refines (removes key) t w = remove-Changes e hasher key t w

  spec_step_ext :
      (c : Call K V) (m n : K → Option V)
      → ((j : K) → m j ≡ n j)
      → (j : K) → spec_step e c m j ≡ spec_step e c n j
  spec_step_ext (adds key value) m n h j = rw (h j)
  spec_step_ext (removes key) m n h j = rw (h j)

  run_refines :
      (cs : List (Call K V)) (t : Buckets K V) (m : K → Option V)
      → IsTable e hasher t
      → ((j : K) → view e hasher t j ≡ m j)
      → (t' : Buckets K V) × (run cs t ≡ some t')
        × IsTable e hasher t'
        × ((j : K) → view e hasher t' j ≡ spec_run e cs m j)
  unfolding run
  run_refines [] t m w h = (t, refl, w, h)
  run_refines (c ∷ cs) t m w h =
      let (t₁, p₁, w₁, h₁) = step_refines c t w in
      let (t₂, p₂, w₂, h₂) =
        run_refines cs t₁ (spec_step e c m) w₁
          (λ j. h₁ j ∙ spec_step_ext c (view e hasher t) m h j) in
      (t₂, rw (p₁, run) p₂, w₂, h₂)

  -- For an operator== of Key that decides equality: after any calls on a new table of at least one
  -- bucket, and whatever the hasher, value_for answers what a map kept as a function answers after the
  -- same calls, or else the default.
  pub run-value_for :
      (num_buckets : ℕ) (cs : List (Call K V)) (key : K) (default : V)
      → 0 < num_buckets
      → (t : Buckets K V) × (run cs (new_table num_buckets) ≡ some t)
        × (Table.value_for e hasher key default t
            ≡ some (get_or (spec_run e cs (λ j. none) key) default))
  run-value_for n cs key default pos =
      let (t, p, w, h) =
        run_refines cs (new_table n) (λ j. none) (new_table-IsTable e hasher n pos)
          (λ j. view-new_table e hasher n j pos) in
      (t, p, value_for-view e hasher key default t w ∙ rw (h key))
