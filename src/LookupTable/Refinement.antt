-- ===== src/LookupTable/Refinement.antt =====
-- The table refines a map from keys to values, whatever the hasher and the number of buckets.
use mathlib.Core.Option.{some-injective}
use sundries.Prelude.{
  ℕ, ◌<◌, ◌≡◌, sym, ap, ◌∙◌, true, false, Option, none, some, [], ◌>>=◌, if◌then◌else◌, ◌==◌,
  ==_iff, get_elem?, set, length, length-set, get_elem?-set, get_elem?-lt, get_elem?-replicate,
  length-replicate, Bool-cases, inl, inr, arith, subst,
}
use sundries.LookupTable.Bucket
use sundries.LookupTable.Bucket.{KeyEq, Bucket}
use sundries.LookupTable.Table
use sundries.LookupTable.Table.{Buckets, new_table, index_of, get_bucket}
use sundries.LookupTable.Keys.{
  get_or, lookup, value_for-lookup, lookup-add, add-IsUnique, lookup-remove, remove-IsUnique,
  IsUnique,
}

module _ {ℓ κ} {K : Type ℓ} {V : Type κ} (e : KeyEq K) (hasher : K → ℕ) where
  -- The map that a table stands for.
  abbrev pub view : Buckets K V → K → Option V
  view t key = get_bucket e hasher key t >>= lookup e key

  pub record IsTable (t : Buckets K V) : Type (ℓ ⊔ κ) where
    pub some_bucket : 0 < length t
    pub unique : (i : ℕ) (b : Bucket K V) → get_elem? t i ≡ some b → IsUnique e b

  index_lt : (key : K) (t : Buckets K V) → 0 < length t → index_of e hasher key t < length t
  index_lt key t pos = omega arith

  -- The bucket of one key is changed.
  abbrev with_bucket : K → Buckets K V → Bucket K V → Buckets K V
  with_bucket key t b = set t (index_of e hasher key t) b

  with_bucket-IsTable :
      (key : K) (t : Buckets K V) (b : Bucket K V)
      → IsTable t
      → IsUnique e b
      → IsTable (with_bucket key t b)
  with_bucket-IsTable key t b w u = record {
    some_bucket = omega (arith, w.some_bucket, length-set t (index_of e hasher key t) b);
    unique = λ i c h.
        let g = get_elem?-set t (index_of e hasher key t) i b (index_lt key t w.some_bucket) in
        elim (Bool-cases (index_of e hasher key t == i)) [
          | inl p ↦ subst (IsUnique e) (some-injective _ _ (sym (rw p at g) ∙ h)) u
          | inr p ↦ w.unique i c (sym (rw p at g) ∙ h)
        ];
  }

  view-with_bucket :
      (key j : K) (t : Buckets K V) (b : Bucket K V)
      → 0 < length t
      → view (with_bucket key t b) j
        ≡ (if index_of e hasher key t == index_of e hasher j t then lookup e j b else view t j)
  unfolding get_bucket
  view-with_bucket key j t b pos = ground (
    arith,
    length-set t (index_of e hasher key t) b,
    get_elem?-set t (index_of e hasher key t) (index_of e hasher j t) b (index_lt key t pos),
  )

  bucket_of :
      (key : K) (t : Buckets K V)
      → IsTable t
      → (b : Bucket K V) × (get_bucket e hasher key t ≡ some b)
  unfolding get_bucket
  bucket_of key t w = get_elem?-lt t (index_of e hasher key t) (index_lt key t w.some_bucket)

  IsUnique-of :
      (key : K) (t : Buckets K V) (b : Bucket K V)
      → IsTable t
      → get_bucket e hasher key t ≡ some b
      → IsUnique e b
  unfolding get_bucket
  IsUnique-of key t b w p = w.unique (index_of e hasher key t) b p

  pub new_table-IsTable : (num_buckets : ℕ) → 0 < num_buckets → IsTable (new_table num_buckets)
  unfolding new_table
  new_table-IsTable n pos = record {
    some_bucket = omega (arith, pos, length-replicate {A = Bucket K V} n []);
    unique = λ i b h. subst (IsUnique e) (sym (get_elem?-replicate n i [] h)) tt;
  }

  pub view-new_table :
      (num_buckets : ℕ) (key : K) → 0 < num_buckets → view (new_table num_buckets) key ≡ none
  unfolding new_table get_bucket
  view-new_table n key pos =
      let (b, p) = bucket_of key (new_table n) (new_table-IsTable n pos) in
      rw p (rw (get_elem?-replicate n _ [] p))

  -- On a table with a bucket, value_for finds what the map has, or else answers the default.
  pub value_for-view :
      (key : K) (default : V) (t : Buckets K V)
      → IsTable t
      → Table.value_for e hasher key default t ≡ some (get_or (view t key) default)
  unfolding Table.value_for
  value_for-view key default t w =
      let (b, p) = bucket_of key t w in rw p (ap some (value_for-lookup e key default b))

  view-bucket :
      (key : K) (t : Buckets K V) (b : Bucket K V)
      → get_bucket e hasher key t ≡ some b
      → view t key ≡ lookup e key b
  view-bucket key t b p = rw p

  same_bucket :
      (key j : K) (t : Buckets K V)
      → (index_of e hasher key t == index_of e hasher j t) ≡ true
      → get_bucket e hasher j t ≡ get_bucket e hasher key t
  unfolding get_bucket
  same_bucket key j t q = ap (get_elem? t) (sym ((==_iff _ _).0 q))

  other_bucket :
      (key j : K) (t : Buckets K V)
      → (index_of e hasher key t == index_of e hasher j t) ≡ false
      → e.key_eq key j ≡ false
  other_bucket key j t q = elim (Bool-cases (e.key_eq key j)) [
    | inl p ↦ cc (
      q,
      (==_iff (index_of e hasher key t) (index_of e hasher j t)).1
          (ap (λ k. index_of e hasher k t) ((e.key_eq_iff key j).0 p)),
    )
    | inr p ↦ p
  ]

  -- A change of the key's own bucket at that key is a change of the map at that key.
  view-change :
      (key j : K) (t : Buckets K V) (b b' : Bucket K V) (r : Option V)
      → IsTable t
      → get_bucket e hasher key t ≡ some b
      → lookup e j b' ≡ (if e.key_eq key j then r else lookup e j b)
      → view (with_bucket key t b') j ≡ (if e.key_eq key j then r else view t j)
  view-change key j t b b' r w p h =
      rw (view-with_bucket key j t b' w.some_bucket)
        (elim (Bool-cases (index_of e hasher key t == index_of e hasher j t)) [
          | inl q ↦ rw (q, view-bucket j t b (same_bucket key j t q ∙ p)) h
          | inr q ↦ rw (q, other_bucket key j t q)
        ])

  -- What an operation does to a table with a bucket: it returns another, whose map is changed at the
  -- key alone, to `r`.
  abbrev pub Changes : Option (Buckets K V) → Buckets K V → K → Option V → Type (ℓ ⊔ κ)
  Changes result t key r =
      (t' : Buckets K V) × (result ≡ some t')
      × IsTable t'
      × ((j : K) → view t' j ≡ (if e.key_eq key j then r else view t j))

  -- add_or_update_mapping makes the map send the key to the value, and every other key where it did.
  pub add-Changes :
      (key : K) (value : V) (t : Buckets K V)
      → IsTable t
      → Changes (Table.add_or_update_mapping e hasher key value t) t key (some value)
  unfolding Table.add_or_update_mapping
  add-Changes key value t w =
      let (b, p) = bucket_of key t w in
      let b' = Bucket.add_or_update_mapping e key value b in
      (
        with_bucket key t b',
        rw p,
        with_bucket-IsTable key t b' w (add-IsUnique e key value b (IsUnique-of key t b w p)),
        λ j. view-change key j t b b' (some value) w p (lookup-add e key j value b),
      )

  -- remove_mapping takes the key out of the map, and leaves every other key as it was.
  pub remove-Changes :
      (key : K) (t : Buckets K V)
      → IsTable t
      → Changes (Table.remove_mapping e hasher key t) t key none
  unfolding Table.remove_mapping
  remove-Changes key t w =
      let (b, p) = bucket_of key t w in
      let b' = Bucket.remove_mapping e key b in
      let u = IsUnique-of key t b w p in
      (
        with_bucket key t b',
        rw p,
        with_bucket-IsTable key t b' w (remove-IsUnique e key b u),
        λ j. view-change key j t b b' none w p (lookup-remove e key j b u),
      )
