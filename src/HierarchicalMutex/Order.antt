-- ===== src/HierarchicalMutex/Order.antt =====
-- Each thread holds its mutexes at falling values, its own value being the last.
use mathlib.Core.Option.{some-injective}
use sundries.Prelude.{
  update_ne, ℕ, ◌≤◌, ◌<◌, ◌≡◌, ◌≢◌, refl, sym, ap, subst, ◌⊎◌, inl, inr, Bool-cases, none, some,
  List, [], ◌∷◌, ◌==◌, ==_iff, update, arith,
}
use sundries.HierarchicalMutex.Mutex.{Mutex, take_mutex}
use sundries.HierarchicalMutex.Session.{Session, start}

-- The values that thread `t` had when it took its mutexes, from `v` now back to `top`.
abbrev pub IsChain : ℕ → (ℕ → Mutex) → ℕ → ℕ → List ℕ → Type 0
IsChain top x t v [] = v ≡ top
IsChain top x t v (m ∷ ms) =
    (v ≡ (x m).hierarchy_value)
    × ((x m).owner ≡ some t)
    × (v < (x m).previous_hierarchy_value)
    × IsChain top x t (x m).previous_hierarchy_value ms

abbrev pub Listed : ℕ → List ℕ → Type 0
Listed m [] = ⊥
Listed m (k ∷ ks) = (m ≡ k) ⊎ Listed m ks

pub record IsOrdered (top : ℕ) (s : Session) : Type 0 where
  pub chains :
      (t : ℕ) → IsChain top s.world.mutex t (s.world.this_thread_hierarchy_value t) (s.held t)
  pub owned : (m t : ℕ) → (s.world.mutex m).owner ≡ some t → Listed m (s.held t)

pub start-IsOrdered : (top : ℕ) (values : ℕ → ℕ) → IsOrdered top (start top values)
unfolding start
start-IsOrdered top values = record { chains = λ t. refl; owned = λ m t e. cc }

pub IsChain-le :
    (top : ℕ) (x : ℕ → Mutex) (t v m : ℕ) (ms : List ℕ)
    → IsChain top x t v ms
    → Listed m ms
    → v ≤ (x m).hierarchy_value
IsChain-le top x t v m [] c l = absurd l
IsChain-le top x t v m (k ∷ ks) c (inl e) = rw e (omega arith)
IsChain-le top x t v m (k ∷ ks) c (inr l) =
    omega (arith, IsChain-le top x t (x k).previous_hierarchy_value m ks c.3 l)

-- A chain rests on the mutexes that its thread owns at or above its value.
pub IsChain-frame :
    (top : ℕ) (x y : ℕ → Mutex) (t v : ℕ) (ms : List ℕ)
    → ((m : ℕ) → (x m).owner ≡ some t → v ≤ (x m).hierarchy_value → y m ≡ x m)
    → IsChain top x t v ms
    → IsChain top y t v ms
IsChain-frame top x y t v [] same c = c
IsChain-frame top x y t v (m ∷ ms) same c = rw (same m c.1 (omega arith)) (
  c.0,
  c.1,
  c.2,
  IsChain-frame top x y t (x m).previous_hierarchy_value ms (λ k o l. same k o (omega arith)) c.3,
)

-- Another list for one thread, and more in it.
pub Listed-update :
    (held : ℕ → List ℕ) (t m : ℕ) (ms : List ℕ) (u : ℕ)
    → (Listed m (held t) → Listed m ms)
    → Listed m (held u)
    → Listed m (update held t ms u)
Listed-update held t m ms u more l = elim (Bool-cases (u == t)) [
  | inl e ↦ rw e (more (subst (λ j. Listed m (held j)) ((==_iff u t).0 e) l))
  | inr e ↦ rw e l
]

-- One thread's value, list and chain change; the others' chains stay.
pub chains-update :
    (top : ℕ) (x : ℕ → Mutex) (value : ℕ → ℕ) (held : ℕ → List ℕ) (t v : ℕ) (ms : List ℕ)
    → IsChain top x t v ms
    → ((u : ℕ) → u ≢ t → IsChain top x u (value u) (held u))
    → (u : ℕ) → IsChain top x u (update value t v u) (update held t ms u)
chains-update top x value held t v ms own others u = elim (Bool-cases (u == t)) [
  | inl e ↦ rw e (subst (λ j. IsChain top x j v ms) (sym ((==_iff u t).0 e)) own)
  | inr e ↦ rw e (others u (λ p. cc (e, (==_iff u t).1 p)))
]

module _ (top : ℕ) (s : Session) (o : IsOrdered top s) (t m : ℕ) where
  taken : Mutex
  taken = record (s.world.mutex m) {
    owner = some t;
    previous_hierarchy_value = s.world.this_thread_hierarchy_value t;
  }

  module _ (free : (s.world.mutex m).owner ≡ none)
      (below : (s.world.mutex m).hierarchy_value < s.world.this_thread_hierarchy_value t) where
    not_owned : (u k : ℕ) → (s.world.mutex k).owner ≡ some u → k ≡ m → ⊥
    not_owned u k own e = cc (ap (λ j. (s.world.mutex j).owner) e)

    IsChain-kept :
        (u : ℕ)
        → IsChain top
            (update s.world.mutex m taken)
            u
            (s.world.this_thread_hierarchy_value u)
            (s.held u)
    IsChain-kept u =
        IsChain-frame top s.world.mutex _ u (s.world.this_thread_hierarchy_value u) (s.held u)
          (λ k own l. update_ne s.world.mutex m taken k (not_owned u k own)) (o.chains u)

    IsChain-taken :
        IsChain top
          (update s.world.mutex m taken)
          t
          (s.world.mutex m).hierarchy_value
          (m ∷ s.held t)
    unfolding taken
    IsChain-taken = let e = (==_iff m m).1 refl in rw e (refl, refl, below, IsChain-kept t)

    owned_taken :
        (k u : ℕ)
        → (update s.world.mutex m taken k).owner ≡ some u
        → Listed k (update s.held t (m ∷ s.held t) u)
    unfolding taken
    owned_taken k u own = elim (Bool-cases (k == m)) [
      | inl e ↦
          let same : t ≡ u = some-injective _ _ (rw e at own) in
          subst (λ j. Listed k (update s.held t (m ∷ s.held t) j)) same
            (rw ((==_iff t t).1 refl) (inl ((==_iff k m).0 e)))
      | inr e ↦ Listed-update s.held t k (m ∷ s.held t) u (λ l. inr l) (o.owned k u (rw e at own))
    ]

    pub take-IsOrdered :
        IsOrdered top
          (record { world = take_mutex t m s.world; held = update s.held t (m ∷ s.held t) })
    unfolding take_mutex taken
    take-IsOrdered = record {
      chains =
          chains-update top (update s.world.mutex m taken) s.world.this_thread_hierarchy_value
            s.held t (s.world.mutex m).hierarchy_value (m ∷ s.held t) IsChain-taken
            (λ u ne. IsChain-kept u);
      owned = owned_taken;
    }
