-- ===== src/HierarchicalMutex/Deadlock.antt =====
-- Why clients that unlock in the reverse order of locking cannot deadlock.
use mathlib.Core.Option.{some-injective}
use sundries.Prelude.{
  update_ne, ℕ, ◌<◌, ◌≡◌, ◌≢◌, sym, ap, subst, ◌∙◌, inl, inr, true, Bool-cases, none, some, List,
  ◌∷◌, ◌==◌, ==_iff, update, arith,
}
use sundries.HierarchicalMutex.Mutex.{
  Mutex, World, returns, blocks, lock, trylock, unlock, take_mutex,
}
use sundries.HierarchicalMutex.Session.{
  Session, Move, locks, trylocks, unlocks, Reach, here, next, start,
}
use sundries.HierarchicalMutex.Order.{
  IsChain, IsChain-le, IsChain-frame, Listed, Listed-update, chains-update, IsOrdered,
  start-IsOrdered, take-IsOrdered,
}

module _ (top : ℕ) (s : Session) (o : IsOrdered top s) (t m : ℕ) (ms : List ℕ)
    (last : s.held t ≡ m ∷ ms) where
  IsChain-last : IsChain top s.world.mutex t (s.world.this_thread_hierarchy_value t) (m ∷ ms)
  IsChain-last =
      subst (IsChain top s.world.mutex t (s.world.this_thread_hierarchy_value t)) last (o.chains t)

  released : Mutex
  released = record (s.world.mutex m) { owner = none }

  IsChain-released :
      IsChain top (update s.world.mutex m released) t (s.world.mutex m).previous_hierarchy_value ms
  IsChain-released =
      IsChain-frame top s.world.mutex _ t (s.world.mutex m).previous_hierarchy_value ms
        (λ k own l. update_ne s.world.mutex m released k (λ e. absurd (
          omega (
            arith,
            IsChain-last.0,
            IsChain-last.2,
            ap (λ j. (s.world.mutex j).hierarchy_value) e,
          ))))
        IsChain-last.3

  IsChain-other :
      (u : ℕ)
      → u ≢ t
      → IsChain top
          (update s.world.mutex m released)
          u
          (s.world.this_thread_hierarchy_value u)
          (s.held u)
  IsChain-other u ne =
      IsChain-frame top s.world.mutex _ u (s.world.this_thread_hierarchy_value u) (s.held u)
        (λ k own l. update_ne s.world.mutex m released k (λ e.
          ne (some-injective _ _ (sym own ∙ ap (λ j. (s.world.mutex j).owner) e ∙ IsChain-last.1))))
        (o.chains u)

  owned_released :
      (k u : ℕ)
      → (update s.world.mutex m released k).owner ≡ some u
      → Listed k (update s.held t ms u)
  unfolding released
  owned_released k u own = elim (Bool-cases (k == m)) [
    | inl e ↦ absurd (cc (rw e at own))
    | inr e ↦
        Listed-update s.held t k ms u
          (λ l. elim (subst (Listed k) last l) [
            | inl p ↦ absurd (cc (e, (==_iff k m).1 p))
            | inr r ↦ r
          ])
          (o.owned k u (rw e at own))
  ]

  unlock-IsOrdered :
      IsOrdered top (record { world = unlock t m s.world; held = update s.held t ms })
  unfolding unlock released
  unlock-IsOrdered = record {
    chains =
        chains-update top (update s.world.mutex m released) s.world.this_thread_hierarchy_value
          s.held t (s.world.mutex m).previous_hierarchy_value ms IsChain-released IsChain-other;
    owned = owned_released;
  }

lock-returns :
    (t m : ℕ) (v : World) {w : World}
    → lock t m v ≡ returns w
    → (take_mutex t m v ≡ w)
      × ((v.mutex m).owner ≡ none)
      × ((v.mutex m).hierarchy_value < v.this_thread_hierarchy_value t)
unfolding lock
lock-returns t m v e = ground arith

trylock-returns :
    (t m : ℕ) (v : World) {w : World}
    → trylock t m v ≡ returns (true, w)
    → (take_mutex t m v ≡ w)
      × ((v.mutex m).owner ≡ none)
      × ((v.mutex m).hierarchy_value < v.this_thread_hierarchy_value t)
unfolding trylock
trylock-returns t m v e = ground arith

Move-IsOrdered : (top : ℕ) {s u : Session} → Move s u → IsOrdered top s → IsOrdered top u
Move-IsOrdered top {s} (locks t m e) o =
    let (w, free, below) = lock-returns t m s.world e in
    subst (λ w. IsOrdered top (record { world = w; held = update s.held t (m ∷ s.held t) })) w
      (take-IsOrdered top s o t m free below)
Move-IsOrdered top {s} (trylocks t m e) o =
    let (w, free, below) = trylock-returns t m s.world e in
    subst (λ w. IsOrdered top (record { world = w; held = update s.held t (m ∷ s.held t) })) w
      (take-IsOrdered top s o t m free below)
Move-IsOrdered top {s} (unlocks t m {ms} last) o = unlock-IsOrdered top s o t m ms last

Reach-IsOrdered : (top : ℕ) {s u : Session} → Reach s u → IsOrdered top s → IsOrdered top u
Reach-IsOrdered top here o = o
Reach-IsOrdered top (next r mv) o = Move-IsOrdered top mv (Reach-IsOrdered top r o)

-- A thread passed the check for a mutex, and waits for another thread that holds it.
pub data Waits (s : Session) (t u : ℕ) : Type 0 where
  on : (m : ℕ) → lock t m s.world ≡ blocks → (s.world.mutex m).owner ≡ some u → Waits s t u

pub data WaitsFor (s : Session) (t : ℕ) : ℕ → Type 0 where
  directly : {u : ℕ} → Waits s t u → WaitsFor s t u
  through : {u v : ℕ} → WaitsFor s t u → Waits s u v → WaitsFor s t v

lock-blocks :
    (t m : ℕ) (w : World)
    → lock t m w ≡ blocks
    → (w.mutex m).hierarchy_value < w.this_thread_hierarchy_value t
unfolding lock
lock-blocks t m w e = ground arith

Waits-lt :
    (top : ℕ) (s : Session) (t u : ℕ)
    → IsOrdered top s
    → Waits s t u
    → s.world.this_thread_hierarchy_value u < s.world.this_thread_hierarchy_value t
Waits-lt top s t u o (on m e own) = omega (
  arith,
  lock-blocks t m s.world e,
  IsChain-le top s.world.mutex u (s.world.this_thread_hierarchy_value u) m (s.held u) (o.chains u)
      (o.owned m u own),
)

WaitsFor-lt :
    (top : ℕ) (s : Session) (t : ℕ) {u : ℕ}
    → IsOrdered top s
    → WaitsFor s t u
    → s.world.this_thread_hierarchy_value u < s.world.this_thread_hierarchy_value t
WaitsFor-lt top s t o (directly {u} w) = Waits-lt top s t u o w
WaitsFor-lt top s t o (through {u} {v} r w) =
    omega (arith, WaitsFor-lt top s t o r, Waits-lt top s u v o w)

-- Threads that start with one value and unlock in the reverse order of locking never deadlock: in no
-- state that they reach, whatever the mutexes' values, does a thread wait, directly or through
-- others, for itself.
pub no_deadlock :
    (top : ℕ) (values : ℕ → ℕ) (s : Session) (t : ℕ) → Reach (start top values) s → ¬ WaitsFor s t t
no_deadlock top values s t r w =
    absurd
      (omega (arith, WaitsFor-lt top s t (Reach-IsOrdered top r (start-IsOrdered top values)) w))
