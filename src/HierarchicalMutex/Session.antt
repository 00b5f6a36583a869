-- ===== src/HierarchicalMutex/Session.antt =====
-- Clients of the mutexes that unlock in the reverse order of locking.
use sundries.Prelude.{ℕ, ◌≡◌, true, List, [], ◌∷◌, update}
use sundries.HierarchicalMutex.Mutex.{World, new_mutex, returns, lock, trylock, unlock}

-- The mutexes that each thread holds, the last taken first.
pub record Session : Type 0 where
  pub world : World
  pub held : ℕ → List ℕ

-- A thread that is refused or blocked changes nothing, nor does a trylock that fails.
pub data Move (s : Session) : Session → Type 0 where
  locks :
      (t m : ℕ) {w : World}
      → lock t m s.world ≡ returns w
      → Move s (record { world = w; held = update s.held t (m ∷ s.held t) })
  trylocks :
      (t m : ℕ) {w : World}
      → trylock t m s.world ≡ returns (true, w)
      → Move s (record { world = w; held = update s.held t (m ∷ s.held t) })
  unlocks :
      (t m : ℕ) {ms : List ℕ}
      → s.held t ≡ m ∷ ms
      → Move s (record { world = unlock t m s.world; held = update s.held t ms })

pub data Reach (s : Session) : Session → Type 0 where
  here : Reach s s
  next : {t u : Session} → Reach s t → Move t u → Reach s u

-- Every thread has the value `top`, and no mutex is held.
unfoldable pub start : ℕ → (ℕ → ℕ) → Session
unfolding new_mutex
start top values = record {
  world = record { this_thread_hierarchy_value = λ t. top; mutex = λ m. new_mutex (values m) };
  held = λ t. [];
}
