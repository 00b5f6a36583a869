-- ===== src/HierarchicalMutex/Misuse.antt =====
-- Single calls: what lock and unlock undo, and two uses that the class does not guard against.
use sundries.Prelude.{ℕ, ◌<◌, ◌≤◌, ◌≡◌, ◌≢◌, subst, none, some, arith}
use sundries.HierarchicalMutex.Mutex.{World, returns, violated, lock, trylock, unlock, take_mutex}

lock-take : (t m : ℕ) (w : World) {w' : World} → lock t m w ≡ returns w' → take_mutex t m w ≡ w'
unfolding lock
lock-take t m w e = ground arith

unlock-take :
    (t m u : ℕ) (w : World)
    → ((unlock t m (take_mutex t m w)).this_thread_hierarchy_value u
        ≡ w.this_thread_hierarchy_value u)
      × (((unlock t m (take_mutex t m w)).mutex m).owner ≡ none)
unfolding unlock take_mutex
unlock-take t m u w = ground arith

-- Unlocking right after locking gives every thread its value back and frees the mutex.
pub unlock-lock :
    (t m u : ℕ) (w w' : World)
    → lock t m w ≡ returns w'
    → ((unlock t m w').this_thread_hierarchy_value u ≡ w.this_thread_hierarchy_value u)
      × (((unlock t m w').mutex m).owner ≡ none)
unlock-lock t m u w w' e =
    subst
      (λ v.
        ((unlock t m v).this_thread_hierarchy_value u ≡ w.this_thread_hierarchy_value u)
        × (((unlock t m v).mutex m).owner ≡ none))
      (lock-take t m w e) (unlock-take t m u w)

-- A thread whose value is 0, which is what a thread_local has that is never given another, is refused
-- every mutex, by lock and by trylock.
pub zero_violates :
    (t m : ℕ) (w : World)
    → w.this_thread_hierarchy_value t ≡ 0
    → (lock t m w ≡ violated) × (trylock t m w ≡ violated)
unfolding lock trylock
zero_violates t m w e = ground arith

-- Unlocking out of order defeats the check: a thread that takes `a`, takes `b` below it and unlocks
-- `a` first has its value from before `a` back, and may take any free `c` under that value, though it
-- still holds `b`, at or below `c`.
pub out_of_order :
    (t a b c : ℕ) (w : World)
    → a ≢ b
    → a ≢ c
    → b ≢ c
    → (w.mutex a).owner ≡ none
    → (w.mutex b).owner ≡ none
    → (w.mutex c).owner ≡ none
    → (w.mutex b).hierarchy_value < (w.mutex a).hierarchy_value
    → (w.mutex b).hierarchy_value ≤ (w.mutex c).hierarchy_value
    → (w.mutex a).hierarchy_value < w.this_thread_hierarchy_value t
    → (w.mutex c).hierarchy_value < w.this_thread_hierarchy_value t
    → (w₁ w₂ w₃ : World) × (lock t a w ≡ returns w₁)
      × (lock t b w₁ ≡ returns w₂)
      × ((unlock t a w₂).this_thread_hierarchy_value t ≡ w.this_thread_hierarchy_value t)
      × (lock t c (unlock t a w₂) ≡ returns w₃)
      × ((w₃.mutex b).owner ≡ some t)
      × ((w₃.mutex c).owner ≡ some t)
unfolding lock unlock take_mutex
out_of_order t a b c w ab ac bc fa fb fc ba bc' at ct = (
  take_mutex t a w,
  take_mutex t b (take_mutex t a w),
  take_mutex t c (unlock t a (take_mutex t b (take_mutex t a w))),
  ground arith,
  ground arith,
  ground arith,
  ground arith,
  ground arith,
  ground arith,
)
