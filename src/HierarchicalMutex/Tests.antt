-- ===== src/HierarchicalMutex/Tests.antt =====
-- Mutexes 0, 1 and 2 with the values 100, 50 and 70, and threads that start with 1000.
use sundries.Prelude.{ℕ, ◌≡◌, refl, none, some, [], ◌∷◌, if◌then◌else◌, ◌==◌, arith}
use sundries.HierarchicalMutex.Mutex.{World, new_mutex, returns, lock, unlock, take_mutex}
use sundries.HierarchicalMutex.Session.{Session, locks, Reach, here, next, start}
use sundries.HierarchicalMutex.Deadlock.{WaitsFor, no_deadlock}
use sundries.HierarchicalMutex.Misuse.{unlock-lock, out_of_order}

abbrev values : ℕ → ℕ
values m = if m == 0 then 100 else if m == 1 then 50 else 70

abbrev opening : World
unfolding start new_mutex
opening = (start 1000 values).world

-- Thread 4 takes mutex 0.
abbrev one_held : Session
unfolding take_mutex
one_held = record {
  world = take_mutex 4 0 (start 1000 values).world;
  held = λ t. if t == 4 then 0 ∷ [] else [];
}

one_held-Reach : Reach (start 1000 values) one_held
unfolding start new_mutex lock take_mutex
one_held-Reach = next here (locks 4 0 refl)

no_deadlock_example : ¬ WaitsFor one_held 4 4
no_deadlock_example = no_deadlock 1000 values one_held 4 one_held-Reach

unlock-lock_example :
    ((unlock 4 0 (take_mutex 4 0 (start 1000 values).world)).this_thread_hierarchy_value 4
      ≡ (start 1000 values).world.this_thread_hierarchy_value 4)
    × (((unlock 4 0 (take_mutex 4 0 (start 1000 values).world)).mutex 0).owner ≡ none)
unfolding start new_mutex lock
unlock-lock_example =
    unlock-lock 4 0 4 (start 1000 values).world (take_mutex 4 0 (start 1000 values).world) refl

out_of_order_example :
    (w₁ w₂ w₃ : World) × (lock 4 0 (start 1000 values).world ≡ returns w₁)
    × (lock 4 1 w₁ ≡ returns w₂)
    × ((unlock 4 0 w₂).this_thread_hierarchy_value 4
        ≡ (start 1000 values).world.this_thread_hierarchy_value 4)
    × (lock 4 2 (unlock 4 0 w₂) ≡ returns w₃)
    × ((w₃.mutex 1).owner ≡ some 4)
    × ((w₃.mutex 2).owner ≡ some 4)
unfolding start new_mutex
out_of_order_example =
    out_of_order 4 0 1 2 (start 1000 values).world (omega arith) (omega arith) (omega arith) refl
      refl refl (omega arith) (omega arith) (omega arith) (omega arith)
