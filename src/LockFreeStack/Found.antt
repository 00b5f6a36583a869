-- ===== src/LockFreeStack/Found.antt =====
-- The nodes that a thread holds or may follow are there.
use sundries.Prelude.{ℕ, ◌<◌, ◌≡◌, some, List, arith}
use sundries.ThreadsafeQueue.Heap.{Node}
use sundries.LockFreeStack.Memory.{Memory}
use sundries.LockFreeStack.Threads.{Pc}
use sundries.LockFreeStack.Weights.{held, refers, spared-le-held}
use sundries.LockFreeStack.Chains.{live_found}
use sundries.LockFreeStack.Invariant.{Others, IsSafe, IsSum}

module _ {ℓ} {T : Type ℓ} (others : Others T) (sum : IsSum others) where
  pub found_held :
      (p : Pc T) (m : Memory T) (stack : List ℕ) (x : ℕ)
      → IsSafe p others m stack
      → 0 < held x p
      → (n : Node T) × (m.cell x ≡ some n)
  found_held p m stack x v h = live_found (m.cell x) (omega (arith, v.owned x, h))

  pub found_referred :
      (p : Pc T) (m : Memory T) (stack : List ℕ) (x : ℕ)
      → IsSafe p others m stack
      → 0 < refers x p
      → (n : Node T) × (m.cell x ≡ some n)
  found_referred p m stack x v h =
      let g = v.guarded x (omega (arith, h)) in
      live_found (m.cell x) (omega (arith, g, v.owned x, sum.spared_held x, spared-le-held x p))
