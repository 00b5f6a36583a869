-- ===== src/LockFreeStack/Invariant.antt =====
-- The invariant, split into the thread that moves and the sums over the others.
use sundries.Prelude.{ℕ, ◌+◌, ◌^◌, ◌≤◌, ◌<◌, ◌≡◌, Option, some, List}
use sundries.ThreadsafeQueue.Heap.{Node}
use sundries.LockFreeStack.Memory.{Memory, Access, ok, dangling, null_pointer}
use sundries.LockFreeStack.Threads.{Pc}
use sundries.LockFreeStack.Weights.{count, live, held, spared, refers, stale, in_pop, IsChain}

-- `others w` is the sum of a weight over the threads but one.
abbrev pub Others {ℓ} : Type ℓ → Type ℓ
Others T = (Pc T → ℕ) → ℕ

module _ {ℓ} {T : Type ℓ} where
  -- `stack` holds the nodes from `head` on.
  pub record IsSafe (p : Pc T) (others : Others T) (m : Memory T) (stack : List ℕ) : Type ℓ where
    pub chain : IsChain m.cell m.head stack
    -- Every node is held in one place, and is there.
    pub owned :
        (a : ℕ)
        → count a stack + count a m.to_be_deleted + held a p + others (held a) ≡ live (m.cell a)
    pub counted : m.threads_in_pop ≡ in_pop p + others in_pop
    -- No thread is about to delete a node that a thread may follow.
    pub guarded :
        (a : ℕ)
        → 0 < refers a p + others (refers a)
        → 1 ≤ count a stack + count a m.to_be_deleted + spared a p + others (spared a)
    -- What the threads have read of the nodes of the stack is still so.
    pub current :
        (a : ℕ) (n : Node T)
        → m.cell a ≡ some n
        → 0 < count a stack
        → stale a n.next p + others (stale a n.next) ≡ 0

  -- The sums are over threads that are fewer than 2 ^ 32.
  pub record IsSum (others : Others T) : Type ℓ where
    pub few : others in_pop + 1 < 2 ^ 32
    pub spared_held : (a : ℕ) → others (spared a) ≤ others (held a)
    pub refers_in_pop : (a : ℕ) → others (refers a) ≤ others in_pop
    pub stale_refers : (a : ℕ) (next : Option ℕ) → others (stale a next) ≤ others (refers a)

  -- What an access leaves: an intact state, or the null pointer of chain_pending_nodes.
  abbrev pub Kept : Others T → Access (Pc T × Memory T) → Type ℓ
  Kept others (ok (p, m)) = (stack : List ℕ) × IsSafe p others m stack
  Kept others dangling = ⊥ × Unit {ℓ}
  Kept others null_pointer = Unit {ℓ}
