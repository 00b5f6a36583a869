-- ===== src/LockFreeStackWithRc/Invariant.antt =====
-- The invariant, split into the thread that moves and the sums over the others.
use sundries.Prelude.{ℕ, ◌+◌, ◌≤◌, ◌<◌, ◌≡◌, some}
use sundries.Prelude.Int.{pos_part, neg_part}
use sundries.LockFreeStackWithRc.Memory.{
  Access, ok, dangling, overflows, wraps, int_max, CountedNodePtr, Node, Memory,
}
use sundries.LockFreeStackWithRc.Threads.{Pc}
use sundries.LockFreeStackWithRc.Weights.{
  Links, linked, external, live, sole, pending, pending_count, refers, stale, IsChain,
}

-- `others w` is the sum of a weight over the threads but one.
abbrev pub Others {ℓ} : Type ℓ → Type ℓ
Others T = (Pc T → ℕ) → ℕ

module _ {ℓ} {T : Type ℓ} where
  pub record IsSafe (p : Pc T) (others : Others T) (m : Memory T) (links : Links) : Type ℓ where
    pub chain : IsChain m.cell m.head links
    -- A node is on the stack, or had by one thread, at most.
    pub once :
        (a : ℕ)
        → linked a links + (sole a p + others (sole a)) + (pending a p + others (pending a))
          ≤ live (m.cell a)
    -- The two counts of a node come to the number of threads that refer to it.
    pub balanced :
        (a : ℕ) (n : Node T)
        → m.cell a ≡ some n
        → neg_part n.internal_count
            + (refers a p + others (refers a))
            + linked a links
            + (pending a p + others (pending a))
          ≡ pos_part n.internal_count
            + external a links
            + (pending_count a p + others (pending_count a))
    pub unreleased :
        (a : ℕ) (n : Node T)
        → m.cell a ≡ some n
        → 0 < linked a links + (pending a p + others (pending a))
        → pos_part n.internal_count ≡ 0
    -- An external count is an int.
    pub fits : (a : ℕ) → external a links + (pending_count a p + others (pending_count a)) ≤ int_max
    -- No node is forgotten.
    pub kept :
        (a : ℕ)
        → live (m.cell a)
          ≤ linked a links
            + (sole a p + others (sole a))
            + (pending a p + others (pending a))
            + (refers a p + others (refers a))
    pub guarded : (a : ℕ) → 0 < refers a p + others (refers a) → 1 ≤ live (m.cell a)
    pub unshared : (a : ℕ) → 0 < sole a p + others (sole a) → refers a p + others (refers a) ≡ 0
    -- What the threads have read of a node's next is still so.
    pub current :
        (a : ℕ) (n : Node T) → m.cell a ≡ some n → stale a n.next p + others (stale a n.next) ≡ 0

  pub record IsSum (others : Others T) : Type ℓ where
    pub stale_refers : (a : ℕ) (next : CountedNodePtr) → others (stale a next) ≤ others (refers a)
    pub count_zero : (a : ℕ) → others (pending a) ≡ 0 → others (pending_count a) ≡ 0

  -- What an access leaves: an intact state. An internal count leaves its range only where too many
  -- threads refer to a node.
  abbrev pub Kept : Others T → Access (Pc T × Memory T) → Type ℓ
  Kept others (ok (p, m)) = (links : Links) × IsSafe p others m links
  Kept others dangling = ⊥ × Unit {ℓ}
  Kept others overflows = Unit {ℓ}
  Kept others wraps = ((a : ℕ) × (int_max < others (refers a))) × Unit {ℓ}
