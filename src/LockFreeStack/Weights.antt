-- ===== src/LockFreeStack/Weights.antt =====
-- Who holds a node. A thread weighs 1 for a node that it holds, so that the sum over all threads, the
-- stack and the removed nodes is 1 for a node that is there, and 0 for any other address.
use sundries.Prelude.{
  ℕ, ◌+◌, ◌≤◌, ◌≡◌, Option, none, some, List, [], ◌∷◌, if◌then◌else◌, ◌==◌, count_if, arith,
}
use sundries.ThreadsafeQueue.Heap.{Node}
use sundries.LockFreeStack.Memory.{same}
use sundries.LockFreeStack.Threads.{
  Pc, rests, pushes, enters, looks, swaps, won, checks, takes, drops, rechains, frees, chains,
  leaves, to_list,
}

abbrev pub one : ℕ → ℕ → ℕ
one a x = if a == x then 1 else 0

abbrev pub count : ℕ → List ℕ → ℕ
count a xs = count_if (one a) xs

pub one_self : (a : ℕ) → one a a ≡ 1
one_self a = ground arith

module _ {ℓ} {T : Type ℓ} where
  abbrev pub live : Option (Node T) → ℕ
  live none = 0
  live (some n) = 1

  -- The thread alone will link the node in, hand it on or delete it.
  abbrev pub held : ℕ → Pc T → ℕ
  held a (rests r) = 0
  held a (pushes x) = one a x
  held a enters = 0
  held a (looks o) = 0
  held a (swaps x n) = 0
  held a (won x) = one a x
  held a (checks r o) = count a (to_list o)
  held a (takes r o) = count a (to_list o)
  held a (drops r o ns) = count a ns + count a (to_list o)
  held a (rechains r o ns) = count a ns + count a (to_list o)
  held a (frees r ns) = count a ns
  held a (chains r o) = count a (to_list o)
  held a (leaves r) = 0

  -- Of these, the removed nodes that it has not decided to delete.
  abbrev pub spared : ℕ → Pc T → ℕ
  spared a (rests r) = 0
  spared a (pushes x) = 0
  spared a enters = 0
  spared a (looks o) = 0
  spared a (swaps x n) = 0
  spared a (won x) = one a x
  spared a (checks r o) = count a (to_list o)
  spared a (takes r o) = 0
  spared a (drops r o ns) = count a ns
  spared a (rechains r o ns) = count a ns
  spared a (frees r ns) = 0
  spared a (chains r o) = count a (to_list o)
  spared a (leaves r) = 0

  -- It may still follow its old_head, which it does not hold.
  abbrev pub refers : ℕ → Pc T → ℕ
  refers a (rests r) = 0
  refers a (pushes x) = 0
  refers a enters = 0
  refers a (looks o) = count a (to_list o)
  refers a (swaps x n) = one a x
  refers a (won x) = 0
  refers a (checks r o) = 0
  refers a (takes r o) = 0
  refers a (drops r o ns) = 0
  refers a (rechains r o ns) = 0
  refers a (frees r ns) = 0
  refers a (chains r o) = 0
  refers a (leaves r) = 0

  -- It is about to exchange the node for another one than `next`.
  abbrev pub stale : ℕ → Option ℕ → Pc T → ℕ
  stale a next (rests r) = 0
  stale a next (pushes x) = 0
  stale a next enters = 0
  stale a next (looks o) = 0
  stale a next (swaps x n) = if same n next then 0 else one a x
  stale a next (won x) = 0
  stale a next (checks r o) = 0
  stale a next (takes r o) = 0
  stale a next (drops r o ns) = 0
  stale a next (rechains r o ns) = 0
  stale a next (frees r ns) = 0
  stale a next (chains r o) = 0
  stale a next (leaves r) = 0

  -- Between ++_threads_in_pop and --_threads_in_pop.
  abbrev pub in_pop : Pc T → ℕ
  in_pop (rests r) = 0
  in_pop (pushes x) = 0
  in_pop enters = 1
  in_pop (looks o) = 1
  in_pop (swaps x n) = 1
  in_pop (won x) = 1
  in_pop (checks r o) = 1
  in_pop (takes r o) = 1
  in_pop (drops r o ns) = 1
  in_pop (rechains r o ns) = 0
  in_pop (frees r ns) = 0
  in_pop (chains r o) = 1
  in_pop (leaves r) = 1

  pub spared-le-held : (a : ℕ) (p : Pc T) → spared a p ≤ held a p
  spared-le-held a (rests r) = omega arith
  spared-le-held a (pushes x) = omega arith
  spared-le-held a enters = omega arith
  spared-le-held a (looks o) = omega arith
  spared-le-held a (swaps x n) = omega arith
  spared-le-held a (won x) = omega arith
  spared-le-held a (checks r o) = omega arith
  spared-le-held a (takes r o) = omega arith
  spared-le-held a (drops r o ns) = omega arith
  spared-le-held a (rechains r o ns) = omega arith
  spared-le-held a (frees r ns) = omega arith
  spared-le-held a (chains r o) = omega arith
  spared-le-held a (leaves r) = omega arith

  pub in_pop-le-one : (p : Pc T) → in_pop p ≤ 1
  in_pop-le-one (rests r) = omega arith
  in_pop-le-one (pushes x) = omega arith
  in_pop-le-one enters = omega arith
  in_pop-le-one (looks o) = omega arith
  in_pop-le-one (swaps x n) = omega arith
  in_pop-le-one (won x) = omega arith
  in_pop-le-one (checks r o) = omega arith
  in_pop-le-one (takes r o) = omega arith
  in_pop-le-one (drops r o ns) = omega arith
  in_pop-le-one (rechains r o ns) = omega arith
  in_pop-le-one (frees r ns) = omega arith
  in_pop-le-one (chains r o) = omega arith
  in_pop-le-one (leaves r) = omega arith

  pub refers-le-in_pop : (a : ℕ) (p : Pc T) → refers a p ≤ in_pop p
  refers-le-in_pop a (rests r) = omega arith
  refers-le-in_pop a (pushes x) = omega arith
  refers-le-in_pop a enters = omega arith
  refers-le-in_pop a (looks none) = omega arith
  refers-le-in_pop a (looks (some x)) = ground arith
  refers-le-in_pop a (swaps x n) = ground arith
  refers-le-in_pop a (won x) = omega arith
  refers-le-in_pop a (checks r o) = omega arith
  refers-le-in_pop a (takes r o) = omega arith
  refers-le-in_pop a (drops r o ns) = omega arith
  refers-le-in_pop a (rechains r o ns) = omega arith
  refers-le-in_pop a (frees r ns) = omega arith
  refers-le-in_pop a (chains r o) = omega arith
  refers-le-in_pop a (leaves r) = omega arith

  pub stale-le-refers : (a : ℕ) (next : Option ℕ) (p : Pc T) → stale a next p ≤ refers a p
  stale-le-refers a next (swaps x n) = ground arith
  stale-le-refers a next (rests r) = omega arith
  stale-le-refers a next (pushes x) = omega arith
  stale-le-refers a next enters = omega arith
  stale-le-refers a next (looks o) = omega arith
  stale-le-refers a next (won x) = omega arith
  stale-le-refers a next (checks r o) = omega arith
  stale-le-refers a next (takes r o) = omega arith
  stale-le-refers a next (drops r o ns) = omega arith
  stale-le-refers a next (rechains r o ns) = omega arith
  stale-le-refers a next (frees r ns) = omega arith
  stale-le-refers a next (chains r o) = omega arith
  stale-le-refers a next (leaves r) = omega arith

  -- The nodes from a pointer on.
  abbrev pub IsChain : (ℕ → Option (Node T)) → Option ℕ → List ℕ → Type ℓ
  IsChain cell o [] = (o ≡ none) × Unit {ℓ}
  IsChain cell o (x ∷ xs) = (o ≡ some x) × (n : Node T) × (cell x ≡ some n) × IsChain cell n.next xs
