-- ===== src/LockFreeStackWithRc/Weights.antt =====
-- Who refers to a node, and who alone has it.
use sundries.Prelude.{
  ℕ, ◌+◌, ◌≤◌, ◌≡◌, refl, Option, none, some, List, [], ◌∷◌, if◌then◌else◌, ◌==◌, arith,
}
use sundries.LockFreeStack.Weights.{one}
use sundries.LockFreeStackWithRc.Memory.{CountedNodePtr, Node, same_counted}
use sundries.LockFreeStackWithRc.Threads.{
  Pc, rests, pushes, looks, reads, swaps, won, adds, lost, frees, frees_lost,
}

-- The nodes of the stack, with their external counts.
abbrev pub Links : Type 0
Links = List (ℕ × ℕ)

abbrev pub linked : ℕ → Links → ℕ
linked a [] = 0
linked a ((x, k) ∷ rest) = one a x + linked a rest

abbrev pub times : ℕ → ℕ → ℕ → ℕ
times a x k = if a == x then k else 0

abbrev pub external : ℕ → Links → ℕ
external a [] = 0
external a ((x, k) ∷ rest) = times a x k + external a rest

module _ {ℓ} {T : Type ℓ} where
  abbrev pub live : Option (Node T) → ℕ
  live none = 0
  live (some n) = 1

  -- The thread alone has the node: before it is linked in, or to delete it.
  abbrev pub sole : ℕ → Pc T → ℕ
  sole a (rests r) = 0
  sole a (pushes x) = one a x
  sole a (looks c) = 0
  sole a (reads x e) = 0
  sole a (swaps x e n) = 0
  sole a (won x e) = 0
  sole a (adds x e r) = 0
  sole a (lost x c) = 0
  sole a (frees x r) = one a x
  sole a (frees_lost x c) = one a x

  -- It took the node off the stack, and has yet to add the external count.
  abbrev pub pending : ℕ → Pc T → ℕ
  pending a (rests r) = 0
  pending a (pushes x) = 0
  pending a (looks c) = 0
  pending a (reads x e) = 0
  pending a (swaps x e n) = 0
  pending a (won x e) = one a x
  pending a (adds x e r) = one a x
  pending a (lost x c) = 0
  pending a (frees x r) = 0
  pending a (frees_lost x c) = 0

  abbrev pub pending_count : ℕ → Pc T → ℕ
  pending_count a (rests r) = 0
  pending_count a (pushes x) = 0
  pending_count a (looks c) = 0
  pending_count a (reads x e) = 0
  pending_count a (swaps x e n) = 0
  pending_count a (won x e) = times a x e
  pending_count a (adds x e r) = times a x e
  pending_count a (lost x c) = 0
  pending_count a (frees x r) = 0
  pending_count a (frees_lost x c) = 0

  -- It counted itself in, and not yet out.
  abbrev pub refers : ℕ → Pc T → ℕ
  refers a (rests r) = 0
  refers a (pushes x) = 0
  refers a (looks c) = 0
  refers a (reads x e) = one a x
  refers a (swaps x e n) = one a x
  refers a (won x e) = one a x
  refers a (adds x e r) = one a x
  refers a (lost x c) = one a x
  refers a (frees x r) = 0
  refers a (frees_lost x c) = 0

  -- It is about to exchange the node for another one than `next`.
  abbrev pub stale : ℕ → CountedNodePtr → Pc T → ℕ
  stale a next (rests r) = 0
  stale a next (pushes x) = 0
  stale a next (looks c) = 0
  stale a next (reads x e) = 0
  stale a next (swaps x e n) = if same_counted n next then 0 else one a x
  stale a next (won x e) = 0
  stale a next (adds x e r) = 0
  stale a next (lost x c) = 0
  stale a next (frees x r) = 0
  stale a next (frees_lost x c) = 0

  pub stale-le-refers : (a : ℕ) (next : CountedNodePtr) (p : Pc T) → stale a next p ≤ refers a p
  stale-le-refers a next (swaps x e n) = ground arith
  stale-le-refers a next (rests r) = omega arith
  stale-le-refers a next (pushes x) = omega arith
  stale-le-refers a next (looks c) = omega arith
  stale-le-refers a next (reads x e) = omega arith
  stale-le-refers a next (won x e) = omega arith
  stale-le-refers a next (adds x e r) = omega arith
  stale-le-refers a next (lost x c) = omega arith
  stale-le-refers a next (frees x r) = omega arith
  stale-le-refers a next (frees_lost x c) = omega arith

  pub pending_count_zero : (a : ℕ) (p : Pc T) → pending a p ≡ 0 → pending_count a p ≡ 0
  pending_count_zero a (won x e) h = ground (arith, h)
  pending_count_zero a (adds x e r) h = ground (arith, h)
  pending_count_zero a (rests r) h = omega arith
  pending_count_zero a (pushes x) h = omega arith
  pending_count_zero a (looks c) h = omega arith
  pending_count_zero a (reads x e) h = omega arith
  pending_count_zero a (swaps x e n) h = omega arith
  pending_count_zero a (lost x c) h = omega arith
  pending_count_zero a (frees x r) h = omega arith
  pending_count_zero a (frees_lost x c) h = omega arith

  -- The nodes from a counted pointer on.
  abbrev pub IsChain : (ℕ → Option (Node T)) → CountedNodePtr → Links → Type ℓ
  IsChain cell c [] = (c.ptr ≡ none) × Unit {ℓ}
  IsChain cell c ((x, k) ∷ rest) =
      (c.ptr ≡ some x)
      × (c.external_count ≡ k)
      × (n : Node T) × (cell x ≡ some n)
      × IsChain cell n.next rest

pub external_zero : (a : ℕ) (links : Links) → linked a links ≡ 0 → external a links ≡ 0
external_zero a [] h = refl
external_zero a ((x, k) ∷ rest) h = ground (arith, external_zero a rest)
