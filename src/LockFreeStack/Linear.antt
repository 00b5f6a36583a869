-- ===== src/LockFreeStack/Linear.antt =====
-- Each move of a thread does to the values what its operation is to do.
use sundries.Prelude.{
  ℕ, ◌≤◌, ◌<◌, ◌≡◌, refl, ap, ◌∙◌, true, Bool-cases, Option-cases, inl, inr, Option, none, some,
  List, ◌∷◌, update, arith,
}
use sundries.ThreadsafeQueue.Heap.{Node}
use sundries.LockFreeStack.Memory.{Memory, same, same-eq}
use sundries.LockFreeStack.Threads.{
  Pc, rests, pushes, enters, looks, swaps, won, checks, takes, drops, rechains, frees, chains,
  leaves, Event, push_call, pop_call, moves, fails, advance, fail_weak, call_push, call_pop, act,
  new_at, push_fails, push_swaps, pop_looks, pop_swaps, takes_data, chains_back, chains_one,
  frees_nodes,
}
use sundries.LockFreeStack.Weights.{one_self, count, live, held, IsChain}
use sundries.LockFreeStack.Chains.{delete_nodes_lem, live-le-one, walk_nodes_lem}
use sundries.LockFreeStack.Found.{found_held, found_referred}
use sundries.LockFreeStack.Invariant.{Others, IsSafe, IsSum}
use sundries.LockFreeStack.Pop.{pop_wins}
use sundries.LockFreeStack.Values.{
  data_at, values, op_of_move, op_of_fail, op_of, IsChain-unique, same_values, missed_lem, Takes,
}

module _ {ℓ} {T : Type ℓ} (others : Others T) (sum : IsSum others) where
  -- Nothing of the stack changes.
  still :
      (p : Pc T) (m : Memory T) (stack : List ℕ)
      → IsSafe p others m stack
      → (stack' : List ℕ) → IsChain m.cell m.head stack'
      → values m.cell stack ≡ values m.cell stack'
  still p m stack v stack' c =
      ap (values m.cell) (IsChain-unique m.cell m.head stack stack' v.chain c)

  -- A node is written that does not stand on the stack.
  writes_off :
      (p : Pc T) (m : Memory T) (stack : List ℕ) (x : ℕ) (n : Node T)
      → IsSafe p others m stack
      → count x stack ≡ 0
      → (stack' : List ℕ) → IsChain (update m.cell x (some n)) m.head stack'
      → values m.cell stack ≡ values (update m.cell x (some n)) stack'
  writes_off p m stack x n v off stack' c =
      same_values m.cell (update m.cell x (some n)) m.head stack stack'
        (λ a h. ground (arith, h, off)) v.chain c

  off_stack :
      (p : Pc T) (m : Memory T) (stack : List ℕ) (x : ℕ)
      → IsSafe p others m stack
      → 0 < held x p
      → count x stack ≡ 0
  off_stack p m stack x v h = omega (arith, v.owned x, live-le-one (m.cell x), h)

  push_fails-Takes :
      (x : ℕ) (m : Memory T) (stack : List ℕ)
      → IsSafe (pushes x) others m stack
      → Takes none m stack (push_fails x m)
  push_fails-Takes x m stack v =
      let (n, e) = found_held others sum (pushes x) m stack x v (omega (arith, one_self x)) in
      let off = off_stack (pushes x) m stack x v (omega (arith, one_self x)) in
      rw e (writes_off (pushes x) m stack x _ v off)

  push_swaps-Takes :
      (x : ℕ) (m : Memory T) (stack : List ℕ)
      → IsSafe (pushes x) others m stack
      → Takes (op_of_move (pushes x) m) m stack (push_swaps x m)
  push_swaps-Takes x m stack v =
      let (n, e) = found_held others sum (pushes x) m stack x v (omega (arith, one_self x)) in
      let links : same n.next m.head ≡ true → IsChain m.cell (some x) (x ∷ stack) =
        λ s. (refl, n, e, rw (same-eq n.next m.head s) v.chain) in
      rw e (elim (Bool-cases (same n.next m.head)) [
        | inl s ↦ rw s (λ stack' c.
            rw e at
              (ap (values m.cell) (IsChain-unique m.cell (some x) stack' (x ∷ stack) c (links s))))
        | inr s ↦ rw s (rw e at (push_fails-Takes x m stack v))
      ])

  pop_looks-Takes :
      (o : Option ℕ) (m : Memory T) (stack : List ℕ)
      → IsSafe (looks o) others m stack
      → Takes none m stack (pop_looks o m)
  pop_looks-Takes none m stack v = still (looks none) m stack v
  pop_looks-Takes (some x) m stack v =
      let (n, e) =
        found_referred others sum (looks (some x)) m stack x v (omega (arith, one_self x)) in
      rw e (still (looks (some x)) m stack v)

  pop_swaps-Takes :
      (x : ℕ) (n : Option ℕ) (m : Memory T) (stack : List ℕ)
      → IsSafe (swaps x n) others m stack
      → Takes (op_of_move (swaps x n) m) m stack (pop_swaps x n m)
  pop_swaps-Takes x n m stack v = elim (Bool-cases (same m.head (some x))) [
    | inl e ↦
        let (ys, f, safe) = pop_wins others sum x n m stack v (same-eq m.head (some x) e) in
        rw e (λ stack' c.
          ap (values m.cell) f
          ∙ ap (λ zs. data_at (m.cell x) ∷ values m.cell zs)
              (IsChain-unique m.cell n ys stack' safe.chain c))
    | inr e ↦ rw e (λ stack' c. missed_lem m.cell m.head stack stack' v.chain c)
  ]

  takes_data-Takes :
      (x : ℕ) (m : Memory T) (stack : List ℕ)
      → IsSafe (won x) others m stack
      → Takes none m stack (takes_data x m)
  takes_data-Takes x m stack v =
      let (n, e) = found_held others sum (won x) m stack x v (omega (arith, one_self x)) in
      let off = off_stack (won x) m stack x v (omega (arith, one_self x)) in
      rw e (writes_off (won x) m stack x _ v off)

  chains_back-Takes :
      (r : Option T) (o : Option ℕ) (ns : List ℕ) (m : Memory T) (stack : List ℕ)
      → IsSafe (rechains r o ns) others m stack
      → Takes none m stack (chains_back r o ns m)
  chains_back-Takes r o ns m stack v =
      rw (walk_nodes_lem ns m.cell (λ a. omega (arith, v.owned a)))
        (still (rechains r o ns) m stack v)

  chains_one-Takes :
      (r : Option T) (o : Option ℕ) (m : Memory T) (stack : List ℕ)
      → IsSafe (chains r o) others m stack
      → Takes none m stack (chains_one r o m)
  chains_one-Takes r none m stack v = tt
  chains_one-Takes r (some x) m stack v =
      let (n, e) =
        found_held others sum (chains r (some x)) m stack x v (omega (arith, one_self x)) in
      rw e (still (chains r (some x)) m stack v)

  frees_nodes-Takes :
      (r : Option T) (ns : List ℕ) (m : Memory T) (stack : List ℕ)
      → IsSafe (frees r ns) others m stack
      → Takes none m stack (frees_nodes r ns m)
  frees_nodes-Takes r ns m stack v =
      let fits : (a : ℕ) → count a ns ≤ live (m.cell a) = λ a. omega (arith, v.owned a) in
      let (cell, e, f, g) = delete_nodes_lem ns m.cell fits in
      let off : (a : ℕ) → 0 < count a stack → cell a ≡ m.cell a =
        λ a h. g a (omega (arith, h, v.owned a, live-le-one (m.cell a))) in
      rw e (λ stack' c. same_values m.cell cell m.head stack stack' off v.chain c)

  new_at-Takes :
      (value : T) (x : ℕ) (r : Option T) (m : Memory T) (stack : List ℕ)
      → IsSafe (rests r) others m stack
      → Takes none m stack (new_at value x r (m.cell x) m)
  new_at-Takes value x r m stack v = elim (Option-cases (m.cell x)) [
    | inl e ↦
        let off : count x stack ≡ 0 = ground (arith, v.owned x, e) in
        rw e (writes_off (rests r) m stack x _ v off)
    | inr (n, e) ↦ rw e (still (rests r) m stack v)
  ]

  advance-Takes :
      (p : Pc T) (m : Memory T) (stack : List ℕ)
      → IsSafe p others m stack
      → Takes (op_of_move p m) m stack (advance p m)
  unfolding advance
  advance-Takes (rests r) m stack v = still (rests r) m stack v
  advance-Takes (pushes x) m stack v = push_swaps-Takes x m stack v
  advance-Takes enters m stack v = λ s c. missed_lem m.cell m.head stack s v.chain c
  advance-Takes (looks o) m stack v = pop_looks-Takes o m stack v
  advance-Takes (swaps x n) m stack v = pop_swaps-Takes x n m stack v
  advance-Takes (won x) m stack v = takes_data-Takes x m stack v
  advance-Takes (checks r o) m stack v = still (checks r o) m stack v
  advance-Takes (takes r o) m stack v = still (takes r o) m stack v
  advance-Takes (drops r o ns) m stack v = still (drops r o ns) m stack v
  advance-Takes (rechains r o ns) m stack v = chains_back-Takes r o ns m stack v
  advance-Takes (frees r ns) m stack v = frees_nodes-Takes r ns m stack v
  advance-Takes (chains r o) m stack v = chains_one-Takes r o m stack v
  advance-Takes (leaves r) m stack v = still (leaves r) m stack v

  fail_weak-Takes :
      (p : Pc T) (m : Memory T) (stack : List ℕ)
      → IsSafe p others m stack
      → Takes (op_of_fail p m) m stack (fail_weak p m)
  unfolding fail_weak
  fail_weak-Takes (pushes x) m stack v = push_fails-Takes x m stack v
  fail_weak-Takes (swaps x n) m stack v = λ s c. missed_lem m.cell m.head stack s v.chain c
  fail_weak-Takes (rests r) m stack v = still (rests r) m stack v
  fail_weak-Takes enters m stack v = still enters m stack v
  fail_weak-Takes (looks o) m stack v = still (looks o) m stack v
  fail_weak-Takes (won x) m stack v = still (won x) m stack v
  fail_weak-Takes (checks r o) m stack v = still (checks r o) m stack v
  fail_weak-Takes (takes r o) m stack v = still (takes r o) m stack v
  fail_weak-Takes (drops r o ns) m stack v = still (drops r o ns) m stack v
  fail_weak-Takes (rechains r o ns) m stack v = still (rechains r o ns) m stack v
  fail_weak-Takes (frees r ns) m stack v = still (frees r ns) m stack v
  fail_weak-Takes (chains r o) m stack v = still (chains r o) m stack v
  fail_weak-Takes (leaves r) m stack v = still (leaves r) m stack v

  call_push-Takes :
      (w : T) (a : ℕ) (p : Pc T) (m : Memory T) (stack : List ℕ)
      → IsSafe p others m stack
      → Takes none m stack (call_push w a p m)
  unfolding call_push
  call_push-Takes w a (rests r) m stack v = new_at-Takes w a r m stack v
  call_push-Takes w a (pushes x) m stack v = still (pushes x) m stack v
  call_push-Takes w a (swaps x n) m stack v = still (swaps x n) m stack v
  call_push-Takes w a enters m stack v = still enters m stack v
  call_push-Takes w a (looks o) m stack v = still (looks o) m stack v
  call_push-Takes w a (won x) m stack v = still (won x) m stack v
  call_push-Takes w a (checks r o) m stack v = still (checks r o) m stack v
  call_push-Takes w a (takes r o) m stack v = still (takes r o) m stack v
  call_push-Takes w a (drops r o ns) m stack v = still (drops r o ns) m stack v
  call_push-Takes w a (rechains r o ns) m stack v = still (rechains r o ns) m stack v
  call_push-Takes w a (frees r ns) m stack v = still (frees r ns) m stack v
  call_push-Takes w a (chains r o) m stack v = still (chains r o) m stack v
  call_push-Takes w a (leaves r) m stack v = still (leaves r) m stack v

  call_pop-Takes :
      (p : Pc T) (m : Memory T) (stack : List ℕ)
      → IsSafe p others m stack
      → Takes none m stack (call_pop p m)
  unfolding call_pop
  call_pop-Takes (rests r) m stack v = still (rests r) m stack v
  call_pop-Takes (pushes x) m stack v = still (pushes x) m stack v
  call_pop-Takes (swaps x n) m stack v = still (swaps x n) m stack v
  call_pop-Takes enters m stack v = still enters m stack v
  call_pop-Takes (looks o) m stack v = still (looks o) m stack v
  call_pop-Takes (won x) m stack v = still (won x) m stack v
  call_pop-Takes (checks r o) m stack v = still (checks r o) m stack v
  call_pop-Takes (takes r o) m stack v = still (takes r o) m stack v
  call_pop-Takes (drops r o ns) m stack v = still (drops r o ns) m stack v
  call_pop-Takes (rechains r o ns) m stack v = still (rechains r o ns) m stack v
  call_pop-Takes (frees r ns) m stack v = still (frees r ns) m stack v
  call_pop-Takes (chains r o) m stack v = still (chains r o) m stack v
  call_pop-Takes (leaves r) m stack v = still (leaves r) m stack v

  pub act-Takes :
      (e : Event T) (p : Pc T) (m : Memory T) (stack : List ℕ)
      → IsSafe p others m stack
      → Takes (op_of e p m) m stack (act e p m)
  unfolding act
  act-Takes (push_call w a) p m stack v = call_push-Takes w a p m stack v
  act-Takes pop_call p m stack v = call_pop-Takes p m stack v
  act-Takes moves p m stack v = advance-Takes p m stack v
  act-Takes fails p m stack v = fail_weak-Takes p m stack v
