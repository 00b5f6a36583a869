-- ===== src/LockFreeStack/Untouched.antt =====
-- A move of one thread leaves the nodes alone that other threads hold.
use sundries.Prelude.{
  ℕ, ◌≤◌, ◌<◌, ◌≡◌, refl, ap, ◌∙◌, Bool-cases, Option-cases, inl, inr, Option, none, some, List,
  ◌∷◌, ◌++◌, update, arith,
}
use sundries.ThreadsafeQueue.Heap.{Node}
use sundries.LockFreeStack.Memory.{
  Memory, Access, ok, dangling, null_pointer, ◌>>=◌, same, read, walk_nodes,
}
use sundries.LockFreeStack.Threads.{
  Pc, rests, pushes, enters, looks, swaps, won, checks, takes, drops, rechains, frees, chains,
  leaves, Event, push_call, pop_call, moves, fails, advance, fail_weak, call_push, call_pop, act,
  new_at, push_fails, push_swaps, pop_looks, pop_swaps, takes_data, chains_one, frees_nodes,
}
use sundries.LockFreeStack.Weights.{one_self, count, live, held}
use sundries.LockFreeStack.Chains.{delete_nodes_lem, live-le-one}
use sundries.LockFreeStack.Invariant.{Others, IsSafe}
use sundries.LockFreeStack.Values.{data_at}
use sundries.LockFreeStack.History.{Phase}
use sundries.LockFreeStack.Due.{IsDue}

module _ {ℓ} {T : Type ℓ} (others : Others T) where
  abbrev pub LeavesAlone : Memory T → Access (Pc T × Memory T) → Type ℓ
  LeavesAlone m (ok (p, m')) = (a : ℕ) → 0 < others (held a) → m'.cell a ≡ m.cell a
  LeavesAlone m dangling = Unit {ℓ}
  LeavesAlone m null_pointer = Unit {ℓ}

  -- Nothing is written.
  reads_only {κ} :
      {A : Type κ} (a : Access A) (p : A → Pc T) (f : A → Memory T) (m : Memory T)
      → ((v : A) → (f v).cell ≡ m.cell)
      → LeavesAlone m (a >>= λ v. ok (p v, f v))
  reads_only (ok v) p f m e = λ a h. ap (λ c. c a) (e v)
  reads_only dangling p f m e = tt
  reads_only null_pointer p f m e = tt

  -- The node written is the thread's own.
  own_write :
      (p : Pc T) (m : Memory T) (stack : List ℕ) (x : ℕ) (c : Option (Node T))
      → IsSafe p others m stack
      → 0 < held x p
      → (a : ℕ) → 0 < others (held a)
      → update m.cell x c a ≡ m.cell a
  own_write p m stack x c v h a r = grind (arith, v.owned a, live-le-one (m.cell a), h, r)

  push_fails-LeavesAlone :
      (x : ℕ) (m : Memory T) (stack : List ℕ)
      → IsSafe (pushes x) others m stack
      → LeavesAlone m (push_fails x m)
  push_fails-LeavesAlone x m stack v = elim (Option-cases (m.cell x)) [
    | inl f ↦ rw f tt
    | inr (n, f) ↦ rw f (own_write (pushes x) m stack x _ v (omega (arith, one_self x)))
  ]

  push_swaps-LeavesAlone :
      (x : ℕ) (m : Memory T) (stack : List ℕ)
      → IsSafe (pushes x) others m stack
      → LeavesAlone m (push_swaps x m)
  push_swaps-LeavesAlone x m stack v = elim (Option-cases (m.cell x)) [
    | inl f ↦ rw f tt
    | inr (n, f) ↦ rw f (elim (Bool-cases (same n.next m.head)) [
      | inl s ↦ rw s (λ a h. refl)
      | inr s ↦ rw s (rw f at (push_fails-LeavesAlone x m stack v))
    ])
  ]

  pop_looks-LeavesAlone : (o : Option ℕ) (m : Memory T) → LeavesAlone m (pop_looks o m)
  pop_looks-LeavesAlone none m = λ a h. refl
  pop_looks-LeavesAlone (some x) m =
      reads_only (read x m) (λ n. swaps x n.next) (λ n. m) m (λ n. refl)

  pop_swaps-LeavesAlone : (x : ℕ) (n : Option ℕ) (m : Memory T) → LeavesAlone m (pop_swaps x n m)
  pop_swaps-LeavesAlone x n m = elim (Bool-cases (same m.head (some x))) [
    | inl e ↦ rw e (λ a h. refl)
    | inr e ↦ rw e (λ a h. refl)
  ]

  takes_data-LeavesAlone :
      (x : ℕ) (m : Memory T) (stack : List ℕ)
      → IsSafe (won x) others m stack
      → LeavesAlone m (takes_data x m)
  takes_data-LeavesAlone x m stack v = elim (Option-cases (m.cell x)) [
    | inl f ↦ rw f tt
    | inr (n, f) ↦ rw f (own_write (won x) m stack x _ v (omega (arith, one_self x)))
  ]

  frees_nodes-LeavesAlone :
      (r : Option T) (ns : List ℕ) (m : Memory T) (stack : List ℕ)
      → IsSafe (frees r ns) others m stack
      → LeavesAlone m (frees_nodes r ns m)
  frees_nodes-LeavesAlone r ns m stack v =
      let fits : (a : ℕ) → count a ns ≤ live (m.cell a) = λ a. omega (arith, v.owned a) in
      let (cell, e, f, g) = delete_nodes_lem ns m.cell fits in
      rw e (λ a h. g a (omega (arith, h, v.owned a, live-le-one (m.cell a))))

  chains_one-LeavesAlone :
      (r : Option T) (o : Option ℕ) (m : Memory T) → LeavesAlone m (chains_one r o m)
  chains_one-LeavesAlone r none m = tt
  chains_one-LeavesAlone r (some x) m =
      reads_only (read x m) (λ n. leaves r) (λ n. record m { to_be_deleted = x ∷ m.to_be_deleted })
        m (λ n. refl)

  new_at-LeavesAlone :
      (w : T) (x : ℕ) (r : Option T) (m : Memory T) (stack : List ℕ)
      → IsSafe (rests r) others m stack
      → LeavesAlone m (new_at w x r (m.cell x) m)
  new_at-LeavesAlone w x r m stack v = elim (Option-cases (m.cell x)) [
    | inl e ↦ rw e (λ a h. grind (arith, v.owned a, e, h))
    | inr (n, e) ↦ rw e (λ a h. refl)
  ]

  advance-LeavesAlone :
      (p : Pc T) (m : Memory T) (stack : List ℕ)
      → IsSafe p others m stack
      → LeavesAlone m (advance p m)
  unfolding advance
  advance-LeavesAlone (rests r) m stack v = λ a h. refl
  advance-LeavesAlone (pushes x) m stack v = push_swaps-LeavesAlone x m stack v
  advance-LeavesAlone enters m stack v = λ a h. refl
  advance-LeavesAlone (looks o) m stack v = pop_looks-LeavesAlone o m
  advance-LeavesAlone (swaps x n) m stack v = pop_swaps-LeavesAlone x n m
  advance-LeavesAlone (won x) m stack v = takes_data-LeavesAlone x m stack v
  advance-LeavesAlone (checks r o) m stack v = λ a h. refl
  advance-LeavesAlone (takes r o) m stack v = λ a h. refl
  advance-LeavesAlone (drops r o ns) m stack v = λ a h. refl
  advance-LeavesAlone (rechains r o ns) m stack v =
      reads_only (walk_nodes ns m.cell) (λ u. frees r _)
        (λ u. record m { to_be_deleted = ns ++ m.to_be_deleted }) m (λ u. refl)
  advance-LeavesAlone (frees r ns) m stack v = frees_nodes-LeavesAlone r ns m stack v
  advance-LeavesAlone (chains r o) m stack v = chains_one-LeavesAlone r o m
  advance-LeavesAlone (leaves r) m stack v = λ a h. refl

  fail_weak-LeavesAlone :
      (p : Pc T) (m : Memory T) (stack : List ℕ)
      → IsSafe p others m stack
      → LeavesAlone m (fail_weak p m)
  unfolding fail_weak
  fail_weak-LeavesAlone (pushes x) m stack v = push_fails-LeavesAlone x m stack v
  fail_weak-LeavesAlone (swaps x n) m stack v = λ a h. refl
  fail_weak-LeavesAlone (rests r) m stack v = λ a h. refl
  fail_weak-LeavesAlone enters m stack v = λ a h. refl
  fail_weak-LeavesAlone (looks o) m stack v = λ a h. refl
  fail_weak-LeavesAlone (won x) m stack v = λ a h. refl
  fail_weak-LeavesAlone (checks r o) m stack v = λ a h. refl
  fail_weak-LeavesAlone (takes r o) m stack v = λ a h. refl
  fail_weak-LeavesAlone (drops r o ns) m stack v = λ a h. refl
  fail_weak-LeavesAlone (rechains r o ns) m stack v = λ a h. refl
  fail_weak-LeavesAlone (frees r ns) m stack v = λ a h. refl
  fail_weak-LeavesAlone (chains r o) m stack v = λ a h. refl
  fail_weak-LeavesAlone (leaves r) m stack v = λ a h. refl

  call_push-LeavesAlone :
      (w : T) (x : ℕ) (p : Pc T) (m : Memory T) (stack : List ℕ)
      → IsSafe p others m stack
      → LeavesAlone m (call_push w x p m)
  unfolding call_push
  call_push-LeavesAlone w x (rests r) m stack v = new_at-LeavesAlone w x r m stack v
  call_push-LeavesAlone w x (pushes y) m stack v = λ a h. refl
  call_push-LeavesAlone w x (swaps y n) m stack v = λ a h. refl
  call_push-LeavesAlone w x enters m stack v = λ a h. refl
  call_push-LeavesAlone w x (looks o) m stack v = λ a h. refl
  call_push-LeavesAlone w x (won y) m stack v = λ a h. refl
  call_push-LeavesAlone w x (checks r o) m stack v = λ a h. refl
  call_push-LeavesAlone w x (takes r o) m stack v = λ a h. refl
  call_push-LeavesAlone w x (drops r o ns) m stack v = λ a h. refl
  call_push-LeavesAlone w x (rechains r o ns) m stack v = λ a h. refl
  call_push-LeavesAlone w x (frees r ns) m stack v = λ a h. refl
  call_push-LeavesAlone w x (chains r o) m stack v = λ a h. refl
  call_push-LeavesAlone w x (leaves r) m stack v = λ a h. refl

  call_pop-LeavesAlone : (p : Pc T) (m : Memory T) → LeavesAlone m (call_pop p m)
  unfolding call_pop
  call_pop-LeavesAlone (rests r) m = λ a h. refl
  call_pop-LeavesAlone (pushes x) m = λ a h. refl
  call_pop-LeavesAlone (swaps x n) m = λ a h. refl
  call_pop-LeavesAlone enters m = λ a h. refl
  call_pop-LeavesAlone (looks o) m = λ a h. refl
  call_pop-LeavesAlone (won x) m = λ a h. refl
  call_pop-LeavesAlone (checks r o) m = λ a h. refl
  call_pop-LeavesAlone (takes r o) m = λ a h. refl
  call_pop-LeavesAlone (drops r o ns) m = λ a h. refl
  call_pop-LeavesAlone (rechains r o ns) m = λ a h. refl
  call_pop-LeavesAlone (frees r ns) m = λ a h. refl
  call_pop-LeavesAlone (chains r o) m = λ a h. refl
  call_pop-LeavesAlone (leaves r) m = λ a h. refl

  pub act-LeavesAlone :
      (e : Event T) (p : Pc T) (m : Memory T) (stack : List ℕ)
      → IsSafe p others m stack
      → LeavesAlone m (act e p m)
  unfolding act
  act-LeavesAlone (push_call w a) p m stack v = call_push-LeavesAlone w a p m stack v
  act-LeavesAlone pop_call p m stack v = call_pop-LeavesAlone p m
  act-LeavesAlone moves p m stack v = advance-LeavesAlone p m stack v
  act-LeavesAlone fails p m stack v = fail_weak-LeavesAlone p m stack v

module _ {ℓ} {T : Type ℓ} where
  -- What is due of a thread depends on the nodes that it holds, and on no others.
  pub IsDue-agree :
      (q : Pc T) (h : Phase T) (cell cell' : ℕ → Option (Node T))
      → ((a : ℕ) → 0 < held a q → cell' a ≡ cell a)
      → IsDue q h cell
      → IsDue q h cell'
  IsDue-agree (pushes x) h cell cell' s (v, e, d) =
      (v, e, ap data_at (s x (omega (arith, one_self x))) ∙ d)
  IsDue-agree (won x) h cell cell' s d = rw (s x (omega (arith, one_self x))) d
  IsDue-agree (rests r) h cell cell' s d = d
  IsDue-agree enters h cell cell' s d = d
  IsDue-agree (looks o) h cell cell' s d = d
  IsDue-agree (swaps x n) h cell cell' s d = d
  IsDue-agree (checks r o) h cell cell' s d = d
  IsDue-agree (takes r o) h cell cell' s d = d
  IsDue-agree (drops r o ns) h cell cell' s d = d
  IsDue-agree (rechains r o ns) h cell cell' s d = d
  IsDue-agree (frees r ns) h cell cell' s d = d
  IsDue-agree (chains r o) h cell cell' s d = d
  IsDue-agree (leaves r) h cell cell' s d = d
