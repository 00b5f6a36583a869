-- ===== src/LockFreeStack/Progress.antt =====
-- A thread that moves alone comes to the end of its push or pop.
use sundries.Prelude.{
  ℕ, zero, suc, ◌^◌, ◌≤◌, ◌<◌, ◌≡◌, refl, sym, ap, ◌∙◌, subst, Bool-cases, Option-cases, inl, inr,
  ==_iff, Option, ◌++◌, none, some, List, if◌then◌else◌, get_elem?, set, get_elem?-set_self, ltb,
  length, replicate, ◌==◌, arith,
}
use sundries.ThreadsafeQueue.Heap.{Node}
use sundries.LockFreeStack.Memory.{
  walk_nodes, delete_nodes, Memory, Access, ok, dangling, null_pointer, ◌>>=◌, same, same_self,
}
use sundries.LockFreeStack.Threads.{
  Pc, rests, pushes, enters, looks, swaps, won, checks, takes, drops, rechains, frees, chains,
  leaves, Event, moves, System, advance, is_nil, to_list, step, run, start, leave_pop,
}
use sundries.LockFreeStack.Safety.{Intact, IsSafeSystem, run-Intact, step-Intact}

module _ {ℓ} {T : Type ℓ} where
  abbrev next_at : Option (Node T) → Option ℕ
  next_at none = none
  next_at (some n) = n.next

  -- How many moves are left at most, if no other thread moves.
  abbrev rank : Pc T → Memory T → ℕ
  rank (rests r) m = 0
  rank (pushes x) m = if same (next_at (m.cell x)) m.head then 1 else 2
  rank enters m = 9
  rank (looks o) m = if same m.head o then 8 else 10
  rank (swaps x n) m = if same m.head (some x) then 7 else 9
  rank (won x) m = 6
  rank (checks r o) m = 5
  rank (takes r o) m = 4
  rank (drops r o ns) m = 3
  rank (rechains r o ns) m = 2
  rank (frees r ns) m = 1
  rank (chains r o) m = 2
  rank (leaves r) m = 1

  abbrev Falls : ℕ → Access (Pc T × Memory T) → Type 0
  Falls k (ok (p, m)) = suc (rank p m) ≤ k
  Falls k dangling = Unit
  Falls k null_pointer = Unit

  after_walk :
      (r : Option T) (o : Option ℕ) (ns : List ℕ) (m : Memory T) (w : Access (Unit {0}))
      → Falls 2
          (w >>= λ _. ok (frees r (to_list o), record m { to_be_deleted = ns ++ m.to_be_deleted }))
  after_walk r o ns m (ok u) = omega arith
  after_walk r o ns m dangling = tt
  after_walk r o ns m null_pointer = tt

  after_delete :
      (r : Option T) (m : Memory T) (w : Access (ℕ → Option (Node T)))
      → Falls 1 (w >>= λ cell. ok (rests r, record m { cell = cell }))
  after_delete r m (ok cell) = omega arith
  after_delete r m dangling = tt
  after_delete r m null_pointer = tt

  -- Every move but that of a resting thread brings it nearer to its end.
  advance-Falls : (p : Pc T) (m : Memory T) → 0 < rank p m → Falls (rank p m) (advance p m)
  unfolding advance
  advance-Falls (rests r) m h = absurd (omega arith)
  advance-Falls (pushes x) m h = elim (Option-cases (m.cell x)) [
    | inl e ↦ rw e tt
    | inr (n, e) ↦ rw e (elim (Bool-cases (same n.next m.head)) [
      | inl f ↦ rw f (omega arith)
      | inr f ↦ rw f (rw e (rw ((==_iff x x).1 refl) (rw (same_self m.head) (omega arith))))
    ])
  ]
  advance-Falls enters m h = rw (same_self m.head) (omega arith)
  advance-Falls (looks none) m h = ground arith
  advance-Falls (looks (some x)) m h = elim (Option-cases (m.cell x)) [
    | inl e ↦ rw e tt
    | inr (n, e) ↦ rw e (elim (Bool-cases (same m.head (some x))) [
      | inl f ↦ rw f (omega arith)
      | inr f ↦ rw f (omega arith)
    ])
  ]
  advance-Falls (swaps x n) m h = elim (Bool-cases (same m.head (some x))) [
    | inl e ↦ rw e (omega arith)
    | inr e ↦ rw e (rw (same_self m.head) (omega arith))
  ]
  advance-Falls (won x) m h = elim (Option-cases (m.cell x)) [
    | inl e ↦ rw e tt
    | inr (n, e) ↦ rw e (omega arith)
  ]
  advance-Falls (checks r o) m h = elim (Bool-cases (m.threads_in_pop == 1)) [
    | inl e ↦ rw e (omega arith)
    | inr e ↦ rw e (omega arith)
  ]
  advance-Falls (takes r o) m h = omega arith
  advance-Falls (drops r o ns) m h = elim (Bool-cases ((leave_pop m).threads_in_pop == 0)) [
    | inl e ↦ rw e (omega arith)
    | inr e ↦
        rw e (elim (Bool-cases (is_nil ns)) [
          | inl f ↦ rw f (omega arith)
          | inr f ↦ rw f (omega arith)
        ])
  ]
  advance-Falls (rechains r o ns) m h = after_walk r o ns m (walk_nodes ns m.cell)
  advance-Falls (frees r ns) m h = after_delete r m (delete_nodes ns m.cell)
  advance-Falls (chains r none) m h = tt
  advance-Falls (chains r (some x)) m h = elim (Option-cases (m.cell x)) [
    | inl e ↦ rw e tt
    | inr (n, e) ↦ rw e (omega arith)
  ]
  advance-Falls (leaves r) m h = omega arith

  Falls-le : (j k : ℕ) (r : Access (Pc T × Memory T)) → j ≤ k → Falls j r → Falls k r
  Falls-le j k (ok (p, m)) h f = omega arith
  Falls-le j k dangling h f = tt
  Falls-le j k null_pointer h f = tt

  rank_zero : (p : Pc T) (m : Memory T) → rank p m ≡ 0 → (r : Option T) × (p ≡ rests r)
  rank_zero (rests r) m h = (r, refl)
  rank_zero (pushes x) m h = absurd (ground (arith, h))
  rank_zero enters m h = absurd (omega arith)
  rank_zero (looks o) m h = absurd (ground (arith, h))
  rank_zero (swaps x n) m h = absurd (ground (arith, h))
  rank_zero (won x) m h = absurd (omega arith)
  rank_zero (checks r o) m h = absurd (omega arith)
  rank_zero (takes r o) m h = absurd (omega arith)
  rank_zero (drops r o ns) m h = absurd (omega arith)
  rank_zero (rechains r o ns) m h = absurd (omega arith)
  rank_zero (frees r ns) m h = absurd (omega arith)
  rank_zero (chains r o) m h = absurd (omega arith)
  rank_zero (leaves r) m h = absurd (omega arith)

  rank-le-ten : (p : Pc T) (m : Memory T) → rank p m ≤ 10
  rank-le-ten (pushes x) m = ground arith
  rank-le-ten (looks o) m = ground arith
  rank-le-ten (swaps x n) m = ground arith
  rank-le-ten (rests r) m = omega arith
  rank-le-ten enters m = omega arith
  rank-le-ten (won x) m = omega arith
  rank-le-ten (checks r o) m = omega arith
  rank-le-ten (takes r o) m = omega arith
  rank-le-ten (drops r o ns) m = omega arith
  rank-le-ten (rechains r o ns) m = omega arith
  rank-le-ten (frees r ns) m = omega arith
  rank-le-ten (chains r o) m = omega arith
  rank-le-ten (leaves r) m = omega arith

  -- The thread is at rest, or met the null pointer of chain_pending_nodes.
  abbrev pub Finished : ℕ → Access (System T) → Type ℓ
  Finished i (ok s) = (r : Option T) × (get_elem? s.threads i ≡ some (rests r))
  Finished i dangling = ⊥ × Unit {ℓ}
  Finished i null_pointer = Unit {ℓ}

  abbrev pub alone : ℕ → ℕ → List (ℕ × Event T)
  alone k i = replicate k (i, moves)

  Falls-within : (k : ℕ) (p : Pc T) (m : Memory T) → rank p m ≤ suc k → Falls (suc k) (advance p m)
  unfolding advance
  Falls-within k p m h = elim (Bool-cases (ltb 0 (rank p m))) [
    | inl e ↦ Falls-le (rank p m) (suc k) (advance p m) h (advance-Falls p m (ground (arith, e)))
    | inr e ↦
        let (r, f) = rank_zero p m (ground (arith, e)) in
        subst (λ q. Falls (suc k) (advance q m)) (sym f) (omega arith)
  ]

  abbrev moved : ℕ → System T → Pc T × Memory T → Access (System T)
  moved i s r = ok (record { memory = r.1; threads = set s.threads i r.0 })

  after_move :
      (k i : ℕ) (s : System T) (p : Pc T) (r : Access (Pc T × Memory T))
      → get_elem? s.threads i ≡ some p
      → Intact (length s.threads) (r >>= moved i s)
      → Falls (suc k) r
      → ((s' : System T) (stack : List ℕ) (q : Pc T)
          → length s'.threads ≡ length s.threads
          → IsSafeSystem s' stack
          → get_elem? s'.threads i ≡ some q
          → rank q s'.memory ≤ k
          → Finished i (run (alone k i) s'))
      → Finished i ((r >>= moved i s) >>= run (alone k i))
  after_move k i s p (ok (q, m)) e (l, stack, v) f ih =
      ih (record { memory = m; threads = set s.threads i q }) stack q l v
        (get_elem?-set_self s.threads i q e) (omega (arith, f))
  after_move k i s p dangling e b f ih = b
  after_move k i s p null_pointer e b f ih = b

  alone-Finished :
      (k i : ℕ) (s : System T) (stack : List ℕ) (p : Pc T)
      → length s.threads < 2 ^ 32
      → IsSafeSystem s stack
      → get_elem? s.threads i ≡ some p
      → rank p s.memory ≤ k
      → Finished i (run (alone k i) s)
  unfolding run step
  alone-Finished zero i s stack p h v e l =
      let (r, f) = rank_zero p s.memory (omega (arith, l)) in (r, e ∙ ap some f)
  alone-Finished (suc k) i s stack p h v e l =
      let intact = rw e at (step-Intact i moves s stack h v) in
      rw e (
        after_move k i s p (advance p s.memory) e intact (Falls-within k p s.memory l)
          λ s' stack' q d v' e' l'. alone-Finished k i s' stack' q (omega (arith, d, h)) v' e' l')

module _ {ℓ} (T : Type ℓ) where
  -- In a state that a run comes to, whatever the other threads have left half done, a thread that
  -- moves ten times with no other between is at rest, its push or pop done, or has met the null
  -- pointer of chain_pending_nodes, if its exchanges do not fail by themselves.
  pub alone_finishes :
      (n : ℕ) (es : List (ℕ × Event T)) (s : System T) (i : ℕ) (p : Pc T)
      → n < 2 ^ 32
      → run es (start n) ≡ ok s
      → get_elem? s.threads i ≡ some p
      → Finished i (run (alone 10 i) s)
  alone_finishes n es s i p h e g =
      let (l, stack, v) = subst (Intact n) e (run-Intact T n es h) in
      alone-Finished 10 i s stack p (omega (arith, l, h)) v g (rank-le-ten p s.memory)
