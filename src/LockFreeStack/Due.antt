-- ===== src/LockFreeStack/Due.antt =====
-- What the call of a thread has done so far, at each place where the thread may stand.
use sundries.Prelude.{
  ℕ, ◌≡◌, refl, Bool-cases, Option-cases, inl, inr, Option, none, some, List, ◌==◌, arith,
}
use mathlib.Core.Option.{map}
use sundries.ThreadsafeQueue.Heap.{Node}
use sundries.LockFreeStack.Memory.{
  Memory, Access, ok, dangling, null_pointer, ◌>>=◌, same, delete_nodes, walk_nodes,
}
use sundries.LockFreeStack.Threads.{
  Pc, rests, pushes, enters, looks, swaps, won, checks, takes, drops, rechains, frees, chains,
  leaves, Event, push_call, pop_call, moves, fails, advance, fail_weak, call_push, call_pop, act,
  new_at, push_fails, push_swaps, pop_looks, pop_swaps, takes_data, counts_threads, drops_out,
  chains_one, is_nil, to_list, leave_pop,
}
use sundries.LockFreeStack.Values.{Op, popped, missed, data_at, missed_at}
use sundries.LockFreeStack.History.{
  Call, calls_push, calls_pop, took, Phase, idle, wrong, begun, effected, mark_of, next_phase,
  Returned, Over, begin,
}

module _ {ℓ} {T : Type ℓ} where
  -- In pop, past the moment at which it takes effect.
  abbrev HasPopped : Phase T → Option T → Type ℓ
  HasPopped h r = (op : Op T) × (h ≡ effected calls_pop op) × Returned calls_pop op r

  abbrev Looking : Option ℕ → Phase T → Type ℓ
  Looking none h = h ≡ effected calls_pop missed
  Looking (some x) h = h ≡ begun calls_pop

  abbrev pub IsDue : Pc T → Phase T → (ℕ → Option (Node T)) → Type ℓ
  IsDue (rests r) h cell = Over h r
  IsDue (pushes x) h cell = (v : T) × (h ≡ begun (calls_push v)) × (data_at (cell x) ≡ some v)
  IsDue enters h cell = h ≡ begun calls_pop
  IsDue (looks o) h cell = Looking o h
  IsDue (swaps x n) h cell = h ≡ begun calls_pop
  IsDue (won x) h cell = h ≡ effected calls_pop (popped (data_at (cell x)))
  IsDue (checks r o) h cell = HasPopped h r
  IsDue (takes r o) h cell = HasPopped h r
  IsDue (drops r o ns) h cell = HasPopped h r
  IsDue (rechains r o ns) h cell = HasPopped h r
  IsDue (frees r ns) h cell = HasPopped h r
  IsDue (chains r o) h cell = HasPopped h r
  IsDue (leaves r) h cell = HasPopped h r

  abbrev pub Dues : Phase T → Access (Pc T × Memory T) → Type ℓ
  Dues h (ok (p, m)) = IsDue p h m.cell
  Dues h dangling = Unit {ℓ}
  Dues h null_pointer = Unit {ℓ}

  begin-Over : (c : Call T) (h : Phase T) (r : Option T) → Over h r → begin c h ≡ begun c
  begin-Over c idle r d = refl
  begin-Over c (effected e op) r d = refl
  begin-Over c (begun e) r d = absurd d.0
  begin-Over c wrong r d = absurd d.0

  HasPopped-Over : (h : Phase T) (r : Option T) → HasPopped h r → Over h r
  HasPopped-Over h r (op, e, d) = rw e d

  push_fails-Dues :
      (x : ℕ) (m : Memory T) (h : Phase T) → IsDue (pushes x) h m.cell → Dues h (push_fails x m)
  push_fails-Dues x m h (v, e, d) = elim (Option-cases (m.cell x)) [
    | inl f ↦ rw f tt
    | inr (n, f) ↦ rw f (v, e, grind (arith, f, d))
  ]

  push_swaps-Dues :
      (x : ℕ) (m : Memory T) (h : Phase T)
      → IsDue (pushes x) h m.cell
      → Dues (next_phase (mark_of moves (pushes x) m) h) (push_swaps x m)
  push_swaps-Dues x m h (v, e, d) = elim (Option-cases (m.cell x)) [
    | inl f ↦ rw f tt
    | inr (n, f) ↦ rw f (elim (Bool-cases (same n.next m.head)) [
      | inl s ↦ rw s (rw e (rw f at d, refl))
      | inr s ↦ rw s (rw f at (push_fails-Dues x m h (v, e, d)))
    ])
  ]

  pop_looks-Dues :
      (o : Option ℕ) (m : Memory T) (h : Phase T) → Looking o h → Dues h (pop_looks o m)
  pop_looks-Dues none m h d = (missed, d, refl)
  pop_looks-Dues (some x) m h d = elim (Option-cases (m.cell x)) [
    | inl f ↦ rw f tt
    | inr (n, f) ↦ rw f d
  ]

  looks_again :
      (o : Option ℕ) (h : Phase T)
      → h ≡ begun calls_pop
      → Looking o (next_phase (map took (missed_at o)) h)
  looks_again none h d = rw d refl
  looks_again (some x) h d = d

  pop_swaps-Dues :
      (x : ℕ) (n : Option ℕ) (m : Memory T) (h : Phase T)
      → h ≡ begun calls_pop
      → Dues (next_phase (mark_of moves (swaps x n) m) h) (pop_swaps x n m)
  pop_swaps-Dues x n m h d = elim (Bool-cases (same m.head (some x))) [
    | inl e ↦ rw e (rw d refl)
    | inr e ↦ rw e (looks_again m.head h d)
  ]

  takes_data-Dues :
      (x : ℕ) (m : Memory T) (h : Phase T) → IsDue (won x) h m.cell → Dues h (takes_data x m)
  takes_data-Dues x m h d = elim (Option-cases (m.cell x)) [
    | inl f ↦ rw f tt
    | inr (n, f) ↦ rw f (popped n.data_ptr, rw f at d, refl)
  ]

  counts_threads-Dues :
      (r : Option T) (o : Option ℕ) (m : Memory T) (h : Phase T)
      → HasPopped h r
      → Dues h (counts_threads r o m)
  counts_threads-Dues r o m h d = elim (Bool-cases (m.threads_in_pop == 1)) [
    | inl e ↦ rw e d
    | inr e ↦ rw e d
  ]

  drops_out-Dues :
      (r : Option T) (o : Option ℕ) (ns : List ℕ) (m : Memory T) (h : Phase T)
      → HasPopped h r
      → Dues h (drops_out r o ns m)
  drops_out-Dues r o ns m h d = elim (Bool-cases ((leave_pop m).threads_in_pop == 0)) [
    | inl e ↦ rw e d
    | inr e ↦ rw e (elim (Bool-cases (is_nil ns)) [ inl f ↦ rw f d | inr f ↦ rw f d ])
  ]

  -- A move that leaves the thread where what `h` says is due, whatever it accesses.
  read_only {κ} :
      {A : Type κ} (a : Access A) (p : Pc T) (f : A → Memory T) (h : Phase T)
      → ((v : A) → IsDue p h (f v).cell)
      → Dues h (a >>= λ v. ok (p, f v))
  read_only (ok v) p f h d = d v
  read_only dangling p f h d = tt
  read_only null_pointer p f h d = tt

  chains_one-Dues :
      (r : Option T) (o : Option ℕ) (m : Memory T) (h : Phase T)
      → HasPopped h r
      → Dues h (chains_one r o m)
  chains_one-Dues r none m h d = tt
  chains_one-Dues r (some x) m h d = read_only _ (leaves r) _ h (λ n. d)

  new_at-Dues :
      (v : T) (a : ℕ) (r : Option T) (m : Memory T) (h : Phase T)
      → Over h r
      → Dues (next_phase (mark_of (push_call v a) (rests r) m) h) (new_at v a r (m.cell a) m)
  new_at-Dues v a r m h d = elim (Option-cases (m.cell a)) [
    | inl f ↦ rw f (v, begin-Over (calls_push v) h r d, grind arith)
    | inr (n, f) ↦ rw f d
  ]

  advance-Dues :
      (p : Pc T) (m : Memory T) (h : Phase T)
      → IsDue p h m.cell
      → Dues (next_phase (mark_of moves p m) h) (advance p m)
  unfolding advance
  advance-Dues (rests r) m h d = d
  advance-Dues (pushes x) m h d = push_swaps-Dues x m h d
  advance-Dues enters m h d = looks_again m.head h d
  advance-Dues (looks o) m h d = pop_looks-Dues o m h d
  advance-Dues (swaps x n) m h d = pop_swaps-Dues x n m h d
  advance-Dues (won x) m h d = takes_data-Dues x m h d
  advance-Dues (checks r o) m h d = counts_threads-Dues r o m h d
  advance-Dues (takes r o) m h d = d
  advance-Dues (drops r o ns) m h d = drops_out-Dues r o ns m h d
  advance-Dues (rechains r o ns) m h d =
      read_only (walk_nodes ns m.cell) (frees r (to_list o)) _ h (λ u. d)
  advance-Dues (frees r ns) m h d =
      read_only (delete_nodes ns m.cell) (rests r) _ h (λ c. HasPopped-Over h r d)
  advance-Dues (chains r o) m h d = chains_one-Dues r o m h d
  advance-Dues (leaves r) m h d = HasPopped-Over h r d

  fail_weak-Dues :
      (p : Pc T) (m : Memory T) (h : Phase T)
      → IsDue p h m.cell
      → Dues (next_phase (mark_of fails p m) h) (fail_weak p m)
  unfolding fail_weak
  fail_weak-Dues (pushes x) m h d = push_fails-Dues x m h d
  fail_weak-Dues (swaps x n) m h d = looks_again m.head h d
  fail_weak-Dues (rests r) m h d = d
  fail_weak-Dues enters m h d = d
  fail_weak-Dues (looks o) m h d = d
  fail_weak-Dues (won x) m h d = d
  fail_weak-Dues (checks r o) m h d = d
  fail_weak-Dues (takes r o) m h d = d
  fail_weak-Dues (drops r o ns) m h d = d
  fail_weak-Dues (rechains r o ns) m h d = d
  fail_weak-Dues (frees r ns) m h d = d
  fail_weak-Dues (chains r o) m h d = d
  fail_weak-Dues (leaves r) m h d = d

  call_push-Dues :
      (v : T) (a : ℕ) (p : Pc T) (m : Memory T) (h : Phase T)
      → IsDue p h m.cell
      → Dues (next_phase (mark_of (push_call v a) p m) h) (call_push v a p m)
  unfolding call_push
  call_push-Dues v a (rests r) m h d = new_at-Dues v a r m h d
  call_push-Dues v a (pushes x) m h d = d
  call_push-Dues v a (swaps x n) m h d = d
  call_push-Dues v a enters m h d = d
  call_push-Dues v a (looks o) m h d = d
  call_push-Dues v a (won x) m h d = d
  call_push-Dues v a (checks r o) m h d = d
  call_push-Dues v a (takes r o) m h d = d
  call_push-Dues v a (drops r o ns) m h d = d
  call_push-Dues v a (rechains r o ns) m h d = d
  call_push-Dues v a (frees r ns) m h d = d
  call_push-Dues v a (chains r o) m h d = d
  call_push-Dues v a (leaves r) m h d = d

  call_pop-Dues :
      (p : Pc T) (m : Memory T) (h : Phase T)
      → IsDue p h m.cell
      → Dues (next_phase (mark_of pop_call p m) h) (call_pop p m)
  unfolding call_pop
  call_pop-Dues (rests r) m h d = begin-Over calls_pop h r d
  call_pop-Dues (pushes x) m h d = d
  call_pop-Dues (swaps x n) m h d = d
  call_pop-Dues enters m h d = d
  call_pop-Dues (looks o) m h d = d
  call_pop-Dues (won x) m h d = d
  call_pop-Dues (checks r o) m h d = d
  call_pop-Dues (takes r o) m h d = d
  call_pop-Dues (drops r o ns) m h d = d
  call_pop-Dues (rechains r o ns) m h d = d
  call_pop-Dues (frees r ns) m h d = d
  call_pop-Dues (chains r o) m h d = d
  call_pop-Dues (leaves r) m h d = d

  pub act-Dues :
      (e : Event T) (p : Pc T) (m : Memory T) (h : Phase T)
      → IsDue p h m.cell
      → Dues (next_phase (mark_of e p m) h) (act e p m)
  unfolding act
  act-Dues (push_call v a) p m h d = call_push-Dues v a p m h d
  act-Dues pop_call p m h d = call_pop-Dues p m h d
  act-Dues moves p m h d = advance-Dues p m h d
  act-Dues fails p m h d = fail_weak-Dues p m h d
