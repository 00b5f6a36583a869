-- ===== src/LockFreeStackWithRc/Moves.antt =====
-- Every move of a thread grows the external counts by one at most.
use sundries.Prelude.{
  ℕ, zero, suc, ◌≤◌, ◌≡◌, subst, Bool-cases, inl, inr, Option, none, some, List, [], ◌∷◌, get_elem?,
  set, update, replicate, arith,
}
use sundries.Prelude.Int.{negsuc, sub_ℕ, is_opposite}
use sundries.LockFreeStackWithRc.Memory.{CountedNodePtr, Node, Memory, same_counted}
use sundries.LockFreeStackWithRc.Threads.{
  Pc, rests, pushes, looks, reads, swaps, won, adds, lost, frees, frees_lost, pop_swaps, adds_count,
  releases, deletes, advance, fail_weak, new_at, call_push, call_pop, Event, push_call, pop_call,
  moves, fails, act,
}
use sundries.LockFreeStackWithRc.Counts.{
  SmallPc, SmallCells, SmallMemory, Grown, SmallPc-suc, SmallCells-suc, goes_on, writes, reads_node,
  push_fails-Grown, push_swaps-Grown, increase-Grown, fetch_add-Grown,
}

module _ {ℓ} {T : Type ℓ} (b : ℕ) where
  pop_swaps-Grown :
      (x e : ℕ) (n : CountedNodePtr) (m : Memory T)
      → n.external_count ≤ b
      → SmallMemory b m
      → Grown b (pop_swaps x e n m)
  pop_swaps-Grown x e n m h k =
      elim (Bool-cases (same_counted m.head (record { external_count = e; ptr = some x }))) [
        | inl s ↦ rw s (tt, (omega (arith, h), SmallCells-suc b m.cell k.1))
        | inr s ↦ rw s (goes_on b (lost x m.head) m k.0 k)
      ]

  adds_count-Grown :
      (x e : ℕ) (r : Option T) (m : Memory T) → SmallMemory b m → Grown b (adds_count x e r m)
  adds_count-Grown x e r m k = reads_node b (m.cell x) _ (λ n f.
      elim (Bool-cases (is_opposite n.internal_count (sub_ℕ e 2))) [
        | inl s ↦ rw s (fetch_add-Grown b (sub_ℕ e 2) x n (frees x r) m tt (k.1 x n f) k)
        | inr s ↦ rw s (fetch_add-Grown b (sub_ℕ e 2) x n (rests r) m tt (k.1 x n f) k)
      ])

  releases-Grown :
      (x : ℕ) (c : CountedNodePtr) (m : Memory T)
      → c.external_count ≤ b
      → SmallMemory b m
      → Grown b (releases x c m)
  releases-Grown x c m h k = reads_node b (m.cell x) _ (λ n f.
      elim (Bool-cases (is_opposite n.internal_count (negsuc 0))) [
        | inl s ↦ rw s (fetch_add-Grown b (negsuc 0) x n (frees_lost x c) m h (k.1 x n f) k)
        | inr s ↦ rw s (fetch_add-Grown b (negsuc 0) x n (looks c) m h (k.1 x n f) k)
      ])

  erased :
      (cell : ℕ → Option (Node T)) (x : ℕ) → SmallCells b cell → SmallCells b (update cell x none)
  erased cell x h a n e = ground (arith, e, h a n)

  deletes-Grown :
      (x : ℕ) (p : Pc T) (m : Memory T) → SmallPc b p → SmallMemory b m → Grown b (deletes x p m)
  deletes-Grown x p m h k =
      reads_node b (m.cell x) _
        (λ n e. goes_on b p (record m { cell = update m.cell x none }) h (k.0, erased m.cell x k.1))

  advance-Grown : (p : Pc T) (m : Memory T) → SmallPc b p → SmallMemory b m → Grown b (advance p m)
  unfolding advance
  advance-Grown (rests r) m h k = goes_on b (rests r) m tt k
  advance-Grown (pushes x) m h k = push_swaps-Grown b x m k
  advance-Grown (looks c) m h k = increase-Grown b c m h k
  advance-Grown (reads x e) m h k =
      reads_node b (m.cell x) _ (λ n f. goes_on b (swaps x e n.next) m (k.1 x n f) k)
  advance-Grown (swaps x e n) m h k = pop_swaps-Grown x e n m h k
  advance-Grown (won x e) m h k =
      reads_node b (m.cell x) _ (λ n f. writes b (adds x e n.data_ptr) x _ m tt (k.1 x n f) k)
  advance-Grown (adds x e r) m h k = adds_count-Grown x e r m k
  advance-Grown (lost x c) m h k = releases-Grown x c m h k
  advance-Grown (frees x r) m h k = deletes-Grown x (rests r) m tt k
  advance-Grown (frees_lost x c) m h k = deletes-Grown x (looks c) m h k

  fail_weak-Grown :
      (p : Pc T) (m : Memory T) → SmallPc b p → SmallMemory b m → Grown b (fail_weak p m)
  unfolding fail_weak
  fail_weak-Grown (pushes x) m h k = push_fails-Grown b x m k
  fail_weak-Grown p m h k = goes_on b p m h k

  new_at-Grown :
      (v : T) (a : ℕ) (r : Option T) (o : Option (Node T)) (m : Memory T)
      → SmallMemory b m
      → Grown b (new_at v a r o m)
  new_at-Grown v a r none m k = writes b (pushes a) a _ m tt k.0 k
  new_at-Grown v a r (some n) m k = goes_on b (rests r) m tt k

  call_push-Grown :
      (v : T) (a : ℕ) (p : Pc T) (m : Memory T)
      → SmallPc b p
      → SmallMemory b m
      → Grown b (call_push v a p m)
  unfolding call_push
  call_push-Grown v a (rests r) m h k = new_at-Grown v a r (m.cell a) m k
  call_push-Grown v a p m h k = goes_on b p m h k

  call_pop-Grown :
      (p : Pc T) (m : Memory T) → SmallPc b p → SmallMemory b m → Grown b (call_pop p m)
  unfolding call_pop
  call_pop-Grown (rests r) m h k = goes_on b (looks m.head) m k.0 k
  call_pop-Grown p m h k = goes_on b p m h k

  pub act-Grown :
      (e : Event T) (p : Pc T) (m : Memory T) → SmallPc b p → SmallMemory b m → Grown b (act e p m)
  unfolding act
  act-Grown (push_call v a) p m h k = call_push-Grown v a p m h k
  act-Grown pop_call p m h k = call_pop-Grown p m h k
  act-Grown moves p m h k = advance-Grown p m h k
  act-Grown fails p m h k = fail_weak-Grown p m h k

  abbrev pub SmallThreads : List (Pc T) → Type 0
  SmallThreads [] = Unit
  SmallThreads (p ∷ ps) = SmallPc b p × SmallThreads ps

  pub SmallThreads-get :
      (ps : List (Pc T)) (i : ℕ) (p : Pc T)
      → get_elem? ps i ≡ some p
      → SmallThreads ps
      → SmallPc b p
  SmallThreads-get [] i p e h = absurd (cc e)
  SmallThreads-get (q ∷ ps) zero p e h = subst (SmallPc b) (cc e) h.0
  SmallThreads-get (q ∷ ps) (suc i) p e h = SmallThreads-get ps i p e h.1

  pub SmallThreads-set :
      (ps : List (Pc T)) (i : ℕ) (p : Pc T)
      → SmallPc b p
      → SmallThreads ps
      → SmallThreads (set ps i p)
  SmallThreads-set [] i p k h = tt
  SmallThreads-set (q ∷ ps) zero p k h = (k, h.1)
  SmallThreads-set (q ∷ ps) (suc i) p k h = (h.0, SmallThreads-set ps i p k h.1)

pub SmallThreads-replicate {ℓ} :
    (T : Type ℓ) (b n : ℕ) → SmallThreads {T = T} b (replicate n (rests none))
SmallThreads-replicate T b zero = tt
SmallThreads-replicate T b (suc n) = (tt, SmallThreads-replicate T b n)

module _ {ℓ} {T : Type ℓ} (b : ℕ) where
  pub SmallThreads-suc : (ps : List (Pc T)) → SmallThreads b ps → SmallThreads (suc b) ps
  SmallThreads-suc [] h = tt
  SmallThreads-suc (p ∷ ps) h = (SmallPc-suc b p h.0, SmallThreads-suc ps h.1)
