-- ===== src/LockFreeStackWithRc/Counts.antt =====
-- How far the external counts come: by one at most with each move.
use sundries.Prelude.{
  ℕ, suc, ◌+◌, ◌≤◌, ◌≡◌, refl, Bool-cases, ==_iff, inl, inr, Option, none, some, ◌==◌, arith,
}
use sundries.Prelude.Int.{ℤ, ◌+ℤ◌}
use sundries.LockFreeStackWithRc.Memory.{
  Access, ok, dangling, overflows, wraps, ◌>>=◌, int_max, is_int, CountedNodePtr, Node, Memory,
  same_counted, found, write,
}
use sundries.LockFreeStackWithRc.Threads.{
  Pc, rests, pushes, looks, reads, swaps, won, adds, lost, frees, frees_lost, push_fails,
  push_swaps, counted, increase_head_count, fetch_add,
}
use sundries.LockFreeStackWithRc.Chains.{written}

module _ {ℓ} {T : Type ℓ} where
  -- No external count that the thread has read is above `b`.
  abbrev pub SmallPc : ℕ → Pc T → Type 0
  SmallPc b (rests r) = Unit
  SmallPc b (pushes x) = Unit
  SmallPc b (looks c) = c.external_count ≤ b
  SmallPc b (reads x e) = Unit
  SmallPc b (swaps x e n) = n.external_count ≤ b
  SmallPc b (won x e) = Unit
  SmallPc b (adds x e r) = Unit
  SmallPc b (lost x c) = c.external_count ≤ b
  SmallPc b (frees x r) = Unit
  SmallPc b (frees_lost x c) = c.external_count ≤ b

  abbrev pub SmallCells : ℕ → (ℕ → Option (Node T)) → Type ℓ
  SmallCells b cell = (a : ℕ) (n : Node T) → cell a ≡ some n → n.next.external_count ≤ b

  abbrev pub SmallMemory : ℕ → Memory T → Type ℓ
  SmallMemory b m = (m.head.external_count ≤ b) × SmallCells b m.cell

  -- What one move leaves of a bound `b`, which a count can only overflow if it is the greatest int.
  abbrev pub Grown : ℕ → Access (Pc T × Memory T) → Type ℓ
  Grown b (ok (p, m)) = SmallPc (suc b) p × SmallMemory (suc b) m
  Grown b dangling = Unit {ℓ}
  Grown b overflows = (int_max ≤ b) × Unit {ℓ}
  Grown b wraps = Unit {ℓ}

counted-SmallPc {ℓ} : (T : Type ℓ) (b e : ℕ) (o : Option ℕ) → SmallPc b (counted {T = T} e o)
counted-SmallPc T b e none = tt
counted-SmallPc T b e (some x) = tt

module _ {ℓ} {T : Type ℓ} where
  pub SmallPc-suc : (b : ℕ) (p : Pc T) → SmallPc b p → SmallPc (suc b) p
  SmallPc-suc b (rests r) h = tt
  SmallPc-suc b (pushes x) h = tt
  SmallPc-suc b (looks c) h = omega (arith, h)
  SmallPc-suc b (reads x e) h = tt
  SmallPc-suc b (swaps x e n) h = omega (arith, h)
  SmallPc-suc b (won x e) h = tt
  SmallPc-suc b (adds x e r) h = tt
  SmallPc-suc b (lost x c) h = omega (arith, h)
  SmallPc-suc b (frees x r) h = tt
  SmallPc-suc b (frees_lost x c) h = omega (arith, h)

  pub SmallCells-suc :
      (b : ℕ) (cell : ℕ → Option (Node T)) → SmallCells b cell → SmallCells (suc b) cell
  SmallCells-suc b cell h a n e = omega (arith, h a n e)

  pub SmallMemory-suc : (b : ℕ) (m : Memory T) → SmallMemory b m → SmallMemory (suc b) m
  SmallMemory-suc b m (h, k) = (omega (arith, h), SmallCells-suc b m.cell k)

  -- A thread that changes no memory.
  pub goes_on :
      (b : ℕ) (p : Pc T) (m : Memory T) → SmallPc b p → SmallMemory b m → Grown b (ok (p, m))
  goes_on b p m h k = (SmallPc-suc b p h, SmallMemory-suc b m k)

  -- A node is written.
  pub writes :
      (b : ℕ) (p : Pc T) (x : ℕ) (n : Node T) (m : Memory T)
      → SmallPc b p
      → n.next.external_count ≤ b
      → SmallMemory b m
      → Grown b (ok (p, write x n m))
  writes b p x n m h l (k, c) =
      goes_on b p (write x n m) h
        (k, written m.cell x n (λ a i. i.next.external_count ≤ b) l (λ a i t e. c a i e))

  -- A node that is read, or not there.
  pub reads_node :
      (b : ℕ) (o : Option (Node T)) (f : Node T → Access (Pc T × Memory T))
      → ((n : Node T) → o ≡ some n → Grown b (f n))
      → Grown b (found o >>= f)
  reads_node b none f h = tt
  reads_node b (some n) f h = h n refl

  pub push_fails-Grown : (b x : ℕ) (m : Memory T) → SmallMemory b m → Grown b (push_fails x m)
  push_fails-Grown b x m k = reads_node b (m.cell x) _ (λ n e. writes b (pushes x) x _ m tt k.0 k)

  pub push_swaps-Grown : (b x : ℕ) (m : Memory T) → SmallMemory b m → Grown b (push_swaps x m)
  push_swaps-Grown b x m k = reads_node b (m.cell x) _ (λ n e.
      elim (Bool-cases (same_counted n.next m.head)) [
        | inl s ↦ rw s (tt, (omega arith, SmallCells-suc b m.cell k.1))
        | inr s ↦ rw s (push_fails-Grown b x m k)
      ])

  pub increase-Grown :
      (b : ℕ) (c : CountedNodePtr) (m : Memory T)
      → c.external_count ≤ b
      → SmallMemory b m
      → Grown b (increase_head_count c m)
  increase-Grown b c m h k = elim (Bool-cases (c.external_count == int_max)) [
    | inl o ↦ rw o (omega (arith, h, (==_iff c.external_count int_max).0 o), tt)
    | inr o ↦ rw o (elim (Bool-cases (same_counted m.head c)) [
      | inl s ↦ rw s (
        counted-SmallPc T (suc b) (c.external_count + 1) c.ptr,
        (omega (arith, h), SmallCells-suc b m.cell k.1),
      )
      | inr s ↦ rw s (goes_on b (looks m.head) m k.0 k)
    ])
  ]

  pub fetch_add-Grown :
      (b : ℕ) (i : ℤ) (x : ℕ) (n : Node T) (p : Pc T) (m : Memory T)
      → SmallPc b p
      → n.next.external_count ≤ b
      → SmallMemory b m
      → Grown b (fetch_add i x n p m)
  fetch_add-Grown b i x n p m h l k = elim (Bool-cases (is_int (n.internal_count +ℤ i))) [
    | inl e ↦ rw e (writes b p x _ m h l k)
    | inr e ↦ rw e tt
  ]
