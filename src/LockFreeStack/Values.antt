-- ===== src/LockFreeStack/Values.antt =====
-- What a move does to the stack of values that the threads see.
use sundries.Prelude.{
  ℕ, ◌<◌, ◌≡◌, refl, sym, ap, ◌∙◌, subst, Option, none, some, List, [], ◌∷◌, if◌then◌else◌, arith,
}
use sundries.ThreadsafeQueue.Heap.{Node}
use sundries.LockFreeStack.Memory.{Memory, Access, ok, dangling, null_pointer, same}
use sundries.LockFreeStack.Threads.{
  Pc, rests, pushes, enters, looks, swaps, won, checks, takes, drops, rechains, frees, chains,
  leaves, Event, push_call, pop_call, moves, fails,
}
use sundries.LockFreeStack.Weights.{one_self, count, IsChain}
use sundries.LockFreeStack.Chains.{agree-IsChain}

-- An operation at the moment at which it takes effect; `missed` is a pop that finds nothing.
pub data Op {ℓ} (T : Type ℓ) : Type ℓ where
  pushed popped : Option T → Op T
  missed : Op T

module _ {ℓ} {T : Type ℓ} where
  abbrev pub data_at : Option (Node T) → Option T
  data_at none = none
  data_at (some n) = n.data_ptr

  abbrev pub values : (ℕ → Option (Node T)) → List ℕ → List (Option T)
  values cell [] = []
  values cell (x ∷ xs) = data_at (cell x) ∷ values cell xs

  abbrev pub missed_at : Option ℕ → Option (Op T)
  missed_at none = some missed
  missed_at (some x) = none

  abbrev pub next_at : Option (Node T) → Option ℕ
  next_at none = none
  next_at (some n) = n.next

  abbrev pub op_of_move : Pc T → Memory T → Option (Op T)
  op_of_move (pushes x) m =
      if same (next_at (m.cell x)) m.head then some (pushed (data_at (m.cell x))) else none
  op_of_move enters m = missed_at m.head
  op_of_move (swaps x n) m =
      if same m.head (some x) then some (popped (data_at (m.cell x))) else missed_at m.head
  op_of_move (rests r) m = none
  op_of_move (looks o) m = none
  op_of_move (won x) m = none
  op_of_move (checks r o) m = none
  op_of_move (takes r o) m = none
  op_of_move (drops r o ns) m = none
  op_of_move (rechains r o ns) m = none
  op_of_move (frees r ns) m = none
  op_of_move (chains r o) m = none
  op_of_move (leaves r) m = none

  abbrev pub op_of_fail : Pc T → Memory T → Option (Op T)
  op_of_fail (swaps x n) m = missed_at m.head
  op_of_fail (pushes x) m = none
  op_of_fail enters m = none
  op_of_fail (rests r) m = none
  op_of_fail (looks o) m = none
  op_of_fail (won x) m = none
  op_of_fail (checks r o) m = none
  op_of_fail (takes r o) m = none
  op_of_fail (drops r o ns) m = none
  op_of_fail (rechains r o ns) m = none
  op_of_fail (frees r ns) m = none
  op_of_fail (chains r o) m = none
  op_of_fail (leaves r) m = none

  abbrev pub op_of : Event T → Pc T → Memory T → Option (Op T)
  op_of (push_call v a) p m = none
  op_of pop_call p m = none
  op_of moves p m = op_of_move p m
  op_of fails p m = op_of_fail p m

  -- What an operation does to a stack of values, its top first.
  abbrev pub Follows : Option (Op T) → List (Option T) → List (Option T) → Type ℓ
  Follows none vs ws = vs ≡ ws
  Follows (some (pushed v)) vs ws = ws ≡ v ∷ vs
  Follows (some (popped v)) vs ws = vs ≡ v ∷ ws
  Follows (some missed) vs ws = (vs ≡ []) × (ws ≡ [])

  pub IsChain-unique :
      (cell : ℕ → Option (Node T)) (o : Option ℕ) (xs ys : List ℕ)
      → IsChain cell o xs
      → IsChain cell o ys
      → xs ≡ ys
  IsChain-unique cell o [] [] c d = refl
  IsChain-unique cell o [] (y ∷ ys) c d = absurd (ground (arith, c.0, d.0))
  IsChain-unique cell o (x ∷ xs) [] c d = absurd (ground (arith, c.0, d.0))
  IsChain-unique cell o (x ∷ xs) (y ∷ ys) (p, n, e, c) (q, k, f, d) =
      let h : x ≡ y = ground (arith, p, q) in
      let g : n ≡ k = ground (arith, e, f, h) in
      let rest =
        IsChain-unique cell n.next xs ys c (subst (λ z. IsChain cell z.next ys) (sym g) d) in
      rw h (ap (λ zs. y ∷ zs) rest)

  values_agree :
      (cell cell' : ℕ → Option (Node T)) (xs : List ℕ)
      → ((a : ℕ) → 0 < count a xs → cell' a ≡ cell a)
      → values cell xs ≡ values cell' xs
  values_agree cell cell' [] h = refl
  values_agree cell cell' (x ∷ xs) h =
      let e = h x (omega (arith, one_self x)) in
      let rest = values_agree cell cell' xs λ a r. h a (omega (arith, r)) in
      rw e (ap (λ vs. data_at (cell x) ∷ vs) rest)

  -- The same nodes stand on the stack, with what they held.
  pub same_values :
      (cell cell' : ℕ → Option (Node T)) (o : Option ℕ) (stack stack' : List ℕ)
      → ((a : ℕ) → 0 < count a stack → cell' a ≡ cell a)
      → IsChain cell o stack
      → IsChain cell' o stack'
      → values cell stack ≡ values cell' stack'
  same_values cell cell' o stack stack' h c d =
      let e = IsChain-unique cell' o stack stack' (agree-IsChain cell cell' o stack h c) d in
      values_agree cell cell' stack h ∙ ap (values cell') e

  pub empty_values :
      (cell cell' : ℕ → Option (Node T)) (xs ys : List ℕ)
      → IsChain cell none xs
      → IsChain cell' none ys
      → (values cell xs ≡ []) × (values cell' ys ≡ [])
  empty_values cell cell' [] [] c d = (refl, refl)
  empty_values cell cell' (x ∷ xs) ys c d = absurd (ground (arith, c.0))
  empty_values cell cell' xs (y ∷ ys) c d = absurd (ground (arith, d.0))

  -- The moment of a pop that finds nothing, or of nothing.
  pub missed_lem :
      (cell : ℕ → Option (Node T)) (o : Option ℕ) (xs ys : List ℕ)
      → IsChain cell o xs
      → IsChain cell o ys
      → Follows (missed_at o) (values cell xs) (values cell ys)
  missed_lem cell none xs ys c d = empty_values cell cell xs ys c d
  missed_lem cell (some x) xs ys c d = ap (values cell) (IsChain-unique cell (some x) xs ys c d)

  -- What an access of a thread does to the values.
  abbrev pub Takes : Option (Op T) → Memory T → List ℕ → Access (Pc T × Memory T) → Type ℓ
  Takes op m stack (ok (p, m')) =
      (stack' : List ℕ)
      → IsChain m'.cell m'.head stack'
      → Follows op (values m.cell stack) (values m'.cell stack')
  Takes op m stack dangling = Unit {ℓ}
  Takes op m stack null_pointer = Unit {ℓ}
