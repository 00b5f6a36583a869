-- ===== src/ThreadsafeList/Nodes.antt =====
-- class threadsafe_list. The locks of a walk go from node to node, so that a walk meets the list as
-- the walks before it left it; each member function is one step here. Nodes stand on the heap of
-- ThreadsafeQueue; `head` itself is no heap node, and only its `next` is used.
use sundries.Prelude.{
  ℕ, zero, suc, Bool, true, false, Option, none, some, List, [], ◌∷◌, ◌++◌, if◌then◌else◌, ◌>>=◌,
}
use sundries.ThreadsafeQueue.Heap.{Heap, empty_heap, alloc, free, store}

pub record LinkedList {ℓ} (T : Type ℓ) : Type ℓ where
  pub heap : Heap T
  pub head_next : Option ℕ

-- `current`: the list's own head, or a node.
pub data Place : Type 0 where
  at_head : Place
  at_node : ℕ → Place

module _ {ℓ} {T : Type ℓ} where
  unfoldable pub new_list : LinkedList T
  new_list = record { heap = empty_heap; head_next = none }

  -- current->next; `none` is a pointer followed to a deleted node.
  unfoldable pub next_of : Place → LinkedList T → Option (Option ℕ)
  next_of at_head l = some l.head_next
  next_of (at_node a) l = l.heap.cell a >>= λ n. some n.next

  -- current->next = p
  unfoldable pub set_next : Place → Option ℕ → LinkedList T → Option (LinkedList T)
  set_next at_head p l = some (record l { head_next = p })
  set_next (at_node a) p l =
      l.heap.cell a >>= λ n. some (record l { heap = store a (record n { next = p }) l.heap })

  unfoldable pub push_front : T → LinkedList T → LinkedList T
  push_front value l = record {
    heap = alloc (record { data_ptr = some value; next = l.head_next }) l.heap;
    head_next = some l.heap.fresh;
  }

  -- The rounds of the loops are bounded by fuel; `none` is also that it ran out.
  unfoldable pub walk {κ} :
      {R : Type κ} → (T → R → R × Bool) → ℕ → Place → R → LinkedList T → Option R
  unfolding next_of
  walk visit zero current r l = none
  walk visit (suc fuel) current r l = next_of current l >>= λ p. elim p [
    | none ↦ some r
    | some a ↦ l.heap.cell a >>= λ n. n.data_ptr >>= λ x.
        let (r', stop) = visit x r in
        let rest = walk visit fuel (at_node a) r' l in if stop then some r' else rest
  ]

  -- for_each: what the function saw, in order.
  unfoldable pub for_each : ℕ → LinkedList T → Option (List T)
  unfolding walk
  for_each fuel l = walk (λ x seen. (seen ++ x ∷ [], false)) fuel at_head [] l

  unfoldable pub find_first_if : (T → Bool) → ℕ → LinkedList T → Option (Option T)
  unfolding walk
  find_first_if p fuel l =
      walk (λ x r. if p x then (some x, true) else (r, false)) fuel at_head none l

  unfoldable pub remove_from : (T → Bool) → ℕ → Place → LinkedList T → Option (LinkedList T)
  unfolding next_of set_next
  remove_from p zero current l = none
  remove_from p (suc fuel) current l = next_of current l >>= λ q. elim q [
    | none ↦ some l
    | some a ↦ l.heap.cell a >>= λ n. n.data_ptr >>= λ x.
        let removed = set_next current n.next l >>= λ l'.
        remove_from p fuel current (record l' { heap = free a l'.heap }) in
        let kept = remove_from p fuel (at_node a) l in if p x then removed else kept
  ]

  unfoldable pub remove_if : (T → Bool) → ℕ → LinkedList T → Option (LinkedList T)
  unfolding remove_from
  remove_if p fuel l = remove_from p fuel at_head l
