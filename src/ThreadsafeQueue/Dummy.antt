-- ===== src/ThreadsafeQueue/Dummy.antt =====
-- simple_queue_dummy, threadsafe_queue66 and threadsafe_queue: a list that ends in a node without
-- data, which `_tail` points at.
use sundries.Prelude.{ℕ, Bool, false, Option, none, some, if◌then◌else◌, ◌==◌, ◌>>=◌}
use sundries.ThreadsafeQueue.Heap.{Node, Heap, empty_heap, empty_node, alloc, free, store}

-- _head owns its node, _tail is a raw pointer that is never null.
pub record Queue {ℓ} (T : Type ℓ) : Type ℓ where
  pub heap : Heap T
  pub head : Option ℕ
  pub tail : ℕ

abbrev pub is_at : Option ℕ → ℕ → Bool
is_at none t = false
is_at (some a) t = a == t

module _ {ℓ} {T : Type ℓ} where
  -- The constructors: one node without data.
  unfoldable pub new_queue : Queue T
  new_queue = record { heap = alloc empty_node empty_heap; head = some 0; tail = 0 }

  unfoldable pub get_tail : Queue T → ℕ
  get_tail q = q.tail

  -- push: the new dummy is made, and the old one gets the data and the link.
  unfoldable pub push : T → Queue T → Option (Queue T)
  push value q =
      let new_tail = q.heap.fresh in
      let h = alloc empty_node q.heap in
      h.cell q.tail >>= λ n. some (record q {
        heap = store q.tail (record n { data_ptr = some value; next = some new_tail }) h;
        tail = new_tail;
      })

  -- pop_head: the head node leaves the list. It is deleted at the end of its caller, which has read
  -- its data by then.
  unfoldable pub pop_head : Queue T → Option (Node T × Queue T)
  pop_head q = q.head >>= λ a.
      q.heap.cell a >>= λ n. some (n, record q { heap = free a q.heap; head = n.next })

  -- try_pop: no data if the list is the dummy alone.
  unfoldable pub try_pop : Queue T → Option (Option T × Queue T)
  unfolding get_tail pop_head
  try_pop q =
      if is_at q.head (get_tail q)
      then some (none, q)
      else pop_head q >>= λ r. some (r.0.data_ptr, r.1)

  unfoldable pub empty : Queue T → Bool
  unfolding get_tail
  empty q = is_at q.head (get_tail q)
