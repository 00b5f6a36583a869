-- ===== src/LockFreeStack/Threads.antt =====
-- push, pop and try_reclaim, cut at the accesses to what the threads share.
use sundries.Prelude.{
  ℕ, ◌+◌, ◌-◌, ◌^◌, Bool, true, false, Option, none, some, List, [], ◌∷◌, ◌++◌, if◌then◌else◌, ◌==◌,
  get_elem?, set, replicate,
}
use sundries.ThreadsafeQueue.Heap.{Node}
use sundries.LockFreeStack.Memory.{
  Memory, Access, ok, null_pointer, ◌>>=◌, unsigned, same, read, write, delete_nodes, walk_nodes,
}

-- Where a thread stands, with the locals that are live there: `x` is a node, `o` is old_head after the
-- loop of pop, `r` is res, `ns` is nodes_to_delete.
pub data Pc {ℓ} (T : Type ℓ) : Type ℓ where
  -- Outside push and pop; `r` is what the last pop returned.
  rests : Option T → Pc T
  -- The loop of push.
  pushes : ℕ → Pc T
  -- After ++_threads_in_pop.
  enters : Pc T
  -- The loop of pop: before its test and the read of old_head->next, and before its exchange.
  looks : Option ℕ → Pc T
  swaps : ℕ → Option ℕ → Pc T
  -- Before res.swap(old_head->data).
  won : ℕ → Pc T
  -- The test at the start of try_reclaim.
  checks : Option T → Option ℕ → Pc T
  -- The only thread: before the exchange of _to_be_deleted, before --_threads_in_pop, before
  -- chain_pending_nodes(nodes_to_delete), before the nodes are deleted.
  takes : Option T → Option ℕ → Pc T
  drops : Option T → Option ℕ → List ℕ → Pc T
  rechains : Option T → Option ℕ → List ℕ → Pc T
  frees : Option T → List ℕ → Pc T
  -- Not the only thread: before chain_pending_nodes(old_head, old_head), before --_threads_in_pop.
  chains : Option T → Option ℕ → Pc T
  leaves : Option T → Pc T

abbrev pub to_list : Option ℕ → List ℕ
to_list none = []
to_list (some x) = x ∷ []

abbrev pub is_nil : List ℕ → Bool
is_nil [] = true
is_nil (x ∷ xs) = false

module _ {ℓ} {T : Type ℓ} where
  -- A compare-exchange of push that fails writes _head to new_node->next.
  abbrev pub push_fails : ℕ → Memory T → Access (Pc T × Memory T)
  push_fails x m = read x m >>= λ n. ok (pushes x, write x (record n { next = m.head }) m)

  abbrev pub push_swaps : ℕ → Memory T → Access (Pc T × Memory T)
  push_swaps x m = read x m >>= λ n.
      if same n.next m.head then ok (rests none, record m { head = some x }) else push_fails x m

  abbrev pub pop_looks : Option ℕ → Memory T → Access (Pc T × Memory T)
  pop_looks none m = ok (checks none none, m)
  pop_looks (some x) m = read x m >>= λ n. ok (swaps x n.next, m)

  -- A compare-exchange of pop that fails writes _head to old_head.
  abbrev pub pop_fails : Memory T → Access (Pc T × Memory T)
  pop_fails m = ok (looks m.head, m)

  abbrev pub pop_swaps : ℕ → Option ℕ → Memory T → Access (Pc T × Memory T)
  pop_swaps x n m = if same m.head (some x) then ok (won x, record m { head = n }) else pop_fails m

  abbrev pub takes_data : ℕ → Memory T → Access (Pc T × Memory T)
  takes_data x m =
      read x m >>= λ n. ok (checks n.data_ptr (some x), write x (record n { data_ptr = none }) m)

  abbrev pub counts_threads : Option T → Option ℕ → Memory T → Access (Pc T × Memory T)
  counts_threads r o m = ok (if m.threads_in_pop == 1 then takes r o else chains r o, m)

  abbrev pub leave_pop : Memory T → Memory T
  leave_pop m = record m { threads_in_pop = unsigned (m.threads_in_pop + 2 ^ 32 - 1) }

  abbrev pub drops_out : Option T → Option ℕ → List ℕ → Memory T → Access (Pc T × Memory T)
  drops_out r o ns m =
      let m' = leave_pop m in
      ok (
        if m'.threads_in_pop == 0
            then frees r (ns ++ to_list o)
            else if is_nil ns
            then frees r (to_list o)
            else rechains r o ns,
        m',
      )

  -- The thread writes to last->next, which only it reaches, until its exchange succeeds.
  abbrev pub chains_back : Option T → Option ℕ → List ℕ → Memory T → Access (Pc T × Memory T)
  chains_back r o ns m = walk_nodes ns m.cell >>= λ _.
      ok (frees r (to_list o), record m { to_be_deleted = ns ++ m.to_be_deleted })

  -- last->next is the first access, also where old_head is null.
  abbrev pub chains_one : Option T → Option ℕ → Memory T → Access (Pc T × Memory T)
  chains_one r none m = null_pointer
  chains_one r (some x) m =
      read x m >>= λ n. ok (leaves r, record m { to_be_deleted = x ∷ m.to_be_deleted })

  abbrev pub frees_nodes : Option T → List ℕ → Memory T → Access (Pc T × Memory T)
  frees_nodes r ns m = delete_nodes ns m.cell >>= λ cell. ok (rests r, record m { cell = cell })

  -- The next move of a thread. A resting thread has none.
  unfoldable pub advance : Pc T → Memory T → Access (Pc T × Memory T)
  unfolding delete_nodes walk_nodes
  advance (rests r) m = ok (rests r, m)
  advance (pushes x) m = push_swaps x m
  advance enters m = ok (looks m.head, m)
  advance (looks o) m = pop_looks o m
  advance (swaps x n) m = pop_swaps x n m
  advance (won x) m = takes_data x m
  advance (checks r o) m = counts_threads r o m
  advance (takes r o) m = ok (drops r o m.to_be_deleted, record m { to_be_deleted = [] })
  advance (drops r o ns) m = drops_out r o ns m
  advance (rechains r o ns) m = chains_back r o ns m
  advance (frees r ns) m = frees_nodes r ns m
  advance (chains r o) m = chains_one r o m
  advance (leaves r) m = ok (rests r, leave_pop m)

  -- compare_exchange_weak may fail with nothing in its way.
  unfoldable pub fail_weak : Pc T → Memory T → Access (Pc T × Memory T)
  fail_weak (pushes x) m = push_fails x m
  fail_weak (swaps x n) m = pop_fails m
  fail_weak p m = ok (p, m)

  -- push, up to its loop: the allocator gives an address that holds no node.
  abbrev pub new_at : T → ℕ → Option T → Option (Node T) → Memory T → Access (Pc T × Memory T)
  new_at v a r none m = ok (pushes a, write a (record { data_ptr = some v; next = m.head }) m)
  new_at v a r (some n) m = ok (rests r, m)

  unfoldable pub call_push : T → ℕ → Pc T → Memory T → Access (Pc T × Memory T)
  call_push v a (rests r) m = new_at v a r (m.cell a) m
  call_push v a p m = ok (p, m)

  unfoldable pub call_pop : Pc T → Memory T → Access (Pc T × Memory T)
  call_pop (rests r) m = ok (enters, record m { threads_in_pop = unsigned (m.threads_in_pop + 1) })
  call_pop p m = ok (p, m)

pub data Event {ℓ} (T : Type ℓ) : Type ℓ where
  push_call : T → ℕ → Event T
  pop_call moves fails : Event T

pub record System {ℓ} (T : Type ℓ) : Type ℓ where
  pub memory : Memory T
  pub threads : List (Pc T)

module _ {ℓ} {T : Type ℓ} where
  unfoldable pub act : Event T → Pc T → Memory T → Access (Pc T × Memory T)
  unfolding advance fail_weak call_push call_pop
  act (push_call v a) p m = call_push v a p m
  act pop_call p m = call_pop p m
  act moves p m = advance p m
  act fails p m = fail_weak p m

  abbrev pub act_at : Event T → ℕ → Option (Pc T) → System T → Access (System T)
  act_at e i none s = ok s
  act_at e i (some p) s =
      act e p s.memory >>= λ r. ok (record { memory = r.1; threads = set s.threads i r.0 })

  -- What thread `i` does next.
  unfoldable pub step : ℕ → Event T → System T → Access (System T)
  unfolding act
  step i e s = act_at e i (get_elem? s.threads i) s

  unfoldable pub run : List (ℕ × Event T) → System T → Access (System T)
  unfolding step
  run [] s = ok s
  run ((i, e) ∷ es) s = step i e s >>= run es

  -- The constructor, with `n` threads about. It leaves _head and _to_be_deleted without a value;
  -- here they are null.
  unfoldable pub start : ℕ → System T
  start n = record {
    memory = record { cell = λ a. none; head = none; threads_in_pop = 0; to_be_deleted = [] };
    threads = replicate n (rests none);
  }
