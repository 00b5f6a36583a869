-- ===== src/LockFreeStackWithRc/Threads.antt =====
-- push and pop, cut at the accesses to what the threads share.
use sundries.Prelude.{
  ℕ, ◌+◌, ◌==◌, Option, none, some, List, [], ◌∷◌, if◌then◌else◌, update, get_elem?, set, replicate,
}
use sundries.Prelude.Int.{ℤ, pos, negsuc, ◌+ℤ◌, sub_ℕ, is_opposite}
use sundries.LockFreeStackWithRc.Memory.{
  Access, ok, overflows, wraps, ◌>>=◌, int_max, is_int, CountedNodePtr, Node, Memory, same_counted,
  read, write,
}

-- Where a thread stands, with the locals that are live there: `x` is a node, `e` is
-- old_head.external_count after increase_head_count, `r` is res.
pub data Pc {ℓ} (T : Type ℓ) : Type ℓ where
  -- Outside push and pop; `r` is what the last pop returned.
  rests : Option T → Pc T
  -- The loop of push.
  pushes : ℕ → Pc T
  -- The exchange of increase_head_count, with its old_counter.
  looks : CountedNodePtr → Pc T
  -- Before ptr->next is read, and before the exchange of _head.
  reads : ℕ → ℕ → Pc T
  swaps : ℕ → ℕ → CountedNodePtr → Pc T
  -- The exchange succeeded: before res.swap(ptr->data), and before fetch_add.
  won : ℕ → ℕ → Pc T
  adds : ℕ → ℕ → Option T → Pc T
  -- The exchange failed, and wrote _head to old_head: before fetch_sub.
  lost : ℕ → CountedNodePtr → Pc T
  -- Before delete ptr, in the one case and the other.
  frees : ℕ → Option T → Pc T
  frees_lost : ℕ → CountedNodePtr → Pc T

module _ {ℓ} {T : Type ℓ} where
  abbrev pub push_fails : ℕ → Memory T → Access (Pc T × Memory T)
  push_fails x m = read x m >>= λ n. ok (pushes x, write x (record n { next = m.head }) m)

  abbrev pub push_swaps : ℕ → Memory T → Access (Pc T × Memory T)
  push_swaps x m = read x m >>= λ n.
      if same_counted n.next m.head
      then ok (rests none, record m { head = record { external_count = 1; ptr = some x } })
      else push_fails x m

  abbrev pub counted : ℕ → Option ℕ → Pc T
  counted e none = rests none
  counted e (some x) = reads x e

  -- increase_head_count, and the test of ptr.
  abbrev pub increase_head_count : CountedNodePtr → Memory T → Access (Pc T × Memory T)
  increase_head_count c m =
      if c.external_count == int_max
      then overflows
      else if same_counted m.head c
      then ok (
        counted (c.external_count + 1) c.ptr,
        record m { head = record c { external_count = c.external_count + 1 } },
      )
      else ok (looks m.head, m)

  abbrev pub reads_next : ℕ → ℕ → Memory T → Access (Pc T × Memory T)
  reads_next x e m = read x m >>= λ n. ok (swaps x e n.next, m)

  abbrev pub pop_swaps : ℕ → ℕ → CountedNodePtr → Memory T → Access (Pc T × Memory T)
  pop_swaps x e n m =
      if same_counted m.head (record { external_count = e; ptr = some x })
      then ok (won x e, record m { head = n })
      else ok (lost x m.head, m)

  abbrev pub takes_data : ℕ → ℕ → Memory T → Access (Pc T × Memory T)
  takes_data x e m =
      read x m >>= λ n. ok (adds x e n.data_ptr, write x (record n { data_ptr = none }) m)

  -- internal_count.fetch_add, in node `n` at `x`; the thread goes on at `p`.
  abbrev pub fetch_add : ℤ → ℕ → Node T → Pc T → Memory T → Access (Pc T × Memory T)
  fetch_add i x n p m =
      if is_int (n.internal_count +ℤ i)
      then ok (p, write x (record n { internal_count = n.internal_count +ℤ i }) m)
      else wraps

  -- fetch_add(count_increase) == -count_increase
  abbrev pub adds_count : ℕ → ℕ → Option T → Memory T → Access (Pc T × Memory T)
  adds_count x e r m = read x m >>= λ n.
      fetch_add (sub_ℕ e 2) x n
        (if is_opposite n.internal_count (sub_ℕ e 2) then frees x r else rests r) m

  -- fetch_sub(1) == 1
  abbrev pub releases : ℕ → CountedNodePtr → Memory T → Access (Pc T × Memory T)
  releases x c m = read x m >>= λ n.
      fetch_add (negsuc 0) x n
        (if is_opposite n.internal_count (negsuc 0) then frees_lost x c else looks c) m

  abbrev pub deletes : ℕ → Pc T → Memory T → Access (Pc T × Memory T)
  deletes x p m = read x m >>= λ n. ok (p, record m { cell = update m.cell x none })

  -- The next move of a thread. A resting thread has none.
  unfoldable pub advance : Pc T → Memory T → Access (Pc T × Memory T)
  unfolding ◌+ℤ◌
  advance (rests r) m = ok (rests r, m)
  advance (pushes x) m = push_swaps x m
  advance (looks c) m = increase_head_count c m
  advance (reads x e) m = reads_next x e m
  advance (swaps x e n) m = pop_swaps x e n m
  advance (won x e) m = takes_data x e m
  advance (adds x e r) m = adds_count x e r m
  advance (lost x c) m = releases x c m
  advance (frees x r) m = deletes x (rests r) m
  advance (frees_lost x c) m = deletes x (looks c) m

  -- compare_exchange_weak, of push, may fail with nothing in its way.
  unfoldable pub fail_weak : Pc T → Memory T → Access (Pc T × Memory T)
  fail_weak (pushes x) m = push_fails x m
  fail_weak p m = ok (p, m)

  -- push, up to its loop: the allocator gives an address that holds no node.
  abbrev pub new_at : T → ℕ → Option T → Option (Node T) → Memory T → Access (Pc T × Memory T)
  new_at v a r none m =
      ok (pushes a, write a (record { data_ptr = some v; internal_count = pos 0; next = m.head }) m)
  new_at v a r (some n) m = ok (rests r, m)

  unfoldable pub call_push : T → ℕ → Pc T → Memory T → Access (Pc T × Memory T)
  call_push v a (rests r) m = new_at v a r (m.cell a) m
  call_push v a p m = ok (p, m)

  unfoldable pub call_pop : Pc T → Memory T → Access (Pc T × Memory T)
  call_pop (rests r) m = ok (looks m.head, m)
  call_pop p m = ok (p, m)

pub data Event {ℓ} (T : Type ℓ) : Type ℓ where
  push_call : T → ℕ → Event T
  pop_call moves fails : Event T

pub record System {ℓ} (T : Type ℓ) : Type ℓ where
  pub memory : Memory T
  pub threads : List (Pc T)

module _ {ℓ} {T : Type ℓ} where
  unfoldable pub act : Event T → Pc T → Memory T → Access (Pc T × Memory T)
  unfolding advance fail_weak call_push call_pop
  act (push_call v a) p m = call_push v a p m
  act pop_call p m = call_pop p m
  act moves p m = advance p m
  act fails p m = fail_weak p m

  abbrev pub act_at : Event T → ℕ → Option (Pc T) → System T → Access (System T)
  act_at e i none s = ok s
  act_at e i (some p) s =
      act e p s.memory >>= λ r. ok (record { memory = r.1; threads = set s.threads i r.0 })

  -- What thread `i` does next.
  unfoldable pub step : ℕ → Event T → System T → Access (System T)
  unfolding act
  step i e s = act_at e i (get_elem? s.threads i) s

  unfoldable pub run : List (ℕ × Event T) → System T → Access (System T)
  unfolding step
  run [] s = ok s
  run ((i, e) ∷ es) s = step i e s >>= run es

  -- The constructor, with `n` threads about. It leaves _head without a value; here it is null.
  unfoldable pub start : ℕ → System T
  start n = record {
    memory = record { cell = λ a. none; head = record { external_count = 0; ptr = none } };
    threads = replicate n (rests none);
  }
