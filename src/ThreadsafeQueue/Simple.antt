-- ===== src/ThreadsafeQueue/Simple.antt =====
-- simple_queue: a list without a dummy, and a `_tail` that no pop resets.
use sundries.Prelude.{
  ℕ, ◌<◌, ◌≡◌, refl, ◌∙◌, Option, none, some, ◌>>=◌, update, update_self, update_ne, arith,
}
use sundries.ThreadsafeQueue.Heap.{Heap, alloc, free, store}

-- `_tail` is a raw pointer, null or not.
pub record SimpleQueue {ℓ} (T : Type ℓ) : Type ℓ where
  pub heap : Heap T
  pub head : Option ℕ
  pub tail : Option ℕ

module _ {ℓ} {T : Type ℓ} where
  unfoldable pub simple_try_pop : SimpleQueue T → Option (Option T × SimpleQueue T)
  simple_try_pop q = elim q.head [
    | none ↦ some (none, q)
    | some a ↦
        q.heap.cell a >>= λ n. some (n.data_ptr, record q { heap = free a q.heap; head = n.next })
  ]

  unfoldable pub simple_push : T → SimpleQueue T → Option (SimpleQueue T)
  simple_push value q =
      let new_tail = q.heap.fresh in
      let h = alloc (record { data_ptr = some value; next = none }) q.heap in
      elim q.tail [
        | none ↦ some (record q { heap = h; head = some new_tail; tail = some new_tail })
        | some t ↦ h.cell t >>= λ n. some (record q {
          heap = store t (record n { next = some new_tail }) h;
          tail = some new_tail;
        })
      ]

  gone :
      (q : SimpleQueue T) (a : ℕ) (v : T)
      → a < q.heap.fresh
      → (alloc (record { data_ptr = some v; next = none }) (free a q.heap)).cell a ≡ none
  gone q a v lt =
      update_ne (update q.heap.cell a none) q.heap.fresh
        (some (record { data_ptr = some v; next = none })) a (λ e. absurd (omega arith))
      ∙ update_self q.heap.cell a none

  -- A pop that takes the last value leaves `_tail` at the deleted node, so that the next push, of
  -- whatever value, follows a dangling pointer.
  pub simple_push_dangles :
      (q : SimpleQueue T) (a : ℕ) (x v : T)
      → q.head ≡ some a
      → q.tail ≡ some a
      → q.heap.cell a ≡ some (record { data_ptr = some x; next = none })
      → a < q.heap.fresh
      → (q' : SimpleQueue T) × (simple_try_pop q ≡ some (some x, q'))
        × (q'.head ≡ none)
        × (simple_push v q' ≡ none)
  unfolding simple_try_pop simple_push
  simple_push_dangles q a x v h t c lt = (
    record q { heap = free a q.heap; head = none },
    rw h (rw c refl),
    refl,
    rw t (rw (gone q a v lt) refl),
  )
