-- ===== src/ThreadsafeQueue/Heap.antt =====
-- Nodes on a heap. A pointer is a number, or `none` for null; a cell that was deleted, or never
-- allocated, holds nothing, and to follow a pointer there is undefined behaviour, `none`.
use sundries.Prelude.{ℕ, suc, Option, none, some, update}

-- struct node: std::shared_ptr<T> data, std::unique_ptr<node> next.
pub record Node {ℓ} (T : Type ℓ) : Type ℓ where
  pub data_ptr : Option T
  pub next : Option ℕ

-- `fresh` is where the next node goes.
pub record Heap {ℓ} (T : Type ℓ) : Type ℓ where
  pub cell : ℕ → Option (Node T)
  pub fresh : ℕ

module _ {ℓ} {T : Type ℓ} where
  abbrev pub empty_heap : Heap T
  empty_heap = record { cell = λ a. none; fresh = 0 }

  abbrev pub empty_node : Node T
  empty_node = record { data_ptr = none; next = none }

  -- The heap after `new node`; the address is the old `fresh`.
  abbrev pub alloc : Node T → Heap T → Heap T
  alloc n h = record { cell = update h.cell h.fresh (some n); fresh = suc h.fresh }

  abbrev pub free : ℕ → Heap T → Heap T
  free a h = record h { cell = update h.cell a none }

  abbrev pub store : ℕ → Node T → Heap T → Heap T
  store a n h = record h { cell = update h.cell a (some n) }
