-- ===== src/LockFreeStackWithRc/Memory.antt =====
-- What the threads of a lock_free_stack_with_rc share.
use sundries.Prelude.{ℕ, suc, Bool, Option, none, some, ◌&&◌, ◌==◌, leb, update}
use sundries.Prelude.Int.{ℤ, pos_part, neg_part}
use sundries.LockFreeStack.Memory.{same}

-- What an access comes to. To follow a pointer to a node that is deleted, and to delete one twice, is
-- `dangling`. An int that is incremented at its greatest value `overflows`, which is undefined. An
-- atomic<int> that leaves its range wraps around: the model ends there, with `wraps`.
pub data Access {ℓ} (A : Type ℓ) : Type ℓ where
  ok : A → Access A
  dangling overflows wraps : Access A

infixl 5 ◌>>=◌
abbrev pub ◌>>=◌ {ℓ κ} : {A : Type ℓ} {B : Type κ} → Access A → (A → Access B) → Access B
ok a >>= f = f a
dangling >>= f = dangling
overflows >>= f = overflows
wraps >>= f = wraps

-- The greatest int, of 32 bits.
abbrev pub int_max : ℕ
int_max = 0x7fff_ffff

abbrev pub is_int : ℤ → Bool
is_int i = leb (pos_part i) int_max && leb (neg_part i) (suc int_max)

-- `external_count` is an int that counts up from 1, and from 0 in the null pointer of a new stack.
pub record CountedNodePtr : Type 0 where
  pub external_count : ℕ
  pub ptr : Option ℕ

pub record Node {ℓ} (T : Type ℓ) : Type ℓ where
  pub data_ptr : Option T
  pub internal_count : ℤ
  pub next : CountedNodePtr

-- `internal_count` is an atomic<int>, in its range: see `fetch_add` of Threads. `cell` holds the nodes that are allocated and not deleted.
pub record Memory {ℓ} (T : Type ℓ) : Type ℓ where
  pub cell : ℕ → Option (Node T)
  pub head : CountedNodePtr

-- The comparison of a compare-exchange.
abbrev pub same_counted : CountedNodePtr → CountedNodePtr → Bool
same_counted c d = c.external_count == d.external_count && same c.ptr d.ptr

module _ {ℓ} {T : Type ℓ} where
  abbrev pub found : Option (Node T) → Access (Node T)
  found none = dangling
  found (some n) = ok n

  abbrev pub read : ℕ → Memory T → Access (Node T)
  read a m = found (m.cell a)

  abbrev pub write : ℕ → Node T → Memory T → Memory T
  write a n m = record m { cell = update m.cell a (some n) }
