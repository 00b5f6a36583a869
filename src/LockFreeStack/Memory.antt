-- ===== src/LockFreeStack/Memory.antt =====
-- What the threads of a lock_free_stack share, and what an access to it comes to.
use sundries.Prelude.{
  ◌≡◌, refl, arith, ℕ, ◌%◌, ◌^◌, Bool, true, false, Option, none, some, List, [], ◌∷◌, ◌==◌, update,
}
use sundries.ThreadsafeQueue.Heap.{Node}

-- `cell` holds the nodes that are allocated and not deleted. `to_be_deleted` is a chain of removed
-- nodes, which is kept as the list of their addresses.
pub record Memory {ℓ} (T : Type ℓ) : Type ℓ where
  pub cell : ℕ → Option (Node T)
  pub head : Option ℕ
  pub threads_in_pop : ℕ
  pub to_be_deleted : List ℕ

-- To follow a pointer to a node that is deleted, and to delete one twice, is `dangling`.
pub data Access {ℓ} (A : Type ℓ) : Type ℓ where
  ok : A → Access A
  dangling null_pointer : Access A

infixl 5 ◌>>=◌
abbrev pub ◌>>=◌ {ℓ κ} : {A : Type ℓ} {B : Type κ} → Access A → (A → Access B) → Access B
ok a >>= f = f a
dangling >>= f = dangling
null_pointer >>= f = null_pointer

-- std::atomic<unsigned>
abbrev pub unsigned : ℕ → ℕ
unsigned n = n % 2 ^ 32

abbrev pub same : Option ℕ → Option ℕ → Bool
same none none = true
same none (some b) = false
same (some a) none = false
same (some a) (some b) = a == b

pub same_self : (o : Option ℕ) → same o o ≡ true
same_self none = refl
same_self (some a) = ground arith

pub same-eq : (o p : Option ℕ) → same o p ≡ true → o ≡ p
same-eq none none h = refl
same-eq none (some b) h = ground (arith, h)
same-eq (some a) none h = ground (arith, h)
same-eq (some a) (some b) h = ground (arith, h)

module _ {ℓ} {T : Type ℓ} where
  abbrev found : Option (Node T) → Access (Node T)
  found none = dangling
  found (some n) = ok n

  abbrev pub read : ℕ → Memory T → Access (Node T)
  read a m = found (m.cell a)

  abbrev pub write : ℕ → Node T → Memory T → Memory T
  write a n m = record m { cell = update m.cell a (some n) }

  -- delete_nodes, and the walk of chain_pending_nodes to the last node.
  unfoldable pub delete_nodes : List ℕ → (ℕ → Option (Node T)) → Access (ℕ → Option (Node T))
  delete_nodes [] cell = ok cell
  delete_nodes (a ∷ rest) cell = found (cell a) >>= λ n. delete_nodes rest (update cell a none)

  unfoldable pub walk_nodes : List ℕ → (ℕ → Option (Node T)) → Access (Unit {0})
  walk_nodes [] cell = ok tt
  walk_nodes (a ∷ rest) cell = found (cell a) >>= λ n. walk_nodes rest cell
