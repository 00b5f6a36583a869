-- ===== src/LockFreeStack/Chains.antt =====
-- Chains of nodes under the writes to the heap, and what delete_nodes does to a list of nodes.
use sundries.Prelude.{
  ℕ, ◌+◌, ◌≤◌, ◌<◌, ◌≡◌, refl, ap, ◌∙◌, Option, none, some, List, [], ◌∷◌, update, arith,
}
use sundries.ThreadsafeQueue.Heap.{Node}
use sundries.LockFreeStack.Memory.{ok, delete_nodes, walk_nodes}
use sundries.LockFreeStack.Threads.{to_list}
use sundries.LockFreeStack.Weights.{one_self, count, live, IsChain}

module _ {ℓ} {T : Type ℓ} where
  -- A write elsewhere leaves a chain as it is.
  pub update-IsChain :
      (cell : ℕ → Option (Node T)) (a : ℕ) (v : Option (Node T)) (o : Option ℕ) (xs : List ℕ)
      → count a xs ≡ 0
      → IsChain cell o xs
      → IsChain (update cell a v) o xs
  update-IsChain cell a v o [] h c = c
  update-IsChain cell a v o (x ∷ xs) h (p, n, q, c) =
      (p, n, ground (arith, h, q), update-IsChain cell a v n.next xs (omega arith) c)

  pub head-le-count :
      (cell : ℕ → Option (Node T)) (o : Option ℕ) (xs : List ℕ) (a : ℕ)
      → IsChain cell o xs
      → count a (to_list o) ≤ count a xs
  head-le-count cell o [] a c = rw c.0 (omega arith)
  head-le-count cell o (x ∷ xs) a c = rw c.0 (omega arith)

  pub live_found : (o : Option (Node T)) → 0 < live o → (n : Node T) × (o ≡ some n)
  live_found none h = absurd (omega arith)
  live_found (some n) h = (n, refl)

  pub live-le-one : (o : Option (Node T)) → live o ≤ 1
  live-le-one none = omega arith
  live-le-one (some n) = omega arith

  rest_fits :
      (x : ℕ) (xs : List ℕ) (cell : ℕ → Option (Node T))
      → ((a : ℕ) → count a (x ∷ xs) ≤ live (cell a))
      → (a : ℕ) → count a xs ≤ live (update cell x none a)
  rest_fits x xs cell h a = ground (arith, h a, live-le-one (cell a))

  pub delete_nodes_lem :
      (ns : List ℕ) (cell : ℕ → Option (Node T))
      → ((a : ℕ) → count a ns ≤ live (cell a))
      → (cell' : ℕ → Option (Node T)) × (delete_nodes ns cell ≡ ok cell')
        × ((a : ℕ) → live (cell' a) + count a ns ≡ live (cell a))
        × ((a : ℕ) → count a ns ≡ 0 → cell' a ≡ cell a)
  unfolding delete_nodes
  delete_nodes_lem [] cell h = (cell, refl, λ a. omega arith, λ a e. refl)
  delete_nodes_lem (x ∷ xs) cell h =
      let (n, e) = live_found (cell x) (omega (arith, h x, one_self x)) in
      let rest : (a : ℕ) → count a xs ≤ live (update cell x none a) = rest_fits x xs cell h in
      let (cell', f, g, k) = delete_nodes_lem xs (update cell x none) rest in
      (
        cell',
        rw e f,
        λ a. ground (arith, g a, h a, live-le-one (cell a)),
        λ a z. ground (arith, k a),
      )

  pub walk_nodes_lem :
      (ns : List ℕ) (cell : ℕ → Option (Node T))
      → ((a : ℕ) → count a ns ≤ live (cell a))
      → walk_nodes ns cell ≡ ok tt
  unfolding walk_nodes
  walk_nodes_lem [] cell h = refl
  walk_nodes_lem (x ∷ xs) cell h =
      let (n, e) = live_found (cell x) (omega (arith, h x, one_self x)) in
      rw e (walk_nodes_lem xs cell (λ a. omega (arith, h a)))

  pub head-cons :
      (cell : ℕ → Option (Node T)) (o : Option ℕ) (xs : List ℕ) (x : ℕ)
      → IsChain cell o xs
      → o ≡ some x
      → (n : Node T) × (ys : List ℕ) × (xs ≡ x ∷ ys) × (cell x ≡ some n) × IsChain cell n.next ys
  head-cons cell o [] x c e = absurd (ground (arith, c.0, e))
  head-cons cell o (y ∷ ys) x c e =
      let (p, n, q, d) = c in
      let f : y ≡ x = ground (arith, p, e) in (n, ys, ap (λ z. z ∷ ys) f, rw f at q, d)

  pub agree-IsChain :
      (cell cell' : ℕ → Option (Node T)) (o : Option ℕ) (xs : List ℕ)
      → ((a : ℕ) → 0 < count a xs → cell' a ≡ cell a)
      → IsChain cell o xs
      → IsChain cell' o xs
  agree-IsChain cell cell' o [] h c = c
  agree-IsChain cell cell' o (x ∷ xs) h (p, n, q, c) =
      let rest : (a : ℕ) → 0 < count a xs → cell' a ≡ cell a = λ a r. h a (omega (arith, r)) in
      (p, n, h x (omega (arith, one_self x)) ∙ q, agree-IsChain cell cell' n.next xs rest c)
