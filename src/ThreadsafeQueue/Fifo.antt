-- ===== src/ThreadsafeQueue/Fifo.antt =====
-- The queue with a dummy refines a list: first in, first out.
use sundries.Prelude.{
  ℕ, ◌<◌, ◌≤◌, ◌≡◌, refl, ◌∙◌, subst, Bool, true, false, Bool-cases, Option, none, some, List, [],
  ◌∷◌, ◌++◌, inl, inr, ◌==◌, ==_iff, update, update_self, update_ne, arith,
}
use sundries.ThreadsafeQueue.Heap.{Node, empty_node, alloc, free, store}
use sundries.ThreadsafeQueue.Dummy.{Queue, is_at, new_queue, push, try_pop, pop_head, empty}

module _ {ℓ} {T : Type ℓ} where
  -- From `a` the nodes lead through the data `xs` to the dummy at `t`, at rising addresses.
  abbrev pub IsChain : (ℕ → Option (Node T)) → ℕ → List T → ℕ → Type ℓ
  IsChain cell a [] t = (a ≡ t) × (cell a ≡ some (record { data_ptr = none; next = none }))
  IsChain cell a (x ∷ xs) t =
      (b : ℕ) × (a < b)
      × (cell a ≡ some (record { data_ptr = some x; next = some b }))
      × IsChain cell b xs t

  pub record Holds (q : Queue T) (xs : List T) : Type ℓ where
    pub first : ℕ
    pub at_first : q.head ≡ some first
    pub chain : IsChain q.heap.cell first xs q.tail
    pub used : q.tail < q.heap.fresh

  IsChain-le :
      (cell : ℕ → Option (Node T)) (a : ℕ) (xs : List T) (t : ℕ) → IsChain cell a xs t → a ≤ t
  IsChain-le cell a [] t c = omega (arith, c.0)
  IsChain-le cell a (x ∷ xs) t (b, lt, e, c) = omega (arith, IsChain-le cell b xs t c)

  -- A chain rests on the cells from its start to its end.
  IsChain-frame :
      (cell new : ℕ → Option (Node T)) (a : ℕ) (xs : List T) (t : ℕ)
      → ((k : ℕ) → a ≤ k → k ≤ t → new k ≡ cell k)
      → IsChain cell a xs t
      → IsChain new a xs t
  IsChain-frame cell new a [] t same c = (c.0, same a (omega arith) (omega (arith, c.0)) ∙ c.1)
  IsChain-frame cell new a (x ∷ xs) t same (b, lt, e, c) = (
    b,
    lt,
    same a (omega arith) (omega (arith, IsChain-le cell b xs t c)) ∙ e,
    IsChain-frame cell new b xs t (λ k l r. same k (omega arith) r) c,
  )

  pub new_queue-Holds : Holds new_queue []
  unfolding new_queue
  new_queue-Holds = record { first = 0; at_first = refl; chain = (refl, refl); used = omega arith }

  -- The dummy gets data and a new dummy follows.
  IsChain-push :
      (cell new : ℕ → Option (Node T)) (a : ℕ) (xs : List T) (t n : ℕ) (v : T)
      → t < n
      → ((k : ℕ) → k < t → new k ≡ cell k)
      → new t ≡ some (record { data_ptr = some v; next = some n })
      → new n ≡ some (record { data_ptr = none; next = none })
      → IsChain cell a xs t
      → IsChain new a (xs ++ v ∷ []) n
  IsChain-push cell new a [] t n v lt same at_t at_n c =
      (n, omega (arith, c.0), rw c.0 at_t, (refl, at_n))
  IsChain-push cell new a (x ∷ xs) t n v lt same at_t at_n (b, ab, e, c) = (
    b,
    ab,
    same a (omega (arith, IsChain-le cell b xs t c)) ∙ e,
    IsChain-push cell new b xs t n v lt same at_t at_n c,
  )

  IsChain-end :
      (cell : ℕ → Option (Node T)) (a : ℕ) (xs : List T) (t : ℕ)
      → IsChain cell a xs t
      → cell t ≡ some (record { data_ptr = none; next = none })
  IsChain-end cell a [] t c = subst (λ k. cell k ≡ some empty_node) c.0 c.1
  IsChain-end cell a (x ∷ xs) t (b, ab, e, c) = IsChain-end cell b xs t c

  module _ (v : T) (q : Queue T) (xs : List T) (h : Holds q xs) where
    after_push : Queue T
    after_push = record {
      heap =
          store q.tail (record { data_ptr = some v; next = some q.heap.fresh })
            (alloc empty_node q.heap);
      head = q.head;
      tail = q.heap.fresh;
    }

    tail_dummy : (alloc empty_node q.heap).cell q.tail ≡ some empty_node
    tail_dummy =
        update_ne q.heap.cell q.heap.fresh (some empty_node) q.tail
          (λ e. absurd (omega (arith, h.used)))
        ∙ IsChain-end q.heap.cell h.first xs q.tail h.chain

    push-after_push : push v q ≡ some after_push
    unfolding push after_push
    push-after_push = rw tail_dummy

    after_push-Holds : Holds after_push (xs ++ v ∷ [])
    unfolding after_push
    after_push-Holds =
        let cell' = update q.heap.cell q.heap.fresh (some empty_node) in
        let linked : Option (Node T) =
          some (record { data_ptr = some v; next = some q.heap.fresh }) in
        record {
          first = h.first;
          at_first = h.at_first;
          chain =
              IsChain-push q.heap.cell _ h.first xs q.tail q.heap.fresh v h.used
                (λ k lt.
                  update_ne cell' q.tail linked k (λ e. absurd (omega arith))
                  ∙ update_ne q.heap.cell q.heap.fresh (some empty_node) k
                      (λ e. absurd (omega (arith, h.used))))
                (update_self cell' q.tail linked)
                (update_ne cell' q.tail linked q.heap.fresh (λ e. absurd (omega (arith, h.used)))
                  ∙ update_self q.heap.cell q.heap.fresh (some empty_node))
                h.chain;
          used = omega arith;
        }

  -- push puts the value behind all others.
  pub push-Holds :
      (v : T) (q : Queue T) (xs : List T)
      → Holds q xs
      → (q' : Queue T) × (push v q ≡ some q') × Holds q' (xs ++ v ∷ [])
  push-Holds v q xs h = (after_push v q xs h, push-after_push v q xs h, after_push-Holds v q xs h)

  pub is_at-first : (q : Queue T) (h : Holds q []) → is_at q.head q.tail ≡ true
  is_at-first q h = rw h.at_first ((==_iff _ _).1 h.chain.0)

  -- try_pop on an empty queue yields nothing and changes nothing.
  pub try_pop-nil : (q : Queue T) → Holds q [] → try_pop q ≡ some (none, q)
  unfolding try_pop
  try_pop-nil q h = rw (is_at-first q h)

  module _ (x : T) (xs : List T) (q : Queue T) (h : Holds q (x ∷ xs)) where
    pub after_pop : Queue T
    after_pop = record { heap = free h.first q.heap; head = some h.chain.0; tail = q.tail }

    pub not_at : is_at q.head q.tail ≡ false
    not_at = rw h.at_first (elim (Bool-cases (h.first == q.tail)) [
      | inl e ↦ absurd (
          omega (
            arith,
            (==_iff h.first q.tail).0 e,
            h.chain.1,
            IsChain-le q.heap.cell h.chain.0 xs q.tail h.chain.3,
          ))
      | inr e ↦ e
    ])

    pub pop_head-after_pop :
        pop_head q ≡ some (record { data_ptr = some x; next = some h.chain.0 }, after_pop)
    unfolding pop_head after_pop
    pop_head-after_pop = rw h.at_first (rw h.chain.2 refl)

    pub after_pop-Holds : Holds after_pop xs
    unfolding after_pop
    after_pop-Holds = record {
      first = h.chain.0;
      at_first = refl;
      chain =
          IsChain-frame q.heap.cell _ h.chain.0 xs q.tail
            (λ k l r. update_ne q.heap.cell h.first none k (λ e. absurd (omega (arith, h.chain.1))))
            h.chain.3;
      used = h.used;
    }

  -- try_pop takes the oldest value.
  pub try_pop-cons :
      (x : T) (xs : List T) (q : Queue T)
      → Holds q (x ∷ xs)
      → (q' : Queue T) × (try_pop q ≡ some (some x, q')) × Holds q' xs
  unfolding try_pop
  try_pop-cons x xs q h = (
    after_pop x xs q h,
    rw (not_at x xs q h) (rw (pop_head-after_pop x xs q h) refl),
    after_pop-Holds x xs q h,
  )

  -- empty tells whether there is a value.
  abbrev pub is_nil : List T → Bool
  is_nil [] = true
  is_nil (x ∷ xs) = false

  pub empty-is_nil : (q : Queue T) (xs : List T) → Holds q xs → empty q ≡ is_nil xs
  unfolding empty
  empty-is_nil q [] h = is_at-first q h
  empty-is_nil q (x ∷ xs) h = not_at x xs q h
