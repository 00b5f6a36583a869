-- ===== src/LockFreeStack/Pop.antt =====
-- The moves of pop keep the invariant.
use sundries.Prelude.{
  ℕ, ◌≡◌, refl, subst, Bool-cases, Option, none, some, List, ◌∷◌, ◌==◌, inl, inr, arith,
}
use sundries.LockFreeStack.Memory.{Memory, same, same-eq, same_self}
use sundries.LockFreeStack.Threads.{
  Pc, enters, looks, swaps, won, checks, pop_looks, pop_swaps, takes_data, counts_threads,
}
use sundries.LockFreeStack.Weights.{one_self, count, held, in_pop, spared-le-held}
use sundries.LockFreeStack.Chains.{update-IsChain, head-le-count, live-le-one, head-cons}
use sundries.LockFreeStack.Found.{found_held, found_referred}
use sundries.LockFreeStack.Invariant.{Others, IsSafe, IsSum, Kept}

module _ {ℓ} {T : Type ℓ} (others : Others T) (sum : IsSum others) where
  -- A thread that comes to look at _head.
  pub looks-IsSafe :
      (p : Pc T) (m : Memory T) (stack : List ℕ)
      → IsSafe p others m stack
      → ((a : ℕ) → held a p ≡ 0)
      → in_pop p ≡ 1
      → IsSafe (looks m.head) others m stack
  looks-IsSafe p m stack v h i = record {
    chain = v.chain;
    owned = λ a. omega (arith, v.owned a, h a);
    counted = omega (arith, v.counted, i);
    guarded = λ a r.
        grind (
          arith,
          v.guarded a,
          h a,
          spared-le-held a p,
          head-le-count m.cell m.head stack a v.chain,
        );
    current = λ a n e c. omega (arith, v.current a n e c);
  }

  pub enters-Kept :
      (m : Memory T) (stack : List ℕ)
      → IsSafe enters others m stack
      → IsSafe (looks m.head) others m stack
  enters-Kept m stack v = looks-IsSafe enters m stack v (λ a. refl) refl

  pub looks-Kept :
      (o : Option ℕ) (m : Memory T) (stack : List ℕ)
      → IsSafe (looks o) others m stack
      → Kept others (pop_looks o m)
  looks-Kept none m stack v = (
    stack,
    record {
      chain = v.chain;
      owned = λ a. omega (arith, v.owned a);
      counted = v.counted;
      guarded = λ a r. omega (arith, v.guarded a (omega (arith, r)));
      current = λ a n e c. omega (arith, v.current a n e c);
    },
  )
  looks-Kept (some x) m stack v =
      let (n, e) =
        found_referred others sum (looks (some x)) m stack x v (omega (arith, one_self x)) in
      rw e (
        stack,
        record {
          chain = v.chain;
          owned = λ a. omega (arith, v.owned a);
          counted = v.counted;
          guarded = λ a r. omega (arith, v.guarded a (omega (arith, r)));
          current = λ a k f c. ground (arith, e, f, v.current a k f c, same_self n.next);
        },
      )

  -- The exchange of pop succeeds: the node is off the stack, and what was read of it still holds.
  pub pop_wins :
      (x : ℕ) (n : Option ℕ) (m : Memory T) (stack : List ℕ)
      → IsSafe (swaps x n) others m stack
      → m.head ≡ some x
      → (ys : List ℕ) × (stack ≡ x ∷ ys) × IsSafe (won x) others (record m { head = n }) ys
  pop_wins x n m stack v h =
      let (k, ys, e, f, c) = head-cons m.cell m.head stack x v.chain h in
      let w = subst (λ s. IsSafe (swaps x n) others m s) e v in
      let fresh : n ≡ k.next = same-eq n k.next (ground (arith, w.current x k f, one_self x)) in
      (
        ys,
        e,
        record {
          chain = rw fresh c;
          owned = λ a. omega (arith, w.owned a);
          counted = w.counted;
          guarded = λ a r. omega (arith, w.guarded a (omega (arith, r)));
          current = λ a l g d. omega (arith, w.current a l g (omega (arith, d)));
        },
      )

  pub swaps-Kept :
      (x : ℕ) (n : Option ℕ) (m : Memory T) (stack : List ℕ)
      → IsSafe (swaps x n) others m stack
      → Kept others (pop_swaps x n m)
  swaps-Kept x n m stack v = elim (Bool-cases (same m.head (some x))) [
    | inl e ↦
        let (ys, w, safe) = pop_wins x n m stack v (same-eq m.head (some x) e) in rw e (ys, safe)
    | inr e ↦ rw e (stack, looks-IsSafe (swaps x n) m stack v (λ a. refl) refl)
  ]

  pub won-Kept :
      (x : ℕ) (m : Memory T) (stack : List ℕ)
      → IsSafe (won x) others m stack
      → Kept others (takes_data x m)
  won-Kept x m stack v =
      let (n, e) = found_held others sum (won x) m stack x v (omega (arith, one_self x)) in
      let off : count x stack ≡ 0 = omega (arith, v.owned x, live-le-one (m.cell x), one_self x) in
      rw e (
        stack,
        record {
          chain = update-IsChain m.cell x _ m.head stack off v.chain;
          owned = λ a. ground (arith, v.owned a, e);
          counted = v.counted;
          guarded = λ a r. omega (arith, v.guarded a (omega (arith, r)));
          current = λ a l g d. ground (arith, v.current a l, g, d, off);
        },
      )

  pub checks-Kept :
      (r : Option T) (o : Option ℕ) (m : Memory T) (stack : List ℕ)
      → IsSafe (checks r o) others m stack
      → Kept others (counts_threads r o m)
  checks-Kept r o m stack v = elim (Bool-cases (m.threads_in_pop == 1)) [
    | inl e ↦ rw e (
      stack,
      record {
        chain = v.chain;
        owned = v.owned;
        counted = v.counted;
        guarded = λ a h. absurd (ground (arith, v.counted, e, sum.refers_in_pop a, h));
        current = v.current;
      },
    )
    | inr e ↦ rw e (
      stack,
      record {
        chain = v.chain;
        owned = v.owned;
        counted = v.counted;
        guarded = v.guarded;
        current = v.current;
      },
    )
  ]
