-- ===== src/LockFreeStack/Reclaim.antt =====
-- The moves of try_reclaim keep the invariant.
use sundries.Prelude.{
  ℕ, ◌+◌, ◌≤◌, ◌<◌, ◌≡◌, refl, sym, ◌∙◌, Bool-cases, Option, none, some, List, [], ◌∷◌, ◌++◌,
  if◌then◌else◌, ◌==◌, count_if-append, inl, inr, arith,
}
use sundries.LockFreeStack.Memory.{Memory}
use sundries.LockFreeStack.Threads.{
  Pc, takes, drops, rechains, frees, chains, to_list, is_nil, leave_pop, drops_out, chains_back,
  chains_one, frees_nodes,
}
use sundries.LockFreeStack.Weights.{one, one_self, count, live, held, spared, refers, stale, in_pop}
use sundries.LockFreeStack.Chains.{live-le-one, delete_nodes_lem, agree-IsChain, walk_nodes_lem}
use sundries.LockFreeStack.Found.{found_held}
use sundries.LockFreeStack.Invariant.{Others, IsSafe, IsSum, Kept}

module _ {ℓ} {T : Type ℓ} (others : Others T) (sum : IsSum others) where
  pub takes-Kept :
      (r : Option T) (o : Option ℕ) (m : Memory T) (stack : List ℕ)
      → IsSafe (takes r o) others m stack
      → IsSafe (drops r o m.to_be_deleted) others (record m { to_be_deleted = [] }) stack
  takes-Kept r o m stack v = record {
    chain = v.chain;
    owned = λ a. omega (arith, v.owned a);
    counted = v.counted;
    guarded = λ a h. omega (arith, v.guarded a h);
    current = v.current;
  }

  -- A thread that leaves pop.
  pub leave_pop_lem :
      (p q : Pc T) (m : Memory T) (stack : List ℕ)
      → IsSafe p others m stack
      → in_pop p ≡ 1
      → in_pop q ≡ 0
      → ((a : ℕ) → held a q ≡ held a p)
      → ((a : ℕ) → 0 < others (refers a) → spared a q ≡ spared a p)
      → ((a : ℕ) → refers a q ≡ 0)
      → ((a : ℕ) (n : Option ℕ) → stale a n q ≡ 0)
      → IsSafe q others (leave_pop m) stack
  leave_pop_lem p q m stack v i j h k r t = record {
    chain = v.chain;
    owned = λ a. omega (arith, v.owned a, h a);
    counted = omega (arith, v.counted, i, j, sum.few);
    guarded =
        λ a l. omega (arith, r a, k a (omega (arith, l, r a)), v.guarded a (omega (arith, l, r a)));
    current = λ a n e c. omega (arith, v.current a n e c, t a n.next);
  }

  left_alone :
      (m : Memory T)
      → m.threads_in_pop ≡ 1 + others in_pop
      → (leave_pop m).threads_in_pop ≡ others in_pop
  left_alone m e = omega (arith, e, sum.few)

  drops_more :
      (r : Option T) (o : Option ℕ) (ns : List ℕ) (m : Memory T) (stack : List ℕ)
      → IsSafe (drops r o ns) others m stack
      → IsSafe
          (if is_nil ns then frees r (to_list o) else rechains r o ns)
          others
          (leave_pop m)
          stack
  drops_more r o [] m stack v =
      leave_pop_lem (drops r o []) (frees r (to_list o)) m stack v refl refl (λ a. omega arith)
        (λ a h. refl) (λ a. refl) (λ a n. refl)
  drops_more r o (x ∷ ns) m stack v =
      leave_pop_lem (drops r o (x ∷ ns)) (rechains r o (x ∷ ns)) m stack v refl refl (λ a. refl)
        (λ a h. refl) (λ a. refl) (λ a n. refl)

  pub drops-Kept :
      (r : Option T) (o : Option ℕ) (ns : List ℕ) (m : Memory T) (stack : List ℕ)
      → IsSafe (drops r o ns) others m stack
      → Kept others (drops_out r o ns m)
  drops-Kept r o ns m stack v = elim (Bool-cases ((leave_pop m).threads_in_pop == 0)) [
    | inl e ↦ rw e (
      stack,
      leave_pop_lem (drops r o ns) (frees r (ns ++ to_list o)) m stack v refl refl
          (λ a. count_if-append (one a) ns (to_list o))
          (λ a h. absurd (ground (arith, left_alone m v.counted, e, sum.refers_in_pop a, h)))
          (λ a. refl) (λ a n. refl),
    )
    | inr e ↦ rw e (stack, drops_more r o ns m stack v)
  ]

  pub rechains-Kept :
      (r : Option T) (o : Option ℕ) (ns : List ℕ) (m : Memory T) (stack : List ℕ)
      → IsSafe (rechains r o ns) others m stack
      → Kept others (chains_back r o ns m)
  rechains-Kept r o ns m stack v = rw (walk_nodes_lem ns m.cell (λ a. omega (arith, v.owned a))) (
    stack,
    record {
      chain = v.chain;
      owned = λ a. omega (arith, v.owned a, count_if-append (one a) ns m.to_be_deleted);
      counted = v.counted;
      guarded = λ a h. omega (arith, v.guarded a h, count_if-append (one a) ns m.to_be_deleted);
      current = v.current;
    },
  )

  pub frees-Kept :
      (r : Option T) (ns : List ℕ) (m : Memory T) (stack : List ℕ)
      → IsSafe (frees r ns) others m stack
      → Kept others (frees_nodes r ns m)
  frees-Kept r ns m stack v =
      let fits : (a : ℕ) → count a ns ≤ live (m.cell a) = λ a. omega (arith, v.owned a) in
      let (cell, e, f, g) = delete_nodes_lem ns m.cell fits in
      let off : (a : ℕ) → 0 < count a stack → cell a ≡ m.cell a =
        λ a h. g a (omega (arith, h, v.owned a, live-le-one (m.cell a))) in
      rw e (
        stack,
        record {
          chain = agree-IsChain m.cell cell m.head stack off v.chain;
          owned = λ a. omega (arith, v.owned a, f a);
          counted = v.counted;
          guarded = v.guarded;
          current = λ a n l c. v.current a n (sym (off a c) ∙ l) c;
        },
      )

  pub chains-Kept :
      (r : Option T) (o : Option ℕ) (m : Memory T) (stack : List ℕ)
      → IsSafe (chains r o) others m stack
      → Kept others (chains_one r o m)
  chains-Kept r none m stack v = tt
  chains-Kept r (some x) m stack v =
      let (n, e) =
        found_held others sum (chains r (some x)) m stack x v (omega (arith, one_self x)) in
      rw e (
        stack,
        record {
          chain = v.chain;
          owned = λ a. omega (arith, v.owned a);
          counted = v.counted;
          guarded = λ a h. omega (arith, v.guarded a h);
          current = v.current;
        },
      )
