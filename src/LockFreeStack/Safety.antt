-- ===== src/LockFreeStack/Safety.antt =====
-- Every run of a lock_free_stack, of any number of threads.
use sundries.Prelude.{
  ℕ, ◌+◌, ◌^◌, ◌<◌, ◌≡◌, ◌≢◌, refl, subst, Option, none, some, List, [], ◌∷◌, count_if, count_if-le,
  count_if-le-length, without, count_if-without, count_if-set, length-without, count_if-replicate,
  get_elem?, set, length, length-set, length-replicate, Option-cases, inl, inr, arith,
}
use sundries.LockFreeStack.Memory.{Memory, Access, ok, dangling, null_pointer, ◌>>=◌}
use sundries.LockFreeStack.Threads.{Pc, rests, Event, System, act, step, run, start}
use sundries.LockFreeStack.Weights.{
  count, live, held, spared, refers, stale, in_pop, spared-le-held, refers-le-in_pop,
  stale-le-refers, in_pop-le-one, IsChain,
}
use sundries.LockFreeStack.Invariant.{Others, IsSafe, IsSum, Kept}
use sundries.LockFreeStack.Steps.{act-Kept}

module _ {ℓ} {T : Type ℓ} where
  abbrev pub total : List (Pc T) → Others T
  total ps w = count_if w ps

  pub total-IsSum :
      (ps : List (Pc T)) (i : ℕ) (p : Pc T)
      → get_elem? ps i ≡ some p
      → length ps < 2 ^ 32
      → IsSum (total (without i ps))
  total-IsSum ps i p e h = record {
    few =
        omega
          (arith, h, length-without ps i e, count_if-le-length in_pop in_pop-le-one (without i ps));
    spared_held = λ a. count_if-le (spared a) (held a) (spared-le-held a) (without i ps);
    refers_in_pop = λ a. count_if-le (refers a) in_pop (refers-le-in_pop a) (without i ps);
    stale_refers = λ a n. count_if-le (stale a n) (refers a) (stale-le-refers a n) (without i ps);
  }

  -- The invariant of the whole: a thread at rest adds nothing to the sums over all threads.
  pub IsSafeSystem : System T → List ℕ → Type ℓ
  IsSafeSystem s stack = IsSafe (rests none) (total s.threads) s.memory stack

  pub safe-IsChain :
      (s : System T) (stack : List ℕ)
      → IsSafeSystem s stack
      → IsChain s.memory.cell s.memory.head stack
  unfolding IsSafeSystem
  safe-IsChain s stack v = v.chain

  pub at_thread :
      (s : System T) (stack : List ℕ) (i : ℕ) (p : Pc T)
      → get_elem? s.threads i ≡ some p
      → IsSafeSystem s stack
      → IsSafe p (total (without i s.threads)) s.memory stack
  unfolding IsSafeSystem
  at_thread s stack i p e v = record {
    chain = v.chain;
    owned = λ a. omega (arith, v.owned a, count_if-without (held a) s.threads i e);
    counted = omega (arith, v.counted, count_if-without in_pop s.threads i e);
    guarded = λ a h.
        let r = count_if-without (refers a) s.threads i e in
        let k = count_if-without (spared a) s.threads i e in
        omega (arith, v.guarded a (omega (arith, h, r)), k);
    current = λ a n f c.
        omega (arith, v.current a n f c, count_if-without (stale a n.next) s.threads i e);
  }

  pub back_to_system :
      (s : System T) (stack : List ℕ) (i : ℕ) (p q : Pc T) (m : Memory T)
      → get_elem? s.threads i ≡ some p
      → IsSafe q (total (without i s.threads)) m stack
      → IsSafeSystem (record { memory = m; threads = set s.threads i q }) stack
  unfolding IsSafeSystem
  back_to_system s stack i p q m e v = record {
    chain = v.chain;
    owned = λ a. omega (arith, v.owned a, count_if-set (held a) s.threads i q e);
    counted = omega (arith, v.counted, count_if-set in_pop s.threads i q e);
    guarded = λ a h.
        let r = count_if-set (refers a) s.threads i q e in
        let k = count_if-set (spared a) s.threads i q e in
        omega (arith, v.guarded a (omega (arith, h, r)), k);
    current =
        λ a n f c. omega (arith, v.current a n f c, count_if-set (stale a n.next) s.threads i q e);
  }

  -- What a run comes to: `n` threads in an intact state, or the null pointer of chain_pending_nodes.
  abbrev pub Intact : ℕ → Access (System T) → Type ℓ
  Intact n (ok s) = (length s.threads ≡ n) × (stack : List ℕ) × IsSafeSystem s stack
  Intact n dangling = ⊥ × Unit {ℓ}
  Intact n null_pointer = Unit {ℓ}

  act_at-Intact :
      (s : System T) (i : ℕ) (p : Pc T) (r : Access (Pc T × Memory T))
      → get_elem? s.threads i ≡ some p
      → Kept (total (without i s.threads)) r
      → Intact
          (length s.threads)
          (r >>= λ t. ok (record { memory = t.1; threads = set s.threads i t.0 }))
  act_at-Intact s i p (ok (q, m)) e (stack, v) =
      (length-set s.threads i q, stack, back_to_system s stack i p q m e v)
  act_at-Intact s i p dangling e k = k
  act_at-Intact s i p null_pointer e k = k

  pub step-Intact :
      (i : ℕ) (e : Event T) (s : System T) (stack : List ℕ)
      → length s.threads < 2 ^ 32
      → IsSafeSystem s stack
      → Intact (length s.threads) (step i e s)
  unfolding step
  step-Intact i e s stack h v = elim (Option-cases (get_elem? s.threads i)) [
    | inl f ↦ rw f (refl, stack, v)
    | inr (p, f) ↦
        let sum = total-IsSum s.threads i p f h in
        let kept =
          act-Kept (total (without i s.threads)) sum e p s.memory stack
            (at_thread s stack i p f v) in
        rw f (act_at-Intact s i p (act e p s.memory) f kept)
  ]

  then_run :
      (n : ℕ) (es : List (ℕ × Event T)) (r : Access (System T))
      → n < 2 ^ 32
      → Intact n r
      → Intact n (r >>= run es)
  unfolding run
  then_run n [] (ok s) h k = k
  then_run n ((i, e) ∷ es) (ok s) h (l, stack, v) =
      let first = step-Intact i e s stack (omega (arith, h, l)) v in
      then_run n es (step i e s) h (subst (λ k. Intact k (step i e s)) l first)
  then_run n es dangling h k = k
  then_run n es null_pointer h k = k

  -- All threads are outside push and pop.
  abbrev pub AtRest : List (Pc T) → Type ℓ
  AtRest [] = Unit {ℓ}
  AtRest (p ∷ ps) = (r : Option T) × (p ≡ rests r) × AtRest ps

  AtRest-count :
      (w : Pc T → ℕ) (ps : List (Pc T))
      → ((r : Option T) → w (rests r) ≡ 0)
      → AtRest ps
      → count_if w ps ≡ 0
  AtRest-count w [] h q = refl
  AtRest-count w (p ∷ ps) h (r, e, q) = rw e (omega (arith, h r, AtRest-count w ps h q))

module _ {ℓ} (T : Type ℓ) where
  pub length-start : (n : ℕ) → length (start {T = T} n).threads ≡ n
  unfolding start
  length-start n = length-replicate n (rests none)

  count_if-start :
      (n : ℕ) (w : Pc T → ℕ) → w (rests none) ≡ 0 → count_if w (start {T = T} n).threads ≡ 0
  unfolding start
  count_if-start n w h = count_if-replicate w n (rests none) h

  pub start-IsSafeSystem : (n : ℕ) → IsSafeSystem (start {T = T} n) []
  unfolding IsSafeSystem start
  start-IsSafeSystem n = record {
    chain = (refl, tt);
    owned = λ a. omega (arith, count_if-start n (held a) refl);
    counted = omega (arith, count_if-start n in_pop refl);
    guarded = λ a h. absurd (omega (arith, h, count_if-start n (refers a) refl));
    current = λ a m e c. absurd (omega (arith, c));
  }

  pub run-Intact : (n : ℕ) (es : List (ℕ × Event T)) → n < 2 ^ 32 → Intact n (run es (start n))
  run-Intact n es h = then_run n es (ok (start n)) h (length-start n, [], start-IsSafeSystem n)

  -- For any number of threads that fits an unsigned, in every run of pushes and pops, however their
  -- accesses to what they share take turns and whichever addresses the allocator reuses, no thread
  -- follows a pointer to a deleted node, and no node is deleted twice.
  pub never_dangles : (n : ℕ) (es : List (ℕ × Event T)) → n < 2 ^ 32 → run es (start n) ≢ dangling
  never_dangles n es h e = (subst (Intact n) e (run-Intact n es h)).0

  -- In a state that such a run comes to, if all threads are at rest, a node that is allocated stands
  -- on the stack or waits in _to_be_deleted, once in all, and any other address on neither; and
  -- _threads_in_pop is 0.
  pub rest_without_leaks :
      (n : ℕ) (es : List (ℕ × Event T)) (s : System T)
      → n < 2 ^ 32
      → run es (start n) ≡ ok s
      → AtRest s.threads
      → (s.memory.threads_in_pop ≡ 0)
        × (stack : List ℕ) × IsChain s.memory.cell s.memory.head stack
        × ((a : ℕ) → count a stack + count a s.memory.to_be_deleted ≡ live (s.memory.cell a))
  unfolding IsSafeSystem
  rest_without_leaks n es s h e q =
      let (l, stack, v) = subst (Intact n) e (run-Intact n es h) in
      let counted = AtRest-count in_pop s.threads (λ r. refl) q in
      let owned : (a : ℕ) → count_if (held a) s.threads ≡ 0 =
        λ a. AtRest-count (held a) s.threads (λ r. refl) q in
      (omega (arith, v.counted, counted), stack, v.chain, λ a. omega (arith, v.owned a, owned a))
