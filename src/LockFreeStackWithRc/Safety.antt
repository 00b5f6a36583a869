-- ===== src/LockFreeStackWithRc/Safety.antt =====
-- Every run of a lock_free_stack_with_rc.
use sundries.Prelude.{
  ℕ, suc, ◌+◌, ◌^◌, ◌≤◌, ◌<◌, ◌≡◌, ◌⊎◌, ◌∙◌, refl, length, length-set, length-without,
  length-replicate, count_if-le-length, subst, Option, none, some, List, [], ◌∷◌, count_if, without,
  count_if-replicate, get_elem?, set, Option-cases, inl, inr, arith,
}
use sundries.LockFreeStackWithRc.Memory.{
  Access, ok, dangling, overflows, wraps, ◌>>=◌, int_max, Memory,
}
use sundries.LockFreeStackWithRc.Threads.{
  Pc, rests, pushes, looks, reads, swaps, won, adds, lost, frees, frees_lost, Event, System, act,
  step, run, start,
}
use sundries.LockFreeStackWithRc.Weights.{
  Links, linked, live, sole, pending, pending_count, refers, IsChain,
}
use sundries.LockFreeStackWithRc.Invariant.{Kept}
use sundries.LockFreeStackWithRc.Counts.{SmallMemory, SmallMemory-suc, Grown}
use sundries.LockFreeStackWithRc.Moves.{
  act-Grown, SmallThreads, SmallThreads-get, SmallThreads-set, SmallThreads-suc,
  SmallThreads-replicate,
}
use sundries.LockFreeStackWithRc.Whole.{total, total-IsSum, IsSafeSystem, at_thread, back_to_system}
use sundries.LockFreeStackWithRc.Steps.{act-Kept}

module _ {ℓ} {T : Type ℓ} where
  -- What a run of `n` threads comes to: an intact state, with external counts of at most `b`. A count
  -- leaves its range only after many moves, or with many threads.
  abbrev Intact : ℕ → ℕ → Access (System T) → Type ℓ
  Intact n b (ok s) =
      ((links : Links) × IsSafeSystem s links)
      × (length s.threads ≡ n)
      × SmallMemory b s.memory
      × SmallThreads b s.threads
  Intact n b dangling = ⊥ × Unit {ℓ}
  Intact n b overflows = (int_max ≤ b) × Unit {ℓ}
  Intact n b wraps = (int_max < n) × Unit {ℓ}

  refers-le-one : (a : ℕ) (p : Pc T) → refers a p ≤ 1
  refers-le-one a (rests r) = omega arith
  refers-le-one a (pushes x) = omega arith
  refers-le-one a (looks c) = omega arith
  refers-le-one a (reads x e) = ground arith
  refers-le-one a (swaps x e n) = ground arith
  refers-le-one a (won x e) = ground arith
  refers-le-one a (adds x e r) = ground arith
  refers-le-one a (lost x c) = ground arith
  refers-le-one a (frees x r) = omega arith
  refers-le-one a (frees_lost x c) = omega arith

  act_at-Intact :
      (n b : ℕ) (s : System T) (i : ℕ) (p : Pc T) (r : Access (Pc T × Memory T))
      → get_elem? s.threads i ≡ some p
      → length s.threads ≡ n
      → SmallThreads b s.threads
      → Kept (total (without i s.threads)) r
      → Grown b r
      → Intact n (suc b) (r >>= λ t. ok (record { memory = t.1; threads = set s.threads i t.0 }))
  act_at-Intact n b s i p (ok (q, m)) e l t (links, v) (g, h) = (
    (links, back_to_system s links i p q m e v),
    length-set s.threads i q ∙ l,
    h,
    SmallThreads-set (suc b) s.threads i q g (SmallThreads-suc b s.threads t),
  )
  act_at-Intact n b s i p dangling e l t k g = absurd k.0
  act_at-Intact n b s i p overflows e l t k g = (omega (arith, g.0), tt)
  act_at-Intact n b s i p wraps e l t ((a, k), u) g = (
    omega (
      arith,
      k,
      l,
      length-without s.threads i e,
      count_if-le-length (refers a) (refers-le-one a) (without i s.threads),
    ),
    tt,
  )

  step-Intact :
      (n b i : ℕ) (e : Event T) (s : System T) → Intact n b (ok s) → Intact n (suc b) (step i e s)
  unfolding step
  step-Intact n b i e s ((links, v), l, m, t) = elim (Option-cases (get_elem? s.threads i)) [
    | inl f ↦ rw f ((links, v), l, SmallMemory-suc b s.memory m, SmallThreads-suc b s.threads t)
    | inr (p, f) ↦
        let kept =
          act-Kept (total (without i s.threads)) (total-IsSum (without i s.threads)) e p s.memory
            links (at_thread s links i p f v) in
        let grown = act-Grown b e p s.memory (SmallThreads-get b s.threads i p f t) m in
        rw f (act_at-Intact n b s i p (act e p s.memory) f l t kept grown)
  ]

  then-Intact :
      (n b : ℕ) (es : List (ℕ × Event T)) (r : Access (System T))
      → ((s : System T) → Intact n (suc b) (ok s) → Intact n (length es + suc b) (run es s))
      → Intact n (suc b) r
      → Intact n (length es + suc b) (r >>= run es)
  then-Intact n b es (ok s) h v = h s v
  then-Intact n b es dangling h v = absurd v.0
  then-Intact n b es overflows h v = (omega (arith, v.0), tt)
  then-Intact n b es wraps h v = v

  run-Intact :
      (n b : ℕ) (es : List (ℕ × Event T)) (s : System T)
      → Intact n b (ok s)
      → Intact n (length es + b) (run es s)
  unfolding run
  run-Intact n b [] s v = subst (λ k. Intact n k (ok s)) (omega arith) v
  run-Intact n b ((i, e) ∷ es) s v =
      subst (λ k. Intact n k (step i e s >>= run es)) (omega arith)
        (then-Intact n b es (step i e s) (λ s' v'. run-Intact n (suc b) es s' v')
          (step-Intact n b i e s v))

  -- All threads are outside push and pop.
  abbrev pub AtRest : List (Pc T) → Type ℓ
  AtRest [] = Unit {ℓ}
  AtRest (p ∷ ps) = (r : Option T) × (p ≡ rests r) × AtRest ps

  AtRest-count :
      (w : Pc T → ℕ) (ps : List (Pc T))
      → ((r : Option T) → w (rests r) ≡ 0)
      → AtRest ps
      → count_if w ps ≡ 0
  AtRest-count w [] h q = refl
  AtRest-count w (p ∷ ps) h (r, e, q) = rw e (omega (arith, h r, AtRest-count w ps h q))

module _ {ℓ} (T : Type ℓ) where
  start-IsSafeSystem : (n : ℕ) → IsSafeSystem (start {T = T} n) []
  unfolding IsSafeSystem start
  start-IsSafeSystem n =
      let none_of : (w : Pc T → ℕ) → w (rests none) ≡ 0 → count_if w (start {T = T} n).threads ≡ 0 =
        λ w h. count_if-replicate w n (rests none) h in
      record {
        chain = (refl, tt);
        once = λ a. omega (arith, none_of (sole a) refl, none_of (pending a) refl);
        balanced = λ a k e. absurd (cc e);
        unreleased = λ a k e h. absurd (cc e);
        fits = λ a. omega (arith, none_of (pending_count a) refl);
        kept = λ a. omega arith;
        guarded = λ a h. absurd (omega (arith, h, none_of (refers a) refl));
        unshared = λ a h. omega (arith, none_of (refers a) refl);
        current = λ a k e. absurd (cc e);
      }

  start-Intact : (n : ℕ) → Intact n 0 (ok (start {T = T} n))
  unfolding start
  start-Intact n = (
    ([], start-IsSafeSystem n),
    length-replicate n (rests none),
    (omega arith, λ a k e. absurd (cc e)),
    SmallThreads-replicate T 0 n,
  )

  outcome :
      (n b : ℕ) (r : Access (System T))
      → n ≤ int_max
      → Intact n b r
      → ((s : System T) × (r ≡ ok s)) ⊎ ((r ≡ overflows) × (int_max ≤ b))
  outcome n b (ok s) h v = inl (s, refl)
  outcome n b dangling h v = absurd v.0
  outcome n b overflows h v = inr (refl, v.0)
  outcome n b wraps h v = absurd (omega (arith, h, v.0))

  -- For fewer than 2 ^ 31 threads, and a stack whose _head starts as null: every run of pushes and pops
  -- goes on to its end, however their accesses to what they share take turns and whichever addresses the
  -- allocator reuses, unless an external count overflows, which takes at least 2 ^ 31 - 1 moves. So no
  -- thread follows a pointer to a deleted node, no node is deleted twice, and no internal count wraps.
  pub run_goes_on :
      (n : ℕ) (es : List (ℕ × Event T))
      → n < 2 ^ 31
      → ((s : System T) × (run es (start n) ≡ ok s))
        ⊎ ((run es (start n) ≡ overflows) × (2 ^ 31 ≤ suc (length es)))
  run_goes_on n es h =
      elim (outcome n (length es + 0) (run es (start n)) (omega (arith, h))
        (run-Intact n 0 es (start n) (start-Intact n))) [
          | inl q ↦ inl q
          | inr (e, k) ↦ inr (e, omega (arith, k))
        ]

  -- In a state that a run comes to, if all threads are at rest, the nodes that are allocated are those
  -- on the stack, each once: every node that was popped is deleted.
  pub rest_without_garbage :
      (n : ℕ) (es : List (ℕ × Event T)) (s : System T)
      → run es (start n) ≡ ok s
      → AtRest s.threads
      → (links : Links) × IsChain s.memory.cell s.memory.head links
        × ((a : ℕ) → linked a links ≡ live (s.memory.cell a))
  unfolding IsSafeSystem
  rest_without_garbage n es s e q =
      let ((links, v), l, small, threads) =
        subst (Intact n (length es + 0)) e (run-Intact n 0 es (start n) (start-Intact n)) in
      let so = λ (a : ℕ). AtRest-count (sole a) s.threads (λ r. refl) q in
      let pe = λ (a : ℕ). AtRest-count (pending a) s.threads (λ r. refl) q in
      let re = λ (a : ℕ). AtRest-count (refers a) s.threads (λ r. refl) q in
      (links, v.chain, λ a. omega (arith, v.once a, v.kept a, so a, pe a, re a))
