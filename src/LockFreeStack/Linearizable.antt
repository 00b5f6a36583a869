-- ===== src/LockFreeStack/Linearizable.antt =====
-- Every run does to the values what a stack of values does.
use sundries.Prelude.{
  ℕ, ◌^◌, ◌<◌, ◌≡◌, ◌≢◌, refl, subst, Option, none, some, List, [], ◌∷◌, get_elem?, length,
  get_elem?-replicate, arith,
}
use sundries.ThreadsafeQueue.Heap.{Node}
use sundries.LockFreeStack.Memory.{Access, ok, dangling, null_pointer, ◌>>=◌}
use sundries.LockFreeStack.Threads.{
  Pc, rests, pushes, enters, looks, swaps, won, checks, takes, drops, rechains, frees, chains,
  leaves, Event, System, step, run, start,
}
use sundries.LockFreeStack.Weights.{IsChain}
use sundries.LockFreeStack.Safety.{IsSafeSystem, safe-IsChain, length-start, start-IsSafeSystem}
use sundries.LockFreeStack.Values.{values, Follows}
use sundries.LockFreeStack.History.{
  Mark, Phase, idle, begun, effected, wrong, mark_at, history, phase_of, op_in, Legal, Over,
}
use sundries.LockFreeStack.Due.{IsDue}
use sundries.LockFreeStack.Marked.{AllDue, mark_phase, Stepped, step-Stepped}

module _ {ℓ} {T : Type ℓ} where
  -- What a run that marks `hist` comes to, from values `vs` and phases `ph`.
  abbrev Linearized :
      List (ℕ × Option (Mark T)) → (ℕ → Phase T) → List (Option T) → Access (System T) → Type ℓ
  Linearized hist ph vs (ok s) =
      (stack : List ℕ) × IsChain s.memory.cell s.memory.head stack
      × Legal hist vs (values s.memory.cell stack)
      × AllDue (λ i. phase_of i hist (ph i)) s
  Linearized hist ph vs dangling = Unit {ℓ}
  Linearized hist ph vs null_pointer = Unit {ℓ}

  marked_first :
      (i : ℕ) (k : Option (Mark T)) (hist : List (ℕ × Option (Mark T))) (ph : ℕ → Phase T)
      → (vs us : List (Option T)) (r : Access (System T)) → Follows (op_in k) vs us
      → Linearized hist (mark_phase i k ph) us r
      → Linearized ((i, k) ∷ hist) ph vs r
  marked_first i k hist ph vs us (ok s) f (stack, chain, legal, due) =
      (stack, chain, (us, f, legal), due)
  marked_first i k hist ph vs us dangling f l = tt
  marked_first i k hist ph vs us null_pointer f l = tt

  then_linear :
      (n i : ℕ) (k : Option (Mark T)) (ph : ℕ → Phase T) (vs : List (Option T))
      → (es : List (ℕ × Event T)) (r : Access (System T)) → Stepped n i k ph vs r
      → ((s : System T) (stack : List ℕ)
          → length s.threads ≡ n
          → IsSafeSystem s stack
          → AllDue (mark_phase i k ph) s
          → Linearized
              (history es (ok s))
              (mark_phase i k ph)
              (values s.memory.cell stack)
              (run es s))
      → Linearized ((i, k) ∷ history es r) ph vs (r >>= run es)
  then_linear n i k ph vs es (ok s) (stack, l, v, f, due) rec =
      marked_first i k (history es (ok s)) ph vs (values s.memory.cell stack) (run es s) f
        (rec s stack l v due)
  then_linear n i k ph vs es dangling st rec = tt
  then_linear n i k ph vs es null_pointer st rec = tt

  run-Linearized :
      (n : ℕ) (es : List (ℕ × Event T)) (ph : ℕ → Phase T) (s : System T) (stack : List ℕ)
      → n < 2 ^ 32
      → length s.threads ≡ n
      → IsSafeSystem s stack
      → AllDue ph s
      → Linearized (history es (ok s)) ph (values s.memory.cell stack) (run es s)
  unfolding run history
  run-Linearized n [] ph s stack h l v due = (stack, safe-IsChain s stack v, refl, due)
  run-Linearized n ((i, e) ∷ es) ph s stack h l v due =
      let k = mark_at e (get_elem? s.threads i) s.memory in
      let first = step-Stepped ph i e s stack (omega (arith, h, l)) v due in
      then_linear n i k ph (values s.memory.cell stack) es (step i e s)
        (subst (λ j. Stepped j i k ph (values s.memory.cell stack) (step i e s)) l first)
        (λ s' stack' l' v' due'. run-Linearized n es (mark_phase i k ph) s' stack' h l' v' due')

  Over-right : (h : Phase T) (r : Option T) → Over h r → h ≢ wrong
  Over-right idle r d e = cc
  Over-right (begun c) r d e = cc
  Over-right (effected c op) r d e = cc
  Over-right wrong r d e = d.0

  IsDue-right : (p : Pc T) (h : Phase T) (cell : ℕ → Option (Node T)) → IsDue p h cell → h ≢ wrong
  IsDue-right (rests r) h cell d e = Over-right h r d e
  IsDue-right (pushes x) h cell (v, f, d) e = cc
  IsDue-right enters h cell d e = cc
  IsDue-right (looks none) h cell d e = cc
  IsDue-right (looks (some x)) h cell d e = cc
  IsDue-right (swaps x n) h cell d e = cc
  IsDue-right (won x) h cell d e = cc
  IsDue-right (checks r o) h cell (op, f, d) e = cc
  IsDue-right (takes r o) h cell (op, f, d) e = cc
  IsDue-right (drops r o ns) h cell (op, f, d) e = cc
  IsDue-right (rechains r o ns) h cell (op, f, d) e = cc
  IsDue-right (frees r ns) h cell (op, f, d) e = cc
  IsDue-right (chains r o) h cell (op, f, d) e = cc
  IsDue-right (leaves r) h cell (op, f, d) e = cc

module _ {ℓ} (T : Type ℓ) where
  start-AllDue : (n : ℕ) → AllDue (λ i. idle) (start {T = T} n)
  unfolding start
  start-AllDue n j q e = rw (get_elem?-replicate n j (rests none) e) refl

  -- For any number of threads that fits an unsigned, in a state that a run comes to: the operations, each
  -- taken at the one move that marks it, lead, in their order, from no values to the values that stand on
  -- the stack, as the operations of a stack do; no thread takes effect but once, after it called push or
  -- pop; and a thread outside push and pop has called neither, or its last call took effect and
  -- returned that, a push nothing and a pop the value, or nothing where there was none.
  pub linearizable :
      (n : ℕ) (es : List (ℕ × Event T)) (s : System T)
      → n < 2 ^ 32
      → run es (start n) ≡ ok s
      → (stack : List ℕ) × IsChain s.memory.cell s.memory.head stack
        × Legal (history es (ok (start n))) [] (values s.memory.cell stack)
        × ((i : ℕ) (p : Pc T)
            → get_elem? s.threads i ≡ some p
            → phase_of i (history es (ok (start n))) idle ≢ wrong)
        × ((i : ℕ) (r : Option T)
            → get_elem? s.threads i ≡ some (rests r)
            → Over (phase_of i (history es (ok (start n))) idle) r)
  linearizable n es s h e =
      let hist = history es (ok (start n)) in
      let (stack, chain, legal, due) = subst (Linearized hist (λ i. idle) []) e (
        run-Linearized n es (λ i. idle) (start n) [] h (length-start T n) (start-IsSafeSystem T n)
          (start-AllDue n)) in
      (
        stack,
        chain,
        legal,
        λ i p f. IsDue-right p (phase_of i hist idle) s.memory.cell (due i p f),
        λ i r f. due i (rests r) f,
      )
