-- ===== src/ThreadsafeQueue/Order.antt =====
-- Every interleaving of pushes and pops is first in, first out.
use sundries.Prelude.{
  ◌≡◌, ◌≢◌, refl, sym, ap, ◌∙◌, Bool, true, false, Option, none, some, List, [], ◌∷◌, ◌++◌,
  append-nil, append_assoc, arith,
}
use sundries.ThreadsafeQueue.Dummy.{get_tail}
use sundries.ThreadsafeQueue.Fifo.{
  Holds, new_queue-Holds, push-Holds, is_at-first, not_at, after_pop, pop_head-after_pop,
  after_pop-Holds,
}
use sundries.ThreadsafeQueue.Threads.{
  Shared, Event, pushes, try_looks, wait_looks, takes, start, take_head, step, run,
}

module _ {ℓ} {T : Type ℓ} where
  -- The values that pops returned.
  abbrev pub values : List (Option T) → List T
  values [] = []
  values (none ∷ rs) = values rs
  values (some x ∷ rs) = x ∷ values rs

  abbrev pub pushed : List (Event T) → List T
  pushed [] = []
  pushed (pushes v ∷ es) = v ∷ pushed es
  pushed (try_looks ∷ es) = pushed es
  pushed (wait_looks ∷ es) = pushed es
  pushed (takes ∷ es) = pushed es

  abbrev new_of : Event T → List T
  new_of (pushes v) = v ∷ []
  new_of try_looks = []
  new_of wait_looks = []
  new_of takes = []

  values-append : (rs ss : List (Option T)) → values (rs ++ ss) ≡ values rs ++ values ss
  values-append [] ss = refl
  values-append (none ∷ rs) ss = values-append rs ss
  values-append (some x ∷ rs) ss = ap (◌∷◌ x) (values-append rs ss)

  -- `xs` waits in the queue, and all that was pushed is `all`.
  record IsFifo (all : List T) (s : Shared T) (xs : List T) : Type ℓ where
    holds : Holds s.queue xs
    in_order : values s.results ++ xs ≡ all
    committed_some : s.committed ≡ true → xs ≢ []

  start-IsFifo : IsFifo [] start []
  unfolding start
  start-IsFifo = record {
    holds = new_queue-Holds;
    in_order = refl;
    committed_some = λ e. absurd (cc e);
  }

  abbrev Advances : List T → Event T → Shared T → Type ℓ
  Advances all e s =
      (s' : Shared T) × (xs' : List T) × (step e s ≡ some s') × IsFifo (all ++ new_of e) s' xs'

  append-ne-nil : (xs : List T) (v : T) → (xs ++ v ∷ []) ≢ []
  append-ne-nil [] v p = cc
  append-ne-nil (x ∷ xs) v p = cc

  step-pushes :
      (all : List T) (v : T) (s : Shared T) (xs : List T)
      → IsFifo all s xs
      → Advances all (pushes v) s
  unfolding step
  step-pushes all v s xs f =
      let (q, e, h) = push-Holds v s.queue xs f.holds in
      (
        record s { queue = q },
        xs ++ v ∷ [],
        rw e refl,
        record {
          holds = h;
          in_order =
              sym (append_assoc (values s.results) xs (v ∷ [])) ∙ ap (λ l. l ++ v ∷ []) f.in_order;
          committed_some = λ c. append-ne-nil xs v;
        },
      )

  -- Nothing but the commitment changes, and that to a queue that is not empty.
  stays :
      (all : List T) (s : Shared T) (xs : List T) (c : Bool)
      → IsFifo all s xs
      → (c ≡ true → xs ≢ [])
      → IsFifo (all ++ []) (record s { committed = c }) xs
  stays all s xs c f some_left = record {
    holds = f.holds;
    in_order = f.in_order ∙ sym (append-nil all);
    committed_some = some_left;
  }

  step-try_looks :
      (all : List T) (s : Shared T) (xs : List T) (c : Bool)
      → s.committed ≡ c
      → IsFifo all s xs
      → Advances all try_looks s
  unfolding step get_tail
  step-try_looks all s xs true e f = (
    record s { committed = true },
    xs,
    rw e (ground arith),
    stays all s xs true f (λ p. f.committed_some e),
  )
  step-try_looks all s [] false e f = (
    record s { results = s.results ++ none ∷ [] },
    [],
    rw e (rw (is_at-first s.queue f.holds) refl),
    record {
      holds = f.holds;
      in_order = simp (values-append, append-nil) (simp append-nil at f.in_order);
      committed_some = λ p. absurd (cc (e, p));
    },
  )
  step-try_looks all s (x ∷ xs) false e f = (
    record s { committed = true },
    x ∷ xs,
    rw e (rw (not_at x xs s.queue f.holds) refl),
    stays all s (x ∷ xs) true f (λ p q. cc),
  )

  step-wait_looks :
      (all : List T) (s : Shared T) (xs : List T) (c : Bool)
      → s.committed ≡ c
      → IsFifo all s xs
      → Advances all wait_looks s
  unfolding step get_tail
  step-wait_looks all s xs true e f = (
    record s { committed = true },
    xs,
    rw e (ground arith),
    stays all s xs true f (λ p. f.committed_some e),
  )
  step-wait_looks all s [] false e f = (
    record s { committed = false },
    [],
    rw e (rw (is_at-first s.queue f.holds) (ground arith)),
    stays all s [] false f (λ p. absurd (cc p)),
  )
  step-wait_looks all s (x ∷ xs) false e f = (
    record s { committed = true },
    x ∷ xs,
    rw e (rw (not_at x xs s.queue f.holds) refl),
    stays all s (x ∷ xs) true f (λ p q. cc),
  )

  step-takes :
      (all : List T) (s : Shared T) (xs : List T) (c : Bool)
      → s.committed ≡ c
      → IsFifo all s xs
      → Advances all takes s
  unfolding step take_head
  step-takes all s xs false e f = (
    record s { committed = false },
    xs,
    rw e (ground arith),
    stays all s xs false f (λ p. absurd (cc p)),
  )
  step-takes all s [] true e f = absurd (f.committed_some e refl)
  step-takes all s (x ∷ xs) true e f = (
    record s {
      queue = after_pop x xs s.queue f.holds;
      committed = false;
      results = s.results ++ some x ∷ [];
    },
    xs,
    rw e (rw (pop_head-after_pop x xs s.queue f.holds) refl),
    record {
      holds = after_pop-Holds x xs s.queue f.holds;
      in_order = simp (values-append, append-nil, append_assoc) f.in_order;
      committed_some = λ p. absurd (cc p);
    },
  )

  step-Advances :
      (all : List T) (e : Event T) (s : Shared T) (xs : List T) → IsFifo all s xs → Advances all e s
  step-Advances all (pushes v) s xs f = step-pushes all v s xs f
  step-Advances all try_looks s xs f = step-try_looks all s xs s.committed refl f
  step-Advances all wait_looks s xs f = step-wait_looks all s xs s.committed refl f
  step-Advances all takes s xs f = step-takes all s xs s.committed refl f

  new_of-pushed : (e : Event T) (es : List (Event T)) → new_of e ++ pushed es ≡ pushed (e ∷ es)
  new_of-pushed (pushes v) es = refl
  new_of-pushed try_looks es = refl
  new_of-pushed wait_looks es = refl
  new_of-pushed takes es = refl

  run-IsFifo :
      (es : List (Event T)) (all : List T) (s : Shared T) (xs : List T)
      → IsFifo all s xs
      → (s' : Shared T) × (xs' : List T) × (run es s ≡ some s') × IsFifo (all ++ pushed es) s' xs'
  unfolding run
  run-IsFifo [] all s xs f = (s, xs, refl, rw append-nil f)
  run-IsFifo (e ∷ es) all s xs f =
      let (s₁, xs₁, p₁, f₁) = step-Advances all e s xs f in
      let (s₂, xs₂, p₂, f₂) = run-IsFifo es (all ++ new_of e) s₁ xs₁ f₁ in
      (s₂, xs₂, rw (p₁, run) p₂, rw (← new_of-pushed e es) (rw (← append_assoc) f₂))

  -- However pushes and the two moves of pops take turns, no pointer is followed that is null or
  -- deleted, and the values that the pops have returned, in their order, and then those still in the
  -- queue, are the values pushed, in their order.
  pub run_fifo :
      (es : List (Event T))
      → (s : Shared T) × (xs : List T) × (run es start ≡ some s)
        × Holds s.queue xs
        × (values s.results ++ xs ≡ pushed es)
  run_fifo es =
      let (s, xs, p, f) = run-IsFifo es [] start [] start-IsFifo in (s, xs, p, f.holds, f.in_order)
