-- ===== src/ThreadPool/Order.antt =====
-- The order in which tasks are started.
use sundries.Prelude.{
  ℕ, ◌≡◌, refl, sym, ap, ◌∙◌, Bool, true, false, Option-cases, inl, inr, Option, none, some, List,
  [], ◌∷◌, ◌++◌, if◌then◌else◌, get_elem?, count_if, count_if-without, count_if-set,
  count_if-replicate, arith, append_assoc,
}
use sundries.ThreadPool.Pool.{
  Shared, Stage, starts, loops, runs, exited, Worker, Work, moves, submits, helps, returns, push,
  submit, try_pop, pop_pending, run_pending_task, at_stage, worker_thread, in_task, work, Pool,
  Event, works, submits_outside, helps_outside, outsider, destroys, step, run, new_pool,
}

module _ {ℓ} {T : Type ℓ} where
  abbrev one_if : Option (List T) → ℕ
  one_if none = 0
  one_if (some ts) = 1

  one_if-none : (o : Option (List T)) → one_if o ≡ 0 → o ≡ none
  one_if-none none h = refl
  one_if-none (some ts) h = absurd (omega (arith, h))

  abbrev has_local : Worker T → ℕ
  has_local w = one_if w.local_queue

  -- What is true of the shared part when no thread has a queue of its own.
  abbrev InOrder : Shared T → Type ℓ
  InOrder s = (s.started ++ s.queue ≡ s.submitted) × (s.use_local ≡ false)

  abbrev Ordered : Worker T × Shared T → Type ℓ
  Ordered r = InOrder r.1 × (r.0.local_queue ≡ none)

  push-Ordered :
      (o : Option (List T)) (t : T) (w : Worker T) (s : Shared T)
      → o ≡ none
      → Ordered (w, s)
      → Ordered (push o t w s)
  push-Ordered o t w s e ((h, k), l) =
      rw e ((sym (append_assoc s.started s.queue (t ∷ [])) ∙ ap (λ ts. ts ++ t ∷ []) h, k), l)

  try_pop-Ordered :
      (q : List T) (w : Worker T) (s : Shared T)
      → s.queue ≡ q
      → Ordered (w, s)
      → Ordered (try_pop q w s)
  try_pop-Ordered [] w s e h = h
  try_pop-Ordered (t ∷ q) w s e ((h, k), l) =
      ((append_assoc s.started (t ∷ []) q ∙ (ap (λ ts. s.started ++ ts) (sym e) ∙ h), k), l)

  pop_pending-Ordered :
      (o : Option (List T)) (w : Worker T) (s : Shared T)
      → o ≡ none
      → Ordered (w, s)
      → Ordered (pop_pending o w s)
  pop_pending-Ordered o w s e h = rw e (try_pop-Ordered s.queue w s refl h)

  test_done-Ordered :
      (b : Bool) (w : Worker T) (s : Shared T)
      → Ordered (w, s)
      → Ordered (if b then record w { stage = exited } else record w { stage = runs }, s)
  test_done-Ordered true w s h = h
  test_done-Ordered false w s h = h

  at_stage-Ordered :
      (g : Stage) (w : Worker T) (s : Shared T) → Ordered (w, s) → Ordered (at_stage g w s)
  unfolding run_pending_task
  at_stage-Ordered starts w s ((h, k), l) =
      ((h, k), ap (λ b. if b then some [] else w.local_queue) k ∙ l)
  at_stage-Ordered loops w s h = test_done-Ordered s.is_done w s h
  at_stage-Ordered runs w s h =
      pop_pending-Ordered w.local_queue (record w { stage = loops }) s h.1 h
  at_stage-Ordered exited w s h = h

  worker_thread-Ordered :
      (ts : List T) (w : Worker T) (s : Shared T) → Ordered (w, s) → Ordered (worker_thread ts w s)
  worker_thread-Ordered [] w s h = at_stage-Ordered w.stage w s h
  worker_thread-Ordered (t ∷ ts) w s h = h

  in_task-Ordered :
      (e : Work T) (ts : List T) (w : Worker T) (s : Shared T)
      → Ordered (w, s)
      → Ordered (in_task e ts w s)
  unfolding submit run_pending_task
  in_task-Ordered e [] w s h = h
  in_task-Ordered moves (t ∷ ts) w s h = h
  in_task-Ordered (submits u) (t ∷ ts) w s h = push-Ordered w.local_queue u w s h.1 h
  in_task-Ordered helps (t ∷ ts) w s h = pop_pending-Ordered w.local_queue w s h.1 h
  in_task-Ordered returns (t ∷ ts) w s h = h

  work-Ordered : (e : Work T) (w : Worker T) (s : Shared T) → Ordered (w, s) → Ordered (work e w s)
  unfolding work
  work-Ordered moves w s h = worker_thread-Ordered w.running w s h
  work-Ordered (submits u) w s h = in_task-Ordered (submits u) w.running w s h
  work-Ordered helps w s h = in_task-Ordered helps w.running w s h
  work-Ordered returns w s h = in_task-Ordered returns w.running w s h

  abbrev AllOrdered : Pool T → Type ℓ
  AllOrdered p = InOrder p.shared × (count_if has_local p.workers ≡ 0)

  helps-AllOrdered :
      (b : Bool) (p : Pool T)
      → AllOrdered p
      → AllOrdered (if b then p else record p { shared = (run_pending_task outsider p.shared).1 })
  unfolding run_pending_task
  helps-AllOrdered true p h = h
  helps-AllOrdered false p (h, k) =
      ((try_pop-Ordered p.shared.queue outsider p.shared refl (h, refl)).0, k)

  step-AllOrdered : (e : Event T) (p : Pool T) → AllOrdered p → AllOrdered (step e p)
  unfolding step
  step-AllOrdered (works i e) p (h, k) = elim (Option-cases (get_elem? p.workers i)) [
    | inl f ↦ rw f (h, k)
    | inr (w, f) ↦
        let split = count_if-without has_local p.workers i f in
        let (b, c) =
          work-Ordered e w p.shared (h, one_if-none w.local_queue (omega (arith, k, split))) in
        rw f (
          b,
          omega (
            arith,
            ap one_if c,
            k,
            split,
            count_if-set has_local p.workers i (work e w p.shared).0 f,
          ),
        )
  ]
  step-AllOrdered (submits_outside t) p (h, k) = (
    (push-Ordered none t (record { stage = exited; local_queue = none; running = [] }) p.shared refl
        (h, refl)).0,
    k,
  )
  step-AllOrdered helps_outside p h = helps-AllOrdered p.shared.is_done p h
  step-AllOrdered destroys p h = h

  run-AllOrdered : (es : List (Event T)) (p : Pool T) → AllOrdered p → AllOrdered (run es p)
  unfolding run
  run-AllOrdered [] p h = h
  run-AllOrdered (e ∷ es) p h = run-AllOrdered es (step e p) (step-AllOrdered e p h)

-- In a pool whose threads have no queues of their own, whatever the threads and the tasks do, also
-- tasks that submit others or run waiting ones: the tasks that were started, followed by those that
-- wait, are those that were submitted, in the order in which they were.
pub run_in_order {ℓ} :
    {T : Type ℓ} (n : ℕ) (es : List (Event T))
    → (run es (new_pool n false)).shared.started ++ (run es (new_pool n false)).shared.queue
      ≡ (run es (new_pool n false)).shared.submitted
unfolding new_pool
run_in_order {T = T} n es =
    (run-AllOrdered es (new_pool n false) (
      (refl, refl),
      count_if-replicate has_local n (record { stage = starts; local_queue = none; running = [] })
          refl,
    )).0.0
