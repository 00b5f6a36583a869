-- ===== src/ThreadPool/Stop.antt =====
-- After the destructor has begun, when no thread is in a task or about to take one.
use sundries.Prelude.{
  ℕ, ◌+◌, ◌≡◌, refl, ap, Bool, true, false, Option-cases, inl, inr, List, [], ◌∷◌, if◌then◌else◌,
  get_elem?, count_if, count_if-without, count_if-set, arith,
}
use sundries.ThreadPool.Pool.{
  Shared, Stage, starts, loops, runs, exited, Worker, Work, moves, submits, helps, returns,
  at_stage, worker_thread, in_task, work, Pool, Event, works, submits_outside, helps_outside,
  outsider, destroys, step, run, run_pending_task,
}

abbrev in_body : Stage → ℕ
in_body starts = 0
in_body loops = 0
in_body runs = 1
in_body exited = 0

module _ {ℓ} {T : Type ℓ} where
  abbrev one_if_busy : List T → ℕ
  one_if_busy [] = 0
  one_if_busy (t ∷ ts) = 1

  abbrev busy : Worker T → ℕ
  busy w = one_if_busy w.running + in_body w.stage

  not_busy : (ts : List T) → one_if_busy ts ≡ 0 → ts ≡ []
  not_busy [] h = refl
  not_busy (t ∷ ts) h = absurd (omega (arith, h))

  abbrev pub AllIdle : List (Worker T) → Type 0
  AllIdle ws = count_if busy ws ≡ 0

  -- `started` and no later task; still stopped, still idle.
  abbrev Stopped : List T → Worker T × Shared T → Type ℓ
  Stopped started r =
      (r.1.started ≡ started) × (r.1.is_done ≡ true) × (r.0.running ≡ []) × (in_body r.0.stage ≡ 0)

  test_done-Stopped :
      (started : List T) (b : Bool) (w : Worker T) (s : Shared T)
      → b ≡ true
      → Stopped started (w, s)
      → Stopped started (if b then record w { stage = exited } else record w { stage = runs }, s)
  test_done-Stopped started true w s e (a, b, c, d) = (a, b, c, refl)
  test_done-Stopped started false w s e h = absurd (cc e)

  at_stage-Stopped :
      (started : List T) (g : Stage) (w : Worker T) (s : Shared T)
      → in_body g ≡ 0
      → Stopped started (w, s)
      → Stopped started (at_stage g w s)
  at_stage-Stopped started starts w s e (a, b, c, d) = (a, b, c, refl)
  at_stage-Stopped started loops w s e h = test_done-Stopped started s.is_done w s h.1 h
  at_stage-Stopped started runs w s e h = absurd (omega (arith, e))
  at_stage-Stopped started exited w s e h = h

  worker_thread-Stopped :
      (started ts : List T) (w : Worker T) (s : Shared T)
      → ts ≡ []
      → Stopped started (w, s)
      → Stopped started (worker_thread ts w s)
  worker_thread-Stopped started ts w s e h = rw e (at_stage-Stopped started w.stage w s h.3 h)

  in_task-Stopped :
      (started ts : List T) (e : Work T) (w : Worker T) (s : Shared T)
      → ts ≡ []
      → Stopped started (w, s)
      → Stopped started (in_task e ts w s)
  in_task-Stopped started ts e w s f h = rw f h

  work-Stopped :
      (started : List T) (e : Work T) (w : Worker T) (s : Shared T)
      → Stopped started (w, s)
      → Stopped started (work e w s)
  unfolding work
  work-Stopped started moves w s h = worker_thread-Stopped started w.running w s h.2 h
  work-Stopped started (submits u) w s h = in_task-Stopped started w.running (submits u) w s h.2 h
  work-Stopped started helps w s h = in_task-Stopped started w.running helps w s h.2 h
  work-Stopped started returns w s h = in_task-Stopped started w.running returns w s h.2 h

  abbrev AllStopped : List T → Pool T → Type ℓ
  AllStopped started p =
      (p.shared.started ≡ started) × (p.shared.is_done ≡ true) × AllIdle p.workers

  helps-AllStopped :
      (started : List T) (b : Bool) (p : Pool T)
      → b ≡ true
      → AllStopped started p
      → AllStopped started
          (if b then p else record p { shared = (run_pending_task outsider p.shared).1 })
  helps-AllStopped started b p e h = rw e h

  step-AllStopped :
      (started : List T) (e : Event T) (p : Pool T)
      → AllStopped started p
      → AllStopped started (step e p)
  unfolding step
  step-AllStopped started (works i e) p (h, d, k) = elim (Option-cases (get_elem? p.workers i)) [
    | inl f ↦ rw f (h, d, k)
    | inr (w, f) ↦
        let split = count_if-without busy p.workers i f in
        let (b, c, l, l') =
          work-Stopped started e w p.shared
            (h, d, not_busy w.running (omega (arith, k, split)), omega (arith, k, split)) in
        rw f (
          b,
          c,
          omega (
            arith,
            ap one_if_busy l,
            l',
            k,
            split,
            count_if-set busy p.workers i (work e w p.shared).0 f,
          ),
        )
  ]
  step-AllStopped started (submits_outside t) p h = h
  step-AllStopped started helps_outside p h = helps-AllStopped started p.shared.is_done p h.1 h
  step-AllStopped started destroys p (h, d, k) = (h, refl, k)

  run-AllStopped :
      (started : List T) (es : List (Event T)) (p : Pool T)
      → AllStopped started p
      → AllStopped started (run es p)
  unfolding run
  run-AllStopped started [] p h = h
  run-AllStopped started (e ∷ es) p h =
      run-AllStopped started es (step e p) (step-AllStopped started e p h)

-- After the destructor has begun, at a moment when no thread of the pool is in the body of its loop:
-- whatever happens then, no task is started any more, also none that waits. A thread outside the pool
-- may not call run_pending_task then.
pub stopped_starts_none {ℓ} :
    {T : Type ℓ} (p : Pool T) (es : List (Event T))
    → p.shared.is_done ≡ true
    → AllIdle p.workers
    → (run es p).shared.started ≡ p.shared.started
stopped_starts_none p es h k = (run-AllStopped p.shared.started es p (refl, h, k)).0
