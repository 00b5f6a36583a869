-- ===== src/ThreadPool/Pool.antt =====
-- class thread_pool of 9.thread_pool/thread_pool.hpp.
use sundries.Prelude.{
  ℕ, Bool, true, false, Option, none, some, List, [], ◌∷◌, ◌++◌, if◌then◌else◌, get_elem?, set,
  replicate,
}

-- What the threads share. `submitted` and `started` record the tasks, in order; nothing reads them.
pub record Shared {ℓ} (T : Type ℓ) : Type ℓ where
  pub is_done : Bool
  pub queue : List T
  pub use_local : Bool
  pub submitted : List T
  pub started : List T

-- Where worker_thread stands: before its first line, at the test of _done, in the body of its loop, or
-- after it.
pub data Stage : Type 0 where
  starts loops runs exited : Stage

-- `local_queue` is the thread_local _local_queue; `running` holds the tasks that the thread is in, the
-- innermost first: a task may call run_pending_task.
pub record Worker {ℓ} (T : Type ℓ) : Type ℓ where
  pub stage : Stage
  pub local_queue : Option (List T)
  pub running : List T

-- What happens next on a thread: it moves on in worker_thread, or the task that it is in submits another,
-- calls run_pending_task, or returns. What the tasks do is up to the schedule.
pub data Work {ℓ} (T : Type ℓ) : Type ℓ where
  moves : Work T
  submits : T → Work T
  helps returns : Work T

module _ {ℓ} {T : Type ℓ} where
  abbrev pub push : Option (List T) → T → Worker T → Shared T → Worker T × Shared T
  push none t w s = (w, record s { queue = s.queue ++ t ∷ []; submitted = s.submitted ++ t ∷ [] })
  push (some ts) t w s = (
    record w { local_queue = some (ts ++ t ∷ []) },
    record s { submitted = s.submitted ++ t ∷ [] },
  )

  unfoldable pub submit : T → Worker T → Shared T → Worker T × Shared T
  submit t w s = push w.local_queue t w s

  abbrev start_task : T → Worker T → Worker T
  start_task t w = record w { running = t ∷ w.running }

  -- _queue.try_pop
  abbrev pub try_pop : List T → Worker T → Shared T → Worker T × Shared T
  try_pop [] w s = (w, s)
  try_pop (t ∷ q) w s = (start_task t w, record s { queue = q; started = s.started ++ t ∷ [] })

  abbrev pub pop_pending : Option (List T) → Worker T → Shared T → Worker T × Shared T
  pop_pending (some (t ∷ ts)) w s = (
    record (start_task t w) { local_queue = some ts },
    record s { started = s.started ++ t ∷ [] },
  )
  pop_pending (some []) w s = try_pop s.queue w s
  pop_pending none w s = try_pop s.queue w s

  unfoldable pub run_pending_task : Worker T → Shared T → Worker T × Shared T
  run_pending_task w s = pop_pending w.local_queue w s

  abbrev pub at_stage : Stage → Worker T → Shared T → Worker T × Shared T
  at_stage starts w s =
      (record w { stage = loops; local_queue = if s.use_local then some [] else w.local_queue }, s)
  at_stage loops w s =
      (if s.is_done then record w { stage = exited } else record w { stage = runs }, s)
  at_stage runs w s = run_pending_task (record w { stage = loops }) s
  at_stage exited w s = (w, s)

  -- The loop goes on when no task runs.
  abbrev pub worker_thread : List T → Worker T → Shared T → Worker T × Shared T
  worker_thread [] w s = at_stage w.stage w s
  worker_thread (t ∷ ts) w s = (w, s)

  abbrev pub in_task : Work T → List T → Worker T → Shared T → Worker T × Shared T
  in_task e [] w s = (w, s)
  in_task moves (t ∷ ts) w s = (w, s)
  in_task (submits u) (t ∷ ts) w s = submit u w s
  in_task helps (t ∷ ts) w s = run_pending_task w s
  in_task returns (t ∷ ts) w s = (record w { running = ts }, s)

  unfoldable pub work : Work T → Worker T → Shared T → Worker T × Shared T
  unfolding submit run_pending_task
  work moves w s = worker_thread w.running w s
  work (submits u) w s = in_task (submits u) w.running w s
  work helps w s = in_task helps w.running w s
  work returns w s = in_task returns w.running w s

pub record Pool {ℓ} (T : Type ℓ) : Type ℓ where
  pub shared : Shared T
  pub workers : List (Worker T)

-- A thread of the pool works, a thread with no local queue submits a task or calls run_pending_task, or
-- the destructor begins.
pub data Event {ℓ} (T : Type ℓ) : Type ℓ where
  works : ℕ → Work T → Event T
  submits_outside : T → Event T
  helps_outside destroys : Event T

module _ {ℓ} {T : Type ℓ} where
  abbrev pub work_at : ℕ → Work T → Option (Worker T) → Pool T → Pool T
  work_at i e none p = p
  work_at i e (some w) p =
      let r = work e w p.shared in record { shared = r.1; workers = set p.workers i r.0 }

  abbrev pub outsider : Worker T
  outsider = record { stage = exited; local_queue = none; running = [] }

  unfoldable pub step : Event T → Pool T → Pool T
  unfolding work submit run_pending_task
  step (works i e) p = work_at i e (get_elem? p.workers i) p
  step (submits_outside t) p = record p { shared = (submit t outsider p.shared).1 }
  -- Not once the destructor has begun: the pool is no longer there for such a call.
  step helps_outside p =
      if p.shared.is_done then p else record p { shared = (run_pending_task outsider p.shared).1 }
  step destroys p = record p { shared = record p.shared { is_done = true } }

  unfoldable pub run : List (Event T) → Pool T → Pool T
  unfolding step
  run [] p = p
  run (e ∷ es) p = run es (step e p)

  -- The constructor, where `n` is std::thread::hardware_concurrency().
  unfoldable pub new_pool : ℕ → Bool → Pool T
  new_pool n local = record {
    shared = record {
      is_done = false;
      queue = [];
      use_local = local;
      submitted = [];
      started = [];
    };
    workers = replicate n (record { stage = starts; local_queue = none; running = [] });
  }
