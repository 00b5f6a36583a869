-- ===== src/ThreadPool/Tasks.antt =====
-- No task is lost, and none is started twice.
use sundries.Prelude.{ℕ, ◌+◌, ◌≡◌, Option, none, some, List, count_if}
use sundries.ThreadPool.Pool.{Shared, Stage, starts, loops, runs, exited, Worker, Pool}

module _ {ℓ} {T : Type ℓ} (weight : T → ℕ) where
  -- However tasks are weighed.
  abbrev pub weigh : List T → ℕ
  weigh = count_if weight

  abbrev weigh_queue : Option (List T) → ℕ
  weigh_queue none = 0
  weigh_queue (some ts) = weigh ts

  abbrev pub waiting_at : Worker T → ℕ
  waiting_at w = weigh_queue w.local_queue

  abbrev early_at : Stage → Option (List T) → ℕ
  early_at starts (some ts) = 1
  early_at starts none = 0
  early_at loops o = 0
  early_at runs o = 0
  early_at exited o = 0

  -- 1 for a thread with a local queue that it is about to replace.
  abbrev early : Worker T → ℕ
  early w = early_at w.stage w.local_queue

  -- Tasks that wait or were started, against those submitted, but for `others` at the other workers.
  abbrev Balanced : ℕ → Worker T × Shared T → Type 0
  Balanced others r =
      (weigh r.1.submitted ≡ weigh r.1.started + weigh r.1.queue + (waiting_at r.0 + others))
      × (early r.0 ≡ 0)

  -- Tasks wait in the queue of the pool and in those of its threads.
  abbrev pub waiting : Pool T → ℕ
  waiting p = weigh p.shared.queue + count_if waiting_at p.workers

  abbrev Kept : Pool T → Type 0
  Kept p =
      (weigh p.shared.submitted ≡ weigh p.shared.started + waiting p)
      × (count_if early p.workers ≡ 0)
