-- ===== src/ThreadsafeQueue/Threads.antt =====
-- threadsafe_queue66 and threadsafe_queue with many threads. A push holds _tail_mutex throughout. A
-- pop holds _head_mutex throughout, and _tail_mutex only while it reads the tail: pushes fall between
-- its look at the tail and its taking of the head.
use sundries.Prelude.{
  Bool, true, false, Option, none, some, List, [], ◌∷◌, ◌++◌, if◌then◌else◌, ◌>>=◌,
}
use sundries.ThreadsafeQueue.Dummy.{Queue, is_at, new_queue, get_tail, push, pop_head}

-- `committed`: a popping thread holds _head_mutex, and has found the queue not empty. `results` is
-- what the pops have returned.
pub record Shared {ℓ} (T : Type ℓ) : Type ℓ where
  pub queue : Queue T
  pub committed : Bool
  pub results : List (Option T)

-- A push; the look of try_pop or of wait_and_pop at the tail; the taking of the head.
pub data Event {ℓ} (T : Type ℓ) : Type ℓ where
  pushes : T → Event T
  try_looks wait_looks takes : Event T

module _ {ℓ} {T : Type ℓ} where
  unfoldable pub start : Shared T
  unfolding new_queue
  start = record { queue = new_queue; committed = false; results = [] }

  unfoldable pub take_head : Shared T → Option (Shared T)
  take_head s = pop_head s.queue >>= λ r.
      some (record s { queue = r.1; committed = false; results = s.results ++ r.0.data_ptr ∷ [] })

  -- While another pop is between its two moves, a thread that wants to look waits for _head_mutex.
  -- try_pop returns no data at an empty queue; wait_and_pop goes on waiting.
  unfoldable pub step : Event T → Shared T → Option (Shared T)
  unfolding get_tail take_head
  step (pushes v) s = push v s.queue >>= λ q. some (record s { queue = q })
  step try_looks s =
      if s.committed
      then some s
      else if is_at s.queue.head (get_tail s.queue)
      then some (record s { results = s.results ++ none ∷ [] })
      else some (record s { committed = true })
  step wait_looks s =
      if s.committed
      then some s
      else if is_at s.queue.head (get_tail s.queue)
      then some s
      else some (record s { committed = true })
  step takes s = if s.committed then take_head s else some s

  unfoldable pub run : List (Event T) → Shared T → Option (Shared T)
  run [] s = some s
  run (e ∷ es) s = step e s >>= λ s'. run es s'
