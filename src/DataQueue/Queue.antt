-- ===== src/DataQueue/Queue.antt =====
-- class threadsafe_queue of 4.5.threadsafe_queue.cpp: each member function holds the mutex throughout.
use sundries.Prelude.{Bool, true, false, Option, none, some, List, [], ◌∷◌, ◌++◌}

pub record Queue {ℓ} (T : Type ℓ) : Type ℓ where
  pub queue : List T

-- `waits` where the condition variable waits on.
pub data Awaited {ℓ} (T : Type ℓ) : Type ℓ where
  waits : Awaited T
  goes_on : T → Queue T → Awaited T

module _ {ℓ} {T : Type ℓ} where
  unfoldable pub push : T → Queue T → Queue T
  push value q = record { queue = q.queue ++ value ∷ [] }

  abbrev front_of : List T → Option T
  front_of [] = none
  front_of (x ∷ xs) = some x

  -- try_pop(T&): it reads the front value, and does not take it out.
  unfoldable pub try_pop_into : Queue T → Option T × Queue T
  try_pop_into q = (front_of q.queue, q)

  abbrev pop_from : List T → Option T × Queue T
  pop_from [] = (none, record { queue = [] })
  pop_from (x ∷ xs) = (some x, record { queue = xs })

  unfoldable pub try_pop : Queue T → Option T × Queue T
  try_pop q = pop_from q.queue

  abbrev pub await_from : List T → Awaited T
  await_from [] = waits
  await_from (x ∷ xs) = goes_on x (record { queue = xs })

  unfoldable pub wait_and_pop : Queue T → Awaited T
  wait_and_pop q = await_from q.queue

  abbrev is_nil : List T → Bool
  is_nil [] = true
  is_nil (x ∷ xs) = false

  unfoldable pub empty : Queue T → Bool
  empty q = is_nil q.queue

  unfoldable pub copy : Queue T → Queue T
  copy other = record { queue = other.queue }
