-- ===== src/ThreadsafeStack/Stack.antt =====
-- The member functions, each of which holds the mutex throughout, and what threads see that call them
-- in some order.
use sundries.Prelude.{Bool, true, false, List, [], ◌∷◌}

-- std::stack, its top first.
pub record Stack {ℓ} (T : Type ℓ) : Type ℓ where
  pub data_stack : List T

-- What a call comes to: it returns a value or throws empty_stack. `poured` is pop into a reference.
pub data Answer {ℓ} (T : Type ℓ) : Type ℓ where
  done : Answer T
  popped poured : T → Answer T
  empty_stack : Answer T
  is_empty : Bool → Answer T

pub data Call {ℓ} (T : Type ℓ) : Type ℓ where
  push_call : T → Call T
  pop_call pop_into_call empty_call : Call T

module _ {ℓ} {T : Type ℓ} where
  unfoldable pub new_stack : Stack T
  new_stack = record { data_stack = [] }

  -- The copy constructor.
  unfoldable pub copy : Stack T → Stack T
  copy other = record { data_stack = other.data_stack }

  unfoldable pub push : T → Stack T → Stack T
  push value s = record { data_stack = value ∷ s.data_stack }

  -- _data.top() is read before _data.pop().
  abbrev pub pop_with : (T → Answer T) → List T → Answer T × Stack T
  pop_with answer [] = (empty_stack, record { data_stack = [] })
  pop_with answer (x ∷ xs) = (answer x, record { data_stack = xs })

  unfoldable pub pop : Stack T → Answer T × Stack T
  pop s = pop_with popped s.data_stack

  unfoldable pub pop_into : Stack T → Answer T × Stack T
  pop_into s = pop_with poured s.data_stack

  abbrev none_left : List T → Bool
  none_left [] = true
  none_left (x ∷ xs) = false

  unfoldable pub empty : Stack T → Bool
  empty s = none_left s.data_stack

  unfoldable pub step : Call T → Stack T → Answer T × Stack T
  unfolding push pop pop_into empty
  step (push_call v) s = (done, push v s)
  step pop_call s = pop s
  step pop_into_call s = pop_into s
  step empty_call s = (is_empty (empty s), s)

  -- The calls of all threads, in the order in which they get the mutex.
  unfoldable pub run : List (Call T) → Stack T → List (Answer T) × Stack T
  unfolding step
  run [] s = ([], s)
  run (c ∷ cs) s = let r = step c s in let rest = run cs r.1 in (r.0 ∷ rest.0, rest.1)
