-- ===== src/ThreadsafeQueue/Tests.antt =====
-- Queues of numbers.
use sundries.Prelude.{
  ℕ, ◌≡◌, refl, true, none, some, List, [], ◌∷◌, ◌++◌, if◌then◌else◌, ◌==◌, arith,
}
use sundries.ThreadsafeQueue.Dummy.{Queue, new_queue, push, empty}
use sundries.ThreadsafeQueue.Fifo.{Holds, new_queue-Holds, push-Holds, empty-is_nil}
use sundries.ThreadsafeQueue.Threads.{
  Shared, Event, pushes, try_looks, wait_looks, takes, start, run,
}
use sundries.ThreadsafeQueue.Order.{values, run_fifo}
use sundries.ThreadsafeQueue.Simple.{SimpleQueue, simple_try_pop, simple_push, simple_push_dangles}

-- A push falls between the two moves of a pop.
abbrev events : List (Event ℕ)
events = pushes 1 ∷ try_looks ∷ pushes 2 ∷ takes ∷ wait_looks ∷ takes ∷ try_looks ∷ pushes 3 ∷ []

run_fifo_example :
    (s : Shared ℕ) × (xs : List ℕ) × (run events start ≡ some s)
    × Holds s.queue xs
    × (values s.results ++ xs ≡ 1 ∷ 2 ∷ 3 ∷ [])
run_fifo_example = run_fifo events

abbrev fresh : Queue ℕ
fresh = new_queue

abbrev filled : (q : Queue ℕ) × (push 5 fresh ≡ some q) × Holds q (5 ∷ [])
filled = push-Holds 5 fresh [] new_queue-Holds

push-Holds_example : (q : Queue ℕ) × (push 5 new_queue ≡ some q) × Holds q (5 ∷ [])
push-Holds_example = push-Holds 5 new_queue [] new_queue-Holds

empty-is_nil_example : empty fresh ≡ true
empty-is_nil_example = empty-is_nil fresh [] new_queue-Holds

abbrev single : SimpleQueue ℕ
single = record {
  heap = record {
    cell = λ a. if a == 0 then some (record { data_ptr = some 9; next = none }) else none;
    fresh = 1;
  };
  head = some 0;
  tail = some 0;
}

simple_push_dangles_example :
    (q : SimpleQueue ℕ) × (simple_try_pop single ≡ some (some 9, q))
    × (q.head ≡ none)
    × (simple_push 4 q ≡ none)
simple_push_dangles_example = simple_push_dangles single 0 9 4 refl refl refl (omega arith)
