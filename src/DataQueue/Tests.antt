-- ===== src/DataQueue/Tests.antt =====
-- Runs of the two threads, and calls of the queue.
use sundries.Prelude.{ℕ, ◌≤◌, ◌≡◌, refl, true, some, List, [], ◌∷◌}
use sundries.DataQueue.Queue.{Queue, push, try_pop_into, try_pop, empty, copy}
use sundries.DataQueue.Threads.{to_do, Thread, prepare, process_data, run, start}
use sundries.DataQueue.InTurn.{twice, chunks_from, processed_in_turn}
use sundries.DataQueue.Ends.{rounds, Ended, both_end}

abbrev one_two : Queue ℕ
one_two = record { queue = 1 ∷ 2 ∷ [] }

-- try_pop takes the value out; try_pop(T&) gives the same value again.
try_pop_test : try_pop (try_pop one_two).1 ≡ (some 2, record { queue = [] })
unfolding try_pop
try_pop_test = refl

try_pop_into_test :
    try_pop_into (try_pop_into (copy one_two)).1 ≡ (some 1, push 2 (push 1 (record { queue = [] })))
unfolding try_pop_into copy push
try_pop_into_test = refl

empty_test : empty (try_pop (try_pop one_two).1).1 ≡ true
unfolding empty try_pop
empty_test = refl

-- Three chunks are prepared before the first is processed.
abbrev head_start : List Thread
head_start =
    process_data ∷ prepare ∷ prepare ∷ prepare ∷ prepare ∷ prepare ∷ prepare ∷ process_data
    ∷ process_data ∷ process_data ∷ process_data ∷ []

head_start_test : (run head_start start).data_queue ≡ record { queue = twice 3 ∷ [] }
unfolding run start
head_start_test = refl

processed_in_turn_example :
    ((run head_start start).printed ≡ chunks_from 0 (run head_start start).g_done)
    × ((run head_start start).g_done ≤ to_do)
processed_in_turn_example = processed_in_turn head_start

both_end_example : Ended (run (rounds 302) (run head_start start))
both_end_example = both_end head_start
