-- ===== src/ThreadPool/Tests.antt =====
-- Runs of the pool on numbered tasks.
use sundries.Prelude.{ℕ, ◌≡◌, refl, true, false, List, [], ◌∷◌, ◌++◌}
use sundries.ThreadPool.Pool.{
  moves, submits, helps, returns, Pool, Event, works, submits_outside, helps_outside, destroys, run,
  new_pool,
}
use sundries.ThreadPool.Order.{run_in_order}
use sundries.ThreadPool.Stop.{AllIdle, stopped_starts_none}

-- Both threads begin their loops; task 1 submits task 3 and helps, then both tasks return.
abbrev helping : List (Event ℕ)
helping =
    submits_outside 1
    ∷ submits_outside 2
    ∷ works 0 moves
    ∷ works 1 moves
    ∷ works 0 moves
    ∷ works 0 moves
    ∷ works 0 (submits 3)
    ∷ works 0 helps
    ∷ works 0 returns
    ∷ works 0 returns
    ∷ []

helping_test : (run helping (new_pool 2 false)).shared.started ≡ 1 ∷ 2 ∷ []
unfolding run new_pool
helping_test = refl

-- With queues of their own, task 1 takes its own task 3 first.
helping_local_test : (run helping (new_pool 2 true)).shared.started ≡ 1 ∷ 3 ∷ []
unfolding run new_pool
helping_local_test = refl

run_in_order_example :
    (run helping (new_pool 2 false)).shared.started ++ (run helping (new_pool 2 false)).shared.queue
    ≡ (run helping (new_pool 2 false)).shared.submitted
run_in_order_example = run_in_order 2 helping

-- The caller of do_sort helps while it waits.
abbrev helped : List (Event ℕ)
helped = submits_outside 1 ∷ submits_outside 2 ∷ helps_outside ∷ []

helped_test : (run helped (new_pool 2 true)).shared.started ≡ 1 ∷ []
unfolding run new_pool
helped_test = refl

-- Task 3 still waits when the destructor begins.
abbrev stopped : Pool ℕ
stopped = run (helping ++ destroys ∷ []) (new_pool 2 false)

abbrev go_on : List (Event ℕ)
go_on = works 0 moves ∷ works 1 moves ∷ submits_outside 4 ∷ works 1 moves ∷ []

stopped_is_done : stopped.shared.is_done ≡ true
unfolding run new_pool
stopped_is_done = refl

stopped_idle : AllIdle stopped.workers
unfolding run new_pool
stopped_idle = refl

dropped_test : (run go_on stopped).shared.queue ≡ 3 ∷ 4 ∷ []
unfolding run new_pool
dropped_test = refl

stopped_starts_none_example : (run go_on stopped).shared.started ≡ stopped.shared.started
stopped_starts_none_example = stopped_starts_none stopped go_on stopped_is_done stopped_idle
