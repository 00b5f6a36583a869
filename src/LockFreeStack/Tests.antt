-- ===== src/LockFreeStack/Tests.antt =====
-- Runs of the lock-free stack on numbers.
use sundries.Prelude.{
  ℕ, Option, ◌+◌, ◌≡◌, ◌≢◌, refl, none, some, List, [], ◌∷◌, ◌++◌, get_elem?, arith,
}
use sundries.LockFreeStack.Memory.{Access, ok, dangling, null_pointer}
use sundries.LockFreeStack.Threads.{
  Pc, rests, looks, Event, push_call, pop_call, moves, fails, System, run, start,
}
use sundries.LockFreeStack.Weights.{IsChain, count, live}
use sundries.LockFreeStack.Safety.{AtRest, never_dangles, rest_without_leaks}
use sundries.LockFreeStack.Progress.{alone, Finished, alone_finishes}
use sundries.LockFreeStack.Values.{pushed, popped, values}
use sundries.LockFreeStack.History.{
  calls_push, calls_pop, Mark, begins, took, idle, wrong, history, phase_of, Legal, Over,
}
use sundries.LockFreeStack.Linearizable.{linearizable}
use sundries.LockFreeStack.Empty.{empty_pop_crashes}

abbrev threads_of : Access (System ℕ) → List (Pc ℕ)
threads_of (ok s) = s.threads
threads_of dangling = []
threads_of null_pointer = []

-- Thread 0 pushes 7 and 8, and pops while thread 1 has read the head; then thread 1 pops.
abbrev two_pops : List (ℕ × Event ℕ)
two_pops =
    ((0, push_call 7 40) ∷ (0, moves) ∷ (0, push_call 8 41) ∷ (0, fails) ∷ (0, moves) ∷ [])
    ++ (((1, pop_call) ∷ (1, moves) ∷ (1, moves) ∷ (0, pop_call) ∷ []) ++ (alone 8 0 ++ alone 10 1))

two_pops_test : threads_of (run two_pops (start 2)) ≡ rests (some 8) ∷ rests (some 7) ∷ []
unfolding run start
two_pops_test = refl

never_dangles_example : run two_pops (start 2) ≢ dangling
never_dangles_example = never_dangles ℕ 2 two_pops (omega arith)

abbrev state_of : Access (System ℕ) → System ℕ
state_of (ok s) = s
state_of dangling = start 0
state_of null_pointer = start 0

abbrev two_pops_done : System ℕ
two_pops_done = state_of (run two_pops (start 2))

two_pops_ok : run two_pops (start 2) ≡ ok two_pops_done
unfolding run start
two_pops_ok = refl

two_pops_rest : AtRest two_pops_done.threads
unfolding run start
two_pops_rest = (some 8, refl, (some 7, refl, tt))

rest_without_leaks_example :
    (two_pops_done.memory.threads_in_pop ≡ 0)
    × (stack : List ℕ) × IsChain two_pops_done.memory.cell two_pops_done.memory.head stack
    × ((a : ℕ)
        → count a stack + count a two_pops_done.memory.to_be_deleted
          ≡ live (two_pops_done.memory.cell a))
rest_without_leaks_example =
    rest_without_leaks ℕ 2 two_pops two_pops_done (omega arith) two_pops_ok two_pops_rest

-- Thread 0 is in the middle of its push, thread 1 at the loop of its pop.
abbrev half_way : List (ℕ × Event ℕ)
half_way = (1, push_call 6 40) ∷ (1, moves) ∷ (1, pop_call) ∷ (1, moves) ∷ (0, push_call 7 41) ∷ []

abbrev half_way_done : System ℕ
half_way_done = state_of (run half_way (start 2))

half_way_ok : run half_way (start 2) ≡ ok half_way_done
unfolding run start
half_way_ok = refl

half_way_looks : get_elem? half_way_done.threads 1 ≡ some (looks (some 40))
unfolding run start
half_way_looks = refl

alone_finishes_example : Finished 1 (run (alone 10 1) half_way_done)
alone_finishes_example =
    alone_finishes ℕ 2 half_way half_way_done 1 (looks (some 40)) (omega arith) half_way_ok
      half_way_looks

-- Both threads have seen that the stack is empty.
abbrev both_look : System ℕ
both_look = state_of (run ((0, pop_call) ∷ (1, pop_call) ∷ (0, moves) ∷ (1, moves) ∷ []) (start 2))

both_look_looks : get_elem? both_look.threads 0 ≡ some (looks none)
unfolding run start
both_look_looks = refl

both_look_two : both_look.memory.threads_in_pop ≡ 2
unfolding run start
both_look_two = refl

both_look-ne : both_look.memory.threads_in_pop ≢ 1
both_look-ne h = absurd (omega (arith, both_look_two, h))

empty_pop_crashes_example : run ((0, moves) ∷ (0, moves) ∷ (0, moves) ∷ []) both_look ≡ null_pointer
empty_pop_crashes_example = empty_pop_crashes both_look 0 both_look_looks both_look-ne

abbrev marks : List (ℕ × Option (Mark ℕ)) → List (ℕ × Mark ℕ)
marks [] = []
marks ((i, none) ∷ rest) = marks rest
marks ((i, some k) ∷ rest) = (i, k) ∷ marks rest

two_pops_in_order :
    marks (history two_pops (ok (start 2)))
    ≡ (0, begins (calls_push 7))
      ∷ (0, took (pushed (some 7)))
      ∷ (0, begins (calls_push 8))
      ∷ (0, took (pushed (some 8)))
      ∷ (1, begins calls_pop)
      ∷ (0, begins calls_pop)
      ∷ (0, took (popped (some 8)))
      ∷ (1, took (popped (some 7)))
      ∷ []
unfolding history start
two_pops_in_order = refl

linearizable_example :
    (stack : List ℕ) × IsChain two_pops_done.memory.cell two_pops_done.memory.head stack
    × Legal (history two_pops (ok (start 2))) [] (values two_pops_done.memory.cell stack)
    × ((i : ℕ) (p : Pc ℕ)
        → get_elem? two_pops_done.threads i ≡ some p
        → phase_of i (history two_pops (ok (start 2))) idle ≢ wrong)
    × ((i : ℕ) (r : Option ℕ)
        → get_elem? two_pops_done.threads i ≡ some (rests r)
        → Over (phase_of i (history two_pops (ok (start 2))) idle) r)
linearizable_example = linearizable ℕ 2 two_pops two_pops_done (omega arith) two_pops_ok
