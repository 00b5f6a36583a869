-- ===== src/LockFreeStackWithRc/Tests.antt =====
-- Runs of the stack with reference counts on numbers.
use sundries.Prelude.{
  ℕ, suc, ◌^◌, ◌≤◌, ◌⊎◌, none, length, arith, ◌≡◌, refl, some, List, [], ◌∷◌, ◌++◌, replicate,
}
use sundries.LockFreeStackWithRc.Memory.{Access, ok, dangling, overflows, wraps, int_max}
use sundries.LockFreeStackWithRc.Threads.{
  rests, Event, push_call, pop_call, moves, fails, System, run, start,
}
use sundries.LockFreeStackWithRc.Weights.{Links, linked, live, IsChain}
use sundries.LockFreeStackWithRc.Safety.{AtRest, run_goes_on, rest_without_garbage}

abbrev alone : ℕ → ℕ → List (ℕ × Event ℕ)
alone k i = replicate k (i, moves)

-- Thread 0 pushes 7 and 8; both threads count themselves in, and thread 0 wins; thread 1 is the last to
-- let the node go, and takes the other.
abbrev two_pops : List (ℕ × Event ℕ)
two_pops =
    ((0, push_call 7 40)
      ∷ (0, moves)
      ∷ (0, push_call 8 41)
      ∷ (0, fails)
      ∷ (0, moves)
      ∷ (1, pop_call)
      ∷ (1, moves)
      ∷ (0, pop_call)
      ∷ [])
    ++ (alone 5 0 ++ alone 10 1)

abbrev state_of : Access (System ℕ) → System ℕ
state_of (ok s) = s
state_of dangling = start 0
state_of overflows = start 0
state_of wraps = start 0

abbrev two_pops_done : System ℕ
two_pops_done = state_of (run two_pops (start 2))

two_pops_test : two_pops_done.threads ≡ rests (some 8) ∷ rests (some 7) ∷ []
unfolding run start
two_pops_test = refl

two_pops_ok : run two_pops (start 2) ≡ ok two_pops_done
unfolding run start
two_pops_ok = refl

run_goes_on_example :
    ((s : System ℕ) × (run two_pops (start 2) ≡ ok s))
    ⊎ ((run two_pops (start 2) ≡ overflows) × (2 ^ 31 ≤ suc (length two_pops)))
run_goes_on_example = run_goes_on ℕ 2 two_pops (omega arith)

-- The count of a null pointer goes up too, and must not go past the greatest int.
abbrev at_limit : System ℕ
at_limit = record {
  memory = record { cell = λ a. none; head = record { external_count = int_max; ptr = none } };
  threads = rests none ∷ [];
}

overflow_test : run ((0, pop_call) ∷ (0, moves) ∷ []) at_limit ≡ overflows
unfolding run
overflow_test = refl

two_pops_rest : AtRest two_pops_done.threads
unfolding run start
two_pops_rest = (some 8, refl, (some 7, refl, tt))

rest_without_garbage_example :
    (links : Links) × IsChain two_pops_done.memory.cell two_pops_done.memory.head links
    × ((a : ℕ) → linked a links ≡ live (two_pops_done.memory.cell a))
rest_without_garbage_example =
    rest_without_garbage ℕ 2 two_pops two_pops_done two_pops_ok two_pops_rest
