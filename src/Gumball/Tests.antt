-- ===== src/Gumball/Tests.antt =====
-- Concrete runs of the machine.
use sundries.Prelude.{◌≡◌, refl, none, some, List, [], ◌∷◌, arith}
use sundries.Gumball.Machine.{GumballMachine, new_machine, initialize}
use sundries.Gumball.Run.{Call, inserts, turns, refills, run, insert_quarter}
use sundries.Gumball.Invariant.{IsReady, initialize-IsReady, run_total}
use sundries.Gumball.Ledger.{
  IsBalanced, IsStocked, Cheat, run-IsBalanced, run-IsStocked, refill_empty_cheats,
}

-- A call on a machine that was never initialized goes through a null pointer.
insert_quarter_new : insert_quarter new_machine ≡ none
unfolding insert_quarter new_machine
insert_quarter_new = refl

-- The calls of `main` in 10.state.cpp.
abbrev demo : List Call
demo = inserts ∷ turns ∷ inserts ∷ turns ∷ inserts ∷ turns ∷ refills 5 ∷ inserts ∷ turns ∷ []

demo_after : GumballMachine
demo_after = (run_total demo (initialize 2 new_machine) (initialize-IsReady 2 new_machine)).0

demo_runs : run demo (initialize 2 new_machine) ≡ some demo_after
unfolding demo_after
demo_runs = (run_total demo (initialize 2 new_machine) (initialize-IsReady 2 new_machine)).1

run_total_example :
    (m : GumballMachine) × (run demo (initialize 2 new_machine) ≡ some m) × IsReady m
run_total_example = run_total demo (initialize 2 new_machine) (initialize-IsReady 2 new_machine)

run-IsBalanced_example : IsBalanced demo_after
run-IsBalanced_example = run-IsBalanced 2 demo demo_after demo_runs

run-IsStocked_example : IsStocked 7 demo_after
run-IsStocked_example = run-IsStocked 2 demo demo_after (omega arith) (omega arith) demo_runs

refill_empty_cheats_example :
    (m : GumballMachine) × (run (refills 0 ∷ inserts ∷ turns ∷ []) (initialize 0 new_machine)
      ≡ some m)
    × Cheat (initialize 0 new_machine) m
unfolding initialize new_machine
refill_empty_cheats_example =
    refill_empty_cheats (initialize 0 new_machine) 0 (initialize-IsReady 0 new_machine) refl refl
