-- ===== src/Gumball/Ledger.antt =====
-- The machine's books: the quarters and the gumballs, counted from what it printed.
use mathlib.Core.Option.{some-injective}
use native.Mathlib.Nat.{add-zero, add_assoc}
use sundries.Prelude.{
  if◌then◌else◌, ◌==◌, ℕ, ◌+◌, ◌<◌, ◌^◌, ◌%◌, ◌≡◌, Option, some, List, [], ◌∷◌, arith, count_if,
  count_if-append,
}
use sundries.Gumball.Machine.{
  State, sold_out_state, no_quarter_state, has_quarter_state, sold_state, Line,
  you_inserted_a_quarter, quarter_returned, gumball_comes_rolling_out, GumballMachine, new_machine,
  initialize,
}
use sundries.Gumball.Run.{Call, inserts, ejects, turns, refills, step, run}
use sundries.Gumball.Invariant.{
  IsReady, initialize-IsReady, step-IsReady, step_total, run_total, run_keeps,
}

abbrev is_accepted : Line → ℕ
is_accepted you_inserted_a_quarter = 1
is_accepted _ = 0

abbrev is_returned : Line → ℕ
is_returned quarter_returned = 1
is_returned _ = 0

abbrev is_rolled : Line → ℕ
is_rolled gumball_comes_rolling_out = 1
is_rolled _ = 0

abbrev pub accepted : GumballMachine → ℕ
accepted m = count_if is_accepted m.cout

abbrev pub returned : GumballMachine → ℕ
returned m = count_if is_returned m.cout

abbrev pub rolled : GumballMachine → ℕ
rolled m = count_if is_rolled m.cout

-- The quarter in the slot.
abbrev pub held : Option State → ℕ
held (some has_quarter_state) = 1
held (some sold_state) = 1
held _ = 0

abbrev pub IsBalanced : GumballMachine → Type 0
IsBalanced m = accepted m ≡ returned m + rolled m + held m.state

step-IsBalanced :
    (c : Call) (m m' : GumballMachine)
    → IsReady m
    → IsBalanced m
    → step c m ≡ some m'
    → IsBalanced m'
unfolding step
step-IsBalanced inserts m m' r b e = grind (arith, count_if-append)
step-IsBalanced ejects m m' r b e = grind (arith, count_if-append)
step-IsBalanced turns m m' r b e = grind (arith, count_if-append)
step-IsBalanced (refills n) m m' r b e = grind (arith, count_if-append)

initialize-IsBalanced : (balls : ℕ) → IsBalanced (initialize balls new_machine)
unfolding initialize new_machine
initialize-IsBalanced balls = ground arith

-- Every quarter that was accepted was given back, paid for a gumball, or is still in the slot, after
-- any calls on a machine that was just initialized with any number of balls.
pub run-IsBalanced :
    (balls : ℕ) (cs : List Call) (m : GumballMachine)
    → run cs (initialize balls new_machine) ≡ some m
    → IsBalanced m
run-IsBalanced balls cs m e =
    run_keeps IsBalanced step-IsBalanced cs (initialize balls new_machine) m
      (initialize-IsReady balls new_machine) (initialize-IsBalanced balls) e

abbrev pub added : List Call → ℕ
added [] = 0
added (refills n ∷ cs) = n + added cs
added (inserts ∷ cs) = added cs
added (ejects ∷ cs) = added cs
added (turns ∷ cs) = added cs

-- No refill brings zero balls.
abbrev pub AllUseful : List Call → Type 0
AllUseful [] = Unit
AllUseful (refills n ∷ cs) = (0 < n) × AllUseful cs
AllUseful (inserts ∷ cs) = AllUseful cs
AllUseful (ejects ∷ cs) = AllUseful cs
AllUseful (turns ∷ cs) = AllUseful cs

-- The machine holds what it was given less what rolled out, and is sold out just when it is empty.
pub record IsStocked (given : ℕ) (m : GumballMachine) : Type 0 where
  pub total : m.count + rolled m ≡ given
  pub sold_out_empty : m.state ≡ some sold_out_state → m.count ≡ 0
  pub empty_sold_out : m.count ≡ 0 → m.state ≡ some sold_out_state

module _ (given : ℕ) (m m' : GumballMachine) (r : IsReady m) (s : IsStocked given m) where
  inserts-IsStocked : step inserts m ≡ some m' → IsStocked given m'
  unfolding step
  inserts-IsStocked e = grind (arith, count_if-append)

  ejects-IsStocked : step ejects m ≡ some m' → IsStocked given m'
  unfolding step
  ejects-IsStocked e = grind (arith, count_if-append)

  turns-IsStocked : step turns m ≡ some m' → IsStocked given m'
  unfolding step
  turns-IsStocked e = grind (arith, count_if-append)

  refills-IsStocked :
      (n : ℕ) → 0 < n → given + n < 2 ^ 32 → step (refills n) m ≡ some m' → IsStocked (given + n) m'
  unfolding step
  refills-IsStocked n pos fits e = grind (arith, count_if-append)

initialize-IsStocked : (balls : ℕ) → IsStocked balls (initialize balls new_machine)
unfolding initialize new_machine
initialize-IsStocked balls = ground arith

run-IsStocked_from :
    (cs : List Call) (given : ℕ) (m m' : GumballMachine)
    → IsReady m
    → IsStocked given m
    → AllUseful cs
    → given + added cs < 2 ^ 32
    → run cs m ≡ some m'
    → IsStocked (given + added cs) m'
unfolding run
run-IsStocked_from [] given m m' r s u fits e = rw (add-zero, ← some-injective _ _ e) s
run-IsStocked_from (inserts ∷ cs) given m m' r s u fits e =
    let (mid, e') = step_total inserts m r in
    run-IsStocked_from cs given mid m' (step-IsReady inserts m r e')
      (inserts-IsStocked given m mid r s e') u fits (rw (e', run) at e)
run-IsStocked_from (ejects ∷ cs) given m m' r s u fits e =
    let (mid, e') = step_total ejects m r in
    run-IsStocked_from cs given mid m' (step-IsReady ejects m r e')
      (ejects-IsStocked given m mid r s e') u fits (rw (e', run) at e)
run-IsStocked_from (turns ∷ cs) given m m' r s u fits e =
    let (mid, e') = step_total turns m r in
    run-IsStocked_from cs given mid m' (step-IsReady turns m r e')
      (turns-IsStocked given m mid r s e') u fits (rw (e', run) at e)
run-IsStocked_from (refills n ∷ cs) given m m' r s u fits e =
    let (mid, e') = step_total (refills n) m r in
    rw (← add_assoc) (
      run-IsStocked_from cs (given + n) mid m' (step-IsReady (refills n) m r e')
        (refills-IsStocked given m mid r s n u.0 (omega arith) e') u.1 (omega arith)
        (rw (e', run) at e))

-- If no refill is empty and the balls ever given fit an unsigned, then after any calls the machine
-- holds what it was given less what rolled out, and is sold out exactly when it is empty.
pub run-IsStocked :
    (balls : ℕ) (cs : List Call) (m : GumballMachine)
    → AllUseful cs
    → balls + added cs < 2 ^ 32
    → run cs (initialize balls new_machine) ≡ some m
    → IsStocked (balls + added cs) m
run-IsStocked balls cs m u fits e =
    run-IsStocked_from cs balls (initialize balls new_machine) m
      (initialize-IsReady balls new_machine) (initialize-IsStocked balls) u fits e

abbrev pub Sale : GumballMachine → GumballMachine → Type 0
Sale m m' =
    (m'.count + 1 ≡ m.count)
    × (accepted m' ≡ accepted m + 1)
    × (rolled m' ≡ rolled m + 1)
    × (returned m' ≡ returned m)
    × (m'.state ≡ (if m.count == 1 then some sold_out_state else some no_quarter_state))

insert-turn_facts :
    (m m' : GumballMachine)
    → IsReady m
    → m.state ≡ some no_quarter_state
    → 0 < m.count
    → run (inserts ∷ turns ∷ []) m ≡ some m'
    → Sale m m'
unfolding run step
insert-turn_facts m m' r s pos e = grind (arith, count_if-append)

-- With a ball in the machine and the slot empty, a quarter and a turn of the crank yield exactly one
-- ball: the count falls by one, one more quarter is accepted and none returned, one more ball rolls
-- out, and the machine is sold out after the last ball and waits for a quarter otherwise.
pub insert-turn :
    (m : GumballMachine)
    → IsReady m
    → m.state ≡ some no_quarter_state
    → 0 < m.count
    → (m' : GumballMachine) × (run (inserts ∷ turns ∷ []) m ≡ some m') × Sale m m'
insert-turn m r s pos =
    let (m', e, r') = run_total (inserts ∷ turns ∷ []) m r in
    (m', e, insert-turn_facts m m' r s pos e)

abbrev pub Cheat : GumballMachine → GumballMachine → Type 0
Cheat m m' =
    (m'.count ≡ 0)
    × (accepted m' ≡ accepted m + 1)
    × (rolled m' ≡ rolled m + 1)
    × (returned m' ≡ returned m)
    × (m'.state ≡ some sold_out_state)

refill_empty_facts :
    (m m' : GumballMachine) (n : ℕ)
    → IsReady m
    → m.state ≡ some sold_out_state
    → (m.count + n) % 2 ^ 32 ≡ 0
    → run (refills n ∷ inserts ∷ turns ∷ []) m ≡ some m'
    → Cheat m m'
unfolding run step
refill_empty_facts m m' n r s wraps e = grind (arith, count_if-append)

-- A sold-out machine that is refilled to a count of zero (by no ball, or by as many as make the
-- unsigned count wrap) waits for a quarter all the same: it takes the next one, gives none back,
-- announces a gumball though it holds none, and is sold out again.
pub refill_empty_cheats :
    (m : GumballMachine) (n : ℕ)
    → IsReady m
    → m.state ≡ some sold_out_state
    → (m.count + n) % 2 ^ 32 ≡ 0
    → (m' : GumballMachine) × (run (refills n ∷ inserts ∷ turns ∷ []) m ≡ some m') × Cheat m m'
refill_empty_cheats m n r s wraps =
    let (m', e, r') = run_total (refills n ∷ inserts ∷ turns ∷ []) m r in
    (m', e, refill_empty_facts m m' n r s wraps e)
