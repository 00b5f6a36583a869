-- ===== src/Gumball/Run.antt =====
-- The public methods of GumballMachine that call the current state, and a client's sequence of calls.
use sundries.Prelude.{ℕ, ◌+◌, Option, some, List, [], ◌∷◌, ◌>>=◌}
use sundries.Gumball.Machine.{State, just_refilled, GumballMachine, u32, print}
use sundries.Gumball.States

-- `_state->f()`: undefined behaviour if `_state` is null.
abbrev pub through :
    (State → GumballMachine → GumballMachine) → GumballMachine → Option GumballMachine
through f m = m.state >>= λ s. some (f s m)

unfoldable pub insert_quarter : GumballMachine → Option GumballMachine
unfolding States.insert_quarter
insert_quarter m = through States.insert_quarter m

unfoldable pub eject_quarter : GumballMachine → Option GumballMachine
unfolding States.eject_quarter
eject_quarter m = through States.eject_quarter m

unfoldable pub turn_crank : GumballMachine → Option GumballMachine
unfolding States.turn_crank States.dispense
turn_crank m = do m' ← through States.turn_crank m; through States.dispense m'

unfoldable pub refill : ℕ → GumballMachine → Option GumballMachine
unfolding States.refill print
refill n m =
    let m' = record m { count = u32 (m.count + n) } in
    through States.refill (print (just_refilled m'.count) m')

pub data Call : Type 0 where
  inserts ejects turns : Call
  refills : ℕ → Call

unfoldable pub step : Call → GumballMachine → Option GumballMachine
unfolding insert_quarter eject_quarter turn_crank refill
step inserts m = insert_quarter m
step ejects m = eject_quarter m
step turns m = turn_crank m
step (refills n) m = refill n m

unfoldable pub run : List Call → GumballMachine → Option GumballMachine
run [] m = some m
run (c ∷ cs) m = do m' ← step c m; run cs m'
