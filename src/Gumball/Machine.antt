-- ===== src/Gumball/Machine.antt =====
-- gumball_machine.h and gumball_machine.cpp, but for the calls that go through the current state.
use sundries.Prelude.{
  ℕ, ◌-◌, ◌%◌, ◌^◌, Option, none, some, List, [], ◌∷◌, ◌++◌, if◌then◌else◌, ltb, ◌==◌,
}

pub data State : Type 0 where
  sold_out_state no_quarter_state has_quarter_state sold_state : State

-- The lines written to std::cout.
pub data Line : Type 0 where
  you_inserted_a_quarter : Line
  cannot_insert_another_quarter : Line
  please_wait : Line
  cannot_insert_sold_out : Line
  have_not_inserted_a_quarter : Line
  already_turned_the_crank : Line
  cannot_eject_not_inserted : Line
  quarter_returned : Line
  turned_no_quarter : Line
  turning_twice : Line
  turned_no_gumballs : Line
  you_turned : Line
  need_to_pay_first : Line
  no_gumball_dispensed : Line
  gumball_comes_rolling_out : Line
  out_of_gumballs : Line
  just_refilled : ℕ → Line

-- `soldOutState` and the three after it are the machine's unique_ptr fields.
pub record GumballMachine : Type 0 where
  pub sold_out_ptr : Option State
  pub no_quarter_ptr : Option State
  pub has_quarter_ptr : Option State
  pub sold_ptr : Option State
  pub state : Option State
  pub count : ℕ  -- unsigned
  pub cout : List Line

-- unsigned is 32 bits wide.
abbrev pub u32 : ℕ → ℕ
u32 n = n % 2 ^ 32

unfoldable pub new_machine : GumballMachine
new_machine = record {
  sold_out_ptr = none;
  no_quarter_ptr = none;
  has_quarter_ptr = none;
  sold_ptr = none;
  state = none;
  count = 0;
  cout = [];
}

unfoldable pub print : Line → GumballMachine → GumballMachine
print l m = record m { cout = m.cout ++ l ∷ [] }

-- The four states are made anew; `balls` is an unsigned.
unfoldable pub initialize : ℕ → GumballMachine → GumballMachine
initialize balls m = record m {
  sold_out_ptr = some sold_out_state;
  no_quarter_ptr = some no_quarter_state;
  has_quarter_ptr = some has_quarter_state;
  sold_ptr = some sold_state;
  state = if ltb 0 balls then some no_quarter_state else some sold_out_state;
  count = balls;
}

unfoldable pub set_state : Option State → GumballMachine → GumballMachine
set_state s m = record m { state = s }

unfoldable pub get_has_quarter_state : GumballMachine → Option State
get_has_quarter_state m = m.has_quarter_ptr

unfoldable pub get_sold_out_state : GumballMachine → Option State
get_sold_out_state m = m.sold_out_ptr

unfoldable pub get_no_quarter_state : GumballMachine → Option State
get_no_quarter_state m = m.no_quarter_ptr

unfoldable pub get_sold_state : GumballMachine → Option State
get_sold_state m = m.sold_ptr

unfoldable pub get_count : GumballMachine → ℕ
get_count m = m.count

-- `if (0 != _count) --_count`, so `-` never stops at 0.
unfoldable pub release_ball : GumballMachine → GumballMachine
unfolding print
release_ball m =
    let m' = print gumball_comes_rolling_out m in
    if m'.count == 0 then m' else record m' { count = m'.count - 1 }
