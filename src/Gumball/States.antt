-- ===== src/Gumball/States.antt =====
-- state.h and state.cpp: the virtual methods, each by clauses on the class of the state.
use sundries.Prelude.{if◌then◌else◌, ltb}
use sundries.Gumball.Machine.{
  State, sold_out_state, no_quarter_state, has_quarter_state, sold_state, you_inserted_a_quarter,
  cannot_insert_another_quarter, please_wait, cannot_insert_sold_out, have_not_inserted_a_quarter,
  already_turned_the_crank, cannot_eject_not_inserted, quarter_returned, turned_no_quarter,
  turning_twice, turned_no_gumballs, you_turned, need_to_pay_first, no_gumball_dispensed,
  out_of_gumballs, GumballMachine, print, set_state, get_has_quarter_state, get_sold_out_state,
  get_no_quarter_state, get_sold_state, get_count, release_ball,
}

unfoldable pub insert_quarter : State → GumballMachine → GumballMachine
unfolding print set_state get_has_quarter_state
insert_quarter no_quarter_state m =
    let m' = print you_inserted_a_quarter m in set_state (get_has_quarter_state m') m'
insert_quarter sold_state m = print please_wait m
insert_quarter sold_out_state m = print cannot_insert_sold_out m
insert_quarter has_quarter_state m = print cannot_insert_another_quarter m

unfoldable pub eject_quarter : State → GumballMachine → GumballMachine
unfolding print set_state get_no_quarter_state
eject_quarter no_quarter_state m = print have_not_inserted_a_quarter m
eject_quarter sold_state m = print already_turned_the_crank m
eject_quarter sold_out_state m = print cannot_eject_not_inserted m
eject_quarter has_quarter_state m =
    let m' = print quarter_returned m in set_state (get_no_quarter_state m') m'

unfoldable pub turn_crank : State → GumballMachine → GumballMachine
unfolding print set_state get_sold_state
turn_crank no_quarter_state m = print turned_no_quarter m
turn_crank sold_state m = print turning_twice m
turn_crank sold_out_state m = print turned_no_gumballs m
turn_crank has_quarter_state m = let m' = print you_turned m in set_state (get_sold_state m') m'

dispense_sold : GumballMachine → GumballMachine
unfolding print set_state get_no_quarter_state get_sold_out_state get_count release_ball
dispense_sold m =
    let m' = release_ball m in
    if ltb 0 (get_count m')
    then set_state (get_no_quarter_state m') m'
    else (let m'' = print out_of_gumballs m' in set_state (get_sold_out_state m'') m'')

unfoldable pub dispense : State → GumballMachine → GumballMachine
unfolding print dispense_sold
dispense no_quarter_state m = print need_to_pay_first m
dispense sold_state m = dispense_sold m
dispense sold_out_state m = print no_gumball_dispensed m
dispense has_quarter_state m = print no_gumball_dispensed m

unfoldable pub refill : State → GumballMachine → GumballMachine
unfolding set_state get_no_quarter_state
refill no_quarter_state m = m
refill sold_state m = m
refill sold_out_state m = set_state (get_no_quarter_state m) m
refill has_quarter_state m = m
