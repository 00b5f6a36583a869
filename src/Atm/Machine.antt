-- ===== src/Atm/Machine.antt =====
-- class atm of 4.x5.ATM.cpp. A state's member function is its sends before the wait (`enter`), and
-- the chain of its handlers, the last added first.
use sundries.Prelude.{
  ℕ, Option, none, some, Bool, true, false, List, [], ◌∷◌, ◌++◌, if◌then◌else◌, ◌==◌, length,
}
use sundries.Messaging.Dispatch.{Handler, wait_and_pop, dispatch, handled, unhandled, thrown}
use sundries.Atm.Messages
use sundries.Atm.Messages.{
  Text, Message, withdraw, withdraw_ok, withdraw_denied, cancel_withdrawal, withdrawal_processed,
  card_inserted, digit_pressed, clear_last_pressed, eject_card, withdraw_pressed, cancel_pressed,
  issue_money, verify_pin, pin_verified, pin_incorrect, display_enter_pin, display_enter_card,
  display_insufficient_funds, display_withdrawal_cancelled, display_pin_incorrect_message,
  display_withdrawal_options, get_balance, display_balance, balance_pressed, is_close,
}
use sundries.Atm.System.{
  AtmState, waiting_for_card, getting_pin, verifying_pin, wait_for_action, process_balance,
  process_withdrawal, done_processing, Phase, calling, waiting, stopped, System, send_bank,
  send_hardware,
}

-- process_withdrawal
on_withdraw_ok : Handler Message System
unfolding send_hardware send_bank
on_withdraw_ok withdraw_ok s =
    let s' = send_hardware (issue_money s.withdrawal_amount) s in
    let s'' = send_bank (withdrawal_processed s'.account s'.withdrawal_amount) s' in
    some (record s'' { atm_state = done_processing })
on_withdraw_ok _ s = none

on_withdraw_denied : Handler Message System
unfolding send_hardware
on_withdraw_denied withdraw_denied s =
    some (record (send_hardware display_insufficient_funds s) { atm_state = done_processing })
on_withdraw_denied _ s = none

on_cancel_withdrawal : Handler Message System
unfolding send_hardware send_bank
on_cancel_withdrawal cancel_pressed s =
    let s' = send_bank (cancel_withdrawal s.account s.withdrawal_amount) s in
    some (record (send_hardware display_withdrawal_cancelled s') { atm_state = done_processing })
on_cancel_withdrawal _ s = none

-- process_balance
on_balance : Handler Message System
unfolding send_hardware
on_balance (Messages.Message.balance amount) s =
    some (record (send_hardware (display_balance amount) s) { atm_state = wait_for_action })
on_balance _ s = none

-- cancel_pressed in process_balance, wait_for_action, verifying_pin and getting_pin
on_cancel : Handler Message System
on_cancel cancel_pressed s = some (record s { atm_state = done_processing })
on_cancel _ s = none

-- wait_for_action
on_withdraw_pressed : Handler Message System
unfolding send_bank
on_withdraw_pressed (withdraw_pressed amount) s =
    let s' = record s { withdrawal_amount = amount } in
    some (record (send_bank (withdraw s'.account amount) s') { atm_state = process_withdrawal })
on_withdraw_pressed _ s = none

on_balance_pressed : Handler Message System
unfolding send_bank
on_balance_pressed balance_pressed s =
    some (record (send_bank (get_balance s.account) s) { atm_state = process_balance })
on_balance_pressed _ s = none

-- verifying_pin
on_pin_verified : Handler Message System
on_pin_verified pin_verified s = some (record s { atm_state = wait_for_action })
on_pin_verified _ s = none

on_pin_incorrect : Handler Message System
unfolding send_hardware
on_pin_incorrect pin_incorrect s =
    some (record (send_hardware display_pin_incorrect_message s) { atm_state = done_processing })
on_pin_incorrect _ s = none

-- getting_pin
abbrev pub pin_length : ℕ
pin_length = 4

on_digit_pressed : Handler Message System
unfolding send_bank
on_digit_pressed (digit_pressed digit) s =
    let s' = record s { pin = s.pin ++ digit ∷ [] } in
    some (
      if length s'.pin == pin_length
      then record (send_bank (verify_pin s'.account s'.pin) s') { atm_state = verifying_pin }
      else s')
on_digit_pressed _ s = none

-- std::string::pop_back
unfoldable pub pop_back : Text → Text
pop_back [] = []
pop_back (c ∷ []) = []
pop_back (c ∷ d ∷ t) = c ∷ pop_back (d ∷ t)

abbrev pub is_empty : Text → Bool
is_empty [] = true
is_empty (c ∷ t) = false

on_clear_last_pressed : Handler Message System
on_clear_last_pressed clear_last_pressed s =
    some (if is_empty s.pin then s else record s { pin = pop_back s.pin })
on_clear_last_pressed _ s = none

-- waiting_for_card
on_card_inserted : Handler Message System
unfolding send_hardware
on_card_inserted (card_inserted account) s =
    let s' = record s { account = account; pin = [] } in
    some (record (send_hardware display_enter_pin s') { atm_state = getting_pin })
on_card_inserted _ s = none

unfoldable pub handlers_of : AtmState → List (Handler Message System)
unfolding on_withdraw_ok on_withdraw_denied on_cancel_withdrawal on_balance on_cancel
    on_withdraw_pressed on_balance_pressed on_pin_verified on_pin_incorrect on_digit_pressed
    on_clear_last_pressed on_card_inserted
handlers_of process_withdrawal = on_cancel_withdrawal ∷ on_withdraw_denied ∷ on_withdraw_ok ∷ []
handlers_of process_balance = on_cancel ∷ on_balance ∷ []
handlers_of wait_for_action = on_cancel ∷ on_balance_pressed ∷ on_withdraw_pressed ∷ []
handlers_of verifying_pin = on_cancel ∷ on_pin_incorrect ∷ on_pin_verified ∷ []
handlers_of getting_pin = on_cancel ∷ on_clear_last_pressed ∷ on_digit_pressed ∷ []
handlers_of waiting_for_card = on_card_inserted ∷ []
handlers_of done_processing = []

-- A state's function up to its wait; done_processing sets the next state and does not wait.
unfoldable pub enter : AtmState → System → System
unfolding send_hardware
enter waiting_for_card s = record (send_hardware display_enter_card s) { atm_phase = waiting }
enter wait_for_action s = record (send_hardware display_withdrawal_options s) {
  atm_phase = waiting;
}
enter done_processing s = record (send_hardware eject_card s) { atm_state = waiting_for_card }
enter getting_pin s = record s { atm_phase = waiting }
enter verifying_pin s = record s { atm_phase = waiting }
enter process_balance s = record s { atm_phase = waiting }
enter process_withdrawal s = record s { atm_phase = waiting }

-- One message taken off the queue inside the wait of the current state.
unfoldable pub receive : AtmState → Message → System → System
unfolding handlers_of dispatch
receive st m s = elim (dispatch is_close (handlers_of st) m s) [
  | handled s' ↦ record s' { atm_phase = calling }
  | unhandled ↦ s
  | thrown ↦ record s { atm_phase = stopped }
]

abbrev pub receive_from : Option (Message × List Message) → System → System
receive_from none s = s
receive_from (some (m, q)) s = receive s.atm_state m (record s { atm_queue = q })

abbrev pub atm_in : Phase → System → System
atm_in calling s = enter s.atm_state s
atm_in waiting s = receive_from (wait_and_pop s.atm_queue) s
atm_in stopped s = s

-- One move of the thread that runs atm::run.
unfoldable pub atm_step : System → System
unfolding wait_and_pop enter
atm_step s = atm_in s.atm_phase s
