-- ===== src/Atm/Bank.antt =====
-- class bank_machine of 4.x5.ATM.cpp.
use sundries.Prelude.{◌-◌, Option, none, some, List, [], ◌∷◌, if◌then◌else◌, leb}
use sundries.Messaging.Dispatch.{Handler, wait_and_pop, dispatch, handled, unhandled, thrown}
use sundries.Atm.Messages
use sundries.Atm.Messages.{
  Text, text_eq, Message, withdraw, withdraw_ok, withdraw_denied, cancel_withdrawal,
  withdrawal_processed, verify_pin, pin_verified, pin_incorrect, get_balance, is_close,
}
use sundries.Atm.System.{Phase, calling, waiting, stopped, System, send_atm}

-- "1937"
abbrev pub right_pin : Text
right_pin = b'1' ∷ b'9' ∷ b'3' ∷ b'7' ∷ []

on_verify_pin : Handler Message System
unfolding send_atm
on_verify_pin (verify_pin account pin) s =
    some (if text_eq pin right_pin then send_atm pin_verified s else send_atm pin_incorrect s)
on_verify_pin _ s = none

-- `-` does not stop at 0: the balance is at least the amount.
on_withdraw : Handler Message System
unfolding send_atm
on_withdraw (withdraw account amount) s = some (
    if leb amount s.bank_balance
    then (let s' = send_atm withdraw_ok s in record s' { bank_balance = s'.bank_balance - amount })
    else send_atm withdraw_denied s)
on_withdraw _ s = none

on_get_balance : Handler Message System
unfolding send_atm
on_get_balance (get_balance account) s = some (send_atm (Messages.Message.balance s.bank_balance) s)
on_get_balance _ s = none

on_withdrawal_processed : Handler Message System
on_withdrawal_processed (withdrawal_processed account amount) s = some s
on_withdrawal_processed _ s = none

on_cancel_withdrawal : Handler Message System
on_cancel_withdrawal (cancel_withdrawal account amount) s = some s
on_cancel_withdrawal _ s = none

unfoldable pub bank_handlers : List (Handler Message System)
unfolding on_verify_pin on_withdraw on_get_balance on_withdrawal_processed on_cancel_withdrawal
bank_handlers =
    on_cancel_withdrawal ∷ on_withdrawal_processed ∷ on_get_balance ∷ on_withdraw ∷ on_verify_pin
    ∷ []

unfoldable pub bank_receive : Message → System → System
unfolding bank_handlers dispatch
bank_receive m s = elim (dispatch is_close bank_handlers m s) [
  | handled s' ↦ s'
  | unhandled ↦ s
  | thrown ↦ record s { bank_phase = stopped }
]

abbrev pub bank_receive_from : Option (Message × List Message) → System → System
bank_receive_from none s = s
bank_receive_from (some (m, q)) s = bank_receive m (record s { bank_queue = q })

abbrev pub bank_in : Phase → System → System
bank_in stopped s = s
bank_in calling s = bank_receive_from (wait_and_pop s.bank_queue) s
bank_in waiting s = bank_receive_from (wait_and_pop s.bank_queue) s

-- One move of the thread that runs bank_machine::run.
unfoldable pub bank_step : System → System
unfolding wait_and_pop
bank_step s = bank_in s.bank_phase s
