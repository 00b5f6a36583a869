-- ===== src/Atm/Tests.antt =====
-- Concrete runs of the three machines.
use sundries.Prelude.{◌+◌, ◌≤◌, ◌≡◌, ◌≢◌, ◌<◌, refl, List, [], ◌∷◌, arith, count_if, length}
use sundries.Atm.Messages.{
  Text, text_eq, verify_pin, issue_money, withdraw_pressed, cancel_pressed, eject_card,
  withdrawal_processed, display_withdrawal_options, display_enter_card, display_enter_pin,
  display_withdrawal_cancelled,
}
use sundries.Atm.System.{
  waiting_for_card, getting_pin, wait_for_action, verifying_pin, done_processing, calling, waiting,
  System, initial,
}
use sundries.Atm.Bank.{right_pin, bank_step, bank_receive}
use sundries.Atm.Machine.{atm_step, receive, pin_length}
use sundries.Atm.Run.{Event, key, atm_moves, bank_moves, card_account, step, run}
use sundries.Atm.Books.{granted, issued, run-IsSolvent}
use sundries.Atm.Withdrawal.{withdraw_outcome, cancel_loses_money}
use sundries.Atm.Pin.Digits.{odd_pin, run-IsTyped}
use sundries.Atm.Pin.Guest.{money, run_locked_out}
use sundries.Atm.Pin.Stale.{stale_pin_verified}

-- The card, the PIN 1937, and the moves that read them.
abbrev log_in : List Event
log_in =
    key b'i'
    ∷ key b'1'
    ∷ key b'9'
    ∷ key b'3'
    ∷ key b'7'
    ∷ atm_moves
    ∷ atm_moves
    ∷ atm_moves
    ∷ atm_moves
    ∷ atm_moves
    ∷ atm_moves
    ∷ atm_moves
    ∷ atm_moves
    ∷ atm_moves
    ∷ atm_moves
    ∷ atm_moves
    ∷ bank_moves
    ∷ atm_moves
    ∷ atm_moves
    ∷ []

ready : System
unfolding initial
ready = record initial {
  atm_state = wait_for_action;
  atm_phase = waiting;
  account = card_account;
  pin = right_pin;
  hardware_queue = display_enter_card ∷ display_enter_pin ∷ display_withdrawal_options ∷ [];
}

log_in_test : run log_in initial ≡ ready
unfolding run step initial ready text_eq atm_step bank_step receive bank_receive
log_in_test = refl

-- A second card, and a wrong PIN, before the bank has answered about the first.
abbrev intrusion : List Event
intrusion =
    key b'i'
    ∷ key b'1'
    ∷ key b'9'
    ∷ key b'3'
    ∷ key b'7'
    ∷ key b'c'
    ∷ key b'i'
    ∷ key b'0'
    ∷ key b'0'
    ∷ key b'0'
    ∷ key b'0'
    ∷ atm_moves
    ∷ atm_moves
    ∷ atm_moves
    ∷ atm_moves
    ∷ atm_moves
    ∷ atm_moves
    ∷ atm_moves
    ∷ atm_moves
    ∷ atm_moves
    ∷ atm_moves
    ∷ atm_moves
    ∷ atm_moves
    ∷ atm_moves
    ∷ atm_moves
    ∷ atm_moves
    ∷ atm_moves
    ∷ atm_moves
    ∷ atm_moves
    ∷ atm_moves
    ∷ atm_moves
    ∷ atm_moves
    ∷ atm_moves
    ∷ atm_moves
    ∷ atm_moves
    ∷ atm_moves
    ∷ atm_moves
    ∷ []

abbrev zeros : Text
zeros = b'0' ∷ b'0' ∷ b'0' ∷ b'0' ∷ []

abbrev intruded : System
unfolding initial
intruded = record initial {
  atm_state = verifying_pin;
  atm_phase = waiting;
  account = card_account;
  pin = zeros;
  bank_queue = verify_pin card_account right_pin ∷ verify_pin card_account zeros ∷ [];
  hardware_queue =
      display_enter_card ∷ display_enter_pin ∷ eject_card ∷ display_enter_card ∷ display_enter_pin
      ∷ [];
}

-- The keys of the intrusion lead to the state that stale_pin_verified is about.
intrusion_test : run intrusion initial ≡ intruded
unfolding run step initial text_eq atm_step bank_step receive bank_receive
intrusion_test = refl

run-IsSolvent_example :
    (run log_in initial).bank_balance
      + count_if granted (run log_in initial).atm_queue
      + count_if issued (run log_in initial).hardware_queue
      + count_if issued (run log_in initial).shown
    ≤ 199
run-IsSolvent_example = run-IsSolvent log_in

run-IsTyped_example :
    let s = run log_in initial in
    (count_if odd_pin s.bank_queue ≡ 0) × (s.atm_state ≡ getting_pin → length s.pin < pin_length)
run-IsTyped_example = run-IsTyped log_in

-- The digit 7 is never pressed.
run_locked_out_example :
    let s = run (key b'i' ∷ key b'1' ∷ key b'9' ∷ atm_moves ∷ []) initial in
    (s.bank_balance ≡ 199)
    × (count_if money s.hardware_queue + count_if money s.shown ≡ 0)
    × (s.atm_state ≢ wait_for_action)
run_locked_out_example =
    run_locked_out b'7' (key b'i' ∷ key b'1' ∷ key b'9' ∷ atm_moves ∷ []) (omega arith)
      (omega arith)

asked_for_fifty : System
unfolding initial
asked_for_fifty = record ready { atm_queue = withdraw_pressed 50 ∷ [] }

withdraw_outcome_example :
    run (atm_moves ∷ atm_moves ∷ bank_moves ∷ atm_moves ∷ []) asked_for_fifty ≡ record ready {
      atm_state = done_processing;
      atm_phase = calling;
      withdrawal_amount = 50;
      bank_balance = 149;
      bank_queue = withdrawal_processed card_account 50 ∷ [];
      hardware_queue =
          display_enter_card ∷ display_enter_pin ∷ display_withdrawal_options ∷ issue_money 50 ∷ [];
    }
unfolding asked_for_fifty ready initial
withdraw_outcome_example = withdraw_outcome asked_for_fifty 50 refl refl refl refl refl

cancelled_fifty : System
unfolding initial
cancelled_fifty = record ready { atm_queue = withdraw_pressed 50 ∷ cancel_pressed ∷ [] }

cancel_loses_money_example :
    run
      (atm_moves ∷ atm_moves ∷ bank_moves ∷ atm_moves ∷ bank_moves ∷ atm_moves ∷ atm_moves
        ∷ atm_moves ∷ [])
      cancelled_fifty
    ≡ record ready {
      atm_state = waiting_for_card;
      withdrawal_amount = 50;
      bank_balance = 149;
      hardware_queue =
          display_enter_card ∷ display_enter_pin ∷ display_withdrawal_options
          ∷ display_withdrawal_cancelled ∷ eject_card ∷ display_enter_card ∷ [];
    }
unfolding cancelled_fifty ready initial
cancel_loses_money_example =
    cancel_loses_money cancelled_fifty 50 refl refl refl refl refl (omega arith)

stale_pin_verified_example :
    run (bank_moves ∷ bank_moves ∷ atm_moves ∷ atm_moves ∷ atm_moves ∷ []) intruded
    ≡ record intruded {
      atm_state = wait_for_action;
      bank_queue = [];
      hardware_queue =
          display_enter_card ∷ display_enter_pin ∷ eject_card ∷ display_enter_card
          ∷ display_enter_pin ∷ display_withdrawal_options ∷ [];
    }
unfolding initial text_eq
stale_pin_verified_example =
    stale_pin_verified intruded card_account zeros refl refl refl refl refl refl
