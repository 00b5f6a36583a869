-- ===== src/Atm/Withdrawal.antt =====
-- One withdrawal from the key to the money, and what becomes of one that is cancelled.
use sundries.Prelude.{ℕ, ◌-◌, ◌≤◌, ◌≡◌, [], ◌∷◌, ◌++◌, arith, if◌then◌else◌, leb}
use sundries.Messaging.Dispatch.{wait_and_pop}
use sundries.Atm.Messages.{
  withdraw_pressed, cancel_pressed, withdrawal_processed, issue_money, display_insufficient_funds,
  display_withdrawal_cancelled, eject_card, display_enter_card,
}
use sundries.Atm.System.{
  waiting_for_card, wait_for_action, done_processing, calling, waiting, System,
}
use sundries.Atm.Machine.{receive, atm_step}
use sundries.Atm.Bank.{bank_receive, bank_step}
use sundries.Atm.Run.{atm_moves, bank_moves, step, run}

-- With all queues read but for a pressed withdrawal, the ATM asks the bank, the bank answers, and the
-- ATM acts: if the balance covers the amount it falls by the amount, exactly that is issued and
-- reported to the bank; otherwise the balance stays and the display gets the refusal. Either way the
-- ATM goes on to eject the card.
pub withdraw_outcome :
    (s : System) (amount : ℕ)
    → s.atm_state ≡ wait_for_action
    → s.atm_phase ≡ waiting
    → s.bank_phase ≡ waiting
    → s.atm_queue ≡ withdraw_pressed amount ∷ []
    → s.bank_queue ≡ []
    → run (atm_moves ∷ atm_moves ∷ bank_moves ∷ atm_moves ∷ []) s ≡ (
        if leb amount s.bank_balance
        then record s {
          atm_state = done_processing;
          atm_phase = calling;
          withdrawal_amount = amount;
          atm_queue = [];
          bank_balance = s.bank_balance - amount;
          bank_queue = withdrawal_processed s.account amount ∷ [];
          hardware_queue = s.hardware_queue ++ issue_money amount ∷ [];
        }
        else record s {
          atm_state = done_processing;
          atm_phase = calling;
          withdrawal_amount = amount;
          atm_queue = [];
          bank_queue = [];
          hardware_queue = s.hardware_queue ++ display_insufficient_funds ∷ [];
        })
unfolding run step atm_step receive bank_step bank_receive wait_and_pop
withdraw_outcome s amount e p b f g = ground arith

-- A withdrawal that is cancelled while the bank grants it is lost: the bank keeps the reduced balance
-- though it reads the cancellation, the grant is thrown away, and no money is issued.
pub cancel_loses_money :
    (s : System) (amount : ℕ)
    → s.atm_state ≡ wait_for_action
    → s.atm_phase ≡ waiting
    → s.bank_phase ≡ waiting
    → s.atm_queue ≡ withdraw_pressed amount ∷ cancel_pressed ∷ []
    → s.bank_queue ≡ []
    → amount ≤ s.bank_balance
    → run
        (atm_moves ∷ atm_moves ∷ bank_moves ∷ atm_moves ∷ bank_moves ∷ atm_moves ∷ atm_moves
          ∷ atm_moves ∷ [])
        s
      ≡ record s {
        atm_state = waiting_for_card;
        atm_phase = waiting;
        withdrawal_amount = amount;
        atm_queue = [];
        bank_balance = s.bank_balance - amount;
        bank_queue = [];
        hardware_queue =
            ((s.hardware_queue ++ display_withdrawal_cancelled ∷ []) ++ eject_card ∷ [])
            ++ display_enter_card ∷ [];
      }
unfolding run step atm_step receive bank_step bank_receive wait_and_pop
cancel_loses_money s amount e p b f g fits = ground arith
