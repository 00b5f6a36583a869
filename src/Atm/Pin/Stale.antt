-- ===== src/Atm/Pin/Stale.antt =====
-- An answer of the bank that comes late is taken for the answer to the next question.
use sundries.Prelude.{◌≡◌, false, [], ◌∷◌, ◌++◌, arith}
use sundries.Messaging.Dispatch.{wait_and_pop}
use sundries.Atm.Messages.{Text, text_eq, verify_pin, display_withdrawal_options}
use sundries.Atm.System.{verifying_pin, wait_for_action, waiting, System}
use sundries.Atm.Machine.{atm_step, receive}
use sundries.Atm.Bank.{right_pin, bank_step, bank_receive}
use sundries.Atm.Run.{atm_moves, bank_moves, step, run}

-- If the ATM waits for the answer about a wrong PIN while the bank has yet to read an older question
-- about the right one (asked, and then cancelled, by the previous customer), then the ATM opens on
-- the older answer, and the refusal that follows is thrown away: the new customer may withdraw.
pub stale_pin_verified :
    (s : System) (earlier : Text) (pin : Text)
    → s.atm_state ≡ verifying_pin
    → s.atm_phase ≡ waiting
    → s.bank_phase ≡ waiting
    → s.atm_queue ≡ []
    → s.bank_queue ≡ verify_pin earlier right_pin ∷ verify_pin s.account pin ∷ []
    → text_eq pin right_pin ≡ false
    → run (bank_moves ∷ bank_moves ∷ atm_moves ∷ atm_moves ∷ atm_moves ∷ []) s ≡ record s {
      atm_state = wait_for_action;
      bank_queue = [];
      hardware_queue = s.hardware_queue ++ display_withdrawal_options ∷ [];
    }
unfolding run step atm_step receive bank_step bank_receive wait_and_pop text_eq
stale_pin_verified s earlier pin e p b f g wrong = ground arith
