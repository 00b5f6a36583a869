-- ===== src/Atm/Messages.antt =====
-- The message types of 4.x5.ATM.cpp as one data type, with close_queue of messaging.hpp. withdraw,
-- verify_pin and get_balance also carry a sender, which is always the one ATM's: it is left out, and
-- the bank answers into the ATM's queue. A std::string is the list of its characters' codes.
use sundries.Prelude.{ℕ, Bool, true, false, List, [], ◌∷◌, ◌&&◌, ◌==◌}

abbrev pub Text : Type 0
Text = List ℕ

unfoldable pub text_eq : Text → Text → Bool
text_eq [] [] = true
text_eq [] (c ∷ t) = false
text_eq (b ∷ s) [] = false
text_eq (b ∷ s) (c ∷ t) = b == c && text_eq s t

pub data Message : Type 0 where
  withdraw : Text → ℕ → Message
  withdraw_ok : Message
  withdraw_denied : Message
  cancel_withdrawal : Text → ℕ → Message
  withdrawal_processed : Text → ℕ → Message
  card_inserted : Text → Message
  digit_pressed : ℕ → Message
  clear_last_pressed : Message
  eject_card : Message
  withdraw_pressed : ℕ → Message
  cancel_pressed : Message
  issue_money : ℕ → Message
  verify_pin : Text → Text → Message
  pin_verified : Message
  pin_incorrect : Message
  display_enter_pin : Message
  display_enter_card : Message
  display_insufficient_funds : Message
  display_withdrawal_cancelled : Message
  display_pin_incorrect_message : Message
  display_withdrawal_options : Message
  get_balance : Text → Message
  balance : ℕ → Message
  display_balance : ℕ → Message
  balance_pressed : Message
  close_queue : Message

abbrev pub is_close : Message → Bool
is_close close_queue = true
is_close _ = false
