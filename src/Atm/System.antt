-- ===== src/Atm/System.antt =====
-- The state of the three machines and their queues.
use sundries.Prelude.{ℕ, List, []}
use sundries.Messaging.Dispatch.{push}
use sundries.Atm.Messages.{Text, Message}

-- The member functions that `state` of class atm points at.
pub data AtmState : Type 0 where
  waiting_for_card : AtmState
  getting_pin : AtmState
  verifying_pin : AtmState
  wait_for_action : AtmState
  process_balance : AtmState
  process_withdrawal : AtmState
  done_processing : AtmState

-- Where a thread stands in its loop: about to call its state, waiting in it, or out of `run`.
pub data Phase : Type 0 where
  calling waiting stopped : Phase

-- `shown` is what the display has printed, the messages in order.
pub record System : Type 0 where
  pub atm_state : AtmState
  pub atm_phase : Phase
  pub account : Text
  pub withdrawal_amount : ℕ
  pub pin : Text
  pub atm_queue : List Message
  pub bank_phase : Phase
  pub bank_balance : ℕ
  pub bank_queue : List Message
  pub hardware_phase : Phase
  pub hardware_queue : List Message
  pub shown : List Message

-- The machines as main makes them, each thread at the start of its `run`.
unfoldable pub initial : System
initial = record {
  atm_state = waiting_for_card;
  atm_phase = calling;
  account = [];
  withdrawal_amount = 0;
  pin = [];
  atm_queue = [];
  bank_phase = waiting;
  bank_balance = 199;
  bank_queue = [];
  hardware_phase = waiting;
  hardware_queue = [];
  shown = [];
}

unfoldable pub send_atm : Message → System → System
unfolding push
send_atm m s = record s { atm_queue = push m s.atm_queue }

unfoldable pub send_bank : Message → System → System
unfolding push
send_bank m s = record s { bank_queue = push m s.bank_queue }

unfoldable pub send_hardware : Message → System → System
unfolding push
send_hardware m s = record s { hardware_queue = push m s.hardware_queue }
