-- ===== src/Atm/Books.antt =====
-- The bank's money, over every schedule of the four threads.
use sundries.Prelude.{
  ℕ, ◌+◌, ◌≤◌, ◌≡◌, List, ◌∷◌, arith, count_if, count_if-append, if◌then◌else◌, ◌==◌,
}
use sundries.Atm.Messages.{Message, withdraw, withdraw_ok, withdraw_pressed, issue_money}
use sundries.Atm.System.{
  AtmState, waiting_for_card, getting_pin, verifying_pin, wait_for_action, process_balance,
  process_withdrawal, done_processing, System, initial,
}
use sundries.Atm.Machine.{enter, receive}
use sundries.Atm.Bank.{bank_receive}
use sundries.Atm.Display.{hardware_receive}
use sundries.Atm.Induction.{AnyKey, AllKeys-any, IsKept, run_keeps}
use sundries.Atm.Run.{Event, key, bank_done, machine_done, interface_done, step, run}

-- The money that the ATM may pay out for a message that it has not read yet.
abbrev pub granted : Message → ℕ
granted withdraw_ok = 50
granted _ = 0

abbrev pub issued : Message → ℕ
issued (issue_money amount) = amount
issued _ = 0

-- Withdrawals of another amount than the keyboard's.
abbrev pub odd : Message → ℕ
odd (withdraw_pressed amount) = if amount == 50 then 0 else 1
odd (withdraw account amount) = if amount == 50 then 0 else 1
odd _ = 0

pub record IsSolvent (s : System) : Type 0 where
  pub books :
      s.bank_balance
        + count_if granted s.atm_queue
        + count_if issued s.hardware_queue
        + count_if issued s.shown
      ≤ 199
  pub pressed : count_if odd s.atm_queue ≡ 0
  pub requested : count_if odd s.bank_queue ≡ 0
  pub pending : s.atm_state ≡ process_withdrawal → s.withdrawal_amount ≡ 50

initial-IsSolvent : IsSolvent initial
unfolding initial
initial-IsSolvent = ground arith

enter-IsSolvent :
    (st : AtmState) (s : System) → s.atm_state ≡ st → IsSolvent s → IsSolvent (enter st s)
unfolding enter
enter-IsSolvent waiting_for_card s e h = grind (arith, count_if-append)
enter-IsSolvent getting_pin s e h = grind (arith, count_if-append)
enter-IsSolvent verifying_pin s e h = grind (arith, count_if-append)
enter-IsSolvent wait_for_action s e h = grind (arith, count_if-append)
enter-IsSolvent process_balance s e h = grind (arith, count_if-append)
enter-IsSolvent process_withdrawal s e h = grind (arith, count_if-append)
enter-IsSolvent done_processing s e h = grind (arith, count_if-append)

receive-IsSolvent :
    (st : AtmState) (m : Message) (q : List Message) (s : System)
    → s.atm_state ≡ st
    → s.atm_queue ≡ m ∷ q
    → IsSolvent s
    → IsSolvent (receive st m (record s { atm_queue = q }))
unfolding receive
receive-IsSolvent waiting_for_card m q s e f h = grind (arith, count_if-append)
receive-IsSolvent getting_pin m q s e f h = grind (arith, count_if-append)
receive-IsSolvent verifying_pin m q s e f h = grind (arith, count_if-append)
receive-IsSolvent wait_for_action m q s e f h = grind (arith, count_if-append)
receive-IsSolvent process_balance m q s e f h = grind (arith, count_if-append)
receive-IsSolvent process_withdrawal m q s e f h = grind (arith, count_if-append)
receive-IsSolvent done_processing m q s e f h = grind (arith, count_if-append)

bank_receive-IsSolvent :
    (m : Message) (q : List Message) (s : System)
    → s.bank_queue ≡ m ∷ q
    → IsSolvent s
    → IsSolvent (bank_receive m (record s { bank_queue = q }))
unfolding bank_receive
bank_receive-IsSolvent m q s f h = grind (arith, count_if-append)

hardware_receive-IsSolvent :
    (m : Message) (q : List Message) (s : System)
    → s.hardware_queue ≡ m ∷ q
    → IsSolvent s
    → IsSolvent (hardware_receive m (record s { hardware_queue = q }))
unfolding hardware_receive
hardware_receive-IsSolvent m q s f h = grind (arith, count_if-append)

key-IsSolvent : (c : ℕ) (s : System) → AnyKey c → IsSolvent s → IsSolvent (step (key c) s)
unfolding step
key-IsSolvent c s k h = grind (arith, count_if-append)

bank_done-IsSolvent : (s : System) → IsSolvent s → IsSolvent (step bank_done s)
unfolding step
bank_done-IsSolvent s h = grind (arith, count_if-append)

machine_done-IsSolvent : (s : System) → IsSolvent s → IsSolvent (step machine_done s)
unfolding step
machine_done-IsSolvent s h = grind (arith, count_if-append)

interface_done-IsSolvent : (s : System) → IsSolvent s → IsSolvent (step interface_done s)
unfolding step
interface_done-IsSolvent s h = grind (arith, count_if-append)

IsSolvent-kept : IsKept AnyKey IsSolvent
IsSolvent-kept = record {
  by_enter = enter-IsSolvent;
  by_receive = receive-IsSolvent;
  by_bank = bank_receive-IsSolvent;
  by_hardware = hardware_receive-IsSolvent;
  by_key = key-IsSolvent;
  by_bank_done = bank_done-IsSolvent;
  by_machine_done = machine_done-IsSolvent;
  by_interface_done = interface_done-IsSolvent;
}

-- Whatever keys are pressed and however the four threads take turns, the money that the ATM has
-- issued, shown or not, and the balance that is left at the bank come to at most the opening 199,
-- even with the withdrawals that the bank has granted and the ATM has not read.
pub run-IsSolvent :
    (es : List Event)
    → let s = run es initial in
      s.bank_balance
        + count_if granted s.atm_queue
        + count_if issued s.hardware_queue
        + count_if issued s.shown
      ≤ 199
run-IsSolvent es = (run_keeps IsSolvent-kept es initial (AllKeys-any es) initial-IsSolvent).books
