-- ===== src/Atm/Pin/Digits.antt =====
-- The PINs that the bank is asked to verify.
use sundries.Prelude.{
  ℕ, ◌≤◌, ◌<◌, ◌≡◌, List, [], ◌∷◌, arith, count_if, count_if-append, if◌then◌else◌, ◌==◌, ◌&&◌,
  length, length-append,
}
use sundries.Atm.Messages.{Text, Message, verify_pin, digit_pressed}
use sundries.Atm.System.{
  AtmState, waiting_for_card, getting_pin, verifying_pin, wait_for_action, process_balance,
  process_withdrawal, done_processing, System, initial,
}
use sundries.Atm.Machine.{enter, receive, pop_back, pin_length}
use sundries.Atm.Bank.{bank_receive}
use sundries.Atm.Display.{hardware_receive}
use sundries.Atm.Induction.{AnyKey, AllKeys-any, IsKept, run_keeps}
use sundries.Atm.Run.{Event, key, bank_done, machine_done, interface_done, step, run, is_digit}

pub length-pop_back : (t : Text) → length (pop_back t) ≤ length t
unfolding pop_back
length-pop_back [] = omega arith
length-pop_back (c ∷ []) = omega arith
length-pop_back (c ∷ d ∷ t) = omega (arith, length-pop_back (d ∷ t))

pub count_if-pop_back : (w : ℕ → ℕ) (t : Text) → count_if w (pop_back t) ≤ count_if w t
unfolding pop_back
count_if-pop_back w [] = omega arith
count_if-pop_back w (c ∷ []) = omega arith
count_if-pop_back w (c ∷ d ∷ t) = omega (arith, count_if-pop_back w (d ∷ t))

abbrev pub no_digit : ℕ → ℕ
no_digit c = if is_digit c then 0 else 1

abbrev odd_key : Message → ℕ
odd_key (digit_pressed c) = no_digit c
odd_key _ = 0

-- 0 for a message that asks about no PIN, or about one of four digits.
abbrev pub odd_pin : Message → ℕ
odd_pin (verify_pin account pin) =
    if length pin == pin_length && (count_if no_digit pin == 0) then 0 else 1
odd_pin _ = 0

record IsTyped (s : System) : Type 0 where
  short : s.atm_state ≡ getting_pin → length s.pin < pin_length
  digits : count_if no_digit s.pin ≡ 0
  pressed : count_if odd_key s.atm_queue ≡ 0
  asked : count_if odd_pin s.bank_queue ≡ 0

enter-IsTyped : (st : AtmState) (s : System) → s.atm_state ≡ st → IsTyped s → IsTyped (enter st s)
unfolding enter
enter-IsTyped waiting_for_card s e h = grind (arith, count_if-append)
enter-IsTyped getting_pin s e h = grind (arith, count_if-append)
enter-IsTyped verifying_pin s e h = grind (arith, count_if-append)
enter-IsTyped wait_for_action s e h = grind (arith, count_if-append)
enter-IsTyped process_balance s e h = grind (arith, count_if-append)
enter-IsTyped process_withdrawal s e h = grind (arith, count_if-append)
enter-IsTyped done_processing s e h = grind (arith, count_if-append)

ruleset typing = (arith, count_if-append, length-append, length-pop_back, count_if-pop_back)

receive-IsTyped :
    (st : AtmState) (m : Message) (q : List Message) (s : System)
    → s.atm_state ≡ st
    → s.atm_queue ≡ m ∷ q
    → IsTyped s
    → IsTyped (receive st m (record s { atm_queue = q }))
unfolding receive
receive-IsTyped waiting_for_card m q s e f h = grind typing
receive-IsTyped getting_pin m q s e f h = grind typing
receive-IsTyped verifying_pin m q s e f h = grind typing
receive-IsTyped wait_for_action m q s e f h = grind typing
receive-IsTyped process_balance m q s e f h = grind typing
receive-IsTyped process_withdrawal m q s e f h = grind typing
receive-IsTyped done_processing m q s e f h = grind typing

bank_receive-IsTyped :
    (m : Message) (q : List Message) (s : System)
    → s.bank_queue ≡ m ∷ q
    → IsTyped s
    → IsTyped (bank_receive m (record s { bank_queue = q }))
unfolding bank_receive
bank_receive-IsTyped m q s f h = grind (arith, count_if-append)

hardware_receive-IsTyped :
    (m : Message) (q : List Message) (s : System)
    → IsTyped s
    → IsTyped (hardware_receive m (record s { hardware_queue = q }))
unfolding hardware_receive
hardware_receive-IsTyped m q s h = grind (arith, count_if-append)

key-IsTyped : (c : ℕ) (s : System) → AnyKey c → IsTyped s → IsTyped (step (key c) s)
unfolding step
key-IsTyped c s k h = grind (arith, count_if-append)

bank_done-IsTyped : (s : System) → IsTyped s → IsTyped (step bank_done s)
unfolding step
bank_done-IsTyped s h = grind (arith, count_if-append)

machine_done-IsTyped : (s : System) → IsTyped s → IsTyped (step machine_done s)
unfolding step
machine_done-IsTyped s h = grind (arith, count_if-append)

interface_done-IsTyped : (s : System) → IsTyped s → IsTyped (step interface_done s)
unfolding step
interface_done-IsTyped s h = grind (arith, count_if-append)

IsTyped-kept : IsKept AnyKey IsTyped
IsTyped-kept = record {
  by_enter = enter-IsTyped;
  by_receive = receive-IsTyped;
  by_bank = bank_receive-IsTyped;
  by_hardware = λ m q s f h. hardware_receive-IsTyped m q s h;
  by_key = key-IsTyped;
  by_bank_done = bank_done-IsTyped;
  by_machine_done = machine_done-IsTyped;
  by_interface_done = interface_done-IsTyped;
}

initial-IsTyped : IsTyped initial
unfolding initial
initial-IsTyped = ground arith

-- Under every schedule, each PIN that the bank is asked to verify has four characters, all of them
-- digits, and while the ATM is getting a PIN it holds fewer than four.
pub run-IsTyped :
    (es : List Event)
    → let s = run es initial in
      (count_if odd_pin s.bank_queue ≡ 0) × (s.atm_state ≡ getting_pin → length s.pin < pin_length)
run-IsTyped es =
    let t = run_keeps IsTyped-kept es initial (AllKeys-any es) initial-IsTyped in (t.asked, t.short)
