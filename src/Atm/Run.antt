-- ===== src/Atm/Run.antt =====
-- main of 4.x5.ATM.cpp, and the runs of its four threads: a schedule is the list of who moves next.
use sundries.Prelude.{ℕ, Option, none, some, Bool, List, [], ◌∷◌, ◌&&◌, if◌then◌else◌, leb, ◌==◌}
use sundries.Atm.Messages.{
  Text, Message, card_inserted, digit_pressed, withdraw_pressed, cancel_pressed, balance_pressed,
  close_queue,
}
use sundries.Atm.System.{System, send_atm, send_bank, send_hardware}
use sundries.Atm.Machine.{atm_step}
use sundries.Atm.Bank.{bank_step}
use sundries.Atm.Display.{hardware_step}

-- "acc1234"
abbrev pub card_account : Text
card_account = b'a' ∷ b'c' ∷ b'c' ∷ b'1' ∷ b'2' ∷ b'3' ∷ b'4' ∷ []

abbrev pub is_digit : ℕ → Bool
is_digit c = leb b'0' c && leb c b'9'

-- The switch on the character; 'q' sends nothing, it ends the loop.
unfoldable pub key_message : ℕ → Option Message
key_message c =
    if is_digit c
    then some (digit_pressed c)
    else if c == b'b'
    then some balance_pressed
    else if c == b'w'
    then some (withdraw_pressed 50)
    else if c == b'c'
    then some cancel_pressed
    else if c == b'i'
    then some (card_inserted card_account)
    else none

abbrev pub send_key : Option Message → System → System
send_key none s = s
send_key (some m) s = send_atm m s

-- A key that main reads, one of the calls of done() after 'q', or a move of one of the threads.
pub data Event : Type 0 where
  key : ℕ → Event
  bank_done machine_done interface_done : Event
  atm_moves bank_moves hardware_moves : Event

unfoldable pub step : Event → System → System
unfolding key_message send_atm send_bank send_hardware
step (key c) s = send_key (key_message c) s
step bank_done s = send_bank close_queue s
step machine_done s = send_atm close_queue s
step interface_done s = send_hardware close_queue s
step atm_moves s = atm_step s
step bank_moves s = bank_step s
step hardware_moves s = hardware_step s

unfoldable pub run : List Event → System → System
run [] s = s
run (e ∷ es) s = run es (step e s)
