-- ===== src/Atm/Pin/Guest.antt =====
-- Somebody who never presses one of the PIN's digits gets nothing.
use sundries.Prelude.{
  Bool-cases, inl, inr, ℕ, ◌+◌, ◌<◌, ◌≡◌, ◌≢◌, refl, ap, Bool, true, false, List, [], ◌∷◌, arith,
  count_if, count_if-append, if◌then◌else◌, ◌==◌,
}
use sundries.Atm.Messages.{
  Text, text_eq, Message, verify_pin, pin_verified, withdraw, withdraw_ok, issue_money,
  digit_pressed,
}
use sundries.Atm.System.{
  AtmState, waiting_for_card, getting_pin, verifying_pin, wait_for_action, process_balance,
  process_withdrawal, done_processing, System, initial,
}
use sundries.Atm.Machine.{enter, receive}
use sundries.Atm.Bank.{right_pin, bank_receive}
use sundries.Atm.Display.{hardware_receive}
use sundries.Atm.Induction.{AllKeys, IsKept, run_keeps}
use sundries.Atm.Run.{Event, key, bank_done, machine_done, interface_done, step, run}
use sundries.Atm.Pin.Digits.{count_if-pop_back}

text_eq→eq : (s t : Text) → text_eq s t ≡ true → s ≡ t
unfolding text_eq
text_eq→eq [] [] h = refl
text_eq→eq [] (c ∷ t) h = cc
text_eq→eq (b ∷ s) [] h = cc
text_eq→eq (b ∷ s) (c ∷ t) h = ground (arith, text_eq→eq s t)

abbrev is_guest : AtmState → Bool
is_guest waiting_for_card = true
is_guest getting_pin = true
is_guest verifying_pin = true
is_guest done_processing = true
is_guest _ = false

abbrev pub hit : ℕ → ℕ → ℕ
hit d c = if c == d then 1 else 0

abbrev hit_key : ℕ → Message → ℕ
hit_key d (digit_pressed c) = hit d c
hit_key d _ = 0

-- The digits `d` that the bank is asked about, and the withdrawals that it is asked for.
abbrev hit_request : ℕ → Message → ℕ
hit_request d (verify_pin account pin) = count_if (hit d) pin
hit_request d (withdraw account amount) = 1
hit_request d _ = 0

abbrev authority : Message → ℕ
authority pin_verified = 1
authority withdraw_ok = 1
authority _ = 0

abbrev pub money : Message → ℕ
money (issue_money amount) = 1
money _ = 0

ruleset guests = (arith, count_if-append, count_if-pop_back)

module _ (d : ℕ) (needed : 0 < count_if (hit d) right_pin) where
  record IsLockedOut (s : System) : Type 0 where
    guest : is_guest s.atm_state ≡ true
    typed : count_if (hit d) s.pin ≡ 0
    pressed : count_if (hit_key d) s.atm_queue ≡ 0
    asked : count_if (hit_request d) s.bank_queue ≡ 0
    answered : count_if authority s.atm_queue ≡ 0
    untouched : s.bank_balance ≡ 199
    none_issued : count_if money s.hardware_queue + count_if money s.shown ≡ 0

  initial-IsLockedOut : IsLockedOut initial
  unfolding initial
  initial-IsLockedOut = ground arith

  wrong_pin : (pin : Text) → count_if (hit d) pin ≡ 0 → text_eq pin right_pin ≡ false
  wrong_pin pin h = elim (Bool-cases (text_eq pin right_pin)) [
    | inl e ↦ absurd (omega (arith, needed, ap (count_if (hit d)) (text_eq→eq pin right_pin e)))
    | inr e ↦ e
  ]

  enter-IsLockedOut :
      (st : AtmState) (s : System) → s.atm_state ≡ st → IsLockedOut s → IsLockedOut (enter st s)
  unfolding enter
  enter-IsLockedOut waiting_for_card s e h = grind (arith, count_if-append)
  enter-IsLockedOut getting_pin s e h = grind (arith, count_if-append)
  enter-IsLockedOut verifying_pin s e h = grind (arith, count_if-append)
  enter-IsLockedOut wait_for_action s e h = grind (arith, count_if-append)
  enter-IsLockedOut process_balance s e h = grind (arith, count_if-append)
  enter-IsLockedOut process_withdrawal s e h = grind (arith, count_if-append)
  enter-IsLockedOut done_processing s e h = grind (arith, count_if-append)

  receive-IsLockedOut :
      (st : AtmState) (m : Message) (q : List Message) (s : System)
      → s.atm_state ≡ st
      → s.atm_queue ≡ m ∷ q
      → IsLockedOut s
      → IsLockedOut (receive st m (record s { atm_queue = q }))
  unfolding receive
  receive-IsLockedOut waiting_for_card m q s e f h = grind guests
  receive-IsLockedOut getting_pin m q s e f h = grind guests
  receive-IsLockedOut verifying_pin m q s e f h = grind guests
  receive-IsLockedOut wait_for_action m q s e f h = grind guests
  receive-IsLockedOut process_balance m q s e f h = grind guests
  receive-IsLockedOut process_withdrawal m q s e f h = grind guests
  receive-IsLockedOut done_processing m q s e f h = grind guests

  bank_receive-IsLockedOut :
      (m : Message) (q : List Message) (s : System)
      → s.bank_queue ≡ m ∷ q
      → IsLockedOut s
      → IsLockedOut (bank_receive m (record s { bank_queue = q }))
  unfolding bank_receive
  bank_receive-IsLockedOut m q s f h = grind (arith, count_if-append, wrong_pin)

  hardware_receive-IsLockedOut :
      (m : Message) (q : List Message) (s : System)
      → s.hardware_queue ≡ m ∷ q
      → IsLockedOut s
      → IsLockedOut (hardware_receive m (record s { hardware_queue = q }))
  unfolding hardware_receive
  hardware_receive-IsLockedOut m q s f h = grind (arith, count_if-append)

  key-IsLockedOut : (c : ℕ) (s : System) → c ≢ d → IsLockedOut s → IsLockedOut (step (key c) s)
  unfolding step
  key-IsLockedOut c s k h = grind (arith, count_if-append)

  bank_done-IsLockedOut : (s : System) → IsLockedOut s → IsLockedOut (step bank_done s)
  unfolding step
  bank_done-IsLockedOut s h = grind (arith, count_if-append)

  machine_done-IsLockedOut : (s : System) → IsLockedOut s → IsLockedOut (step machine_done s)
  unfolding step
  machine_done-IsLockedOut s h = grind (arith, count_if-append)

  interface_done-IsLockedOut : (s : System) → IsLockedOut s → IsLockedOut (step interface_done s)
  unfolding step
  interface_done-IsLockedOut s h = grind (arith, count_if-append)

  IsLockedOut-kept : IsKept (λ c. c ≢ d) IsLockedOut
  IsLockedOut-kept = record {
    by_enter = enter-IsLockedOut;
    by_receive = receive-IsLockedOut;
    by_bank = bank_receive-IsLockedOut;
    by_hardware = hardware_receive-IsLockedOut;
    by_key = key-IsLockedOut;
    by_bank_done = bank_done-IsLockedOut;
    by_machine_done = machine_done-IsLockedOut;
    by_interface_done = interface_done-IsLockedOut;
  }

-- If some digit of the right PIN is never pressed, then under every schedule the balance stays at
-- 199, no money is issued, shown or not, and the ATM never comes to offer an action.
pub run_locked_out :
    (d : ℕ) (es : List Event)
    → 0 < count_if (hit d) right_pin
    → AllKeys (λ c. c ≢ d) es
    → let s = run es initial in
      (s.bank_balance ≡ 199)
      × (count_if money s.hardware_queue + count_if money s.shown ≡ 0)
      × (s.atm_state ≢ wait_for_action)
run_locked_out d es needed ks =
    let h = run_keeps (IsLockedOut-kept d needed) es initial ks (initial-IsLockedOut d needed) in
    (h.untouched, h.none_issued, λ e. cc (h.guest, ap is_guest e))
