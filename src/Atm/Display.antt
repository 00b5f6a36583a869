-- ===== src/Atm/Display.antt =====
-- class interface_machine of 4.x5.ATM.cpp: it prints the messages that it knows.
use sundries.Prelude.{Option, none, some, List, [], ◌∷◌, ◌++◌}
use sundries.Messaging.Dispatch.{Handler, wait_and_pop, dispatch, handled, unhandled, thrown}
use sundries.Atm.Messages.{
  Message, eject_card, issue_money, display_enter_pin, display_enter_card,
  display_insufficient_funds, display_withdrawal_cancelled, display_pin_incorrect_message,
  display_withdrawal_options, display_balance, is_close,
}
use sundries.Atm.System.{Phase, calling, waiting, stopped, System}

show : Message → System → System
show m s = record s { shown = s.shown ++ m ∷ [] }

-- The nine handlers differ in the text that they print.
on_display : Handler Message System
unfolding show
on_display (issue_money amount) s = some (show (issue_money amount) s)
on_display display_insufficient_funds s = some (show display_insufficient_funds s)
on_display display_enter_pin s = some (show display_enter_pin s)
on_display display_enter_card s = some (show display_enter_card s)
on_display (display_balance amount) s = some (show (display_balance amount) s)
on_display display_withdrawal_options s = some (show display_withdrawal_options s)
on_display display_withdrawal_cancelled s = some (show display_withdrawal_cancelled s)
on_display display_pin_incorrect_message s = some (show display_pin_incorrect_message s)
on_display eject_card s = some (show eject_card s)
on_display _ s = none

unfoldable pub hardware_receive : Message → System → System
unfolding on_display dispatch
hardware_receive m s = elim (dispatch is_close (on_display ∷ []) m s) [
  | handled s' ↦ s'
  | unhandled ↦ s
  | thrown ↦ record s { hardware_phase = stopped }
]

abbrev pub hardware_receive_from : Option (Message × List Message) → System → System
hardware_receive_from none s = s
hardware_receive_from (some (m, q)) s = hardware_receive m (record s { hardware_queue = q })

abbrev pub hardware_in : Phase → System → System
hardware_in stopped s = s
hardware_in calling s = hardware_receive_from (wait_and_pop s.hardware_queue) s
hardware_in waiting s = hardware_receive_from (wait_and_pop s.hardware_queue) s

-- One move of the thread that runs interface_machine::run.
unfoldable pub hardware_step : System → System
unfolding wait_and_pop
hardware_step s = hardware_in s.hardware_phase s
