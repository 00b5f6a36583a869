-- ===== src/RemoteControl/Bound.antt =====
-- class RemoteControl of 06.command_with_bind.cpp, whose devices are those of 06.command.cpp.
use sundries.Prelude.{
  ℕ, Option, none, some, List, [], ◌∷◌, ◌||◌, not, if◌then◌else◌, leb, length, get_elem?, set,
  replicate,
}
use sundries.RemoteControl.Devices.{World, Outcome, done, crashes, throws, ◌>>=◌}
use sundries.RemoteControl.Remote.{is_set}

-- std::function<void()>, which may be empty.
abbrev pub Function : Type 0
Function = Option (World → Outcome World)

pub record RemoteControl : Type 0 where
  pub on_commands : List Function
  pub off_commands : List Function

unfoldable pub new_remote : RemoteControl
new_remote = record { on_commands = replicate 7 none; off_commands = replicate 7 none }

unfoldable pub set_command : ℕ → Function → Function → RemoteControl → RemoteControl
set_command slot on off r = if leb (length r.on_commands) slot then r else record {
  on_commands = set r.on_commands slot on;
  off_commands = set r.off_commands slot off;
}

-- To call an empty function throws std::bad_function_call.
abbrev pub call_at : Option Function → World → Outcome World
call_at none w = crashes
call_at (some none) w = throws
call_at (some (some f)) w = f w

unfoldable pub on_button_was_pushed : ℕ → RemoteControl → World → Outcome World
on_button_was_pushed slot r w =
    if leb (length r.on_commands) slot || not (is_set (get_elem? r.on_commands slot))
    then done w
    else call_at (get_elem? r.on_commands slot) w

unfoldable pub off_button_was_pushed : ℕ → RemoteControl → World → Outcome World
off_button_was_pushed slot r w =
    if leb (length r.on_commands) slot || not (is_set (get_elem? r.on_commands slot))
    then done w
    else call_at (get_elem? r.off_commands slot) w

pub data Call : Type 0 where
  sets : ℕ → Function → Function → Call
  pushes_on pushes_off : ℕ → Call

unfoldable pub run : List Call → RemoteControl → World → Outcome World
unfolding set_command on_button_was_pushed off_button_was_pushed
run [] r w = done w
run (sets slot on off ∷ cs) r w = run cs (set_command slot on off r) w
run (pushes_on slot ∷ cs) r w = on_button_was_pushed slot r w >>= run cs r
run (pushes_off slot ∷ cs) r w = off_button_was_pushed slot r w >>= run cs r
