-- ===== src/RemoteControl/Remote.antt =====
-- class RemoteControl of 06.command.cpp.
use sundries.Prelude.{
  ℕ, Bool, true, false, Option, none, some, List, [], ◌∷◌, ◌||◌, not, if◌then◌else◌, leb, length,
  get_elem?, set, replicate,
}
use sundries.RemoteControl.Devices.{World, Outcome, done, crashes, ◌>>=◌}
use sundries.RemoteControl.Commands.{Command, execute}

pub record RemoteControl : Type 0 where
  pub on_commands : List (Option Command)
  pub off_commands : List (Option Command)

unfoldable pub new_remote : RemoteControl
new_remote = record { on_commands = replicate 7 none; off_commands = replicate 7 none }

unfoldable pub set_command : ℕ → Option Command → Option Command → RemoteControl → RemoteControl
set_command slot on off r = if leb (length r.on_commands) slot then r else record {
  on_commands = set r.on_commands slot on;
  off_commands = set r.off_commands slot off;
}

-- The entry of a vector at an index, by operator[]; out of range it is undefined.
abbrev pub execute_at : Option (Option Command) → World → Outcome World
execute_at none w = crashes
execute_at (some none) w = crashes
execute_at (some (some c)) w = execute c w

abbrev pub is_set {ℓ} : {A : Type ℓ} → Option (Option A) → Bool
is_set none = false
is_set (some none) = false
is_set (some (some c)) = true

-- Past the end no entry is looked at, and `is_set` says no.
unfoldable pub on_button_was_pushed : ℕ → RemoteControl → World → Outcome World
on_button_was_pushed slot r w =
    if leb (length r.on_commands) slot || not (is_set (get_elem? r.on_commands slot))
    then done w
    else execute_at (get_elem? r.on_commands slot) w

-- The test is on the on-command, as in the source.
unfoldable pub off_button_was_pushed : ℕ → RemoteControl → World → Outcome World
off_button_was_pushed slot r w =
    if leb (length r.on_commands) slot || not (is_set (get_elem? r.on_commands slot))
    then done w
    else execute_at (get_elem? r.off_commands slot) w

pub data Call : Type 0 where
  sets : ℕ → Option Command → Option Command → Call
  pushes_on pushes_off : ℕ → Call

-- Calls, one after another, up to one that crashes.
unfoldable pub run : List Call → RemoteControl → World → Outcome World
unfolding set_command on_button_was_pushed off_button_was_pushed
run [] r w = done w
run (sets slot on off ∷ cs) r w = run cs (set_command slot on off r) w
run (pushes_on slot ∷ cs) r w = on_button_was_pushed slot r w >>= run cs r
run (pushes_off slot ∷ cs) r w = off_button_was_pushed slot r w >>= run cs r
