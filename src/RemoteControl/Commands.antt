-- ===== src/RemoteControl/Commands.antt =====
-- The Command classes of 06.command.cpp, and SimpleRemocon.
use sundries.Prelude.{ℕ, Option, none, some}
use sundries.RemoteControl.Devices.{
  Light, GarageDoor, World, Outcome, done, crashes, light_on, light_off, fan_high, fan_off, door_up,
  door_down, hottub_on, hottub_off, heat, bubbles_on,
}

-- Each holds a shared_ptr to its device, which may be null.
pub data Command : Type 0 where
  no_command : Command
  light_on_command light_off_command : Option Light → Command
  ceiling_fan_on_command ceiling_fan_off_command : Option ℕ → Command
  garage_door_up_command garage_door_down_command : Option GarageDoor → Command
  hottub_on_command hottub_off_command : Option ℕ → Command

-- A call on a device through a pointer that is not tested.
abbrev through {ℓ} : {A : Type ℓ} → Option A → (A → World → Outcome World) → World → Outcome World
through none f w = crashes
through (some a) f w = f a w

abbrev if_there {ℓ} : {A : Type ℓ} → Option A → (A → World → World) → World → Outcome World
if_there none f w = done w
if_there (some a) f w = done (f a w)

unfoldable pub execute : Command → World → Outcome World
execute no_command w = done w
execute (light_on_command p) w = if_there p light_on w
execute (light_off_command p) w = if_there p light_off w
execute (ceiling_fan_on_command p) w = through p (λ a w. done (fan_high a w)) w
execute (ceiling_fan_off_command p) w = through p (λ a w. done (fan_off a w)) w
execute (garage_door_up_command p) w = through p (λ d w. done (door_up d w)) w
execute (garage_door_down_command p) w = through p (λ d w. done (door_down d w)) w
execute (hottub_on_command p) w = through p (λ a w. bubbles_on a (heat a (hottub_on a w))) w
execute (hottub_off_command p) w = through p (λ a w. done (hottub_off a w)) w

-- The slot of a SimpleRemocon; setCommand moves the command into it.
abbrev pub SimpleRemocon : Type 0
SimpleRemocon = Option Command

unfoldable pub set_slot : Option Command → SimpleRemocon → SimpleRemocon
set_slot c r = c

unfoldable pub button_was_pressed : SimpleRemocon → World → Outcome World
unfolding execute
button_was_pressed none w = done w
button_was_pressed (some c) w = execute c w
