-- ===== src/RemoteControl/Tests.antt =====
-- The mains of 06.command.cpp and 06.command_with_bind.cpp.
use sundries.Prelude.{
  ℕ, ◌≡◌, ◌⊎◌, refl, true, false, none, some, List, [], ◌∷◌, ◌++◌, if◌then◌else◌, ltb,
}
use mathlib.Core.List.{map}
use sundries.RemoteControl.Devices.{
  Line, light_is_on, light_is_off, fan_is_on_high, fan_is_off, door_is_up, door_is_down,
  stereo_is_on, stereo_is_off, stereo_is_set_for_cd, stereo_volume_set, hottub_is_heating,
  hottub_is_bubbling, Light, GarageDoor, Stereo, World, Outcome, done, crashes, throws, light_on,
  light_off, fan_high, fan_off, door_up, door_down, stereo_on, stereo_off, set_cd, set_volume,
  get_speed, jets_on,
}
use sundries.RemoteControl.Commands.{
  execute, no_command, light_on_command, light_off_command, ceiling_fan_on_command,
  ceiling_fan_off_command, garage_door_up_command, garage_door_down_command, hottub_on_command,
  set_slot, button_was_pressed,
}
use sundries.RemoteControl.Remote
use sundries.RemoteControl.Bound
use sundries.RemoteControl.Agree.{bound_call, bound_remote, meets_null, run-bound_call}
use sundries.RemoteControl.Buttons.{
  Settings, set_all, chosen, nothing, on_does, off_does, buttons_as_chosen,
}

abbrev world : World
world = record {
  fan = λ a. record { location = "Living Room"; level = none };
  hottub = λ a. record { is_on = none; temperature = none };
  tv = λ a. record { location = ""; channel = none };
  cout = [];
}

abbrev printed : Outcome World → List Line
printed (done w) = w.cout
printed crashes = []
printed throws = []

abbrev living_room : Light
living_room = record { location = "Living Room" }

abbrev kitchen : Light
kitchen = record { location = "Kitchen" }

abbrev garage_door : GarageDoor
garage_door = record { location = "Main house" }

abbrev stereo : Stereo
stereo = record { location = "Living Room" }

abbrev push_both : List ℕ → List Remote.Call
push_both [] = []
push_both (i ∷ is) = Remote.pushes_on i ∷ Remote.pushes_off i ∷ push_both is

-- main of 06.command.cpp
abbrev main_calls : List Remote.Call
main_calls =
    (Remote.sets 0 (some (light_on_command (some living_room)))
        (some (light_off_command (some living_room)))
      ∷ Remote.sets 1 (some (light_on_command (some kitchen)))
          (some (light_off_command (some kitchen)))
      ∷ Remote.sets 2 (some (ceiling_fan_on_command (some 0)))
          (some (ceiling_fan_off_command (some 0)))
      ∷ Remote.sets 4 (some (garage_door_up_command (some garage_door)))
          (some (garage_door_down_command (some garage_door)))
      ∷ [])
    ++ (push_both (0 ∷ 1 ∷ 2 ∷ 3 ∷ 4 ∷ []) ++ Remote.pushes_on 5 ∷ [])

main_calls_print :
    printed (Remote.run main_calls Remote.new_remote world)
    ≡ light_is_on "Living Room"
      ∷ light_is_off "Living Room"
      ∷ light_is_on "Kitchen"
      ∷ light_is_off "Kitchen"
      ∷ fan_is_on_high "Living Room"
      ∷ fan_is_off "Living Room"
      ∷ door_is_up "Main house"
      ∷ door_is_down "Main house"
      ∷ []
unfolding Remote.run Remote.new_remote execute
main_calls_print = refl

run-bound_call_example :
    (Bound.run (map bound_call main_calls) (bound_remote Remote.new_remote) world ≡ (
      if meets_null main_calls Remote.new_remote world
      then throws
      else Remote.run main_calls Remote.new_remote world))
    × ((meets_null main_calls Remote.new_remote world ≡ false)
        ⊎ (Remote.run main_calls Remote.new_remote world ≡ crashes))
run-bound_call_example = run-bound_call main_calls Remote.new_remote world

-- An on-command alone: its off-button calls the null command.
abbrev on_alone : List Remote.Call
on_alone = Remote.sets 0 (some no_command) none ∷ Remote.pushes_on 0 ∷ Remote.pushes_off 0 ∷ []

null_command_test : meets_null on_alone Remote.new_remote world ≡ true
unfolding Remote.set_command Remote.new_remote Remote.on_button_was_pushed execute
null_command_test = refl

-- main of 06.command_with_bind.cpp
abbrev to_function : (World → World) → Bound.Function
to_function f = some (λ w. done (f w))

abbrev bound_main_calls : List Bound.Call
bound_main_calls =
    Bound.sets 0 (to_function (light_on living_room)) (to_function (light_off living_room))
    ∷ Bound.sets 1 (to_function (light_on kitchen)) (to_function (light_off kitchen))
    ∷ Bound.sets 2 (to_function (fan_high 0)) (to_function (fan_off 0))
    ∷ Bound.sets 3 (to_function (λ w. set_volume stereo 11 (set_cd stereo (stereo_on stereo w))))
        (to_function (stereo_off stereo))
    ∷ Bound.sets 4 (to_function (door_up garage_door)) (to_function (door_down garage_door))
    ∷ (map bound_call (push_both (0 ∷ 1 ∷ 2 ∷ 3 ∷ 4 ∷ [])) ++ Bound.pushes_on 5 ∷ [])

bound_main_calls_print :
    printed (Bound.run bound_main_calls Bound.new_remote world)
    ≡ light_is_on "Living Room"
      ∷ light_is_off "Living Room"
      ∷ light_is_on "Kitchen"
      ∷ light_is_off "Kitchen"
      ∷ fan_is_on_high "Living Room"
      ∷ fan_is_off "Living Room"
      ∷ stereo_is_on "Living Room"
      ∷ stereo_is_set_for_cd "Living Room"
      ∷ stereo_volume_set "Living Room" 11
      ∷ stereo_is_off "Living Room"
      ∷ door_is_up "Main house"
      ∷ door_is_down "Main house"
      ∷ []
unfolding Bound.run Bound.new_remote
bound_main_calls_print = refl

simple_remocon_test :
    printed (button_was_pressed (set_slot (some (hottub_on_command (some 0))) none) world)
    ≡ hottub_is_heating ∷ hottub_is_bubbling ∷ []
unfolding button_was_pressed set_slot
simple_remocon_test = refl

jets_test : jets_on 0 world ≡ crashes
jets_test = refl

speed_test : get_speed 0 (fan_high 0 world) ≡ done 3
speed_test = refl

-- Slot 6 gets a pair, and then an off-command alone.
abbrev off_alone : Settings
off_alone =
    (6, record { on = some (light_on_command (some kitchen)); off = none })
    ∷ (6, record { on = none; off = some (light_off_command (some kitchen)) })
    ∷ []

buttons_as_chosen_example :
    (Remote.on_button_was_pushed 6 (set_all off_alone Remote.new_remote) world
      ≡ (if ltb 6 7 then on_does (chosen 6 off_alone nothing).on world else done world))
    × (Remote.off_button_was_pushed 6 (set_all off_alone Remote.new_remote) world ≡ (
        if ltb 6 7
        then off_does (chosen 6 off_alone nothing).on (chosen 6 off_alone nothing).off world
        else done world))
buttons_as_chosen_example = buttons_as_chosen off_alone 6 world
