-- ===== src/RemoteControl/Devices.antt =====
-- The devices of 06.command.cpp. Those with changing fields stand in a store, by their addresses.
use sundries.Prelude.{ℕ, Bool, true, false, Option, none, some, List, [], ◌∷◌, ◌++◌, update}
use Prim.Native.String.{String}

-- The lines written to std::cout, with the location of the device.
pub data Line : Type 0 where
  light_is_on light_is_off : String → Line
  fan_is_on_high fan_is_on_medium fan_is_on_low fan_is_off : String → Line
  door_is_up door_is_down door_is_stopped garage_light_is_on garage_light_is_off : String → Line
  hottub_is_bubbling hottub_is_not_bubbling hottub_jets_are_on hottub_jets_are_off : Line
  hottub_is_heating hottub_is_cooling : Line
  stereo_is_on stereo_is_off stereo_is_set_for_cd stereo_is_set_for_dvd : String → Line
  stereo_is_set_for_radio : String → Line
  stereo_volume_set : String → ℕ → Line
  tv_is_on tv_is_off channel_is_set : Line

pub record Light : Type 0 where
  pub location : String

pub data Level : Type 0 where
  off_level low_level medium_level high_level : Level

-- `none` is a field that has no value yet.
pub record CeilingFan : Type 0 where
  pub location : String
  pub level : Option Level

pub record GarageDoor : Type 0 where
  pub location : String

pub record Hottub : Type 0 where
  pub is_on : Option Bool
  pub temperature : Option ℕ

pub record Stereo : Type 0 where
  pub location : String

pub record Tv : Type 0 where
  pub location : String
  pub channel : Option ℕ

pub record World : Type 0 where
  pub fan : ℕ → CeilingFan
  pub hottub : ℕ → Hottub
  pub tv : ℕ → Tv
  pub cout : List Line

-- How a call ends: `crashes` is one through a null pointer, or one that reads a field with no value;
-- `throws` is one of an empty std::function.
pub data Outcome {ℓ} (A : Type ℓ) : Type ℓ where
  done : A → Outcome A
  crashes throws : Outcome A

infixl 5 ◌>>=◌
abbrev pub ◌>>=◌ {ℓ κ} : {A : Type ℓ} {B : Type κ} → Outcome A → (A → Outcome B) → Outcome B
done a >>= f = f a
crashes >>= f = crashes
throws >>= f = throws

abbrev pub print : Line → World → World
print l w = record w { cout = w.cout ++ l ∷ [] }

-- class Light
abbrev pub light_on : Light → World → World
light_on l = print (light_is_on l.location)

abbrev pub light_off : Light → World → World
light_off l = print (light_is_off l.location)

-- class CeilingFan
abbrev set_level : ℕ → Level → World → World
set_level a v w = record w { fan = update w.fan a (record (w.fan a) { level = some v }) }

abbrev pub fan_high : ℕ → World → World
fan_high a w = print (fan_is_on_high (w.fan a).location) (set_level a high_level w)

abbrev pub fan_medium : ℕ → World → World
fan_medium a w = print (fan_is_on_medium (w.fan a).location) (set_level a medium_level w)

abbrev pub fan_low : ℕ → World → World
fan_low a w = print (fan_is_on_low (w.fan a).location) (set_level a low_level w)

abbrev pub fan_off : ℕ → World → World
fan_off a w = print (fan_is_off (w.fan a).location) (set_level a off_level w)

abbrev level_number : Level → ℕ
level_number off_level = 0
level_number low_level = 1
level_number medium_level = 2
level_number high_level = 3

abbrev level_of : Option Level → Outcome ℕ
level_of none = crashes
level_of (some v) = done (level_number v)

abbrev pub get_speed : ℕ → World → Outcome ℕ
get_speed a w = level_of (w.fan a).level

-- class GarageDoor
abbrev pub door_up : GarageDoor → World → World
door_up d = print (door_is_up d.location)

abbrev pub door_down : GarageDoor → World → World
door_down d = print (door_is_down d.location)

abbrev pub door_stop : GarageDoor → World → World
door_stop d = print (door_is_stopped d.location)

abbrev pub door_light_on : GarageDoor → World → World
door_light_on d = print (garage_light_is_on d.location)

abbrev pub door_light_off : GarageDoor → World → World
door_light_off d = print (garage_light_is_off d.location)

-- class Hottub
abbrev set_hottub : ℕ → Hottub → World → World
set_hottub a h w = record w { hottub = update w.hottub a h }

abbrev pub hottub_on : ℕ → World → World
hottub_on a w = set_hottub a (record (w.hottub a) { is_on = some true }) w

abbrev pub hottub_off : ℕ → World → World
hottub_off a w = set_hottub a (record (w.hottub a) { is_on = some false }) w

abbrev print_if : Option Bool → Line → World → Outcome World
print_if none l w = crashes
print_if (some true) l w = done (print l w)
print_if (some false) l w = done w

abbrev pub bubbles_on : ℕ → World → Outcome World
bubbles_on a w = print_if (w.hottub a).is_on hottub_is_bubbling w

abbrev pub bubbles_off : ℕ → World → Outcome World
bubbles_off a w = print_if (w.hottub a).is_on hottub_is_not_bubbling w

abbrev pub jets_on : ℕ → World → Outcome World
jets_on a w = print_if (w.hottub a).is_on hottub_jets_are_on w

abbrev pub jets_off : ℕ → World → Outcome World
jets_off a w = print_if (w.hottub a).is_on hottub_jets_are_off w

abbrev pub set_temperature : ℕ → ℕ → World → World
set_temperature a t w = set_hottub a (record (w.hottub a) { temperature = some t }) w

abbrev pub heat : ℕ → World → World
heat a w = print hottub_is_heating (set_temperature a 105 w)

abbrev pub cool : ℕ → World → World
cool a w = print hottub_is_cooling (set_temperature a 98 w)

-- class Stereo
abbrev pub stereo_on : Stereo → World → World
stereo_on s = print (stereo_is_on s.location)

abbrev pub stereo_off : Stereo → World → World
stereo_off s = print (stereo_is_off s.location)

abbrev pub set_cd : Stereo → World → World
set_cd s = print (stereo_is_set_for_cd s.location)

abbrev pub set_dvd : Stereo → World → World
set_dvd s = print (stereo_is_set_for_dvd s.location)

abbrev pub set_radio : Stereo → World → World
set_radio s = print (stereo_is_set_for_radio s.location)

abbrev pub set_volume : Stereo → ℕ → World → World
set_volume s v = print (stereo_volume_set s.location v)

-- class TV
abbrev pub tv_on : World → World
tv_on = print tv_is_on

abbrev pub tv_off : World → World
tv_off = print tv_is_off

abbrev pub set_input_channel : ℕ → World → World
set_input_channel a w =
    print channel_is_set (record w { tv = update w.tv a (record (w.tv a) { channel = some 3 }) })
