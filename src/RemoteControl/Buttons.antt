-- ===== src/RemoteControl/Buttons.antt =====
-- What the buttons of 06.command.cpp do after any settings.
use sundries.Prelude.{
  ℕ, zero, suc, ◌<◌, ◌≡◌, refl, ◌∙◌, Bool, false, Bool-cases, inl, inr, Option, none, some, List,
  [], ◌∷◌, ◌||◌, not, if◌then◌else◌, leb, ltb, ◌==◌, length, length-set, get_elem?, get_elem?-set,
  replicate, arith,
}
use sundries.RemoteControl.Devices.{World, Outcome, done, crashes}
use sundries.RemoteControl.Commands.{Command, execute}
use sundries.RemoteControl.Remote.{
  RemoteControl, new_remote, set_command, is_set, execute_at, on_button_was_pushed,
  off_button_was_pushed,
}

pub record Pair : Type 0 where
  pub on : Option Command
  pub off : Option Command

abbrev pub Settings : Type 0
Settings = List (ℕ × Pair)

abbrev pub set_all : Settings → RemoteControl → RemoteControl
set_all [] r = r
set_all ((i, p) ∷ rest) r = set_all rest (set_command i p.on p.off r)

-- The pair that was set last for a slot, or else `p`.
abbrev pub chosen : ℕ → Settings → Pair → Pair
chosen slot [] p = p
chosen slot ((i, q) ∷ rest) p = chosen slot rest (if i == slot then q else p)

abbrev pub nothing : Pair
nothing = record { on = none; off = none }

abbrev pub on_does : Option Command → World → Outcome World
on_does none w = done w
on_does (some c) w = execute c w

abbrev pub off_does : Option Command → Option Command → World → Outcome World
off_does none off w = done w
off_does (some c) none w = crashes
off_does (some c) (some d) w = execute d w

-- The slot holds the pair.
record Holds (slot : ℕ) (p : Pair) (r : RemoteControl) : Type 0 where
  seven_on : length r.on_commands ≡ 7
  seven_off : length r.off_commands ≡ 7
  on_there : slot < 7 → get_elem? r.on_commands slot ≡ some p.on
  off_there : slot < 7 → get_elem? r.off_commands slot ≡ some p.off

replicate_found {ℓ} : {A : Type ℓ} (n i : ℕ) (a : A) → i < n → get_elem? (replicate n a) i ≡ some a
replicate_found zero i a h = absurd (omega arith)
replicate_found (suc n) zero a h = refl
replicate_found (suc n) (suc i) a h = replicate_found n i a (omega arith)

new_remote-Holds : (slot : ℕ) → Holds slot nothing new_remote
unfolding new_remote
new_remote-Holds slot = record {
  seven_on = refl;
  seven_off = refl;
  on_there = replicate_found 7 slot none;
  off_there = replicate_found 7 slot none;
}

set_command-Holds :
    (slot i : ℕ) (p q : Pair) (r : RemoteControl)
    → Holds slot p r
    → Holds slot (if i == slot then q else p) (set_command i q.on q.off r)
unfolding set_command
set_command-Holds slot i p q r h = elim (Bool-cases (leb (length r.on_commands) i)) [
  | inl full ↦ rw full (record {
    seven_on = h.seven_on;
    seven_off = h.seven_off;
    on_there = λ s. ground (arith, h.on_there s, h.seven_on);
    off_there = λ s. ground (arith, h.off_there s, h.seven_on);
  })
  | inr room ↦ rw room (record {
    seven_on = length-set r.on_commands i q.on ∙ h.seven_on;
    seven_off = length-set r.off_commands i q.off ∙ h.seven_off;
    on_there =
        λ s. ground (arith, get_elem?-set r.on_commands i slot q.on, h.on_there s, h.seven_on);
    off_there = λ s.
        ground (
          arith,
          get_elem?-set r.off_commands i slot q.off,
          h.off_there s,
          h.seven_on,
          h.seven_off,
        );
  })
]

set_all-Holds :
    (slot : ℕ) (settings : Settings) (p : Pair) (r : RemoteControl)
    → Holds slot p r
    → Holds slot (chosen slot settings p) (set_all settings r)
set_all-Holds slot [] p r h = h
set_all-Holds slot ((i, q) ∷ rest) p r h =
    set_all-Holds slot rest (if i == slot then q else p) (set_command i q.on q.off r)
      (set_command-Holds slot i p q r h)

-- `full` is the test of the slot against the size.
pressed :
    (full : Bool) (on off : Option Command) (w : World)
    → full ≡ false
    → ((if full || not (is_set (some on)) then done w else execute_at (some on) w) ≡ on_does on w)
      × ((if full || not (is_set (some on)) then done w else execute_at (some off) w)
          ≡ off_does on off w)
pressed full none off w e = rw e (refl, refl)
pressed full (some c) none w e = rw e (refl, refl)
pressed full (some c) (some d) w e = rw e (refl, refl)

buttons-Holds :
    (slot : ℕ) (w : World) (p : Pair) (r : RemoteControl)
    → Holds slot p r
    → (on_button_was_pushed slot r w ≡ (if ltb slot 7 then on_does p.on w else done w))
      × (off_button_was_pushed slot r w ≡ (if ltb slot 7 then off_does p.on p.off w else done w))
unfolding on_button_was_pushed off_button_was_pushed
buttons-Holds slot w p r h = elim (Bool-cases (ltb slot 7)) [
  | inl e ↦
      let s : slot < 7 = ground (arith, e) in
      rw e (
        rw (h.seven_on, h.on_there s, h.off_there s)
          (pressed (leb 7 slot) p.on p.off w (ground (arith, s))))
  | inr e ↦ rw e (ground (arith, h.seven_on))
]

-- After any settings, the buttons of each of the seven slots execute the commands that were set last
-- for it: the on-button nothing where there is no on-command; the off-button nothing where there is no
-- on-command, whatever the off-command is, and it crashes where there is an on-command alone. The
-- buttons of any other slot do nothing.
pub buttons_as_chosen :
    (settings : Settings) (slot : ℕ) (w : World)
    → (on_button_was_pushed slot (set_all settings new_remote) w
        ≡ (if ltb slot 7 then on_does (chosen slot settings nothing).on w else done w))
      × (off_button_was_pushed slot (set_all settings new_remote) w ≡ (
          if ltb slot 7
          then off_does (chosen slot settings nothing).on (chosen slot settings nothing).off w
          else done w))
buttons_as_chosen settings slot w =
    buttons-Holds slot w (chosen slot settings nothing) (set_all settings new_remote)
      (set_all-Holds slot settings nothing new_remote (new_remote-Holds slot))
