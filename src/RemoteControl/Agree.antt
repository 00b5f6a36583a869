-- ===== src/RemoteControl/Agree.antt =====
-- The two remote controls do the same, and what a button of theirs does.
use sundries.Prelude.{
  ℕ, zero, suc, ◌≡◌, refl, Bool, true, false, ◌⊎◌, ap, Bool-cases, inl, inr, Option, none, some,
  List, [], ◌∷◌, ◌||◌, not, if◌then◌else◌, leb, length, get_elem?, set,
}
use mathlib.Core.Option
use mathlib.Core.List.{map}
use sundries.RemoteControl.Devices.{World, Outcome, done, crashes, throws, ◌>>=◌}
use sundries.RemoteControl.Commands.{Command, execute}
use sundries.RemoteControl.Remote.{RemoteControl, Call, is_set, execute_at}
use sundries.RemoteControl.Remote
use sundries.RemoteControl.Bound.{Function, call_at}
use sundries.RemoteControl.Bound

-- std::bind of a command: a function that executes it.
abbrev pub bound : Option Command → Function
bound = Option.map execute

abbrev pub bound_call : Call → Bound.Call
bound_call (Call.sets slot on off) = Bound.sets slot (bound on) (bound off)
bound_call (Call.pushes_on slot) = Bound.pushes_on slot
bound_call (Call.pushes_off slot) = Bound.pushes_off slot

abbrev pub bound_remote : RemoteControl → Bound.RemoteControl
bound_remote r = record {
  on_commands = map bound r.on_commands;
  off_commands = map bound r.off_commands;
}

-- Whether a button whose on-command is in `on` calls what is in `cs`, and that is null.
abbrev pub is_null : Option (Option Command) → Bool
is_null none = false
is_null (some none) = true
is_null (some (some c)) = false

abbrev pub calls_null : List (Option Command) → List (Option Command) → ℕ → Bool
calls_null on cs slot =
    if leb (length on) slot || not (is_set (get_elem? on slot))
    then false
    else is_null (get_elem? cs slot)

abbrev pub after : Outcome World → (World → Bool) → Bool
after (done w) f = f w
after crashes f = false
after throws f = false

-- Whether the remote control of commands comes to call a null command, before anything else crashes.
abbrev pub meets_null : List Call → RemoteControl → World → Bool
meets_null [] r w = false
meets_null (Call.sets slot on off ∷ cs) r w = meets_null cs (Remote.set_command slot on off r) w
meets_null (Call.pushes_on slot ∷ cs) r w =
    if calls_null r.on_commands r.on_commands slot
    then true
    else after (Remote.on_button_was_pushed slot r w) (meets_null cs r)
meets_null (Call.pushes_off slot ∷ cs) r w =
    if calls_null r.on_commands r.off_commands slot
    then true
    else after (Remote.off_button_was_pushed slot r w) (meets_null cs r)

abbrev CommandSlot : Type 0
CommandSlot = Option Command

get_elem?-bound :
    (cs : List CommandSlot) (i : ℕ) → get_elem? (map bound cs) i ≡ Option.map bound (get_elem? cs i)
get_elem?-bound [] i = refl
get_elem?-bound (c ∷ cs) zero = refl
get_elem?-bound (c ∷ cs) (suc i) = get_elem?-bound cs i

length-bound : (cs : List CommandSlot) → length (map bound cs) ≡ length cs
length-bound [] = refl
length-bound (c ∷ cs) = ap suc (length-bound cs)

set-bound :
    (cs : List CommandSlot) (i : ℕ) (c : CommandSlot)
    → set (map bound cs) i (bound c) ≡ map bound (set cs i c)
set-bound [] i c = refl
set-bound (d ∷ cs) zero c = refl
set-bound (d ∷ cs) (suc i) c = ap (λ xs. bound d ∷ xs) (set-bound cs i c)

is_set-bound : (o : Option CommandSlot) → is_set (Option.map bound o) ≡ is_set o
is_set-bound none = refl
is_set-bound (some none) = refl
is_set-bound (some (some c)) = refl

-- A button whose on-command is in `on`, and which calls what is in `cs`.
abbrev push_button : List CommandSlot → List CommandSlot → ℕ → World → Outcome World
push_button on cs slot w =
    if leb (length on) slot || not (is_set (get_elem? on slot))
    then done w
    else execute_at (get_elem? cs slot) w

call_at-bound :
    (o : Option CommandSlot) (w : World)
    → call_at (Option.map bound o) w ≡ (if is_null o then throws else execute_at o w)
call_at-bound none w = refl
call_at-bound (some none) w = refl
call_at-bound (some (some c)) w = refl

button-bound :
    (on cs : List CommandSlot) (slot : ℕ) (w : World)
    → (if leb (length (map bound on)) slot || not (is_set (get_elem? (map bound on) slot))
        then done w
        else call_at (get_elem? (map bound cs) slot) w)
      ≡ (if calls_null on cs slot then throws else push_button on cs slot w)
button-bound on cs slot w =
    rw (length-bound on, get_elem?-bound on slot, get_elem?-bound cs slot)
      (rw (is_set-bound (get_elem? on slot))
        (elim (Bool-cases (leb (length on) slot || not (is_set (get_elem? on slot)))) [
          | inl e ↦ rw e refl
          | inr e ↦ rw e (call_at-bound (get_elem? cs slot) w)
        ]))

-- A null command crashes.
null_slot : (o : Option CommandSlot) (w : World) → (is_null o ≡ false) ⊎ (execute_at o w ≡ crashes)
null_slot none w = inl refl
null_slot (some none) w = inr refl
null_slot (some (some c)) w = inl refl

null_crashes :
    (on cs : List CommandSlot) (slot : ℕ) (w : World)
    → (calls_null on cs slot ≡ false) ⊎ (push_button on cs slot w ≡ crashes)
null_crashes on cs slot w =
    elim (Bool-cases (leb (length on) slot || not (is_set (get_elem? on slot)))) [
      | inl f ↦ inl (rw f refl)
      | inr f ↦ rw f (null_slot (get_elem? cs slot) w)
    ]

-- `b` is what the functions come to where the commands come to `m`, and `n` says that these meet a null
-- command.
abbrev Follows : Bool → Outcome World → Outcome World → Type 0
Follows n m b = (b ≡ (if n then throws else m)) × ((n ≡ false) ⊎ (m ≡ crashes))

Follows->>= :
    (n : Bool) (m b : Outcome World) (f g : World → Outcome World) (h : World → Bool)
    → Follows n m b
    → ((w : World) → Follows (h w) (g w) (f w))
    → Follows (if n then true else after m h) (m >>= g) (b >>= f)
Follows->>= true m b f g h (e, inl k) q = absurd (cc k)
Follows->>= true m b f g h (e, inr k) q = (rw e refl, inr (rw k refl))
Follows->>= false (done w) b f g h (e, k) q = rw e (q w)
Follows->>= false crashes b f g h (e, k) q = (rw e refl, inl refl)
Follows->>= false throws b f g h (e, k) q = (rw e refl, inl refl)

set_command-bound :
    (slot : ℕ) (on off : CommandSlot) (r : RemoteControl)
    → Bound.set_command slot (bound on) (bound off) (bound_remote r)
      ≡ bound_remote (Remote.set_command slot on off r)
unfolding Bound.set_command Remote.set_command
set_command-bound slot on off r =
    rw (length-bound r.on_commands) (elim (Bool-cases (leb (length r.on_commands) slot)) [
      | inl e ↦ rw e refl
      | inr e ↦ rw e (rw (set-bound r.on_commands slot on, set-bound r.off_commands slot off) refl)
    ])

-- Whatever is set and pushed, in whatever order, a remote control of bound functions does and prints
-- what the remote control of commands does, unless this meets a null command: then this crashes, and
-- the other throws.
pub run-bound_call :
    (cs : List Call) (r : RemoteControl) (w : World)
    → (Bound.run (map bound_call cs) (bound_remote r) w
        ≡ (if meets_null cs r w then throws else Remote.run cs r w))
      × ((meets_null cs r w ≡ false) ⊎ (Remote.run cs r w ≡ crashes))
unfolding Bound.run Remote.run
run-bound_call [] r w = (refl, inl refl)
run-bound_call (Call.sets slot on off ∷ cs) r w =
    rw (set_command-bound slot on off r) (run-bound_call cs (Remote.set_command slot on off r) w)
run-bound_call (Call.pushes_on slot ∷ cs) r w =
    Follows->>= _ _ _ _ _ (meets_null cs r)
      (
        button-bound r.on_commands r.on_commands slot w,
        null_crashes r.on_commands r.on_commands slot w,
      )
      (run-bound_call cs r)
run-bound_call (Call.pushes_off slot ∷ cs) r w =
    Follows->>= _ _ _ _ _ (meets_null cs r)
      (
        button-bound r.on_commands r.off_commands slot w,
        null_crashes r.on_commands r.off_commands slot w,
      )
      (run-bound_call cs r)
