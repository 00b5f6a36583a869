-- ===== src/Atm/Induction.antt =====
-- What every move keeps holds after any schedule: the rule by which the invariants are proved.
use sundries.Prelude.{ℕ, ◌≡◌, refl, List, [], ◌∷◌}
use sundries.Messaging.Dispatch.{wait_and_pop}
use sundries.Atm.Messages.{Message}
use sundries.Atm.System.{AtmState, Phase, calling, waiting, stopped, System}
use sundries.Atm.Machine.{enter, receive, receive_from, atm_in, atm_step}
use sundries.Atm.Bank.{bank_receive, bank_receive_from, bank_in, bank_step}
use sundries.Atm.Display.{hardware_receive, hardware_receive_from, hardware_in, hardware_step}
use sundries.Atm.Run.{
  Event, key, bank_done, machine_done, interface_done, atm_moves, bank_moves, hardware_moves, step,
  run,
}

-- Only keys that `K` allows are pressed.
abbrev pub AllKeys {ℓ} : (ℕ → Type ℓ) → List Event → Type ℓ
AllKeys K [] = Unit
AllKeys K (key c ∷ es) = K c × AllKeys K es
AllKeys K (bank_done ∷ es) = AllKeys K es
AllKeys K (machine_done ∷ es) = AllKeys K es
AllKeys K (interface_done ∷ es) = AllKeys K es
AllKeys K (atm_moves ∷ es) = AllKeys K es
AllKeys K (bank_moves ∷ es) = AllKeys K es
AllKeys K (hardware_moves ∷ es) = AllKeys K es

-- What is to be shown of each thread's move.
pub record IsKept {ℓ κ} (K : ℕ → Type κ) (P : System → Type ℓ) : Type (ℓ ⊔ κ) where
  pub by_enter : (st : AtmState) (s : System) → s.atm_state ≡ st → P s → P (enter st s)
  pub by_receive :
      (st : AtmState) (m : Message) (q : List Message) (s : System)
      → s.atm_state ≡ st
      → s.atm_queue ≡ m ∷ q
      → P s
      → P (receive st m (record s { atm_queue = q }))
  pub by_bank :
      (m : Message) (q : List Message) (s : System)
      → s.bank_queue ≡ m ∷ q
      → P s
      → P (bank_receive m (record s { bank_queue = q }))
  pub by_hardware :
      (m : Message) (q : List Message) (s : System)
      → s.hardware_queue ≡ m ∷ q
      → P s
      → P (hardware_receive m (record s { hardware_queue = q }))
  pub by_key : (c : ℕ) (s : System) → K c → P s → P (step (key c) s)
  pub by_bank_done : (s : System) → P s → P (step bank_done s)
  pub by_machine_done : (s : System) → P s → P (step machine_done s)
  pub by_interface_done : (s : System) → P s → P (step interface_done s)

module _ {ℓ κ} {K : ℕ → Type κ} {P : System → Type ℓ} (kept : IsKept K P) where
  keeps-receive_from :
      (q : List Message) (s : System) → s.atm_queue ≡ q → P s → P (receive_from (wait_and_pop q) s)
  unfolding wait_and_pop
  keeps-receive_from [] s f h = h
  keeps-receive_from (m ∷ q) s f h = kept.by_receive s.atm_state m q s refl f h

  keeps-atm_in : (p : Phase) (s : System) → P s → P (atm_in p s)
  keeps-atm_in calling s h = kept.by_enter s.atm_state s refl h
  keeps-atm_in waiting s h = keeps-receive_from s.atm_queue s refl h
  keeps-atm_in stopped s h = h

  keeps-bank_receive_from :
      (q : List Message) (s : System)
      → s.bank_queue ≡ q
      → P s
      → P (bank_receive_from (wait_and_pop q) s)
  unfolding wait_and_pop
  keeps-bank_receive_from [] s f h = h
  keeps-bank_receive_from (m ∷ q) s f h = kept.by_bank m q s f h

  keeps-bank_in : (p : Phase) (s : System) → P s → P (bank_in p s)
  keeps-bank_in calling s h = keeps-bank_receive_from s.bank_queue s refl h
  keeps-bank_in waiting s h = keeps-bank_receive_from s.bank_queue s refl h
  keeps-bank_in stopped s h = h

  keeps-hardware_receive_from :
      (q : List Message) (s : System)
      → s.hardware_queue ≡ q
      → P s
      → P (hardware_receive_from (wait_and_pop q) s)
  unfolding wait_and_pop
  keeps-hardware_receive_from [] s f h = h
  keeps-hardware_receive_from (m ∷ q) s f h = kept.by_hardware m q s f h

  keeps-hardware_in : (p : Phase) (s : System) → P s → P (hardware_in p s)
  keeps-hardware_in calling s h = keeps-hardware_receive_from s.hardware_queue s refl h
  keeps-hardware_in waiting s h = keeps-hardware_receive_from s.hardware_queue s refl h
  keeps-hardware_in stopped s h = h

  keeps-atm_moves : (s : System) → P s → P (step atm_moves s)
  unfolding step atm_step
  keeps-atm_moves s h = keeps-atm_in s.atm_phase s h

  keeps-bank_moves : (s : System) → P s → P (step bank_moves s)
  unfolding step bank_step
  keeps-bank_moves s h = keeps-bank_in s.bank_phase s h

  keeps-hardware_moves : (s : System) → P s → P (step hardware_moves s)
  unfolding step hardware_step
  keeps-hardware_moves s h = keeps-hardware_in s.hardware_phase s h

  pub run_keeps : (es : List Event) (s : System) → AllKeys K es → P s → P (run es s)
  unfolding run
  run_keeps [] s ks h = h
  run_keeps (key c ∷ es) s ks h = run_keeps es (step (key c) s) ks.1 (kept.by_key c s ks.0 h)
  run_keeps (bank_done ∷ es) s ks h = run_keeps es (step bank_done s) ks (kept.by_bank_done s h)
  run_keeps (machine_done ∷ es) s ks h =
      run_keeps es (step machine_done s) ks (kept.by_machine_done s h)
  run_keeps (interface_done ∷ es) s ks h =
      run_keeps es (step interface_done s) ks (kept.by_interface_done s h)
  run_keeps (atm_moves ∷ es) s ks h = run_keeps es (step atm_moves s) ks (keeps-atm_moves s h)
  run_keeps (bank_moves ∷ es) s ks h = run_keeps es (step bank_moves s) ks (keeps-bank_moves s h)
  run_keeps (hardware_moves ∷ es) s ks h =
      run_keeps es (step hardware_moves s) ks (keeps-hardware_moves s h)

-- Any keys at all.
abbrev pub AnyKey : ℕ → Type 0
AnyKey c = Unit

pub AllKeys-any : (es : List Event) → AllKeys AnyKey es
AllKeys-any [] = tt
AllKeys-any (key c ∷ es) = (tt, AllKeys-any es)
AllKeys-any (bank_done ∷ es) = AllKeys-any es
AllKeys-any (machine_done ∷ es) = AllKeys-any es
AllKeys-any (interface_done ∷ es) = AllKeys-any es
AllKeys-any (atm_moves ∷ es) = AllKeys-any es
AllKeys-any (bank_moves ∷ es) = AllKeys-any es
AllKeys-any (hardware_moves ∷ es) = AllKeys-any es
