-- ===== src/Gumball/Invariant.antt =====
-- The machine between two calls: its four states are made, and it rests in one of three.
use mathlib.Core.Option.{some-injective}
use sundries.Prelude.{
  subst, ℕ, ◌≡◌, refl, ◌⊎◌, inl, inr, none, some, List, [], ◌∷◌, Option-cases, arith,
}
use sundries.Gumball.Machine.{
  sold_out_state, no_quarter_state, has_quarter_state, sold_state, GumballMachine, initialize,
}
use sundries.Gumball.Run.{Call, inserts, ejects, turns, refills, step, run}

pub record IsReady (m : GumballMachine) : Type 0 where
  pub sold_out_made : m.sold_out_ptr ≡ some sold_out_state
  pub no_quarter_made : m.no_quarter_ptr ≡ some no_quarter_state
  pub has_quarter_made : m.has_quarter_ptr ≡ some has_quarter_state
  pub sold_made : m.sold_ptr ≡ some sold_state
  pub resting :
      (m.state ≡ some sold_out_state)
      ⊎ ((m.state ≡ some no_quarter_state) ⊎ (m.state ≡ some has_quarter_state))

pub initialize-IsReady : (balls : ℕ) (m : GumballMachine) → IsReady (initialize balls m)
unfolding initialize
initialize-IsReady balls m = ground arith

pub step-IsReady :
    (c : Call) (m : GumballMachine) {m' : GumballMachine}
    → IsReady m
    → step c m ≡ some m'
    → IsReady m'
unfolding step
step-IsReady inserts m r e = ground arith
step-IsReady ejects m r e = ground arith
step-IsReady turns m r e = ground arith
step-IsReady (refills n) m r e = ground arith

step-ne-none : (c : Call) (m : GumballMachine) → IsReady m → step c m ≡ none → ⊥
unfolding step
step-ne-none inserts m r e = ground arith
step-ne-none ejects m r e = ground arith
step-ne-none turns m r e = ground arith
step-ne-none (refills n) m r e = ground arith

pub step_total :
    (c : Call) (m : GumballMachine) → IsReady m → (m' : GumballMachine) × (step c m ≡ some m')
step_total c m r = elim (Option-cases (step c m)) [
  | inl e ↦ absurd (step-ne-none c m r e)
  | inr found ↦ found
]

-- From a machine that has been initialized no sequence of calls goes through a null state, and the
-- machine rests again after the last one.
pub run_total :
    (cs : List Call) (m : GumballMachine)
    → IsReady m
    → (m' : GumballMachine) × (run cs m ≡ some m') × IsReady m'
unfolding run
run_total [] m r = (m, refl, r)
run_total (c ∷ cs) m r =
    let (m', e) = step_total c m r in
    let (m'', e', r') = run_total cs m' (step-IsReady c m r e) in (m'', rw (e, run) e', r')

-- What every call keeps holds after a sequence of them.
pub run_keeps {ℓ} :
    (P : GumballMachine → Type ℓ)
    → ((c : Call) (m m' : GumballMachine) → IsReady m → P m → step c m ≡ some m' → P m')
    → (cs : List Call) (m m' : GumballMachine) → IsReady m
    → P m
    → run cs m ≡ some m'
    → P m'
unfolding run
run_keeps P keep [] m m' r h e = subst P (some-injective _ _ e) h
run_keeps P keep (c ∷ cs) m m' r h e =
    let (mid, e') = step_total c m r in
    run_keeps P keep cs mid m' (step-IsReady c m r e') (keep c m mid r h e') (rw (e', run) at e)
