-- ===== src/LockFreeStack/History.antt =====
-- The history of a run: where the calls of push and pop begin, and where they take effect.
use sundries.Prelude.{ℕ, ◌≡◌, Option, none, some, List, [], ◌∷◌, get_elem?, if◌then◌else◌, ◌==◌}
use mathlib.Core.Option.{map}
use sundries.ThreadsafeQueue.Heap.{Node}
use sundries.LockFreeStack.Memory.{Memory, Access, ok, dangling, null_pointer}
use sundries.LockFreeStack.Threads.{
  Pc, rests, Event, push_call, pop_call, moves, fails, System, step,
}
use sundries.LockFreeStack.Values.{Op, pushed, popped, missed, op_of_move, op_of_fail, Follows}

pub data Call {ℓ} (T : Type ℓ) : Type ℓ where
  calls_push : T → Call T
  calls_pop : Call T

pub data Mark {ℓ} (T : Type ℓ) : Type ℓ where
  begins : Call T → Mark T
  took : Op T → Mark T

-- Where the last call of a thread stands; `wrong` if it begins or takes effect out of turn.
pub data Phase {ℓ} (T : Type ℓ) : Type ℓ where
  idle wrong : Phase T
  begun : Call T → Phase T
  effected : Call T → Op T → Phase T

module _ {ℓ} {T : Type ℓ} where
  abbrev pub begins_at : T → Option (Node T) → Option (Mark T)
  begins_at v none = some (begins (calls_push v))
  begins_at v (some n) = none

  abbrev pub begins_push : T → ℕ → Pc T → Memory T → Option (Mark T)
  begins_push v a (rests r) m = begins_at v (m.cell a)
  begins_push v a p m = none

  abbrev pub begins_pop : Pc T → Option (Mark T)
  begins_pop (rests r) = some (begins calls_pop)
  begins_pop p = none

  abbrev pub mark_of : Event T → Pc T → Memory T → Option (Mark T)
  mark_of (push_call v a) p m = begins_push v a p m
  mark_of pop_call p m = begins_pop p
  mark_of moves p m = map took (op_of_move p m)
  mark_of fails p m = map took (op_of_fail p m)

  abbrev pub mark_at : Event T → Option (Pc T) → Memory T → Option (Mark T)
  mark_at e none m = none
  mark_at e (some p) m = mark_of e p m

  -- For each move of a run, the thread and what it marks, if anything.
  unfoldable pub history : List (ℕ × Event T) → Access (System T) → List (ℕ × Option (Mark T))
  unfolding step
  history [] r = []
  history ((i, e) ∷ es) (ok s) =
      (i, mark_at e (get_elem? s.threads i) s.memory) ∷ history es (step i e s)
  history ((i, e) ∷ es) dangling = []
  history ((i, e) ∷ es) null_pointer = []

  abbrev pub begin : Call T → Phase T → Phase T
  begin c idle = begun c
  begin c (effected d op) = begun c
  begin c (begun d) = wrong
  begin c wrong = wrong

  abbrev pub take_effect : Op T → Phase T → Phase T
  take_effect op (begun c) = effected c op
  take_effect op idle = wrong
  take_effect op (effected c d) = wrong
  take_effect op wrong = wrong

  abbrev pub next_phase : Option (Mark T) → Phase T → Phase T
  next_phase none h = h
  next_phase (some (begins c)) h = begin c h
  next_phase (some (took op)) h = take_effect op h

  -- The phase of thread `i` after a history, if it is `h` before.
  abbrev pub phase_of : ℕ → List (ℕ × Option (Mark T)) → Phase T → Phase T
  phase_of i [] h = h
  phase_of i ((j, k) ∷ rest) h = phase_of i rest (if i == j then next_phase k h else h)

  abbrev pub op_in : Option (Mark T) → Option (Op T)
  op_in none = none
  op_in (some (begins c)) = none
  op_in (some (took op)) = some op

  -- The operations, in the order in which they take effect, lead a stack from `vs` to `ws`.
  abbrev pub Legal : List (ℕ × Option (Mark T)) → List (Option T) → List (Option T) → Type ℓ
  Legal [] vs ws = vs ≡ ws
  Legal ((i, k) ∷ rest) vs ws = (us : List (Option T)) × Follows (op_in k) vs us × Legal rest us ws

  -- The call with this effect is over, and returned `r`; a push returns nothing.
  abbrev pub Returned : Call T → Op T → Option T → Type ℓ
  Returned (calls_push v) (pushed w) r = (w ≡ some v) × (r ≡ none)
  Returned (calls_push v) (popped w) r = ⊥ × Unit {ℓ}
  Returned (calls_push v) missed r = ⊥ × Unit {ℓ}
  Returned calls_pop (pushed w) r = ⊥ × Unit {ℓ}
  Returned calls_pop (popped w) r = r ≡ w
  Returned calls_pop missed r = r ≡ none

  -- A thread outside push and pop, whose last result is `r`.
  abbrev pub Over : Phase T → Option T → Type ℓ
  Over idle r = r ≡ none
  Over (effected c op) r = Returned c op r
  Over (begun c) r = ⊥ × Unit {ℓ}
  Over wrong r = ⊥ × Unit {ℓ}
