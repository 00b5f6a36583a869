-- ===== src/Messaging/Chain.antt =====
-- A chain of dispatcher objects with their `_chained` flags: wait() makes the first, each handle()
-- one more, and the destructors run from the outermost inwards.
use sundries.Prelude.{Bool, true, false, Option, none, some, List, [], ◌∷◌, if◌then◌else◌}
use sundries.Messaging.Dispatch.{Handler, Waited, done, closed, blocked, wait_and_dispatch}

-- `dispatcher` itself has no handler.
pub record Link {ℓ κ} (M : Type ℓ) (S : Type κ) : Type (ℓ ⊔ κ) where
  pub handler : Option (Handler M S)
  pub chained : Bool

module _ {ℓ κ} {M : Type ℓ} {S : Type κ} where
  -- receiver::wait.
  unfoldable pub wait : List (Link M S)
  wait = record { handler = none; chained = false } ∷ []

  abbrev pub set_chained : List (Link M S) → List (Link M S)
  set_chained [] = []
  set_chained (l ∷ ls) = record l { chained = true } ∷ ls

  -- handle: the new link points at the old one and takes the duty to wait from it.
  unfoldable pub handle : Handler M S → List (Link M S) → List (Link M S)
  handle f ls = record { handler = some f; chained = false } ∷ set_chained ls

  -- The handlers that `dispatch` tries from a link on.
  unfoldable pub handlers : List (Link M S) → List (Handler M S)
  handlers [] = []
  handlers (l ∷ ls) = elim l.handler [ none ↦ handlers ls | some f ↦ f ∷ handlers ls ]

  abbrev pub handle_all : List (Handler M S) → List (Link M S)
  handle_all [] = wait
  handle_all (f ∷ fs) = handle f (handle_all fs)

module _ {ℓ κ} {M : Type ℓ} {S : Type κ} where
  -- A thread that is blocked runs no other destructor. An exception unwinds through the others: in a
  -- chain that handle made they are those of chained dispatchers, which do nothing.
  abbrev pub and_then : Waited M S → (List M → S → Waited M S) → Waited M S
  and_then (done s q) k = k q s
  and_then (closed q) k = closed q
  and_then blocked k = blocked

module _ {ℓ κ} {M : Type ℓ} {S : Type κ} (is_close : M → Bool) where
  -- ~TemplateDispatcher and ~dispatcher, outermost first.
  unfoldable pub destroy : List (Link M S) → List M → S → Waited M S
  unfolding handlers
  destroy [] q s = done s q
  destroy (l ∷ ls) q s =
      let rest = λ (q' : List M) (s' : S). destroy ls q' s' in
      if l.chained
      then rest q s
      else and_then (wait_and_dispatch is_close (handlers (l ∷ ls)) q s) rest
