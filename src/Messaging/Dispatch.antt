-- ===== src/Messaging/Dispatch.antt =====
-- The queue's operations, `dispatch` and the waiting loop of messaging.hpp.
use sundries.Prelude.{Bool, Option, none, some, List, [], ◌∷◌, ◌++◌, if◌then◌else◌}

-- queue::push; sender::send does the same where its pointer is not null.
unfoldable pub push {ℓ} : {M : Type ℓ} → M → List M → List M
push m q = q ++ m ∷ []

-- queue::wait_and_pop: `none` while the queue is empty and the caller is blocked.
unfoldable pub wait_and_pop {ℓ} : {M : Type ℓ} → List M → Option (M × List M)
wait_and_pop [] = none
wait_and_pop (m ∷ q) = some (m, q)

-- sender::send: a sender made by the default constructor has a null queue.
unfoldable pub send {ℓ} : {M : Type ℓ} → M → Option (List M) → Option (List M)
unfolding push
send m none = none
send m (some q) = some (push m q)

-- What a dispatcher made of a message: a handler ran, none fits, or close_queue was thrown.
pub data Dispatched {ℓ} (S : Type ℓ) : Type ℓ where
  handled : S → Dispatched S
  unhandled : Dispatched S
  thrown : Dispatched S

abbrev pub Handler {ℓ κ} : Type ℓ → Type κ → Type (ℓ ⊔ κ)
Handler M S = M → S → Option S

-- What a wait came to: a handler ran and these messages are left, close_queue was thrown, or the
-- queue ran empty and the thread is blocked.
pub data Waited {ℓ κ} (M : Type ℓ) (S : Type κ) : Type (ℓ ⊔ κ) where
  done : S → List M → Waited M S
  closed : List M → Waited M S
  blocked : Waited M S

module _ {ℓ κ} {M : Type ℓ} {S : Type κ} (is_close : M → Bool) where
  -- The chain's handlers, the outermost (the last that was added) first. Past them stands
  -- dispatcher::dispatch, which throws at close_queue.
  unfoldable pub dispatch : List (Handler M S) → M → S → Dispatched S
  dispatch [] m s = if is_close m then thrown else unhandled
  dispatch (f ∷ fs) m s = elim (f m s) [ some s' ↦ handled s' | none ↦ dispatch fs m s ]

  -- TemplateDispatcher::wait_and_dispatch over the messages that are in the queue.
  unfoldable pub wait_and_dispatch : List (Handler M S) → List M → S → Waited M S
  wait_and_dispatch fs [] s = blocked
  wait_and_dispatch fs (m ∷ q) s = elim (dispatch fs m s) [
    | handled s' ↦ done s' q
    | unhandled ↦ wait_and_dispatch fs q s
    | thrown ↦ closed q
  ]
