-- ===== src/Messaging/Tests.antt =====
-- Chains over messages that are numbers: 0 closes the queue.
use sundries.Prelude.{ℕ, ◌≡◌, refl, inl, Bool, none, some, List, [], ◌∷◌, if◌then◌else◌, ◌==◌}
use sundries.Messaging.Dispatch.{Handler, dispatch, wait_and_dispatch, done, closed}
use sundries.Messaging.Chain.{handle_all, destroy}
use sundries.Messaging.Laws.{destroy-handle_all, dispatch-swap}

abbrev is_zero : ℕ → Bool
is_zero m = m == 0

abbrev takes : ℕ → Handler ℕ (List ℕ)
takes n m s = if m == n then some (m ∷ s) else none

abbrev two : List (Handler ℕ (List ℕ))
two = takes 2 ∷ takes 1 ∷ []

wait_stops : wait_and_dispatch is_zero two (5 ∷ 1 ∷ 2 ∷ []) [] ≡ done (1 ∷ []) (2 ∷ [])
unfolding wait_and_dispatch dispatch
wait_stops = refl

wait_closes : wait_and_dispatch is_zero two (5 ∷ 0 ∷ 2 ∷ []) [] ≡ closed (2 ∷ [])
unfolding wait_and_dispatch dispatch
wait_closes = refl

destroy-handle_all_example :
    destroy is_zero (handle_all two) (5 ∷ 1 ∷ 2 ∷ []) []
    ≡ wait_and_dispatch is_zero two (5 ∷ 1 ∷ 2 ∷ []) []
destroy-handle_all_example = destroy-handle_all is_zero two (5 ∷ 1 ∷ 2 ∷ []) []

dispatch-swap_example : dispatch is_zero two 1 [] ≡ dispatch is_zero (takes 1 ∷ takes 2 ∷ []) 1 []
dispatch-swap_example = dispatch-swap is_zero (takes 2) (takes 1) [] 1 [] (inl refl)
