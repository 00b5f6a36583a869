-- ===== src/Messaging/Laws.antt =====
-- What a wait does with a queue, and which link of a chain waits.
use sundries.Prelude.{◌∙◌, ◌≡◌, refl, ap, Bool, none, List, [], ◌∷◌, ◌++◌, arith, ◌⊎◌}
use sundries.Messaging.Dispatch.{
  Handler, unhandled, thrown, dispatch, Waited, done, closed, blocked, wait_and_dispatch,
}
use sundries.Messaging.Chain.{
  and_then, set_chained, Link, wait, handle, handlers, handle_all, destroy,
}

module _ {ℓ κ} {M : Type ℓ} {S : Type κ} (is_close : M → Bool) where
  -- No handler of the chain takes the message, and it is not close_queue.
  abbrev pub AllIgnored : List (Handler M S) → S → List M → Type κ
  AllIgnored fs s [] = Unit
  AllIgnored fs s (m ∷ q) = (dispatch is_close fs m s ≡ unhandled) × AllIgnored fs s q

  -- A wait throws away the messages that nothing handles, in order, and stops at the first that a
  -- handler takes or that closes the queue; the rest stay.
  pub wait_and_dispatch-ignored :
      (fs : List (Handler M S)) (ignored : List M) (m : M) (q : List M) (s : S)
      → AllIgnored fs s ignored
      → wait_and_dispatch is_close fs (ignored ++ m ∷ q) s ≡ wait_and_dispatch is_close fs (m ∷ q) s
  unfolding wait_and_dispatch
  wait_and_dispatch-ignored fs [] m q s h = refl
  wait_and_dispatch-ignored fs (i ∷ is) m q s h =
      rw (h.0, wait_and_dispatch) (wait_and_dispatch-ignored fs is m q s h.1)

module _ {ℓ κ} {M : Type ℓ} {S : Type κ} where
  handlers-set_chained : (ls : List (Link M S)) → handlers (set_chained ls) ≡ handlers ls
  unfolding handlers
  handlers-set_chained [] = refl
  handlers-set_chained (l ∷ ls) = refl

  handlers-handle_all : (fs : List (Handler M S)) → handlers (handle_all fs) ≡ fs
  unfolding handlers handle wait
  handlers-handle_all [] = refl
  handlers-handle_all (f ∷ fs) =
      ap (◌∷◌ f) (handlers-set_chained (handle_all fs) ∙ handlers-handle_all fs)

module _ {ℓ κ} {M : Type ℓ} {S : Type κ} (is_close : M → Bool) where
  -- Every link but the outermost has handed its duty on.
  destroy-set_chained :
      (fs : List (Handler M S)) (q : List M) (s : S)
      → destroy is_close (set_chained (handle_all fs)) q s ≡ done s q
  unfolding destroy handle wait
  destroy-set_chained [] q s = refl
  destroy-set_chained (f ∷ fs) q s = destroy-set_chained fs q s

  and_then_done :
      (r : Waited M S) (k : List M → S → Waited M S)
      → ((q : List M) (s : S) → k q s ≡ done s q)
      → and_then r k ≡ r
  and_then_done (done s q) k h = h q s
  and_then_done (closed q) k h = refl
  and_then_done blocked k h = refl

  -- The destructors of wait().handle(...)...handle(...) wait once, with all the handlers, the last
  -- added tried first, and wait() alone waits without any.
  pub destroy-handle_all :
      (fs : List (Handler M S)) (q : List M) (s : S)
      → destroy is_close (handle_all fs) q s ≡ wait_and_dispatch is_close fs q s
  unfolding destroy handle wait
  destroy-handle_all [] q s = and_then_done _ _ (λ q' s'. refl)
  destroy-handle_all (f ∷ fs) q s =
      and_then_done _ _ (destroy-set_chained fs)
      ∙ ap (λ gs. wait_and_dispatch is_close gs q s) (handlers-handle_all (f ∷ fs))

  -- Two handlers that never take the same message may be added in either order.
  pub dispatch-swap :
      (f g : Handler M S) (fs : List (Handler M S)) (m : M) (s : S)
      → (f m s ≡ none) ⊎ (g m s ≡ none)
      → dispatch is_close (f ∷ g ∷ fs) m s ≡ dispatch is_close (g ∷ f ∷ fs) m s
  unfolding dispatch
  dispatch-swap f g fs m s h = ground arith

  -- close_queue ends the wait as soon as it is reached, for handlers that leave it alone.
  pub wait_and_dispatch-close :
      (fs : List (Handler M S)) (ignored : List M) (m : M) (q : List M) (s : S)
      → AllIgnored is_close fs s ignored
      → dispatch is_close fs m s ≡ thrown
      → wait_and_dispatch is_close fs (ignored ++ m ∷ q) s ≡ closed q
  unfolding wait_and_dispatch
  wait_and_dispatch-close fs ignored m q s h e =
      wait_and_dispatch-ignored is_close fs ignored m q s h ∙ rw (e, wait_and_dispatch)
