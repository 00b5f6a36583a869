-- ===== src/LockFreeStackWithRc/Steps.antt =====
-- Whatever a thread does next keeps the invariant.
use sundries.Prelude.{ℕ, refl}
use sundries.LockFreeStackWithRc.Memory.{Memory}
use sundries.LockFreeStackWithRc.Threads.{
  Pc, rests, pushes, looks, reads, swaps, won, adds, lost, frees, frees_lost, Event, push_call,
  pop_call, moves, fails, advance, fail_weak, call_push, call_pop, act,
}
use sundries.LockFreeStackWithRc.Weights.{Links}
use sundries.LockFreeStackWithRc.Invariant.{Others, IsSafe, IsSum, Kept}
use sundries.LockFreeStackWithRc.Push.{push_fails-Kept, push_swaps-Kept, new_at-Kept, goes_on}
use sundries.LockFreeStackWithRc.Pop.{
  increase_head_count-Kept, reads_next-Kept, pop_swaps-Kept, takes_data-Kept,
}
use sundries.LockFreeStackWithRc.Release.{adds_count-Kept, releases-Kept}
use sundries.LockFreeStackWithRc.Delete.{deletes-Kept}

module _ {ℓ} {T : Type ℓ} (others : Others T) (sum : IsSum others) where
  advance-Kept :
      (p : Pc T) (m : Memory T) (links : Links)
      → IsSafe p others m links
      → Kept others (advance p m)
  unfolding advance
  advance-Kept (rests r) m links v = (links, v)
  advance-Kept (pushes x) m links v = push_swaps-Kept others sum x m links v
  advance-Kept (looks c) m links v = increase_head_count-Kept others sum c m links v
  advance-Kept (reads x e) m links v = reads_next-Kept others sum x e m links v
  advance-Kept (swaps x e n) m links v = pop_swaps-Kept others sum x e n m links v
  advance-Kept (won x e) m links v = takes_data-Kept others sum x e m links v
  advance-Kept (adds x e r) m links v = adds_count-Kept others sum x e r m links v
  advance-Kept (lost x c) m links v = releases-Kept others sum x c m links v
  advance-Kept (frees x r) m links v =
      deletes-Kept others sum x (frees x r) (rests r) m links v (λ a. refl) (λ a. refl) (λ a. refl)
        (λ a n. refl)
  advance-Kept (frees_lost x c) m links v =
      deletes-Kept others sum x (frees_lost x c) (looks c) m links v (λ a. refl) (λ a. refl)
        (λ a. refl) (λ a n. refl)

  fail_weak-Kept :
      (p : Pc T) (m : Memory T) (links : Links)
      → IsSafe p others m links
      → Kept others (fail_weak p m)
  unfolding fail_weak
  fail_weak-Kept (pushes x) m links v = push_fails-Kept others sum x m links v
  fail_weak-Kept _ m links v = (links, v)

  call_push-Kept :
      (w : T) (a : ℕ) (p : Pc T) (m : Memory T) (links : Links)
      → IsSafe p others m links
      → Kept others (call_push w a p m)
  unfolding call_push
  call_push-Kept w a (rests r) m links v = new_at-Kept others sum w a r m links v
  call_push-Kept w a _ m links v = (links, v)

  call_pop-Kept :
      (p : Pc T) (m : Memory T) (links : Links)
      → IsSafe p others m links
      → Kept others (call_pop p m)
  unfolding call_pop
  call_pop-Kept (rests r) m links v = (
    links,
    goes_on others sum (rests r) (looks m.head) m links v (λ a. refl) (λ a. refl) (λ a. refl)
        (λ a. refl) (λ a n f. refl),
  )
  call_pop-Kept _ m links v = (links, v)

  pub act-Kept :
      (e : Event T) (p : Pc T) (m : Memory T) (links : Links)
      → IsSafe p others m links
      → Kept others (act e p m)
  unfolding act
  act-Kept (push_call w a) p m links v = call_push-Kept w a p m links v
  act-Kept pop_call p m links v = call_pop-Kept p m links v
  act-Kept moves p m links v = advance-Kept p m links v
  act-Kept fails p m links v = fail_weak-Kept p m links v
