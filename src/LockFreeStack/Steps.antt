-- ===== src/LockFreeStack/Steps.antt =====
-- Whatever a thread does next keeps the invariant.
use sundries.Prelude.{ℕ, refl, List, arith}
use sundries.LockFreeStack.Memory.{Memory}
use sundries.LockFreeStack.Threads.{
  Pc, rests, pushes, enters, looks, swaps, won, checks, takes, drops, rechains, frees, chains,
  leaves, Event, push_call, pop_call, moves, fails, advance, fail_weak, call_push, call_pop, act,
}
use sundries.LockFreeStack.Invariant.{Others, IsSafe, IsSum, Kept}
use sundries.LockFreeStack.Pop.{
  enters-Kept, looks-Kept, looks-IsSafe, swaps-Kept, won-Kept, checks-Kept,
}
use sundries.LockFreeStack.Reclaim.{
  takes-Kept, drops-Kept, rechains-Kept, frees-Kept, chains-Kept, leave_pop_lem,
}
use sundries.LockFreeStack.Push.{push_fails-Kept, push_swaps-Kept, new_at-Kept}

module _ {ℓ} {T : Type ℓ} (others : Others T) (sum : IsSum others) where
  pub advance-Kept :
      (p : Pc T) (m : Memory T) (stack : List ℕ)
      → IsSafe p others m stack
      → Kept others (advance p m)
  unfolding advance
  advance-Kept (rests r) m stack v = (stack, v)
  advance-Kept (pushes x) m stack v = push_swaps-Kept others sum x m stack v
  advance-Kept enters m stack v = (stack, enters-Kept others sum m stack v)
  advance-Kept (looks o) m stack v = looks-Kept others sum o m stack v
  advance-Kept (swaps x n) m stack v = swaps-Kept others sum x n m stack v
  advance-Kept (won x) m stack v = won-Kept others sum x m stack v
  advance-Kept (checks r o) m stack v = checks-Kept others sum r o m stack v
  advance-Kept (takes r o) m stack v = (stack, takes-Kept others sum r o m stack v)
  advance-Kept (drops r o ns) m stack v = drops-Kept others sum r o ns m stack v
  advance-Kept (rechains r o ns) m stack v = rechains-Kept others sum r o ns m stack v
  advance-Kept (frees r ns) m stack v = frees-Kept others sum r ns m stack v
  advance-Kept (chains r o) m stack v = chains-Kept others sum r o m stack v
  advance-Kept (leaves r) m stack v = (
    stack,
    leave_pop_lem others sum (leaves r) (rests r) m stack v refl refl (λ a. refl) (λ a h. refl)
        (λ a. refl) (λ a n. refl),
  )

  fail_weak-Kept :
      (p : Pc T) (m : Memory T) (stack : List ℕ)
      → IsSafe p others m stack
      → Kept others (fail_weak p m)
  unfolding fail_weak
  fail_weak-Kept (pushes x) m stack v = push_fails-Kept others sum x m stack v
  fail_weak-Kept (swaps x n) m stack v =
      (stack, looks-IsSafe others sum (swaps x n) m stack v (λ a. refl) refl)
  fail_weak-Kept (rests r) m stack v = (stack, v)
  fail_weak-Kept enters m stack v = (stack, v)
  fail_weak-Kept (looks o) m stack v = (stack, v)
  fail_weak-Kept (won x) m stack v = (stack, v)
  fail_weak-Kept (checks r o) m stack v = (stack, v)
  fail_weak-Kept (takes r o) m stack v = (stack, v)
  fail_weak-Kept (drops r o ns) m stack v = (stack, v)
  fail_weak-Kept (rechains r o ns) m stack v = (stack, v)
  fail_weak-Kept (frees r ns) m stack v = (stack, v)
  fail_weak-Kept (chains r o) m stack v = (stack, v)
  fail_weak-Kept (leaves r) m stack v = (stack, v)

  call_push-Kept :
      (v : T) (a : ℕ) (p : Pc T) (m : Memory T) (stack : List ℕ)
      → IsSafe p others m stack
      → Kept others (call_push v a p m)
  unfolding call_push
  call_push-Kept v a (rests r) m stack s = new_at-Kept others sum v a r m stack s
  call_push-Kept v a (pushes x) m stack s = (stack, s)
  call_push-Kept v a enters m stack s = (stack, s)
  call_push-Kept v a (looks o) m stack s = (stack, s)
  call_push-Kept v a (swaps x n) m stack s = (stack, s)
  call_push-Kept v a (won x) m stack s = (stack, s)
  call_push-Kept v a (checks r o) m stack s = (stack, s)
  call_push-Kept v a (takes r o) m stack s = (stack, s)
  call_push-Kept v a (drops r o ns) m stack s = (stack, s)
  call_push-Kept v a (rechains r o ns) m stack s = (stack, s)
  call_push-Kept v a (frees r ns) m stack s = (stack, s)
  call_push-Kept v a (chains r o) m stack s = (stack, s)
  call_push-Kept v a (leaves r) m stack s = (stack, s)

  call_pop-Kept :
      (p : Pc T) (m : Memory T) (stack : List ℕ)
      → IsSafe p others m stack
      → Kept others (call_pop p m)
  unfolding call_pop
  call_pop-Kept (rests r) m stack s = (
    stack,
    record {
      chain = s.chain;
      owned = s.owned;
      counted = omega (arith, s.counted, sum.few);
      guarded = s.guarded;
      current = s.current;
    },
  )
  call_pop-Kept (pushes x) m stack s = (stack, s)
  call_pop-Kept enters m stack s = (stack, s)
  call_pop-Kept (looks o) m stack s = (stack, s)
  call_pop-Kept (swaps x n) m stack s = (stack, s)
  call_pop-Kept (won x) m stack s = (stack, s)
  call_pop-Kept (checks r o) m stack s = (stack, s)
  call_pop-Kept (takes r o) m stack s = (stack, s)
  call_pop-Kept (drops r o ns) m stack s = (stack, s)
  call_pop-Kept (rechains r o ns) m stack s = (stack, s)
  call_pop-Kept (frees r ns) m stack s = (stack, s)
  call_pop-Kept (chains r o) m stack s = (stack, s)
  call_pop-Kept (leaves r) m stack s = (stack, s)

  pub act-Kept :
      (e : Event T) (p : Pc T) (m : Memory T) (stack : List ℕ)
      → IsSafe p others m stack
      → Kept others (act e p m)
  unfolding act
  act-Kept (push_call v a) p m stack s = call_push-Kept v a p m stack s
  act-Kept pop_call p m stack s = call_pop-Kept p m stack s
  act-Kept moves p m stack s = advance-Kept p m stack s
  act-Kept fails p m stack s = fail_weak-Kept p m stack s
