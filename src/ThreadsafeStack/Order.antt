-- ===== src/ThreadsafeStack/Order.antt =====
-- Values come back last in, first out, and none is lost or doubled.
use sundries.Prelude.{ℕ, ◌+◌, ◌≡◌, refl, ap, ◌∙◌, List, [], ◌∷◌, ◌++◌, count_if, arith}
use sundries.ThreadsafeStack.Stack.{
  Stack, Answer, done, popped, poured, empty_stack, is_empty, Call, push_call, pop_call,
  pop_into_call, empty_call, pop_with, push, pop, pop_into, empty, step, run,
}

module _ {ℓ} {T : Type ℓ} where
  -- What a call puts in, and what an answer takes out, where `w` weighs the values.
  abbrev pub put_in : (T → ℕ) → Call T → ℕ
  put_in w (push_call v) = w v
  put_in w pop_call = 0
  put_in w pop_into_call = 0
  put_in w empty_call = 0

  abbrev pub taken_out : (T → ℕ) → Answer T → ℕ
  taken_out w (popped v) = w v
  taken_out w (poured v) = w v
  taken_out w done = 0
  taken_out w empty_stack = 0
  taken_out w (is_empty b) = 0

  pops_count :
      (w : T → ℕ) (answer : T → Answer T) (xs : List T)
      → ((v : T) → taken_out w (answer v) ≡ w v)
      → count_if w xs + 0
        ≡ taken_out w (pop_with answer xs).0 + count_if w (pop_with answer xs).1.data_stack
  pops_count w answer [] h = refl
  pops_count w answer (x ∷ xs) h = omega (arith, h x)

  step-count :
      (w : T → ℕ) (c : Call T) (s : Stack T)
      → count_if w s.data_stack + put_in w c
        ≡ taken_out w (step c s).0 + count_if w (step c s).1.data_stack
  unfolding step push pop pop_into empty
  step-count w (push_call v) s = omega arith
  step-count w pop_call s = pops_count w popped s.data_stack λ v. refl
  step-count w pop_into_call s = pops_count w poured s.data_stack λ v. refl
  step-count w empty_call s = omega arith

  -- However the values are weighed: what was on the stack and what a run of calls pushed weighs as
  -- much as what its pops gave out and what is left on the stack.
  pub run-count :
      (w : T → ℕ) (cs : List (Call T)) (s : Stack T)
      → count_if w s.data_stack + count_if (put_in w) cs
        ≡ count_if (taken_out w) (run cs s).0 + count_if w (run cs s).1.data_stack
  unfolding run
  run-count w [] s = omega arith
  run-count w (c ∷ cs) s = omega (arith, step-count w c s, run-count w cs (step c s).1)

  -- Calls that take out what they put in: each push is matched by a pop behind it.
  pub data IsBalanced : List (Call T) → Type ℓ where
    balanced_nil : IsBalanced []
    balanced_empty : {cs : List (Call T)} → IsBalanced cs → IsBalanced (empty_call ∷ cs)
    balanced_pop :
        {v : T} {cs ds : List (Call T)}
        → IsBalanced cs
        → IsBalanced ds
        → IsBalanced (push_call v ∷ cs ++ pop_call ∷ ds)
    balanced_pop_into :
        {v : T} {cs ds : List (Call T)}
        → IsBalanced cs
        → IsBalanced ds
        → IsBalanced (push_call v ∷ cs ++ pop_into_call ∷ ds)

  run-append :
      (cs ds : List (Call T)) (s : Stack T) → (run (cs ++ ds) s).1 ≡ (run ds (run cs s).1).1
  unfolding run
  run-append [] ds s = refl
  run-append (c ∷ cs) ds s = run-append cs ds (step c s).1

  run_balanced : {cs : List (Call T)} → IsBalanced cs → (s : Stack T) → (run cs s).1 ≡ s
  unfolding run step push pop pop_into
  run_balanced balanced_nil s = refl
  run_balanced (balanced_empty b) s = run_balanced b s
  run_balanced (balanced_pop {v} {cs} {ds} b d) s =
      run-append cs (pop_call ∷ ds) (push v s)
      ∙ ap (λ t. (run (pop_call ∷ ds) t).1) (run_balanced b (push v s))
      ∙ run_balanced d s
  run_balanced (balanced_pop_into {v} {cs} {ds} b d) s =
      run-append cs (pop_into_call ∷ ds) (push v s)
      ∙ ap (λ t. (run (pop_into_call ∷ ds) t).1) (run_balanced b (push v s))
      ∙ run_balanced d s

  -- After a push and any calls in which each push is matched by a pop behind it, pop gives the value
  -- of that push, pop into a reference does too, and the stack is as it was before.
  pub push-run-pop :
      (v : T) {cs : List (Call T)} (s : Stack T)
      → IsBalanced cs
      → (pop (run cs (push v s)).1 ≡ (popped v, s))
        × (pop_into (run cs (push v s)).1 ≡ (poured v, s))
  unfolding pop pop_into push
  push-run-pop v s b = let e = run_balanced b (push v s) in (rw e refl, rw e refl)
