-- ===== src/ThreadsafeStack/Tests.antt =====
-- Runs of the stack on numbers.
use sundries.Prelude.{ℕ, ◌≡◌, refl, List, [], ◌∷◌, true, false}
use sundries.ThreadsafeStack.Stack.{
  Stack, done, popped, poured, empty_stack, is_empty, Call, push_call, pop_call, pop_into_call,
  empty_call, new_stack, copy, push, pop, pop_into, run,
}
use sundries.ThreadsafeStack.Order.{
  IsBalanced, balanced_nil, balanced_empty, balanced_pop, push-run-pop,
}

abbrev calls : List (Call ℕ)
calls =
    push_call 3 ∷ push_call 5 ∷ empty_call ∷ pop_call ∷ pop_into_call ∷ empty_call ∷ pop_call ∷ []

-- The last pop comes after empty() said that nothing is left.
calls_test :
    (run calls (copy new_stack)).0
    ≡ done ∷ done ∷ is_empty false ∷ popped 5 ∷ poured 3 ∷ is_empty true ∷ empty_stack ∷ []
unfolding run copy new_stack
calls_test = refl

abbrev one_two : Stack ℕ
one_two = record { data_stack = 1 ∷ 2 ∷ [] }

abbrev between : List (Call ℕ)
between = push_call 8 ∷ empty_call ∷ pop_call ∷ empty_call ∷ []

between-IsBalanced : IsBalanced between
between-IsBalanced = balanced_pop (balanced_empty balanced_nil) (balanced_empty balanced_nil)

push-run-pop_example :
    (pop (run between (push 7 one_two)).1 ≡ (popped 7, one_two))
    × (pop_into (run between (push 7 one_two)).1 ≡ (poured 7, one_two))
push-run-pop_example = push-run-pop 7 one_two between-IsBalanced
