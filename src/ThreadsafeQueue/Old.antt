-- ===== src/ThreadsafeQueue/Old.antt =====
-- threadsafe_queue_old: a std::queue under one mutex. Front first.
use sundries.Prelude.{◌≡◌, refl, Bool, false, Option, none, some, List, [], ◌∷◌, ◌++◌}

-- What a member function comes to: it returns, its thread waits for data, or it ends without the
-- return that its type asks for, which is undefined behaviour.
pub data Outcome {ℓ} (A : Type ℓ) : Type ℓ where
  returns : A → Outcome A
  waits : Outcome A
  no_return : Outcome A

module _ {ℓ} {T : Type ℓ} where
  unfoldable pub old_push : T → List T → List T
  old_push value items = items ++ value ∷ []

  unfoldable pub old_wait_and_pop : List T → Outcome (T × List T)
  old_wait_and_pop [] = waits
  old_wait_and_pop (x ∷ xs) = returns (x, xs)

  -- std::shared_ptr<T> try_pop()
  unfoldable pub old_try_pop : List T → Outcome (Option T × List T)
  old_try_pop [] = returns (none, [])
  old_try_pop (x ∷ xs) = returns (some x, xs)

  -- bool try_pop(T& value)
  unfoldable pub old_try_pop_into : List T → Outcome (Bool × List T)
  old_try_pop_into [] = returns (false, [])
  old_try_pop_into (x ∷ xs) = no_return

  -- The two try_pops agree on the empty queue alone: wherever the one returns a value, the other
  -- flows off its end.
  pub old_try_pop_into_bad :
      (items : List T) (x : T) (rest : List T)
      → old_try_pop items ≡ returns (some x, rest)
      → old_try_pop_into items ≡ no_return
  unfolding old_try_pop old_try_pop_into
  old_try_pop_into_bad [] x rest e = cc
  old_try_pop_into_bad (y ∷ ys) x rest e = refl
