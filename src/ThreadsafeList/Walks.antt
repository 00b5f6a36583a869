-- ===== src/ThreadsafeList/Walks.antt =====
-- Lists of nodes, and the functions that only read.
use sundries.Prelude.{
  ℕ, zero, suc, ◌<◌, ◌≤◌, ◌≡◌, refl, sym, ap, ◌∙◌, Bool, true, false, Bool-cases, Option, none,
  some, List, [], ◌∷◌, ◌++◌, append_assoc, append-nil, inl, inr, if◌then◌else◌, length, update_ne,
  update_self, arith,
}
use sundries.ThreadsafeQueue.Heap.{Node}
use sundries.ThreadsafeList.Nodes.{
  LinkedList, Place, at_head, at_node, next_of, push_front, walk, for_each, find_first_if,
}

module _ {ℓ} {T : Type ℓ} where
  -- From `p` the nodes lead through `xs`, at falling addresses below `bound`, to null.
  abbrev pub IsList : (ℕ → Option (Node T)) → Option ℕ → ℕ → List T → Type ℓ
  IsList cell p bound [] = (p ≡ none) × Unit {ℓ}
  IsList cell p bound (x ∷ xs) =
      (a : ℕ) × (q : Option ℕ) × (p ≡ some a)
      × (a < bound)
      × (cell a ≡ some (record { data_ptr = some x; next = q }))
      × IsList cell q a xs

  abbrev pub Holds : LinkedList T → List T → Type ℓ
  Holds l xs = IsList l.heap.cell l.head_next l.heap.fresh xs

  pub IsList-mono :
      (cell : ℕ → Option (Node T)) (p : Option ℕ) (m n : ℕ) (xs : List T)
      → m ≤ n
      → IsList cell p m xs
      → IsList cell p n xs
  IsList-mono cell p m n [] le c = c
  IsList-mono cell p m n (x ∷ xs) le (a, q, e, lt, n', c) = (a, q, e, omega arith, n', c)

  pub IsList-frame :
      (cell new : ℕ → Option (Node T)) (p : Option ℕ) (bound : ℕ) (xs : List T)
      → ((k : ℕ) → k < bound → new k ≡ cell k)
      → IsList cell p bound xs
      → IsList new p bound xs
  IsList-frame cell new p bound [] same c = c
  IsList-frame cell new p bound (x ∷ xs) same (a, q, e, lt, n, c) =
      (a, q, e, lt, same a lt ∙ n, IsList-frame cell new q a xs (λ k l. same k (omega arith)) c)

  -- push_front puts the value before all others.
  pub push_front-Holds :
      (v : T) (l : LinkedList T) (xs : List T) → Holds l xs → Holds (push_front v l) (v ∷ xs)
  unfolding push_front
  push_front-Holds v l xs c = (
    l.heap.fresh,
    l.head_next,
    refl,
    omega arith,
    update_self l.heap.cell l.heap.fresh _,
    IsList-frame l.heap.cell _ l.head_next l.heap.fresh xs
        (λ k lt. update_ne l.heap.cell l.heap.fresh _ k (λ e. absurd (omega arith))) c,
  )

  -- What a walk comes to on the list itself.
  abbrev pub fold_until {κ} : {R : Type κ} → (T → R → R × Bool) → R → List T → R
  fold_until visit r [] = r
  fold_until visit r (x ∷ xs) =
      let rest = fold_until visit (visit x r).0 xs in if (visit x r).1 then (visit x r).0 else rest

  pub walk-fold_until {κ} :
      {R : Type κ} (visit : T → R → R × Bool) (l : LinkedList T) (fuel : ℕ) (current : Place)
      (p : Option ℕ) (bound : ℕ) (xs : List T) (r : R)
      → next_of current l ≡ some p
      → IsList l.heap.cell p bound xs
      → length xs < fuel
      → walk visit fuel current r l ≡ some (fold_until visit r xs)
  unfolding walk next_of
  walk-fold_until visit l zero current p bound xs r e c lt = absurd (omega arith)
  walk-fold_until visit l (suc fuel) current p bound [] r e c lt = rw (e, walk) (rw c.0 refl)
  walk-fold_until visit l (suc fuel) current p bound (x ∷ xs) r e (a, q, pa, ab, n, c) lt =
      rw (e, walk)
        (rw pa (
          rw n (elim (Bool-cases (visit x r).1) [
            | inl stop ↦ rw stop refl
            | inr on ↦ rw on (
                walk-fold_until visit l fuel (at_node a) q a xs (visit x r).0 (rw n refl) c
                  (omega arith))
          ])))

  seen-append :
      (seen xs : List T)
      → fold_until (λ (x : T) (s : List T). (s ++ x ∷ [], false)) seen xs ≡ seen ++ xs
  seen-append seen [] = sym (append-nil seen)
  seen-append seen (x ∷ xs) = seen-append (seen ++ x ∷ []) xs ∙ append_assoc seen (x ∷ []) xs

  -- for_each calls the function on every value, in order, and comes to an end.
  pub for_each-all :
      (l : LinkedList T) (xs : List T) (fuel : ℕ)
      → Holds l xs
      → length xs < fuel
      → for_each fuel l ≡ some xs
  unfolding for_each
  for_each-all l xs fuel h lt =
      walk-fold_until (λ (x : T) (s : List T). (s ++ x ∷ [], false)) l fuel at_head l.head_next
        l.heap.fresh xs [] (unfold next_of in refl) h lt
      ∙ ap some (seen-append [] xs)

  abbrev pub first_if : (T → Bool) → List T → Option T
  first_if p [] = none
  first_if p (x ∷ xs) = if p x then some x else first_if p xs

  found-first_if :
      (p : T → Bool) (xs : List T)
      → fold_until (λ (x : T) (r : Option T). if p x then (some x, true) else (r, false)) none xs
        ≡ first_if p xs
  found-first_if p [] = refl
  found-first_if p (x ∷ xs) = ground (arith, found-first_if p xs)

  -- find_first_if yields the first value that passes the test, if one does, and comes to an end.
  pub find_first_if-first_if :
      (p : T → Bool) (l : LinkedList T) (xs : List T) (fuel : ℕ)
      → Holds l xs
      → length xs < fuel
      → find_first_if p fuel l ≡ some (first_if p xs)
  unfolding find_first_if
  find_first_if-first_if p l xs fuel h lt =
      walk-fold_until (λ (x : T) (r : Option T). if p x then (some x, true) else (r, false)) l fuel
        at_head l.head_next l.heap.fresh xs none (unfold next_of in refl) h lt
      ∙ ap some (found-first_if p xs)
