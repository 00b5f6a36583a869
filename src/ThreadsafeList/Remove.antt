-- ===== src/ThreadsafeList/Remove.antt =====
-- remove_if, which relinks the nodes and deletes those that it takes out.
use sundries.Prelude.{
  ℕ, zero, suc, ◌<◌, ◌≡◌, refl, sym, ap, ◌∙◌, subst, Bool, true, false, Bool-cases, Option, none,
  some, List, [], ◌∷◌, inl, inr, if◌then◌else◌, length, update, update_ne, update_self, arith,
}
use sundries.ThreadsafeQueue.Heap.{free}
use sundries.ThreadsafeList.Nodes.{
  LinkedList, Place, at_head, at_node, next_of, set_next, remove_from, remove_if,
}
use sundries.ThreadsafeList.Walks.{IsList, IsList-mono, IsList-frame, Holds}

module _ {ℓ} {T : Type ℓ} where
  abbrev pub without : (T → Bool) → List T → List T
  without p [] = []
  without p (x ∷ xs) = if p x then without p xs else x ∷ without p xs

  -- The loop from a node: its data stays, its list loses what passes the test, and no cell above it
  -- changes.
  abbrev Removed : (T → Bool) → ℕ → ℕ → T → LinkedList T → List T → Type ℓ
  Removed p fuel a d l xs =
      (l' : LinkedList T) × (q : Option ℕ) × (remove_from p fuel (at_node a) l ≡ some l')
      × (l'.heap.cell a ≡ some (record { data_ptr = some d; next = q }))
      × IsList l'.heap.cell q a (without p xs)
      × ((k : ℕ) → a < k → l'.heap.cell k ≡ l.heap.cell k)
      × (l'.head_next ≡ l.head_next)
      × (l'.heap.fresh ≡ l.heap.fresh)

  -- A round of the loop at a value that stays, and at one that goes.
  module _ (p : T → Bool) (fuel : ℕ) (current : Place) (l : LinkedList T) (b : ℕ) (x : T)
      (r : Option ℕ) (at_b : next_of current l ≡ some (some b))
      (m : l.heap.cell b ≡ some (record { data_ptr = some x; next = r })) where
    remove_round_keep :
        p x ≡ false → remove_from p (suc fuel) current l ≡ remove_from p fuel (at_node b) l
    unfolding remove_from
    remove_round_keep miss = rw (at_b, remove_from) (rw m (rw miss refl))

    remove_round_drop :
        {l' : LinkedList T}
        → p x ≡ true
        → set_next current r l ≡ some l'
        → remove_from p (suc fuel) current l
          ≡ remove_from p fuel current (record l' { heap = free b l'.heap })
    unfolding remove_from
    remove_round_drop hit s = rw (at_b, remove_from) (rw m (rw hit (rw s refl)))

  module _ (l : LinkedList T) (a b : ℕ) (d : T) (r : Option ℕ) (k : ℕ) (ba : b < a) where
    cell_kept :
        (k ≡ b → ⊥)
        → (k ≡ a → ⊥)
        → update (update l.heap.cell a (some (record { data_ptr = some d; next = r }))) b none k
          ≡ l.heap.cell k
    cell_kept nb na =
        update_ne (update l.heap.cell a (some (record { data_ptr = some d; next = r }))) b none k nb
        ∙ update_ne l.heap.cell a (some (record { data_ptr = some d; next = r })) k na

    below_kept :
        k < b
        → update (update l.heap.cell a (some (record { data_ptr = some d; next = r }))) b none k
          ≡ l.heap.cell k
    below_kept lo = cell_kept (λ e. absurd (omega arith)) (λ e. absurd (omega arith))

    above_kept :
        a < k
        → update (update l.heap.cell a (some (record { data_ptr = some d; next = r }))) b none k
          ≡ l.heap.cell k
    above_kept hi = cell_kept (λ e. absurd (omega arith)) (λ e. absurd (omega arith))

  remove_at_node :
      (p : T → Bool) (fuel a : ℕ) (d : T) (l : LinkedList T) (q : Option ℕ) (xs : List T)
      → l.heap.cell a ≡ some (record { data_ptr = some d; next = q })
      → IsList l.heap.cell q a xs
      → length xs < fuel
      → Removed p fuel a d l xs
  unfolding remove_from
  remove_at_node p zero a d l q xs n c lt = absurd (omega arith)
  remove_at_node p (suc fuel) a d l q [] n c lt =
      (l, q, rw n (rw c.0 refl), n, c, (λ k h. refl), refl, refl)
  remove_at_node p (suc fuel) a d l q (x ∷ xs) n (b, r, qb, ba, m, c) lt = elim (Bool-cases (p x)) [
    | inl hit ↦
        let cell₁ = update l.heap.cell a (some (record { data_ptr = some d; next = r })) in
        let l₁ : LinkedList T = record l { heap = record l.heap { cell = update cell₁ b none } } in
        let (l', q', e, n', c', up, hd, fr) =
          remove_at_node p fuel a d l₁ r xs
            (update_ne cell₁ b none a (λ s. absurd (omega arith))
              ∙ update_self l.heap.cell a (some (record { data_ptr = some d; next = r })))
            (IsList-mono l₁.heap.cell r b a xs (omega arith) (
              IsList-frame l.heap.cell l₁.heap.cell r b xs (λ k lo. below_kept l a b d r k ba lo)
                c))
            (omega arith) in
        (
          l',
          q',
          remove_round_drop p fuel (at_node a) l b x r (rw n (ap some qb)) m hit (rw n refl) ∙ e,
          n',
          rw hit c',
          (λ k hi. up k hi ∙ above_kept l a b d r k ba hi),
          hd,
          fr,
        )
    | inr miss ↦
        let (l', r', e, m', c', up, hd, fr) = remove_at_node p fuel b x l r xs m c (omega arith) in
        (
          l',
          some b,
          remove_round_keep p fuel (at_node a) l b x r (rw n (ap some qb)) m miss ∙ e,
          up a ba ∙ n ∙ ap (λ t. some (record { data_ptr = some d; next = t })) qb,
          rw miss (b, r', refl, ba, m', c'),
          (λ k h. up k (omega arith)),
          hd,
          fr,
        )
  ]

  remove_at_head :
      (p : T → Bool) (fuel : ℕ) (l : LinkedList T) (xs : List T)
      → Holds l xs
      → length xs < fuel
      → (l' : LinkedList T) × (remove_from p fuel at_head l ≡ some l') × Holds l' (without p xs)
  unfolding remove_from
  remove_at_head p zero l xs c lt = absurd (omega arith)
  remove_at_head p (suc fuel) l [] c lt = (l, simp c.0, c)
  remove_at_head p (suc fuel) l (x ∷ xs) (b, r, qb, bl, m, c) lt = elim (Bool-cases (p x)) [
    | inl hit ↦
        let l₁ : LinkedList T = record { heap = free b l.heap; head_next = r } in
        let (l', e, h) =
          remove_at_head p fuel l₁ xs
            (IsList-mono l₁.heap.cell r b l.heap.fresh xs (omega arith) (
              IsList-frame l.heap.cell l₁.heap.cell r b xs
                (λ k lo. update_ne l.heap.cell b none k (λ s. absurd (omega arith))) c))
            (omega arith) in
        (l', remove_round_drop p fuel at_head l b x r (ap some qb) m hit refl ∙ e, rw hit h)
    | inr miss ↦
        let (l', r', e, m', c', up, hd, fr) = remove_at_node p fuel b x l r xs m c (omega arith) in
        (
          l',
          remove_round_keep p fuel at_head l b x r (ap some qb) m miss ∙ e,
          rw miss (b, r', hd ∙ qb, subst (λ n. b < n) (sym fr) bl, m', c'),
        )
  ]

  -- remove_if takes out exactly the values that pass the test and keeps the others in order; with one
  -- round more than the list has values it comes to an end, and it follows no deleted node.
  pub remove_if-without :
      (p : T → Bool) (fuel : ℕ) (l : LinkedList T) (xs : List T)
      → Holds l xs
      → length xs < fuel
      → (l' : LinkedList T) × (remove_if p fuel l ≡ some l') × Holds l' (without p xs)
  unfolding remove_if
  remove_if-without p fuel l xs h lt = remove_at_head p fuel l xs h lt
