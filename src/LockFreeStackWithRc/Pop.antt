-- ===== src/LockFreeStackWithRc/Pop.antt =====
-- The moves of pop keep the invariant, up to its exchange.
use sundries.Prelude.{
  ℕ, ap, ◌≢◌, ◌+◌, ◌<◌, ◌≡◌, refl, sym, subst, Bool-cases, inl, inr, true, ==_iff, ◌∙◌, Option,
  none, some, [], ◌∷◌, ◌==◌, if◌then◌else◌, arith,
}
use sundries.LockFreeStack.Memory.{same_self}
use sundries.LockFreeStack.Weights.{one, one_self}
use sundries.LockFreeStackWithRc.Memory.{ok, int_max, CountedNodePtr, Node, Memory, same_counted}
use sundries.LockFreeStackWithRc.Threads.{
  Pc, looks, reads, swaps, won, lost, counted, increase_head_count, reads_next, pop_swaps,
  takes_data,
}
use sundries.LockFreeStackWithRc.Weights.{Links, refers, external_zero}
use sundries.LockFreeStackWithRc.Chains.{
  live-le-one, live_found, write-IsChain, written, same_counted-eq,
}
use sundries.LockFreeStackWithRc.Invariant.{Others, IsSafe, IsSum, Kept}
use sundries.LockFreeStackWithRc.Push.{goes_on, next_head}

same_counted_self : (c : CountedNodePtr) → same_counted c c ≡ true
same_counted_self c = rw ((==_iff c.external_count c.external_count).1 refl, same_self c.ptr) refl

-- What was read of a node's next is so.
fresh {ℓ} :
    {T : Type ℓ} (cell : ℕ → Option (Node T)) (x a : ℕ) (n k : Node T)
    → cell x ≡ some n
    → cell a ≡ some k
    → (if same_counted n.next k.next then 0 else one a x) ≡ 0
fresh {T = T} cell x a n k f g = elim (Bool-cases (a == x)) [
  | inl s ↦
      let u : n ≡ k = cc ((==_iff a x).0 s) in
      rw (subst (λ (z : Node T). same_counted n.next z.next ≡ true) u (same_counted_self n.next))
        refl
  | inr s ↦ ground (arith, s)
]

module _ {ℓ} {T : Type ℓ} (others : Others T) (sum : IsSum others) where
  -- A node that the thread refers to is there.
  pub refers_found :
      (p : Pc T) (m : Memory T) (links : Links) (x : ℕ)
      → IsSafe p others m links
      → 0 < refers x p
      → (n : Node T) × (m.cell x ≡ some n)
  refers_found p m links x v h = live_found (m.cell x) (v.guarded x (omega (arith, h)))

  counts_in :
      (c : CountedNodePtr) (m : Memory T) (links : Links)
      → IsSafe (looks c) others m links
      → m.head ≡ c
      → c.external_count ≢ int_max
      → (links' : Links) × IsSafe
          (counted (c.external_count + 1) c.ptr)
          others
          (record m { head = record c { external_count = c.external_count + 1 } })
          links'
  counts_in c m [] v e lt = rw (sym (ap (λ (d : CountedNodePtr). d.ptr) e) ∙ v.chain.0) (
    [],
    record {
      chain = (refl, tt);
      once = v.once;
      balanced = v.balanced;
      unreleased = v.unreleased;
      fits = v.fits;
      kept = v.kept;
      guarded = v.guarded;
      unshared = v.unshared;
      current = v.current;
    },
  )
  counts_in c m ((x, k) ∷ rest) v e lt =
      let (p, q, n, f, d) = v.chain in
      let same_count : c.external_count ≡ k =
        sym (ap (λ (d : CountedNodePtr). d.external_count) e) ∙ q in
      rw (sym (ap (λ (d : CountedNodePtr). d.ptr) e) ∙ p) (
        (x, c.external_count + 1) ∷ rest,
        record {
          chain = (refl, refl, n, f, d);
          once = v.once;
          balanced = λ a i g. ground (arith, v.balanced a i g, same_count);
          unreleased = v.unreleased;
          fits = λ a. ground (
            arith,
            v.fits a,
            same_count,
            lt,
            v.once a,
            live-le-one (m.cell a),
            external_zero a rest,
            sum.count_zero a,
          );
          kept = λ a. omega (arith, v.kept a);
          guarded = λ a h. ground (arith, h, v.guarded a, v.once a);
          unshared = λ a h. omega (arith, h, v.once a, v.unshared a h, live-le-one (m.cell a));
          current = v.current;
        },
      )

  increases :
      (c : CountedNodePtr) (m : Memory T) (links : Links)
      → c.external_count ≢ int_max
      → IsSafe (looks c) others m links
      → Kept others (
          if same_counted m.head c
          then ok (
            counted (c.external_count + 1) c.ptr,
            record m { head = record c { external_count = c.external_count + 1 } },
          )
          else ok (looks m.head, m))
  increases c m links lt v = elim (Bool-cases (same_counted m.head c)) [
    | inl e ↦ rw e (counts_in c m links v (next_head m.head c (same_counted-eq m.head c e)) lt)
    | inr e ↦ rw e (
      links,
      goes_on others sum (looks c) (looks m.head) m links v (λ a. refl) (λ a. refl) (λ a. refl)
          (λ a. refl) (λ a n f. refl),
    )
  ]

  pub increase_head_count-Kept :
      (c : CountedNodePtr) (m : Memory T) (links : Links)
      → IsSafe (looks c) others m links
      → Kept others (increase_head_count c m)
  increase_head_count-Kept c m links v = elim (Bool-cases (c.external_count == int_max)) [
    | inl o ↦ rw o tt
    | inr o ↦ rw o (increases c m links (λ e. cc (sym o ∙ (==_iff c.external_count int_max).1 e)) v)
  ]

  pub reads_next-Kept :
      (x e : ℕ) (m : Memory T) (links : Links)
      → IsSafe (reads x e) others m links
      → Kept others (reads_next x e m)
  reads_next-Kept x e m links v =
      let (n, f) = refers_found (reads x e) m links x v (omega (arith, one_self x)) in
      rw f (
        links,
        goes_on others sum (reads x e) (swaps x e n.next) m links v (λ a. refl) (λ a. refl)
            (λ a. refl) (λ a. refl) (λ a k g. fresh m.cell x a n k f g),
      )

  wins_top :
      (x e : ℕ) (n : CountedNodePtr) (m : Memory T) (rest : Links)
      → IsSafe (swaps x e n) others m ((x, e) ∷ rest)
      → IsSafe (won x e) others (record m { head = n }) rest
  wins_top x e n m rest v =
      let (p, q, i, f, d) = v.chain in
      let is_next : same_counted n i.next ≡ true = ground (arith, v.current x i f, one_self x) in
      record {
        chain = rw (next_head n i.next (same_counted-eq n i.next is_next)) d;
        once = λ a. omega (arith, v.once a);
        balanced = λ a k g. omega (arith, v.balanced a k g);
        unreleased = λ a k g h. v.unreleased a k g (omega (arith, h));
        fits = λ a. omega (arith, v.fits a);
        kept = λ a. omega (arith, v.kept a);
        guarded = v.guarded;
        unshared = v.unshared;
        current = λ a k g. omega (arith, v.current a k g);
      }

  wins :
      (x e : ℕ) (n : CountedNodePtr) (m : Memory T) (links : Links)
      → IsSafe (swaps x e n) others m links
      → m.head ≡ record { external_count = e; ptr = some x }
      → (links' : Links) × IsSafe (won x e) others (record m { head = n }) links'
  wins x e n m [] v h = absurd (cc (sym (ap (λ (d : CountedNodePtr). d.ptr) h) ∙ v.chain.0))
  wins x e n m ((y, k) ∷ rest) v h =
      let (p, q, i, f, d) = v.chain in
      let same_node : y ≡ x = cc (sym p ∙ ap (λ (d : CountedNodePtr). d.ptr) h) in
      let same_count : k ≡ e = sym q ∙ ap (λ (d : CountedNodePtr). d.external_count) h in
      (
        rest,
        wins_top x e n m rest (
            subst (λ (l : ℕ × ℕ). IsSafe (swaps x e n) others m (l ∷ rest))
              (λ j. (same_node j, same_count j)) v),
      )

  pub pop_swaps-Kept :
      (x e : ℕ) (n : CountedNodePtr) (m : Memory T) (links : Links)
      → IsSafe (swaps x e n) others m links
      → Kept others (pop_swaps x e n m)
  pop_swaps-Kept x e n m links v =
      elim (Bool-cases (same_counted m.head (record { external_count = e; ptr = some x }))) [
        | inl f ↦ rw f (wins x e n m links v (next_head m.head _ (same_counted-eq m.head _ f)))
        | inr f ↦ rw f (
          links,
          goes_on others sum (swaps x e n) (lost x m.head) m links v (λ a. refl) (λ a. refl)
              (λ a. refl) (λ a. refl) (λ a k g. refl),
        )
      ]

  pub takes_data-Kept :
      (x e : ℕ) (m : Memory T) (links : Links)
      → IsSafe (won x e) others m links
      → Kept others (takes_data x e m)
  takes_data-Kept x e m links v =
      let (n, f) = refers_found (won x e) m links x v (omega (arith, one_self x)) in
      rw f (
        links,
        record {
          chain =
              write-IsChain m.cell x n (record n { data_ptr = none }) m.head links f refl v.chain;
          once = λ a. ground (arith, v.once a, f);
          balanced = written m.cell x _ _ (v.balanced x n f) (λ a k t g. v.balanced a k g);
          unreleased = written m.cell x _ _ (v.unreleased x n f) (λ a k t g. v.unreleased a k g);
          fits = v.fits;
          kept = λ a. ground (arith, v.kept a, f);
          guarded = λ a h. ground (arith, v.guarded a h);
          unshared = v.unshared;
          current = written m.cell x _ _ (v.current x n f) (λ a k t g. v.current a k g);
        },
      )
