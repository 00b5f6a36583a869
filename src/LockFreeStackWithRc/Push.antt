-- ===== src/LockFreeStackWithRc/Push.antt =====
-- The moves of push keep the invariant, and those that change no node.
use sundries.Prelude.{
  ℕ, zero, suc, ap, ◌+◌, ◌≤◌, ◌<◌, ◌≡◌, refl, Bool-cases, Option-cases, inl, inr, Option, none,
  some, ◌∷◌, update, arith,
}
use sundries.Prelude.Int.{pos_part, neg_part, one_part}
use sundries.LockFreeStack.Weights.{one, one_self}
use sundries.LockFreeStackWithRc.Memory.{CountedNodePtr, Node, Memory, same_counted}
use sundries.LockFreeStackWithRc.Threads.{Pc, rests, pushes, push_fails, push_swaps, new_at}
use sundries.LockFreeStackWithRc.Weights.{
  Links, linked, live, sole, pending, pending_count, refers, stale, external_zero,
}
use sundries.LockFreeStackWithRc.Chains.{
  live-le-one, live_found, update-IsChain, written, same_counted-eq,
}
use sundries.LockFreeStackWithRc.Invariant.{Others, IsSafe, IsSum, Kept}

pub zero_of : (k l : ℕ) → (0 < k → 1 ≤ l) → l ≡ 0 → k ≡ 0
zero_of zero l h e = refl
zero_of (suc k) l h e = absurd (omega (arith, h (omega arith), e))

pub next_head :
    (c d : CountedNodePtr) → (c.external_count ≡ d.external_count) × (c.ptr ≡ d.ptr) → c ≡ d
next_head c d (p, q) = λ i. record { external_count = p i; ptr = q i }

module _ {ℓ} {T : Type ℓ} (others : Others T) (sum : IsSum others) where
  -- The thread goes on where it has the same nodes, and refers to the same.
  pub goes_on :
      (p q : Pc T) (m : Memory T) (links : Links)
      → IsSafe p others m links
      → ((a : ℕ) → sole a q ≡ sole a p)
      → ((a : ℕ) → pending a q ≡ pending a p)
      → ((a : ℕ) → pending_count a q ≡ pending_count a p)
      → ((a : ℕ) → refers a q ≡ refers a p)
      → ((a : ℕ) (n : Node T) → m.cell a ≡ some n → stale a n.next q ≡ 0)
      → IsSafe q others m links
  goes_on p q m links v s d k r f = record {
    chain = v.chain;
    once = λ a. omega (arith, v.once a, s a, d a);
    balanced = λ a n e. omega (arith, v.balanced a n e, d a, k a, r a);
    unreleased = λ a n e h. v.unreleased a n e (omega (arith, h, d a));
    fits = λ a. omega (arith, v.fits a, k a);
    kept = λ a. omega (arith, v.kept a, s a, d a, r a);
    guarded = λ a h. v.guarded a (omega (arith, h, r a));
    unshared = λ a h. omega (arith, v.unshared a (omega (arith, h, s a)), r a);
    current = λ a n e. omega (arith, v.current a n e, f a n e);
  }

  -- A node that the thread alone has, or one that was not there, is written.
  own_node :
      (p : Pc T) (m : Memory T) (links : Links) (x : ℕ) (n : Node T)
      → IsSafe p others m links
      → linked x links + others (sole x) + others (pending x) + others (refers x) ≡ 0
      → neg_part n.internal_count ≡ pos_part n.internal_count
      → ((a : ℕ) → sole a p ≤ one a x)
      → ((a : ℕ) → pending a p + pending_count a p + refers a p ≡ 0)
      → IsSafe (pushes x) others (record m { cell = update m.cell x (some n) }) links
  own_node p m links x n v none_else zero_count s d = record {
    chain = update-IsChain m.cell x (some n) m.head links (omega arith) v.chain;
    once = λ a. ground (arith, v.once a, none_else, d a);
    balanced =
        written m.cell x n _
          (omega (arith, none_else, zero_count, external_zero x links, sum.count_zero x))
          (λ a k t e. ground (arith, t, v.balanced a k e, d a));
    unreleased =
        written m.cell x n _ (λ h. absurd (omega (arith, h, none_else)))
          (λ a k t e h. v.unreleased a k e (omega (arith, h, d a)));
    fits = λ a. omega (arith, v.fits a, d a);
    kept = λ a. ground (arith, v.kept a, s a, d a);
    guarded = λ a h. ground (arith, h, v.guarded a, d a, none_else);
    unshared = λ a h. ground (arith, h, v.unshared a, s a, d a, none_else);
    current =
        written m.cell x n _ (omega (arith, sum.stale_refers x n.next, none_else))
          (λ a k t e. omega (arith, v.current a k e));
  }

  -- A node that the thread alone has is nowhere else.
  pub sole_alone :
      (p : Pc T) (m : Memory T) (links : Links) (x : ℕ)
      → IsSafe p others m links
      → 0 < sole x p
      → linked x links
          + others (sole x)
          + pending x p
          + others (pending x)
          + refers x p
          + others (refers x)
        ≡ 0
  sole_alone p m links x v h =
      omega (arith, h, v.once x, live-le-one (m.cell x), v.unshared x (omega (arith, h)))

  pub sole_found :
      (p : Pc T) (m : Memory T) (links : Links) (x : ℕ)
      → IsSafe p others m links
      → 0 < sole x p
      → (n : Node T) × (m.cell x ≡ some n)
  sole_found p m links x v h = live_found (m.cell x) (omega (arith, h, v.once x))

  -- Its counts are both 0.
  pub sole_count :
      (p : Pc T) (m : Memory T) (links : Links) (x : ℕ) (n : Node T)
      → IsSafe p others m links
      → 0 < sole x p
      → pending_count x p ≡ 0
      → m.cell x ≡ some n
      → neg_part n.internal_count ≡ pos_part n.internal_count
  sole_count p m links x n v h k e = omega (
    arith,
    k,
    v.balanced x n e,
    sole_alone p m links x v h,
    external_zero x links,
    sum.count_zero x,
  )

  pub push_fails-Kept :
      (x : ℕ) (m : Memory T) (links : Links)
      → IsSafe (pushes x) others m links
      → Kept others (push_fails x m)
  push_fails-Kept x m links v =
      let h : 0 < one x x = omega (arith, one_self x) in
      let (n, e) = sole_found (pushes x) m links x v h in
      rw e (
        links,
        own_node (pushes x) m links x (record n { next = m.head }) v
            (omega (arith, sole_alone (pushes x) m links x v h))
            (sole_count (pushes x) m links x n v h refl e) (λ a. omega arith) (λ a. omega arith),
      )

  pub new_at-Kept :
      (w : T) (x : ℕ) (r : Option T) (m : Memory T) (links : Links)
      → IsSafe (rests r) others m links
      → Kept others (new_at w x r (m.cell x) m)
  new_at-Kept w x r m links v = elim (Option-cases (m.cell x)) [
    | inl e ↦
        let dead : live (m.cell x) ≡ 0 = ap live e in
        let unreferred = zero_of (0 + others (refers x)) (live (m.cell x)) (v.guarded x) dead in
        rw e (
          links,
          own_node (rests r) m links x _ v (omega (arith, v.once x, unreferred, dead)) refl
              (λ a. omega arith) (λ a. omega arith),
        )
    | inr (n, e) ↦ rw e (links, v)
  ]

  links_in :
      (x : ℕ) (n : Node T) (m : Memory T) (links : Links)
      → IsSafe (pushes x) others m links
      → m.cell x ≡ some n
      → n.next ≡ m.head
      → IsSafe
          (rests none)
          others
          (record m { head = record { external_count = 1; ptr = some x } })
          ((x, 1) ∷ links)
  links_in x n m links v e f =
      let h : 0 < one x x = omega (arith, one_self x) in
      let alone = sole_alone (pushes x) m links x v h in
      record {
        chain = (refl, refl, n, e, rw f v.chain);
        once = λ a. omega (arith, v.once a);
        balanced = λ a k g. ground (arith, v.balanced a k g, alone);
        unreleased = λ a k g i. ground (
          arith,
          i,
          v.unreleased a k g,
          v.balanced a k g,
          one_part k.internal_count,
          alone,
          external_zero x links,
          sum.count_zero x,
        );
        fits = λ a. ground (arith, v.fits a, alone, external_zero x links, sum.count_zero x);
        kept = λ a. omega (arith, v.kept a);
        guarded = λ a i. omega (arith, v.guarded a, i);
        unshared = λ a i. omega (arith, v.unshared a, i);
        current = λ a k g. omega (arith, v.current a k g);
      }

  pub push_swaps-Kept :
      (x : ℕ) (m : Memory T) (links : Links)
      → IsSafe (pushes x) others m links
      → Kept others (push_swaps x m)
  push_swaps-Kept x m links v =
      let (n, e) = sole_found (pushes x) m links x v (omega (arith, one_self x)) in
      rw e (elim (Bool-cases (same_counted n.next m.head)) [
        | inl s ↦ rw s (
          (x, 1) ∷ links,
          links_in x n m links v e (next_head n.next m.head (same_counted-eq n.next m.head s)),
        )
        | inr s ↦ rw s (rw e at (push_fails-Kept x m links v))
      ])
