-- ===== src/LockFreeStackWithRc/Recount.antt =====
-- What is to show where a thread changes a node's internal count.
use sundries.Prelude.{
  ℕ, zero, suc, ap, ◌+◌, ◌≤◌, ◌<◌, ◌≡◌, ◌≢◌, refl, sym, subst, Bool-cases, inl, inr, ==_iff, ◌∙◌,
  some, ◌==◌, update, update_self, update_ne, arith,
}
use sundries.Prelude.Int.{pos_part, neg_part}
use sundries.LockFreeStackWithRc.Memory.{int_max, CountedNodePtr, Node, Memory}
use sundries.LockFreeStackWithRc.Threads.{Pc}
use sundries.LockFreeStackWithRc.Weights.{
  Links, linked, external, live, sole, pending, pending_count, refers, stale,
}
use sundries.LockFreeStackWithRc.Chains.{write-IsChain, written}
use sundries.LockFreeStackWithRc.Invariant.{Others, IsSafe, IsSum}

pub zero_when : (k l : ℕ) → (0 < k → l ≡ 0) → 0 < l → k ≡ 0
zero_when zero l h e = refl
zero_when (suc k) l h e = absurd (omega (arith, h (omega arith), e))

pub by_address {κ} : (P : ℕ → Type κ) (x : ℕ) → P x → ((a : ℕ) → a ≢ x → P a) → (a : ℕ) → P a
by_address P x here there a = elim (Bool-cases (a == x)) [
  | inl s ↦ subst P (sym ((==_iff a x).0 s)) here
  | inr s ↦ there a (λ t. cc (sym s ∙ (==_iff a x).1 t))
]

module _ {ℓ} {T : Type ℓ} (others : Others T) (sum : IsSum others) where
  -- What the invariant says of node `x`, if it is `n` and the thread stands at `q`.
  pub record AtNode (x : ℕ) (q : Pc T) (n : Node T) (links : Links) : Type ℓ where
    pub once_at :
        linked x links + (sole x q + others (sole x)) + (pending x q + others (pending x)) ≤ 1
    pub balanced_at :
        neg_part n.internal_count
          + (refers x q + others (refers x))
          + linked x links
          + (pending x q + others (pending x))
        ≡ pos_part n.internal_count
          + external x links
          + (pending_count x q + others (pending_count x))
    pub unreleased_at :
        0 < linked x links + (pending x q + others (pending x)) → pos_part n.internal_count ≡ 0
    pub fits_at : external x links + (pending_count x q + others (pending_count x)) ≤ int_max
    pub kept_at :
        1
        ≤ linked x links
          + (sole x q + others (sole x))
          + (pending x q + others (pending x))
          + (refers x q + others (refers x))
    pub unshared_at : 0 < sole x q + others (sole x) → refers x q + others (refers x) ≡ 0

  -- The two stand alike to a node.
  abbrev pub Alike : Pc T → Pc T → ℕ → Type 0
  Alike p q a =
      (sole a q ≡ sole a p)
      × (pending a q ≡ pending a p)
      × (pending_count a q ≡ pending_count a p)
      × (refers a q ≡ refers a p)

  pub recount :
      (p q : Pc T) (m : Memory T) (links : Links) (x : ℕ) (n n' : Node T)
      → IsSafe p others m links
      → m.cell x ≡ some n
      → n'.next ≡ n.next
      → ((a : ℕ) → a ≢ x → Alike p q a)
      → ((a : ℕ) (next : CountedNodePtr) → stale a next q ≡ 0)
      → AtNode x q n' links
      → IsSafe q others (record m { cell = update m.cell x (some n') }) links
  recount p q m links x n n' v f g alike fresh at =
      let here : live (update m.cell x (some n') x) ≡ 1 =
        ap live (update_self m.cell x (some n')) in
      let there : (a : ℕ) → a ≢ x → live (update m.cell x (some n') a) ≡ live (m.cell a) =
        λ a t. ap live (update_ne m.cell x (some n') a t) in
      record {
        chain = write-IsChain m.cell x n n' m.head links f g v.chain;
        once =
            by_address _ x (omega (arith, here, at.once_at))
              (λ a t. omega (arith, there a t, v.once a, alike a t));
        balanced =
            written m.cell x n' _ at.balanced_at
              (λ a k t e. omega (arith, v.balanced a k e, alike a t));
        unreleased =
            written m.cell x n' _ at.unreleased_at
              (λ a k t e h. v.unreleased a k e (omega (arith, h, alike a t)));
        fits = by_address _ x at.fits_at (λ a t. omega (arith, v.fits a, alike a t));
        kept =
            by_address _ x (omega (arith, here, at.kept_at))
              (λ a t. omega (arith, there a t, v.kept a, alike a t));
        guarded =
            by_address _ x (λ h. omega (arith, here))
              (λ a t h. omega (arith, there a t, v.guarded a (omega (arith, h, alike a t))));
        unshared =
            by_address _ x at.unshared_at
              (λ a t h. omega (arith, alike a t, v.unshared a (omega (arith, h, alike a t))));
        current =
            written m.cell x n' _ (rw g (omega (arith, v.current x n f, fresh x n.next)))
              (λ a k t e. omega (arith, v.current a k e, fresh a k.next));
      }
