-- ===== src/LockFreeStackWithRc/Delete.antt =====
-- The deletion of a node keeps the invariant.
use sundries.Prelude.{
  ℕ, ap, ◌+◌, ◌<◌, ◌≡◌, ◌≢◌, sym, Bool-cases, inl, inr, ==_iff, ◌∙◌, Option, none, some, ◌==◌,
  update, update_self, update_ne, arith,
}
use sundries.LockFreeStack.Weights.{one, one_self}
use sundries.LockFreeStackWithRc.Memory.{CountedNodePtr, Node, Memory}
use sundries.LockFreeStackWithRc.Threads.{Pc, deletes}
use sundries.LockFreeStackWithRc.Weights.{Links, live, sole, pending, pending_count, refers, stale}
use sundries.LockFreeStackWithRc.Chains.{update-IsChain}
use sundries.LockFreeStackWithRc.Invariant.{Others, IsSafe, IsSum, Kept}
use sundries.LockFreeStackWithRc.Push.{sole_alone, sole_found}
use sundries.LockFreeStackWithRc.Recount.{by_address}

module _ {ℓ} {T : Type ℓ} (others : Others T) (sum : IsSum others) where
  deleted :
      (cell : ℕ → Option (Node T)) (x a : ℕ) (n : Node T)
      → update cell x none a ≡ some n
      → (a ≢ x) × (cell a ≡ some n)
  deleted cell x a n e = elim (Bool-cases (a == x)) [
    | inl s ↦ absurd (cc (rw s at e))
    | inr s ↦ (λ t. cc (sym s ∙ (==_iff a x).1 t), rw s at e)
  ]

  pub deletes-Kept :
      (x : ℕ) (p q : Pc T) (m : Memory T) (links : Links)
      → IsSafe p others m links
      → ((a : ℕ) → sole a p ≡ one a x)
      → ((a : ℕ) → (pending a p + pending_count a p + refers a p ≡ 0))
      → ((a : ℕ) → (sole a q + pending a q + pending_count a q + refers a q ≡ 0))
      → ((a : ℕ) (next : CountedNodePtr) → stale a next q ≡ 0)
      → Kept others (deletes x q m)
  deletes-Kept x p q m links v s z y fresh =
      let h : 0 < sole x p = omega (arith, s x, one_self x) in
      let (n, e) = sole_found others sum p m links x v h in
      let alone = sole_alone others sum p m links x v h in
      let gone : live (update m.cell x none x) ≡ 0 = ap live (update_self m.cell x none) in
      let there : (a : ℕ) → a ≢ x → live (update m.cell x none a) ≡ live (m.cell a) =
        λ a t. ap live (update_ne m.cell x none a t) in
      let unlike : (a : ℕ) → a ≢ x → sole a p ≡ 0 = λ a t. ground (arith, t, s a) in
      rw e (
        links,
        record {
          chain = update-IsChain m.cell x none m.head links (omega (arith, alone)) v.chain;
          once =
              by_address _ x (omega (arith, gone, alone, y x))
                (λ a t. omega (arith, there a t, v.once a, y a));
          balanced = λ a k g. omega (arith, v.balanced a k (deleted m.cell x a k g).1, z a, y a);
          unreleased =
              λ a k g i. v.unreleased a k (deleted m.cell x a k g).1 (omega (arith, i, y a));
          fits = λ a. omega (arith, v.fits a, z a, y a);
          kept =
              by_address _ x (omega (arith, gone))
                (λ a t. omega (arith, there a t, v.kept a, unlike a t, z a));
          guarded =
              by_address _ x (λ i. absurd (omega (arith, i, alone, y x)))
                (λ a t i. omega (arith, there a t, v.guarded a (omega (arith, i, y a))));
          unshared = λ a i. omega (arith, y a, v.unshared a (omega (arith, i, y a)));
          current =
              λ a k g. omega (arith, fresh a k.next, v.current a k (deleted m.cell x a k g).1);
        },
      )
