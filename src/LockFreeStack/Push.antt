-- ===== src/LockFreeStack/Push.antt =====
-- The moves of push keep the invariant.
use sundries.Prelude.{
  ℕ, ◌<◌, ◌≡◌, refl, Bool-cases, Option, List, ◌∷◌, Option-cases, inl, inr, arith,
}
use sundries.LockFreeStack.Memory.{Memory, same, same-eq}
use sundries.LockFreeStack.Threads.{rests, pushes, push_fails, push_swaps, new_at}
use sundries.LockFreeStack.Weights.{one, one_self, count, refers}
use sundries.LockFreeStack.Chains.{update-IsChain, live-le-one}
use sundries.LockFreeStack.Found.{found_held}
use sundries.LockFreeStack.Invariant.{Others, IsSafe, IsSum, Kept}

module _ {ℓ} {T : Type ℓ} (others : Others T) (sum : IsSum others) where
  pub push_fails-Kept :
      (x : ℕ) (m : Memory T) (stack : List ℕ)
      → IsSafe (pushes x) others m stack
      → Kept others (push_fails x m)
  push_fails-Kept x m stack v =
      let (n, e) = found_held others sum (pushes x) m stack x v (omega (arith, one_self x)) in
      let off : count x stack ≡ 0 = omega (arith, v.owned x, live-le-one (m.cell x), one_self x) in
      rw e (
        stack,
        record {
          chain = update-IsChain m.cell x _ m.head stack off v.chain;
          owned = λ a. ground (arith, v.owned a, e);
          counted = v.counted;
          guarded = λ a r. omega (arith, v.guarded a (omega (arith, r)));
          current = λ a l g d. ground (arith, v.current a l, g, d, off);
        },
      )

  -- No thread may follow a node that is not yet linked in.
  unseen :
      (x : ℕ) (m : Memory T) (stack : List ℕ)
      → IsSafe (pushes x) others m stack
      → (a : ℕ) → 0 < one a x
      → others (refers a) ≡ 0
  unseen x m stack v a h =
      grind (arith, v.guarded a, v.owned a, live-le-one (m.cell a), sum.spared_held a)

  pub push_swaps-Kept :
      (x : ℕ) (m : Memory T) (stack : List ℕ)
      → IsSafe (pushes x) others m stack
      → Kept others (push_swaps x m)
  push_swaps-Kept x m stack v =
      let (n, e) = found_held others sum (pushes x) m stack x v (omega (arith, one_self x)) in
      rw e (elim (Bool-cases (same n.next m.head)) [
        | inl s ↦ rw s (
          x ∷ stack,
          record {
            chain = (refl, n, e, rw (same-eq n.next m.head s) v.chain);
            owned = λ a. omega (arith, v.owned a);
            counted = v.counted;
            guarded = λ a r. omega (arith, v.guarded a r);
            current = λ a k f c.
                ground (arith, unseen x m stack v a, sum.stale_refers a k.next, v.current a k f);
          },
        )
        | inr s ↦ rw s (rw e at (push_fails-Kept x m stack v))
      ])

  pub new_at-Kept :
      (value : T) (x : ℕ) (r : Option T) (m : Memory T) (stack : List ℕ)
      → IsSafe (rests r) others m stack
      → Kept others (new_at value x r (m.cell x) m)
  new_at-Kept value x r m stack v = elim (Option-cases (m.cell x)) [
    | inl e ↦
        let off : count x stack ≡ 0 = ground (arith, v.owned x, e) in
        rw e (
          stack,
          record {
            chain = update-IsChain m.cell x _ m.head stack off v.chain;
            owned = λ a. ground (arith, v.owned a, e);
            counted = v.counted;
            guarded = λ a l. omega (arith, v.guarded a (omega (arith, l)));
            current = λ a l g d. ground (arith, v.current a l, g, d, off);
          },
        )
    | inr (n, e) ↦ rw e (stack, v)
  ]
