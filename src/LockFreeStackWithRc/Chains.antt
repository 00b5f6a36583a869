-- ===== src/LockFreeStackWithRc/Chains.antt =====
-- Chains of nodes under a change of a node.
use sundries.Prelude.{
  ℕ, ◌≤◌, ◌<◌, ◌≡◌, ◌≢◌, refl, sym, ap, ◌∙◌, subst, Bool-cases, inl, inr, true, Option, none, some,
  [], ◌∷◌, ◌==◌, ==_iff, update, arith,
}
use sundries.LockFreeStack.Weights.{one_self}
use sundries.LockFreeStack.Memory.{same-eq}
use sundries.LockFreeStackWithRc.Memory.{CountedNodePtr, Node, same_counted}
use sundries.LockFreeStackWithRc.Weights.{Links, linked, live, IsChain}

pub same_counted-eq :
    (c d : CountedNodePtr)
    → same_counted c d ≡ true
    → (c.external_count ≡ d.external_count) × (c.ptr ≡ d.ptr)
same_counted-eq c d h = elim (Bool-cases (c.external_count == d.external_count)) [
  | inl e ↦ ((==_iff _ _).0 e, same-eq c.ptr d.ptr (rw e at h))
  | inr e ↦ absurd (cc (rw e at h))
]

module _ {ℓ} {T : Type ℓ} where
  pub live-le-one : (o : Option (Node T)) → live o ≤ 1
  live-le-one none = omega arith
  live-le-one (some n) = omega arith

  pub live_found : (o : Option (Node T)) → 0 < live o → (n : Node T) × (o ≡ some n)
  live_found none h = absurd (omega arith)
  live_found (some n) h = (n, refl)

  -- The nodes of a chain keep their next.
  pub same_next-IsChain :
      (cell cell' : ℕ → Option (Node T)) (c : CountedNodePtr) (links : Links)
      → ((a : ℕ) (n : Node T)
          → cell a ≡ some n
          → 0 < linked a links
          → (n' : Node T) × (cell' a ≡ some n') × (n'.next ≡ n.next))
      → IsChain cell c links
      → IsChain cell' c links
  same_next-IsChain cell cell' c [] h d = d
  same_next-IsChain cell cell' c ((x, k) ∷ rest) h (p, q, n, e, d) =
      let (n', e', f) = h x n e (omega (arith, one_self x)) in
      let tail =
        same_next-IsChain cell cell' n.next rest (λ a m g r. h a m g (omega (arith, r))) d in
      (p, q, n', e', rw f tail)

  -- A node off the chain is written, or deleted.
  pub update-IsChain :
      (cell : ℕ → Option (Node T)) (x : ℕ) (o : Option (Node T)) (c : CountedNodePtr)
      (links : Links)
      → linked x links ≡ 0
      → IsChain cell c links
      → IsChain (update cell x o) c links
  update-IsChain cell x o c links off d =
      same_next-IsChain cell (update cell x o) c links
        (λ a n e h. (n, ground (arith, e, h, off), refl)) d

  -- A node on or off the chain is written, but for its next.
  pub write-IsChain :
      (cell : ℕ → Option (Node T)) (x : ℕ) (n n' : Node T) (c : CountedNodePtr) (links : Links)
      → cell x ≡ some n
      → n'.next ≡ n.next
      → IsChain cell c links
      → IsChain (update cell x (some n')) c links
  write-IsChain cell x n n' c links e f d =
      same_next-IsChain cell (update cell x (some n')) c links
        (λ a m g h. elim (Bool-cases (a == x)) [
          | inl s ↦
              let t : a ≡ x = (==_iff a x).0 s in
              let u : n ≡ m = cc (subst (λ b. cell b ≡ some m) t g) in
              (n', rw s refl, f ∙ ap (λ (z : Node T). z.next) u)
          | inr s ↦ (m, rw s g, refl)
        ])
        d

  -- What is found at an address after a write.
  pub written {κ} :
      (cell : ℕ → Option (Node T)) (x : ℕ) (n' : Node T) (P : ℕ → Node T → Type κ)
      → P x n'
      → ((a : ℕ) (n : Node T) → a ≢ x → cell a ≡ some n → P a n)
      → (a : ℕ) (n : Node T) → update cell x (some n') a ≡ some n
      → P a n
  written cell x n' P here there a n e = elim (Bool-cases (a == x)) [
    | inl s ↦
        let t : a ≡ x = (==_iff a x).0 s in
        let u : n' ≡ n = cc (rw s at e) in subst (λ b. P b n) (sym t) (subst (P x) u here)
    | inr s ↦ there a n (λ t. cc (sym s ∙ (==_iff a x).1 t)) (rw s at e)
  ]
