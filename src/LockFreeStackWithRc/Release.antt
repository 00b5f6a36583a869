-- ===== src/LockFreeStackWithRc/Release.antt =====
-- The changes of a node's internal count keep the invariant.
use sundries.Prelude.{
  ℕ, ◌+◌, ◌≤◌, ◌<◌, ◌≡◌, refl, Bool-cases, inl, inr, true, false, ==_iff, Option, some, ◌==◌,
  update, arith,
}
use sundries.Prelude.Int.{
  ℤ, negsuc, pos_part, neg_part, one_part, ◌+ℤ◌, +ℤ_parts, sub_ℕ, sub_ℕ_parts, is_opposite,
}
use sundries.LockFreeStack.Weights.{one, one_self}
use sundries.LockFreeStackWithRc.Memory.{int_max, is_int, CountedNodePtr, Node, Memory}
use sundries.LockFreeStackWithRc.Threads.{
  Pc, fetch_add, rests, looks, adds, lost, frees, frees_lost, adds_count, releases,
}
use sundries.LockFreeStackWithRc.Weights.{
  Links, linked, external, sole, pending, pending_count, refers, external_zero,
}
use sundries.LockFreeStackWithRc.Chains.{live-le-one}
use sundries.LockFreeStackWithRc.Invariant.{Others, IsSafe, IsSum, Kept}
use sundries.LockFreeStackWithRc.Pop.{refers_found}
use sundries.LockFreeStackWithRc.Recount.{zero_when, recount}

module _ {ℓ} {T : Type ℓ} (others : Others T) (sum : IsSum others) where
  module _ (x e : ℕ) (r : Option T) (m : Memory T) (links : Links) (n : Node T) where
    -- At the sum, the internal count is the number of the other threads that refer to the node.
    added :
        IsSafe (adds x e r) others m links
        → m.cell x ≡ some n
        → (linked x links + others (sole x) + others (pending x) ≡ 0)
          × (neg_part (n.internal_count +ℤ sub_ℕ e 2) + others (refers x)
              ≡ pos_part (n.internal_count +ℤ sub_ℕ e 2))
    added v f =
        let alone : linked x links + others (sole x) + others (pending x) ≡ 0 =
          omega (arith, v.once x, live-le-one (m.cell x), one_self x) in
        (
          alone,
          ground (
            arith,
            alone,
            v.balanced x n f,
            external_zero x links,
            sum.count_zero x,
            +ℤ_parts n.internal_count (sub_ℕ e 2),
            sub_ℕ_parts e 2,
            one_self x,
          ),
        )

  fetch_add-Kept :
      (i : ℤ) (x : ℕ) (n : Node T) (p : Pc T) (m : Memory T) (links : Links)
      → (is_int (n.internal_count +ℤ i) ≡ false → int_max < others (refers x))
      → IsSafe p others
          (record m {
            cell = update m.cell x (some (record n { internal_count = n.internal_count +ℤ i }));
          })
          links
      → Kept others (fetch_add i x n p m)
  fetch_add-Kept i x n p m links h v = elim (Bool-cases (is_int (n.internal_count +ℤ i))) [
    | inl e ↦ rw e (links, v)
    | inr e ↦ rw e ((x, h e), tt)
  ]

  -- A sum that is the number of the threads that refer to the node is an int, but for too many threads.
  sum_fits : (j : ℤ) (k : ℕ) → neg_part j + k ≡ pos_part j → is_int j ≡ false → int_max < k
  sum_fits j k h e = ground (arith, e, h, one_part j)

  add_fits :
      (i j : ℤ) (k : ℕ)
      → neg_part (i +ℤ j) + k ≡ pos_part (i +ℤ j)
      → is_int (i +ℤ j) ≡ false
      → int_max < k
  add_fits i j k h e = sum_fits (i +ℤ j) k h e

  -- The test of a fetch_add, against the sum.
  opposite_sum :
      (i j : ℤ) (k : ℕ)
      → neg_part (i +ℤ j) + k ≡ pos_part (i +ℤ j)
      → (is_opposite i j ≡ true → k ≡ 0) × (is_opposite i j ≡ false → 1 ≤ k)
  opposite_sum i j k h =
      (λ e. ground (arith, e, h, +ℤ_parts i j), λ e. ground (arith, e, h, +ℤ_parts i j))

  pub adds_count-Kept :
      (x e : ℕ) (r : Option T) (m : Memory T) (links : Links)
      → IsSafe (adds x e r) others m links
      → Kept others (adds_count x e r m)
  adds_count-Kept x e r m links v =
      let (n, f) = refers_found others sum (adds x e r) m links x v (omega (arith, one_self x)) in
      let (alone, sums) = added x e r m links n v f in
      let test = opposite_sum n.internal_count (sub_ℕ e 2) (others (refers x)) sums in
      rw f (elim (Bool-cases (is_opposite n.internal_count (sub_ℕ e 2))) [
        | inl o ↦
            let unreferred = test.0 o in
            rw o (
              fetch_add-Kept (sub_ℕ e 2) x n (frees x r) m links
                (add_fits n.internal_count (sub_ℕ e 2) (others (refers x)) sums)
                (recount others sum (adds x e r) (frees x r) m links x n _ v f refl
                  (λ a t. ground (arith, t)) (λ a k. refl)
                  (record {
                    once_at = omega (arith, alone, one_self x);
                    fits_at = omega (arith, v.fits x, one_self x);
                    balanced_at =
                        omega (arith, alone, sums, external_zero x links, sum.count_zero x);
                    unreleased_at = λ h. absurd (omega (arith, h, alone));
                    kept_at = omega (arith, one_self x);
                    unshared_at = λ h. omega (arith, unreferred);
                  })))
        | inr o ↦
            let referred = test.1 o in
            rw o (
              fetch_add-Kept (sub_ℕ e 2) x n (rests r) m links
                (add_fits n.internal_count (sub_ℕ e 2) (others (refers x)) sums)
                (recount others sum (adds x e r) (rests r) m links x n _ v f refl
                  (λ a t. ground (arith, t)) (λ a k. refl)
                  (record {
                    once_at = omega (arith, alone);
                    fits_at = omega (arith, v.fits x, one_self x);
                    balanced_at =
                        omega (arith, alone, sums, external_zero x links, sum.count_zero x);
                    unreleased_at = λ h. absurd (omega (arith, h, alone));
                    kept_at = omega (arith, referred);
                    unshared_at = λ h. absurd (omega (arith, h, alone));
                  })))
      ])

  module _ (x : ℕ) (c : CountedNodePtr) (m : Memory T) (links : Links) (n : Node T) where
    unsole : IsSafe (lost x c) others m links → others (sole x) ≡ 0
    unsole v =
        let referred : 0 < one x x + others (refers x) = omega (arith, one_self x) in
        let k =
          zero_when (0 + others (sole x)) (one x x + others (refers x)) (v.unshared x) referred in
        omega (arith, k)

    -- The counts go down together.
    released :
        IsSafe (lost x c) others m links
        → m.cell x ≡ some n
        → neg_part (n.internal_count +ℤ negsuc 0)
            + others (refers x)
            + linked x links
            + others (pending x)
          ≡ pos_part (n.internal_count +ℤ negsuc 0) + external x links + others (pending_count x)
    released v f = omega (arith, v.balanced x n f, +ℤ_parts n.internal_count (negsuc 0), one_self x)

    still_unreleased :
        IsSafe (lost x c) others m links
        → m.cell x ≡ some n
        → 0 < linked x links + (0 + others (pending x))
        → pos_part (n.internal_count +ℤ negsuc 0) ≡ 0
    still_unreleased v f h = ground (
      arith,
      v.unreleased x n f h,
      +ℤ_parts n.internal_count (negsuc 0),
      one_part (n.internal_count +ℤ negsuc 0),
    )

    -- Off the stack, and with no thread to add the external count, the internal count is that of the
    -- threads that refer to the node.
    off_count :
        IsSafe (lost x c) others m links
        → m.cell x ≡ some n
        → linked x links + (0 + others (pending x)) ≡ 0
        → neg_part n.internal_count + 1 + others (refers x) ≡ pos_part n.internal_count
    off_count v f h =
        omega (arith, h, v.balanced x n f, one_self x, external_zero x links, sum.count_zero x)

    release_fits :
        IsSafe (lost x c) others m links
        → m.cell x ≡ some n
        → is_int (n.internal_count +ℤ negsuc 0) ≡ false
        → int_max < others (refers x)
    release_fits v f e = elim (Bool-cases (linked x links + (0 + others (pending x)) == 0)) [
      | inl o ↦
          sum_fits (n.internal_count +ℤ negsuc 0) (others (refers x))
            (omega (arith, released v f, (==_iff _ 0).0 o, external_zero x links, sum.count_zero x))
            e
      | inr o ↦ absurd (ground (arith, e, o, still_unreleased v f, released v f, v.fits x))
    ]

    last_one :
        IsSafe (lost x c) others m links
        → m.cell x ≡ some n
        → is_opposite n.internal_count (negsuc 0) ≡ true
        → (linked x links + (0 + others (pending x)) ≡ 0) × (others (refers x) ≡ 0)
    last_one v f o =
        let one_left : pos_part n.internal_count ≡ neg_part n.internal_count + 1 =
          ground (arith, o) in
        let off =
          zero_when (linked x links + (0 + others (pending x))) (pos_part n.internal_count)
            (v.unreleased x n f) (omega (arith, one_left)) in
        (off, omega (arith, off_count v f off, one_left))

    not_last :
        IsSafe (lost x c) others m links
        → m.cell x ≡ some n
        → is_opposite n.internal_count (negsuc 0) ≡ false
        → 1 ≤ linked x links + (0 + others (pending x)) + others (refers x)
    not_last v f o = elim (Bool-cases (linked x links + (0 + others (pending x)) == 0)) [
      | inl e ↦ ground (arith, o, off_count v f ((==_iff _ 0).0 e))
      | inr e ↦ ground (arith, e)
    ]

  pub releases-Kept :
      (x : ℕ) (c : CountedNodePtr) (m : Memory T) (links : Links)
      → IsSafe (lost x c) others m links
      → Kept others (releases x c m)
  releases-Kept x c m links v =
      let (n, f) = refers_found others sum (lost x c) m links x v (omega (arith, one_self x)) in
      let alone = unsole x c m links n v in
      rw f (elim (Bool-cases (is_opposite n.internal_count (negsuc 0))) [
        | inl o ↦
            let (off, unreferred) = last_one x c m links n v f o in
            rw o (
              fetch_add-Kept (negsuc 0) x n (frees_lost x c) m links
                (release_fits x c m links n v f)
                (recount others sum (lost x c) (frees_lost x c) m links x n _ v f refl
                  (λ a t. ground (arith, t)) (λ a k. refl)
                  (record {
                    once_at = omega (arith, alone, off, one_self x);
                    fits_at = omega (arith, v.fits x, one_self x);
                    balanced_at = omega (arith, released x c m links n v f);
                    unreleased_at = still_unreleased x c m links n v f;
                    kept_at = omega (arith, one_self x);
                    unshared_at = λ h. omega (arith, unreferred);
                  })))
        | inr o ↦ rw o (
            fetch_add-Kept (negsuc 0) x n (looks c) m links (release_fits x c m links n v f) (
              recount others sum (lost x c) (looks c) m links x n _ v f refl
                (λ a t. ground (arith, t)) (λ a k. refl)
                (record {
                  once_at = omega (arith, v.once x, live-le-one (m.cell x));
                  fits_at = omega (arith, v.fits x, one_self x);
                  balanced_at = omega (arith, released x c m links n v f);
                  unreleased_at = still_unreleased x c m links n v f;
                  kept_at = omega (arith, not_last x c m links n v f o);
                  unshared_at = λ h. absurd (omega (arith, h, alone));
                })))
      ])
