-- ===== src/LockFreeStackWithRc/Whole.antt =====
-- The invariant of the whole, and of it beside one thread.
use sundries.Prelude.{
  ℕ, ◌≡◌, refl, none, some, List, [], ◌∷◌, count_if, count_if-le, without, count_if-without,
  count_if-set, get_elem?, set, arith,
}
use sundries.LockFreeStackWithRc.Memory.{Memory}
use sundries.LockFreeStackWithRc.Threads.{Pc, rests, System}
use sundries.LockFreeStackWithRc.Weights.{
  Links, sole, pending, pending_count, refers, stale, stale-le-refers, pending_count_zero,
}
use sundries.LockFreeStackWithRc.Invariant.{Others, IsSafe, IsSum}

module _ {ℓ} {T : Type ℓ} where
  abbrev pub total : List (Pc T) → Others T
  total ps w = count_if w ps

  total_count_zero :
      (a : ℕ) (ps : List (Pc T)) → count_if (pending a) ps ≡ 0 → count_if (pending_count a) ps ≡ 0
  total_count_zero a [] h = refl
  total_count_zero a (p ∷ ps) h =
      omega
        (arith, pending_count_zero a p (omega (arith, h)), total_count_zero a ps (omega (arith, h)))

  pub total-IsSum : (ps : List (Pc T)) → IsSum (total ps)
  total-IsSum ps = record {
    stale_refers = λ a n. count_if-le (stale a n) (refers a) (stale-le-refers a n) ps;
    count_zero = λ a. total_count_zero a ps;
  }

  -- The invariant of the whole: a thread at rest adds nothing to the sums over all threads.
  unfoldable pub IsSafeSystem : System T → Links → Type ℓ
  IsSafeSystem s links = IsSafe (rests none) (total s.threads) s.memory links

  pub at_thread :
      (s : System T) (links : Links) (i : ℕ) (p : Pc T)
      → get_elem? s.threads i ≡ some p
      → IsSafeSystem s links
      → IsSafe p (total (without i s.threads)) s.memory links
  unfolding IsSafeSystem
  at_thread s links i p e v =
      let so = λ (a : ℕ). count_if-without (sole a) s.threads i e in
      let pe = λ (a : ℕ). count_if-without (pending a) s.threads i e in
      let pc = λ (a : ℕ). count_if-without (pending_count a) s.threads i e in
      let re = λ (a : ℕ). count_if-without (refers a) s.threads i e in
      record {
        chain = v.chain;
        once = λ a. omega (arith, v.once a, so a, pe a);
        balanced = λ a n f. omega (arith, v.balanced a n f, pe a, pc a, re a);
        unreleased = λ a n f h. v.unreleased a n f (omega (arith, h, pe a));
        fits = λ a. omega (arith, v.fits a, pc a);
        kept = λ a. omega (arith, v.kept a, so a, pe a, re a);
        guarded = λ a h. v.guarded a (omega (arith, h, re a));
        unshared = λ a h. omega (arith, re a, v.unshared a (omega (arith, h, so a)));
        current = λ a n f.
            omega (arith, v.current a n f, count_if-without (stale a n.next) s.threads i e);
      }

  pub back_to_system :
      (s : System T) (links : Links) (i : ℕ) (p q : Pc T) (m : Memory T)
      → get_elem? s.threads i ≡ some p
      → IsSafe q (total (without i s.threads)) m links
      → IsSafeSystem (record { memory = m; threads = set s.threads i q }) links
  unfolding IsSafeSystem
  back_to_system s links i p q m e v =
      let so = λ (a : ℕ). count_if-set (sole a) s.threads i q e in
      let pe = λ (a : ℕ). count_if-set (pending a) s.threads i q e in
      let pc = λ (a : ℕ). count_if-set (pending_count a) s.threads i q e in
      let re = λ (a : ℕ). count_if-set (refers a) s.threads i q e in
      record {
        chain = v.chain;
        once = λ a. omega (arith, v.once a, so a, pe a);
        balanced = λ a n f. omega (arith, v.balanced a n f, pe a, pc a, re a);
        unreleased = λ a n f h. v.unreleased a n f (omega (arith, h, pe a));
        fits = λ a. omega (arith, v.fits a, pc a);
        kept = λ a. omega (arith, v.kept a, so a, pe a, re a);
        guarded = λ a h. v.guarded a (omega (arith, h, re a));
        unshared = λ a h. omega (arith, re a, v.unshared a (omega (arith, h, so a)));
        current =
            λ a n f. omega (arith, v.current a n f, count_if-set (stale a n.next) s.threads i q e);
      }
