-- ===== src/Parallel/QuickSort.antt =====
-- sorter_using_tp and parallel_quick_sort_using_tp of 9.thread_pool/thread_pool.hpp. A thread that
-- waits for the lower part runs the pending tasks of the pool, so that each of them is done.
use sundries.Prelude.{
  ℕ, zero, suc, ◌+◌, ◌≤◌, ◌<◌, ◌≡◌, refl, ap, ◌∙◌, Bool, true, false, not, Option, none, some, List,
  [], ◌∷◌, ◌++◌, length, count_if, count_if-append, count_if-le, ◌>>=◌, arith,
}

-- operator< of the values.
pub record Less {ℓ} (T : Type ℓ) : Type ℓ where
  pub less : T → T → Bool
  pub less_irrefl : (a : T) → less a a ≡ false
  pub less_trans : (a b c : T) → less a b ≡ true → less b c ≡ true → less a c ≡ true

-- 1 for a value that the test accepts.
abbrev pub one_if : Bool → ℕ
one_if true = 1
one_if false = 0

-- std::partition: the values that pass the test, then those that do not, in no particular order.
pub record Partition {ℓ} (T : Type ℓ) : Type ℓ where
  pub partition : (T → Bool) → List T → List T × List T
  pub partition_elements :
      (p : T → Bool) (xs : List T) (w : T → ℕ)
      → count_if w (partition p xs).0 + count_if w (partition p xs).1 ≡ count_if w xs
  pub partition_front :
      (p : T → Bool) (xs : List T) → count_if (λ x. one_if (not (p x))) (partition p xs).0 ≡ 0
  pub partition_back :
      (p : T → Bool) (xs : List T) → count_if (λ x. one_if (p x)) (partition p xs).1 ≡ 0

module _ {ℓ} {T : Type ℓ} (o : Less T) (s : Partition T) where
  -- The depth of the calls is bounded by fuel; `none` is that it ran out.
  unfoldable pub do_sort : ℕ → List T → Option (List T)
  do_sort zero chunk = none
  do_sort (suc fuel) [] = some []
  do_sort (suc fuel) (partition_value ∷ chunk) =
      let parts = s.partition (λ val. o.less val partition_value) chunk in
      do_sort fuel parts.1 >>= λ new_higher.
      do_sort fuel parts.0 >>= λ new_lower. some (new_lower ++ partition_value ∷ new_higher)

  unfoldable pub parallel_quick_sort_using_tp : ℕ → List T → Option (List T)
  unfolding do_sort
  parallel_quick_sort_using_tp fuel [] = some []
  parallel_quick_sort_using_tp fuel (x ∷ xs) = do_sort fuel (x ∷ xs)

  -- No value is less than one before it.
  unfoldable pub IsSorted : List T → Type 0
  IsSorted [] = Unit
  IsSorted (x ∷ xs) = (count_if (λ y. one_if (o.less y x)) xs ≡ 0) × IsSorted xs

  -- However the values are weighed, the two lists weigh the same: one is the other, rearranged.
  abbrev pub IsRearranged : List T → List T → Type ℓ
  IsRearranged xs ys = (w : T → ℕ) → count_if w xs ≡ count_if w ys

  count_if_one : (xs : List T) → count_if (λ x. 1) xs ≡ length xs
  count_if_one [] = refl
  count_if_one (x ∷ xs) = omega (arith, count_if_one xs)

  part_sizes :
      (lower higher chunk : List T)
      → count_if (λ x. 1) lower + count_if (λ x. 1) higher ≡ count_if (λ x. 1) chunk
      → length lower + length higher ≡ length chunk
  part_sizes lower higher chunk e =
      omega (arith, e, count_if_one lower, count_if_one higher, count_if_one chunk)

  passes : (b : Bool) (n : ℕ) → one_if (not b) + n ≡ 0 → b ≡ true
  passes b n e = ground arith

  -- What is not less than the pivot is not less than what is less than the pivot.
  less_mono : (x p : T) → o.less x p ≡ true → (y : T) → one_if (o.less y x) ≤ one_if (o.less y p)
  less_mono x p h y = ground (arith, o.less_trans y x p)

  not_less : (x p : T) → o.less x p ≡ true → o.less p x ≡ false
  not_less x p h = ground (arith, o.less_trans x p x, o.less_irrefl x)

  append-IsSorted :
      (xs ys : List T) (p : T)
      → IsSorted xs
      → IsSorted ys
      → count_if (λ x. one_if (not (o.less x p))) xs ≡ 0
      → count_if (λ y. one_if (o.less y p)) ys ≡ 0
      → IsSorted (xs ++ p ∷ ys)
  unfolding IsSorted
  append-IsSorted [] ys p f g h k = (k, g)
  append-IsSorted (x ∷ xs) ys p f g h k =
      let q = passes (o.less x p) (count_if (λ z. one_if (not (o.less z p))) xs) h in
      let before = λ (y : T). one_if (o.less y x) in
      let above = count_if-le before (λ y. one_if (o.less y p)) (less_mono x p q) ys in
      let pivot = ap one_if (not_less x p q) in
      (
        omega (arith, count_if-append before xs (p ∷ ys), f.0, pivot, above, k),
        append-IsSorted xs ys p f.1 g (omega (arith, h)) k,
      )

  IsDone : List T → Option (List T) → Type ℓ
  IsDone chunk r = (out : List T) × (r ≡ some out) × IsRearranged out chunk × IsSorted out

  do_sort_lem :
      (fuel : ℕ) (chunk : List T) → length chunk < fuel → IsDone chunk (do_sort fuel chunk)
  unfolding do_sort IsSorted IsDone
  do_sort_lem zero chunk h = absurd (omega arith)
  do_sort_lem (suc fuel) [] h = ([], refl, λ w. refl, tt)
  do_sort_lem (suc fuel) (v ∷ chunk) h =
      let test = λ (val : T). o.less val v in
      let parts = s.partition test chunk in
      let sizes = s.partition_elements test chunk (λ x. 1) in
      let fits = part_sizes parts.0 parts.1 chunk sizes in
      let (higher, e, f, g) = do_sort_lem fuel parts.1 (omega (arith, fits, h)) in
      let (lower, e', f', g') = do_sort_lem fuel parts.0 (omega (arith, fits, h)) in
      let below = f' (λ x. one_if (not (test x))) ∙ s.partition_front test chunk in
      let above = f (λ x. one_if (test x)) ∙ s.partition_back test chunk in
      (
        lower ++ v ∷ higher,
        rw e (rw e' refl),
        λ w. omega (
          arith,
          count_if-append w lower (v ∷ higher),
          f w,
          f' w,
          s.partition_elements test chunk w,
        ),
        append-IsSorted lower higher v g' g below above,
      )

  -- parallel_quick_sort_using_tp ends, at a depth of at most one more than the number of values. Its
  -- result has the values of the input, each as often, and none of them is less than one before it,
  -- for an operator< that is irreflexive and transitive, and std::partition.
  pub quick_sort-IsSorted :
      (input : List T)
      → (out : List T) × (parallel_quick_sort_using_tp (suc (length input)) input ≡ some out)
        × IsRearranged out input
        × IsSorted out
  unfolding parallel_quick_sort_using_tp IsDone IsSorted
  quick_sort-IsSorted [] = ([], refl, λ w. refl, tt)
  quick_sort-IsSorted (x ∷ xs) = do_sort_lem (suc (length (x ∷ xs))) (x ∷ xs) (omega arith)
