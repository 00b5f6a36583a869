-- ===== src/Parallel/Tests.antt =====
-- Runs of the parallel algorithms on numbers.
use sundries.Prelude.{
  ℕ, ◌+◌, ◌≡◌, refl, none, some, List, [], ◌∷◌, ◌++◌, replicate, arith, ltb, Bool, true, false, not,
  Bool-cases, inl, inr, count_if, count_if-append, ◌*◌, length, if◌then◌else◌,
}
use sundries.Parallel.Range.{Adds, range}
use sundries.Parallel.Accumulate.{accumulate_block}
use sundries.Parallel.Threads.{num_threads, parallel_accumulate, parallel_accumulate-accumulate}
use sundries.Parallel.Pool.{parallel_accmulate_using_tp, tp_accumulates_one_block}
use sundries.Parallel.Async.{parallel_accumulate-async}
use sundries.Parallel.Async
use mathlib.Core.List.{map}
use sundries.Parallel.ForEach.{positions, parallel_for_each, visit_all, parallel_for_each-map}
use sundries.Parallel.QuickSort.{
  Less, Partition, one_if, parallel_quick_sort_using_tp, IsSorted, IsRearranged,
  quick_sort-IsSorted,
}

numbers_assoc : (a b c : ℕ) → a + b + c ≡ a + (b + c)
numbers_assoc a b c = omega arith

numbers_default : (a : ℕ) → a + 0 ≡ a
numbers_default a = omega arith

abbrev numbers : Adds ℕ
numbers = record {
  plus = λ a b. a + b;
  default_value = 0;
  plus_assoc = numbers_assoc;
  plus_default = numbers_default;
}

abbrev sixty : List ℕ
sixty = replicate 57 2 ++ 7 ∷ 8 ∷ 9 ∷ []

accumulate_test : parallel_accumulate numbers 4 sixty 100 ≡ some 238
unfolding parallel_accumulate num_threads accumulate_block range
accumulate_test = refl

async_test : Async.parallel_accumulate numbers 4 sixty 0 60 100 ≡ some 238
unfolding Async.parallel_accumulate accumulate_block range
async_test = refl

parallel_accumulate-accumulate_example : parallel_accumulate numbers 4 sixty 100 ≡ some 238
parallel_accumulate-accumulate_example =
    parallel_accumulate-accumulate numbers 4 sixty 100 (omega arith)

parallel_accumulate-async_example : Async.parallel_accumulate numbers 61 sixty 0 60 100 ≡ some 238
parallel_accumulate-async_example = parallel_accumulate-async numbers sixty 100 (omega arith)

tp_accumulates_one_block_example : parallel_accmulate_using_tp numbers sixty 100 ≡ none
tp_accumulates_one_block_example = tp_accumulates_one_block numbers sixty 100 (omega arith)

less_numbers_irrefl : (m : ℕ) → ltb m m ≡ false
less_numbers_irrefl m = ground arith

less_numbers_trans : (l m n : ℕ) → ltb l m ≡ true → ltb m n ≡ true → ltb l n ≡ true
less_numbers_trans l m n p q = ground arith

abbrev less_numbers : Less ℕ
less_numbers = record {
  less = λ m n. ltb m n;
  less_irrefl = less_numbers_irrefl;
  less_trans = less_numbers_trans;
}

abbrev stable : (ℕ → Bool) → List ℕ → List ℕ × List ℕ
stable p [] = ([], [])
stable p (x ∷ xs) = let r = stable p xs in if p x then (x ∷ r.0, r.1) else (r.0, x ∷ r.1)

stable_elements :
    (p : ℕ → Bool) (xs : List ℕ) (w : ℕ → ℕ)
    → count_if w (stable p xs).0 + count_if w (stable p xs).1 ≡ count_if w xs
stable_elements p [] w = refl
stable_elements p (x ∷ xs) w = elim (Bool-cases (p x)) [
  | inl e ↦ rw e (omega (arith, stable_elements p xs w))
  | inr e ↦ rw e (omega (arith, stable_elements p xs w))
]

stable_front : (p : ℕ → Bool) (xs : List ℕ) → count_if (λ x. one_if (not (p x))) (stable p xs).0 ≡ 0
stable_front p [] = refl
stable_front p (x ∷ xs) = elim (Bool-cases (p x)) [
  | inl e ↦ rw e (rw e (omega (arith, stable_front p xs)))
  | inr e ↦ rw e (stable_front p xs)
]

stable_back : (p : ℕ → Bool) (xs : List ℕ) → count_if (λ x. one_if (p x)) (stable p xs).1 ≡ 0
stable_back p [] = refl
stable_back p (x ∷ xs) = elim (Bool-cases (p x)) [
  | inl e ↦ rw e (stable_back p xs)
  | inr e ↦ rw e (rw e (omega (arith, stable_back p xs)))
]

abbrev stable_partition : Partition ℕ
stable_partition = record {
  partition = stable;
  partition_elements = stable_elements;
  partition_front = stable_front;
  partition_back = stable_back;
}

-- The list of main in 9.thread_pool/main.cpp.
abbrev to_sort : List ℕ
to_sort = 7 ∷ 3 ∷ 5 ∷ 1 ∷ 9 ∷ 11 ∷ 4 ∷ 2 ∷ 6 ∷ 8 ∷ 13 ∷ 10 ∷ []

sort_test :
    parallel_quick_sort_using_tp less_numbers stable_partition 13 to_sort
    ≡ some (1 ∷ 2 ∷ 3 ∷ 4 ∷ 5 ∷ 6 ∷ 7 ∷ 8 ∷ 9 ∷ 10 ∷ 11 ∷ 13 ∷ [])
unfolding parallel_quick_sort_using_tp
sort_test = refl

quick_sort-IsSorted_example :
    (out : List ℕ) × (parallel_quick_sort_using_tp less_numbers stable_partition 13 to_sort
      ≡ some out)
    × IsRearranged less_numbers stable_partition out to_sort
    × IsSorted less_numbers stable_partition out
quick_sort-IsSorted_example = quick_sort-IsSorted less_numbers stable_partition to_sort

abbrev thirty : List ℕ
thirty = replicate 28 2 ++ 7 ∷ 8 ∷ []

-- Two blocks, of which the second is visited first.
abbrev second_first : List ℕ
second_first = positions 15 15 ++ positions 0 15

second_first_lem : (w : ℕ → ℕ) → count_if w second_first ≡ count_if w (positions 0 (length thirty))
second_first_lem w = omega (
  arith,
  count_if-append w (positions 15 15) (positions 0 15),
  count_if-append w (positions 0 15) (positions 15 15),
)

for_each_test : visit_all (λ v. v * 2) second_first thirty ≡ replicate 28 4 ++ 14 ∷ 16 ∷ []
for_each_test = refl

parallel_for_each-map_example :
    (parallel_for_each 8 (length thirty) ≡ some (positions 0 (length thirty)))
    × (visit_all (λ v. v * 2) second_first thirty ≡ map (λ v. v * 2) thirty)
parallel_for_each-map_example =
    parallel_for_each-map (λ v. v * 2) 8 thirty second_first (omega arith) second_first_lem
