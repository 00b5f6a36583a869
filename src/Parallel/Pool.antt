-- ===== src/Parallel/Pool.antt =====
-- parallel_accmulate_using_tp of 9.thread_pool/thread_pool.hpp, on a pool that has a worker. A task
-- only reads the values, and its sum waits in a future.
use sundries.Prelude.{
  sym, ℕ, zero, suc, ◌+◌, ◌-◌, ◌^◌, ◌<◌, ◌≡◌, refl, ap, ◌∙◌, false, true, Bool-cases, ==_iff, inl,
  inr, Option, none, some, List, [], ◌∷◌, length, if◌then◌else◌, ◌==◌, leb, ◌>>=◌, arith,
}
use sundries.Parallel.Range.{Adds, range_reversed}
use sundries.Parallel.Accumulate.{
  accumulate, accumulate_range, accumulate_block, accumulate_range_all, accumulate_none, block_adds,
}
use sundries.Parallel.Threads.{unsigned_long, unsigned_small, num_blocks, add_futures}

one_task : (len : ℕ) → len + 24 < 2 ^ 32 → leb len 25 ≡ true → num_blocks len - 1 ≡ 0
one_task len p e = ground arith

more_tasks :
    (len : ℕ)
    → len + 24 < 2 ^ 32
    → leb len 25 ≡ false
    → num_blocks len - 1 ≡ suc (num_blocks len - 2)
more_tasks len p e = ground arith

no_more : (len : ℕ) → (len == 0) ≡ true → leb len 25 ≡ true
no_more len e = ground arith

module _ {ℓ} {T : Type ℓ} (a : Adds T) where
  -- It is block_start that is advanced, and block_end that stays.
  unfoldable pub submit_blocks : List T → ℕ → ℕ → List (Option T) × ℕ
  submit_blocks values zero block_start = ([], block_start)
  submit_blocks values (suc n) block_start =
      let block_end = block_start in
      let advanced = block_start + 25 in
      let rest = submit_blocks values n block_end in
      (accumulate_block a values advanced block_end ∷ rest.0, rest.1)

  -- `n` tasks are submitted, and this thread sums up what is left.
  unfoldable pub sum_tasks : ℕ → List T → T → Option T
  unfolding submit_blocks add_futures
  sum_tasks n values init =
      let blocks = submit_blocks values n 0 in
      accumulate_block a values blocks.1 (length values) >>= λ last_result.
      add_futures a blocks.0 init >>= λ result. some (a.plus result last_result)

  unfoldable pub parallel_accmulate_using_tp : List T → T → Option T
  unfolding sum_tasks
  parallel_accmulate_using_tp values init =
      let len = unsigned_long (length values) in
      if len == 0 then some init else sum_tasks (num_blocks len - 1) values init

  no_task : (values : List T) (init : T) → sum_tasks 0 values init ≡ some (accumulate a values init)
  unfolding sum_tasks submit_blocks add_futures
  no_task values init =
      let (t, b, c) = block_adds a values 0 (length values) init (omega arith) (omega arith) in
      rw b (sym c ∙ accumulate_range_all a values init)

  submit_blocks_start : (values : List T) (n start : ℕ) → (submit_blocks values n start).1 ≡ start
  unfolding submit_blocks
  submit_blocks_start values zero start = refl
  submit_blocks_start values (suc n) start = submit_blocks_start values n start

  block_reversed :
      (values : List T) (first last : ℕ)
      → last < first
      → accumulate_block a values first last ≡ none
  unfolding accumulate_block accumulate_range
  block_reversed values first last p = rw (range_reversed first last values p) refl

  task_undefined : (values : List T) (n : ℕ) (init : T) → sum_tasks (suc n) values init ≡ none
  unfolding sum_tasks submit_blocks add_futures
  task_undefined values n init =
      let (t, b, c) = block_adds a values 0 (length values) init (omega arith) (omega arith) in
      rw (submit_blocks_start values n 0)
        (rw b (rw (block_reversed values (0 + 25) 0 (omega arith)) refl))

  tasks_lem :
      (values : List T) (init : T)
      → length values + 24 < 2 ^ 32
      → sum_tasks (num_blocks (length values) - 1) values init
        ≡ (if leb (length values) 25 then some (accumulate a values init) else none)
  tasks_lem values init p =
      let len = length values in
      elim (Bool-cases (leb len 25)) [
        | inl e ↦ rw (e, one_task len p e) (no_task values init)
        | inr e ↦ rw (e, more_tasks len p e) (task_undefined values (num_blocks len - 2) init)
      ]

  -- parallel_accmulate_using_tp gives the sum of std::accumulate for up to 25 values. For more, its
  -- tasks get ranges that end before they begin, and its result is undefined: for a length that does
  -- not overflow.
  pub tp_accumulates_one_block :
      (values : List T) (init : T)
      → length values + 24 < 2 ^ 32
      → parallel_accmulate_using_tp values init
        ≡ (if leb (length values) 25 then some (accumulate a values init) else none)
  unfolding parallel_accmulate_using_tp
  tp_accumulates_one_block values init p =
      let len = length values in
      elim (Bool-cases (len == 0)) [
        | inl e ↦ rw (unsigned_small len p) (
            rw e
              (rw (no_more len e) (ap some (accumulate_none a values init ((==_iff len 0).0 e)))))
        | inr e ↦ rw (unsigned_small len p) (rw e (tasks_lem values init p))
      ]
