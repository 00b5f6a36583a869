-- ===== src/Parallel/Threads.antt =====
-- parallel_accumulate of 8.4.parallel_accumulate.cpp. Each thread only reads the values, and its sum
-- waits in a future: when the threads run makes no difference to it.
use Prim.Native.Nat.{◌/◌}
use native.Mathlib.Nat.{mul-div-le, mul-le-mul_right}
use sundries.Prelude.{
  false, Bool-cases, ==_iff, inl, inr, ℕ, zero, suc, ◌+◌, ◌-◌, ◌*◌, ◌%◌, ◌^◌, ◌≤◌, ◌<◌, ◌≡◌, refl,
  sym, ap, ◌∙◌, Option, none, some, List, [], ◌∷◌, length, if◌then◌else◌, ◌==◌, leb, ◌>>=◌, arith,
}
use sundries.Parallel.Range.{Adds}
use sundries.Parallel.Accumulate.{
  accumulate, accumulate_range, accumulate_block, accumulate_range_join, accumulate_none,
  accumulate_range_all, accumulate_range_empty, block_adds,
}

-- unsigned long, of 32 bits.
abbrev pub unsigned_long : ℕ → ℕ
unsigned_long n = n % 2 ^ 32

abbrev pub num_blocks : ℕ → ℕ
num_blocks len = unsigned_long (len + 25 - 1) / 25

abbrev hardware_or_two : ℕ → ℕ
hardware_or_two hardware_threads = if hardware_threads == 0 then 2 else hardware_threads

unfoldable pub num_threads : ℕ → ℕ → ℕ
num_threads hardware_threads len =
    let max_threads = num_blocks len in
    if leb (hardware_or_two hardware_threads) max_threads
    then hardware_or_two hardware_threads
    else max_threads

pub num_threads_pos :
    (hardware_threads len : ℕ) → 0 < len → len + 24 < 2 ^ 32 → 0 < num_threads hardware_threads len
unfolding num_threads
num_threads_pos hardware_threads len p q = ground arith

pub next_block :
    (n block_size start stop : ℕ)
    → stop ≡ start + suc n * block_size
    → stop ≡ start + block_size + n * block_size
next_block n block_size start stop e = omega arith

pub middle_le : (n block_size middle stop : ℕ) → stop ≡ middle + n * block_size → middle ≤ stop
middle_le n block_size middle stop e = omega arith

pub unsigned_small : (n : ℕ) → n + 24 < 2 ^ 32 → unsigned_long n ≡ n
unsigned_small n p = omega arith

pub pos_test : (n : ℕ) → 0 < n → (n == 0) ≡ false
pos_test n p = ground arith

pred_mul_le : (n q : ℕ) → (n - 1) * q ≤ n * q
pred_mul_le n q = mul-le-mul_right q (omega arith)

pub blocks_fit : (n len : ℕ) → (n - 1) * (len / n) ≤ len
blocks_fit n len = omega (arith, pred_mul_le n (len / n), mul-div-le len n)

module _ {ℓ} {T : Type ℓ} (a : Adds T) where
  -- The loop that starts the threads: their futures, and where the block of this thread starts.
  unfoldable pub hand_out : List T → ℕ → ℕ → ℕ → List (Option T) × ℕ
  hand_out values zero block_size block_start = ([], block_start)
  hand_out values (suc n) block_size block_start =
      let block_end = block_start + block_size in
      let rest = hand_out values n block_size block_end in
      (accumulate_block a values block_start block_end ∷ rest.0, rest.1)

  -- result += futures[i].get()
  unfoldable pub add_futures : List (Option T) → T → Option T
  add_futures [] result = some result
  add_futures (f ∷ fs) result = f >>= λ t. add_futures fs (a.plus result t)

  -- `n` threads are started, and this thread sums up what is left.
  unfoldable pub sum_blocks : ℕ → ℕ → List T → T → Option T
  unfolding hand_out add_futures
  sum_blocks n block_size values init =
      let blocks = hand_out values n block_size 0 in
      accumulate_block a values blocks.1 (length values) >>= λ last_result.
      add_futures blocks.0 init >>= λ result. some (a.plus result last_result)

  -- A division by zero is undefined.
  unfoldable pub parallel_accumulate : ℕ → List T → T → Option T
  unfolding sum_blocks
  parallel_accumulate hardware_threads values init =
      let len = unsigned_long (length values) in
      let n = num_threads hardware_threads len in
      if len == 0
      then some init
      else if n == 0
      then none
      else sum_blocks (n - 1) (len / n) values init

  -- The futures add up to the blocks, and this thread goes on where they end.
  hand_out_lem :
      (values : List T) (n block_size start stop : ℕ) (r : T)
      → stop ≡ start + n * block_size
      → stop ≤ length values
      → (t : T) × (add_futures (hand_out values n block_size start).0 r ≡ some t)
        × (accumulate_range a start stop values r ≡ some t)
        × ((hand_out values n block_size start).1 ≡ stop)
  unfolding hand_out add_futures accumulate_range
  hand_out_lem values zero block_size start stop r e p = (
    r,
    refl,
    accumulate_range_empty a values start stop r (omega (arith, e)) (omega (arith, e, p)),
    omega (arith, e),
  )
  hand_out_lem values (suc n) block_size start stop r e p =
      let middle = start + block_size in
      let q = next_block n block_size start stop e in
      let m = middle_le n block_size middle stop q in
      let (t, b, c) = block_adds a values start middle r (omega arith) (omega arith) in
      let (u, f, g, h) = hand_out_lem values n block_size middle stop (a.plus r t) q p in
      (u, rw b f, accumulate_range_join a values start middle stop r _ _ (omega arith) m p c g, h)

  sum_blocks_lem :
      (n block_size : ℕ) (values : List T) (init : T)
      → n * block_size ≤ length values
      → sum_blocks n block_size values init ≡ some (accumulate a values init)
  unfolding sum_blocks accumulate_range
  sum_blocks_lem n block_size values init p =
      let stop = n * block_size in
      let (t, f, g, h) = hand_out_lem values n block_size 0 stop init (omega arith) p in
      let (u, b, c) = block_adds a values stop (length values) t p (omega arith) in
      let join = accumulate_range_join a values 0 stop (length values) init t _ in
      let whole = join (omega arith) p (omega arith) g refl in
      rw h (rw b (rw f (sym c ∙ sym whole ∙ accumulate_range_all a values init)))

  -- For any number of hardware threads, parallel_accumulate of chapter 8.4 gives the sum of
  -- std::accumulate, where operator+ is associative and T() adds nothing, and the number of threads
  -- does not overflow.
  pub parallel_accumulate-accumulate :
      (hardware_threads : ℕ) (values : List T) (init : T)
      → length values + 24 < 2 ^ 32
      → parallel_accumulate hardware_threads values init ≡ some (accumulate a values init)
  unfolding parallel_accumulate
  parallel_accumulate-accumulate hardware_threads values init p =
      let len = length values in
      let n = num_threads hardware_threads len in
      rw (unsigned_small len p) (elim (Bool-cases (len == 0)) [
        | inl e ↦ rw e (ap some (accumulate_none a values init ((==_iff len 0).0 e)))
        | inr e ↦
            let pos = num_threads_pos hardware_threads len (ground arith) p in
            rw e (
              rw (pos_test n pos) (sum_blocks_lem (n - 1) (len / n) values init (blocks_fit n len)))
      ])
