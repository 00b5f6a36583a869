-- ===== src/Parallel/Async.antt =====
-- parallel_accumulate of 8.5.parallel_accumulate.cpp, by std::async.
use Prim.Native.Nat.{◌/◌}
use sundries.Prelude.{
  ℕ, zero, suc, ◌+◌, ◌-◌, ◌^◌, ◌≤◌, ◌<◌, ◌≡◌, refl, sym, ◌∙◌, false, Bool-cases, inl, inr, Option,
  none, some, List, length, if◌then◌else◌, leb, ◌>>=◌, arith,
}
use sundries.Parallel.Range.{Adds}
use sundries.Parallel.Accumulate.{
  accumulate, accumulate_range, accumulate_block, accumulate_range_all, accumulate_range_join,
  block_adds,
}
use sundries.Parallel.Threads.{unsigned_long}

halfway :
    (fuel first last : ℕ)
    → first ≤ last
    → last < 2 ^ 32
    → last - first < suc fuel
    → leb (unsigned_long (last - first)) 25 ≡ false
    → (first + unsigned_long (last - first) / 2 ≤ last)
      × (first + unsigned_long (last - first) / 2 - first < fuel)
halfway fuel first last p q r e = (ground arith, ground arith)

module _ {ℓ} {T : Type ℓ} (a : Adds T) where
  -- The depth of the calls is bounded by fuel; `none` is also that it ran out.
  unfoldable pub parallel_accumulate : ℕ → List T → ℕ → ℕ → T → Option T
  parallel_accumulate zero values first last init = none
  parallel_accumulate (suc fuel) values first last init =
      let len = unsigned_long (last - first) in
      let mid_point = first + len / 2 in
      let first_half_result = parallel_accumulate fuel values first mid_point init in
      if leb len 25
      then accumulate_range a first last values init
      else accumulate_block a values mid_point last >>= λ second_half_result.
          first_half_result >>= λ t. some (a.plus t second_half_result)

  async_lem :
      (fuel : ℕ) (values : List T) (first last : ℕ) (init : T)
      → first ≤ last
      → last ≤ length values
      → last - first < fuel
      → length values < 2 ^ 32
      → parallel_accumulate fuel values first last init ≡ accumulate_range a first last values init
  unfolding parallel_accumulate
  async_lem zero values first last init p q r k = absurd (omega arith)
  async_lem (suc fuel) values first last init p q r k =
      elim (Bool-cases (leb (unsigned_long (last - first)) 25)) [
        | inl e ↦ rw e refl
        | inr e ↦
            let mid_point = first + unsigned_long (last - first) / 2 in
            let (h, l) = halfway fuel first last p (omega arith) r e in
            let (t, b, c) = block_adds a values first mid_point init (omega arith) (omega arith) in
            let (u, d, f) = block_adds a values mid_point last (a.plus init t) h q in
            let first_half =
              async_lem fuel values first mid_point init (omega arith) (omega arith) l k in
            let join = accumulate_range_join a values first mid_point last init in
            rw e (rw d (rw first_half (rw c (sym (join _ _ (omega arith) h q c f)))))
      ]

  -- parallel_accumulate of chapter 8.5 ends, at a depth of at most one more than the number of values,
  -- with the sum of std::accumulate, where operator+ is associative and T() adds nothing, and the
  -- length does not overflow.
  pub parallel_accumulate-async :
      (values : List T) (init : T)
      → length values < 2 ^ 32
      → parallel_accumulate (suc (length values)) values 0 (length values) init
        ≡ some (accumulate a values init)
  parallel_accumulate-async values init p =
      async_lem (suc (length values)) values 0 (length values) init (omega arith) (omega arith)
        (omega arith) p
      ∙ accumulate_range_all a values init
