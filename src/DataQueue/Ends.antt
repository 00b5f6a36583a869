-- ===== src/DataQueue/Ends.antt =====
-- Both threads come to their ends.
use sundries.Prelude.{
  ℕ, suc, zero, ◌+◌, ◌*◌, ◌-◌, ◌≤◌, ◌≡◌, refl, sym, ap, subst, ◌∙◌, Bool, true, false, not, List,
  [], ◌∷◌, if◌then◌else◌, leb, arith, length, length-append,
}
use sundries.DataQueue.Queue.{push, await_from, wait_and_pop}
use sundries.DataQueue.Threads.{
  Chunk, Preparation, asks_more, prepares, prepared, Processing, awaits, holds, looks_back,
  processed, System, to_do, more_data_to_prepare, prepare_data, process, is_last_chunk,
  data_preparation_thread, after_wait, data_processing_thread, Thread, prepare, process_data, step,
  run, start,
}
use sundries.DataQueue.InTurn.{
  chunks_from, Below, Prepared, InTurn, step-InTurn, run-InTurn, start-InTurn,
}

-- Moves that the processing thread has before it.
abbrev moves_left : Processing → ℕ → ℕ
moves_left awaits d = 3 * (to_do - d)
moves_left (holds c) d = 3 * (to_do - d) - 1
moves_left (looks_back c) d = 3 * (to_do - d) + 1
moves_left processed d = 0

abbrev left : System → ℕ
left s = moves_left s.processing s.g_done

-- What prepare leaves alone.
abbrev SameProcessing : System → System → Type 0
SameProcessing s s' = (s'.processing ≡ s.processing) × (s'.g_done ≡ s.g_done)

asks-SameProcessing :
    (b : Bool) (s : System)
    → SameProcessing s
        (if b then record s { preparation = prepares } else record s { preparation = prepared })
asks-SameProcessing true s = (refl, refl)
asks-SameProcessing false s = (refl, refl)

preparation-SameProcessing :
    (p : Preparation) (s : System) → SameProcessing s (data_preparation_thread p s)
unfolding data_preparation_thread more_data_to_prepare prepare_data push
preparation-SameProcessing asks_more s = asks-SameProcessing (not (leb to_do s.g_done)) s
preparation-SameProcessing prepares s = (refl, refl)
preparation-SameProcessing prepared s = (refl, refl)

abbrev Waiting : System → Type 0
Waiting s = 1 ≤ length s.data_queue.queue

prepares-Waiting : (s : System) → Waiting (data_preparation_thread prepares s)
unfolding data_preparation_thread prepare_data push
prepares-Waiting s =
    omega (arith, length-append s.data_queue.queue (record { i = s.g_i + 1; j = s.g_j + 1 } ∷ []))

asks-Waiting :
    (b : Bool) (s : System)
    → Waiting s
    → Waiting
        (if b then record s { preparation = prepares } else record s { preparation = prepared })
asks-Waiting true s h = h
asks-Waiting false s h = h

-- A test that finds more to do leads to a chunk in the queue.
asked-Waiting :
    (b : Bool) (s : System)
    → leb to_do s.g_done ≡ b
    → suc s.g_done ≤ to_do
    → Waiting (
        step prepare (
          if not b
          then record s { preparation = prepares }
          else record s { preparation = prepared }))
unfolding step
asked-Waiting true s e h = absurd (ground arith)
asked-Waiting false s e h = prepares-Waiting (record s { preparation = prepares })

twice-Waiting :
    (p : Preparation) (s : System)
    → Prepared p s.g_done
    → suc s.g_done ≤ to_do
    → Waiting (step prepare (data_preparation_thread p s))
unfolding step data_preparation_thread more_data_to_prepare
twice-Waiting asks_more s u h = asked-Waiting (leb to_do s.g_done) s refl h
twice-Waiting prepares s u h =
    let s' = data_preparation_thread prepares s in
    asks-Waiting (more_data_to_prepare s') s' (prepares-Waiting s)
twice-Waiting prepared s u h = absurd (omega (arith, u, h))

await-left :
    (xs : List Chunk) (s : System)
    → s.data_queue.queue ≡ xs
    → Waiting s
    → left (after_wait (await_from xs) s) ≤ moves_left awaits s.g_done - 1
await-left [] s e h = absurd (omega (arith, h, ap length e))
await-left (x ∷ xs) s e h = omega arith

look-left :
    (b : Bool) (s : System) (c : Chunk)
    → left (if b then record s { processing = processed } else record s { processing = awaits })
      ≤ moves_left (looks_back c) s.g_done - 1
look-left true s c = omega arith
look-left false s c = omega arith

processing-left :
    (g : Processing) (s : System)
    → Below g s.g_done
    → (suc s.g_done ≤ to_do → Waiting s)
    → s.processing ≡ g
    → left (data_processing_thread g s) ≤ moves_left g s.g_done - 1
unfolding data_processing_thread wait_and_pop process is_last_chunk
processing-left awaits s k w e = await-left s.data_queue.queue s refl (w k)
processing-left (holds c) s k w e = omega (arith, k)
processing-left (looks_back c) s k w e = look-left (leb to_do s.g_done) s c
processing-left processed s k w e = omega (arith, ap (λ g. moves_left g s.g_done) e)

-- Two moves of the one thread, and one of the other.
abbrev round : System → System
round s = step process_data (step prepare (step prepare s))

abbrev pub rounds : ℕ → List Thread
rounds zero = []
rounds (suc k) = prepare ∷ prepare ∷ process_data ∷ rounds k

prepares-SameProcessing : (s : System) → SameProcessing s (step prepare (step prepare s))
unfolding step
prepares-SameProcessing s =
    let s' = data_preparation_thread s.preparation s in
    let one = preparation-SameProcessing s.preparation s in
    let two = preparation-SameProcessing s'.preparation s' in (two.0 ∙ one.0, two.1 ∙ one.1)

round-left : (s : System) → InTurn s → left (round s) ≤ left s - 1
unfolding step
round-left s h =
    let s'' = step prepare (step prepare s) in
    let (n, a, j, q, p, k, u) = step-InTurn prepare (step prepare s) (step-InTurn prepare s h) in
    let (e, f) = prepares-SameProcessing s in
    let (n, a', j', q', p', k', u') = h in
    let fewer =
      processing-left s''.processing s'' k
        (λ lt. twice-Waiting s.preparation s u' (subst (λ d. suc d ≤ to_do) f lt)) refl in
    omega (arith, fewer, ap (moves_left s''.processing) f, ap (λ g. moves_left g s.g_done) e)

left_zero : (g : Processing) (d : ℕ) → Below g d → moves_left g d ≡ 0 → g ≡ processed
left_zero awaits d k h = absurd (omega (arith, k, h))
left_zero (holds c) d k h = absurd (omega (arith, k, h))
left_zero (looks_back c) d k h = absurd (omega (arith, k, h))
left_zero processed d k h = refl

asked-prepared :
    (b : Bool) (s : System)
    → leb to_do s.g_done ≡ b
    → to_do ≤ s.g_done
    → (if not b
        then record s { preparation = prepares }
        else record s { preparation = prepared }).preparation
      ≡ prepared
asked-prepared true s e h = refl
asked-prepared false s e h = absurd (ground arith)

prepared-stays : (s : System) → s.preparation ≡ prepared → (step prepare s).preparation ≡ prepared
unfolding step data_preparation_thread
prepared-stays s e = ap (λ p. (data_preparation_thread p s).preparation) e ∙ e

twice-prepared :
    (p : Preparation) (s : System)
    → s.preparation ≡ p
    → to_do ≤ s.g_done
    → (step prepare (data_preparation_thread p s)).preparation ≡ prepared
unfolding step data_preparation_thread more_data_to_prepare prepare_data
twice-prepared asks_more s e h =
    prepared-stays (data_preparation_thread asks_more s)
      (asked-prepared (leb to_do s.g_done) s refl h)
twice-prepared prepares s e h =
    asked-prepared (leb to_do s.g_done) (data_preparation_thread prepares s) refl h
twice-prepared prepared s e h = prepared-stays s e

abbrev pub Ended : System → Type 0
Ended s =
    (s.preparation ≡ prepared) × (s.processing ≡ processed) × (s.printed ≡ chunks_from 0 to_do)

last_round : (s : System) → InTurn s → left s ≡ 0 → Ended (round s)
unfolding step data_processing_thread
last_round s h z =
    let s'' = step prepare (step prepare s) in
    let (m, a', j', q', p', k', u') =
      step-InTurn prepare (step prepare s) (step-InTurn prepare s h) in
    let (n, a, j, q, p, k, u) = h in
    let (e, f) = prepares-SameProcessing s in
    let at_end = left_zero s.processing s.g_done k z in
    let all_done : s.g_done ≡ to_do = subst (λ g. Below g s.g_done) at_end k in
    subst (λ g. Ended (data_processing_thread g s'')) (sym (e ∙ at_end))
      (
        twice-prepared s.preparation s refl (omega (arith, all_done)),
        e ∙ at_end,
        p' ∙ ap (chunks_from 0) (f ∙ all_done),
      )

rounds-Ended : (k : ℕ) (s : System) → InTurn s → left s ≤ k → Ended (run (rounds (suc k)) s)
unfolding run
rounds-Ended zero s h le = last_round s h (omega (arith, le))
rounds-Ended (suc k) s h le =
    rounds-Ended k (round s)
      (step-InTurn process_data (step prepare (step prepare s))
        (step-InTurn prepare (step prepare s) (step-InTurn prepare s h)))
      (omega (arith, le, round-left s h))

moves_left_le : (g : Processing) (d : ℕ) → moves_left g d ≤ 301
moves_left_le awaits d = omega arith
moves_left_le (holds c) d = omega arith
moves_left_le (looks_back c) d = omega arith
moves_left_le processed d = omega arith

-- Whatever the threads have done so far, if they then move in 302 rounds, data_preparation_thread twice
-- and data_processing_thread once in each, both end, and the chunks that were processed are those whose
-- fields are both 1 to both 100, in this order.
pub both_end : (ts : List Thread) → Ended (run (rounds 302) (run ts start))
both_end ts =
    let s = run ts start in
    rounds-Ended 301 s (run-InTurn ts start start-InTurn) (moves_left_le s.processing s.g_done)
