-- ===== src/DataQueue/InTurn.antt =====
-- Which chunks are processed, and how many.
use sundries.Prelude.{
  ℕ, suc, zero, ◌+◌, ◌≤◌, ◌≡◌, refl, sym, ap, subst, ◌∙◌, Bool, true, false, not, List, [], ◌∷◌,
  ◌++◌, if◌then◌else◌, leb, arith, append_assoc, length,
}
use sundries.DataQueue.Queue.{push, await_from, wait_and_pop}
use sundries.DataQueue.Threads.{
  Chunk, Preparation, asks_more, prepares, prepared, Processing, awaits, holds, looks_back,
  processed, System, to_do, more_data_to_prepare, prepare_data, process, is_last_chunk,
  data_preparation_thread, after_wait, data_processing_thread, Thread, prepare, process_data, step,
  run, start,
}

-- The chunk whose fields are both `k`.
abbrev pub twice : ℕ → Chunk
twice k = record { i = k; j = k }

-- The `n` chunks after the first `d`.
abbrev pub chunks_from : ℕ → ℕ → List Chunk
chunks_from d zero = []
chunks_from d (suc n) = twice (suc d) ∷ chunks_from (suc d) n

chunks_from_last : (d n : ℕ) → chunks_from d n ++ twice (suc (d + n)) ∷ [] ≡ chunks_from d (suc n)
chunks_from_last d zero = ap (λ k. twice (suc k) ∷ []) (omega arith)
chunks_from_last d (suc n) =
    ap (λ l. twice (suc d) ∷ l)
      (ap (λ k. chunks_from (suc d) n ++ twice (suc k) ∷ []) (omega arith)
        ∙ chunks_from_last (suc d) n)

abbrev pub held : Processing → List Chunk
held awaits = []
held (holds c) = c ∷ []
held (looks_back c) = []
held processed = []

-- How far g_done may have come.
abbrev pub Below : Processing → ℕ → Type 0
Below awaits d = suc d ≤ to_do
Below (holds c) d = suc d ≤ to_do
Below (looks_back c) d = d ≤ to_do
Below processed d = d ≡ to_do

abbrev pub Prepared : Preparation → ℕ → Type 0
Prepared asks_more d = Unit
Prepared prepares d = Unit
Prepared prepared d = to_do ≤ d

-- `n` chunks were prepared and not processed; the threads stand at `p` and `g`.
abbrev pub At : Preparation → Processing → System → Type 0
At p g s =
    (n : ℕ) × (s.g_done + n ≡ s.g_i)
    × (s.g_j ≡ s.g_i)
    × (held g ++ s.data_queue.queue ≡ chunks_from s.g_done n)
    × (s.printed ≡ chunks_from 0 s.g_done)
    × Below g s.g_done
    × Prepared p s.g_done

abbrev pub InTurn : System → Type 0
InTurn s = At s.preparation s.processing s

true_le : (a b : ℕ) → leb a b ≡ true → a ≤ b
true_le a b h = ground arith

false_lt : (a b : ℕ) → leb a b ≡ false → suc b ≤ a
false_lt a b h = ground arith

made : (a b k : ℕ) → a ≡ k → b ≡ k → record { i = a; j = b } ≡ twice k
made a b k e f = ap (λ x. record { i = x; j = b }) e ∙ ap (λ x. record { i = k; j = x }) f

asks-InTurn :
    (b : Bool) (s : System)
    → leb to_do s.g_done ≡ b
    → At asks_more s.processing s
    → InTurn
        (if not b then record s { preparation = prepares } else record s { preparation = prepared })
asks-InTurn true s e (n, h, j, q, p, k, u) = (n, h, j, q, p, k, true_le to_do s.g_done e)
asks-InTurn false s e h = h

preparation-InTurn :
    (p : Preparation) (s : System)
    → s.preparation ≡ p
    → At p s.processing s
    → InTurn (data_preparation_thread p s)
unfolding data_preparation_thread more_data_to_prepare prepare_data push
preparation-InTurn asks_more s e h = asks-InTurn (leb to_do s.g_done) s refl h
preparation-InTurn prepares s e (n, h, j, q, p, k, u) =
    let chunk : Chunk = record { i = s.g_i + 1; j = s.g_j + 1 } in
    let is_next : chunk ≡ twice (suc (s.g_done + n)) =
      made (s.g_i + 1) (s.g_j + 1) (suc (s.g_done + n)) (omega (arith, h)) (omega (arith, h, j)) in
    (
      suc n,
      omega (arith, h),
      omega (arith, j),
      sym (append_assoc (held s.processing) s.data_queue.queue (chunk ∷ []))
          ∙ (ap (λ l. l ++ chunk ∷ []) q
              ∙ (ap (λ c. chunks_from s.g_done n ++ c ∷ []) is_next ∙ chunks_from_last s.g_done n)),
      p,
      k,
      tt,
    )
preparation-InTurn prepared s e h = subst (λ p. At p s.processing s) (sym e) h

abbrev first_or : Chunk → List Chunk → Chunk
first_or c [] = c
first_or c (x ∷ xs) = x

abbrev rest_of : List Chunk → List Chunk
rest_of [] = []
rest_of (x ∷ xs) = xs

await-InTurn :
    (xs : List Chunk) (s : System)
    → s.data_queue.queue ≡ xs
    → s.processing ≡ awaits
    → At s.preparation awaits s
    → InTurn (after_wait (await_from xs) s)
await-InTurn [] s e f h = subst (λ g. At s.preparation g s) (sym f) h
await-InTurn (x ∷ xs) s e f (n, h, j, q, p, k, u) = (n, h, j, sym e ∙ q, p, k, u)

next_chunk : (d : ℕ) → chunks_from 0 d ++ twice (suc d) ∷ [] ≡ chunks_from 0 (suc d)
next_chunk d = ap (λ k. chunks_from 0 d ++ twice (suc k) ∷ []) (omega arith) ∙ chunks_from_last 0 d

plus_one : (d : ℕ) → d + 1 ≡ suc d
plus_one d = omega arith

still-Prepared : (p : Preparation) (d : ℕ) → Prepared p d → Prepared p (d + 1)
still-Prepared asks_more d h = tt
still-Prepared prepares d h = tt
still-Prepared prepared d h = omega (arith, h)

hold-InTurn :
    (c : Chunk) (s : System)
    → At s.preparation (holds c) s
    → InTurn (record (process c s) { processing = looks_back c })
unfolding process
hold-InTurn c s (zero, h, j, q, p, k, u) = absurd (omega (arith, ap length q))
hold-InTurn c s (suc n, h, j, q, p, k, u) = (
  n,
  omega (arith, h),
  j,
  ap rest_of q ∙ ap (λ d. chunks_from d n) (sym (plus_one s.g_done)),
  ap (λ l. l ++ c ∷ []) p
      ∙ (ap (λ x. chunks_from 0 s.g_done ++ x ∷ []) (ap (first_or c) q)
          ∙ (next_chunk s.g_done ∙ ap (chunks_from 0) (sym (plus_one s.g_done)))),
  omega (arith, k),
  still-Prepared s.preparation s.g_done u,
)

look-InTurn :
    (b : Bool) (s : System) (c : Chunk)
    → leb to_do s.g_done ≡ b
    → At s.preparation (looks_back c) s
    → InTurn (if b then record s { processing = processed } else record s { processing = awaits })
look-InTurn true s c e (n, h, j, q, p, k, u) =
    (n, h, j, q, p, omega (arith, k, true_le to_do s.g_done e), u)
look-InTurn false s c e (n, h, j, q, p, k, u) = (n, h, j, q, p, false_lt to_do s.g_done e, u)

processing-InTurn :
    (g : Processing) (s : System)
    → s.processing ≡ g
    → At s.preparation g s
    → InTurn (data_processing_thread g s)
unfolding data_processing_thread wait_and_pop is_last_chunk
processing-InTurn awaits s e h = await-InTurn s.data_queue.queue s refl e h
processing-InTurn (holds c) s e h = hold-InTurn c s h
processing-InTurn (looks_back c) s e h = look-InTurn (leb to_do s.g_done) s c refl h
processing-InTurn processed s e h = subst (λ g. At s.preparation g s) (sym e) h

pub step-InTurn : (t : Thread) (s : System) → InTurn s → InTurn (step t s)
unfolding step
step-InTurn prepare s h = preparation-InTurn s.preparation s refl h
step-InTurn process_data s h = processing-InTurn s.processing s refl h

pub run-InTurn : (ts : List Thread) (s : System) → InTurn s → InTurn (run ts s)
unfolding run
run-InTurn [] s h = h
run-InTurn (t ∷ ts) s h = run-InTurn ts (step t s) (step-InTurn t s h)

pub start-InTurn : InTurn start
unfolding start
start-InTurn = (0, refl, refl, refl, refl, omega arith, tt)

at_most : (g : Processing) (d : ℕ) → Below g d → d ≤ to_do
at_most awaits d h = omega (arith, h)
at_most (holds c) d h = omega (arith, h)
at_most (looks_back c) d h = h
at_most processed d h = omega (arith, h)

-- However the two threads take turns: the chunks that were processed, in their order, are those whose
-- fields are both 1, both 2, and so on up to g_done, and these are at most 100.
pub processed_in_turn :
    (ts : List Thread)
    → ((run ts start).printed ≡ chunks_from 0 (run ts start).g_done)
      × ((run ts start).g_done ≤ to_do)
processed_in_turn ts =
    let (n, h, j, q, p, k, u) = run-InTurn ts start start-InTurn in
    (p, at_most (run ts start).processing (run ts start).g_done k)
