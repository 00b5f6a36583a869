-- ===== src/DataQueue/Threads.antt =====
-- data_preparation_thread, data_processing_thread and main of 4.5.threadsafe_queue.cpp.
use sundries.Prelude.{ℕ, ◌+◌, Bool, not, List, [], ◌∷◌, ◌++◌, if◌then◌else◌, leb}
use sundries.DataQueue.Queue.{Queue, push, Awaited, waits, goes_on, wait_and_pop}

pub record Chunk : Type 0 where
  pub i : ℕ
  pub j : ℕ

-- data_preparation_thread stands before its call of more_data_to_prepare, in its loop's body, or at its end.
pub data Preparation : Type 0 where
  asks_more prepares prepared : Preparation

-- data_processing_thread stands before wait_and_pop, before process, before is_last_chunk, or at its end.
pub data Processing : Type 0 where
  awaits : Processing
  holds looks_back : Chunk → Processing
  processed : Processing

-- `printed` are the chunks of the lines that process printed.
pub record System : Type 0 where
  pub g_done : ℕ
  pub g_i : ℕ
  pub g_j : ℕ
  pub data_queue : Queue Chunk
  pub printed : List Chunk
  pub preparation : Preparation
  pub processing : Processing

abbrev pub to_do : ℕ
to_do = 100

unfoldable pub more_data_to_prepare : System → Bool
more_data_to_prepare s = not (leb to_do s.g_done)

unfoldable pub prepare_data : System → Chunk × System
prepare_data s =
    (record { i = s.g_i + 1; j = s.g_j + 1 }, record s { g_i = s.g_i + 1; g_j = s.g_j + 1 })

unfoldable pub process : Chunk → System → System
process c s = record s { g_done = s.g_done + 1; printed = s.printed ++ c ∷ [] }

unfoldable pub is_last_chunk : System → Bool
is_last_chunk s = leb to_do s.g_done

unfoldable pub data_preparation_thread : Preparation → System → System
unfolding more_data_to_prepare prepare_data push
data_preparation_thread asks_more s =
    if more_data_to_prepare s
    then record s { preparation = prepares }
    else record s { preparation = prepared }
data_preparation_thread prepares s =
    let r = prepare_data s in
    record r.1 { data_queue = push r.0 r.1.data_queue; preparation = asks_more }
data_preparation_thread prepared s = s

abbrev pub after_wait : Awaited Chunk → System → System
after_wait waits s = s
after_wait (goes_on c q) s = record s { data_queue = q; processing = holds c }

unfoldable pub data_processing_thread : Processing → System → System
unfolding wait_and_pop process is_last_chunk
data_processing_thread awaits s = after_wait (wait_and_pop s.data_queue) s
data_processing_thread (holds c) s = record (process c s) { processing = looks_back c }
data_processing_thread (looks_back c) s =
    if is_last_chunk s
    then record s { processing = processed }
    else record s { processing = awaits }
data_processing_thread processed s = s

pub data Thread : Type 0 where
  prepare process_data : Thread

unfoldable pub step : Thread → System → System
unfolding data_preparation_thread data_processing_thread
step prepare s = data_preparation_thread s.preparation s
step process_data s = data_processing_thread s.processing s

unfoldable pub run : List Thread → System → System
unfolding step
run [] s = s
run (t ∷ ts) s = run ts (step t s)

unfoldable pub start : System
start = record {
  g_done = 0;
  g_i = 0;
  g_j = 0;
  data_queue = record { queue = [] };
  printed = [];
  preparation = asks_more;
  processing = awaits;
}
