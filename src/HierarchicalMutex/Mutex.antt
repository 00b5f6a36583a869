-- ===== src/HierarchicalMutex/Mutex.antt =====
-- class hierarchical_mutex of 3.8.hierarchical_mutex.cpp. Threads and mutexes go by number; the
-- thread_local value is a function of the thread, and std::mutex is the thread that holds it.
use sundries.Prelude.{ℕ, Bool, true, false, Option, none, some, if◌then◌else◌, leb, update}

pub record Mutex : Type 0 where
  pub owner : Option ℕ
  pub hierarchy_value : ℕ
  pub previous_hierarchy_value : ℕ

pub record World : Type 0 where
  pub this_thread_hierarchy_value : ℕ → ℕ
  pub mutex : ℕ → Mutex

-- explicit hierarchical_mutex(unsigned long value)
unfoldable pub new_mutex : ℕ → Mutex
new_mutex value = record { owner = none; hierarchy_value = value; previous_hierarchy_value = 0 }

-- What a call comes to: it returns, throws "mutex hierarchy violated", or blocks on the std::mutex.
pub data Outcome {ℓ} (A : Type ℓ) : Type ℓ where
  returns : A → Outcome A
  violated : Outcome A
  blocks : Outcome A

-- check_for_hierarchy_violation throws where this is true.
unfoldable pub violates : ℕ → ℕ → World → Bool
violates t m w = leb (w.this_thread_hierarchy_value t) (w.mutex m).hierarchy_value

-- The std::mutex is taken, and update_hierarchy_value is done.
unfoldable pub take_mutex : ℕ → ℕ → World → World
take_mutex t m w =
    let x = w.mutex m in
    record {
      this_thread_hierarchy_value = update w.this_thread_hierarchy_value t x.hierarchy_value;
      mutex =
          update w.mutex m (record x {
            owner = some t;
            previous_hierarchy_value = w.this_thread_hierarchy_value t;
          });
    }

abbrev is_free : Option ℕ → Bool
is_free none = true
is_free (some t) = false

unfoldable pub lock : ℕ → ℕ → World → Outcome World
unfolding violates take_mutex
lock t m w =
    if violates t m w
    then violated
    else if is_free (w.mutex m).owner
    then returns (take_mutex t m w)
    else blocks

unfoldable pub trylock : ℕ → ℕ → World → Outcome (Bool × World)
unfolding violates take_mutex
trylock t m w =
    if violates t m w
    then violated
    else if is_free (w.mutex m).owner
    then returns (true, take_mutex t m w)
    else returns (false, w)

-- The caller must hold the std::mutex: otherwise its unlock is undefined.
unfoldable pub unlock : ℕ → ℕ → World → World
unlock t m w =
    let x = w.mutex m in
    record {
      this_thread_hierarchy_value =
          update w.this_thread_hierarchy_value t x.previous_hierarchy_value;
      mutex = update w.mutex m (record x { owner = none });
    }
