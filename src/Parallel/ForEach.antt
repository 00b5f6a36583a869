-- ===== src/Parallel/ForEach.antt =====
-- parallel_for_each of 8.7.parallel_for_each.cpp, whose function changes the value that it is given.
-- The threads visit positions of the container, and their visits interleave.
use Prim.Native.Nat.{◌/◌}
use sundries.Prelude.{
  ℕ, zero, suc, ◌+◌, ◌-◌, ◌*◌, ◌^◌, ◌≤◌, ◌<◌, ◌≡◌, refl, sym, ap, ◌∙◌, Bool-cases, ==_iff, inl, inr,
  Option, none, some, List, [], ◌∷◌, ◌++◌, length, get_elem?, count_if, if◌then◌else◌, ◌==◌, leb,
  ltb, arith,
}
use mathlib.Core.Option
use mathlib.Core.List.{map}
use sundries.Parallel.Threads.{
  unsigned_long, unsigned_small, num_threads, num_threads_pos, pos_test, blocks_fit, next_block,
  middle_le,
}

-- The positions of a block, and how many there are.
abbrev pub positions : ℕ → ℕ → List ℕ
positions start zero = []
positions start (suc k) = start ∷ positions (suc start) k

-- The visits of the threads, and then of this thread.
unfoldable pub visits : ℕ → ℕ → ℕ → ℕ → List ℕ
visits zero block_size block_start len = positions block_start (len - block_start)
visits (suc n) block_size block_start len =
    positions block_start block_size ++ visits n block_size (block_start + block_size) len

-- A division by zero is undefined.
unfoldable pub parallel_for_each : ℕ → ℕ → Option (List ℕ)
unfolding visits
parallel_for_each hardware_threads distance =
    let len = unsigned_long distance in
    let n = num_threads hardware_threads len in
    if len == 0
    then some []
    else if n == 0
    then none
    else some (visits (n - 1) (len / n) 0 distance)

positions-append :
    (start j k m n : ℕ)
    → m ≡ start + j
    → n ≡ j + k
    → positions start j ++ positions m k ≡ positions start n
positions-append start zero k m n p q =
    let e : m ≡ start = omega (arith, p) in let f : n ≡ k = omega (arith, q) in rw (e, f) refl
positions-append start (suc j) k m n p q =
    let e : n ≡ suc (j + k) = omega (arith, q) in
    let rest = positions-append (suc start) j k m (j + k) (omega (arith, p)) refl in
    rw e (ap (λ xs. start ∷ xs) rest)

visits_lem :
    (n block_size start len : ℕ)
    → start + n * block_size ≤ len
    → visits n block_size start len ≡ positions start (len - start)
unfolding visits
visits_lem zero block_size start len p = refl
visits_lem (suc n) block_size start len p =
    let middle = start + block_size in
    let q : middle + n * block_size ≤ len =
      omega (arith, p, next_block n block_size start _ refl) in
    let m : middle ≤ len = omega (arith, q, middle_le n block_size middle _ refl) in
    rw (visits_lem n block_size middle len q) (
      positions-append start block_size (len - middle) middle (len - start) refl (omega (arith, m)))

abbrev is_one : ℕ → ℕ → ℕ
is_one j i = if i == j then 1 else 0

count_positions :
    (start k j : ℕ)
    → count_if (is_one j) (positions start k)
      ≡ (if leb start j then (if ltb j (start + k) then 1 else 0) else 0)
count_positions start zero j = ground arith
count_positions start (suc k) j = ground (arith, count_positions (suc start) k j)

all_visits :
    (n block_size len : ℕ) → n * block_size ≤ len → visits n block_size 0 len ≡ positions 0 len
all_visits n block_size len p =
    let d : len - 0 ≡ len = omega arith in
    visits_lem n block_size 0 len (omega (arith, p)) ∙ ap (positions 0) d

once :
    (schedule : List ℕ) (len j : ℕ)
    → ((w : ℕ → ℕ) → count_if w schedule ≡ count_if w (positions 0 len))
    → count_if (is_one j) schedule ≡ (if ltb j len then 1 else 0)
once schedule len j h = h (is_one j) ∙ count_positions 0 len j ∙ ground arith

for_each-positions :
    (hardware_threads len : ℕ)
    → len + 24 < 2 ^ 32
    → parallel_for_each hardware_threads len ≡ some (positions 0 len)
unfolding parallel_for_each
for_each-positions hardware_threads len p =
    let n = num_threads hardware_threads len in
    rw (unsigned_small len p) (elim (Bool-cases (len == 0)) [
      | inl e ↦ let d : len ≡ 0 = (==_iff len 0).0 e in rw e (rw d refl)
      | inr e ↦
          let pos = num_threads_pos hardware_threads len (ground arith) p in
          rw e (rw (pos_test n pos) (ap some (all_visits (n - 1) (len / n) len (blocks_fit n len))))
    ])

module _ {ℓ} {A : Type ℓ} (f : A → A) where
  -- f(*it)
  abbrev pub visit : List A → ℕ → List A
  visit [] i = []
  visit (x ∷ xs) zero = f x ∷ xs
  visit (x ∷ xs) (suc i) = x ∷ visit xs i

  abbrev pub visit_all : List ℕ → List A → List A
  visit_all [] values = values
  visit_all (i ∷ is) values = visit_all is (visit values i)

  abbrev times : ℕ → Option A → Option A
  times zero o = o
  times (suc n) o = times n (Option.map f o)

  times-add : (m n k : ℕ) (o : Option A) → k ≡ m + n → times n (times m o) ≡ times k o
  times-add zero n k o e = let d : k ≡ n = omega (arith, e) in rw d refl
  times-add (suc m) n k o e =
      let d : k ≡ suc (m + n) = omega (arith, e) in
      rw d (times-add m n (m + n) (Option.map f o) refl)

  times-none : (n : ℕ) → times n none ≡ none
  times-none zero = refl
  times-none (suc n) = times-none n

  get-visit :
      (xs : List A) (i j : ℕ) → get_elem? (visit xs i) j ≡ times (is_one j i) (get_elem? xs j)
  get-visit [] i j = sym (times-none (is_one j i))
  get-visit (x ∷ xs) zero zero = refl
  get-visit (x ∷ xs) zero (suc j) = ground arith
  get-visit (x ∷ xs) (suc i) zero = ground arith
  get-visit (x ∷ xs) (suc i) (suc j) = ground (arith, get-visit xs i j)

  get-visit_all :
      (is : List ℕ) (xs : List A) (j : ℕ)
      → get_elem? (visit_all is xs) j ≡ times (count_if (is_one j) is) (get_elem? xs j)
  get-visit_all [] xs j = refl
  get-visit_all (i ∷ is) xs j =
      get-visit_all is (visit xs i) j
      ∙ ap (times (count_if (is_one j) is)) (get-visit xs i j)
      ∙ times-add (is_one j i) (count_if (is_one j) is) _ (get_elem? xs j) refl

  get-map : (xs : List A) (j : ℕ) → get_elem? (map f xs) j ≡ Option.map f (get_elem? xs j)
  get-map [] j = refl
  get-map (x ∷ xs) zero = refl
  get-map (x ∷ xs) (suc j) = get-map xs j

  get_past : (xs : List A) (j : ℕ) → length xs ≤ j → get_elem? xs j ≡ none
  get_past [] j p = refl
  get_past (x ∷ xs) zero p = absurd (omega arith)
  get_past (x ∷ xs) (suc j) p = get_past xs j (omega arith)

  same_elements : (xs ys : List A) → ((j : ℕ) → get_elem? xs j ≡ get_elem? ys j) → xs ≡ ys
  same_elements [] [] h = refl
  same_elements [] (y ∷ ys) h = ground (arith, h 0)
  same_elements (x ∷ xs) [] h = ground (arith, h 0)
  same_elements (x ∷ xs) (y ∷ ys) h =
      let heads : x ≡ y = ground (arith, h 0) in
      let tails = same_elements xs ys λ j. h (suc j) in rw heads (ap (λ zs. y ∷ zs) tails)

  visited_once :
      (n : ℕ) (xs : List A) (j : ℕ)
      → n ≡ (if ltb j (length xs) then 1 else 0)
      → times n (get_elem? xs j) ≡ Option.map f (get_elem? xs j)
  visited_once n xs j e = elim (Bool-cases (ltb j (length xs))) [
    | inl p ↦ let d : n ≡ 1 = ground (arith, e, p) in rw d refl
    | inr p ↦
        let d : n ≡ 0 = ground (arith, e, p) in
        let past = get_past xs j (ground (arith, p)) in rw d (rw past refl)
  ]

  -- Threads start once for every position of the container, whatever the number of hardware threads;
  -- and in whatever order the visits of these positions come, each value is changed once by the
  -- function: for a length at which the number of threads does not overflow.
  pub parallel_for_each-map :
      (hardware_threads : ℕ) (values : List A) (schedule : List ℕ)
      → length values + 24 < 2 ^ 32
      → ((w : ℕ → ℕ) → count_if w schedule ≡ count_if w (positions 0 (length values)))
      → (parallel_for_each hardware_threads (length values) ≡ some (positions 0 (length values)))
        × (visit_all schedule values ≡ map f values)
  parallel_for_each-map hardware_threads values schedule p h = (
    for_each-positions hardware_threads (length values) p,
    same_elements (visit_all schedule values) (map f values) λ j.
        get-visit_all schedule values j
        ∙ visited_once _ values j (once schedule (length values) j h)
        ∙ sym (get-map values j),
  )
