-- ===== src/Prelude/Lists.antt =====
-- Lists measured by native numbers, under the library's names.
use Prim.Native.Nat.{ℕ, zero, suc, ◌+◌, ◌≤◌, ◌<◌}
use sundries.Prelude.Tests.{if◌then◌else◌, ◌==◌}
use mathlib.Core.Path.{◌≡◌, refl}
use mathlib.Core.List.{List, [], ◌∷◌, ◌++◌}
use mathlib.Core.Option.{Option, none, some}
use native.Mathlib.Omega.{arith}

module _ {ℓ} {A : Type ℓ} where
  abbrev pub length : List A → ℕ
  length [] = 0
  length (x ∷ xs) = suc (length xs)

  abbrev pub get_elem? : List A → ℕ → Option A
  get_elem? [] i = none
  get_elem? (x ∷ xs) zero = some x
  get_elem? (x ∷ xs) (suc i) = get_elem? xs i

  -- A write out of bounds changes nothing.
  abbrev pub set : List A → ℕ → A → List A
  set [] i v = []
  set (x ∷ xs) zero v = v ∷ xs
  set (x ∷ xs) (suc i) v = x ∷ set xs i v

  abbrev pub replicate : ℕ → A → List A
  replicate zero a = []
  replicate (suc n) a = a ∷ replicate n a

  pub length-append : (xs ys : List A) → length (xs ++ ys) ≡ length xs + length ys
  length-append [] ys = omega arith
  length-append (x ∷ xs) ys = omega (arith, length-append xs ys)

  -- How many entries a test accepts.
  abbrev pub count_if : (A → ℕ) → List A → ℕ
  count_if w [] = 0
  count_if w (x ∷ xs) = w x + count_if w xs

  pub count_if-append :
      (w : A → ℕ) (xs ys : List A) → count_if w (xs ++ ys) ≡ count_if w xs + count_if w ys
  count_if-append w [] ys = omega arith
  count_if-append w (x ∷ xs) ys = omega (arith, count_if-append w xs ys)

  pub count_if-le :
      (w v : A → ℕ) → ((x : A) → w x ≤ v x) → (xs : List A) → count_if w xs ≤ count_if v xs
  count_if-le w v h [] = omega arith
  count_if-le w v h (x ∷ xs) = omega (arith, h x, count_if-le w v h xs)

  pub count_if-le-length :
      (w : A → ℕ) → ((x : A) → w x ≤ 1) → (xs : List A) → count_if w xs ≤ length xs
  count_if-le-length w h [] = omega arith
  count_if-le-length w h (x ∷ xs) = omega (arith, h x, count_if-le-length w h xs)

  -- All entries but one.
  abbrev pub without : ℕ → List A → List A
  without i [] = []
  without zero (x ∷ xs) = xs
  without (suc i) (x ∷ xs) = x ∷ without i xs

  pub count_if-without :
      (w : A → ℕ) (xs : List A) (i : ℕ) {v : A}
      → get_elem? xs i ≡ some v
      → count_if w xs ≡ w v + count_if w (without i xs)
  count_if-without w [] i h = absurd (cc h)
  count_if-without w (x ∷ xs) zero h = ground arith
  count_if-without w (x ∷ xs) (suc i) h = omega (arith, count_if-without w xs i h)

  pub count_if-set :
      (w : A → ℕ) (xs : List A) (i : ℕ) (u : A) {v : A}
      → get_elem? xs i ≡ some v
      → count_if w (set xs i u) ≡ w u + count_if w (without i xs)
  count_if-set w [] i u h = absurd (cc h)
  count_if-set w (x ∷ xs) zero u h = refl
  count_if-set w (x ∷ xs) (suc i) u h = omega (arith, count_if-set w xs i u h)

  pub length-without :
      (xs : List A) (i : ℕ) {v : A}
      → get_elem? xs i ≡ some v
      → length xs ≡ suc (length (without i xs))
  length-without [] i h = absurd (cc h)
  length-without (x ∷ xs) zero h = refl
  length-without (x ∷ xs) (suc i) h = omega (arith, length-without xs i h)

  pub length-set : (xs : List A) (i : ℕ) (v : A) → length (set xs i v) ≡ length xs
  length-set [] i v = omega arith
  length-set (x ∷ xs) zero v = omega arith
  length-set (x ∷ xs) (suc i) v = omega (arith, length-set xs i v)

  pub get_elem?-set :
      (xs : List A) (i j : ℕ) (v : A)
      → i < length xs
      → get_elem? (set xs i v) j ≡ (if i == j then some v else get_elem? xs j)
  get_elem?-set [] i j v h = absurd (omega arith)
  get_elem?-set (x ∷ xs) zero zero v h = refl
  get_elem?-set (x ∷ xs) zero (suc j) v h = ground arith
  get_elem?-set (x ∷ xs) (suc i) zero v h = ground arith
  get_elem?-set (x ∷ xs) (suc i) (suc j) v h = ground (arith, get_elem?-set xs i j v)

  pub get_elem?-set_self :
      (xs : List A) (i : ℕ) (u : A) {v : A}
      → get_elem? xs i ≡ some v
      → get_elem? (set xs i u) i ≡ some u
  get_elem?-set_self [] i u h = absurd (cc h)
  get_elem?-set_self (x ∷ xs) zero u h = refl
  get_elem?-set_self (x ∷ xs) (suc i) u h = get_elem?-set_self xs i u h

  pub get_elem?-lt : (xs : List A) (i : ℕ) → i < length xs → (v : A) × (get_elem? xs i ≡ some v)
  get_elem?-lt [] i h = absurd (omega arith)
  get_elem?-lt (x ∷ xs) zero h = (x, refl)
  get_elem?-lt (x ∷ xs) (suc i) h = get_elem?-lt xs i (omega arith)

  pub length-replicate : (n : ℕ) (a : A) → length (replicate n a) ≡ n
  length-replicate zero a = omega arith
  length-replicate (suc n) a = omega (arith, length-replicate n a)

  pub get_elem?-replicate : (n i : ℕ) (a : A) {v : A} → get_elem? (replicate n a) i ≡ some v → v ≡ a
  get_elem?-replicate zero i a h = absurd (cc h)
  get_elem?-replicate (suc n) zero a h = cc h
  get_elem?-replicate (suc n) (suc i) a h = get_elem?-replicate n i a h

  pub count_if-replicate : (w : A → ℕ) (n : ℕ) (x : A) → w x ≡ 0 → count_if w (replicate n x) ≡ 0
  count_if-replicate w zero x h = refl
  count_if-replicate w (suc n) x h = omega (arith, h, count_if-replicate w n x h)
