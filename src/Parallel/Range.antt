-- ===== src/Parallel/Range.antt =====
-- Iterators into a container, as positions in a list, and std::accumulate over a range.
use sundries.Prelude.{
  ℕ, zero, suc, ◌≤◌, ◌<◌, ◌≡◌, refl, Option, none, some, List, [], ◌∷◌, ◌++◌, length, Option-cases,
  inl, inr, arith,
}

-- What a program relies on of operator+ and of T(). `accumulate` is std::accumulate.
pub record Adds {ℓ} (T : Type ℓ) : Type ℓ where
  pub plus : T → T → T
  pub default_value : T
  pub plus_assoc : (a b c : T) → plus (plus a b) c ≡ plus a (plus b c)
  pub plus_default : (a : T) → plus a default_value ≡ a

module _ {ℓ} {A : Type ℓ} where
  abbrev cons_to : A → Option (List A) → Option (List A)
  cons_to x none = none
  cons_to x (some xs) = some (x ∷ xs)

  -- The elements from `first` up to `last`. `none`: `last` is not reached from `first`, and a walk
  -- over them is undefined.
  unfoldable pub range : ℕ → ℕ → List A → Option (List A)
  range zero zero xs = some []
  range zero (suc last) [] = none
  range zero (suc last) (x ∷ xs) = cons_to x (range zero last xs)
  range (suc first) zero xs = none
  range (suc first) (suc last) [] = none
  range (suc first) (suc last) (x ∷ xs) = range first last xs

  pub range_all : (xs : List A) → range zero (length xs) xs ≡ some xs
  unfolding range
  range_all [] = refl
  range_all (x ∷ xs) = simp (range_all xs)

  -- A range that ends before it begins.
  pub range_reversed : (first last : ℕ) (xs : List A) → last < first → range first last xs ≡ none
  unfolding range
  range_reversed zero last xs h = absurd (omega arith)
  range_reversed (suc first) zero xs h = refl
  range_reversed (suc first) (suc last) [] h = refl
  range_reversed (suc first) (suc last) (x ∷ xs) h = range_reversed first last xs (omega arith)

  pub range_total :
      (first last : ℕ) (xs : List A)
      → first ≤ last
      → last ≤ length xs
      → (ys : List A) × (range first last xs ≡ some ys)
  unfolding range
  range_total zero zero xs h k = ([], refl)
  range_total zero (suc last) [] h k = absurd (omega arith)
  range_total zero (suc last) (x ∷ xs) h k =
      let (ys, e) = range_total zero last xs (omega arith) (omega arith) in (x ∷ ys, simp e)
  range_total (suc first) zero xs h k = absurd (omega arith)
  range_total (suc first) (suc last) [] h k = absurd (omega arith)
  range_total (suc first) (suc last) (x ∷ xs) h k =
      range_total first last xs (omega arith) (omega arith)

  pub range_append :
      (first mid last : ℕ) (xs ys zs : List A)
      → range first mid xs ≡ some ys
      → range mid last xs ≡ some zs
      → range first last xs ≡ some (ys ++ zs)
  unfolding range
  range_append zero zero last xs ys zs p q = ground arith
  range_append zero (suc mid) zero xs ys zs p q = ground arith
  range_append zero (suc mid) (suc last) [] ys zs p q = ground arith
  range_append zero (suc mid) (suc last) (x ∷ xs) ys zs p q =
      elim (Option-cases (range zero mid xs)) [
        | inl e ↦ ground arith
        | inr (ys', e) ↦ ground (arith, range_append zero mid last xs ys' zs e q)
      ]
  range_append (suc first) zero last xs ys zs p q = ground arith
  range_append (suc first) (suc mid) zero xs ys zs p q = ground arith
  range_append (suc first) (suc mid) (suc last) [] ys zs p q = ground arith
  range_append (suc first) (suc mid) (suc last) (x ∷ xs) ys zs p q =
      range_append first mid last xs ys zs p q

  pub range_empty : (first : ℕ) (xs : List A) → first ≤ length xs → range first first xs ≡ some []
  unfolding range
  range_empty zero xs p = refl
  range_empty (suc first) [] p = absurd (omega arith)
  range_empty (suc first) (x ∷ xs) p = range_empty first xs (omega arith)
