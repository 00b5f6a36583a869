-- ===== src/WeatherStation/Extremes.antt =====
-- What a StatisticsDisplay says of the temperatures.
use sundries.Prelude.{
  ◌≡◌, refl, sym, ap, subst, ◌∙◌, Bool, true, false, Bool-cases, inl, inr, ◌⊎◌, List, [], ◌∷◌,
  if◌then◌else◌,
}
use sundries.Prelude.Int.{ℤ, pos, ◌+ℤ◌}
use sundries.WeatherStation.Displays.{
  Floats, Display, statistics, greater, less, update, new_statistics,
}

module _ {ℓ} {A : Type ℓ} where
  -- A value of a list that is not empty.
  abbrev pub Among : A → A → List A → Type ℓ
  Among m t [] = m ≡ t
  Among m t (u ∷ ts) = (m ≡ t) ⊎ Among m u ts

  Among-later : (m t u : A) (ts : List A) → Among m t ts → Among m t (u ∷ ts)
  Among-later m t u [] h = inl h
  Among-later m t u (v ∷ ts) (inl h) = inl h
  Among-later m t u (v ∷ ts) (inr h) = inr (inr h)

-- Which of two the test prefers, over a list.
module _ {ℓ} {A : Type ℓ} (before : A → A → Bool) where
  abbrev pub better : A → A → A
  better t m = if before t m then t else m

  abbrev pub best : List A → A → A
  best [] m = m
  best (t ∷ ts) m = best ts (better t m)

  -- The test prefers nothing of the list.
  abbrev pub NoneBefore : A → List A → Type 0
  NoneBefore m [] = Unit
  NoneBefore m (t ∷ ts) = (before t m ≡ false) × NoneBefore m ts

  best-Among : (ts : List A) (m : A) → Among (best ts m) m ts
  best-Among [] m = refl
  best-Among (t ∷ ts) m = elim (Bool-cases (before t m)) [
    | inl e ↦
        subst (λ x. Among (best ts x) m (t ∷ ts)) (sym (ap (λ b. if b then t else m) e))
          (inr (best-Among ts t))
    | inr e ↦
        subst (λ x. Among (best ts x) m (t ∷ ts)) (sym (ap (λ b. if b then t else m) e))
          (Among-later (best ts m) m t ts (best-Among ts m))
  ]

  module _ (irreflexive : (x : A) → before x x ≡ false)
      (transitive : (x y z : A) → before x y ≡ true → before y z ≡ true → before x z ≡ true) where
    better-keeps : (x t m : A) → before x m ≡ false → before x (better t m) ≡ false
    better-keeps x t m h = elim (Bool-cases (before t m)) [
      | inl e ↦ elim (Bool-cases (before x t)) [
        | inl f ↦ absurd (cc (sym (transitive x t m f e) ∙ h))
        | inr f ↦ rw e f
      ]
      | inr e ↦ rw e h
    ]

    best-keeps : (x : A) (ts : List A) (m : A) → before x m ≡ false → before x (best ts m) ≡ false
    best-keeps x [] m h = h
    best-keeps x (t ∷ ts) m h = best-keeps x ts (better t m) (better-keeps x t m h)

    better_self : (t m : A) → before t (better t m) ≡ false
    better_self t m = elim (Bool-cases (before t m)) [
      | inl e ↦ rw e (irreflexive t)
      | inr e ↦ rw e e
    ]

    best-NoneBefore_rest : (ts : List A) (m : A) → NoneBefore (best ts m) ts
    best-NoneBefore_rest [] m = tt
    best-NoneBefore_rest (t ∷ ts) m =
        (best-keeps t ts (better t m) (better_self t m), best-NoneBefore_rest ts (better t m))

    best-NoneBefore : (ts : List A) (m : A) → NoneBefore (best ts m) (m ∷ ts)
    best-NoneBefore ts m = (best-keeps m ts m (irreflexive m), best-NoneBefore_rest ts m)

module _ {ℓ} (N : Floats {ℓ}) where
  -- The measurements that update is called with: temperature, humidity and pressure.
  abbrev pub Measurements : Type ℓ
  Measurements = List (N.float × N.float × N.float)

  abbrev pub updates : Measurements → Display N → Display N
  updates [] d = d
  updates ((t, h, p) ∷ ms) d = updates ms (update N t h p d)

  abbrev pub temperatures : Measurements → List N.float
  temperatures [] = []
  temperatures ((t, h, p) ∷ ms) = t ∷ temperatures ms

  abbrev pub sum_from : N.float → List N.float → N.float
  sum_from s [] = s
  sum_from s (t ∷ ts) = sum_from (N.add s t) ts

  abbrev pub hotter : N.float → N.float → Bool
  hotter t m = N.lt m t

  updates-statistics :
      (ms : Measurements) (m l s : N.float) (n : ℤ)
      → (k : ℤ) × (updates ms (statistics m l s n)
          ≡ statistics
              (best hotter (temperatures ms) m)
              (best N.lt (temperatures ms) l)
              (sum_from s (temperatures ms))
              k)
  unfolding update greater less
  updates-statistics [] m l s n = (n, refl)
  updates-statistics ((t, h, p) ∷ ms) m l s n =
      updates-statistics ms (better hotter t m) (better N.lt t l) (N.add s t) (n +ℤ pos 1)

  -- A new StatisticsDisplay, after updates with any measurements: its maximum is the greatest among 0
  -- and the temperatures, and its minimum the least among 200 and the temperatures, for an operator<
  -- that is irreflexive and transitive.
  pub statistics_extremes :
      (ms : Measurements) (n : ℤ)
      → ((x : N.float) → N.lt x x ≡ false)
      → ((x y z : N.float) → N.lt x y ≡ true → N.lt y z ≡ true → N.lt x z ≡ true)
      → (m l s : N.float) × (k : ℤ) × (updates ms (new_statistics N n) ≡ statistics m l s k)
        × NoneBefore hotter m (N.zero_point ∷ temperatures ms)
        × Among m N.zero_point (temperatures ms)
        × NoneBefore N.lt l (N.two_hundred ∷ temperatures ms)
        × Among l N.two_hundred (temperatures ms)
  unfolding new_statistics
  statistics_extremes ms n irreflexive transitive =
      let ts = temperatures ms in
      let (k, e) = updates-statistics ms N.zero_point N.two_hundred N.zero_point n in
      (
        best hotter ts N.zero_point,
        best N.lt ts N.two_hundred,
        sum_from N.zero_point ts,
        k,
        e,
        best-NoneBefore hotter irreflexive (λ x y z h h'. transitive z y x h' h) ts N.zero_point,
        best-Among hotter ts N.zero_point,
        best-NoneBefore N.lt irreflexive transitive ts N.two_hundred,
        best-Among N.lt ts N.two_hundred,
      )
