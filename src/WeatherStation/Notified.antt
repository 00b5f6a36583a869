-- ===== src/WeatherStation/Notified.antt =====
-- What setMeasurements does to each display.
use sundries.Prelude.{
  ℕ, suc, zero, ◌+◌, ◌<◌, ◌≡◌, refl, sym, ap, ◌∙◌, Bool, true, false, Option, none, some, List, [],
  ◌∷◌, ◌++◌, if◌then◌else◌, ◌==◌, ==_iff, ◌>>=◌, get_elem?, set, get_elem?-set, length, count_if,
  arith,
}
use sundries.WeatherStation.Displays.{Floats, Display, update, display}
use sundries.WeatherStation.Subject.{same_pointer, Station, update_at, notify, set_measurements}

-- How often the display at `a` is registered.
abbrev pub times : ℕ → List (Option ℕ) → ℕ
times a os = count_if (λ o. if same_pointer o (some a) then 1 else 0) os

length-of_get {ℓ} :
    {B : Type ℓ} (xs : List B) (i : ℕ) (v : B) → get_elem? xs i ≡ some v → i < length xs
length-of_get [] i v h = absurd (cc h)
length-of_get (x ∷ xs) zero v h = omega arith
length-of_get (x ∷ xs) (suc i) v h = omega (arith, length-of_get xs i v h)

module _ {ℓ} {A : Type ℓ} where
  same_display : (e d : A) → some (some e) ≡ some (some d) → e ≡ d
  same_display e d h = cc h

  pick :
      (c : Bool) (o : Option (Option A)) (e d : A) (f : A → A)
      → (c ≡ true → e ≡ d)
      → o ≡ some (some d)
      → (if c then some (some (f e)) else o) ≡ some (some (if c then f d else d))
  pick true o e d f h k = ap (λ x. some (some (f x))) (h refl)
  pick false o e d f h k = k

  -- A display changed by `f` at one place, seen from another.
  set_changed :
      (ds : List (Option A)) (b a : ℕ) (e d : A) (f : A → A)
      → get_elem? ds b ≡ some (some e)
      → get_elem? ds a ≡ some (some d)
      → get_elem? (set ds b (some (f e))) a ≡ some (some (if b == a then f d else d))
  set_changed ds b a e d f h k =
      get_elem?-set ds b a (some (f e)) (length-of_get ds b (some e) h)
      ∙ pick (b == a) (get_elem? ds a) e d f
          (λ q. same_display e d (sym h ∙ (ap (get_elem? ds) ((==_iff b a).0 q) ∙ k))) k

module _ {ℓ} (N : Floats {ℓ}) where
  abbrev pub updated : N.float → N.float → N.float → ℕ → Display N → Display N
  updated t h p zero d = d
  updated t h p (suc k) d = updated t h p k (update N t h p d)

  -- Every registered display, as of its null pointers there is nothing to say.
  abbrev pub AllAlive : List (Option ℕ) → List (Option (Display N)) → Type ℓ
  AllAlive [] ds = Unit
  AllAlive (none ∷ os) ds = AllAlive os ds
  AllAlive (some a ∷ os) ds = ((d : Display N) × (get_elem? ds a ≡ some (some d))) × AllAlive os ds

  still-AllAlive :
      (os : List (Option ℕ)) (ds : List (Option (Display N))) (b : ℕ) (e : Display N)
      (f : Display N → Display N)
      → get_elem? ds b ≡ some (some e)
      → AllAlive os ds
      → AllAlive os (set ds b (some (f e)))
  still-AllAlive [] ds b e f h al = tt
  still-AllAlive (none ∷ os) ds b e f h al = still-AllAlive os ds b e f h al
  still-AllAlive (some a ∷ os) ds b e f h ((d, k), al) =
      ((if b == a then f d else d, set_changed ds b a e d f h k), still-AllAlive os ds b e f h al)

  updated-one :
      (t h p : N.float) (c : Bool) (k : ℕ) (d : Display N)
      → updated t h p k (if c then update N t h p d else d)
        ≡ updated t h p ((if c then 1 else 0) + k) d
  updated-one t h p true k d = let e : suc k ≡ 1 + k = omega arith in ap (λ n. updated t h p n d) e
  updated-one t h p false k d = let e : k ≡ 0 + k = omega arith in ap (λ n. updated t h p n d) e

  abbrev pub AllUpdated :
      N.float → N.float → N.float → List (Option ℕ) → Station N → Station N → Type ℓ
  AllUpdated t h p os w w' =
      (a : ℕ) (d : Display N)
      → get_elem? w.displays a ≡ some (some d)
      → get_elem? w'.displays a ≡ some (some (updated t h p (times a os) d))

  notify-AllUpdated :
      (os : List (Option ℕ)) (w : Station N)
      → AllAlive os w.displays
      → (w' : Station N) × (notify N os w ≡ some w')
        × AllUpdated w.subject.temperature w.subject.humidity w.subject.pressure os w w'
  notify-AllUpdated [] w al = (w, refl, λ a d h. h)
  notify-AllUpdated (none ∷ os) w al =
      let (w', q, g) = notify-AllUpdated os w al in
      (
        w',
        q,
        λ a d h.
            g a d h
            ∙ ap (λ x. some (some x))
                (updated-one w.subject.temperature w.subject.humidity w.subject.pressure false
                  (times a os) d),
      )
  notify-AllUpdated (some b ∷ os) w ((e, k), al) =
      let f = update N w.subject.temperature w.subject.humidity w.subject.pressure in
      let v = record w {
        displays = set w.displays b (some (f e));
        printed = w.printed ++ display N (f e) ∷ [];
      } in
      let (w', q, g) = notify-AllUpdated os v (still-AllAlive os w.displays b e f k al) in
      (
        w',
        ap (λ o. update_at N b o w >>= notify N os) k ∙ q,
        λ a d h.
            g a (if b == a then f d else d) (set_changed w.displays b a e d f k h)
            ∙ ap (λ x. some (some x))
                (updated-one w.subject.temperature w.subject.humidity w.subject.pressure (b == a)
                  (times a os) d),
      )

  -- If none of the registered displays was destroyed: setMeasurements goes on to its end, and each
  -- display that there is has been updated with the three measurements, as often as it is registered.
  pub set_measurements-updated :
      (t h p : N.float) (w : Station N)
      → AllAlive w.subject.observers w.displays
      → (w' : Station N) × (set_measurements N t h p w ≡ some w')
        × AllUpdated t h p w.subject.observers w w'
  unfolding set_measurements
  set_measurements-updated t h p w al =
      notify-AllUpdated w.subject.observers
        (record w { subject = record w.subject { temperature = t; humidity = h; pressure = p } }) al
