-- ===== src/Parallel/Accumulate.antt =====
-- std::accumulate, and accumulate_block of 8.4.parallel_accumulate.cpp.
use sundries.Prelude.{
  ℕ, ◌≤◌, ◌≡◌, refl, sym, ap, ◌∙◌, Option, some, List, [], ◌∷◌, ◌++◌, length, ◌>>=◌, arith,
}
use sundries.Parallel.Range.{
  Adds, range, range_all, range_all, range_append, range_empty, range_total,
}

module _ {ℓ} {T : Type ℓ} (a : Adds T) where
  abbrev pub accumulate : List T → T → T
  accumulate [] init = init
  accumulate (x ∷ xs) init = accumulate xs (a.plus init x)

  unfoldable pub accumulate_range : ℕ → ℕ → List T → T → Option T
  accumulate_range first last values init =
      range first last values >>= λ xs. some (accumulate xs init)

  unfoldable pub accumulate_block : List T → ℕ → ℕ → Option T
  unfolding accumulate_range
  accumulate_block values first last = accumulate_range first last values a.default_value

  pub accumulate-plus :
      (xs : List T) (s t : T) → accumulate xs (a.plus s t) ≡ a.plus s (accumulate xs t)
  accumulate-plus [] s t = refl
  accumulate-plus (x ∷ xs) s t = rw (a.plus_assoc s t x) (accumulate-plus xs s (a.plus t x))

  pub accumulate-append :
      (xs ys : List T) (s : T) → accumulate (xs ++ ys) s ≡ accumulate ys (accumulate xs s)
  accumulate-append [] ys s = refl
  accumulate-append (x ∷ xs) ys s = accumulate-append xs ys (a.plus s x)

  pub plus-accumulate :
      (xs : List T) (s : T) → a.plus s (accumulate xs a.default_value) ≡ accumulate xs s
  plus-accumulate xs s =
      sym (accumulate-plus xs s a.default_value) ∙ ap (accumulate xs) (a.plus_default s)

  -- A range that a walk is defined on, cut in two.
  accumulate_range_cut :
      (values : List T) (first mid last : ℕ) (init : T)
      → first ≤ mid
      → mid ≤ last
      → last ≤ length values
      → accumulate_range first last values init
        ≡ (accumulate_range first mid values init >>= λ s. accumulate_range mid last values s)
  unfolding accumulate_range
  accumulate_range_cut values first mid last init p q r =
      let (xs, e) = range_total first mid values p (omega arith) in
      let (ys, f) = range_total mid last values q r in
      rw e (
        rw f (
          rw (range_append first mid last values xs ys e f)
            (ap some (accumulate-append xs ys init))))

  -- What a block adds to what came before it.
  pub block_adds :
      (values : List T) (first last : ℕ) (s : T)
      → first ≤ last
      → last ≤ length values
      → (t : T) × (accumulate_block values first last ≡ some t)
        × (accumulate_range first last values s ≡ some (a.plus s t))
  unfolding accumulate_block accumulate_range
  block_adds values first last s p q =
      let (xs, e) = range_total first last values p q in
      (accumulate xs a.default_value, rw e refl, rw e (ap some (sym (plus-accumulate xs s))))

  pub accumulate_range_empty :
      (values : List T) (first last : ℕ) (s : T)
      → last ≡ first
      → first ≤ length values
      → accumulate_range first last values s ≡ some s
  unfolding accumulate_range
  accumulate_range_empty values first last s e p = rw e (rw (range_empty first values p) refl)

  pub accumulate_range_all :
      (values : List T) (s : T)
      → accumulate_range 0 (length values) values s ≡ some (accumulate values s)
  unfolding accumulate_range
  accumulate_range_all values s = rw (range_all values) refl

  pub accumulate_none :
      (values : List T) (init : T) → length values ≡ 0 → init ≡ accumulate values init
  accumulate_none [] init e = refl
  accumulate_none (x ∷ xs) init e = absurd (omega arith)

  pub accumulate_range_join :
      (values : List T) (first mid last : ℕ) (init s : T) (o : Option T)
      → first ≤ mid
      → mid ≤ last
      → last ≤ length values
      → accumulate_range first mid values init ≡ some s
      → accumulate_range mid last values s ≡ o
      → accumulate_range first last values init ≡ o
  accumulate_range_join values first mid last init s o p q r c d =
      accumulate_range_cut values first mid last init p q r
      ∙ ap (λ t. t >>= accumulate_range mid last values) c
      ∙ d
