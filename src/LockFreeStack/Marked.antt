-- ===== src/LockFreeStack/Marked.antt =====
-- What a step of a run marks, what it does to the values, and where it leaves the threads.
use sundries.Prelude.{
  ℕ, zero, suc, ◌^◌, ◌≤◌, ◌<◌, ◌≡◌, ◌≢◌, refl, sym, ap, ◌∙◌, subst, Bool-cases, ==_iff,
  Option-cases, inl, inr, Option, none, some, List, [], ◌∷◌, if◌then◌else◌, ◌==◌, count_if, without,
  get_elem?, set, length, length-set, get_elem?-set_self, arith,
}
use mathlib.Core.Option.{map}
use sundries.ThreadsafeQueue.Heap.{Node}
use sundries.LockFreeStack.Memory.{Memory, Access, ok, dangling, null_pointer, ◌>>=◌}
use sundries.LockFreeStack.Threads.{
  Pc, rests, Event, push_call, pop_call, moves, fails, System, act, step,
}
use sundries.LockFreeStack.Weights.{held}
use sundries.LockFreeStack.Invariant.{Kept}
use sundries.LockFreeStack.Steps.{act-Kept}
use sundries.LockFreeStack.Safety.{total, total-IsSum, IsSafeSystem, at_thread, back_to_system}
use sundries.LockFreeStack.Values.{Op, op_of_move, op_of_fail, op_of, values, Follows, Takes}
use sundries.LockFreeStack.Linear.{act-Takes}
use sundries.LockFreeStack.History.{
  Mark, took, begins_at, Phase, mark_of, mark_at, next_phase, op_in,
}
use sundries.LockFreeStack.Due.{IsDue, Dues, act-Dues}
use sundries.LockFreeStack.Untouched.{LeavesAlone, act-LeavesAlone, IsDue-agree}

module _ {ℓ} {T : Type ℓ} where
  op_in-took : (o : Option (Op T)) → op_in (map took o) ≡ o
  op_in-took none = refl
  op_in-took (some op) = refl

  op_in-begins : (v : T) (o : Option (Node T)) → op_in (begins_at v o) ≡ none
  op_in-begins v none = refl
  op_in-begins v (some n) = refl

  -- What a move marks is the operation that it is.
  op_in-mark_of : (e : Event T) (p : Pc T) (m : Memory T) → op_in (mark_of e p m) ≡ op_of e p m
  op_in-mark_of (push_call v a) (rests r) m = op_in-begins v (m.cell a)
  op_in-mark_of (push_call v a) _ m = refl
  op_in-mark_of pop_call (rests r) m = refl
  op_in-mark_of pop_call _ m = refl
  op_in-mark_of moves p m = op_in-took (op_of_move p m)
  op_in-mark_of fails p m = op_in-took (op_of_fail p m)

  weight-le-count :
      (w : Pc T → ℕ) (ps : List (Pc T)) (j : ℕ) (q : Pc T)
      → get_elem? ps j ≡ some q
      → w q ≤ count_if w ps
  weight-le-count w [] j q e = absurd (cc e)
  weight-le-count w (p ∷ ps) zero q e = ground (arith, e)
  weight-le-count w (p ∷ ps) (suc j) q e = omega (arith, weight-le-count w ps j q e)

  -- A thread is among the others of another.
  weight-le-without :
      (w : Pc T → ℕ) (ps : List (Pc T)) (i j : ℕ) (q : Pc T)
      → get_elem? ps j ≡ some q
      → j ≢ i
      → w q ≤ count_if w (without i ps)
  weight-le-without w [] i j q e h = absurd (cc e)
  weight-le-without w (p ∷ ps) zero zero q e h = absurd (h refl)
  weight-le-without w (p ∷ ps) (suc i) zero q e h = ground (arith, e)
  weight-le-without w (p ∷ ps) zero (suc j) q e h = weight-le-count w ps j q e
  weight-le-without w (p ∷ ps) (suc i) (suc j) q e h =
      omega (arith, weight-le-without w ps i j q e (λ f. h (ap suc f)))

  get_elem?-set_ne :
      (ps : List (Pc T)) (i j : ℕ) (q : Pc T) → j ≢ i → get_elem? (set ps i q) j ≡ get_elem? ps j
  get_elem?-set_ne [] i j q h = refl
  get_elem?-set_ne (p ∷ ps) zero zero q h = absurd (h refl)
  get_elem?-set_ne (p ∷ ps) zero (suc j) q h = refl
  get_elem?-set_ne (p ∷ ps) (suc i) zero q h = refl
  get_elem?-set_ne (p ∷ ps) (suc i) (suc j) q h = get_elem?-set_ne ps i j q (λ f. h (ap suc f))

  -- Each thread is where its phase says.
  abbrev pub AllDue : (ℕ → Phase T) → System T → Type ℓ
  AllDue ph s = (j : ℕ) (q : Pc T) → get_elem? s.threads j ≡ some q → IsDue q (ph j) s.memory.cell

  -- The phases after thread `i` marked `k`.
  abbrev pub mark_phase : ℕ → Option (Mark T) → (ℕ → Phase T) → ℕ → Phase T
  mark_phase i k ph j = if j == i then next_phase k (ph j) else ph j

  abbrev pub Stepped :
      ℕ → ℕ → Option (Mark T) → (ℕ → Phase T) → List (Option T) → Access (System T) → Type ℓ
  Stepped n i k ph vs (ok s) =
      (stack : List ℕ) × (length s.threads ≡ n)
      × IsSafeSystem s stack
      × Follows (op_in k) vs (values s.memory.cell stack)
      × AllDue (mark_phase i k ph) s
  Stepped n i k ph vs dangling = Unit {ℓ}
  Stepped n i k ph vs null_pointer = Unit {ℓ}

  others-IsDue :
      (ph : ℕ → Phase T) (s : System T) (i : ℕ) (m : Memory T)
      → AllDue ph s
      → ((a : ℕ) → 0 < count_if (held a) (without i s.threads) → m.cell a ≡ s.memory.cell a)
      → (j : ℕ) (q : Pc T) → j ≢ i
      → get_elem? s.threads j ≡ some q
      → IsDue q (ph j) m.cell
  others-IsDue ph s i m due alone j q h e =
      IsDue-agree q (ph j) s.memory.cell m.cell
        (λ a k. alone a (omega (arith, k, weight-le-without (held a) s.threads i j q e h)))
        (due j q e)

  same_thread :
      (ps : List (Pc T)) (i : ℕ) (p q r : Pc T)
      → get_elem? ps i ≡ some p
      → get_elem? (set ps i q) i ≡ some r
      → q ≡ r
  same_thread ps i p q r e f = cc (get_elem?-set_self ps i q e)

  AllDue-set :
      (ph : ℕ → Phase T) (s : System T) (i : ℕ) (k : Option (Mark T)) (p q : Pc T) (m : Memory T)
      → get_elem? s.threads i ≡ some p
      → AllDue ph s
      → IsDue q (next_phase k (ph i)) m.cell
      → ((a : ℕ) → 0 < count_if (held a) (without i s.threads) → m.cell a ≡ s.memory.cell a)
      → AllDue (mark_phase i k ph) (record { memory = m; threads = set s.threads i q })
  AllDue-set ph s i k p q m e due own alone j r f = elim (Bool-cases (j == i)) [
    | inl same ↦
        let g : j ≡ i = (==_iff j i).0 same in
        let here : q ≡ r =
          same_thread s.threads i p q r e
            (subst (λ n. get_elem? (set s.threads i q) n ≡ some r) g f) in
        rw same (
          subst (λ x. IsDue x (next_phase k (ph j)) m.cell) here
            (subst (λ n. IsDue q (next_phase k (ph n)) m.cell) (sym g) own))
    | inr other ↦
        let h : j ≢ i = λ g. cc (sym other ∙ (==_iff j i).1 g) in
        rw other
          (others-IsDue ph s i m due alone j r h (sym (get_elem?-set_ne s.threads i j q h) ∙ f))
  ]

  act_at-Stepped :
      (ph : ℕ → Phase T) (s : System T) (stack : List ℕ) (i : ℕ) (e : Event T) (p : Pc T)
      → (r : Access (Pc T × Memory T)) → get_elem? s.threads i ≡ some p
      → AllDue ph s
      → Kept (total (without i s.threads)) r
      → Takes (op_of e p s.memory) s.memory stack r
      → Dues (next_phase (mark_of e p s.memory) (ph i)) r
      → LeavesAlone (total (without i s.threads)) s.memory r
      → Stepped
          (length s.threads)
          i
          (mark_of e p s.memory)
          ph
          (values s.memory.cell stack)
          (r >>= λ t. ok (record { memory = t.1; threads = set s.threads i t.0 }))
  act_at-Stepped ph s stack i e p (ok (q, m)) f due (stack', v) taken own alone = (
    stack',
    length-set s.threads i q,
    back_to_system s stack' i p q m f v,
    rw (op_in-mark_of e p s.memory) (taken stack' v.chain),
    AllDue-set ph s i (mark_of e p s.memory) p q m f due own alone,
  )
  act_at-Stepped ph s stack i e p dangling f due k taken own alone = tt
  act_at-Stepped ph s stack i e p null_pointer f due k taken own alone = tt

  unmarked :
      (ph : ℕ → Phase T) (s : System T) (i : ℕ) → AllDue ph s → AllDue (mark_phase i none ph) s
  unmarked ph s i due j q e = elim (Bool-cases (j == i)) [
    | inl h ↦ rw h (due j q e)
    | inr h ↦ rw h (due j q e)
  ]

  pub step-Stepped :
      (ph : ℕ → Phase T) (i : ℕ) (e : Event T) (s : System T) (stack : List ℕ)
      → length s.threads < 2 ^ 32
      → IsSafeSystem s stack
      → AllDue ph s
      → Stepped
          (length s.threads)
          i
          (mark_at e (get_elem? s.threads i) s.memory)
          ph
          (values s.memory.cell stack)
          (step i e s)
  unfolding step
  step-Stepped ph i e s stack h v due = elim (Option-cases (get_elem? s.threads i)) [
    | inl f ↦ rw f (stack, refl, v, refl, unmarked ph s i due)
    | inr (p, f) ↦
        let others = total (without i s.threads) in
        let sum = total-IsSum s.threads i p f h in
        let safe = at_thread s stack i p f v in
        rw f (
          act_at-Stepped ph s stack i e p (act e p s.memory) f due
            (act-Kept others sum e p s.memory stack safe)
            (act-Takes others sum e p s.memory stack safe)
            (act-Dues e p s.memory (ph i) (due i p f))
            (act-LeavesAlone others e p s.memory stack safe))
  ]
