-- ===== src/LockFreeStack/Empty.antt =====
-- A pop that finds the stack empty while another is under way.
use sundries.Prelude.{
  ℕ, ◌≡◌, ◌≢◌, refl, Bool-cases, ==_iff, inl, inr, none, some, [], ◌∷◌, ◌==◌, get_elem?, set,
  get_elem?-set_self,
}
use sundries.LockFreeStack.Memory.{null_pointer}
use sundries.LockFreeStack.Threads.{looks, checks, chains, System, moves, run}

module _ {ℓ} {T : Type ℓ} where
  -- If a thread in pop has seen that the stack is empty, and _threads_in_pop is not 1 when it tests
  -- it, then chain_pending_nodes follows a null pointer.
  pub empty_pop_crashes :
      (s : System T) (i : ℕ)
      → get_elem? s.threads i ≡ some (looks none)
      → s.memory.threads_in_pop ≢ 1
      → run ((i, moves) ∷ (i, moves) ∷ (i, moves) ∷ []) s ≡ null_pointer
  unfolding run
  empty_pop_crashes s i e h = elim (Bool-cases (s.memory.threads_in_pop == 1)) [
    | inl f ↦ absurd (h ((==_iff s.memory.threads_in_pop 1).0 f))
    | inr f ↦
        let a = set s.threads i (checks none none) in
        let g = get_elem?-set_self s.threads i (checks none none) e in
        let k = get_elem?-set_self a i (chains none none) g in rw e (rw g (rw f (rw k refl)))
  ]
