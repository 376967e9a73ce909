-- ===== src/StateMachine/GraphWalk.antt =====
-- Walks along timeouts through dangerous states, and states from which none comes back.
use codon.Prelude.{
  ℕ, ◌<◌, ◌≤◌, ◌≡◌, sym, subst, ◌⊎◌, inl, inr, Bool, true, false, Option, some, arith,
}

-- Of `n` states, which are dangerous, and where the timeout of each leads.
module _ (n : ℕ) (dangerous : ℕ → Bool) (next : ℕ → Option ℕ) where
  -- One or more timeouts lead from the first to the second, through dangerous states only.
  pub data Walk : ℕ → ℕ → Type 0 where
    one : {k i : ℕ} → dangerous k ≡ true → next k ≡ some i → Walk k i
    more : {k j i : ℕ} → Walk k j → dangerous j ≡ true → next j ≡ some i → Walk k i

  -- Timeouts lead out of the dangerous states in the end.
  pub data Safe : ℕ → Type 0 where
    benign : {k : ℕ} → dangerous k ≡ false → Safe k
    leave : {k j : ℕ} → next k ≡ some j → n ≤ j → Safe k
    step : {k j : ℕ} → next k ≡ some j → Safe j → Safe k

  pub Walk-start : {k i : ℕ} → Walk k i → dangerous k ≡ true
  Walk-start (one d e) = d
  Walk-start (more w d e) = Walk-start w

  Walk-next : {k i : ℕ} → Walk k i → (j : ℕ) × (next k ≡ some j)
  Walk-next {k} {i} (one d e) = (i, e)
  Walk-next (more w d e) = Walk-next w

  Walk-tail : {k i j : ℕ} → Walk k i → next k ≡ some j → (j ≡ i) ⊎ Walk j i
  Walk-tail (one d e) h = inl (ground (arith, e, h))
  Walk-tail (more w d e) h = elim (Walk-tail w h) [
    | inl same ↦ inr (one (ground (arith, same, d)) (ground (arith, same, e)))
    | inr rest ↦ inr (more rest d e)
  ]

  pub Safe-acyclic : ((k j : ℕ) → next k ≡ some j → k < n) → {k : ℕ} → Safe k → Walk k k → ⊥
  Safe-acyclic inside (benign d) w = ground (arith, d, Walk-start w)
  Safe-acyclic inside (leave {j} e out) w = elim (Walk-tail w e) [
    | inl same ↦ ground (arith, inside _ _ e, out, same)
    | inr rest ↦ let (i, e') = Walk-next rest in ground (arith, inside _ _ e', out)
  ]
  Safe-acyclic inside (step {j} e s) w = elim (Walk-tail w e) [
    | inl same ↦ Safe-acyclic inside s (subst (λ x. Walk x x) (sym same) w)
    | inr rest ↦ Safe-acyclic inside s (more rest (Walk-start w) e)
  ]
