-- ===== src/StateMachine/Invariant.antt =====
-- What holds of the machine's slate between two calls, and what the commands do to it.
use codon.Prelude.{ℕ, ◌<◌, ◌≤◌, ◌≡◌, refl, Bool, true, false, some, arith, ◌==◌, length}
use codon.Prelude.Int.{ℤ, ◌+ℤ◌, ◌-ℤ◌, ◌<ℤ◌, ◌≤ℤ◌, +ℤ_parts, -ℤ_parts, nano_t_max}
use codon.StateMachine.Types.{Machine, SmSlate, Platform, ignore_state, next_state}
use codon.StateMachine.Commands.{set_nominal_transition_time}

-- What the machine relies on: the no-op command alone has the no-op index, `Periodic` gives the
-- first period boundary after the given time, and state numbers stay below the two special values.
pub record Laws {W C D : Type 0} (p : Platform W C D) (m : Machine) : Type 0 where
  pub noop_index : (c : C) → (p.get_index c == p.noop_cmd_index) ≡ true → p.is_noop c ≡ true
  pub next_after : (t : ℤ) → t <ℤ p.calculate_next_time t m.transition_period
  pub next_within :
      (t : ℤ) → p.calculate_next_time t m.transition_period ≤ℤ t +ℤ m.transition_period
  pub states_fit : length m.state ≤ ignore_state

module _ {W C D : Type 0} (p : Platform W C D) (m : Machine) where
  open p use {noop_cmd_index, get_index, is_noop}

  abbrev pub is_idle : SmSlate D → Bool
  is_idle s = s.pending_cmd_index == noop_cmd_index

  -- The pending command leads to a real state.
  pub record Armed (s : SmSlate D) : Type 0 where
    pub target : ℕ
    pub leads : next_state m.state s.cur_state s.pending_cmd_index ≡ some target
    pub real : target < length m.state

  -- A machine with no pending command waits for ever; one with a pending command has a real state to
  -- go to, and a time to do it at.
  pub record Inv (s : SmSlate D) : Type 0 where
    pub cur_in : s.cur_state < length m.state
    pub idle_time : is_idle s ≡ true → s.nominal_transition_time ≡ nano_t_max
    pub armed : is_idle s ≡ false → Armed s
    pub due : is_idle s ≡ false → s.nominal_transition_time <ℤ nano_t_max

  -- From `s` the machine has only been given commands.
  pub record Fed (s s' : SmSlate D) : Type 0 where
    pub inv : Inv s'
    pub cur : s'.cur_state ≡ s.cur_state
    pub old : s'.old_state ≡ s.old_state
    pub older : s'.older_state ≡ s.older_state
    pub last : s'.last_pending_cmd_index ≡ s.last_pending_cmd_index
    pub kept : is_idle s ≡ false → s'.pending_cmd_index ≡ s.pending_cmd_index
    pub kept_time : is_idle s ≡ false → s'.nominal_transition_time ≡ s.nominal_transition_time

  pub Fed-refl : {s : SmSlate D} → Inv s → Fed s s
  Fed-refl h = record {
    inv = h;
    cur = refl;
    old = refl;
    older = refl;
    last = refl;
    kept = λ _. refl;
    kept_time = λ _. refl;
  }

  pub Fed-trans : {s t u : SmSlate D} → Fed s t → Fed t u → Fed s u
  Fed-trans {s} {t} {u} a b = record {
    inv = b.inv;
    cur = ground arith;
    old = ground arith;
    older = ground arith;
    last = ground arith;
    kept = λ busy. ground (arith, a.kept busy, b.kept);
    kept_time = λ busy. ground (arith, a.kept busy, a.kept_time busy, b.kept_time);
  }

  -- `set_nominal_transition_time` does not fail, and picks a time that is not in the future.
  pub set_nominal_lem :
      Laws p m
      → (s : SmSlate D) (t : ℤ)
      → (n : ℤ) × (set_nominal_transition_time p m s t
          ≡ some (record s { nominal_transition_time = n }))
        × (n ≤ℤ t)
        × (t -ℤ m.transition_period <ℤ n)
  unfolding set_nominal_transition_time
  set_nominal_lem l s t =
      let next = p.calculate_next_time t m.transition_period in
      (
        next -ℤ m.transition_period,
        ground (
          arith,
          l.next_after t,
          l.next_within t,
          +ℤ_parts t m.transition_period,
          -ℤ_parts next m.transition_period,
          -ℤ_parts t m.transition_period,
        ),
        omega (
          arith,
          l.next_within t,
          +ℤ_parts t m.transition_period,
          -ℤ_parts next m.transition_period,
        ),
        omega (
          arith,
          l.next_after t,
          -ℤ_parts next m.transition_period,
          -ℤ_parts t m.transition_period,
        ),
      )
