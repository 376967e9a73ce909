-- ===== src/StateMachine/Forcing.antt =====
-- `force_state`: the machine is put into a state from outside.
use codon.Prelude.{
  ℕ, ◌<◌, ◌≡◌, refl, inl, inr, Bool, true, false, some, arith, ==_refl, length, Bool-cases,
}
use codon.Prelude.Int.{ℤ, ◌-ℤ◌, ◌<ℤ◌, nano_t_max}
use codon.StateMachine.Types.{Machine, SmSlate, Platform}
use codon.StateMachine.Transitions.{log_refuses, force_state}
use codon.StateMachine.Invariant.{is_idle}
use codon.StateMachine.Settling.{moved, set_state_lem}
use codon.StateMachine.Sync.{SyncInv}

module _ {W C D : Type 0} (p : Platform W C D) (m : Machine) where
  -- A machine without a pending or recorded command.
  cleared-SyncInv :
      (s : SmSlate D)
      → s.cur_state < length m.state
      → s.pending_cmd_index ≡ p.noop_cmd_index
      → s.nominal_transition_time ≡ nano_t_max
      → s.last_pending_cmd_index ≡ p.noop_cmd_index
      → SyncInv p m s
  cleared-SyncInv s cur_in clear never unrecorded = record {
    inv = record {
      cur_in = cur_in;
      idle_time = λ e. never;
      armed = λ e. absurd (ground (arith, clear));
      due = λ e. absurd (ground (arith, clear));
    };
    recorded = λ e. absurd (ground (arith, unrecorded));
  }

  -- Forced to a real state, a machine that `init` has set up goes there at once, whatever was pending
  -- and whether or not its tasks and sequences take part; no command is pending afterwards, none is
  -- recorded, and the invariant of the synchronous dispatch holds. The time before the forced one is
  -- before the end of time, and the debug log knows the no-op command.
  pub force_state-SyncInv :
      (s : SmSlate D) (w : W) (t : ℤ) (new : ℕ) (backdate : ℤ) (seq_time : D)
      → s.cur_state < length m.state
      → new < length m.state
      → (t -ℤ backdate) <ℤ nano_t_max
      → m.is_init ≡ true
      → log_refuses p m p.noop_cmd_index ≡ false
      → (s' : SmSlate D) × (w' : W) × (good : Bool) × (force_state p m s w t new backdate seq_time
          ≡ some (s', w', good))
        × SyncInv p m s'
        × (s'.cur_state ≡ new)
        × (is_idle p m s' ≡ true)
        × (s'.last_pending_cmd_index ≡ p.noop_cmd_index)
  unfolding force_state
  force_state-SyncInv s w t new backdate seq_time cur_in real early init logs =
      let cleared : SmSlate D = record s {
        pending_cmd_index = p.noop_cmd_index;
        nominal_transition_time = nano_t_max;
        last_pending_cmd_index = p.noop_cmd_index;
      } in
      let (w', good, e) =
        set_state_lem p m cleared w new p.noop_cmd_index (t -ℤ backdate) true true true early cur_in
          real init logs in
      let forced = moved p m cleared new in
      elim (Bool-cases good) [
        | inl ok ↦ (
          record forced { event_sequence_time = seq_time },
          w',
          true,
          ground (arith, e, ok),
          cleared-SyncInv (record forced { event_sequence_time = seq_time }) real refl refl refl,
          refl,
          ==_refl p.noop_cmd_index,
          refl,
        )
        | inr failed ↦ (
          forced,
          w',
          false,
          ground (arith, e, failed),
          cleared-SyncInv forced real refl refl refl,
          refl,
          ==_refl p.noop_cmd_index,
          refl,
        )
      ]
