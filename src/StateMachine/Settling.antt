-- ===== src/StateMachine/Settling.antt =====
-- The transition of a pending command: it does not fail, moves the machine to the command's target,
-- and leaves the machine idle.
use codon.Prelude.{
  ℕ, zero, suc, ◌+◌, ◌<◌, ◌≤◌, ◌≡◌, refl, inl, inr, Bool, true, false, not, ◌&&◌, Option, some,
  arith, Bool-cases, Option-cases, get_elem?-lt, length, if◌then◌else◌,
}
use codon.Prelude.Int.{ℤ, ◌<ℤ◌, nano_t_max}
use codon.StateMachine.Types.{Machine, SmSlate, Platform, ControlState, ignore_state}
use codon.StateMachine.Transitions.{
  transition_task, transition_tasks, transition_pre_tasks, transition_post_tasks, enter_state,
  log_refuses, set_state, handle_pending_cmd_aux, handle_pending_cmd,
}
use codon.StateMachine.Invariant.{Armed, is_idle}

module _ {W C D : Type 0} (p : Platform W C D) (m : Machine) where
  open p use {noop_cmd_index}

  abbrev pub Works : Option (W × Bool) → Type 0
  Works o = (w' : W) × (good : Bool) × (o ≡ some (w', good))

  transition_task-Works :
      (t : ℤ) (i : ℕ) (cs : ControlState) (w : W)
      → t <ℤ nano_t_max
      → Works (transition_task p m t i cs w)
  unfolding transition_task
  transition_task-Works t i cs w early = elim (Option-cases (transition_task p m t i cs w)) [
    | inl e ↦ absurd (ground arith)
    | inr ((w', good), e) ↦ (w', good, e)
  ]

  transition_tasks-Works :
      (count i : ℕ) (t : ℤ) (cs : ControlState) (good : Bool) (w : W)
      → t <ℤ nano_t_max
      → Works (transition_tasks p m count i t cs good w)
  unfolding transition_tasks
  transition_tasks-Works zero i t cs good w early = (w, good, refl)
  transition_tasks-Works (suc count) i t cs good w early =
      let (w1, ok, e) = transition_task-Works t i cs w early in
      let (w2, good2, e2) = transition_tasks-Works count (i + 1) t cs (good && ok) w1 early in
      (w2, good2, rw (e, transition_tasks) e2)

  pub transition_pre_tasks-Works :
      (t : ℤ) (cs : ControlState) (w : W)
      → t <ℤ nano_t_max
      → Works (transition_pre_tasks p m t cs w)
  unfolding transition_pre_tasks
  transition_pre_tasks-Works t cs w early = transition_tasks-Works _ _ t cs true w early

  pub transition_post_tasks-Works :
      (t : ℤ) (cs : ControlState) (w : W)
      → t <ℤ nano_t_max
      → Works (transition_post_tasks p m t cs w)
  unfolding transition_post_tasks
  transition_post_tasks-Works t cs w early = transition_tasks-Works _ _ t cs true w early

  pre_part :
      (pre : Bool) (t : ℤ) (ncs : ControlState) (w : W)
      → t <ℤ nano_t_max
      → Works (if pre then transition_pre_tasks p m t ncs w else some (w, true))
  pre_part true t ncs w early = transition_pre_tasks-Works t ncs w early
  pre_part false t ncs w early = (w, true, refl)

  post_part :
      (post : Bool) (t : ℤ) (ncs : ControlState) (w : W)
      → t <ℤ nano_t_max
      → Works (if post then transition_post_tasks p m t ncs w else some (w, true))
  post_part true t ncs w early = transition_post_tasks-Works t ncs w early
  post_part false t ncs w early = (w, true, refl)

  enter_state-Works :
      (t : ℤ) (cur new : ℕ) (ncs : ControlState) (pre post seq : Bool) (w : W)
      → t <ℤ nano_t_max
      → Works (enter_state p m t cur new ncs pre post seq w)
  unfolding enter_state
  enter_state-Works t cur new ncs pre post seq w early =
      let (w1, ok1, e1) = pre_part pre t ncs w early in
      let (w2, ok2, e2) = post_part post t ncs w1 early in
      elim (Option-cases (enter_state p m t cur new ncs pre post seq w)) [
        | inr ((w', good), e) ↦ (w', good, e)
        | inl e ↦ absurd (ground (arith, e1, e2))
      ]

  -- `s'` is `s` moved to `new`.
  abbrev pub moved : SmSlate D → ℕ → SmSlate D
  moved s new = record s {
    older_state = s.old_state;
    old_state = s.cur_state;
    event_sequence_time = p.zero_seconds;
    cur_state = new;
  }

  -- After `init`, with a command that the debug log knows, `set_state` to a real state before the end of
  -- time returns, moves there, and remembers the two states before, even if a task or a sequence fails.
  pub set_state_lem :
      (s : SmSlate D) (w : W) (new index : ℕ) (t : ℤ) (pre post seq : Bool)
      → t <ℤ nano_t_max
      → s.cur_state < length m.state
      → new < length m.state
      → m.is_init ≡ true
      → log_refuses p m index ≡ false
      → (w' : W) × (good : Bool) × (set_state p m s w new index t pre post seq
          ≡ some (moved s new, w', good))
  unfolding set_state
  set_state_lem s w new index t pre post seq early cur_in real init logs =
      let (ncs, at_new) = get_elem?-lt m.state new real in
      let (w1, good, e) = enter_state-Works t s.cur_state new ncs pre post seq w early in
      (p.emit new w1, good, ground arith)

  -- With the initialisation undone, or a command that the log does not know, nothing moves.
  set_state_refused :
      (s : SmSlate D) (w : W) (new index : ℕ) (t : ℤ) (pre post seq : Bool)
      → t <ℤ nano_t_max
      → m.is_init && not (log_refuses p m index) ≡ false
      → set_state p m s w new index t pre post seq ≡ some (s, w, false)
  unfolding set_state
  set_state_refused s w new index t pre post seq early no_go = ground arith

  -- The slate after `handle_pending_cmd`.
  abbrev pub settled : SmSlate D → ℕ → SmSlate D
  settled s new =
      record (if m.is_init && not (log_refuses p m s.pending_cmd_index) then moved s new else s) {
        pending_cmd_index = noop_cmd_index;
        nominal_transition_time = nano_t_max;
      }

  handle_pending_cmd_aux_lem :
      (s : SmSlate D) (w : W) (t : ℤ) (pre post seq : Bool)
      → t <ℤ nano_t_max
      → length m.state ≤ ignore_state
      → is_idle p m s ≡ false
      → (a : Armed p m s)
      → handle_pending_cmd_aux p m s w t pre post seq
        ≡ set_state p m s w a.target s.pending_cmd_index t pre post seq
  unfolding handle_pending_cmd_aux
  handle_pending_cmd_aux_lem s w t pre post seq early fit busy a = ground (arith, a.leads, a.real)

  -- A pending command is carried out: the machine goes to its target, remembers the two states
  -- before, and is idle. (Nothing moves before `init` or for a command that the log refuses.)
  pub handle_pending_cmd_lem :
      (s : SmSlate D) (w : W) (t : ℤ) (pre post seq : Bool)
      → t <ℤ nano_t_max
      → length m.state ≤ ignore_state
      → s.cur_state < length m.state
      → is_idle p m s ≡ false
      → (a : Armed p m s)
      → (w' : W) × (good : Bool) × (handle_pending_cmd p m s w t pre post seq
          ≡ some (settled s a.target, w', good))
  unfolding handle_pending_cmd
  handle_pending_cmd_lem s w t pre post seq early fit cur_in busy a =
      elim (Bool-cases (m.is_init && not (log_refuses p m s.pending_cmd_index))) [
        | inr no_go ↦ (
          w,
          false,
          ground (
            arith,
            handle_pending_cmd_aux_lem s w t pre post seq early fit busy a,
            set_state_refused s w a.target s.pending_cmd_index t pre post seq early no_go,
          ),
        )
        | inl go ↦
            let (w', good, e) =
              set_state_lem s w a.target s.pending_cmd_index t pre post seq early cur_in a.real
                (ground arith) (ground arith) in
            (
              w',
              good,
              ground (arith, e, handle_pending_cmd_aux_lem s w t pre post seq early fit busy a),
            )
      ]
