-- ===== src/StateMachine/Dispatch.antt =====
-- `dispatch_pre_tasks`, `dispatch_post_tasks`, and the `dispatch` of the two flavours.
use codon.Prelude.{
  ℕ, zero, suc, ◌+◌, ◌-◌, Bool, true, false, not, ◌&&◌, ◌||◌, ◌>>=◌, Option, none, some, ◌==◌,
  if◌then◌else◌, get_elem?,
}
use codon.Prelude.Int.{ℤ, eqb_ℤ, leb_ℤ, min_ℤ, nano_t_max, nano_t_min}
use codon.StateMachine.Types.{
  Response, accept, Machine, ControlState, SmSlate, Turn, done, issue, Platform,
}
use codon.StateMachine.Commands.{handle_cmd}
use codon.StateMachine.Transitions.{
  is_empty, transition_pre_tasks, transition_post_tasks, handle_pending_cmd,
}

-- What a part of a dispatch leaves: slate, world, and the time of the next event.
abbrev pub Ran : Type 0 → Type 0 → Type 0
Ran W D = SmSlate D × W × ℤ

abbrev pub is_accept : Response → Bool
is_accept accept = true
is_accept _ = false

module _ {W C D : Type 0} (p : Platform W C D) (m : Machine) where
  open p use {noop_cmd_index, timeout_cmd}

  -- The commands that a task or a sequence issues during its turn go through `handle_cmd`.
  unfoldable pub run_turn : SmSlate D → ℤ → Turn W C → Option (Ran W D)
  run_turn s control_time (done w t) = some (s, w, t)
  run_turn s control_time (issue c next) = elim (handle_cmd p m s control_time c) [
    | none ↦ none
    | some r ↦ run_turn r.slate control_time (next r.good r.response r.retry_at)
  ]

  -- The tasks `i`, `i + 1`, ..., `count` of them.
  unfoldable pub dispatch_tasks : ℕ → ℕ → ℤ → ℤ → SmSlate D → W → Option (Ran W D)
  dispatch_tasks zero i control_time next_event s w = some (s, w, next_event)
  dispatch_tasks (suc count) i control_time next_event s w = elim (p.is_active i w) [
    | false ↦ dispatch_tasks count (i + 1) control_time next_event s w
    | true ↦ elim (run_turn s control_time (p.dispatch_task i control_time s w)) [
      | none ↦ none
      | some (s', w', t) ↦ dispatch_tasks count (i + 1) control_time (min_ℤ next_event t) s' w'
    ]
  ]

  unfoldable pub dispatch_pre_tasks : ℤ → SmSlate D → W → Option (Ran W D)
  dispatch_pre_tasks control_time s w =
      dispatch_tasks m.num_pre_transition_ctasks 0 control_time nano_t_max s w

  unfoldable pub dispatch_post_tasks : ℤ → SmSlate D → W → Option (Ran W D)
  dispatch_post_tasks control_time s w =
      dispatch_tasks (m.num_tasks - m.num_pre_transition_ctasks) m.num_pre_transition_ctasks
        control_time nano_t_max s w

  -- The event sequence of the current state, and the timeout command at its end. The flag says that
  -- the timeout was accepted and is now pending.
  unfoldable pub dispatch_sequence :
      ℤ → ControlState → SmSlate D → W → Option (SmSlate D × W × ℤ × Bool)
  dispatch_sequence control_time cs s w =
      if is_empty cs.seqs then some (s, w, nano_t_max, false) else do
        (s1, w1, t) ← run_turn s control_time (p.dispatch_seqs s.cur_state control_time s w)
        let s2 = record s1 { event_sequence_time = p.current_time s.cur_state w1 }
        if eqb_ℤ t nano_t_max then at_end s2 w1 t else some (s2, w1, t, false)
    where
      at_end : SmSlate D → W → ℤ → Option (SmSlate D × W × ℤ × Bool)
      at_end s2 w1 t = do
        r ← handle_cmd p m s2 control_time timeout_cmd
        some (
          r.slate,
          w1,
          t,
          r.good && is_accept r.response && not (r.slate.pending_cmd_index == noop_cmd_index),
        )

  -- The transition check of the asynchronous dispatch.
  unfoldable pub async_transition : ℤ → ℤ → SmSlate D → W → Option (Ran W D)
  async_transition control_time next_event s w =
      if leb_ℤ s.nominal_transition_time control_time
      then (handle_pending_cmd p m s w s.nominal_transition_time true true true >>= λ r.
          some (r.0, r.1, nano_t_min))
      else some (s, w, next_event)

  -- `AsyncStateMachine::dispatch` once the transition check is done.
  unfoldable pub async_rest : ℤ → ℤ → SmSlate D → W → Option (Ran W D)
  async_rest control_time next_event s w = elim (get_elem? m.state s.cur_state) [
    | none ↦ some (s, w, next_event)
    | some cs ↦ do
      (s1, w1, t, timed_out) ← dispatch_sequence control_time cs s w
      let next1 = if timed_out then nano_t_min else min_ℤ next_event t
      (s2, w2, t2) ← dispatch_post_tasks control_time s1 w1
      some (s2, w2, min_ℤ (min_ℤ next1 t2) s2.nominal_transition_time)
  ]

  -- `AsyncStateMachine::dispatch`
  unfoldable pub async_dispatch : ℤ → SmSlate D → W → Option (Ran W D)
  async_dispatch control_time s w = do
    (s1, w1, t1) ← dispatch_pre_tasks control_time s w
    (s2, w2, t2) ← async_transition control_time (min_ℤ nano_t_max t1) s1 w1
    async_rest control_time t2 s2 w2

  -- The transition check of the synchronous dispatch; `partial_transition` is true where the last
  -- dispatch has begun the transition. The flag says that there was one.
  unfoldable pub sync_transition : ℤ → Bool → SmSlate D → W → Option (SmSlate D × W × Bool)
  sync_transition control_time partial_transition s w =
      if not (s.pending_cmd_index == noop_cmd_index)
      then (handle_pending_cmd p m s w control_time (not partial_transition) false
            (not partial_transition)
          >>= λ r. some (r.0, r.1, true))
      else some (s, w, false)

  abbrev pub post_transition_if : Bool → ℤ → ControlState → W → Option W
  post_transition_if b control_time cs w =
      if b then (transition_post_tasks p m control_time cs w >>= λ r. some r.0) else some w

  -- The early start of the next state, where a command is pending at the end of a dispatch.
  unfoldable pub begin_transition : ℤ → ControlState → SmSlate D → W → Option (SmSlate D × W)
  begin_transition control_time cs s w = elim (get_elem? cs.cmds s.pending_cmd_index) [
    | none ↦ some (s, w)
    | some new_state_num ↦ elim (get_elem? m.state new_state_num) [
      | none ↦ some (s, w)
      | some ncs ↦ do
        (w1, _) ← transition_pre_tasks p m control_time ncs w
        let (w2, started) = p.start_seqs new_state_num control_time w1
        if started
            then (run_turn s control_time (p.dispatch_seqs new_state_num control_time s w2) >>= λ r.
                some (r.0, r.1))
            else some (s, w2)
    ]
  ]

  -- The end of the dispatch records the pending command; a command index out of range in
  -- `begin_transition` returns before that.
  unfoldable pub end_dispatch : ℤ → ControlState → SmSlate D → W → Option (Ran W D)
  end_dispatch control_time cs s w =
      if s.pending_cmd_index == noop_cmd_index
      then some (record s { last_pending_cmd_index = s.pending_cmd_index }, w, nano_t_max)
      else elim (get_elem? cs.cmds s.pending_cmd_index) [
        | none ↦ some (s, w, nano_t_max)
        | some _ ↦ do
          (s', w') ← begin_transition control_time cs s w
          some (record s' { last_pending_cmd_index = s'.pending_cmd_index }, w', nano_t_max)
      ]

  -- `SyncStateMachine::dispatch` once the transition check is done.
  unfoldable pub sync_rest : ℤ → Bool → Bool → SmSlate D → W → Option (Ran W D)
  sync_rest control_time partial_transition transitioned s w =
      if not (s.pending_cmd_index == noop_cmd_index)
        || not (eqb_ℤ s.nominal_transition_time nano_t_max)
      then none
      else elim (get_elem? m.state s.cur_state) [
        | none ↦ some (s, w, nano_t_max)
        | some cs ↦ do
          w1 ← post_transition_if (transitioned && partial_transition) control_time cs w
          (s2, w2, _, _) ← dispatch_sequence control_time cs s w1
          w3 ← post_transition_if (transitioned && not partial_transition) control_time cs w2
          (s4, w4, _) ← dispatch_post_tasks control_time s2 w3
          end_dispatch control_time cs s4 w4
      ]

  -- `SyncStateMachine::dispatch`
  unfoldable pub sync_dispatch : ℤ → SmSlate D → W → Option (Ran W D)
  sync_dispatch control_time s w = do
    (s1, w1, _) ← dispatch_pre_tasks control_time s w
    let partial_transition = not (s1.last_pending_cmd_index == noop_cmd_index)
    if partial_transition && not (s1.last_pending_cmd_index == s1.pending_cmd_index)
        then none
        else do
          (s2, w2, transitioned) ← sync_transition control_time partial_transition s1 w1
          sync_rest control_time partial_transition transitioned s2 w2
