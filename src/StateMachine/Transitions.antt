-- ===== src/StateMachine/Transitions.antt =====
-- `transition_task` and its loops, `set_state`, `handle_pending_cmd` and `force_state`.
-- `none` is a failed FswAssert or an index out of range that the source does not check.
use codon.Prelude.{
  ℕ, zero, suc, ◌+◌, ◌-◌, Bool, true, false, not, ◌&&◌, List, [], ◌∷◌, Option, none, some, ltb, leb,
  ◌==◌, if◌then◌else◌, get_elem?, length,
}
use codon.Prelude.Int.{ℤ, ◌-ℤ◌, eqb_ℤ, nano_t_max}
use codon.StateMachine.Types.{
  off_cstate, on_cstate, cont_cstate, cmd_cstate, invalid_cstate, TaskInfo, ControlState, Machine,
  SmSlate, Platform, undefined_state, ignore_state,
}

-- `seqs.empty()`
abbrev pub is_empty {ℓ} : {A : Type ℓ} → List A → Bool
is_empty [] = true
is_empty (_ ∷ _) = false

module _ {W C D : Type 0} (p : Platform W C D) (m : Machine) where
  open p use {noop_cmd_index}

  -- The `switch` of `transition_task`.
  unfoldable pub run_task_info : ℤ → ℕ → TaskInfo → W → W × Bool
  run_task_info transition_time task_num ti w = elim ti.state [
    | off_cstate ↦ p.stop task_num transition_time w
    | on_cstate ↦ p.start task_num transition_time ti.args w
    | cont_cstate ↦ p.cont task_num transition_time w
    | cmd_cstate ↦ p.cmd task_num transition_time ti.args w
    | invalid_cstate ↦ (w, false)
  ]

  unfoldable pub transition_task : ℤ → ℕ → ControlState → W → Option (W × Bool)
  transition_task transition_time task_num cs w =
      if leb m.num_tasks task_num then some (w, false) else elim (get_elem? cs.tasks task_num) [
        | none ↦ some (w, false)
        | some ti ↦ elim ti.state [
          | invalid_cstate ↦ some (w, false)
          | _ ↦
              if eqb_ℤ transition_time nano_t_max
              then none
              else some (run_task_info transition_time task_num ti w)
        ]
      ]

  -- The tasks `i`, `i + 1`, ..., `count` of them; a failure does not stop the loop.
  unfoldable pub transition_tasks : ℕ → ℕ → ℤ → ControlState → Bool → W → Option (W × Bool)
  transition_tasks zero i transition_time cs good w = some (w, good)
  transition_tasks (suc count) i transition_time cs good w =
      elim (transition_task transition_time i cs w) [
        | none ↦ none
        | some (w', ok) ↦ transition_tasks count (i + 1) transition_time cs (good && ok) w'
      ]

  unfoldable pub transition_pre_tasks : ℤ → ControlState → W → Option (W × Bool)
  transition_pre_tasks transition_time cs w =
      transition_tasks m.num_pre_transition_ctasks 0 transition_time cs true w

  unfoldable pub transition_post_tasks : ℤ → ControlState → W → Option (W × Bool)
  transition_post_tasks transition_time cs w =
      transition_tasks (m.num_tasks - m.num_pre_transition_ctasks) m.num_pre_transition_ctasks
        transition_time cs true w

  -- The work on tasks and sequences in `set_state`, and whether all of it went well.
  unfoldable pub enter_state : ℤ → ℕ → ℕ → ControlState → Bool → Bool → Bool → W → Option (W × Bool)
  enter_state t current new_state_num ncs transition_pre transition_post start_seq w =
      elim (if transition_pre then transition_pre_tasks t ncs w else some (w, true)) [
        | none ↦ none
        | some (w1, pre_ok) ↦
            elim (if transition_post then transition_post_tasks t ncs w1 else some (w1, true)) [
              | none ↦ none
              | some (w2, post_ok) ↦
                  let (w3, end_ok) =
                    if new_state_num == current then (w2, true) else p.end_seqs current w2 in
                  let (w4, start_ok) =
                    if start_seq && not (is_empty ncs.seqs)
                    then p.start_seqs new_state_num t w3
                    else (w3, true) in
                  some (w4, pre_ok && post_ok && end_ok && start_ok)
            ]
      ]

  -- At a high debug level the command is looked up for the log, and an unknown one ends the call.
  abbrev pub log_refuses : ℕ → Bool
  log_refuses cmd_index =
      p.verbose && elim (p.lookup_cmd cmd_index) [ none ↦ true | some _ ↦ false ]

  unfoldable pub set_state :
      SmSlate D → W → ℕ → ℕ → ℤ → Bool → Bool → Bool → Option (SmSlate D × W × Bool)
  set_state s w new_state_num cmd_index t transition_pre transition_post start_seq =
      if not m.is_init
      then some (s, w, false)
      else if eqb_ℤ t nano_t_max
      then none
      else if log_refuses cmd_index
      then some (s, w, false)
      else elim (get_elem? m.state new_state_num) [
        | none ↦ some (s, w, false)
        | some ncs ↦
            if not (ltb s.cur_state (length m.state))
            then none
            else elim (enter_state t s.cur_state new_state_num ncs transition_pre transition_post
                start_seq w) [
                  | none ↦ none
                  | some (w', good) ↦ some (
                    record s {
                      older_state = s.old_state;
                      old_state = s.cur_state;
                      event_sequence_time = p.zero_seconds;
                      cur_state = new_state_num;
                    },
                    p.emit new_state_num w',
                    good,
                  )
                ]
      ]

  unfoldable pub handle_pending_cmd_aux :
      SmSlate D → W → ℤ → Bool → Bool → Bool → Option (SmSlate D × W × Bool)
  handle_pending_cmd_aux s w t transition_pre transition_post start_seq =
      if eqb_ℤ t nano_t_max
      then some (s, w, false)
      else if s.pending_cmd_index == noop_cmd_index
      then some (s, w, false)
      else elim (get_elem? m.state s.cur_state) [
        | none ↦ some (s, w, false)
        | some cs ↦ elim (get_elem? cs.cmds s.pending_cmd_index) [
          | none ↦ some (s, w, false)
          | some ns ↦
              if ns == undefined_state
              then some (s, w, false)
              else if ns == ignore_state
              then some (s, w, false)
              else if leb (length m.state) ns
              then some (s, w, false)
              else set_state s w ns s.pending_cmd_index t transition_pre transition_post start_seq
        ]
      ]

  -- The pending command is cleared whether or not the transition went well.
  unfoldable pub handle_pending_cmd :
      SmSlate D → W → ℤ → Bool → Bool → Bool → Option (SmSlate D × W × Bool)
  handle_pending_cmd s w t transition_pre transition_post start_seq =
      if s.pending_cmd_index == noop_cmd_index
      then none
      else elim (handle_pending_cmd_aux s w t transition_pre transition_post start_seq) [
        | none ↦ none
        | some (s', w', good) ↦ some (
          record s' { pending_cmd_index = noop_cmd_index; nominal_transition_time = nano_t_max },
          w',
          good,
        )
      ]

  -- `SettableSyncStateMachine::force_state`; `backdate` is `to_nano_t(cur_event_seq_time)`.
  unfoldable pub force_state : SmSlate D → W → ℤ → ℕ → ℤ → D → Option (SmSlate D × W × Bool)
  force_state s w control_time state_num backdate cur_event_seq_time =
      elim (set_state
        (record s {
          pending_cmd_index = noop_cmd_index;
          nominal_transition_time = nano_t_max;
          last_pending_cmd_index = noop_cmd_index;
        })
        w state_num noop_cmd_index (control_time -ℤ backdate) true true true) [
          | none ↦ none
          | some (s', w', good) ↦
              if good
              then some (record s' { event_sequence_time = cur_event_seq_time }, w', true)
              else some (s', w', false)
        ]
