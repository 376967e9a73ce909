-- ===== src/StateMachine/SyncDispatch.antt =====
-- `SyncStateMachine::dispatch` never fails an assertion, and completes what it has begun.
use codon.Prelude.{
  ◌≡◌, refl, inl, inr, Bool, true, false, not, ◌&&◌, some, arith, Bool-cases, Option-cases,
  get_elem?, get_elem?-lt,
}
use codon.Prelude.Int.{ℤ, ◌<ℤ◌, eqb_ℤ, nano_t_max}
use codon.StateMachine.Types.{Machine, SmSlate, Platform, ControlState}
use codon.StateMachine.Transitions.{is_empty}
use codon.StateMachine.Dispatch.{
  dispatch_sequence, begin_transition, end_dispatch, sync_rest, post_transition_if, is_accept,
}
use codon.StateMachine.Invariant.{Laws, Inv, Fed, Fed-refl, Fed-trans, is_idle}
use codon.StateMachine.Feeding.{handle_cmd-Fed, run_turn-Fed, dispatch_post_tasks-Fed}
use codon.StateMachine.Settling.{transition_pre_tasks-Works, transition_post_tasks-Works}

module _ {W C D : Type 0} (p : Platform W C D) (m : Machine) (l : Laws p m) where
  open p use {noop_cmd_index}

  -- The clock of the event sequence is no part of the invariant.
  Fed-clock :
      {s s' : SmSlate D} (x : D) → Fed p m s s' → Fed p m s (record s' { event_sequence_time = x })
  Fed-clock {s} {s'} x f = record {
    inv = record {
      cur_in = f.inv.cur_in;
      idle_time = f.inv.idle_time;
      armed = λ e.
          let a = f.inv.armed e in record { target = a.target; leads = a.leads; real = a.real };
      due = f.inv.due;
    };
    cur = f.cur;
    old = f.old;
    older = f.older;
    last = f.last;
    kept = f.kept;
    kept_time = f.kept_time;
  }

  pub dispatch_sequence-Fed :
      (t : ℤ) (cs : ControlState) (s : SmSlate D) (w : W)
      → Inv p m s
      → t <ℤ nano_t_max
      → (s' : SmSlate D) × (w' : W) × (t' : ℤ) × (b : Bool) × (dispatch_sequence p m t cs s w
          ≡ some (s', w', t', b))
        × Fed p m s s'
  unfolding dispatch_sequence
  dispatch_sequence-Fed t cs s w v early = elim (Bool-cases (is_empty cs.seqs)) [
    | inl empty ↦ (s, w, nano_t_max, false, rw empty refl, Fed-refl p m v)
    | inr runs ↦
        let (s1, w1, t1, e1, f1) =
          run_turn-Fed p m l s t (p.dispatch_seqs s.cur_state t s w) v early in
        let x = p.current_time s.cur_state w1 in
        let f2 = Fed-clock x f1 in
        elim (Bool-cases (eqb_ℤ t1 nano_t_max)) [
          | inr goes_on ↦ (
            record s1 { event_sequence_time = x },
            w1,
            t1,
            false,
            rw (runs, dispatch_sequence)
                (rw (e1, dispatch_sequence) (rw (goes_on, dispatch_sequence) refl)),
            f2,
          )
          | inl ended ↦
              let (r, e, f3) =
                handle_cmd-Fed p m l (record s1 { event_sequence_time = x }) t p.timeout_cmd f2.inv
                  early in
              (
                r.slate,
                w1,
                t1,
                r.good && is_accept r.response && not (is_idle p m r.slate),
                rw (runs, dispatch_sequence)
                    (rw (e1, dispatch_sequence)
                      (rw (ended, dispatch_sequence) (rw (e, dispatch_sequence) refl))),
                Fed-trans p m f2 f3,
              )
        ]
  ]

  begin_transition-Fed :
      (t : ℤ) (cs : ControlState) (s : SmSlate D) (w : W)
      → Inv p m s
      → t <ℤ nano_t_max
      → (s' : SmSlate D) × (w' : W) × (begin_transition p m t cs s w ≡ some (s', w')) × Fed p m s s'
  unfolding begin_transition
  begin_transition-Fed t cs s w v early =
      elim (Option-cases (get_elem? cs.cmds s.pending_cmd_index)) [
        | inl e ↦ (s, w, rw (e, begin_transition) refl, Fed-refl p m v)
        | inr (ns, e) ↦ elim (Option-cases (get_elem? m.state ns)) [
          | inl e2 ↦
              (s, w, rw (e, begin_transition) (rw (e2, begin_transition) refl), Fed-refl p m v)
          | inr (ncs, e2) ↦
              let (w1, good, e3) = transition_pre_tasks-Works p m t ncs w early in
              let (s4, w4, t4, e4, f4) =
                run_turn-Fed p m l s t (p.dispatch_seqs ns t s (p.start_seqs ns t w1).0) v early in
              elim (Bool-cases (p.start_seqs ns t w1).1) [
                | inr fails ↦
                    (s, (p.start_seqs ns t w1).0, ground (arith, e, e2, e3, fails), Fed-refl p m v)
                | inl starts ↦ (s4, w4, ground (arith, e, e2, e3, starts, e4), f4)
              ]
        ]
      ]

  -- The end of a synchronous dispatch records the pending command, if there is one.
  end_dispatch_lem :
      (t : ℤ) (cs : ControlState) (s : SmSlate D) (w : W)
      → Inv p m s
      → t <ℤ nano_t_max
      → get_elem? m.state s.cur_state ≡ some cs
      → (s' : SmSlate D) × (w' : W) × (end_dispatch p m t cs s w
          ≡ some (record s' { last_pending_cmd_index = s'.pending_cmd_index }, w', nano_t_max))
        × Fed p m s s'
  unfolding end_dispatch
  end_dispatch_lem t cs s w v early at_cur = elim (Bool-cases (is_idle p m s)) [
    | inl idle ↦ (s, w, rw (idle, end_dispatch) refl, Fed-refl p m v)
    | inr busy ↦
        let a = v.armed busy in
        let found : get_elem? cs.cmds s.pending_cmd_index ≡ some a.target =
          ground (arith, a.leads) in
        let (s', w', e, f) = begin_transition-Fed t cs s w v early in
        (s', w', rw (busy, end_dispatch) (rw (found, end_dispatch) (rw (e, end_dispatch) refl)), f)
  ]

  post_if :
      (b : Bool) (t : ℤ) (cs : ControlState) (w : W)
      → t <ℤ nano_t_max
      → (w' : W) × (post_transition_if p m b t cs w ≡ some w')
  post_if true t cs w early =
      let (w', good, e) = transition_post_tasks-Works p m t cs w early in (w', rw e refl)
  post_if false t cs w early = (w, refl)

  -- From an idle machine the rest of a dispatch gives commands only, and records the one that is
  -- pending at its end.
  pub sync_rest_lem :
      (t : ℤ) (partial transitioned : Bool) (s : SmSlate D) (w : W)
      → Inv p m s
      → t <ℤ nano_t_max
      → is_idle p m s ≡ true
      → (s' : SmSlate D) × (w' : W) × (sync_rest p m t partial transitioned s w
          ≡ some (record s' { last_pending_cmd_index = s'.pending_cmd_index }, w', nano_t_max))
        × Fed p m s s'
  unfolding sync_rest
  sync_rest_lem t partial transitioned s w v early idle =
      let (cs, at_cur) = get_elem?-lt m.state s.cur_state v.cur_in in
      let (w1, e1) = post_if (transitioned && partial) t cs w early in
      let (s2, w2, t2, b2, e2, f2) = dispatch_sequence-Fed t cs s w1 v early in
      let (w3, e3) = post_if (transitioned && not partial) t cs w2 early in
      let (s4, w4, t4, e4, f4) = dispatch_post_tasks-Fed p m l t s2 w3 f2.inv early in
      let f = Fed-trans p m f2 f4 in
      let (s5, w5, e5, f5) = end_dispatch_lem t cs s4 w4 f4.inv early (ground (arith, f.cur)) in
      let at_max : eqb_ℤ s.nominal_transition_time nano_t_max ≡ true =
        ground (arith, v.idle_time idle) in
      (
        s5,
        w5,
        rw (idle, sync_rest)
            (rw (at_max, sync_rest)
              (rw (at_cur, sync_rest)
                (rw (e1, sync_rest)
                  (rw (e2, sync_rest) (rw (e3, sync_rest) (rw (e4, sync_rest) e5)))))),
        Fed-trans p m f f5,
      )
