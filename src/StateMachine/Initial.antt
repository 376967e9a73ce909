-- ===== src/StateMachine/Initial.antt =====
-- `set_initial_state`: the machine's first state, before any dispatch.
use codon.Prelude.{
  ℕ, ◌+◌, ◌<◌, ◌≡◌, refl, ap, ◌∙◌, inl, inr, Bool, true, false, not, ◌&&◌, ◌>>=◌, List, [], ◌∷◌,
  Option, none, some, arith, ◌==◌, if◌then◌else◌, get_elem?, length, lt-length_of_get_elem?, ==→eq,
  Option-cases,
}
use codon.Prelude.Int.{ℤ, pos, eqb_ℤ, ◌<ℤ◌, nano_t_max}
use codon.StateMachine.Types.{TaskInfo, ControlState, Machine, SmSlate, Platform, undefined_state}
use codon.StateMachine.Transitions.{is_empty}
use codon.StateMachine.Dispatch.{run_turn}
use codon.StateMachine.Invariant.{Laws, Inv, is_idle}
use codon.StateMachine.Feeding.{run_turn-Fed}

-- The loop over the tasks of the initial state, none of which may do anything.
unfoldable pub no_task_is_init : List TaskInfo → Bool
no_task_is_init [] = true
no_task_is_init (ti ∷ rest) = if ti.is_init then false else no_task_is_init rest

-- The loop over its commands from number `i` on, none of which but the timeout may lead anywhere.
unfoldable pub only_timeout : ℕ → ℕ → List ℕ → Bool
only_timeout timeout_index i [] = true
only_timeout timeout_index i (next ∷ rest) =
    if not (i == timeout_index) && not (next == undefined_state)
    then false
    else only_timeout timeout_index (i + 1) rest

module _ {W C D : Type 0} (p : Platform W C D) (m : Machine) where
  -- `is_zero` compares a `double` with 0.0. The result is the slate, the world and the return value;
  -- `none` is a failed FswAssert in a command that the sequence issues.
  unfoldable pub set_initial_state :
      (D → Bool) → Bool → ℤ → SmSlate D → W → Option (SmSlate D × W × Bool)
  set_initial_state is_zero is_init_storage initial_control_time s w =
      if m.is_init
      then some (s, w, false)
      else if not is_init_storage
      then some (s, w, false)
      else elim (get_elem? m.state 0) [
        | none ↦ some (s, w, false)
        | some init_state ↦
            if not (s.cur_state == 0)
            then some (s, w, false)
            else if not (is_zero s.event_sequence_time)
            then some (s, w, false)
            else if not (s.pending_cmd_index == p.noop_cmd_index)
            then some (s, w, false)
            else if not (eqb_ℤ s.nominal_transition_time nano_t_max)
            then some (s, w, false)
            else if not (eqb_ℤ init_state.duration (pos 0))
            then some (s, w, false)
            else if not (no_task_is_init init_state.tasks)
            then some (s, w, false)
            else if not init_state.timeout_ignored
                && not (only_timeout (p.get_index p.timeout_cmd) 0 init_state.cmds)
            then some (s, w, false)
            else start_initial init_state
      ]
    where
      start_initial : ControlState → Option (SmSlate D × W × Bool)
      start_initial init_state =
          if is_empty init_state.seqs
          then some (s, p.emit 0 w, true)
          else (let (w1, started) = p.start_seqs 0 initial_control_time w in
              if not started
              then some (s, w1, false)
              else (run_turn p m s initial_control_time
                    (p.dispatch_seqs 0 initial_control_time s w1)
                  >>= λ r. some (r.0, p.emit 0 r.1, true)))

module _ {W C D : Type 0} (p : Platform W C D) (m : Machine) (l : Laws p m) where
  -- Where the tests pass, the slate is that of an idle machine in its first state.
  fresh-Inv :
      (s : SmSlate D)
      → 0 < length m.state
      → s.cur_state ≡ 0
      → is_idle p m s ≡ true
      → s.nominal_transition_time ≡ nano_t_max
      → Inv p m s
  fresh-Inv s some_state cur idle never = record {
    cur_in = ground arith;
    idle_time = λ e. never;
    armed = λ e. absurd (ground arith);
    due = λ e. absurd (ground arith);
  }

  abbrev Fine : Option (SmSlate D × W × Bool) → Type 0
  Fine o =
      (s' : SmSlate D) × (w' : W) × (good : Bool) × (o ≡ some (s', w', good))
      × (good ≡ true → Inv p m s' × (s'.cur_state ≡ 0))

  -- One test of the code: it returns false, or goes on.
  test :
      (s : SmSlate D) (w : W) (o : Option (SmSlate D × W × Bool)) (b : Bool)
      → (b ≡ true → Fine o)
      → Fine (if not b then some (s, w, false) else o)
  test s w o true f = f refl
  test s w o false f = (s, w, false, refl, λ e. absurd (cc))

  refusal :
      (s : SmSlate D) (w : W) (o : Option (SmSlate D × W × Bool)) (b : Bool)
      → Fine o
      → Fine (if b then some (s, w, false) else o)
  refusal s w o true f = (s, w, false, refl, λ e. absurd (cc))
  refusal s w o false f = f

  start_sequence :
      (t : ℤ) (s : SmSlate D) (w : W) (seqs : List ℕ)
      → t <ℤ nano_t_max
      → Inv p m s
      → s.cur_state ≡ 0
      → Fine (
          if is_empty seqs
          then some (s, p.emit 0 w, true)
          else (let (w1, started) = p.start_seqs 0 t w in
              if not started
              then some (s, w1, false)
              else (run_turn p m s t (p.dispatch_seqs 0 t s w1) >>= λ r.
                  some (r.0, p.emit 0 r.1, true))))
  start_sequence t s w [] early v cur = (s, p.emit 0 w, true, refl, λ e. (v, cur))
  start_sequence t s w (_ ∷ _) early v cur =
      let (w1, started) = p.start_seqs 0 t w in
      test s w1 _ started (λ ok.
        let (s2, w2, next, e, f) = run_turn-Fed p m l s t (p.dispatch_seqs 0 t s w1) v early in
        (
          s2,
          p.emit 0 w2,
          true,
          ap (λ o. o >>= λ r. some (r.0, p.emit 0 r.1, true)) e,
          λ _. (f.inv, f.cur ∙ cur),
        ))

  -- `set_initial_state` returns, and if it returns true the machine is in its first state and its
  -- invariant holds, whatever commands the initial sequence has issued. The time is before the end of
  -- time.
  pub set_initial_state-Inv :
      (is_zero : D → Bool) (is_init_storage : Bool) (t : ℤ) (s : SmSlate D) (w : W)
      → t <ℤ nano_t_max
      → (s' : SmSlate D) × (w' : W) × (good : Bool) × (set_initial_state p m is_zero is_init_storage
            t s w
          ≡ some (s', w', good))
        × (good ≡ true → Inv p m s' × (s'.cur_state ≡ 0))
  unfolding set_initial_state
  set_initial_state-Inv is_zero is_init_storage t s w early = refusal s w _ m.is_init (
      test s w _ is_init_storage (λ _. elim (Option-cases (get_elem? m.state 0)) [
        | inl e ↦ (s, w, false, rw e refl, λ x. absurd (cc))
        | inr (init_state, e) ↦ rw e (
            test s w _ (s.cur_state == 0) (λ cur. test s w _ (is_zero s.event_sequence_time) (λ _.
              test s w _ (s.pending_cmd_index == p.noop_cmd_index) (λ idle.
                test s w _ (eqb_ℤ s.nominal_transition_time nano_t_max) (λ never.
                  test s w _ (eqb_ℤ init_state.duration (pos 0)) (λ _.
                    test s w _ (no_task_is_init init_state.tasks) (λ _.
                      refusal s w _
                        (not init_state.timeout_ignored
                          && not (only_timeout (p.get_index p.timeout_cmd) 0 init_state.cmds))
                        (start_sequence t s w init_state.seqs early
                          (fresh-Inv s (lt-length_of_get_elem? m.state 0 e)
                            (==→eq s.cur_state 0 cur) idle (ground (arith, never)))
                          (==→eq s.cur_state 0 cur)))))))))
      ]))
