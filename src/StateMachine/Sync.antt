-- ===== src/StateMachine/Sync.antt =====
-- What `SyncStateMachine::dispatch` promises: no assertion fails, the bookkeeping of partial
-- transitions stays right, and a pending command is carried out on the next dispatch.
use codon.Prelude.{
  ℕ, ◌<◌, ◌≡◌, refl, ◌∙◌, inl, inr, Bool, true, false, not, ◌&&◌, some, arith, ◌==◌, ==_refl,
  Bool-cases, length,
}
use codon.Prelude.Int.{ℤ, ◌<ℤ◌, nano_t_max}
use codon.StateMachine.Types.{Machine, SmSlate, Platform}
use codon.StateMachine.Transitions.{log_refuses}
use codon.StateMachine.Dispatch.{sync_transition, sync_dispatch}
use codon.StateMachine.Invariant.{Laws, Armed, Inv, Fed, is_idle}
use codon.StateMachine.Feeding.{dispatch_pre_tasks-Fed}
use codon.StateMachine.Settling.{settled, handle_pending_cmd_lem}
use codon.StateMachine.SyncDispatch.{sync_rest_lem}

module _ {W C D : Type 0} (p : Platform W C D) (m : Machine) where
  open p use {noop_cmd_index}

  -- Between two dispatches: a recorded command is the pending one.
  pub record SyncInv (s : SmSlate D) : Type 0 where
    pub inv : Inv p m s
    pub recorded :
        (s.last_pending_cmd_index == noop_cmd_index) ≡ false
        → s.last_pending_cmd_index ≡ s.pending_cmd_index

module _ {W C D : Type 0} (p : Platform W C D) (m : Machine) (l : Laws p m) where
  open p use {noop_cmd_index}

  -- What the transition check makes of `s`.
  record Checked (s s' : SmSlate D) : Type 0 where
    inv : Inv p m s'
    idle : is_idle p m s' ≡ true
    went : is_idle p m s ≡ false → (a : Armed p m s) × (s' ≡ settled p m s a.target)
    stayed : is_idle p m s ≡ true → s' ≡ s

  pub settled-Inv :
      (s : SmSlate D) (new : ℕ)
      → s.cur_state < length m.state
      → new < length m.state
      → Inv p m (settled p m s new)
  settled-Inv s new cur_in real = record {
    cur_in = elim (Bool-cases (m.is_init && not (log_refuses p m s.pending_cmd_index))) [
      | inl e ↦ rw e real
      | inr e ↦ rw e cur_in
    ];
    idle_time = λ _. refl;
    armed = λ e. absurd (ground (arith, ==_refl noop_cmd_index));
    due = λ e. absurd (ground (arith, ==_refl noop_cmd_index));
  }

  sync_transition_lem :
      (t : ℤ) (partial : Bool) (s : SmSlate D) (w : W)
      → (v : Inv p m s) → t <ℤ nano_t_max
      → (s' : SmSlate D) × (w' : W) × (b : Bool) × (sync_transition p m t partial s w
          ≡ some (s', w', b))
        × Checked s s'
  unfolding sync_transition
  sync_transition_lem t partial s w v early = elim (Bool-cases (is_idle p m s)) [
    | inl idle ↦ (
      s,
      w,
      false,
      rw (idle, sync_transition) refl,
      record { inv = v; idle = idle; went = λ busy. absurd (ground arith); stayed = λ _. refl },
    )
    | inr busy ↦
        let a = v.armed busy in
        let (w', good, e) =
          handle_pending_cmd_lem p m s w t (not partial) false (not partial) early l.states_fit
            v.cur_in busy a in
        (
          settled p m s a.target,
          w',
          true,
          rw (busy, sync_transition) (rw (e, sync_transition) refl),
          record {
            inv = settled-Inv s a.target v.cur_in a.real;
            idle = ==_refl noop_cmd_index;
            went = λ _. (a, refl);
            stayed = λ idle. absurd (ground arith);
          },
        )
  ]

  -- All that the theorems below need of one dispatch.
  record Dispatched (t : ℤ) (s : SmSlate D) (w : W) : Type 0 where
    pre : SmSlate D
    fed_pre : Fed p m s pre
    mid : SmSlate D
    checked : Checked pre mid
    post : SmSlate D
    world : W
    fed_post : Fed p m mid post
    runs :
        sync_dispatch p m t s w
        ≡ some (record post { last_pending_cmd_index = post.pending_cmd_index }, world, nano_t_max)

  sync_dispatch-Dispatched :
      (t : ℤ) (s : SmSlate D) (w : W) → SyncInv p m s → t <ℤ nano_t_max → Dispatched t s w
  unfolding sync_dispatch
  sync_dispatch-Dispatched t s w v early =
      let (s1, w1, t1, e1, f1) = dispatch_pre_tasks-Fed p m l t s w v.inv early in
      let partial = not (s1.last_pending_cmd_index == noop_cmd_index) in
      let (s2, w2, b, e2, c) = sync_transition_lem t partial s1 w1 f1.inv early in
      let (s3, w3, e3, f3) = sync_rest_lem p m l t partial b s2 w2 c.inv early c.idle in
      let agrees : (partial && not (s1.last_pending_cmd_index == s1.pending_cmd_index)) ≡ false =
        ground (arith, v.recorded, f1.last, f1.kept) in
      record {
        pre = s1;
        fed_pre = f1;
        mid = s2;
        checked = c;
        post = s3;
        world = w3;
        fed_post = f3;
        runs = rw (e1, sync_dispatch) (rw (agrees, sync_dispatch) (rw (e2, sync_dispatch) e3));
      }

  -- For any behaviour of the control tasks, event sequences and listeners, a synchronous dispatch
  -- before the end of time returns (no FswAssert of it fails), always with `nano_t_max`, keeps the
  -- invariant, and leaves the pending command recorded.
  pub sync_dispatch-SyncInv :
      (t : ℤ) (s : SmSlate D) (w : W)
      → SyncInv p m s
      → t <ℤ nano_t_max
      → (s' : SmSlate D) × (w' : W) × (sync_dispatch p m t s w ≡ some (s', w', nano_t_max))
        × SyncInv p m s'
        × (s'.last_pending_cmd_index ≡ s'.pending_cmd_index)
  sync_dispatch-SyncInv t s w v early =
      let d = sync_dispatch-Dispatched t s w v early in
      let i = d.fed_post.inv in
      (
        record d.post { last_pending_cmd_index = d.post.pending_cmd_index },
        d.world,
        d.runs,
        record {
          inv = record {
            cur_in = i.cur_in;
            idle_time = i.idle_time;
            armed = λ e.
                let a = i.armed e in record { target = a.target; leads = a.leads; real = a.real };
            due = i.due;
          };
          recorded = λ _. refl;
        },
        refl,
      )

  -- A command that is pending before a synchronous dispatch is carried out by it: the machine ends in
  -- the state that the command leads to and remembers the two states before, whatever commands the
  -- tasks issue meanwhile. `init` must have succeeded and the debug log know the command.
  pub sync_dispatch_completes :
      (t : ℤ) (s : SmSlate D) (w : W)
      → SyncInv p m s
      → t <ℤ nano_t_max
      → is_idle p m s ≡ false
      → m.is_init ≡ true
      → log_refuses p m s.pending_cmd_index ≡ false
      → (a : Armed p m s)
      → (s' : SmSlate D) × (w' : W) × (sync_dispatch p m t s w ≡ some (s', w', nano_t_max))
        × (s'.cur_state ≡ a.target)
        × (s'.old_state ≡ s.cur_state)
        × (s'.older_state ≡ s.old_state)
  sync_dispatch_completes t s w v early busy init logs a =
      let d = sync_dispatch-Dispatched t s w v early in
      let f = d.fed_pre in
      let kept = f.kept busy in
      let (b, e) = d.checked.went (ground (arith, kept)) in
      let same : b.target ≡ a.target = ground (arith, kept, f.cur, a.leads, b.leads) in
      let cur : d.mid.cur_state ≡ a.target = ground (arith, e, kept, same, logs, init) in
      let old : d.mid.old_state ≡ s.cur_state = ground (arith, e, kept, f.cur, logs, init) in
      let older : d.mid.older_state ≡ s.old_state = ground (arith, e, kept, f.old, logs, init) in
      (
        record d.post { last_pending_cmd_index = d.post.pending_cmd_index },
        d.world,
        d.runs,
        d.fed_post.cur ∙ cur,
        d.fed_post.old ∙ old,
        d.fed_post.older ∙ older,
      )
