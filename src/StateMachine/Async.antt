-- ===== src/StateMachine/Async.antt =====
-- What `AsyncStateMachine::dispatch` promises.
use codon.Prelude.{
  ◌≡◌, refl, inl, inr, Bool, true, false, some, arith, Bool-cases, get_elem?-lt, if◌then◌else◌, ◌∙◌,
}
use codon.Prelude.Int.{ℤ, ◌<ℤ◌, ◌≤ℤ◌, leb_ℤ, min_ℤ, min_ℤ-le_right, nano_t_max, nano_t_min}
use codon.StateMachine.Types.{Machine, SmSlate, Platform}
use codon.StateMachine.Transitions.{log_refuses}
use codon.StateMachine.Dispatch.{async_transition, async_rest, async_dispatch}
use codon.StateMachine.Invariant.{Laws, Armed, Inv, Fed, Fed-trans, is_idle}
use codon.StateMachine.Feeding.{dispatch_pre_tasks-Fed, dispatch_post_tasks-Fed}
use codon.StateMachine.Settling.{settled, handle_pending_cmd_lem}
use codon.StateMachine.SyncDispatch.{dispatch_sequence-Fed}
use codon.StateMachine.Sync.{settled-Inv}

module _ {W C D : Type 0} (p : Platform W C D) (m : Machine) (l : Laws p m) where
  open p use {noop_cmd_index}

  abbrev pub is_due : ℤ → SmSlate D → Bool
  is_due t s = leb_ℤ s.nominal_transition_time t

  -- The transition check goes to the pending command's target if its time has come.
  record Checked (t : ℤ) (s s' : SmSlate D) : Type 0 where
    inv : Inv p m s'
    went : is_due t s ≡ true → (a : Armed p m s) × (s' ≡ settled p m s a.target)

  async_transition_lem :
      (t next : ℤ) (s : SmSlate D) (w : W)
      → Inv p m s
      → t <ℤ nano_t_max
      → (s' : SmSlate D) × (w' : W) × (next' : ℤ) × (async_transition p m t next s w
          ≡ some (s', w', next'))
        × Checked t s s'
  unfolding async_transition
  async_transition_lem t next s w v early = elim (Bool-cases (is_due t s)) [
    | inr later ↦ (
      s,
      w,
      next,
      rw (later, async_transition) refl,
      record { inv = v; went = λ due. absurd (ground arith) },
    )
    | inl due ↦ elim (Bool-cases (is_idle p m s)) [
      | inl idle ↦ absurd (ground (arith, v.idle_time idle))
      | inr busy ↦
          let a = v.armed busy in
          let (w', good, e) =
            handle_pending_cmd_lem p m s w s.nominal_transition_time true true true (v.due busy)
              l.states_fit v.cur_in busy a in
          (
            settled p m s a.target,
            w',
            nano_t_min,
            rw (due, async_transition) (rw (e, async_transition) refl),
            record { inv = settled-Inv p m l s a.target v.cur_in a.real; went = λ _. (a, refl) },
          )
    ]
  ]

  record Dispatched (t : ℤ) (s : SmSlate D) (w : W) : Type 0 where
    pre : SmSlate D
    fed_pre : Fed p m s pre
    mid : SmSlate D
    checked : Checked t pre mid
    post : SmSlate D
    world : W
    next : ℤ
    fed_post : Fed p m mid post
    runs : async_dispatch p m t s w ≡ some (post, world, min_ℤ next post.nominal_transition_time)

  async_rest_lem :
      (t next : ℤ) (s : SmSlate D) (w : W)
      → Inv p m s
      → t <ℤ nano_t_max
      → (s' : SmSlate D) × (w' : W) × (next' : ℤ) × (async_rest p m t next s w
          ≡ some (s', w', min_ℤ next' s'.nominal_transition_time))
        × Fed p m s s'
  unfolding async_rest
  async_rest_lem t next s w v early =
      let (cs, at_cur) = get_elem?-lt m.state s.cur_state v.cur_in in
      let (s1, w1, t1, b1, e1, f1) = dispatch_sequence-Fed p m l t cs s w v early in
      let (s2, w2, t2, e2, f2) = dispatch_post_tasks-Fed p m l t s1 w1 f1.inv early in
      (
        s2,
        w2,
        min_ℤ (if b1 then nano_t_min else min_ℤ next t1) t2,
        rw (at_cur, async_rest) (rw (e1, async_rest) (rw (e2, async_rest) refl)),
        Fed-trans p m f1 f2,
      )

  async_dispatch-Dispatched :
      (t : ℤ) (s : SmSlate D) (w : W) → Inv p m s → t <ℤ nano_t_max → Dispatched t s w
  unfolding async_dispatch
  async_dispatch-Dispatched t s w v early =
      let (s1, w1, t1, e1, f1) = dispatch_pre_tasks-Fed p m l t s w v early in
      let (s2, w2, t2, e2, c) = async_transition_lem t (min_ℤ nano_t_max t1) s1 w1 f1.inv early in
      let (s3, w3, t3, e3, f3) = async_rest_lem t t2 s2 w2 c.inv early in
      record {
        pre = s1;
        fed_pre = f1;
        mid = s2;
        checked = c;
        post = s3;
        world = w3;
        next = t3;
        fed_post = f3;
        runs = rw (e1, async_dispatch) (rw (e2, async_dispatch) e3);
      }

  -- For any behaviour of the control tasks, event sequences and listeners, an asynchronous dispatch
  -- before the end of time returns (no FswAssert of it fails), keeps the invariant, and asks to be
  -- called back no later than the time of the pending transition.
  pub async_dispatch-Inv :
      (t : ℤ) (s : SmSlate D) (w : W)
      → Inv p m s
      → t <ℤ nano_t_max
      → (s' : SmSlate D) × (w' : W) × (next : ℤ) × (async_dispatch p m t s w ≡ some (s', w', next))
        × Inv p m s'
        × (next ≤ℤ s'.nominal_transition_time)
  async_dispatch-Inv t s w v early =
      let d = async_dispatch-Dispatched t s w v early in
      (
        d.post,
        d.world,
        _,
        d.runs,
        d.fed_post.inv,
        min_ℤ-le_right d.next d.post.nominal_transition_time,
      )

  -- A command whose transition time has come before an asynchronous dispatch is carried out by it:
  -- the machine ends in the state that the command leads to and remembers the two states before.
  -- `init` must have succeeded and the debug log know the command.
  pub async_dispatch_completes :
      (t : ℤ) (s : SmSlate D) (w : W)
      → Inv p m s
      → t <ℤ nano_t_max
      → is_idle p m s ≡ false
      → s.nominal_transition_time ≤ℤ t
      → m.is_init ≡ true
      → log_refuses p m s.pending_cmd_index ≡ false
      → (a : Armed p m s)
      → (s' : SmSlate D) × (w' : W) × (next : ℤ) × (async_dispatch p m t s w ≡ some (s', w', next))
        × (s'.cur_state ≡ a.target)
        × (s'.old_state ≡ s.cur_state)
        × (s'.older_state ≡ s.old_state)
  async_dispatch_completes t s w v early busy due init logs a =
      let d = async_dispatch-Dispatched t s w v early in
      let f = d.fed_pre in
      let kept = f.kept busy in
      let still = f.kept_time busy in
      let (b, e) = d.checked.went (ground (arith, still)) in
      let same : b.target ≡ a.target = ground (arith, kept, f.cur, a.leads, b.leads) in
      let cur : d.mid.cur_state ≡ a.target = ground (arith, e, kept, same, logs, init) in
      let old : d.mid.old_state ≡ s.cur_state = ground (arith, e, kept, f.cur, logs, init) in
      let older : d.mid.older_state ≡ s.old_state = ground (arith, e, kept, f.old, logs, init) in
      (
        d.post,
        d.world,
        _,
        d.runs,
        d.fed_post.cur ∙ cur,
        d.fed_post.old ∙ old,
        d.fed_post.older ∙ older,
      )
