-- ===== src/StateMachine/Feeding.antt =====
-- The turns of control tasks and event sequences: however they use `handle_cmd`, they keep the
-- invariant, and a command that is pending stays the pending one.
use codon.Prelude.{
  ℕ, zero, suc, ◌+◌, ◌≡◌, refl, inl, inr, false, Option, some, arith, ◌==◌, Bool-cases, subst, sym,
}
use codon.Prelude.Int.{ℤ, ◌<ℤ◌, nano_t_max, min_ℤ}
use codon.StateMachine.Types.{Machine, SmSlate, Platform, Turn, done, issue}
use codon.StateMachine.Commands.{Handled, handle_cmd}
use codon.StateMachine.Dispatch.{
  Ran, run_turn, dispatch_tasks, dispatch_pre_tasks, dispatch_post_tasks,
}
use codon.StateMachine.Invariant.{Laws, Inv, Fed, Fed-refl, Fed-trans}
use codon.StateMachine.Handling.{Scheduled, handle_cmd_lem}

module _ {W C D : Type 0} (p : Platform W C D) (m : Machine) (l : Laws p m) where
  open p use {noop_cmd_index, get_index, is_noop}

  Scheduled-busy :
      {s : SmSlate D} {t : ℤ} {c : C} {r : Handled D}
      → Scheduled p m l s t c r
      → (get_index c == noop_cmd_index) ≡ false
  Scheduled-busy {c = c} h = elim (Bool-cases (get_index c == noop_cmd_index)) [
    | inl e ↦ ground (arith, h.acts, l.noop_index c e)
    | inr e ↦ e
  ]

  Scheduled-Fed :
      (s : SmSlate D) (t : ℤ) (c : C) (r : Handled D)
      → Inv p m s
      → t <ℤ nano_t_max
      → Scheduled p m l s t c r
      → Fed p m s r.slate
  Scheduled-Fed s t c r v early h = subst (Fed p m s) (sym h.slate) (record {
    inv = record {
      cur_in = v.cur_in;
      idle_time = λ e. ground (arith, Scheduled-busy h);
      armed = λ _. record { target = h.target; leads = h.leads; real = h.real };
      due = λ _. omega (arith, h.not_late);
    };
    cur = refl;
    old = refl;
    older = refl;
    last = refl;
    kept = λ e. ground (arith, h.idle);
    kept_time = λ e. ground (arith, h.idle);
  })

  -- A command never fails, and keeps the invariant and a pending command.
  pub handle_cmd-Fed :
      (s : SmSlate D) (t : ℤ) (c : C)
      → Inv p m s
      → t <ℤ nano_t_max
      → (r : Handled D) × (handle_cmd p m s t c ≡ some r) × Fed p m s r.slate
  handle_cmd-Fed s t c v early =
      let (r, e, d) = handle_cmd_lem p m l s t c in
      (
        r,
        e,
        elim d [
          | inl same ↦ subst (Fed p m s) (sym same) (Fed-refl p m v)
          | inr h ↦ Scheduled-Fed s t c r v early h
        ],
      )

  -- What a run of part of a dispatch from `s` gives.
  abbrev pub Runs : SmSlate D → Option (Ran W D) → Type 0
  Runs s o = (s' : SmSlate D) × (w' : W) × (t' : ℤ) × (o ≡ some (s', w', t')) × Fed p m s s'

  pub run_turn-Fed :
      (s : SmSlate D) (t : ℤ) (turn : Turn W C)
      → Inv p m s
      → t <ℤ nano_t_max
      → Runs s (run_turn p m s t turn)
  unfolding run_turn
  run_turn-Fed s t (done w next) v early = (s, w, next, refl, Fed-refl p m v)
  run_turn-Fed s t (issue c next) v early =
      let (r, e, fed) = handle_cmd-Fed s t c v early in
      let (s', w', t', e', fed') =
        run_turn-Fed r.slate t (next r.good r.response r.retry_at) fed.inv early in
      (s', w', t', rw (e, run_turn) e', Fed-trans p m fed fed')

  dispatch_tasks-Fed :
      (count i : ℕ) (t next_event : ℤ) (s : SmSlate D) (w : W)
      → Inv p m s
      → t <ℤ nano_t_max
      → Runs s (dispatch_tasks p m count i t next_event s w)
  unfolding dispatch_tasks
  dispatch_tasks-Fed zero i t next_event s w v early = (s, w, next_event, refl, Fed-refl p m v)
  dispatch_tasks-Fed (suc count) i t next_event s w v early = elim (Bool-cases (p.is_active i w)) [
    | inl active ↦
        let (s', w', t', e, fed) = run_turn-Fed s t (p.dispatch_task i t s w) v early in
        let (s2, w2, t2, e2, fed2) =
          dispatch_tasks-Fed count (i + 1) t (min_ℤ next_event t') s' w' fed.inv early in
        (
          s2,
          w2,
          t2,
          rw (active, dispatch_tasks) (rw (e, dispatch_tasks) e2),
          Fed-trans p m fed fed2,
        )
    | inr idle ↦
        let (s2, w2, t2, e2, fed2) = dispatch_tasks-Fed count (i + 1) t next_event s w v early in
        (s2, w2, t2, rw (idle, dispatch_tasks) e2, fed2)
  ]

  pub dispatch_pre_tasks-Fed :
      (t : ℤ) (s : SmSlate D) (w : W)
      → Inv p m s
      → t <ℤ nano_t_max
      → Runs s (dispatch_pre_tasks p m t s w)
  unfolding dispatch_pre_tasks
  dispatch_pre_tasks-Fed t s w v early = dispatch_tasks-Fed _ _ t _ s w v early

  pub dispatch_post_tasks-Fed :
      (t : ℤ) (s : SmSlate D) (w : W)
      → Inv p m s
      → t <ℤ nano_t_max
      → Runs s (dispatch_post_tasks p m t s w)
  unfolding dispatch_post_tasks
  dispatch_post_tasks-Fed t s w v early = dispatch_tasks-Fed _ _ t _ s w v early
