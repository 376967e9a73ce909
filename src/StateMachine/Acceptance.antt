-- ===== src/StateMachine/Acceptance.antt =====
-- Which commands are accepted: `handle_cmd` against `is_cmd_allowed`.
use codon.Prelude.{
  ℕ, ◌<◌, ◌≡◌, refl, ◌⊎◌, inl, inr, ◌↔◌, true, false, some, arith, length, Option-cases, Bool-cases,
}
use codon.Prelude.Int.{ℤ}
use codon.StateMachine.Types.{accept, defer, Machine, SmSlate, Platform, next_state, ignore_state}
use codon.StateMachine.Commands.{Handled, is_cmd_allowed, handle_cmd, resolve_cmd}
use codon.StateMachine.Invariant.{Laws, is_idle, set_nominal_lem}
use codon.StateMachine.Handling.{Scheduled}

module _ {W C D : Type 0} (p : Platform W C D) (m : Machine) (l : Laws p m) where
  open p use {get_index, is_noop, is_invalid, check}

  -- A valid command of the table, not the no-op, that leads from the current state to a real state
  -- is accepted and becomes the pending command of an idle machine, due not after the given time.
  pub handle_cmd_schedules :
      (s : SmSlate D) (t : ℤ) (c : C) (target : ℕ)
      → is_idle p m s ≡ true
      → is_invalid c ≡ false
      → check c ≡ true
      → is_noop c ≡ false
      → next_state m.state s.cur_state (get_index c) ≡ some target
      → target < length m.state
      → (r : Handled D) × (handle_cmd p m s t c ≡ some r) × Scheduled p m l s t c r
  unfolding handle_cmd resolve_cmd
  handle_cmd_schedules s t c target idle valid known acts leads real =
      let (n, e, late, _) =
        set_nominal_lem p m l (record s { pending_cmd_index = get_index c }) t in
      let r : Handled D = record {
        slate = record s { pending_cmd_index = get_index c; nominal_transition_time = n };
        good = true;
        response = accept;
        retry_at = s.nominal_transition_time;
      } in
      (
        r,
        ground (arith, e, l.states_fit),
        record {
          idle = idle;
          valid = valid;
          known = known;
          acts = acts;
          target = target;
          leads = leads;
          real = real;
          accepted = refl;
          good = refl;
          time = n;
          not_late = late;
          slate = refl;
        },
      )

  -- While a command is pending every command is deferred, to be tried again at the time of the
  -- pending transition, and nothing changes.
  pub handle_cmd_defers :
      (s : SmSlate D) (t : ℤ) (c : C)
      → is_idle p m s ≡ false
      → handle_cmd p m s t c
        ≡ some (record {
          slate = s;
          good = true;
          response = defer;
          retry_at = s.nominal_transition_time;
        })
  unfolding handle_cmd
  handle_cmd_defers s t c busy = ground arith

  allowed-target :
      (s : SmSlate D) (c : C)
      → is_cmd_allowed p m s c ≡ true
      → is_noop c ≡ false
      → (target : ℕ) × (next_state m.state s.cur_state (get_index c) ≡ some target)
        × (target < length m.state)
  unfolding is_cmd_allowed
  allowed-target s c h acts = elim (Option-cases (next_state m.state s.cur_state (get_index c))) [
    | inl e ↦ absurd (ground arith)
    | inr (target, e) ↦ (target, e, ground arith)
  ]

  target-allowed :
      (s : SmSlate D) (c : C) (target : ℕ)
      → next_state m.state s.cur_state (get_index c) ≡ some target
      → target < length m.state
      → is_cmd_allowed p m s c ≡ true
  unfolding is_cmd_allowed
  target-allowed s c target leads real = ground (arith, l.states_fit)

  noop-allowed : (s : SmSlate D) (c : C) → is_noop c ≡ true → is_cmd_allowed p m s c ≡ true
  unfolding is_cmd_allowed
  noop-allowed s c e = ground arith

  -- `is_cmd_allowed` is true of the no-op and of the commands that lead to a real state, and of no
  -- other.
  pub is_cmd_allowed_iff :
      (s : SmSlate D) (c : C)
      → (is_cmd_allowed p m s c ≡ true) ↔ (
          (is_noop c ≡ true)
          ⊎ ((target : ℕ) × (next_state m.state s.cur_state (get_index c) ≡ some target)
              × (target < length m.state)))
  is_cmd_allowed_iff s c = (
    λ h. elim (Bool-cases (is_noop c)) [ inl e ↦ inl e | inr e ↦ inr (allowed-target s c h e) ],
    λ h. elim h [
      | inl e ↦ noop-allowed s c e
      | inr (target, leads, real) ↦ target-allowed s c target leads real
    ],
  )

  -- A command that is to be ignored in the current state is not allowed by `is_cmd_allowed`, and
  -- yet an idle machine accepts it.
  pub ignored_accepted_not_allowed :
      (s : SmSlate D) (t : ℤ) (c : C)
      → is_idle p m s ≡ true
      → is_invalid c ≡ false
      → check c ≡ true
      → is_noop c ≡ false
      → next_state m.state s.cur_state (get_index c) ≡ some ignore_state
      → (is_cmd_allowed p m s c ≡ false)
        × (handle_cmd p m s t c
            ≡ some (record {
              slate = s;
              good = true;
              response = accept;
              retry_at = s.nominal_transition_time;
            }))
  unfolding is_cmd_allowed handle_cmd resolve_cmd
  ignored_accepted_not_allowed s t c idle valid known acts leads =
      (ground (arith, l.states_fit), ground (arith, l.states_fit))
