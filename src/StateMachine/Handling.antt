-- ===== src/StateMachine/Handling.antt =====
-- `handle_cmd` against the machine's invariant: what it accepts, and what it leaves alone.
use codon.Prelude.{
  ℕ, ◌<◌, ◌≡◌, ◌≢◌, refl, ◌⊎◌, inl, inr, Bool, true, false, Option, none, some, arith, Option-cases,
  get_elem?, length, ◌∙◌,
}
use codon.Prelude.Int.{ℤ, ◌-ℤ◌, ◌<ℤ◌, ◌≤ℤ◌}
use codon.StateMachine.Types.{
  Response, accept, defer, reject, ControlState, Machine, SmSlate, Platform, next_state,
}
use codon.StateMachine.Commands.{Handled, set_nominal_transition_time, resolve_cmd, handle_cmd}
use codon.StateMachine.Invariant.{Laws, is_idle, set_nominal_lem}

module _ {W C D : Type 0} (p : Platform W C D) (m : Machine) (l : Laws p m) where
  open p use {noop_cmd_index, get_index, is_noop, is_invalid, check}

  -- `c` has become the pending command of `s`, and is due at a time not after `t`.
  pub record Scheduled (s : SmSlate D) (t : ℤ) (c : C) (r : Handled D) : Type 0 where
    pub idle : is_idle p m s ≡ true
    pub valid : is_invalid c ≡ false
    pub known : check c ≡ true
    pub acts : is_noop c ≡ false
    pub target : ℕ
    pub leads : next_state m.state s.cur_state (get_index c) ≡ some target
    pub real : target < length m.state
    pub accepted : r.response ≡ accept
    pub good : r.good ≡ true
    pub time : ℤ
    pub not_late : time ≤ℤ t
    pub slate :
        r.slate ≡ record s { pending_cmd_index = get_index c; nominal_transition_time = time }

  abbrev given : SmSlate D → C → ℤ → SmSlate D
  given s c n = record s { pending_cmd_index = get_index c; nominal_transition_time = n }

  module _ (s : SmSlate D) (t : ℤ) (c : C) (ns : ℕ) (n : ℤ) where
    abbrev Resolved : Handled D → Type 0
    Resolved r =
        (r.slate ≡ s)
        ⊎ ((r.slate ≡ given s c n)
            × (ns < length m.state)
            × (is_noop c ≡ false)
            × (r.response ≡ accept)
            × (r.good ≡ true))

    resolve_cmd_at :
        set_nominal_transition_time p m (record s { pending_cmd_index = get_index c }) t
          ≡ some (given s c n)
        → {r : Handled D} → resolve_cmd p m s t c ns ≡ some r
        → Resolved r
    unfolding resolve_cmd
    resolve_cmd_at e h = ground arith

    resolve_cmd-ne-none :
        set_nominal_transition_time p m (record s { pending_cmd_index = get_index c }) t
          ≡ some (given s c n)
        → resolve_cmd p m s t c ns ≢ none
    unfolding resolve_cmd
    resolve_cmd-ne-none e h = ground arith

  -- `handle_cmd` either answers at once, or goes on with the next state that it has looked up.
  record Looked (s : SmSlate D) (t : ℤ) (c : C) : Type 0 where
    idle : is_idle p m s ≡ true
    valid : is_invalid c ≡ false
    known : check c ≡ true
    ns : ℕ
    leads : next_state m.state s.cur_state (get_index c) ≡ some ns
    goes_on : handle_cmd p m s t c ≡ resolve_cmd p m s t c ns

  abbrev Answered : SmSlate D → ℤ → C → Type 0
  Answered s t c = (r : Handled D) × (handle_cmd p m s t c ≡ some r) × (r.slate ≡ s)

  handle_cmd_cases : (s : SmSlate D) (t : ℤ) (c : C) → Answered s t c ⊎ Looked s t c
  unfolding handle_cmd
  handle_cmd_cases s t c =
      by_tests (is_idle p m s) (is_invalid c) (check c) refl refl refl
        (get_elem? m.state s.cur_state) refl
    where
      answer : Bool → Response → Handled D
      answer good response = record {
        slate = s;
        good = good;
        response = response;
        retry_at = s.nominal_transition_time;
      }

      by_index :
          (cs : ControlState) (o : Option ℕ)
          → is_idle p m s ≡ true
          → is_invalid c ≡ false
          → check c ≡ true
          → get_elem? m.state s.cur_state ≡ some cs
          → get_elem? cs.cmds (get_index c) ≡ o
          → Answered s t c ⊎ Looked s t c
      by_index cs none i v k e o = inl (answer false defer, ground arith, refl)
      by_index cs (some ns) i v k e o = inr (record {
        idle = i;
        valid = v;
        known = k;
        ns = ns;
        leads = ground arith;
        goes_on = ground arith;
      })

      by_tests :
          (idle invalid known : Bool)
          → is_idle p m s ≡ idle
          → is_invalid c ≡ invalid
          → check c ≡ known
          → (o : Option ControlState) → get_elem? m.state s.cur_state ≡ o
          → Answered s t c ⊎ Looked s t c
      by_tests false v k i iv kn o e = inl (answer true defer, ground arith, refl)
      by_tests true true k i iv kn o e = inl (answer false reject, ground arith, refl)
      by_tests true false false i iv kn o e = inl (answer false reject, ground arith, refl)
      by_tests true false true i iv kn none e = inl (answer false defer, ground arith, refl)
      by_tests true false true i iv kn (some cs) e =
          by_index cs (get_elem? cs.cmds (get_index c)) i iv kn e refl

  -- Every call of `handle_cmd` returns, and either leaves the slate as it was or schedules the
  -- command, which it does only for a valid command of the table that leads to a real state while no
  -- command is pending, and then says that it is accepted.
  pub handle_cmd_lem :
      (s : SmSlate D) (t : ℤ) (c : C)
      → (r : Handled D) × (handle_cmd p m s t c ≡ some r) × ((r.slate ≡ s) ⊎ Scheduled s t c r)
  handle_cmd_lem s t c = elim (handle_cmd_cases s t c) [
    | inl (r, e, same) ↦ (r, e, inl same)
    | inr k ↦ resolved k (set_nominal_lem p m l (record s { pending_cmd_index = get_index c }) t)
  ]
    where
      resolved :
          Looked s t c
          → (n : ℤ) × (set_nominal_transition_time p m
                (record s { pending_cmd_index = get_index c })
                t
              ≡ some (given s c n))
            × (n ≤ℤ t)
            × (t -ℤ m.transition_period <ℤ n)
          → (r : Handled D) × (handle_cmd p m s t c ≡ some r) × ((r.slate ≡ s) ⊎ Scheduled s t c r)
      resolved k (n, e, late, _) = elim (Option-cases (resolve_cmd p m s t c k.ns)) [
        | inl fails ↦ absurd (resolve_cmd-ne-none s t c k.ns n e fails)
        | inr (r, h) ↦ (
          r,
          k.goes_on ∙ h,
          elim (resolve_cmd_at s t c k.ns n e h) [
            | inl same ↦ inl same
            | inr (slate, real, acts, accepted, good) ↦ inr (record {
              idle = k.idle;
              valid = k.valid;
              known = k.known;
              acts = acts;
              target = k.ns;
              leads = k.leads;
              real = real;
              accepted = accepted;
              good = good;
              time = n;
              not_late = late;
              slate = slate;
            })
          ],
        )
      ]
