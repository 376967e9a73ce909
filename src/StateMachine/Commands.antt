-- ===== src/StateMachine/Commands.antt =====
-- `is_cmd_allowed`, `has_cmd` and `handle_cmd`: the commands' way into the machine.
use codon.Prelude.{
  ℕ, Bool, true, false, not, ◌&&◌, ◌||◌, List, [], ◌∷◌, Option, none, some, leb, ◌==◌,
  if◌then◌else◌, get_elem?, length,
}
use codon.Prelude.Int.{ℤ, ◌-ℤ◌, ltb_ℤ, leb_ℤ}
use codon.StateMachine.Types.{
  Response, accept, defer, reject, ControlState, Machine, SmSlate, Platform, undefined_state,
  ignore_state,
}

-- What `handle_cmd` leaves: the slate, its return value and its two out-parameters.
pub record Handled (D : Type 0) : Type 0 where
  pub slate : SmSlate D
  pub good : Bool
  pub response : Response
  pub retry_at : ℤ

module _ {W C D : Type 0} (p : Platform W C D) (m : Machine) where
  open p use {
    get_index, is_noop, is_invalid, check, is_timeout, noop_cmd_index, calculate_next_time,
  }

  unfoldable pub is_cmd_allowed : SmSlate D → C → Bool
  is_cmd_allowed s c = if is_noop c then true else elim (get_elem? m.state s.cur_state) [
    | none ↦ false
    | some cs ↦ elim (get_elem? cs.cmds (get_index c)) [
      | none ↦ false
      | some next ↦
          if leb (length m.state) next
          then false
          else if next == ignore_state
          then true
          else if next == undefined_state
          then false
          else true
    ]
  ]

  -- The loop of `has_cmd`; a state whose commands stop short of `index` ends it.
  unfoldable pub has_cmd_in : ℕ → List ControlState → Bool
  has_cmd_in index [] = false
  has_cmd_in index (cs ∷ rest) = elim (get_elem? cs.cmds index) [
    | none ↦ false
    | some next ↦ if next == undefined_state then has_cmd_in index rest else true
  ]

  unfoldable pub has_cmd : C → Bool
  has_cmd c = if is_noop c then true else has_cmd_in (get_index c) m.state

  -- `none` is a failed FswAssert, which ends the process.
  unfoldable pub set_nominal_transition_time : SmSlate D → ℤ → Option (SmSlate D)
  set_nominal_transition_time s control_time =
      let nominal = calculate_next_time control_time m.transition_period -ℤ m.transition_period in
      if ltb_ℤ (control_time -ℤ m.transition_period) nominal && leb_ℤ nominal control_time
      then some (record s { nominal_transition_time = nominal })
      else none

  -- The part of `handle_cmd` behind the lookup of the next state `ns`.
  unfoldable pub resolve_cmd : SmSlate D → ℤ → C → ℕ → Option (Handled D)
  resolve_cmd s control_time c ns =
      if is_timeout c && ns == undefined_state
      then some (answer true reject)
      else if is_timeout c && ns == ignore_state
      then some (answer true accept)
      else if ns == ignore_state || is_noop c
      then some (answer true accept)
      else if ns == undefined_state
      then some (answer true reject)
      else if leb (length m.state) ns
      then some (answer true reject)
      else elim (set_nominal_transition_time (record s { pending_cmd_index = get_index c })
          control_time) [
            | none ↦ none
            | some s' ↦ some (record (answer true accept) { slate = s' })
          ]
    where
      answer : Bool → Response → Handled D
      answer good response = record {
        slate = s;
        good = good;
        response = response;
        retry_at = s.nominal_transition_time;
      }

  unfoldable pub handle_cmd : SmSlate D → ℤ → C → Option (Handled D)
  handle_cmd s control_time c =
      if not (s.pending_cmd_index == noop_cmd_index)
      then some (answer true defer)
      else if is_invalid c
      then some (answer false reject)
      else if not (check c)
      then some (answer false reject)
      else elim (get_elem? m.state s.cur_state) [
        | none ↦ some (answer false defer)
        | some cs ↦ elim (get_elem? cs.cmds (get_index c)) [
          | none ↦ some (answer false defer)
          | some ns ↦ resolve_cmd s control_time c ns
        ]
      ]
    where
      answer : Bool → Response → Handled D
      answer good response = record {
        slate = s;
        good = good;
        response = response;
        retry_at = s.nominal_transition_time;
      }
