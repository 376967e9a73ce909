-- ===== src/StateMachine/Graph.antt =====
-- `validate_graph` and `search_for_cycle`: the check, before a machine runs, that no loop of
-- timeouts goes through dangerous states only.
use codon.Prelude.{
  ℕ, zero, suc, ◌+◌, Bool, true, false, not, ◌&&◌, ◌||◌, List, [], ◌∷◌, Option, none, some, ltb,
  ◌==◌, if◌then◌else◌, get_elem?, set, length,
}
use codon.Prelude.Int.{ltb_ℤ, eqb_ℤ}
use codon.StateMachine.Types.{ControlState, Machine, next_state}
use codon.StateMachine.Transitions.{is_empty}

-- `enum color`
pub data Color : Type 0 where
  unexplored in_progress explored : Color

-- `std::set<uint>` as the list of its members in order.
abbrev pub member : List ℕ → ℕ → Bool
member [] i = false
member (j ∷ js) i = j == i || member js i

abbrev pub blank : List ControlState → List Color
blank [] = []
blank (_ ∷ rest) = unexplored ∷ blank rest

module _ (m : Machine) (timeout_index : ℕ) where
  -- The test on each state in `validate_graph`; `target` is where its timeout leads.
  unfoldable pub is_dangerous : Bool → ControlState → ℕ → Bool
  is_dangerous allow_single_cycle cs target =
      not (is_empty cs.seqs)
      && (ltb_ℤ cs.duration m.transition_period
          || not allow_single_cycle && eqb_ℤ cs.duration m.transition_period)
      && ltb target (length m.state)

  -- The dangerous states among `rest`, the states from number `i` on; `none` is a failed FswAssert.
  unfoldable pub dangerous_from : Bool → ℕ → List ControlState → Option (List ℕ)
  dangerous_from allow_single_cycle i [] = some []
  dangerous_from allow_single_cycle i (cs ∷ rest) = elim (get_elem? cs.cmds timeout_index) [
    | none ↦ none
    | some target ↦ elim (dangerous_from allow_single_cycle (i + 1) rest) [
      | none ↦ none
      | some found ↦ some (if is_dangerous allow_single_cycle cs target then i ∷ found else found)
    ]
  ]

  -- The result is the colors and `cycle_detected`; `none` is a failed FswAssert, or no fuel.
  -- `named` is whether the timeout command is called "timeout".
  unfoldable pub search_for_cycle :
      Bool → ℕ → List ℕ → List Color → Bool → ℕ → Option (List Color × Bool)
  search_for_cycle named zero dangerous colors cycle_detected i = none
  search_for_cycle named (suc fuel) dangerous colors cycle_detected i = elim (get_elem? colors i) [
    | none ↦ none
    | some in_progress ↦ none
    | some explored ↦ none
    | some unexplored ↦ elim (member dangerous i) [
      | false ↦ some (set colors i explored, cycle_detected)
      | true ↦ elim named [
        | false ↦ none
        | true ↦ elim (next_state m.state i timeout_index) [
          | none ↦ none
          | some next ↦
              let colors1 = set colors i in_progress in
              elim (ltb next (length m.state)) [
                | false ↦ some (set colors1 i explored, cycle_detected)
                | true ↦ elim (get_elem? colors1 next) [
                  | none ↦ none
                  | some in_progress ↦ if member dangerous next then some (colors1, true) else none
                  | some explored ↦ some (set colors1 i explored, cycle_detected)
                  | some unexplored ↦
                      elim (search_for_cycle named fuel dangerous colors1 cycle_detected next) [
                        | none ↦ none
                        | some (colors2, cycle) ↦ some (set colors2 i explored, cycle)
                      ]
                ]
              ]
        ]
      ]
    ]
  ]

  -- The loop of `validate_graph` over the dangerous states that are left.
  unfoldable pub explore : Bool → ℕ → List ℕ → List ℕ → List Color → Option Bool
  explore named fuel dangerous [] colors = some true
  explore named fuel dangerous (i ∷ rest) colors = elim (get_elem? colors i) [
    | none ↦ none
    | some in_progress ↦ explore named fuel dangerous rest colors
    | some explored ↦ explore named fuel dangerous rest colors
    | some unexplored ↦ elim (search_for_cycle named fuel dangerous colors false i) [
      | none ↦ none
      | some (colors', true) ↦ some false
      | some (colors', false) ↦ explore named fuel dangerous rest colors'
    ]
  ]

  -- One unit of fuel for each state is enough, since each call colours one.
  unfoldable pub validate_graph : Bool → Bool → Option Bool
  validate_graph named allow_single_cycle = elim named [
    | false ↦ none
    | true ↦ elim (dangerous_from allow_single_cycle 0 m.state) [
      | none ↦ none
      | some dangerous ↦ explore true (length m.state) dangerous dangerous (blank m.state)
    ]
  ]
