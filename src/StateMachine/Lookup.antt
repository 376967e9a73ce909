-- ===== src/StateMachine/Lookup.antt =====
-- `has_cmd`: whether any state uses a command.
use codon.Prelude.{
  ℕ, zero, suc, ◌<◌, ◌≡◌, ◌↔◌, ◌⊎◌, inl, inr, true, false, List, [], ◌∷◌, some, arith, ◌==◌, All,
  length, get_elem?, get_elem?-lt, Bool-cases,
}
use codon.StateMachine.Types.{ControlState, Machine, Platform, undefined_state, next_state}
use codon.StateMachine.Commands.{has_cmd_in, has_cmd}

-- State `k` of `states` does something with command `index`.
abbrev pub Uses : List ControlState → ℕ → ℕ → Type 0
Uses states index k =
    (next : ℕ) × (next_state states k index ≡ some next) × ((next == undefined_state) ≡ false)

-- A first state that does nothing with the command is not the one that does.
later :
    (index : ℕ) (cs : ControlState) (rest : List ControlState) (next : ℕ)
    → get_elem? cs.cmds index ≡ some next
    → (next == undefined_state) ≡ true
    → ((k : ℕ) × Uses (cs ∷ rest) index k)
    → ((k : ℕ) × Uses rest index k)
later index cs rest next e unused (zero, (next', e', used)) =
    absurd (ground (arith, e, e', unused, used))
later index cs rest next e unused (suc k, u) = (k, u)

module _ {W C D : Type 0} (p : Platform W C D) (m : Machine) where
  has_cmd_in_iff :
      (index : ℕ) (states : List ControlState)
      → All (λ cs. index < length cs.cmds) states
      → (has_cmd_in p m index states ≡ true) ↔ ((k : ℕ) × Uses states index k)
  unfolding has_cmd_in
  has_cmd_in_iff index [] inside = (λ e. absurd (cc), λ (k, (next, e, _)). absurd (cc))
  has_cmd_in_iff index (cs ∷ rest) (here, inside) =
      let (next, e) = get_elem?-lt cs.cmds index here in
      let (to, from) = has_cmd_in_iff index rest inside in
      elim (Bool-cases (next == undefined_state)) [
        | inr used ↦ (λ h. (0, (next, e, used)), λ h. ground (arith, e, used))
        | inl unused ↦ (
          λ h. let (k, u) = to (ground (arith, e, unused)) in (suc k, u),
          λ h. ground (arith, e, unused, from (later index cs rest next e unused h)),
        )
      ]

  -- If each state has an entry for the command, `has_cmd` is true of the no-op and of the commands that
  -- some state does not leave undefined, and of no other.
  pub has_cmd_iff :
      (c : C)
      → All (λ cs. p.get_index c < length cs.cmds) m.state
      → (has_cmd p m c ≡ true) ↔ ((p.is_noop c ≡ true) ⊎ ((k : ℕ) × Uses m.state (p.get_index c) k))
  unfolding has_cmd
  has_cmd_iff c inside =
      let (to, from) = has_cmd_in_iff (p.get_index c) m.state inside in
      elim (Bool-cases (p.is_noop c)) [
        | inl noop ↦ (λ h. inl noop, λ h. ground arith)
        | inr acts ↦ (
          λ h. inr (to (ground arith)),
          λ h. elim h [ inl noop ↦ absurd (ground arith) | inr u ↦ ground (arith, from u) ],
        )
      ]
