-- ===== src/StateMachine/GraphCheck.antt =====
-- `validate_graph`: it returns, and it rejects exactly the machines with a loop of timeouts that goes
-- through dangerous states only.
use codon.Prelude.{
  ℕ, zero, suc, ◌+◌, ◌-◌, ◌<◌, ◌≡◌, refl, ◌∙◌, inl, inr, Bool, true, false, ◌&&◌, ◌||◌, List, [],
  ◌∷◌, none, some, arith, leb, ◌==◌, if◌then◌else◌, get_elem?, length, lt-length_of_get_elem?,
  get_elem?-lt, ℕ_discrete, dec_lt, ap₂, sym, ◌≢◌, subst, Option-cases,
}
use codon.StateMachine.Types.{ControlState, Machine, next_state}
use codon.StateMachine.Graph.{
  Color, unexplored, in_progress, explored, member, blank, is_dangerous, dangerous_from, explore,
  validate_graph,
}
use codon.StateMachine.GraphWalk.{Walk, Walk-start, Safe, Safe-acyclic}
use codon.StateMachine.GraphSearch.{Marked, Searched, count≤length, search_for_cycle_lem}

length-blank : (cs : List ControlState) → length (blank cs) ≡ length cs
length-blank [] = refl
length-blank (_ ∷ cs) = omega (arith, length-blank cs)

get_elem?-blank :
    (cs : List ControlState) (i : ℕ) {c : Color} → get_elem? (blank cs) i ≡ some c → c ≡ unexplored
get_elem?-blank [] i h = absurd (cc)
get_elem?-blank (_ ∷ cs) zero h = cc
get_elem?-blank (_ ∷ cs) (suc i) h = get_elem?-blank cs i h

module _ (m : Machine) (timeout_index : ℕ) (allow : Bool) where
  -- State `k` of `rest` is dangerous: its event sequence is too short and its timeout leads on.
  abbrev pub dangerous_in : List ControlState → ℕ → Bool
  dangerous_in rest k = elim (get_elem? rest k) [
    | none ↦ false
    | some cs ↦ elim (get_elem? cs.cmds timeout_index) [
      | none ↦ false
      | some target ↦ is_dangerous m timeout_index allow cs target
    ]
  ]

  -- The timeout of each state leads from one dangerous state to the next.
  abbrev pub DangerousWalk : ℕ → ℕ → Type 0
  DangerousWalk =
      Walk (length m.state) (dangerous_in m.state) (λ k. next_state m.state k timeout_index)

  abbrev pub HasTimeout : ControlState → Type 0
  HasTimeout cs = timeout_index < length cs.cmds

  -- A state `cs` in front moves the states of `rest` from number `i` to number `i + 1`.
  dangerous_in-shift :
      (cs : ControlState) (rest : List ControlState) (i k : ℕ)
      → (dangerous_in (cs ∷ rest) 0 && i == k || leb (i + 1) k && dangerous_in rest (k - (i + 1)))
        ≡ (leb i k && dangerous_in (cs ∷ rest) (k - i))
  dangerous_in-shift cs rest i k = elim (ℕ_discrete i k) [
    | yes e ↦ let z : k - i ≡ 0 = omega arith in rw z (ground arith)
    | no ne ↦ elim (dec_lt i k) [
      | yes lt ↦ let z : k - i ≡ suc (k - (i + 1)) = omega arith in rw z (ground arith)
      | no ge ↦ ground arith
    ]
  ]

  member-if :
      (b : Bool) (i k : ℕ) (d : List ℕ)
      → member (if b then i ∷ d else d) k ≡ (b && i == k || member d k)
  member-if true i k d = refl
  member-if false i k d = refl

  dangerous_from_lem :
      (i : ℕ) (rest : List ControlState)
      → ((k : ℕ) (cs : ControlState) → get_elem? rest k ≡ some cs → HasTimeout cs)
      → (d : List ℕ) × (dangerous_from m timeout_index allow i rest ≡ some d)
        × ((k : ℕ) → member d k ≡ (leb i k && dangerous_in rest (k - i)))
  unfolding dangerous_from
  dangerous_from_lem i [] has = ([], refl, λ k. ground arith)
  dangerous_from_lem i (cs ∷ rest) has =
      let (target, e) = get_elem?-lt cs.cmds timeout_index (has 0 cs refl) in
      let (d, run, ok) = dangerous_from_lem (i + 1) rest (λ k cs h. has (suc k) cs h) in
      let b = is_dangerous m timeout_index allow cs target in
      let first : dangerous_in (cs ∷ rest) 0 ≡ b = rw (e, dangerous_in) refl in
      (
        (if b then i ∷ d else d),
        rw (e, dangerous_from) (rw (run, dangerous_from) refl),
        λ k.
            member-if b i k d
            ∙ ap₂ (λ x y. x && i == k || y) (sym first) (ok k)
            ∙ dangerous_in-shift cs rest i k,
      )

  module _ (has : (k : ℕ) (cs : ControlState) → get_elem? m.state k ≡ some cs → HasTimeout cs) where
    leads : (k : ℕ) → k < length m.state → (j : ℕ) × (next_state m.state k timeout_index ≡ some j)
    leads k h =
        let (cs, e) = get_elem?-lt m.state k h in
        let (j, e') = get_elem?-lt cs.cmds timeout_index (has k cs e) in (j, rw (e, next_state) e')

    -- What the loop over the dangerous states finds.
    Explored : List ℕ → Bool → Type 0
    Explored rest true =
        (k : ℕ)
        → member rest k ≡ true
        → Safe (length m.state) (dangerous_in m.state) (λ k. next_state m.state k timeout_index) k
    Explored rest false = (k : ℕ) × DangerousWalk k k

    Clear : List Color → Type 0
    Clear colors = (k : ℕ) → get_elem? colors k ≢ some in_progress

    Runs : List ℕ → List ℕ → List Color → Type 0
    Runs d rest colors =
        (b : Bool) × (explore m timeout_index true (length m.state) d rest colors ≡ some b)
        × Explored rest b

    Explored-cons :
        (i : ℕ) (rest : List ℕ) (b : Bool)
        → Safe (length m.state) (dangerous_in m.state) (λ k. next_state m.state k timeout_index) i
        → Explored rest b
        → Explored (i ∷ rest) b
    unfolding Explored
    Explored-cons i rest false s x = x
    Explored-cons i rest true s x = λ k h. elim (ℕ_discrete i k) [
      | yes e ↦
          subst
            (Safe (length m.state) (dangerous_in m.state) (λ k. next_state m.state k timeout_index))
            e s
      | no ne ↦ x k (ground arith)
    ]

    module _ (d : List ℕ) (agree : (k : ℕ) → member d k ≡ dangerous_in m.state k) where
      explore_found :
          (i : ℕ) (rest : List ℕ) (colors : List Color)
          → get_elem? colors i ≡ some unexplored
          → Clear colors
          → ((colors' : List Color)
              → Marked m timeout_index d (dangerous_in m.state) colors'
              → Clear colors'
              → Runs d rest colors')
          → Searched m timeout_index d (dangerous_in m.state) (length m.state) colors i
          → Runs d (i ∷ rest) colors
      unfolding explore Runs Explored Clear
      explore_found i rest colors fresh clear rec (colors', true, run, found) =
          (false, rw (fresh, explore) (rw (run, explore) refl), found)
      explore_found i rest colors fresh clear rec (colors', false, run, found) =
          let (b, e, x) = rec colors' found.marked (λ k h. clear k (found.closed k h)) in
          (b, rw (fresh, explore) (rw (run, explore) e), Explored-cons i rest b found.here x)

      explore_color :
          (i : ℕ) (rest : List ℕ) (colors : List Color)
          → Marked m timeout_index d (dangerous_in m.state) colors
          → Clear colors
          → ((colors' : List Color)
              → Marked m timeout_index d (dangerous_in m.state) colors'
              → Clear colors'
              → Runs d rest colors')
          → (c : Color) → get_elem? colors i ≡ some c
          → Runs d (i ∷ rest) colors
      unfolding explore Runs Clear
      explore_color i rest colors k clear rec in_progress h = absurd (clear i h)
      explore_color i rest colors k clear rec explored h =
          let (b, e, x) = rec colors k clear in
          (b, rw (h, explore) e, Explored-cons i rest b (k.safe i h) x)
      explore_color i rest colors k clear rec unexplored h =
          explore_found i rest colors h clear rec (
            search_for_cycle_lem m timeout_index d (dangerous_in m.state) agree leads
              (length m.state) colors i
              (record {
                marked = k;
                fresh = h;
                enough = omega (arith, count≤length colors, k.sized);
                path = λ x e. absurd (clear x e);
              }))

      explore_lem :
          (rest : List ℕ) (colors : List Color)
          → ((k : ℕ) → member rest k ≡ true → k < length m.state)
          → Marked m timeout_index d (dangerous_in m.state) colors
          → Clear colors
          → Runs d rest colors
      unfolding explore Runs Explored
      explore_lem [] colors inside k clear = (true, refl, λ k h. absurd (cc))
      explore_lem (i ∷ rest) colors inside k clear =
          let (c, at_i) = get_elem?-lt colors i (omega (arith, k.sized, inside i (ground arith))) in
          explore_color i rest colors k clear
            (λ colors' k' clear'.
              explore_lem rest colors' (λ j h. inside j (ground arith)) k' clear')
            c at_i

    dangerous_in-lt : (k : ℕ) → dangerous_in m.state k ≡ true → k < length m.state
    dangerous_in-lt k h = elim (Option-cases (get_elem? m.state k)) [
      | inl e ↦ absurd (ground arith)
      | inr (cs, e) ↦ lt-length_of_get_elem? m.state k e
    ]

    next_state-lt : (k j : ℕ) → next_state m.state k timeout_index ≡ some j → k < length m.state
    next_state-lt k j h = elim (Option-cases (get_elem? m.state k)) [
      | inl e ↦ absurd (ground arith)
      | inr (cs, e) ↦ lt-length_of_get_elem? m.state k e
    ]

    acyclic :
        (d : List ℕ) (b : Bool)
        → ((k : ℕ) → member d k ≡ dangerous_in m.state k)
        → Explored d b
        → ((b ≡ true) → (k : ℕ) → ¬ DangerousWalk k k) × ((b ≡ false) → (k : ℕ) × DangerousWalk k k)
    unfolding Explored
    acyclic d false agree x = (λ e. absurd (cc), λ e. x)
    acyclic d true agree x = (
      λ e k w. Safe-acyclic _ _ _ next_state-lt (x k (agree k ∙ Walk-start _ _ _ w)) w,
      λ e. absurd (cc),
    )

    -- If the timeout command is called "timeout" and each state has an entry for it, `validate_graph`
    -- returns: no FswAssert of it fails and its recursion is no deeper than there are states. It
    -- returns true if no walk of one or more timeouts through dangerous states comes back to where it
    -- began, and false if one does.
    pub validate_graph-decides :
        (named : Bool)
        → named ≡ true
        → (b : Bool) × (validate_graph m timeout_index named allow ≡ some b)
          × ((b ≡ true) → (k : ℕ) → ¬ DangerousWalk k k)
          × ((b ≡ false) → (k : ℕ) × DangerousWalk k k)
    unfolding validate_graph Runs Clear
    validate_graph-decides false e = absurd (cc (e))
    validate_graph-decides true _ =
        let (d, run, found) = dangerous_from_lem 0 m.state has in
        let agree : (k : ℕ) → member d k ≡ dangerous_in m.state k = λ k. found k ∙ ground arith in
        let (b, e, x) =
          explore_lem d agree d (blank m.state) (λ k h. dangerous_in-lt k (sym (agree k) ∙ h))
            (record {
              sized = length-blank m.state;
              safe = λ k h. absurd (ground (arith, get_elem?-blank m.state k h));
            })
            (λ k h. ground (arith, get_elem?-blank m.state k h)) in
        let (sound, complete) = acyclic d b agree x in
        (b, rw (run, validate_graph) e, sound, complete)
