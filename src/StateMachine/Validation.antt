-- ===== src/StateMachine/Validation.antt =====
-- The checks of a configured machine: validate_state, and init_finalize of both flavours.
use Prim.Native.String.{String}
use codon.Prelude.{
  ℕ, zero, suc, ◌+◌, ◌<◌, ◌≡◌, ◌⊎◌, ◌↔◌, inl, inr, refl, sym, ap, ap₂, ◌∙◌, Bool, true, false, not,
  ◌&&◌, List, [], ◌∷◌, Option, none, some, ltb, ◌==◌, if◌then◌else◌, get_elem?, get_elem?-lt,
  length, arith, Bool-cases, guard, ==→eq, ==_refl,
}
use codon.Prelude.Int.{ltb_ℤ}
use codon.StateMachine.Types.{
  ControlState, CtaskState, TaskInfo, Machine, off_cstate, on_cstate, cont_cstate, cmd_cstate,
  invalid_cstate,
}
use codon.StateMachine.Transitions.{is_empty}
use codon.StateMachine.Graph.{validate_graph}
use codon.StateMachine.GraphCheck.{HasTimeout, DangerousWalk, validate_graph-decides}

-- What the control tasks say of their arguments; `is_timeout_name` is whether `timeout_cmd` is called so.
pub record Validators : Type 0 where
  pub validate_cmd : ℕ → List String → List ℕ → Bool
  pub validate_start : ℕ → List String → List ℕ → Bool
  pub validate_stop : ℕ → Bool
  pub is_timeout_name : Bool

module _ (v : Validators) (m : Machine) where
  -- The test of one task: `is_initial_state` is whether the state is the first.
  unfoldable pub validate_task : Bool → List ℕ → ℕ → TaskInfo → Bool
  validate_task is_initial_state cmds task_idx ti = by_state ti.state
    where
      by_state : CtaskState → Bool
      by_state cmd_cstate = v.validate_cmd task_idx ti.args cmds && not (is_empty ti.args)
      by_state on_cstate = v.validate_start task_idx ti.args cmds
      by_state off_cstate = if not is_initial_state then v.validate_stop task_idx else true
      by_state cont_cstate = true
      by_state invalid_cstate = false

  -- The loop over the tasks from `task_idx` on.
  unfoldable pub validate_tasks : Bool → List ℕ → ℕ → List TaskInfo → Bool
  validate_tasks is_initial_state cmds task_idx [] = true
  validate_tasks is_initial_state cmds task_idx (ti ∷ rest) =
      if not (validate_task is_initial_state cmds task_idx ti)
      then false
      else validate_tasks is_initial_state cmds (task_idx + 1) rest

  unfoldable pub validate_state : ControlState → ℕ → Bool
  validate_state cs state_idx =
      if not (length cs.tasks == m.num_tasks)
      then false
      else validate_tasks (state_idx == 0) cs.cmds 0 cs.tasks

  -- `AsyncStateMachine::init_finalize`; `none` is a failed FswAssert.
  unfoldable pub async_init_finalize : ℕ → Option Bool
  async_init_finalize timeout_index = elim (validate_graph m timeout_index v.is_timeout_name true) [
    | none ↦ none
    | some b ↦ some b
  ]

  -- A state that ends before a control period has passed, by a timeout to a real state.
  abbrev pub is_short : ControlState → ℕ → Bool
  is_short cs target =
      not (is_empty cs.seqs) && ltb_ℤ cs.duration m.transition_period && ltb target (length m.state)

  -- The loop over the states.
  unfoldable pub no_short : ℕ → List ControlState → Option Bool
  no_short timeout_index [] = some true
  no_short timeout_index (cs ∷ rest) = elim (get_elem? cs.cmds timeout_index) [
    | none ↦ none
    | some target ↦
        (let later = no_short timeout_index rest in
          if is_short cs target then some false else later)
  ]

  abbrev pub tail : List ControlState → List ControlState
  tail [] = []
  tail (cs ∷ rest) = rest

  -- `SyncStateMachine::init_finalize`
  unfoldable pub sync_init_finalize : ℕ → Option Bool
  sync_init_finalize timeout_index = elim (validate_graph m timeout_index v.is_timeout_name false) [
    | none ↦ none
    | some false ↦ some false
    | some true ↦ if not v.is_timeout_name then none else no_short timeout_index (tail m.state)
  ]

  -- State `k` of `states` is short.
  abbrev pub Short : ℕ → List ControlState → ℕ → Type 0
  Short timeout_index states k =
      (cs : ControlState) × (target : ℕ) × (get_elem? states k ≡ some cs)
      × (get_elem? cs.cmds timeout_index ≡ some target)
      × (is_short cs target ≡ true)

  none-Short :
      (timeout_index : ℕ) (cs : ControlState) (target : ℕ) (rest : List ControlState)
      → get_elem? cs.cmds timeout_index ≡ some target
      → is_short cs target ≡ false
      → ((k : ℕ) → ¬ Short timeout_index rest k)
      → (k : ℕ) → ¬ Short timeout_index (cs ∷ rest) k
  none-Short timeout_index cs target rest e f later zero (cs', target', at, cmd, short) =
      let same : cs ≡ cs' = cc in
      let cmd' : get_elem? cs.cmds timeout_index ≡ some target' =
        ap (λ c. get_elem? c.cmds timeout_index) same ∙ cmd in
      let same_target : target ≡ target' = cc in
      absurd (cc (sym f ∙ ap₂ is_short same same_target ∙ short))
  none-Short timeout_index cs target rest e f later (suc k) short = later k short

  no_short_lem :
      (timeout_index : ℕ) (states : List ControlState)
      → ((k : ℕ) (cs : ControlState)
          → get_elem? states k ≡ some cs
          → timeout_index < length cs.cmds)
      → (b : Bool) × (no_short timeout_index states ≡ some b)
        × ((b ≡ true) → (k : ℕ) → ¬ Short timeout_index states k)
        × ((b ≡ false) → (k : ℕ) × Short timeout_index states k)
  unfolding no_short
  no_short_lem timeout_index [] has =
      (true, refl, (λ e k (cs, target, at, cmd, short). absurd (cc)), (λ e. absurd (cc)))
  no_short_lem timeout_index (cs ∷ rest) has =
      let (target, e) = get_elem?-lt cs.cmds timeout_index (has 0 cs refl) in
      let (b, run, sound, complete) =
        no_short_lem timeout_index rest (λ k cs h. has (suc k) cs h) in
      let step : Option ℕ → Option Bool = (λ o. elim o [
        | none ↦ none
        | some target ↦ if is_short cs target then some false else no_short timeout_index rest
      ]) in
      elim (Bool-cases (is_short cs target)) [
        | inl t ↦ (
          false,
          ap step e ∙ ap (λ t. if t then some false else no_short timeout_index rest) t,
          (λ h. absurd (cc)),
          (λ h. (0, (cs, target, refl, e, t))),
        )
        | inr f ↦ (
          b,
          ap step e ∙ ap (λ t. if t then some false else no_short timeout_index rest) f ∙ run,
          (λ h k. none-Short timeout_index cs target rest e f (sound h) k),
          (λ h. let (k, short) = complete h in (suc k, short)),
        )
      ]

  get_elem?-tail :
      (states : List ControlState) (k : ℕ) → get_elem? (tail states) k ≡ get_elem? states (suc k)
  get_elem?-tail [] k = refl
  get_elem?-tail (cs ∷ rest) k = refl

  -- If the timeout command is called "timeout" and each state has an entry for it, `init_finalize` of a
  -- synchronous machine returns. It returns true exactly if no walk of timeouts through dangerous
  -- states comes back to where it began, and no state but the first has sequences, a duration below a
  -- control period and a timeout to a real state.
  pub sync_init_finalize_lem :
      (timeout_index : ℕ)
      → v.is_timeout_name ≡ true
      → ((k : ℕ) (cs : ControlState)
          → get_elem? m.state k ≡ some cs
          → HasTimeout m timeout_index false cs)
      → (b : Bool) × (sync_init_finalize timeout_index ≡ some b)
        × ((b ≡ true) → (k : ℕ) → ¬ DangerousWalk m timeout_index false k k)
        × ((b ≡ true) → (k : ℕ) → ¬ Short timeout_index (tail m.state) k)
        × ((b ≡ false)
            → ((k : ℕ) × DangerousWalk m timeout_index false k k)
              ⊎ ((k : ℕ) × Short timeout_index (tail m.state) k))
  unfolding sync_init_finalize
  sync_init_finalize_lem timeout_index name has =
      let (g, run, clear, cycle) =
        validate_graph-decides m timeout_index false has v.is_timeout_name name in
      let (b, loop, sound, complete) =
        no_short_lem timeout_index (tail m.state)
          (λ k cs h. has (suc k) cs (sym (get_elem?-tail m.state k) ∙ h)) in
      let states : Option Bool = no_short timeout_index (tail m.state) in
      let step : Option Bool → Option Bool = (λ o. elim o [
        | none ↦ none
        | some false ↦ some false
        | some true ↦ if not v.is_timeout_name then none else states
      ]) in
      elim (Bool-cases g) [
        | inr f ↦ (
          false,
          ap step (run ∙ ap some f),
          (λ h. absurd (cc)),
          (λ h. absurd (cc)),
          (λ h. inl (cycle f)),
        )
        | inl t ↦ (
          b,
          ap step (run ∙ ap some t) ∙ guard none states name ∙ loop,
          (λ h. clear t),
          sound,
          (λ h. inr (complete h)),
        )
      ]

  -- The loop over the tasks is true exactly if each task is valid.
  validate_tasks_sound :
      (first : Bool) (cmds : List ℕ) (start : ℕ) (tasks : List TaskInfo)
      → validate_tasks first cmds start tasks ≡ true
      → (i : ℕ) (ti : TaskInfo) → get_elem? tasks i ≡ some ti
      → validate_task first cmds (start + i) ti ≡ true
  unfolding validate_tasks
  validate_tasks_sound first cmds start [] run i ti at = absurd (cc)
  validate_tasks_sound first cmds start (t ∷ rest) run i ti at =
      let later = validate_tasks first cmds (start + 1) rest in
      elim (Bool-cases (validate_task first cmds start t)) [
        | inr f ↦ absurd (cc (sym (ap (λ b. if not b then false else later) f) ∙ run))
        | inl h ↦ by_index i at h (
            validate_tasks_sound first cmds (start + 1) rest
              (sym (ap (λ b. if not b then false else later) h) ∙ run))
      ]
    where
      by_index :
          (i : ℕ)
          → get_elem? (t ∷ rest) i ≡ some ti
          → validate_task first cmds start t ≡ true
          → ((i : ℕ) (ti : TaskInfo)
              → get_elem? rest i ≡ some ti
              → validate_task first cmds (start + 1 + i) ti ≡ true)
          → validate_task first cmds (start + i) ti ≡ true
      by_index zero at h later =
          let same : t ≡ ti = cc in
          let z : start + 0 ≡ start = omega arith in
          ap (λ n. validate_task first cmds n ti) z
          ∙ ap (validate_task first cmds start) (sym same)
          ∙ h
      by_index (suc i) at h later =
          let z : start + suc i ≡ start + 1 + i = omega arith in
          ap (λ n. validate_task first cmds n ti) z ∙ later i ti at

  validate_tasks_complete :
      (first : Bool) (cmds : List ℕ) (start : ℕ) (tasks : List TaskInfo)
      → ((i : ℕ) (ti : TaskInfo)
          → get_elem? tasks i ≡ some ti
          → validate_task first cmds (start + i) ti ≡ true)
      → validate_tasks first cmds start tasks ≡ true
  unfolding validate_tasks
  validate_tasks_complete first cmds start [] valid = refl
  validate_tasks_complete first cmds start (t ∷ rest) valid =
      let z : start + 0 ≡ start = omega arith in
      let now : validate_task first cmds start t ≡ true =
        ap (λ n. validate_task first cmds n t) (sym z) ∙ valid 0 t refl in
      ap (λ b. if not b then false else validate_tasks first cmds (start + 1) rest) now
      ∙ validate_tasks_complete first cmds (start + 1) rest (λ i ti at.
        let e : start + 1 + i ≡ start + suc i = omega arith in
        ap (λ n. validate_task first cmds n ti) e ∙ valid (suc i) ti at)

  -- `validate_state` is true exactly of a state that has an entry for each task, and each a valid one.
  pub validate_state_iff :
      (cs : ControlState) (state_idx : ℕ)
      → (validate_state cs state_idx ≡ true) ↔ (
          (length cs.tasks ≡ m.num_tasks)
          × ((i : ℕ) (ti : TaskInfo)
              → get_elem? cs.tasks i ≡ some ti
              → validate_task (state_idx == 0) cs.cmds i ti ≡ true))
  unfolding validate_state
  validate_state_iff cs state_idx =
      let tasks = validate_tasks (state_idx == 0) cs.cmds 0 cs.tasks in
      let zero_add : (i : ℕ) → 0 + i ≡ i = (λ i. omega arith) in
      (
        (λ run. elim (Bool-cases (length cs.tasks == m.num_tasks)) [
          | inr f ↦ absurd (cc (sym (ap (λ b. if not b then false else tasks) f) ∙ run))
          | inl t ↦ (
            ==→eq (length cs.tasks) m.num_tasks t,
            (λ i ti at.
                ap (λ n. validate_task (state_idx == 0) cs.cmds n ti) (sym (zero_add i))
                ∙ validate_tasks_sound (state_idx == 0) cs.cmds 0 cs.tasks
                    (sym (ap (λ b. if not b then false else tasks) t) ∙ run) i ti at),
          )
        ]),
        (λ (same, valid).
            let t : (length cs.tasks == m.num_tasks) ≡ true =
              ap (λ n. n == m.num_tasks) same ∙ ==_refl m.num_tasks in
            ap (λ b. if not b then false else tasks) t
            ∙ validate_tasks_complete (state_idx == 0) cs.cmds 0 cs.tasks (λ i ti at.
              ap (λ n. validate_task (state_idx == 0) cs.cmds n ti) (zero_add i) ∙ valid i ti at)),
      )
