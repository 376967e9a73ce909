-- ===== src/StateMachine/Types.antt =====
-- The data of StateMachine.h, and what the state machine asks of code outside the repository.
use Prim.Native.String.{String}
use codon.Prelude.{ℕ, ◌-◌, ◌^◌, Bool, List, Option, none, some, get_elem?}
use codon.Prelude.Int.{ℤ}

-- `vc_cmd_response_t`
pub data Response : Type 0 where
  accept defer reject : Response

-- `ctask_state_t`; `invalid_cstate` is any value outside the enumeration.
pub data CtaskState : Type 0 where
  off_cstate on_cstate cont_cstate cmd_cstate invalid_cstate : CtaskState

-- `ControlState::task_info`
pub record TaskInfo : Type 0 where
  pub state : CtaskState
  pub is_init : Bool
  pub args : List String

-- `seqs` names the event sequences of the state; `cmds` is indexed by command numbers.
pub record ControlState : Type 0 where
  pub seqs : List ℕ
  pub duration : ℤ
  pub cmds : List ℕ
  pub tasks : List TaskInfo
  pub timeout_ignored : Bool

-- The fields that are fixed once `init` returns. A task is its number.
pub record Machine : Type 0 where
  pub is_init : Bool
  pub state : List ControlState
  pub num_tasks : ℕ
  pub num_pre_transition_ctasks : ℕ
  pub transition_period : ℤ

-- The elements that the machine keeps in the slate; `last_pending_cmd_index` is the synchronous
-- flavour's. State numbers are the unsigned reading of the INT32 elements.
pub record SmSlate (D : Type 0) : Type 0 where
  pub pending_cmd_index : ℕ
  pub nominal_transition_time : ℤ
  pub event_sequence_time : D
  pub cur_state : ℕ
  pub old_state : ℕ
  pub older_state : ℕ
  pub last_pending_cmd_index : ℕ

-- One dispatch of a control task or an event sequence, which may hand commands to `handle_cmd` and
-- go on from what it returns, and ends with its new world and the time of its next event.
pub data Turn (W C : Type 0) : Type 0 where
  done : W → ℤ → Turn W C
  issue : C → (Bool → Response → ℤ → Turn W C) → Turn W C

-- What is not in the repository: commands (`vehicle_cmd_t`, CommandTable), `Periodic`, control tasks,
-- event sequences, the listeners of `state_sig`, and the debug level. `W` is the state of all of
-- these, `C` a command, `D` a `double` of seconds.
pub record Platform (W C D : Type 0) : Type 0 where
  pub get_index : C → ℕ
  pub is_noop : C → Bool
  pub is_invalid : C → Bool
  pub check : C → Bool
  pub timeout_cmd : C
  pub is_timeout : C → Bool
  pub noop_cmd_index : ℕ
  pub lookup_cmd : ℕ → Option C
  pub verbose : Bool
  pub calculate_next_time : ℤ → ℤ → ℤ
  pub start : ℕ → ℤ → List String → W → W × Bool
  pub stop : ℕ → ℤ → W → W × Bool
  pub cont : ℕ → ℤ → W → W × Bool
  pub cmd : ℕ → ℤ → List String → W → W × Bool
  pub is_active : ℕ → W → Bool
  pub dispatch_task : ℕ → ℤ → SmSlate D → W → Turn W C
  pub start_seqs : ℕ → ℤ → W → W × Bool
  pub end_seqs : ℕ → W → W × Bool
  pub dispatch_seqs : ℕ → ℤ → SmSlate D → W → Turn W C
  pub current_time : ℕ → W → D
  pub zero_seconds : D
  pub emit : ℕ → W → W

-- `StateMachine::undefined_state` and `ignore_state`, `UINT_MAX` and one less.
abbrev pub undefined_state : ℕ
undefined_state = 2 ^ 32 - 1

abbrev pub ignore_state : ℕ
ignore_state = 2 ^ 32 - 2

-- Where command `index` leads from state `cur`; `none` is out of range.
abbrev pub next_state : List ControlState → ℕ → ℕ → Option ℕ
next_state states cur index = elim (get_elem? states cur) [
  | none ↦ none
  | some cs ↦ get_elem? cs.cmds index
]
