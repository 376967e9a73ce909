-- ===== src/StateMachine/Tests.antt =====
-- A small machine with two states, two control tasks and a timeout, for the theorems to run on.
use codon.Prelude.{
  ℕ, zero, suc, ◌+◌, ◌≡◌, refl, ◌⊎◌, Bool, true, false, [], ◌∷◌, some, arith, ◌==◌, if◌then◌else◌,
  length, get_elem?,
}
use codon.Prelude.Int.{ℤ, pos, ◌+ℤ◌, ◌≤ℤ◌, +ℤ_parts, nano_t_max}
use codon.StateMachine.Types.{
  accept, on_cstate, off_cstate, ControlState, Machine, SmSlate, done, issue, Platform,
  undefined_state, ignore_state,
}
use codon.StateMachine.Commands.{Handled, handle_cmd, is_cmd_allowed}
use codon.StateMachine.Dispatch.{sync_dispatch, async_dispatch}
use codon.StateMachine.Graph.{validate_graph}
use codon.StateMachine.GraphCheck.{HasTimeout, DangerousWalk, validate_graph-decides}
use codon.StateMachine.Invariant.{Laws, Armed, Inv}
use codon.StateMachine.Handling.{Scheduled, handle_cmd_lem}
use codon.StateMachine.Initial.{set_initial_state, set_initial_state-Inv}
use codon.StateMachine.Acceptance.{ignored_accepted_not_allowed}
use codon.StateMachine.Validation.{
  Validators, Short, tail, sync_init_finalize, sync_init_finalize_lem,
}
use codon.StateMachine.Sync.{SyncInv, sync_dispatch-SyncInv, sync_dispatch_completes}
use codon.StateMachine.Async.{async_dispatch-Inv, async_dispatch_completes}

-- Command 1 goes to the other state, command 2 is the timeout, command 3 is ignored.
abbrev first_state : ControlState
first_state = record {
  seqs = 1 ∷ [];
  duration = pos 20;
  cmds = undefined_state ∷ 1 ∷ 1 ∷ ignore_state ∷ [];
  tasks =
      record { state = on_cstate; is_init = true; args = [] }
      ∷ record { state = off_cstate; is_init = true; args = [] }
      ∷ [];
  timeout_ignored = false;
}

abbrev second_state : ControlState
second_state = record first_state {
  duration = pos 5;
  cmds = undefined_state ∷ 0 ∷ 0 ∷ undefined_state ∷ [];
}

abbrev machine : Machine
machine = record {
  is_init = true;
  state = first_state ∷ second_state ∷ [];
  num_tasks = 2;
  num_pre_transition_ctasks = 1;
  transition_period = pos 10;
}

-- A command is its index and the world counts the calls; the first task issues command 1 each time.
abbrev platform : Platform ℕ ℕ ℕ
platform = record {
  get_index = λ c. c;
  is_noop = λ c. c == 0;
  is_invalid = λ c. false;
  check = λ c. true;
  timeout_cmd = 2;
  is_timeout = λ c. c == 2;
  noop_cmd_index = 0;
  lookup_cmd = λ c. some c;
  verbose = true;
  calculate_next_time = λ t period. t +ℤ period;
  start = λ task t args w. (w + 1, true);
  stop = λ task t w. (w + 1, true);
  cont = λ task t w. (w + 1, true);
  cmd = λ task t args w. (w + 1, true);
  is_active = λ task w. true;
  dispatch_task = λ task t s w.
      if task == 0
      then issue 1 (λ good response retry_at. done (w + 1) retry_at)
      else done w nano_t_max;
  start_seqs = λ state t w. (w + 1, true);
  end_seqs = λ state w. (w + 1, true);
  dispatch_seqs = λ state t s w. done (w + 1) nano_t_max;
  current_time = λ state w. w;
  zero_seconds = 0;
  emit = λ state w. w + 100;
}

laws : Laws platform machine
laws = record {
  noop_index = λ c e. e;
  next_after = λ t. omega (arith, +ℤ_parts t (pos 10));
  next_within = λ t. omega arith;
  states_fit = omega arith;
}

-- Idle in the first state, and with command 1 pending there.
abbrev idle : SmSlate ℕ
idle = record {
  pending_cmd_index = 0;
  nominal_transition_time = nano_t_max;
  event_sequence_time = 0;
  cur_state = 0;
  old_state = 0;
  older_state = 0;
  last_pending_cmd_index = 0;
}

abbrev busy : SmSlate ℕ
busy = record idle {
  pending_cmd_index = 1;
  nominal_transition_time = pos 90;
  last_pending_cmd_index = 1;
}

armed : Armed platform machine busy
armed = record { target = 1; leads = refl; real = omega arith }

busy-Inv : Inv platform machine busy
busy-Inv = record {
  cur_in = omega arith;
  idle_time = λ e. absurd (cc);
  armed = λ e. armed;
  due = λ e. omega arith;
}

busy-SyncInv : SyncInv platform machine busy
busy-SyncInv = record { inv = busy-Inv; recorded = λ e. refl }

sync_dispatch-SyncInv_example :
    (s' : SmSlate ℕ) × (w' : ℕ) × (sync_dispatch platform machine (pos 95) busy 0
      ≡ some (s', w', nano_t_max))
    × SyncInv platform machine s'
    × (s'.last_pending_cmd_index ≡ s'.pending_cmd_index)
sync_dispatch-SyncInv_example =
    sync_dispatch-SyncInv platform machine laws (pos 95) busy 0 busy-SyncInv (omega arith)

sync_dispatch_completes_example :
    (s' : SmSlate ℕ) × (w' : ℕ) × (sync_dispatch platform machine (pos 95) busy 0
      ≡ some (s', w', nano_t_max))
    × (s'.cur_state ≡ armed.target)
    × (s'.old_state ≡ 0)
    × (s'.older_state ≡ 0)
sync_dispatch_completes_example =
    sync_dispatch_completes platform machine laws (pos 95) busy 0 busy-SyncInv (omega arith) refl
      refl refl armed

async_dispatch-Inv_example :
    (s' : SmSlate ℕ) × (w' : ℕ) × (next : ℤ) × (async_dispatch platform machine (pos 95) busy 0
      ≡ some (s', w', next))
    × Inv platform machine s'
    × (next ≤ℤ s'.nominal_transition_time)
async_dispatch-Inv_example =
    async_dispatch-Inv platform machine laws (pos 95) busy 0 busy-Inv (omega arith)

async_dispatch_completes_example :
    (s' : SmSlate ℕ) × (w' : ℕ) × (next : ℤ) × (async_dispatch platform machine (pos 95) busy 0
      ≡ some (s', w', next))
    × (s'.cur_state ≡ armed.target)
    × (s'.old_state ≡ 0)
    × (s'.older_state ≡ 0)
async_dispatch_completes_example =
    async_dispatch_completes platform machine laws (pos 95) busy 0 busy-Inv (omega arith) refl
      (omega arith) refl refl armed

ap_length : (cs cs' : ControlState) → some cs ≡ some cs' → length cs.cmds ≡ length cs'.cmds
ap_length cs cs' h = cc

has_timeout :
    (k : ℕ) (cs : ControlState)
    → get_elem? machine.state k ≡ some cs
    → HasTimeout machine 2 false cs
has_timeout zero cs h = ground (arith, ap_length first_state cs h)
has_timeout (suc zero) cs h = ground (arith, ap_length second_state cs h)
has_timeout (suc (suc k)) cs h = absurd (cc)

validate_graph-decides_example :
    (b : Bool) × (validate_graph machine 2 true false ≡ some b)
    × ((b ≡ true) → (k : ℕ) → ¬ DangerousWalk machine 2 false k k)
    × ((b ≡ false) → (k : ℕ) × DangerousWalk machine 2 false k k)
validate_graph-decides_example = validate_graph-decides machine 2 false has_timeout true refl

handle_cmd_lem_example :
    (r : Handled ℕ) × (handle_cmd platform machine idle (pos 95) 1 ≡ some r)
    × ((r.slate ≡ idle) ⊎ Scheduled platform machine laws idle (pos 95) 1 r)
handle_cmd_lem_example = handle_cmd_lem platform machine laws idle (pos 95) 1

ignored_accepted_not_allowed_example :
    (is_cmd_allowed platform machine idle 3 ≡ false)
    × (handle_cmd platform machine idle (pos 95) 3
        ≡ some (record { slate = idle; good = true; response = accept; retry_at = nano_t_max }))
ignored_accepted_not_allowed_example =
    ignored_accepted_not_allowed platform machine laws idle (pos 95) 3 refl refl refl refl refl

-- The machine before `init` has ended, with an initial state that does nothing.
abbrev fresh_machine : Machine
fresh_machine = record machine {
  is_init = false;
  state =
      record first_state { duration = pos 0; tasks = []; timeout_ignored = true }
      ∷ second_state
      ∷ [];
}

fresh_laws : Laws platform fresh_machine
fresh_laws = record {
  noop_index = λ c e. e;
  next_after = λ t. omega (arith, +ℤ_parts t (pos 10));
  next_within = λ t. omega arith;
  states_fit = omega arith;
}

set_initial_state-Inv_example :
    (s' : SmSlate ℕ) × (w' : ℕ) × (good : Bool) × (set_initial_state platform fresh_machine
        (λ d. d == 0)
        true
        (pos 0)
        idle
        0
      ≡ some (s', w', good))
    × (good ≡ true → Inv platform fresh_machine s' × (s'.cur_state ≡ 0))
set_initial_state-Inv_example =
    set_initial_state-Inv platform fresh_machine fresh_laws (λ d. d == 0) true (pos 0) idle 0
      (omega arith)

abbrev validators : Validators
validators = record {
  validate_cmd = λ task args cmds. true;
  validate_start = λ task args cmds. true;
  validate_stop = λ task. false;
  is_timeout_name = true;
}

sync_init_finalize_lem_example :
    (b : Bool) × (sync_init_finalize validators machine 2 ≡ some b)
    × ((b ≡ true) → (k : ℕ) → ¬ DangerousWalk machine 2 false k k)
    × ((b ≡ true)
        → (k : ℕ) → ¬ Short validators machine 2 (tail validators machine machine.state) k)
    × ((b ≡ false)
        → ((k : ℕ) × DangerousWalk machine 2 false k k)
          ⊎ ((k : ℕ) × Short validators machine 2 (tail validators machine machine.state) k))
sync_init_finalize_lem_example = sync_init_finalize_lem validators machine 2 refl has_timeout
