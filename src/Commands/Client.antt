-- ===== src/Commands/Client.antt =====
-- CommandQueueClient: the request for the next command, and what becomes of the response.
use codon.Prelude.{
  ℕ, ◌+◌, ◌%◌, ◌^◌, Bool, true, false, not, ◌&&◌, ◌||◌, Option, none, some, ltb, leb, ◌==◌,
  if◌then◌else◌,
}
use codon.Prelude.Int.{ℤ, nano_t_max}

-- What is not in the repository: `std::string` (`S`), SignedData (`K`), the payload's message (`R`)
-- and CommandPayload (`P`), the two key stores, `string_to_uint` from the number that its result
-- holds before, and `from_protobuf`.
pub record Tbs (S R : Type 0) : Type 0 where
  pub command_id : S
  pub creation_info_id : S
  pub target_id : S
  pub command_payload : R

pub record Security (S K R P : Type 0) : Type 0 where
  pub eq : S → S → Bool
  pub is_empty : S → Bool
  pub command_auth_unwrap : K → Option (K × S)
  pub operator_unwrap : K → Option (Tbs S R × S)
  pub string_to_uint : S → ℕ → ℕ
  pub from_protobuf : R → Option P

-- PumpQueueRequest and PumpQueueResponse, with the fields that the client uses.
pub record PumpRequest (S : Type 0) : Type 0 where
  pub target_satellite_id : S
  pub accepted_sequence_num : ℕ
  pub rejected_sequence_num : ℕ
  pub require_signed : Bool

pub record PumpResponse (K R : Type 0) : Type 0 where
  pub send_sequence_number : ℕ
  pub payload : Option R
  pub signed_command : Option K

-- The members and the slate elements; `enabled` and `require_signed_command` are written by the
-- control process.
pub record Client (S : Type 0) : Type 0 where
  pub is_init : Bool
  pub target_entity : S
  pub last_send_sequence_num : ℕ
  pub send_failed_sequence_num : ℕ
  pub returned_with_command : ℕ
  pub accepted_sequence_number : ℕ
  pub rejected_sequence_number : ℕ
  pub last_request_accepted_seq_num : ℕ
  pub last_request_rejected_seq_num : ℕ
  pub wrong_signature_state : ℕ
  pub signed_seq_num_check_failed : ℕ
  pub ephemeral_id_check_failed : ℕ
  pub invalid_command_payload_encoding : ℕ
  pub target_id_check_failed : ℕ
  pub enabled : Bool
  pub require_signed_command : Bool

-- `++` of a uint32_t
abbrev pub tick : ℕ → ℕ
tick n = (n + 1) % 2 ^ 32

-- `std::max`
abbrev pub max : ℕ → ℕ → ℕ
max a b = if ltb a b then b else a

-- A response is refused, which leaves the client changed, or its payload is to be sent.
pub data Verdict (C P : Type 0) : Type 0 where
  refuse : C → Verdict C P
  pass : P → Verdict C P

unfoldable pub build_request : {S : Type 0} → Client S → PumpRequest S × Client S
build_request c = (
  record {
    target_satellite_id = c.target_entity;
    accepted_sequence_num = c.accepted_sequence_number;
    rejected_sequence_num = max c.rejected_sequence_number c.send_failed_sequence_num;
    require_signed = c.require_signed_command;
  },
  record c {
    last_request_accepted_seq_num = c.accepted_sequence_number;
    last_request_rejected_seq_num = c.rejected_sequence_number;
  },
)

-- `force_retry` is the poller's, on its state.
unfoldable pub pump_now : {S Q : Type 0} → (Q → Q) → ℕ → ℕ → Client S → Q → Bool × Client S × Q
pump_now force_retry accepted rejected c q = if not c.is_init then (false, c, q) else (
  true,
  record c { accepted_sequence_number = accepted; rejected_sequence_number = rejected },
  force_retry q,
)

-- `poll` is the poller's `dispatch`, which calls `build_request`.
unfoldable pub dispatch_client :
    {S Q : Type 0} → (ℤ → Client S → Q → ℤ × Client S × Q) → ℤ → Client S → Q → ℤ × Client S × Q
dispatch_client poll t c q = if not c.enabled then (nano_t_max, c, q) else poll t c q

module _ {S K R P : Type 0} (x : Security S K R P) where
  open x use {eq, is_empty, command_auth_unwrap, operator_unwrap, string_to_uint, from_protobuf}

  -- The number is not the signed one, or it is not above those of the last request.
  abbrev pub replayed : Client S → ℕ → ℕ → Bool
  replayed c seq_num command_id =
      not (seq_num == command_id)
      || ltb 0 c.accepted_sequence_number
        && leb command_id (max c.last_request_accepted_seq_num c.last_request_rejected_seq_num)

  abbrev pub wrong_key : S → S → Tbs S R → Bool
  wrong_key outer inner tbs =
      not (is_empty outer) && not (eq outer tbs.creation_info_id)
      || not (is_empty inner) && not (eq inner tbs.creation_info_id)

  unfoldable pub check_tbs : Client S → ℕ → S → S → Tbs S R → Verdict (Client S) P
  check_tbs c seq_num outer inner tbs =
      if replayed c seq_num (string_to_uint tbs.command_id 0)
      then refuse (record c { signed_seq_num_check_failed = tick c.signed_seq_num_check_failed })
      else if wrong_key outer inner tbs
      then refuse (record c { ephemeral_id_check_failed = tick c.ephemeral_id_check_failed })
      else if not (eq c.target_entity tbs.target_id)
      then refuse (record c { target_id_check_failed = tick c.target_id_check_failed })
      else elim (from_protobuf tbs.command_payload) [
        | none ↦ refuse (record c {
          invalid_command_payload_encoding = tick c.invalid_command_payload_encoding;
        })
        | some payload ↦ pass payload
      ]

  unfoldable pub check_signed : Client S → ℕ → K → Verdict (Client S) P
  check_signed c seq_num signed = elim (command_auth_unwrap signed) [
    | none ↦ refuse c
    | some (single_signed, outer) ↦ elim (operator_unwrap single_signed) [
      | none ↦ refuse c
      | some (tbs, inner) ↦ check_tbs c seq_num outer inner tbs
    ]
  ]

  unfoldable pub check_plain : Client S → R → Verdict (Client S) P
  check_plain c raw = elim (from_protobuf raw) [
    | none ↦
        refuse
          (record c { invalid_command_payload_encoding = tick c.invalid_command_payload_encoding })
    | some payload ↦ pass payload
  ]

  unfoldable pub check_response : Client S → PumpResponse K R → Verdict (Client S) P
  check_response c r =
      let wrong : Verdict (Client S) P =
        refuse (record c { wrong_signature_state = tick c.wrong_signature_state }) in
      if c.require_signed_command
      then elim r.signed_command [
        | none ↦ wrong
        | some signed ↦ check_signed c r.send_sequence_number signed
      ]
      else elim r.payload [ none ↦ wrong | some raw ↦ check_plain c raw ]

  abbrev pub has_command : PumpResponse K R → Bool
  has_command r = elim r.payload [
    | none ↦ elim r.signed_command [ none ↦ false | some signed ↦ true ]
    | some raw ↦ true
  ]

  -- The client once a response with a command is counted.
  abbrev pub received : Client S → PumpResponse K R → Client S
  received c r = record c {
    last_send_sequence_num = r.send_sequence_number;
    returned_with_command = tick c.returned_with_command;
  }

  -- `emit` is the signal `send_command_sig` on the state of its handlers: whether it succeeds, and
  -- whether the command is issued.
  unfoldable pub deliver :
      {W : Type 0} → (ℕ → P → W → Bool × Bool × W) → Client S → ℕ → P → W → Bool × Client S × W
  deliver emit c seq_num payload w =
      let (good, issued, w') = emit seq_num payload w in
      if not good
      then (false, c, w')
      else if issued
      then (true, c, w')
      else (true, record c { send_failed_sequence_num = seq_num }, w')

  unfoldable pub on_pump_response :
      {W : Type 0}
      → (ℕ → P → W → Bool × Bool × W)
      → Bool
      → PumpResponse K R
      → Client S
      → W
      → Bool × Client S × W
  on_pump_response emit ok r c w =
      if not c.is_init
      then (false, c, w)
      else if not ok
      then (true, c, w)
      else if not (has_command r)
      then (true, record c { last_send_sequence_num = r.send_sequence_number }, w)
      else if r.send_sequence_number == 0
      then (false, received c r, w)
      else elim (check_response (received c r) r) [
        | refuse c' ↦ (false, c', w)
        | pass payload ↦ deliver emit (received c r) r.send_sequence_number payload w
      ]
