-- ===== src/Commands/Tests.antt =====
-- A vehicle named 5 whose signed commands are numbers, for the theorems to run on.
use codon.Prelude.{
  ℕ, suc, ◌+◌, ◌≤◌, ◌<◌, ◌≡◌, refl, ◌⊎◌, ◌↔◌, Bool, true, false, [], ◌∷◌, none, some, arith, ◌==◌,
  if◌then◌else◌,
}
use codon.Commands.Client.{
  Security, PumpResponse, Client, pass, check_signed, check_response, received, deliver,
  build_request, on_pump_response, pump_now, check_tbs,
}
use codon.Commands.Authorization.{Authorized, check_signed_iff}
use codon.Commands.Refusals.{Reason, count, Permitted, Because}
use codon.Commands.Responses.{on_pump_response_cases}
use codon.Commands.Failures.{build_request-on_pump_response}
use codon.Commands.Replay.{Run, start, later, feed, Run-on_pump_response}
use codon.Commands.Sender.{Transport, Sender, send, write_frame, find_channel}
use codon.Commands.Sending.{Framed, send_handler, on_pump_response-write}

-- A signed command opens to the command with its number, by the key 7, for the vehicle 5.
abbrev security : Security ℕ ℕ ℕ ℕ
security = record {
  eq = λ a b. a == b;
  is_empty = λ s. s == 0;
  command_auth_unwrap = λ k. if k == 0 then none else some (k, 7);
  operator_unwrap = λ k.
      some (
        record { command_id = k; creation_info_id = 7; target_id = 5; command_payload = k + 1 },
        7,
      );
  string_to_uint = λ s n. s;
  from_protobuf = λ r. if r == 9 then none else some r;
}

abbrev pub client : Client ℕ
client = record {
  is_init = true;
  target_entity = 5;
  last_send_sequence_num = 0;
  send_failed_sequence_num = 0;
  returned_with_command = 0;
  accepted_sequence_number = 10;
  rejected_sequence_number = 3;
  last_request_accepted_seq_num = 10;
  last_request_rejected_seq_num = 3;
  wrong_signature_state = 0;
  signed_seq_num_check_failed = 0;
  ephemeral_id_check_failed = 0;
  invalid_command_payload_encoding = 0;
  target_id_check_failed = 0;
  enabled = true;
  require_signed_command = true;
}

abbrev response : PumpResponse ℕ ℕ
response = record { send_sequence_number = 12; payload = none; signed_command = some 12 }

client_passes : check_signed security client 12 12 ≡ pass 13
unfolding check_signed check_tbs
client_passes = refl

replay_run :
    ¬ (check_signed security (record client { last_request_accepted_seq_num = 12 }) 12 12 ≡ pass 13)
unfolding check_signed check_tbs
replay_run e = cc e

check_signed_iff_example :
    (check_signed security client 12 12 ≡ pass 13) ↔ Authorized security client 12 12 13
check_signed_iff_example = check_signed_iff security client 12 12 13

abbrev no_channel : ℕ → ℕ → ℕ → Bool × Bool × ℕ
no_channel n payload w = (true, false, suc w)

on_pump_response_cases_example :
    ((payload : ℕ) × Permitted security (received security client response) response payload
      × (on_pump_response security no_channel true response client 0
          ≡ deliver security no_channel (received security client response) 12 payload 0))
    ⊎ ((reason : Reason) × Because security (received security client response) response reason
        × (on_pump_response security no_channel true response client 0
            ≡ (false, count reason (received security client response), 0)))
on_pump_response_cases_example =
    on_pump_response_cases security no_channel response client 0 refl refl (omega arith)

response_passes : check_response security (received security client response) response ≡ pass 13
unfolding check_response check_signed check_tbs
response_passes = refl

build_request-on_pump_response_example :
    (12
      ≤ (build_request
          (on_pump_response security no_channel true response client 0).1).0.rejected_sequence_num)
    × ((on_pump_response security no_channel true response
          (build_request (on_pump_response security no_channel true response client 0).1).1
          1).2
        ≡ 2)
build_request-on_pump_response_example =
    build_request-on_pump_response security no_channel response client 0 1 13 refl refl
      (omega arith) refl refl response_passes refl

-- The vehicle reports command 11 as accepted, and then command 12 comes.
abbrev told : Client ℕ
told = record client { accepted_sequence_number = 11 }

feed_steps : Run security no_channel (build_request client).1 told
unfolding build_request pump_now
feed_steps = later start (feed 11 3 (omega arith) (omega arith) refl)

Run-on_pump_response_example :
    ((on_pump_response security no_channel true response told 0).2 ≡ 0) ⊎ ((10 < 12) × (3 < 12))
Run-on_pump_response_example =
    Run-on_pump_response security no_channel client told true response 0 (omega arith) feed_steps
      refl

-- Payloads are messages for the node 8, which are their own frames; channel 1 adds them up.
abbrev transport : Transport ℕ ℕ ℕ ℕ ℕ
transport = record {
  eq = λ a b. a == b;
  write_message = λ n. some (n, 8);
  prepare_transport = λ m. some m;
  frame = λ m node n. some (m + n);
  write = λ channel f w. (true, w + f);
}

abbrev sender : Sender ℕ
sender = record {
  is_init = true;
  client_node_id = 2;
  relay_channels = (8, 1) ∷ [];
  metrics_writes = 0;
  errors_translate_failed = 0;
  errors_invalid_node = 0;
  errors_write_failed = 0;
}

send_run : send transport 12 13 sender 0 ≡ (true, true, record sender { metrics_writes = 1 }, 25)
unfolding send write_frame find_channel
send_run = refl

on_pump_response-write_example :
    ((on_pump_response security (send_handler transport) true response client (sender, 0)).2.1 ≡ 0)
    ⊎ ((payload : ℕ) × (f : ℕ) × (channel : ℕ) × Permitted security
          (received security client response)
          response
          payload
        × Framed transport 12 payload sender f channel
        × ((on_pump_response security (send_handler transport) true response client (sender, 0)).2.1
            ≡ 0 + f))
on_pump_response-write_example =
    on_pump_response-write transport security true response client sender 0
