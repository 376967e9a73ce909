-- ===== src/Commands/PollerTests.antt =====
-- A poller of 100 ns, behind the client of the other tests, for the theorems to run on.
use codon.Prelude.{ℕ, ◌+◌, ◌*◌, ◌^◌, ◌≤◌, ◌≡◌, refl, [], ◌⊎◌, true, false, some, arith}
use codon.Prelude.Int.{nano_t_min, pos, ◌+ℤ◌, ◌≤ℤ◌}
use codon.Commands.Poller.{
  poll_asap, dispatch_poller, on_response, schedule, poll_if_due, init_poller,
}
use codon.Commands.GrpcClient.{GrpcClient, async, metric_count_outstanding-async}
use codon.Commands.PollerTypes.{Calls, PollerConfig, Poller, backoff, min}
use codon.Commands.Backoff.{backoff_lem}
use codon.Commands.Outstanding.{
  Counted, on_time, on_answer, PollerRun, idle, and_then, Waits, init_poller-PollerRun,
}
use codon.Commands.Polling.{limit, Called, Idle, dispatch_poller_cases}
use codon.Commands.Timing.{InRange, poll_asap-on_response}
use codon.Commands.Pump.{
  Pump, Feedback, Grpc, start_pump, dispatch_pump, Told, next_call, dispatch_pump-Told,
  dispatch_pump-dispatch_client,
}
use codon.Commands.Tests.{client}

-- Backoffs from 1 ns to 32 ns; numbers that are drawn are the least possible, and the
-- client of the calls is the one of GrpcClient.h with at most one call in flight.
abbrev config : PollerConfig
config = record {
  grpc_polling_period = pos 100;
  min_delay_between_successful_calls_nanos = pos 10;
  min_retry_backoff = pos 1;
  max_retry_backoff = pos 32;
  randomize_polling_period = false;
  reenable_polling_delay = pos 0;
  randomize_reenable_polling_delay = false;
  reenable_polling_delay_from_last_success = false;
  randomize_retry_backoff = true;
  start_enabled = true;
  queue_draining_method_is_fifo = true;
}

abbrev poller : Poller
poller = record {
  config = config;
  next_poll_time = pos 0;
  last_poll_time = pos 0;
  last_success_time = nano_t_min;
  polling_enabled = true;
  waiting_on_response = false;
  poll_asap_count = 0;
  retry_count = 0;
  polling_period = pos 100;
  just_enabled_polling = false;
}

abbrev no_calls : GrpcClient
no_calls = record {
  stub = false;
  last_tag = 0;
  outstanding_calls = [];
  metric_count_started = 0;
  metric_count_skipped = 0;
  metric_count_outstanding = 0;
}

abbrev counting : Calls GrpcClient ℕ ℕ
counting = record {
  build_request = λ w. (0, w);
  async = λ q w. async 1 true true true w;
  cancel_all_outstanding = λ w. w;
  cb = λ r w. (true, w);
  draw = λ a b w. (a, w);
  jitter = λ t. pos 0;
}

counting-Counted : Counted counting (λ w. w.metric_count_outstanding)
counting-Counted = record {
  async_adds = λ q w. metric_count_outstanding-async 1 true true true w (omega arith);
  build_keeps = λ w. refl;
  cancel_keeps = λ w. refl;
  cb_keeps = λ r w. refl;
  draw_keeps = λ a b w. refl;
}

counting-InRange : InRange counting
counting-InRange a b w h = (omega arith, h)

backoff_lem_example : backoff config 3 ≡ pos (min (1 * 2 ^ min 3 32) 32)
backoff_lem_example = backoff_lem config 1 32 3 refl refl (omega arith) (omega arith)

started : init_poller counting true true config no_calls ≡ some (poller, no_calls)
unfolding init_poller
started = refl

called : Poller
called = (dispatch_poller counting (pos 50) poller no_calls).1

answered : Poller
answered = (on_response counting true 4 called no_calls).0

calling_run :
    PollerRun counting
      (λ w. w.metric_count_outstanding)
      poller
      no_calls
      answered
      (on_response counting true 4 called no_calls).1
unfolding dispatch_poller schedule poll_if_due called answered async ◌+ℤ◌
calling_run =
    and_then (and_then idle (on_time (pos 50) refl refl)) (on_answer true 4 no_calls refl refl refl)

init_poller-PollerRun_example :
    Waits counting
      (λ w. w.metric_count_outstanding)
      answered
      (on_response counting true 4 called no_calls).1
    × ((on_response counting true 4 called no_calls).1.metric_count_outstanding ≤ 1)
init_poller-PollerRun_example =
    init_poller-PollerRun counting (λ w. w.metric_count_outstanding) counting-Counted true true
      config no_calls no_calls poller refl started answered
      (on_response counting true 4 called no_calls).1 calling_run

dispatch_poller_cases_example :
    ((pos 0 ≤ℤ pos 50)
      × (limit counting poller ≤ℤ pos 50)
      × Called counting (pos 50) poller no_calls)
    ⊎ ((¬ ((pos 0 ≤ℤ pos 50) × (limit counting poller ≤ℤ pos 50)))
        × Idle counting (pos 50) poller no_calls)
dispatch_poller_cases_example =
    dispatch_poller_cases counting (pos 50) poller no_calls refl refl refl

poll_asap-on_response_example :
    ((on_response counting true 4 (poll_asap poller) no_calls).0.next_poll_time ≡ pos 100)
    × ((on_response counting true 4 (poll_asap poller) no_calls).0.last_success_time ≡ pos 0)
poll_asap-on_response_example =
    poll_asap-on_response counting counting-InRange 4 poller no_calls 100 refl (omega arith)

abbrev pump : Pump
pump = record { is_init = true; last_accepted_seq_num = 10; last_rejected_seq_num = 3 }

abbrev feedback : Feedback
feedback = record { accepted_seq_num = 11; rejected_seq_num = 3 }

abbrev grpc : Grpc ℕ ℕ ℕ
grpc = record {
  async = λ q w. (true, w + q.accepted_sequence_num);
  cancel_all_outstanding = λ w. 0;
  cb = λ r w. (true, w);
  draw = λ a b w. (a, w);
  jitter = λ t. pos 0;
}

dispatch_pump-Told_example :
    Told grpc feedback
      (dispatch_pump (start_pump grpc) feedback pump (client, poller, 0)).1
      (dispatch_pump (start_pump grpc) feedback pump (client, poller, 0)).2.0
    × (dispatch_pump
          (start_pump grpc)
          feedback
          (dispatch_pump (start_pump grpc) feedback pump (client, poller, 0)).1
          (dispatch_pump (start_pump grpc) feedback pump (client, poller, 0)).2
        ≡ dispatch_pump (start_pump grpc) feedback pump (client, poller, 0))
dispatch_pump-Told_example =
    dispatch_pump-Told grpc feedback pump client poller 0 refl refl refl refl

dispatch_pump-dispatch_client_example :
    next_call grpc (pos 50) (dispatch_pump (start_pump grpc) feedback pump (client, poller, 0)).2
    ≡ 11
unfolding ◌+ℤ◌
dispatch_pump-dispatch_client_example =
    dispatch_pump-dispatch_client grpc feedback pump client poller 0 (pos 50) refl refl refl refl
      refl refl refl (omega arith) (omega arith)

abbrev without_stub : Calls GrpcClient ℕ ℕ
without_stub = record counting { async = λ q w. async 1 true false true w }

-- A call for which there is no stub leaves the poller waiting with no call outstanding.
unstarted_run :
    ((dispatch_poller without_stub (pos 50) poller no_calls).1.waiting_on_response ≡ true)
    × ((dispatch_poller without_stub (pos 50) poller no_calls).2 ≡ no_calls)
unfolding dispatch_poller schedule poll_if_due async ◌+ℤ◌
unstarted_run = (refl, refl)
