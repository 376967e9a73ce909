-- ===== src/Commands/Poller.antt =====
-- GrpcPoller.h: calls that are made on a period, on demand, and again after a failure.
use codon.Prelude.{Bool, true, false, not, ◌&&◌, ◌||◌, Option, none, some, ltb, if◌then◌else◌}
use codon.Prelude.Int.{ℤ, pos, ◌+ℤ◌, ◌-ℤ◌, ltb_ℤ, leb_ℤ, eqb_ℤ, nano_t_max, nano_t_min}
use codon.Commands.Client.{tick}
use codon.Commands.PollerTypes.{Calls, PollerConfig, Poller, half, backoff}

unfoldable pub enable_polling : Poller → Poller
enable_polling p =
    if p.polling_enabled
    then p
    else record p { retry_count = 0; just_enabled_polling = true; polling_enabled = true }

unfoldable pub disable_polling : Poller → Poller
disable_polling p = record p { polling_enabled = false }

unfoldable pub poll_asap : Poller → Poller
poll_asap p = record p {
  poll_asap_count = tick p.poll_asap_count;
  retry_count = 0;
  last_poll_time = pos 0;
  next_poll_time = pos 0;
}

module _ {W Q A : Type 0} (z : Calls W Q A) where
  open z use {build_request, async, cancel_all_outstanding, cb, draw, jitter}

  unfoldable pub force_retry : Poller → W → Poller × W
  force_retry p w = (poll_asap p, cancel_all_outstanding w)

  -- The polling period, moved a little at random.
  abbrev pub randomized_period : PollerConfig → W → ℤ × W
  randomized_period config w =
      let period = config.grpc_polling_period in
      let (drawn, w') = draw (period -ℤ jitter period) (period +ℤ jitter period) w in
      if config.randomize_polling_period then (drawn, w') else (period, w)

  unfoldable pub update_grpc_polling_policy : ℤ → ℤ → ℤ → Bool → Poller → W → Bool × Poller × W
  update_grpc_polling_policy period min_backoff max_backoff should_poll_asap p w =
      if leb_ℤ min_backoff (pos 0)
      then (false, p, w)
      else if leb_ℤ max_backoff (pos 0)
      then (false, p, w)
      else if ltb_ℤ max_backoff min_backoff
      then (false, p, w)
      else if eqb_ℤ period p.config.grpc_polling_period
          && eqb_ℤ min_backoff p.config.min_retry_backoff
          && eqb_ℤ max_backoff p.config.max_retry_backoff
      then (true, p, w)
      else let config = record p.config { grpc_polling_period = period } in
        let (polling_period, w') = randomized_period config w in
        let p' = record p {
          config = record config {
            min_retry_backoff = min_backoff;
            max_retry_backoff = max_backoff;
          };
          polling_period = polling_period;
        } in
        (true, if p'.polling_enabled && should_poll_asap then poll_asap p' else p', w')

  -- The delay after polling is enabled, at random from a half to one and a half of the configured.
  abbrev pub reenable_delay : PollerConfig → W → ℤ × W
  reenable_delay config w =
      let delay = config.reenable_polling_delay in
      let (drawn, w') = draw (pos 0) delay w in
      if config.randomize_reenable_polling_delay && not (eqb_ℤ delay (pos 0))
      then (drawn +ℤ half delay, w')
      else (delay, w)

  -- The next poll after polling was enabled, and otherwise no sooner than the limit on the rate.
  unfoldable pub schedule : ℤ → Poller → W → Poller × W
  schedule control_time p w =
      let limit = p.last_success_time +ℤ p.config.min_delay_between_successful_calls_nanos in
      let (delay, w') = reenable_delay p.config w in
      if p.just_enabled_polling
      then (
        record p {
          next_poll_time =
              if p.config.reenable_polling_delay_from_last_success
              then p.last_success_time +ℤ delay
              else control_time +ℤ delay;
          just_enabled_polling = false;
        },
        w',
      )
      else (if ltb_ℤ p.next_poll_time limit then record p { next_poll_time = limit } else p, w)

  -- Whether the call is started is not looked at.
  unfoldable pub poll_if_due : ℤ → Poller → W → Poller × W
  poll_if_due control_time p w =
      let (request, w') = build_request w in
      if leb_ℤ p.next_poll_time control_time
      then (
        record p {
          last_poll_time = control_time;
          next_poll_time = nano_t_max;
          waiting_on_response = true;
        },
        (async request w').1,
      )
      else (p, w)

  unfoldable pub dispatch_poller : ℤ → Poller → W → ℤ × Poller × W
  dispatch_poller control_time p w =
      if not p.polling_enabled || p.waiting_on_response
      then (nano_t_max, p, w)
      else let (p1, w1) = schedule control_time p w in
        let (p2, w2) = poll_if_due control_time p1 w1 in (p2.next_poll_time, p2, w2)

  -- The time to the next call after a success, a failure. After retries it is drawn from a half to
  -- one and a half of the period.
  abbrev pub time_after_success : Poller → W → ℤ × W
  time_after_success p w =
      let (drawn, w') = draw (pos 0) p.polling_period w in
      if ltb 0 p.retry_count then (drawn +ℤ half p.polling_period, w') else (p.polling_period, w)

  abbrev pub time_after_failure : Poller → W → ℤ × W
  time_after_failure p w =
      let b = backoff p.config p.retry_count in
      let (drawn, w') = draw p.config.min_retry_backoff b w in
      if p.config.randomize_retry_backoff then (drawn, w') else (b, w)

  abbrev pub next_after : ℤ → Poller → Poller
  next_after time p =
      if eqb_ℤ time (pos 0) then p else record p { next_poll_time = p.last_poll_time +ℤ time }

  abbrev pub answered : Poller → Poller
  answered p = record p { waiting_on_response = false }

  unfoldable pub on_success : A → Poller → W → Poller × W
  on_success response p w =
      let p1 = record p { last_success_time = p.last_poll_time } in
      let (_, w1) = cb response w in
      let p2 = if not p.config.queue_draining_method_is_fifo then answered p1 else p1 in
      let (time, w2) = time_after_success p w1 in
      (next_after time (record p2 { retry_count = 0; poll_asap_count = 0 }), w2)

  unfoldable pub on_failure : Poller → W → Poller × W
  on_failure p w =
      let p1 = if not p.config.queue_draining_method_is_fifo then answered p else p in
      let (time, w1) = time_after_failure p1 w in
      (next_after time (record p1 { retry_count = tick p1.retry_count }), w1)

  unfoldable pub on_response : Bool → A → Poller → W → Poller × W
  on_response ok response p w =
      let p1 = if p.config.queue_draining_method_is_fifo then answered p else p in
      if ok then on_success response p1 w else on_failure p1 w

  -- The elements of the slate are taken to be created.
  unfoldable pub init_poller : Bool → Bool → PollerConfig → W → Option (Poller × W)
  init_poller is_rpc_initialized endpoint_provider config w =
      if not is_rpc_initialized
      then none
      else if not endpoint_provider
      then none
      else if leb_ℤ config.min_retry_backoff (pos 0)
      then none
      else if leb_ℤ config.max_retry_backoff (pos 0)
      then none
      else if ltb_ℤ config.grpc_polling_period (pos 0)
      then none
      else if ltb_ℤ config.min_delay_between_successful_calls_nanos (pos 0)
      then none
      else if ltb_ℤ config.grpc_polling_period config.min_delay_between_successful_calls_nanos
      then none
      else let (period, w') = randomized_period config w in
        some (
          record {
            config = config;
            next_poll_time =
                if eqb_ℤ config.grpc_polling_period (pos 0) || not config.start_enabled
                then nano_t_max
                else pos 0;
            last_poll_time = pos 0;
            last_success_time = nano_t_min;
            polling_enabled = config.start_enabled;
            waiting_on_response = false;
            poll_asap_count = 0;
            retry_count = 0;
            polling_period = period;
            just_enabled_polling = false;
          },
          w',
        )
