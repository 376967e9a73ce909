-- ===== src/Commands/Outstanding.antt =====
-- GrpcPoller.h: at most one call is outstanding.
use codon.Prelude.{
  ℕ, suc, ◌≤◌, ◌≡◌, refl, sym, subst, ◌∙◌, ◌⊎◌, inl, inr, Bool, false, not, ◌||◌, some, arith,
  Bool-cases, if◌then◌else◌,
}
use codon.Prelude.Int.{ℤ, pos, ◌+ℤ◌, ◌-ℤ◌, leb_ℤ}
use codon.Commands.Poller.{
  enable_polling, disable_polling, poll_asap, force_retry, update_grpc_polling_policy, schedule,
  poll_if_due, dispatch_poller, on_response, on_success, on_failure, answered, init_poller,
}
use codon.Commands.PollerTypes.{backoff, Calls, PollerConfig, Poller}

module _ {W Q A : Type 0} (z : Calls W Q A) where
  open z use {build_request, async, cancel_all_outstanding, cb, draw, jitter}

  -- The client of the calls counts those that it has not answered: `async` adds one or, if it starts
  -- no call, none, and nothing else that the poller calls changes the count, the cancelling of calls
  -- neither, which are answered with a failure.
  pub record Counted (outstanding : W → ℕ) : Type 0 where
    pub async_adds :
        (q : Q) (w : W)
        → (outstanding (async q w).1 ≡ suc (outstanding w))
          ⊎ (outstanding (async q w).1 ≡ outstanding w)
    pub build_keeps : (w : W) → outstanding (build_request w).1 ≡ outstanding w
    pub cancel_keeps : (w : W) → outstanding (cancel_all_outstanding w) ≡ outstanding w
    pub cb_keeps : (r : A) (w : W) → outstanding (cb r w).1 ≡ outstanding w
    pub draw_keeps : (a b : ℤ) (w : W) → outstanding (draw a b w).1 ≡ outstanding w

  -- What happens to a poller. A response is to a call that is outstanding.
  pub data PollerStep (outstanding : W → ℕ) (p : Poller) (w : W) (p' : Poller) (w' : W)
      : Type 0 where
    on_time :
        (t : ℤ)
        → p' ≡ (dispatch_poller z t p w).1
        → w' ≡ (dispatch_poller z t p w).2
        → PollerStep outstanding p w p' w'
    on_answer :
        (ok : Bool) (r : A) (w1 : W)
        → outstanding w ≡ suc (outstanding w1)
        → p' ≡ (on_response z ok r p w1).0
        → w' ≡ (on_response z ok r p w1).1
        → PollerStep outstanding p w p' w'
    on_policy :
        (period min_backoff max_backoff : ℤ) (asap : Bool)
        → p' ≡ (update_grpc_polling_policy z period min_backoff max_backoff asap p w).1
        → w' ≡ (update_grpc_polling_policy z period min_backoff max_backoff asap p w).2
        → PollerStep outstanding p w p' w'
    on_retry :
        p' ≡ (force_retry z p w).0 → w' ≡ (force_retry z p w).1 → PollerStep outstanding p w p' w'
    on_asap : p' ≡ poll_asap p → w' ≡ w → PollerStep outstanding p w p' w'
    on_enable : p' ≡ enable_polling p → w' ≡ w → PollerStep outstanding p w p' w'
    on_disable : p' ≡ disable_polling p → w' ≡ w → PollerStep outstanding p w p' w'

  pub data PollerRun (outstanding : W → ℕ) (p : Poller) (w : W) : Poller → W → Type 0 where
    idle : PollerRun outstanding p w p w
    and_then :
        {p' p'' : Poller} {w' w'' : W}
        → PollerRun outstanding p w p' w'
        → PollerStep outstanding p' w' p'' w''
        → PollerRun outstanding p w p'' w''

  -- At most one call is outstanding, and none unless the poller waits for a response.
  abbrev pub Waits : (W → ℕ) → Poller → W → Type 0
  Waits outstanding p w = outstanding w ≤ (if p.waiting_on_response then 1 else 0)

  moved :
      (outstanding : W → ℕ) {p p' : Poller} {w w' : W}
      → p' ≡ p
      → w' ≡ w
      → Waits outstanding p w
      → Waits outstanding p' w'
  moved o {p = p} {w' = w'} e k h =
      subst (λ p. Waits o p w') (sym e) (subst (λ w. Waits o p w) (sym k) h)

  module _ (outstanding : W → ℕ) (l : Counted outstanding) where
    schedule-Waits :
        (t : ℤ) (p : Poller) (w : W)
        → ((schedule z t p w).0.waiting_on_response ≡ p.waiting_on_response)
          × (outstanding (schedule z t p w).1 ≡ outstanding w)
    unfolding schedule
    schedule-Waits t p w =
        let d = l.draw_keeps (pos 0) p.config.reenable_polling_delay w in ground (arith, d)

    poll_if_due-Waits :
        (t : ℤ) (p : Poller) (w : W)
        → p.waiting_on_response ≡ false
        → Waits outstanding p w
        → Waits outstanding (poll_if_due z t p w).0 (poll_if_due z t p w).1
    unfolding poll_if_due
    poll_if_due-Waits t p w free h =
        let b = l.build_keeps w in
        let a = l.async_adds (build_request w).0 (build_request w).1 in
        elim (Bool-cases (leb_ℤ p.next_poll_time t)) [
          | inl e ↦ ground (arith, a, b)
          | inr e ↦ ground arith
        ]

    dispatch_poller-Waits :
        (t : ℤ) (p : Poller) (w : W)
        → Waits outstanding p w
        → Waits outstanding (dispatch_poller z t p w).1 (dispatch_poller z t p w).2
    unfolding dispatch_poller
    dispatch_poller-Waits t p w h =
        elim (Bool-cases (not p.polling_enabled || p.waiting_on_response)) [
          | inl e ↦ ground arith
          | inr e ↦
              let (same, kept) = schedule-Waits t p w in
              let free : (schedule z t p w).0.waiting_on_response ≡ false = same ∙ (ground arith) in
              let q =
                poll_if_due-Waits t (schedule z t p w).0 (schedule z t p w).1 free
                  (ground (arith, kept, h, same)) in
              ground (arith, q)
        ]

    on_success-Waits :
        (r : A) (p : Poller) (w : W)
        → (p.config.queue_draining_method_is_fifo ≡ false) ⊎ (p.waiting_on_response ≡ false)
        → ((on_success z r p w).0.waiting_on_response ≡ false)
          × (outstanding (on_success z r p w).1 ≡ outstanding w)
    unfolding on_success
    on_success-Waits r p w h =
        let c = l.cb_keeps r w in
        let d = l.draw_keeps (pos 0) p.polling_period (cb r w).1 in
        elim h [
          | inl e ↦ (ground arith, ground (arith, c, d))
          | inr e ↦ (ground arith, ground (arith, c, d))
        ]

    on_failure-Waits :
        (p : Poller) (w : W)
        → (p.config.queue_draining_method_is_fifo ≡ false) ⊎ (p.waiting_on_response ≡ false)
        → ((on_failure z p w).0.waiting_on_response ≡ false)
          × (outstanding (on_failure z p w).1 ≡ outstanding w)
    unfolding on_failure
    on_failure-Waits p w h =
        let d = l.draw_keeps p.config.min_retry_backoff (backoff p.config p.retry_count) w in
        elim h [
          | inl e ↦ (ground arith, ground (arith, d))
          | inr e ↦ (ground arith, ground (arith, d))
        ]

    on_response-Waits :
        (ok : Bool) (r : A) (p : Poller) (w w1 : W)
        → Waits outstanding p w
        → outstanding w ≡ suc (outstanding w1)
        → Waits outstanding (on_response z ok r p w1).0 (on_response z ok r p w1).1
    unfolding on_response
    on_response-Waits ok r p w w1 h e = elim (Bool-cases p.config.queue_draining_method_is_fifo) [
      | inl f ↦
          let s = on_success-Waits r (answered z p) w1 (inr refl) in
          let g = on_failure-Waits (answered z p) w1 (inr refl) in
          ground (arith, s.0, s.1, g.0, g.1)
      | inr f ↦
          let s = on_success-Waits r p w1 (inl f) in
          let g = on_failure-Waits p w1 (inl f) in ground (arith, s.0, s.1, g.0, g.1)
    ]

    update-Waits :
        (a b c : ℤ) (asap : Bool) (p : Poller) (w : W)
        → Waits outstanding p w
        → Waits outstanding
            (update_grpc_polling_policy z a b c asap p w).1
            (update_grpc_polling_policy z a b c asap p w).2
    unfolding update_grpc_polling_policy poll_asap
    update-Waits a b c asap p w h =
        let d = l.draw_keeps (a -ℤ jitter a) (a +ℤ jitter a) w in ground (arith, d)

    PollerStep-Waits :
        (p : Poller) (w : W) (p' : Poller) (w' : W)
        → PollerStep outstanding p w p' w'
        → Waits outstanding p w
        → Waits outstanding p' w'
    unfolding force_retry poll_asap enable_polling disable_polling
    PollerStep-Waits p w p' w' (on_time t e k) h =
        moved outstanding e k (dispatch_poller-Waits t p w h)
    PollerStep-Waits p w p' w' (on_answer ok r w1 n e k) h =
        moved outstanding e k (on_response-Waits ok r p w w1 h n)
    PollerStep-Waits p w p' w' (on_policy a b c asap e k) h =
        moved outstanding e k (update-Waits a b c asap p w h)
    PollerStep-Waits p w p' w' (on_retry e k) h =
        moved outstanding e k (omega (arith, l.cancel_keeps w, h))
    PollerStep-Waits p w p' w' (on_asap e k) h = moved outstanding e k h
    PollerStep-Waits p w p' w' (on_enable e k) h =
        let same : Waits outstanding (enable_polling p) w = ground (arith, h) in
        moved outstanding e k same
    PollerStep-Waits p w p' w' (on_disable e k) h = moved outstanding e k h

    start-Waits :
        (rpc endpoint : Bool) (config : PollerConfig) (w w' : W) (p : Poller)
        → outstanding w ≡ 0
        → init_poller z rpc endpoint config w ≡ some (p, w')
        → Waits outstanding p w'
    unfolding init_poller
    start-Waits rpc endpoint config w w' p none_yet e =
        let period : ℤ = config.grpc_polling_period in
        let d = l.draw_keeps (period -ℤ jitter period) (period +ℤ jitter period) w in
        ground (arith, d)

    PollerRun-Waits :
        {p : Poller} {w : W} {p' : Poller} {w' : W}
        → Waits outstanding p w
        → PollerRun outstanding p w p' w'
        → Waits outstanding p' w'
    PollerRun-Waits h idle = h
    PollerRun-Waits h (and_then {p' = q} {p'' = q'} {w' = v} {w'' = v'} run step) =
        PollerStep-Waits q v q' v' step (PollerRun-Waits h run)

    -- From its start on, whatever the order of dispatches, responses, forced retries, changes of
    -- policy, and switching on and off, and whether the calls are started or not, at most one call is
    -- outstanding, and none when the poller does not wait for a response.
    pub init_poller-PollerRun :
        (rpc endpoint : Bool) (config : PollerConfig) (w w' : W) (p : Poller)
        → outstanding w ≡ 0
        → init_poller z rpc endpoint config w ≡ some (p, w')
        → (q : Poller) (v : W) → PollerRun outstanding p w' q v
        → Waits outstanding q v × (outstanding v ≤ 1)
    init_poller-PollerRun rpc endpoint config w w' p none_yet e q v run =
        let h : Waits outstanding q v =
          PollerRun-Waits (start-Waits rpc endpoint config w w' p none_yet e) run in
        (h, ground (arith, h))
