-- ===== src/Commands/Timing.antt =====
-- GrpcPoller::on_response: the time of the next call after a response.
use codon.Prelude.{
  ℕ, ◌+◌, ◌/◌, ◌≤◌, ◌<◌, ◌≡◌, refl, sym, ap, subst, ◌∙◌, inl, inr, Bool, true, false, ltb, arith,
  Bool-cases, if◌then◌else◌, ◌^◌,
}
use codon.Prelude.Int.{ℤ, pos, ◌+ℤ◌, ◌≤ℤ◌, ◌<ℤ◌, +ℤ_parts, eq_of_parts}
use codon.Commands.Client.{tick}
use codon.Commands.Poller.{
  poll_asap, on_response, on_success, on_failure, next_after, time_after_success,
  time_after_failure,
}
use codon.Commands.PollerTypes.{Calls, Poller, backoff, half}
use codon.Commands.Backoff.{backoff_bounds}

first_of_if :
    {A B : Type 0} (b : Bool) (x y : A × B) → (if b then x else y).0 ≡ (if b then x.0 else y.0)
first_of_if true x y = refl
first_of_if false x y = refl

within :
    (d : ℤ) (n r : ℕ)
    → pos 0 ≤ℤ d
    → d ≤ℤ pos n
    → (pos (n / 2) ≤ℤ (if ltb 0 r then d +ℤ pos (n / 2) else pos n))
      × ((if ltb 0 r then d +ℤ pos (n / 2) else pos n) ≤ℤ pos (n + n / 2))
      × (r ≡ 0 → (if ltb 0 r then d +ℤ pos (n / 2) else pos n) ≡ pos n)
within d n r low high =
    let parts = +ℤ_parts d (pos (n / 2)) in
    (ground (arith, parts), ground (arith, parts), λ e. ground (arith, e))

module _ {W Q A : Type 0} (z : Calls W Q A) where
  open z use {build_request, async, cancel_all_outstanding, cb, draw, jitter}

  -- A number that is drawn lies in the interval that it is drawn from.
  abbrev pub InRange : Type 0
  InRange = (a b : ℤ) (w : W) → a ≤ℤ b → (a ≤ℤ (draw a b w).0) × ((draw a b w).0 ≤ℤ b)

  after_time :
      (time : ℤ) (p : Poller)
      → pos 0 <ℤ time
      → next_after z time p ≡ record p { next_poll_time = p.last_poll_time +ℤ time }
  after_time time p h = ground arith

  success_time :
      InRange
      → (p : Poller) (w : W) (n : ℕ) → p.polling_period ≡ pos n
      → (pos (n / 2) ≤ℤ (time_after_success z p w).0)
        × ((time_after_success z p w).0 ≤ℤ pos (n + n / 2))
        × (p.retry_count ≡ 0 → (time_after_success z p w).0 ≡ pos n)
  success_time range p w n e =
      let d : ℤ = (draw (pos 0) p.polling_period w).0 in
      let (low, high) =
        range (pos 0) p.polling_period w (subst (λ q. pos 0 ≤ℤ q) (sym e) (omega arith)) in
      let first : (time_after_success z p w).0
          ≡ (if ltb 0 p.retry_count then d +ℤ half p.polling_period else p.polling_period) =
        first_of_if (ltb 0 p.retry_count)
          (d +ℤ half p.polling_period, (draw (pos 0) p.polling_period w).1) (p.polling_period, w) in
      let same : (time_after_success z p w).0
          ≡ (if ltb 0 p.retry_count then d +ℤ pos (n / 2) else pos n) =
        first ∙ ap (λ q. if ltb 0 p.retry_count then d +ℤ half q else q) e in
      subst (λ t. (pos (n / 2) ≤ℤ t) × (t ≤ℤ pos (n + n / 2)) × (p.retry_count ≡ 0 → t ≡ pos n))
        (sym same) (within d n p.retry_count low (subst (λ q. d ≤ℤ q) e high))

  failure_time :
      InRange
      → (p : Poller) (w : W) (mn mx : ℕ) → p.config.min_retry_backoff ≡ pos mn
      → p.config.max_retry_backoff ≡ pos mx
      → 0 < mn
      → mn ≤ mx
      → mn + mx ≤ 2 ^ 63
      → (pos mn ≤ℤ (time_after_failure z p w).0) × ((time_after_failure z p w).0 ≤ℤ pos mx)
  failure_time range p w mn mx a b positive le fits =
      let (low, high) = backoff_bounds p.config mn mx p.retry_count a b positive le fits in
      let d : (pos mn ≤ℤ (draw p.config.min_retry_backoff (backoff p.config p.retry_count) w).0)
          × ((draw p.config.min_retry_backoff (backoff p.config p.retry_count) w).0
              ≤ℤ backoff p.config p.retry_count) =
        subst
          (λ m.
            (m ≤ℤ (draw p.config.min_retry_backoff (backoff p.config p.retry_count) w).0)
            × ((draw p.config.min_retry_backoff (backoff p.config p.retry_count) w).0
                ≤ℤ backoff p.config p.retry_count))
          a
          (range p.config.min_retry_backoff (backoff p.config p.retry_count) w
            (subst (λ m. m ≤ℤ backoff p.config p.retry_count) (sym a) low)) in
      elim (Bool-cases p.config.randomize_retry_backoff) [
        | inl e ↦ ground (arith, d.0, d.1, high)
        | inr e ↦ ground (arith, low, high)
      ]

  -- The poller after a response, which leaves it free for the next call.
  pub record Answered (p : Poller) (time : ℤ) (success : Bool) (p' : Poller) : Type 0 where
    pub free : p'.waiting_on_response ≡ false
    pub next : p'.next_poll_time ≡ p.last_poll_time +ℤ time
    pub retries : p'.retry_count ≡ (if success then 0 else tick p.retry_count)
    pub asaps : p'.poll_asap_count ≡ (if success then 0 else p.poll_asap_count)
    pub success_time :
        p'.last_success_time ≡ (if success then p.last_poll_time else p.last_success_time)

  -- The two ways to drain the queue set the same state.
  abbrev drained : Poller → Bool → Poller
  drained p b = record p { config = record p.config { queue_draining_method_is_fifo = b } }

  -- The poller after a response, but for the time of the next poll.
  abbrev settled : Bool → Poller → Poller
  settled success p = record p {
    waiting_on_response = false;
    retry_count = if success then 0 else tick p.retry_count;
    poll_asap_count = if success then 0 else p.poll_asap_count;
    last_success_time = if success then p.last_poll_time else p.last_success_time;
  }

  next_after-Answered :
      (success : Bool) (time : ℤ) (p p' : Poller)
      → pos 0 <ℤ time
      → p' ≡ next_after z time (settled success p)
      → Answered p time success p'
  next_after-Answered success time p p' h e =
      let e' : p' ≡ record (settled success p) { next_poll_time = p.last_poll_time +ℤ time } =
        e ∙ after_time time (settled success p) h in
      record {
        free = ap (λ q. q.waiting_on_response) e';
        next = ap (λ q. q.next_poll_time) e';
        retries = ap (λ q. q.retry_count) e';
        asaps = ap (λ q. q.poll_asap_count) e';
        success_time = ap (λ q. q.last_success_time) e';
      }

  drained_failure :
      (r : A) (p : Poller) (w : W) (b : Bool)
      → (on_response z false r (drained p b) w).0
        ≡ next_after z (time_after_failure z p w).0 (settled false (drained p b))
  unfolding on_response on_failure backoff
  drained_failure r p w true = refl
  drained_failure r p w false = refl

  drained_success :
      (r : A) (p : Poller) (w : W) (b : Bool)
      → (on_response z true r (drained p b) w).0
        ≡ next_after z (time_after_success z p (cb r w).1).0 (settled true (drained p b))
  unfolding on_response on_success
  drained_success r p w true = refl
  drained_success r p w false = refl

  -- After a failed call the poller no longer waits, has one failure more (as a uint32_t), and polls
  -- again after a time between the minimum and the maximum backoff. The backoffs are positive, in
  -- order, and their sum is at most 2^63.
  pub on_response_fails :
      InRange
      → (r : A) (p : Poller) (w : W) (mn mx : ℕ) → p.config.min_retry_backoff ≡ pos mn
      → p.config.max_retry_backoff ≡ pos mx
      → 0 < mn
      → mn ≤ mx
      → mn + mx ≤ 2 ^ 63
      → (time : ℤ) × (pos mn ≤ℤ time)
        × (time ≤ℤ pos mx)
        × Answered p time false (on_response z false r p w).0
  on_response_fails range r p w mn mx a b positive le fits =
      let time : ℤ = (time_after_failure z p w).0 in
      let (low, high) = failure_time range p w mn mx a b positive le fits in
      (
        time,
        low,
        high,
        next_after-Answered false time p (on_response z false r p w).0
            (omega (arith, low, positive))
            (drained_failure r p w p.config.queue_draining_method_is_fifo),
      )

  -- After a call that succeeded the poller no longer waits, the counts of failures and of demands are
  -- reset, the time of success is that of the call, and the next poll is one polling period after
  -- it, or, when calls had failed before, between a half and one and a half of the period. The period
  -- is at least two nanoseconds.
  pub on_response_succeeds :
      InRange
      → (r : A) (p : Poller) (w : W) (n : ℕ) → p.polling_period ≡ pos n
      → 2 ≤ n
      → (time : ℤ) × (pos (n / 2) ≤ℤ time)
        × (time ≤ℤ pos (n + n / 2))
        × (p.retry_count ≡ 0 → time ≡ pos n)
        × Answered p time true (on_response z true r p w).0
  on_response_succeeds range r p w n e two =
      let time : ℤ = (time_after_success z p (cb r w).1).0 in
      let (low, high, same) = success_time range p (cb r w).1 n e in
      (
        time,
        low,
        high,
        same,
        next_after-Answered true time p (on_response z true r p w).0 (omega (arith, low, two))
            (drained_success r p w p.config.queue_draining_method_is_fifo),
      )

  -- After a poll is demanded, a response that succeeds puts the next poll at one polling period after
  -- time zero, and takes time zero for the time of the success. The period is at least two
  -- nanoseconds.
  pub poll_asap-on_response :
      InRange
      → (r : A) (p : Poller) (w : W) (n : ℕ) → p.polling_period ≡ pos n
      → 2 ≤ n
      → ((on_response z true r (poll_asap p) w).0.next_poll_time ≡ pos n)
        × ((on_response z true r (poll_asap p) w).0.last_success_time ≡ pos 0)
  unfolding poll_asap
  poll_asap-on_response range r p w n e two =
      let (time, low, high, same, a) = on_response_succeeds range r (poll_asap p) w n e two in
      (a.next ∙ ap (λ t. pos 0 +ℤ t) (same refl) ∙ zero_add n, a.success_time)
    where
      zero_add : (n : ℕ) → pos 0 +ℤ pos n ≡ pos n
      zero_add n = eq_of_parts (pos 0 +ℤ pos n) (pos n) (omega (arith, +ℤ_parts (pos 0) (pos n)))
