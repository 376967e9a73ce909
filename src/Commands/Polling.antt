-- ===== src/Commands/Polling.antt =====
-- GrpcPoller.h: when a call is made, and when the next one is after a response.
use codon.Prelude.{
  ◌≡◌, refl, sym, ap, subst, ◌∙◌, ◌⊎◌, inl, inr, ◌↔◌, Bool, true, false, not, ◌||◌, arith,
  Bool-cases, if◌then◌else◌,
}
use codon.Prelude.Int.{ℤ, ◌+ℤ◌, ◌≤ℤ◌, ◌<ℤ◌, leb_ℤ, ltb_ℤ, nano_t_max}
use codon.Commands.Poller.{schedule, poll_if_due, dispatch_poller}
use codon.Commands.PollerTypes.{Calls, Poller}

later_le : (a b t : ℤ) → (leb_ℤ (if ltb_ℤ a b then b else a) t ≡ true) ↔ ((a ≤ℤ t) × (b ≤ℤ t))
later_le a b t = ground arith

module _ {W Q A : Type 0} (z : Calls W Q A) where
  open z use {build_request, async, cancel_all_outstanding, cb, draw, jitter}

  -- The limit on the rate of calls.
  abbrev pub limit : Poller → ℤ
  limit p = p.last_success_time +ℤ p.config.min_delay_between_successful_calls_nanos

  abbrev pub bounded : Poller → Poller
  bounded p = if ltb_ℤ p.next_poll_time (limit p) then record p { next_poll_time = limit p } else p

  bounded_le :
      (p : Poller) (t : ℤ)
      → (leb_ℤ (bounded p).next_poll_time t ≡ true) ↔ ((p.next_poll_time ≤ℤ t) × (limit p ≤ℤ t))
  bounded_le p t =
      let e : (bounded p).next_poll_time
          ≡ (if ltb_ℤ p.next_poll_time (limit p) then limit p else p.next_poll_time) =
        if_next (ltb_ℤ p.next_poll_time (limit p)) in
      subst (λ n. (leb_ℤ n t ≡ true) ↔ ((p.next_poll_time ≤ℤ t) × (limit p ≤ℤ t))) (sym e)
        (later_le p.next_poll_time (limit p) t)
    where
      if_next :
          (b : Bool)
          → (if b then record p { next_poll_time = limit p } else p).next_poll_time
            ≡ (if b then limit p else p.next_poll_time)
      if_next true = refl
      if_next false = refl

  schedule_bounded :
      (t : ℤ) (p : Poller) (w : W)
      → p.just_enabled_polling ≡ false
      → schedule z t p w ≡ (bounded p, w)
  unfolding schedule
  schedule_bounded t p w e = ground arith

  active :
      (t : ℤ) (p : Poller) (w : W)
      → p.just_enabled_polling ≡ false
      → p.waiting_on_response ≡ false
      → p.polling_enabled ≡ true
      → dispatch_poller z t p w ≡ (
        (poll_if_due z t (bounded p) w).0.next_poll_time,
        (poll_if_due z t (bounded p) w).0,
        (poll_if_due z t (bounded p) w).1,
      )
  unfolding dispatch_poller
  active t p w e free on =
      let s : schedule z t p w ≡ (bounded p, w) = schedule_bounded t p w e in
      let tail : Poller × W → ℤ × Poller × W = (λ s. (
        (poll_if_due z t s.0 s.1).0.next_poll_time,
        (poll_if_due z t s.0 s.1).0,
        (poll_if_due z t s.0 s.1).1,
      )) in
      let open_test : (not p.polling_enabled || p.waiting_on_response) ≡ false = ground arith in
      ap (λ b. if b then (nano_t_max, p, w) else tail (schedule z t p w)) open_test ∙ ap tail s

  due :
      (t : ℤ) (p : Poller) (w : W)
      → leb_ℤ p.next_poll_time t ≡ true
      → poll_if_due z t p w ≡ (
        record p { last_poll_time = t; next_poll_time = nano_t_max; waiting_on_response = true },
        (async (build_request w).0 (build_request w).1).1,
      )
  unfolding poll_if_due
  due t p w e = ground arith

  not_due :
      (t : ℤ) (p : Poller) (w : W) → leb_ℤ p.next_poll_time t ≡ false → poll_if_due z t p w ≡ (p, w)
  unfolding poll_if_due
  not_due t p w e = ground arith

  -- A dispatch that makes a call, with the request that is built then, and one that makes none.
  pub record Called (t : ℤ) (p : Poller) (w : W) : Type 0 where
    pub waits : (dispatch_poller z t p w).1.waiting_on_response ≡ true
    pub at : (dispatch_poller z t p w).1.last_poll_time ≡ t
    pub wakes : (dispatch_poller z t p w).0 ≡ nano_t_max
    pub world : (dispatch_poller z t p w).2 ≡ (async (build_request w).0 (build_request w).1).1

  pub record Idle (t : ℤ) (p : Poller) (w : W) : Type 0 where
    pub free : (dispatch_poller z t p w).1.waiting_on_response ≡ false
    pub wakes : t <ℤ (dispatch_poller z t p w).0
    pub world : (dispatch_poller z t p w).2 ≡ w

  -- A poller that polls, waits for no response and was not enabled just before makes a call exactly
  -- when the time of the next poll has come and the limit on the rate is kept, and then waits for its
  -- response; otherwise nothing is called, and the time of the next dispatch is later than this one.
  pub dispatch_poller_cases :
      (t : ℤ) (p : Poller) (w : W)
      → p.just_enabled_polling ≡ false
      → p.waiting_on_response ≡ false
      → p.polling_enabled ≡ true
      → ((p.next_poll_time ≤ℤ t) × (limit p ≤ℤ t) × Called t p w)
        ⊎ ((¬ ((p.next_poll_time ≤ℤ t) × (limit p ≤ℤ t))) × Idle t p w)
  dispatch_poller_cases t p w e free on =
      let a = active t p w e free on in
      elim (Bool-cases (leb_ℤ (bounded p).next_poll_time t)) [
        | inl h ↦
            let (n, l) = (bounded_le p t).0 h in
            let d = due t (bounded p) w h in
            inl (
              n,
              l,
              record {
                waits = ap (λ r. r.1.waiting_on_response) a ∙ ap (λ r. r.0.waiting_on_response) d;
                at = ap (λ r. r.1.last_poll_time) a ∙ ap (λ r. r.0.last_poll_time) d;
                wakes = ap (λ r. r.0) a ∙ ap (λ r. r.0.next_poll_time) d;
                world = ap (λ r. r.2) a ∙ ap (λ r. r.1) d;
              },
            )
        | inr h ↦
            let d = not_due t (bounded p) w h in
            let same : (bounded p).waiting_on_response ≡ false = ground arith in
            let next : (dispatch_poller z t p w).0 ≡ (bounded p).next_poll_time =
              ap (λ r. r.0) a ∙ ap (λ r. r.0.next_poll_time) d in
            inr (
              (λ k. absurd (cc (h, (bounded_le p t).1 k))),
              record {
                free =
                    ap (λ r. r.1.waiting_on_response) a
                    ∙ ap (λ r. r.0.waiting_on_response) d
                    ∙ same;
                wakes = subst (λ n. t <ℤ n) (sym next) (not_leb (bounded p).next_poll_time t h);
                world = ap (λ r. r.2) a ∙ ap (λ r. r.1) d;
              },
            )
      ]
    where
      not_leb : (a b : ℤ) → leb_ℤ a b ≡ false → b <ℤ a
      not_leb a b h = ground arith
