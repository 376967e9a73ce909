-- ===== src/Commands/Pump.antt =====
-- CommandPump::dispatch, with the client and the poller behind it: new feedback is traded for the next
-- command.
use codon.Prelude.{
  ℕ, ◌≡◌, refl, sym, ap, subst, ◌∙◌, inl, inr, Bool, true, false, not, ◌||◌, arith, ◌==◌,
  Bool-cases, if◌then◌else◌,
}
use codon.Prelude.Int.{ℤ, pos, ◌≤ℤ◌, nano_t_max}
use codon.Commands.Client.{max, Client, PumpRequest, build_request, pump_now, dispatch_client}
use codon.Commands.Poller.{poll_asap, dispatch_poller}
use codon.Commands.PollerTypes.{Calls, Poller}
use codon.Commands.Polling.{limit, dispatch_poller_cases}

-- The numbers of the last feedback that was handed on.
pub record Pump : Type 0 where
  pub is_init : Bool
  pub last_accepted_seq_num : ℕ
  pub last_rejected_seq_num : ℕ

-- The elements of the feedback slate.
pub record Feedback : Type 0 where
  pub accepted_seq_num : ℕ
  pub rejected_seq_num : ℕ

-- `start_pump` may change a state; its failure is only logged.
unfoldable pub dispatch_pump :
    {X : Type 0} → (ℕ → ℕ → X → Bool × X) → Feedback → Pump → X → ℤ × Pump × X
dispatch_pump start_pump f p x =
    if not p.is_init
    then (nano_t_max, p, x)
    else if not (p.last_accepted_seq_num == f.accepted_seq_num)
        || not (p.last_rejected_seq_num == f.rejected_seq_num)
    then (
      nano_t_max,
      record p {
        last_accepted_seq_num = f.accepted_seq_num;
        last_rejected_seq_num = f.rejected_seq_num;
      },
      (start_pump f.accepted_seq_num f.rejected_seq_num x).1,
    )
    else (nano_t_max, p, x)

-- The calls of the client's poller: requests come from the client, and `G` is the state of the
-- client of the calls and of the random numbers.
pub record Grpc (S A G : Type 0) : Type 0 where
  pub async : PumpRequest S → G → Bool × G
  pub cancel_all_outstanding : G → G
  pub cb : A → Client S × G → Bool × (Client S × G)
  pub draw : ℤ → ℤ → G → ℤ × G
  pub jitter : ℤ → ℤ

module _ {S A G : Type 0} (g : Grpc S A G) where
  abbrev pub calls : Calls (Client S × G) (PumpRequest S) A
  calls = record {
    build_request = λ (c, w). ((build_request c).0, ((build_request c).1, w));
    async = λ q (c, w). ((g.async q w).0, (c, (g.async q w).1));
    cancel_all_outstanding = λ (c, w). (c, g.cancel_all_outstanding w);
    cb = g.cb;
    draw = λ a b (c, w). ((g.draw a b w).0, (c, (g.draw a b w).1));
    jitter = g.jitter;
  }

  -- `CommandQueueClient::pump_now`, bound to the client as the delegate of the pump.
  abbrev pub start_pump : ℕ → ℕ → Client S × Poller × G → Bool × (Client S × Poller × G)
  start_pump accepted rejected (c, q, w) =
      let (good, c', (q', w')) =
        pump_now (λ (q, w). (poll_asap q, g.cancel_all_outstanding w)) accepted rejected c (q, w) in
      (good, (c', q', w'))

  -- `CommandQueueClient::dispatch`, with the poller of the client.
  abbrev pub poll : ℤ → Client S → Poller × G → ℤ × Client S × (Poller × G)
  poll t c (q, w) =
      let (next, q', (c', w')) = dispatch_poller calls t q (c, w) in (next, c', (q', w'))

  -- The pump and the client have the numbers of the feedback.
  abbrev pub Told : Feedback → Pump → Client S → Type 0
  Told f p c =
      (p.last_accepted_seq_num ≡ f.accepted_seq_num)
      × (p.last_rejected_seq_num ≡ f.rejected_seq_num)
      × (c.accepted_sequence_number ≡ f.accepted_seq_num)
      × (c.rejected_sequence_number ≡ f.rejected_seq_num)

  -- The client once it is told the numbers of the feedback.
  abbrev pub fed : Feedback → Client S → Client S
  fed f c = record c {
    accepted_sequence_number = f.accepted_seq_num;
    rejected_sequence_number = f.rejected_seq_num;
  }

  abbrev pub differs : Feedback → Pump → Bool
  differs f p =
      not (p.last_accepted_seq_num == f.accepted_seq_num)
      || not (p.last_rejected_seq_num == f.rejected_seq_num)

  abbrev pub noted : Feedback → Pump → Pump
  noted f p = record p {
    last_accepted_seq_num = f.accepted_seq_num;
    last_rejected_seq_num = f.rejected_seq_num;
  }

  pub dispatch_new :
      (f : Feedback) (p : Pump) (c : Client S) (q : Poller) (w : G)
      → p.is_init ≡ true
      → c.is_init ≡ true
      → differs f p ≡ true
      → dispatch_pump start_pump f p (c, q, w)
        ≡ (nano_t_max, noted f p, (fed f c, poll_asap q, g.cancel_all_outstanding w))
  unfolding dispatch_pump pump_now
  dispatch_new f p c q w i j h = ground arith

  dispatch_old :
      (f : Feedback) (p : Pump) (x : Client S × Poller × G)
      → differs f p ≡ false
      → dispatch_pump start_pump f p x ≡ (nano_t_max, p, x)
  unfolding dispatch_pump
  dispatch_old f p x h = ground arith

  same_numbers :
      (f : Feedback) (p : Pump)
      → differs f p ≡ false
      → (p.last_accepted_seq_num ≡ f.accepted_seq_num)
        × (p.last_rejected_seq_num ≡ f.rejected_seq_num)
  same_numbers f p h = (ground arith, ground arith)

  -- A client that has the numbers of its pump has those of the feedback after the pump's dispatch,
  -- and the pump has them too; a second dispatch with the same feedback does nothing.
  pub dispatch_pump-Told :
      (f : Feedback) (p : Pump) (c : Client S) (q : Poller) (w : G)
      → p.is_init ≡ true
      → c.is_init ≡ true
      → c.accepted_sequence_number ≡ p.last_accepted_seq_num
      → c.rejected_sequence_number ≡ p.last_rejected_seq_num
      → Told f
          (dispatch_pump start_pump f p (c, q, w)).1
          (dispatch_pump start_pump f p (c, q, w)).2.0
        × (dispatch_pump start_pump f
              (dispatch_pump start_pump f p (c, q, w)).1
              (dispatch_pump start_pump f p (c, q, w)).2
            ≡ dispatch_pump start_pump f p (c, q, w))
  dispatch_pump-Told f p c q w i j a r = elim (Bool-cases (differs f p)) [
    | inl h ↦ subst Good (sym (dispatch_new f p c q w i j h)) (
      (refl, refl, refl, refl),
      dispatch_old f (noted f p) (fed f c, poll_asap q, g.cancel_all_outstanding w) (ground arith),
    )
    | inr h ↦
        let (e, k) = same_numbers f p h in
        subst Good (sym (dispatch_old f p (c, q, w) h))
          ((e, k, a ∙ e, r ∙ k), dispatch_old f p (c, q, w) h)
  ]
    where
      Good : ℤ × Pump × (Client S × Poller × G) → Type 0
      Good t = Told f t.1 t.2.0 × (dispatch_pump start_pump f t.1 t.2 ≡ t)

  -- The calls after a dispatch of the client.
  abbrev pub next_call : ℤ → Client S × Poller × G → G
  next_call t (c, q, w) = (dispatch_client poll t c (q, w)).2.1

  enabled_call :
      (t : ℤ) (c : Client S) (q : Poller) (w : G)
      → c.enabled ≡ true
      → (dispatch_client poll t c (q, w)).2.1 ≡ (dispatch_poller calls t q (c, w)).2.1
  unfolding dispatch_client
  enabled_call t c q w e =
      ap (λ b. (if not b then (nano_t_max, c, (q, w)) else poll t c (q, w)).2.1) e

  asap_call :
      (t : ℤ) (c : Client S) (q : Poller) (w : G)
      → q.just_enabled_polling ≡ false
      → q.waiting_on_response ≡ false
      → q.polling_enabled ≡ true
      → pos 0 ≤ℤ t
      → limit calls q ≤ℤ t
      → (dispatch_poller calls t (poll_asap q) (c, w)).2.1 ≡ (g.async (build_request c).0 w).1
  unfolding poll_asap
  asap_call t c q w fresh free active zero rate =
      elim (dispatch_poller_cases calls t (poll_asap q) (c, w) fresh free active) [
        | inl (_, _, called) ↦ ap (λ u. u.1) called.world
        | inr (never, _) ↦ absurd (never (zero, rate))
      ]

  -- New feedback is traded for the next command: if the client is enabled, its poller polls, waits
  -- for no response and is not to be delayed, the next dispatch of the client that keeps the limit
  -- on the rate makes a call. Its request is for the client's vehicle and reports the accepted number
  -- of the feedback and the higher one of the rejected number of the feedback and the number of the
  -- last command that could not be sent.
  pub dispatch_pump-dispatch_client :
      (f : Feedback) (p : Pump) (c : Client S) (q : Poller) (w : G) (t : ℤ)
      → p.is_init ≡ true
      → c.is_init ≡ true
      → differs f p ≡ true
      → c.enabled ≡ true
      → q.just_enabled_polling ≡ false
      → q.waiting_on_response ≡ false
      → q.polling_enabled ≡ true
      → pos 0 ≤ℤ t
      → limit calls q ≤ℤ t
      → next_call t (dispatch_pump start_pump f p (c, q, w)).2
        ≡ (g.async
            (record {
              target_satellite_id = c.target_entity;
              accepted_sequence_num = f.accepted_seq_num;
              rejected_sequence_num = max f.rejected_seq_num c.send_failed_sequence_num;
              require_signed = c.require_signed_command;
            })
            (g.cancel_all_outstanding w)).1
  unfolding build_request
  dispatch_pump-dispatch_client f p c q w t i j new on fresh free active zero rate =
      ap (λ s. next_call t s.2) (dispatch_new f p c q w i j new)
      ∙ enabled_call t (fed f c) (poll_asap q) (g.cancel_all_outstanding w) on
      ∙ asap_call t (fed f c) q (g.cancel_all_outstanding w) fresh free active zero rate
