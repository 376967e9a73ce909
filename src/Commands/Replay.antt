-- ===== src/Commands/Replay.antt =====
-- CommandQueueClient: the numbers of signed commands over a run of the client.
use codon.Prelude.{
  ℕ, ◌<◌, ◌≤◌, ◌≡◌, ◌≢◌, refl, sym, subst, ◌⊎◌, inl, inr, Bool, true, arith, ◌==◌, Bool-cases,
  ==→ne,
}
use codon.Commands.Client.{
  Security, PumpResponse, Client, max, has_command, received, deliver, on_pump_response,
  build_request, pump_now,
}
use codon.Commands.Refusals.{
  Reason, unopened, wrong_kind, stale, misnamed, mistargeted, undecoded, count, Permitted,
}
use codon.Commands.Responses.{on_pump_response_cases, on_pump_response_sends}

-- The numbers of the vehicle and of the last request are the same.
record Same {S : Type 0} (c c' : Client S) : Type 0 where
  accepted : c'.accepted_sequence_number ≡ c.accepted_sequence_number
  rejected : c'.rejected_sequence_number ≡ c.rejected_sequence_number
  last_accepted : c'.last_request_accepted_seq_num ≡ c.last_request_accepted_seq_num
  last_rejected : c'.last_request_rejected_seq_num ≡ c.last_request_rejected_seq_num

Same-refl : {S : Type 0} (c : Client S) → Same c c
Same-refl c = record {
  accepted = refl;
  rejected = refl;
  last_accepted = refl;
  last_rejected = refl;
}

count-Same : {S : Type 0} (reason : Reason) (c : Client S) → Same c (count reason c)
count-Same unopened c = Same-refl c
count-Same wrong_kind c = record {
  accepted = refl;
  rejected = refl;
  last_accepted = refl;
  last_rejected = refl;
}
count-Same stale c = record {
  accepted = refl;
  rejected = refl;
  last_accepted = refl;
  last_rejected = refl;
}
count-Same misnamed c = record {
  accepted = refl;
  rejected = refl;
  last_accepted = refl;
  last_rejected = refl;
}
count-Same mistargeted c = record {
  accepted = refl;
  rejected = refl;
  last_accepted = refl;
  last_rejected = refl;
}
count-Same undecoded c = record {
  accepted = refl;
  rejected = refl;
  last_accepted = refl;
  last_rejected = refl;
}

module _ {S K R P W : Type 0} (x : Security S K R P) (emit : ℕ → P → W → Bool × Bool × W) where
  deliver-Same :
      (c : Client S) (n : ℕ) (payload : P) (w : W) → Same c (deliver x emit c n payload w).1
  unfolding deliver
  deliver-Same c n payload w = elim (Bool-cases (emit n payload w).0) [
    | inr e ↦ ground arith
    | inl e ↦ elim (Bool-cases (emit n payload w).1) [ inl i ↦ ground arith | inr i ↦ ground arith ]
  ]

  Same-received : (r : PumpResponse K R) (c c' : Client S) → Same (received x c r) c' → Same c c'
  Same-received r c c' s = record {
    accepted = s.accepted;
    rejected = s.rejected;
    last_accepted = s.last_accepted;
    last_rejected = s.last_rejected;
  }

  numbered-Same :
      (r : PumpResponse K R) (c : Client S) (w : W)
      → c.is_init ≡ true
      → has_command x r ≡ true
      → r.send_sequence_number ≢ 0
      → Same c (on_pump_response x emit true r c w).1
  numbered-Same r c w i h n = elim (on_pump_response_cases x emit r c w i h n) [
    | inl (payload, may, e) ↦
        subst (λ t. Same c t.1) (sym e)
          (Same-received r c (deliver x emit (received x c r) r.send_sequence_number payload w).1
            (deliver-Same (received x c r) r.send_sequence_number payload w))
    | inr (reason, why, e) ↦
        subst (λ t. Same c t.1) (sym e)
          (Same-received r c (count reason (received x c r)) (count-Same reason (received x c r)))
  ]

  on_pump_response-Same :
      (ok : Bool) (r : PumpResponse K R) (c : Client S) (w : W)
      → Same c (on_pump_response x emit ok r c w).1
  unfolding on_pump_response
  on_pump_response-Same ok r c w = elim (Bool-cases c.is_init) [
    | inr i ↦ ground arith
    | inl i ↦ elim (Bool-cases ok) [
      | inr o ↦ ground arith
      | inl o ↦ elim (Bool-cases (has_command x r)) [
        | inr h ↦ ground arith
        | inl h ↦ elim (Bool-cases (r.send_sequence_number == 0)) [
          | inl n ↦ ground arith
          | inr n ↦
              subst (λ ok. Same c (on_pump_response x emit ok r c w).1) (sym o)
                (numbered-Same r c w i h (==→ne r.send_sequence_number 0 n))
        ]
      ]
    ]
  ]

  -- What happens to a client: feedback of the vehicle, whose numbers never go down, a request, a
  -- response, or new settings from the control process.
  pub data ClientStep (c c' : Client S) : Type 0 where
    feed :
        (accepted rejected : ℕ)
        → c.accepted_sequence_number ≤ accepted
        → c.rejected_sequence_number ≤ rejected
        → c' ≡ (pump_now (λ (u : Unit {0}). u) accepted rejected c tt).1
        → ClientStep c c'
    ask : c' ≡ (build_request c).1 → ClientStep c c'
    respond :
        (ok : Bool) (r : PumpResponse K R) (w : W)
        → c' ≡ (on_pump_response x emit ok r c w).1
        → ClientStep c c'
    share :
        (enabled signed : Bool)
        → c' ≡ record c { enabled = enabled; require_signed_command = signed }
        → ClientStep c c'

  pub data Run (c : Client S) : Client S → Type 0 where
    start : Run c c
    later : {c' c'' : Client S} → Run c c' → ClientStep c' c'' → Run c c''

  -- The numbers of a client later than `c`.
  pub record Later (c c' : Client S) : Type 0 where
    pub accepted : c.accepted_sequence_number ≤ c'.accepted_sequence_number
    pub rejected : c.rejected_sequence_number ≤ c'.rejected_sequence_number
    pub last_accepted : c.accepted_sequence_number ≤ c'.last_request_accepted_seq_num
    pub last_rejected : c.rejected_sequence_number ≤ c'.last_request_rejected_seq_num

  ClientStep-Later : (c c' c'' : Client S) → Later c c' → ClientStep c' c'' → Later c c''
  unfolding pump_now build_request
  ClientStep-Later c c' c'' l (feed a r h k e) = ground (arith, e)
  ClientStep-Later c c' c'' l (ask e) = ground (arith, e)
  ClientStep-Later c c' c'' l (respond ok r w e) =
      let s : Same c' c'' = subst (λ d. Same c' d) (sym e) (on_pump_response-Same ok r c' w) in
      record {
        accepted = omega (arith, s.accepted, l.accepted);
        rejected = omega (arith, s.rejected, l.rejected);
        last_accepted = omega (arith, s.last_accepted, l.last_accepted);
        last_rejected = omega (arith, s.last_rejected, l.last_rejected);
      }
  ClientStep-Later c c' c'' l (share a b e) = ground (arith, e)

  Run-Later : {c c' c'' : Client S} → Later c c' → Run c' c'' → Later c c''
  Run-Later l start = l
  Run-Later {c = c} l (later {c' = d} {c'' = e} run step) =
      ClientStep-Later c d e (Run-Later l run) step

  build_request-Later : (c : Client S) → Later c (build_request c).1
  unfolding build_request
  build_request-Later c = ground arith

  signed_fresh :
      (c : Client S) (r : PumpResponse K R) (payload : P)
      → c.require_signed_command ≡ true
      → 0 < c.accepted_sequence_number
      → Permitted x (received x c r) r payload
      → max c.last_request_accepted_seq_num c.last_request_rejected_seq_num < r.send_sequence_number
  signed_fresh c r payload sig acc (inr (e, _, _, _)) = absurd (cc (sig, e))
  signed_fresh c r payload sig acc (inl (e, signed, s, auth)) = elim auth.fresh [
    | inl z ↦ absurd (omega (arith, z, acc))
    | inr h ↦ h
  ]

  Run-fresh :
      (c c' : Client S) (r : PumpResponse K R) (payload : P)
      → 0 < c.accepted_sequence_number
      → Run (build_request c).1 c'
      → c'.require_signed_command ≡ true
      → Permitted x (received x c' r) r payload
      → (c.accepted_sequence_number < r.send_sequence_number)
        × (c.rejected_sequence_number < r.send_sequence_number)
  Run-fresh c c' r payload acc run sig may =
      let l : Later c c' = Run-Later (build_request-Later c) run in
      let high : max c'.last_request_accepted_seq_num c'.last_request_rejected_seq_num
          < r.send_sequence_number =
        signed_fresh c' r payload sig (omega (arith, acc, l.accepted)) may in
      (ground (arith, l.last_accepted, high), ground (arith, l.last_rejected, high))

  -- After a request of a client to which the vehicle has reported an accepted command, as long as the
  -- numbers that the vehicle reports do not go down and whatever responses, requests and settings
  -- come between, a client that requires signed commands hands on no command of a response whose
  -- number is not above both the accepted and the rejected number of the time of that request.
  pub Run-on_pump_response :
      (c c' : Client S) (ok : Bool) (r : PumpResponse K R) (w : W)
      → 0 < c.accepted_sequence_number
      → Run (build_request c).1 c'
      → c'.require_signed_command ≡ true
      → ((on_pump_response x emit ok r c' w).2 ≡ w)
        ⊎ ((c.accepted_sequence_number < r.send_sequence_number)
            × (c.rejected_sequence_number < r.send_sequence_number))
  Run-on_pump_response c c' ok r w acc run sig = elim (on_pump_response_sends x emit ok r c' w) [
    | inl e ↦ inl e
    | inr (payload, may, _, _) ↦ inr (Run-fresh c c' r payload acc run sig may)
  ]
