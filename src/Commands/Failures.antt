-- ===== src/Commands/Failures.antt =====
-- CommandQueueClient: a command that could not be sent, and the request after it.
use codon.Prelude.{
  ℕ, ◌<◌, ◌≤◌, ◌≡◌, ◌≢◌, refl, sym, ap, ap₂, subst, ◌∙◌, ◌⊎◌, inl, inr, Bool, true, false, arith,
}
use codon.Commands.Client.{
  Security, PumpResponse, Client, Verdict, pass, max, has_command, check_response, received,
  deliver, on_pump_response, build_request,
}
use codon.Commands.Refusals.{Permitted, check_response-Permitted, check_response_cases}
use codon.Commands.Responses.{obeyed, deliver_world}

module _ {S K R P : Type 0} (x : Security S K R P) where
  -- The client after a command that could not be sent.
  abbrev pub failed : Client S → PumpResponse K R → Client S
  failed c r = record (received x c r) { send_failed_sequence_num = r.send_sequence_number }

  failed_deliver :
      {W : Type 0} (emit : ℕ → P → W → Bool × Bool × W) (c : Client S) (n : ℕ) (payload : P)
      (w w' : W)
      → emit n payload w ≡ (true, false, w')
      → deliver x emit c n payload w ≡ (true, record c { send_failed_sequence_num = n }, w')
  unfolding deliver
  failed_deliver emit c n payload w w' e = ground arith

  pub on_pump_response-build_request :
      {W : Type 0} (emit : ℕ → P → W → Bool × Bool × W) (r : PumpResponse K R) (c : Client S)
      (w w' : W) (payload : P)
      → c.is_init ≡ true
      → has_command x r ≡ true
      → r.send_sequence_number ≢ 0
      → Permitted x (received x c r) r payload
      → emit r.send_sequence_number payload w ≡ (true, false, w')
      → (on_pump_response x emit true r c w ≡ (true, failed c r, w'))
        × ((build_request (failed c r)).0.rejected_sequence_num
            ≡ max c.rejected_sequence_number r.send_sequence_number)
        × (r.send_sequence_number ≤ (build_request (failed c r)).0.rejected_sequence_num)
  unfolding build_request
  on_pump_response-build_request emit r c w w' payload started full positive may e = (
    obeyed x emit r c w payload started full positive
          (check_response-Permitted x (received x c r) r payload may)
        ∙ failed_deliver emit (received x c r) r.send_sequence_number payload w w' e,
    refl,
    ground arith,
  )

  build_request-Permitted :
      (r : PumpResponse K R) (c : Client S) (payload : P)
      → c.last_request_accepted_seq_num ≡ c.accepted_sequence_number
      → c.last_request_rejected_seq_num ≡ c.rejected_sequence_number
      → Permitted x (received x c r) r payload
      → Permitted x (received x (build_request (failed c r)).1 r) r payload
  unfolding build_request
  build_request-Permitted r c payload a b (inr plain) = inr plain
  build_request-Permitted r c payload a b (inl (e, signed, s, auth)) = inl (
    e,
    signed,
    s,
    record {
      tbs = auth.tbs;
      outer = auth.outer;
      inner = auth.inner;
      opened = auth.opened;
      numbered = auth.numbered;
      fresh =
          subst (λ m. (c.accepted_sequence_number ≡ 0) ⊎ (m < r.send_sequence_number)) (ap₂ max a b)
            auth.fresh;
      outer_named = auth.outer_named;
      inner_named = auth.inner_named;
      targeted = auth.targeted;
      decoded = auth.decoded;
    },
  )

  passed-Permitted :
      (c : Client S) (r : PumpResponse K R) (payload : P)
      → check_response x c r ≡ pass payload
      → Permitted x c r payload
  passed-Permitted c r payload passes = elim (check_response_cases x c r) [
    | inl (payload', may, e) ↦ subst (λ q. Permitted x c r q) (pass_injective (sym e ∙ passes)) may
    | inr (reason, why, e) ↦ absurd (cc (e, passes))
  ]
    where
      pass_injective : {a b : P} → Path (Verdict (Client S) P) (pass a) (pass b) → a ≡ b
      pass_injective e = cc e

  -- If a command that passes the check of a response is not sent, because those who are asked to
  -- send it do not issue it, and the vehicle's numbers are those of the last request, then the next
  -- request reports its number, or a higher one, as rejected; and yet, as long as the vehicle reports
  -- no other numbers, the same response after that request is handed on to be sent once more.
  pub build_request-on_pump_response :
      {W : Type 0} (emit : ℕ → P → W → Bool × Bool × W) (r : PumpResponse K R) (c : Client S)
      (w w' : W) (payload : P)
      → c.is_init ≡ true
      → has_command x r ≡ true
      → r.send_sequence_number ≢ 0
      → c.last_request_accepted_seq_num ≡ c.accepted_sequence_number
      → c.last_request_rejected_seq_num ≡ c.rejected_sequence_number
      → check_response x (received x c r) r ≡ pass payload
      → emit r.send_sequence_number payload w ≡ (true, false, w')
      → (r.send_sequence_number
          ≤ (build_request (on_pump_response x emit true r c w).1).0.rejected_sequence_num)
        × ((on_pump_response x emit true r
              (build_request (on_pump_response x emit true r c w).1).1
              w').2
            ≡ (emit r.send_sequence_number payload w').2)
  unfolding build_request
  build_request-on_pump_response emit r c w w' payload started full positive a b passes e =
      let may : Permitted x (received x c r) r payload =
        passed-Permitted (received x c r) r payload passes in
      let (same, _, high) =
        on_pump_response-build_request emit r c w w' payload started full positive may e in
      let asked : Client S = (build_request (failed c r)).1 in
      let again : check_response x (received x asked r) r ≡ pass payload =
        check_response-Permitted x (received x asked r) r payload
          (build_request-Permitted r c payload a b may) in
      let sent : (on_pump_response x emit true r asked w').2
          ≡ (emit r.send_sequence_number payload w').2 =
        ap (λ t. t.2) (obeyed x emit r asked w' payload started full positive again)
        ∙ deliver_world x emit (received x asked r) r.send_sequence_number payload w' in
      subst
        (λ d.
          (r.send_sequence_number ≤ (build_request d).0.rejected_sequence_num)
          × ((on_pump_response x emit true r (build_request d).1 w').2
              ≡ (emit r.send_sequence_number payload w').2))
        (sym (ap (λ t. t.1) same)) (high, sent)
