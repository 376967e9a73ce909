-- ===== src/Commands/Responses.antt =====
-- CommandQueueClient: what a response does to the client and to those that it hands commands to.
use codon.Prelude.{
  ℕ, ◌≡◌, ◌≢◌, sym, ap, subst, ◌∙◌, ◌⊎◌, inl, inr, Bool, true, false, arith, ◌==◌, Bool-cases,
  ==→ne, ==_ne,
}
use codon.Commands.Client.{
  Security, PumpResponse, Client, refuse, pass, check_response, has_command, received, deliver,
  on_pump_response,
}
use codon.Commands.Refusals.{Reason, count, Permitted, Because, check_response_cases}

module _ {S K R P W : Type 0} (x : Security S K R P) (emit : ℕ → P → W → Bool × Bool × W) where
  open x use {eq, is_empty, command_auth_unwrap, operator_unwrap, string_to_uint, from_protobuf}

  pub obeyed :
      (r : PumpResponse K R) (c : Client S) (w : W) (payload : P)
      → c.is_init ≡ true
      → has_command x r ≡ true
      → r.send_sequence_number ≢ 0
      → check_response x (received x c r) r ≡ pass payload
      → on_pump_response x emit true r c w
        ≡ deliver x emit (received x c r) r.send_sequence_number payload w
  unfolding on_pump_response
  obeyed r c w payload started full positive h =
      let numbered : (r.send_sequence_number == 0) ≡ false =
        ==_ne r.send_sequence_number 0 positive in
      ground arith

  refused :
      (r : PumpResponse K R) (c c' : Client S) (w : W)
      → c.is_init ≡ true
      → has_command x r ≡ true
      → r.send_sequence_number ≢ 0
      → check_response x (received x c r) r ≡ refuse c'
      → on_pump_response x emit true r c w ≡ (false, c', w)
  unfolding on_pump_response
  refused r c c' w started full positive h =
      let numbered : (r.send_sequence_number == 0) ≡ false =
        ==_ne r.send_sequence_number 0 positive in
      ground arith

  -- A numbered response with a command is handed on when it is permitted, and only then. Otherwise
  -- one of the reasons for a refusal holds; then nothing is sent, false is returned, and besides the
  -- last number and the count of the responses with a command only the counter of the reason changes,
  -- if it has one: a signature that does not open has none.
  pub on_pump_response_cases :
      (r : PumpResponse K R) (c : Client S) (w : W)
      → c.is_init ≡ true
      → has_command x r ≡ true
      → r.send_sequence_number ≢ 0
      → ((payload : P) × Permitted x (received x c r) r payload
          × (on_pump_response x emit true r c w
              ≡ deliver x emit (received x c r) r.send_sequence_number payload w))
        ⊎ ((reason : Reason) × Because x (received x c r) r reason
            × (on_pump_response x emit true r c w ≡ (false, count reason (received x c r), w)))
  on_pump_response_cases r c w started full positive =
      elim (check_response_cases x (received x c r) r) [
        | inl (payload, may, h) ↦ inl (payload, may, obeyed r c w payload started full positive h)
        | inr (reason, why, h) ↦
            inr (reason, why, refused r c (count reason (received x c r)) w started full positive h)
      ]

  pub deliver_world :
      (c : Client S) (seq_num : ℕ) (payload : P) (w : W)
      → (deliver x emit c seq_num payload w).2 ≡ (emit seq_num payload w).2
  unfolding deliver
  deliver_world c seq_num payload w = ground arith

  abbrev Sent : Client S → PumpResponse K R → W → W → Type 0
  Sent c r w w' =
      (payload : P) × Permitted x (received x c r) r payload
      × (r.send_sequence_number ≢ 0)
      × (w' ≡ (emit r.send_sequence_number payload w).2)

  idle :
      (ok : Bool) (r : PumpResponse K R) (c : Client S) (w : W)
      → ((on_pump_response x emit ok r c w).2 ≡ w)
        ⊎ ((c.is_init ≡ true)
            × (ok ≡ true)
            × (has_command x r ≡ true)
            × (r.send_sequence_number ≢ 0))
  unfolding on_pump_response
  idle ok r c w = elim (Bool-cases c.is_init) [
    | inr i ↦ inl (ground arith)
    | inl i ↦ elim (Bool-cases ok) [
      | inr o ↦ inl (ground arith)
      | inl o ↦ elim (Bool-cases (has_command x r)) [
        | inr h ↦ inl (ground arith)
        | inl h ↦ elim (Bool-cases (r.send_sequence_number == 0)) [
          | inl n ↦ inl (ground arith)
          | inr n ↦ inr (i, o, h, ==→ne r.send_sequence_number 0 n)
        ]
      ]
    ]
  ]

  -- Whatever the state of the client and the response, those that the client hands commands to are
  -- called only with the number and the payload of a permitted response, and once.
  pub on_pump_response_sends :
      (ok : Bool) (r : PumpResponse K R) (c : Client S) (w : W)
      → ((on_pump_response x emit ok r c w).2 ≡ w) ⊎ Sent c r w (on_pump_response x emit ok r c w).2
  on_pump_response_sends ok r c w = elim (idle ok r c w) [
    | inl e ↦ inl e
    | inr (i, o, h, n) ↦
        subst
          (λ ok.
            ((on_pump_response x emit ok r c w).2 ≡ w)
            ⊎ Sent c r w (on_pump_response x emit ok r c w).2)
          (sym o) (numbered r c w i h n)
  ]
    where
      numbered :
          (r : PumpResponse K R) (c : Client S) (w : W)
          → c.is_init ≡ true
          → has_command x r ≡ true
          → r.send_sequence_number ≢ 0
          → ((on_pump_response x emit true r c w).2 ≡ w)
            ⊎ Sent c r w (on_pump_response x emit true r c w).2
      numbered r c w i h n = elim (on_pump_response_cases r c w i h n) [
        | inl (payload, may, e) ↦ inr (
          payload,
          may,
          n,
          ap (λ t. t.2) e ∙ deliver_world (received x c r) r.send_sequence_number payload w,
        )
        | inr (reason, why, e) ↦ inl (ap (λ t. t.2) e)
      ]
