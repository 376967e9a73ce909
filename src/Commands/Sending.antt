-- ===== src/Commands/Sending.antt =====
-- CommandSender::send: which commands reach a channel, also behind CommandQueueClient.
use codon.Prelude.{
  ℕ, ◌≡◌, refl, sym, ap, subst, ◌∙◌, ◌⊎◌, inl, inr, ◌↔◌, Bool, true, false, some, arith, Bool-cases,
  Option-cases,
}
use codon.Commands.Client.{tick, Security, PumpResponse, Client, received, on_pump_response}
use codon.Commands.Refusals.{Permitted}
use codon.Commands.Responses.{on_pump_response_sends}
use codon.Commands.Sender.{Transport, Sender, find_channel, write_frame, send}

-- The counters of a sender.
pub data Counter : Type 0 where
  writes translate_failed invalid_node write_failed : Counter

abbrev pub bump : {S : Type 0} → Counter → Sender S → Sender S
bump writes s = record s { metrics_writes = tick s.metrics_writes }
bump translate_failed s = record s { errors_translate_failed = tick s.errors_translate_failed }
bump invalid_node s = record s { errors_invalid_node = tick s.errors_invalid_node }
bump write_failed s = record s { errors_write_failed = tick s.errors_write_failed }

abbrev pub is_write : Counter → Bool
is_write writes = true
is_write translate_failed = false
is_write invalid_node = false
is_write write_failed = false

module _ {S P M F X : Type 0} (y : Transport S P M F X) where
  open y use {eq, write_message, prepare_transport, frame, write}

  -- The payload becomes the frame `f` with its number, for the node that has the channel.
  pub record Framed (n : ℕ) (payload : P) (s : Sender S) (f : F) (channel : ℕ) : Type 0 where
    pub message : M
    pub ready : M
    pub alias : S
    pub translated : write_message payload ≡ some (message, alias)
    pub prepared : prepare_transport message ≡ some ready
    pub framed : frame ready s.client_node_id n ≡ some f
    pub found : find_channel y alias s.relay_channels ≡ some channel

  -- A call has written a frame or has not; what it returns, and the counters and channels after it.
  pub data Outcome (n : ℕ) (payload : P) (s : Sender S) (w : X) (t : Bool × Bool × Sender S × X)
      : Type 0 where
    fault : t ≡ (false, false, s, w) → Outcome n payload s w t
    untried :
        (c : Counter)
        → is_write c ≡ false
        → t ≡ (true, false, bump c s, w)
        → ((f : F) (channel : ℕ) → ¬ Framed n payload s f channel)
        → Outcome n payload s w t
    tried :
        (f : F) (channel : ℕ) (c : Counter)
        → Framed n payload s f channel
        → (write channel f w).0 ≡ is_write c
        → t ≡ (true, is_write c, bump c s, (write channel f w).1)
        → Outcome n payload s w t

  write_frame-Outcome :
      (n : ℕ) (payload : P) (s : Sender S) (w : X) (message ready : M) (alias : S) (f : F)
      → write_message payload ≡ some (message, alias)
      → prepare_transport message ≡ some ready
      → frame ready s.client_node_id n ≡ some f
      → Outcome n payload s w (write_frame y f alias s w)
  unfolding write_frame
  write_frame-Outcome n payload s w message ready alias f e p h =
      elim (Option-cases (find_channel y alias s.relay_channels)) [
        | inl none_found ↦
            untried invalid_node refl (ground arith)
              (λ f' channel k. absurd (cc (k.translated, k.found, e, none_found)))
        | inr (channel, found) ↦
            let k : Framed n payload s f channel = record {
              message = message;
              ready = ready;
              alias = alias;
              translated = e;
              prepared = p;
              framed = h;
              found = found;
            } in
            elim (Bool-cases (write channel f w).0) [
              | inl t ↦ tried f channel writes k t (ground arith)
              | inr t ↦ tried f channel write_failed k t (ground arith)
            ]
      ]

  send-Outcome :
      (n : ℕ) (payload : P) (s : Sender S) (w : X) → Outcome n payload s w (send y n payload s w)
  unfolding send
  send-Outcome n payload s w = elim (Bool-cases s.is_init) [
    | inr i ↦ fault (ground arith)
    | inl i ↦ elim (Option-cases (write_message payload)) [
      | inl e ↦
          untried translate_failed refl (ground arith)
            (λ f channel k. absurd (cc (k.translated, e)))
      | inr ((message, alias), e) ↦ elim (Option-cases (prepare_transport message)) [
        | inl p ↦ fault (ground arith)
        | inr (ready, p) ↦ elim (Option-cases (frame ready s.client_node_id n)) [
          | inl h ↦ fault (ground arith)
          | inr (f, h) ↦
              let same : send y n payload s w ≡ write_frame y f alias s w = ground arith in
              subst (λ t. Outcome n payload s w t) (sym same)
                (write_frame-Outcome n payload s w message ready alias f e p h)
        ]
      ]
    ]
  ]

  -- A call of `send` that succeeds adds one to one counter, the counter of writes if and only if it
  -- reports the command as issued; one that fails changes nothing.
  pub send-bump :
      (n : ℕ) (payload : P) (s : Sender S) (w : X)
      → ((c : Counter) × ((send y n payload s w).0 ≡ true)
          × ((send y n payload s w).1 ≡ is_write c)
          × ((send y n payload s w).2 ≡ bump c s))
        ⊎ (send y n payload s w ≡ (false, false, s, w))
  send-bump n payload s w = elim (send-Outcome n payload s w) [
    | fault e ↦ inr e
    | untried c out e none_framed ↦
        inl (c, ap (λ t. t.0) e, ap (λ t. t.1) e ∙ sym out, ap (λ t. t.2) e)
    | tried f channel c k written e ↦ inl (c, ap (λ t. t.0) e, ap (λ t. t.1) e, ap (λ t. t.2) e)
  ]

  Framed-send :
      (n : ℕ) (payload : P) (s : Sender S) (w : X) (f : F) (channel : ℕ)
      → s.is_init ≡ true
      → Framed n payload s f channel
      → (write channel f w).0 ≡ true
      → (send y n payload s w).1 ≡ true
  unfolding send write_frame
  Framed-send n payload s w f channel i k written =
      ground (arith, k.translated, k.prepared, k.framed, k.found)

  send-Framed :
      (n : ℕ) (payload : P) (s : Sender S) (w : X)
      → s.is_init ≡ true
      → (send y n payload s w).1 ≡ true
      → (f : F) × (channel : ℕ) × Framed n payload s f channel
        × ((write channel f w).0 ≡ true)
        × ((send y n payload s w).3 ≡ (write channel f w).1)
  send-Framed n payload s w i h = elim (send-Outcome n payload s w) [
    | fault e ↦ absurd (cc (h, ap (λ t. t.1) e))
    | untried c out e none_framed ↦ absurd (cc (h, ap (λ t. t.1) e))
    | tried f channel c k written e ↦
        (f, channel, k, written ∙ sym (ap (λ t. t.1) e) ∙ h, ap (λ t. t.3) e)
  ]

  -- A command is reported as issued exactly when it translates to a message that is framed with its
  -- number, a channel is found for its node, and that channel takes the frame.
  pub send_issues_iff :
      (n : ℕ) (payload : P) (s : Sender S) (w : X)
      → s.is_init ≡ true
      → ((send y n payload s w).1 ≡ true)
        ↔ ((f : F) × (channel : ℕ) × Framed n payload s f channel × ((write channel f w).0 ≡ true))
  send_issues_iff n payload s w i = (
    λ h.
        let (f, channel, k, written, _) = send-Framed n payload s w i h in (f, channel, k, written),
    λ (f, channel, k, written). Framed-send n payload s w f channel i k written,
  )

  -- The handler of `send_command_sig`.
  abbrev pub send_handler : ℕ → P → Sender S × X → Bool × Bool × (Sender S × X)
  send_handler n payload (s, w) =
      let (good, issued, s', w') = send y n payload s w in (good, issued, (s', w'))

  sent_frame :
      (n : ℕ) (payload : P) (s : Sender S) (w : X)
      → ((send y n payload s w).3 ≡ w)
        ⊎ ((f : F) × (channel : ℕ) × Framed n payload s f channel
            × ((send y n payload s w).3 ≡ (write channel f w).1))
  sent_frame n payload s w = elim (send-Outcome n payload s w) [
    | fault e ↦ inl (ap (λ t. t.3) e)
    | untried c out e none_framed ↦ inl (ap (λ t. t.3) e)
    | tried f channel c k written e ↦ inr (f, channel, k, ap (λ t. t.3) e)
  ]

  -- From the ground to the vehicle: the channels change by a response only when it is permitted, and
  -- then by one write, of the frame of its number and payload, to the channel of its node.
  pub on_pump_response-write :
      {K R : Type 0} (x : Security S K R P) (ok : Bool) (r : PumpResponse K R) (c : Client S)
      (s : Sender S) (w : X)
      → ((on_pump_response x send_handler ok r c (s, w)).2.1 ≡ w)
        ⊎ ((payload : P) × (f : F) × (channel : ℕ) × Permitted x (received x c r) r payload
            × Framed r.send_sequence_number payload s f channel
            × ((on_pump_response x send_handler ok r c (s, w)).2.1 ≡ (write channel f w).1))
  on_pump_response-write x ok r c s w = elim (on_pump_response_sends x send_handler ok r c (s, w)) [
    | inl e ↦ inl (ap (λ t. t.1) e)
    | inr (payload, may, positive, e) ↦ elim (sent_frame r.send_sequence_number payload s w) [
      | inl same ↦ inl (ap (λ t. t.1) e ∙ same)
      | inr (f, channel, k, written) ↦ inr (payload, f, channel, may, k, ap (λ t. t.1) e ∙ written)
    ]
  ]
