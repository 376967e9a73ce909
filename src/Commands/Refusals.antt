-- ===== src/Commands/Refusals.antt =====
-- CommandQueueClient::on_pump_response: the reasons for which a response is not obeyed.
use codon.Prelude.{
  ℕ, ◌<◌, ◌≤◌, ◌≡◌, ◌≢◌, ◌∙◌, ◌⊎◌, inl, inr, true, false, none, some, arith, ◌==◌, Bool-cases,
  Option-cases, ==→ne,
}
use codon.Commands.Client.{
  Tbs, Security, PumpResponse, Client, refuse, pass, max, tick, replayed, wrong_key, check_tbs,
  check_signed, check_plain, check_response,
}
use codon.Commands.Authorization.{Opened, Authorized, pass-Authorized, check_signed_iff, opens}

pub data Reason : Type 0 where
  unopened wrong_kind stale misnamed mistargeted undecoded : Reason

-- The counter of a reason; a signature that does not open has none.
abbrev pub count : {S : Type 0} → Reason → Client S → Client S
count unopened c = c
count wrong_kind c = record c { wrong_signature_state = tick c.wrong_signature_state }
count stale c = record c { signed_seq_num_check_failed = tick c.signed_seq_num_check_failed }
count misnamed c = record c { ephemeral_id_check_failed = tick c.ephemeral_id_check_failed }
count mistargeted c = record c { target_id_check_failed = tick c.target_id_check_failed }
count undecoded c = record c {
  invalid_command_payload_encoding = tick c.invalid_command_payload_encoding;
}

module _ {S K R P : Type 0} (x : Security S K R P) where
  open x use {eq, is_empty, command_auth_unwrap, operator_unwrap, string_to_uint, from_protobuf}

  abbrev pub Sealed : K → Type 0
  Sealed signed =
      (command_auth_unwrap signed ≡ none)
      ⊎ ((single : K) × (outer : S) × (command_auth_unwrap signed ≡ some (single, outer))
          × (operator_unwrap single ≡ none))

  -- Why a command with two good signatures is refused; each reason comes after the ones before it.
  abbrev pub Wrong : Client S → ℕ → Reason → S → S → Tbs S R → Type 0
  Wrong c seq_num unopened outer inner tbs = ⊥
  Wrong c seq_num wrong_kind outer inner tbs = ⊥
  Wrong c seq_num stale outer inner tbs =
      (seq_num ≢ string_to_uint tbs.command_id 0)
      ⊎ ((0 < c.accepted_sequence_number)
          × (seq_num ≤ max c.last_request_accepted_seq_num c.last_request_rejected_seq_num))
  Wrong c seq_num misnamed outer inner tbs =
      ((is_empty outer ≡ false) × (eq outer tbs.creation_info_id ≡ false))
      ⊎ ((is_empty inner ≡ false) × (eq inner tbs.creation_info_id ≡ false))
  Wrong c seq_num mistargeted outer inner tbs = eq c.target_entity tbs.target_id ≡ false
  Wrong c seq_num undecoded outer inner tbs = from_protobuf tbs.command_payload ≡ none

  stale_of_replayed :
      (c : Client S) (seq_num : ℕ) (outer inner : S) (tbs : Tbs S R)
      → replayed x c seq_num (string_to_uint tbs.command_id 0) ≡ true
      → Wrong c seq_num stale outer inner tbs
  stale_of_replayed c seq_num outer inner tbs h =
      elim (Bool-cases (seq_num == string_to_uint tbs.command_id 0)) [
        | inl e ↦ inr (ground arith)
        | inr e ↦ inl (==→ne seq_num (string_to_uint tbs.command_id 0) e)
      ]

  misnamed_of_wrong_key :
      (c : Client S) (seq_num : ℕ) (outer inner : S) (tbs : Tbs S R)
      → wrong_key x outer inner tbs ≡ true
      → Wrong c seq_num misnamed outer inner tbs
  misnamed_of_wrong_key c seq_num outer inner tbs h = ground arith

  tbs_verdict :
      (c : Client S) (seq_num : ℕ) (outer inner : S) (tbs : Tbs S R)
      → ((payload : P) × (check_tbs x c seq_num outer inner tbs ≡ pass payload))
        ⊎ ((reason : Reason) × Wrong c seq_num reason outer inner tbs
            × (check_tbs x c seq_num outer inner tbs ≡ refuse (count reason c)))
  unfolding check_tbs
  tbs_verdict c seq_num outer inner tbs =
      elim (Bool-cases (replayed x c seq_num (string_to_uint tbs.command_id 0))) [
        | inl e ↦ inr (stale, stale_of_replayed c seq_num outer inner tbs e, ground arith)
        | inr e ↦ elim (Bool-cases (wrong_key x outer inner tbs)) [
          | inl k ↦ inr (misnamed, misnamed_of_wrong_key c seq_num outer inner tbs k, ground arith)
          | inr k ↦ elim (Bool-cases (eq c.target_entity tbs.target_id)) [
            | inr t ↦ inr (mistargeted, t, ground arith)
            | inl t ↦ elim (Option-cases (from_protobuf tbs.command_payload)) [
              | inl d ↦ inr (undecoded, d, ground arith)
              | inr (payload, d) ↦ inl (payload, ground arith)
            ]
          ]
        ]
      ]

  -- What makes the client obey a response, and what makes it refuse one.
  abbrev pub Permitted : Client S → PumpResponse K R → P → Type 0
  Permitted c r payload =
      ((c.require_signed_command ≡ true)
        × (signed : K) × (r.signed_command ≡ some signed)
        × Authorized x c r.send_sequence_number signed payload)
      ⊎ ((c.require_signed_command ≡ false)
          × (raw : R) × (r.payload ≡ some raw)
          × (from_protobuf raw ≡ some payload))

  pub data Because (c : Client S) (r : PumpResponse K R) : Reason → Type 0 where
    unsigned : c.require_signed_command ≡ true → r.signed_command ≡ none → Because c r wrong_kind
    not_plain : c.require_signed_command ≡ false → r.payload ≡ none → Because c r wrong_kind
    no_payload :
        (raw : R)
        → c.require_signed_command ≡ false
        → r.payload ≡ some raw
        → from_protobuf raw ≡ none
        → Because c r undecoded
    not_opened :
        (signed : K)
        → c.require_signed_command ≡ true
        → r.signed_command ≡ some signed
        → Sealed signed
        → Because c r unopened
    not_right :
        (reason : Reason) (signed : K) (tbs : Tbs S R) (outer inner : S)
        → c.require_signed_command ≡ true
        → r.signed_command ≡ some signed
        → Opened x signed tbs outer inner
        → Wrong c r.send_sequence_number reason outer inner tbs
        → Because c r reason

  signed_verdict :
      (c : Client S) (seq_num : ℕ) (signed : K)
      → ((payload : P) × (check_signed x c seq_num signed ≡ pass payload))
        ⊎ ((Sealed signed × (check_signed x c seq_num signed ≡ refuse c))
            ⊎ ((reason : Reason) × (tbs : Tbs S R) × (outer : S) × (inner : S) × Opened x signed tbs
                  outer inner
                × Wrong c seq_num reason outer inner tbs
                × (check_signed x c seq_num signed ≡ refuse (count reason c))))
  unfolding check_signed
  signed_verdict c seq_num signed = elim (Option-cases (command_auth_unwrap signed)) [
    | inl e ↦ inr (inl (inl e, ground arith))
    | inr ((single, outer), e) ↦ elim (Option-cases (operator_unwrap single)) [
      | inl e' ↦ inr (inl (inr (single, outer, e, e'), ground arith))
      | inr ((tbs, inner), e') ↦
          let o : Opened x signed tbs outer inner = record {
            single = single;
            outer_opens = e;
            inner_opens = e';
          } in
          let same : check_signed x c seq_num signed ≡ check_tbs x c seq_num outer inner tbs =
            opens x c seq_num signed tbs outer inner o in
          elim (tbs_verdict c seq_num outer inner tbs) [
            | inl (payload, h) ↦ inl (payload, same ∙ h)
            | inr (reason, why, h) ↦ inr (inr (reason, tbs, outer, inner, o, why, same ∙ h))
          ]
    ]
  ]

  -- The client obeys a response that is permitted, or refuses it for a reason that holds, and then
  -- adds one to the counter of that reason and changes nothing else.
  pub check_response_cases :
      (c : Client S) (r : PumpResponse K R)
      → ((payload : P) × Permitted c r payload × (check_response x c r ≡ pass payload))
        ⊎ ((reason : Reason) × Because c r reason
            × (check_response x c r ≡ refuse (count reason c)))
  unfolding check_response check_plain
  check_response_cases c r = elim (Bool-cases c.require_signed_command) [
    | inl e ↦ elim (Option-cases r.signed_command) [
      | inl n ↦ inr (wrong_kind, unsigned e n, ground arith)
      | inr (signed, s) ↦
          let same : check_response x c r ≡ check_signed x c r.send_sequence_number signed =
            ground arith in
          elim (signed_verdict c r.send_sequence_number signed) [
            | inl (payload, h) ↦ inl (
              payload,
              inl (e, signed, s, pass-Authorized x c r.send_sequence_number signed payload h),
              same ∙ h,
            )
            | inr (inl (shut, h)) ↦ inr (unopened, not_opened signed e s shut, same ∙ h)
            | inr (inr (reason, tbs, outer, inner, o, why, h)) ↦
                inr (reason, not_right reason signed tbs outer inner e s o why, same ∙ h)
          ]
    ]
    | inr e ↦ elim (Option-cases r.payload) [
      | inl n ↦ inr (wrong_kind, not_plain e n, ground arith)
      | inr (raw, s) ↦ elim (Option-cases (from_protobuf raw)) [
        | inl d ↦ inr (undecoded, no_payload raw e s d, ground arith)
        | inr (payload, d) ↦ inl (payload, inr (e, raw, s, d), ground arith)
      ]
    ]
  ]

  pub check_response-Permitted :
      (c : Client S) (r : PumpResponse K R) (payload : P)
      → Permitted c r payload
      → check_response x c r ≡ pass payload
  unfolding check_response check_plain
  check_response-Permitted c r payload (inl (e, signed, s, a)) =
      let passes : check_signed x c r.send_sequence_number signed ≡ pass payload =
        (check_signed_iff x c r.send_sequence_number signed payload).1 a in
      ground (arith, passes)
  check_response-Permitted c r payload (inr (e, raw, s, d)) = ground arith
