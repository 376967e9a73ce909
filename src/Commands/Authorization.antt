-- ===== src/Commands/Authorization.antt =====
-- CommandQueueClient::on_pump_response: which responses are obeyed, and how the others are counted.
use codon.Prelude.{
  ℕ, ◌<◌, ◌≡◌, sym, ◌∙◌, ◌⊎◌, inl, inr, ◌↔◌, true, false, some, arith, Option-cases,
}
use codon.Commands.Client.{
  Tbs, Security, Client, pass, max, replayed, wrong_key, check_tbs, check_signed,
}

module _ {S K R P : Type 0} (x : Security S K R P) where
  open x use {eq, is_empty, command_auth_unwrap, operator_unwrap, string_to_uint, from_protobuf}

  -- Both signatures of a command open to a command `tbs`, by keys named `outer` and `inner`.
  pub record Opened (signed : K) (tbs : Tbs S R) (outer inner : S) : Type 0 where
    pub single : K
    pub outer_opens : command_auth_unwrap signed ≡ some (single, outer)
    pub inner_opens : operator_unwrap single ≡ some (tbs, inner)

  -- What a signed command has to satisfy.
  pub record Authorized (c : Client S) (seq_num : ℕ) (signed : K) (payload : P) : Type 0 where
    pub tbs : Tbs S R
    pub outer : S
    pub inner : S
    pub opened : Opened signed tbs outer inner
    pub numbered : seq_num ≡ string_to_uint tbs.command_id 0
    pub fresh :
        (c.accepted_sequence_number ≡ 0)
        ⊎ (max c.last_request_accepted_seq_num c.last_request_rejected_seq_num < seq_num)
    pub outer_named : (is_empty outer ≡ true) ⊎ (eq outer tbs.creation_info_id ≡ true)
    pub inner_named : (is_empty inner ≡ true) ⊎ (eq inner tbs.creation_info_id ≡ true)
    pub targeted : eq c.target_entity tbs.target_id ≡ true
    pub decoded : from_protobuf tbs.command_payload ≡ some payload

  tbs_passes :
      (c : Client S) (seq_num : ℕ) (outer inner : S) (tbs : Tbs S R) (payload : P)
      → check_tbs x c seq_num outer inner tbs ≡ pass payload
      → (replayed x c seq_num (string_to_uint tbs.command_id 0) ≡ false)
        × (wrong_key x outer inner tbs ≡ false)
        × (eq c.target_entity tbs.target_id ≡ true)
        × (from_protobuf tbs.command_payload ≡ some payload)
  unfolding check_tbs
  tbs_passes c seq_num outer inner tbs payload h = ground arith

  passes_tbs :
      (c : Client S) (seq_num : ℕ) (outer inner : S) (tbs : Tbs S R) (payload : P)
      → replayed x c seq_num (string_to_uint tbs.command_id 0) ≡ false
      → wrong_key x outer inner tbs ≡ false
      → eq c.target_entity tbs.target_id ≡ true
      → from_protobuf tbs.command_payload ≡ some payload
      → check_tbs x c seq_num outer inner tbs ≡ pass payload
  unfolding check_tbs
  passes_tbs c seq_num outer inner tbs payload fresh named targeted decoded = ground arith

  fresh_iff :
      (c : Client S) (seq_num command_id : ℕ)
      → (replayed x c seq_num command_id ≡ false) ↔ (
          (seq_num ≡ command_id)
          × ((c.accepted_sequence_number ≡ 0)
              ⊎ (max c.last_request_accepted_seq_num c.last_request_rejected_seq_num < seq_num)))
  fresh_iff c seq_num command_id = ground arith

  right_key_iff :
      (outer inner : S) (tbs : Tbs S R)
      → (wrong_key x outer inner tbs ≡ false) ↔ (
          ((is_empty outer ≡ true) ⊎ (eq outer tbs.creation_info_id ≡ true))
          × ((is_empty inner ≡ true) ⊎ (eq inner tbs.creation_info_id ≡ true)))
  right_key_iff outer inner tbs = ground arith

  pub opens :
      (c : Client S) (seq_num : ℕ) (signed : K) (tbs : Tbs S R) (outer inner : S)
      → Opened signed tbs outer inner
      → check_signed x c seq_num signed ≡ check_tbs x c seq_num outer inner tbs
  unfolding check_signed
  opens c seq_num signed tbs outer inner o = ground arith

  signatures_of_pass :
      (c : Client S) (seq_num : ℕ) (signed : K) (payload : P)
      → check_signed x c seq_num signed ≡ pass payload
      → (tbs : Tbs S R) × (outer : S) × (inner : S) × Opened signed tbs outer inner
  unfolding check_signed
  signatures_of_pass c seq_num signed payload h = elim (Option-cases (command_auth_unwrap signed)) [
    | inl e ↦ absurd (ground arith)
    | inr ((single, outer), e) ↦ elim (Option-cases (operator_unwrap single)) [
      | inl e' ↦ absurd (ground arith)
      | inr ((tbs, inner), e') ↦
          (tbs, outer, inner, record { single = single; outer_opens = e; inner_opens = e' })
    ]
  ]

  pub pass-Authorized :
      (c : Client S) (seq_num : ℕ) (signed : K) (payload : P)
      → check_signed x c seq_num signed ≡ pass payload
      → Authorized c seq_num signed payload
  pass-Authorized c seq_num signed payload h =
      let (tbs, outer, inner, o) = signatures_of_pass c seq_num signed payload h in
      let (live, named, targeted, decoded) =
        tbs_passes c seq_num outer inner tbs payload
          (sym (opens c seq_num signed tbs outer inner o) ∙ h) in
      let (numbered, fresh) = (fresh_iff c seq_num (string_to_uint tbs.command_id 0)).0 live in
      let (outer_named, inner_named) = (right_key_iff outer inner tbs).0 named in
      record {
        tbs = tbs;
        outer = outer;
        inner = inner;
        opened = o;
        numbered = numbered;
        fresh = fresh;
        outer_named = outer_named;
        inner_named = inner_named;
        targeted = targeted;
        decoded = decoded;
      }

  Authorized-pass :
      (c : Client S) (seq_num : ℕ) (signed : K) (payload : P)
      → Authorized c seq_num signed payload
      → check_signed x c seq_num signed ≡ pass payload
  Authorized-pass c seq_num signed payload a =
      opens c seq_num signed a.tbs a.outer a.inner a.opened
      ∙ passes_tbs c seq_num a.outer a.inner a.tbs payload
          ((fresh_iff c seq_num (string_to_uint a.tbs.command_id 0)).1 (a.numbered, a.fresh))
          ((right_key_iff a.outer a.inner a.tbs).1 (a.outer_named, a.inner_named)) a.targeted
          a.decoded

  -- A signed command passes when both signatures open, its signed number is the response's and above
  -- those of the last request (once a command has been accepted), the names of the keys, where there
  -- are any, are the command's, it is meant for this vehicle and its payload decodes; it passes in
  -- no other case.
  pub check_signed_iff :
      (c : Client S) (seq_num : ℕ) (signed : K) (payload : P)
      → (check_signed x c seq_num signed ≡ pass payload) ↔ Authorized c seq_num signed payload
  check_signed_iff c seq_num signed payload =
      (pass-Authorized c seq_num signed payload, Authorized-pass c seq_num signed payload)
