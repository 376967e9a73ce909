-- ===== src/SlateTokens/Lifetime.antt =====
-- The life of tokens: constructors, destructor, assignment and the builder's registration keep the
-- books right, so that the check before the slate is built finds every token that cannot be used.
use codon.Prelude.{
  ℕ, suc, ◌^◌, ◌<◌, ◌≡◌, refl, subst, inl, inr, true, false, not, ◌&&◌, ◌>>=◌, Option, some, arith,
  ◌==◌, if◌then◌else◌, Bool-cases, bind_some,
}
use codon.SlateTokens.Accountant.{Identifiers, Accountant, increment, generate_id}
use codon.SlateTokens.Tokens.{must_dismiss, lose_default, construct, destruct, assign}
use codon.SlateTokens.Account.{
  Laws, add, remove, Accounts, Accounts-ext, generate_id-Accounts, must_dismiss-Accounts,
  lose_default-Accounts, gain_default-Accounts, valid-Accounts,
}

module _ (i : Identifiers) (l : Laws i) where
  open i use {build_invalid, is_valid, element_default}

  -- There is room for one more token in the counters.
  pub record Room (a : Accountant) (held : ℕ → ℕ) : Type 0 where
    pub ids : a.next_invalid_count < l.limit
    pub defaults : suc (held element_default) < 2 ^ 64

  -- A token that is constructed is on the books.
  pub construct-Accounts :
      (a : Accountant) (held : ℕ → ℕ)
      → Room a held
      → Accounts i l a held
      → (a' : Accountant) × (id : ℕ) × (construct i a ≡ (a', id)) × Accounts i l a' (add id held)
  unfolding construct
  construct-Accounts a held room h = elim (Bool-cases a.enabled) [
    | inl on ↦
        let (a', id, e, other, bad, h') = generate_id-Accounts i l a held on room.ids h in
        (a', id, ground (arith, e, other), h')
    | inr off ↦ (
      record a { default_token_count = increment a.default_token_count },
      element_default,
      ground arith,
      gain_default-Accounts i l a held room.defaults h,
    )
  ]

  -- With tracking off no live token has an invalid identifier but the default one.
  off-valid :
      (a : Accountant) (id : ℕ) (held : ℕ → ℕ)
      → a.enabled ≡ false
      → (element_default == id) ≡ false
      → 0 < held id
      → Accounts i l a held
      → is_valid id ≡ true
  off-valid a id held off other some_held h = elim (Bool-cases (is_valid id)) [
    | inl good ↦ good
    | inr bad ↦ absurd (ground (arith, h.tracked id bad other, h.off off))
  ]

  -- A live token can be destroyed without a failed FswAssert, and leaves the books.
  pub destruct-Accounts :
      (a : Accountant) (id : ℕ) (held : ℕ → ℕ)
      → 0 < held id
      → held element_default < 2 ^ 64
      → Accounts i l a held
      → (a' : Accountant) × (destruct i a id ≡ some a') × Accounts i l a' (remove id held)
  unfolding destruct
  destruct-Accounts a id held some_held room h = elim (Bool-cases (element_default == id)) [
    | inl same ↦ (
      lose_default i id a,
      ground arith,
      lose_default-Accounts i l a id held same some_held room h,
    )
    | inr other ↦ elim (Bool-cases (is_valid id)) [
      | inl good ↦ (
        a,
        ground arith,
        valid-Accounts i l a id held (remove id held) good (λ j e. ground arith) h,
      )
      | inr bad ↦ elim (Bool-cases a.enabled) [
        | inr off ↦ absurd (ground (arith, off-valid a id held off other some_held h))
        | inl on ↦
            let (a', e, on', next, h') =
              must_dismiss-Accounts i l a id held on bad other some_held h in
            (a', ground (arith, e), h')
      ]
    ]
  ]

  -- What the body of `assign` does before the default tokens are counted.
  swap : Accountant → ℕ → ℕ → Option (Accountant × ℕ)
  swap a id b =
      if a.enabled
      then ((if not (is_valid id) && not (element_default == id)
            then must_dismiss i id a
            else some a)
          >>= λ a'. some (if not (is_valid b) then generate_id i a' else (a', b)))
      else (if not (is_valid b)
          then some
              (record a { default_token_count = increment a.default_token_count }, element_default)
          else some (a, b))

  -- The books between the two: a token with the default identifier is still on them.
  abbrev between : ℕ → (ℕ → ℕ) → ℕ → ℕ
  between id held = if element_default == id then held else remove id held

  add-valid :
      (a : Accountant) (b : ℕ) (held : ℕ → ℕ)
      → is_valid b ≡ true
      → Accounts i l a held
      → Accounts i l a (add b held)
  add-valid a b held good h = valid-Accounts i l a b held (add b held) good (λ j e. ground arith) h

  leave :
      (a : Accountant) (id : ℕ) (held : ℕ → ℕ)
      → a.enabled ≡ true
      → 0 < held id
      → Accounts i l a held
      → (a1 : Accountant) × ((if not (is_valid id) && not (element_default == id)
            then must_dismiss i id a
            else some a)
          ≡ some a1)
        × (a1.enabled ≡ true)
        × (a1.next_invalid_count ≡ a.next_invalid_count)
        × Accounts i l a1 (between id held)
  leave a id held on some_held h = elim (Bool-cases (element_default == id)) [
    | inl same ↦
        (a, ground arith, on, refl, Accounts-ext i l a held (between id held) (λ j. ground arith) h)
    | inr other ↦ elim (Bool-cases (is_valid id)) [
      | inl good ↦ (
        a,
        ground arith,
        on,
        refl,
        valid-Accounts i l a id held (between id held) good (λ j e. ground arith) h,
      )
      | inr bad ↦
          let (a1, e, on', next, h') =
            must_dismiss-Accounts i l a id held on bad other some_held h in
          (
            a1,
            ground (arith, e),
            on',
            next,
            Accounts-ext i l a1 (remove id held) (between id held) (λ j. ground arith) h',
          )
    ]
  ]

  swap-Accounts :
      (a : Accountant) (id b : ℕ) (held : ℕ → ℕ)
      → 0 < held id
      → Room a held
      → Accounts i l a held
      → (a' : Accountant) × (id' : ℕ) × (swap a id b ≡ some (a', id'))
        × Accounts i l a' (add id' (between id held))
  unfolding swap
  swap-Accounts a id b held some_held room h = elim (Bool-cases a.enabled) [
    | inl on ↦
        let (a1, e1, on1, next, h1) = leave a id held on some_held h in
        elim (Bool-cases (is_valid b)) [
          | inl good ↦ (a1, b, ground (arith, e1), add-valid a1 b (between id held) good h1)
          | inr bad ↦
              let (a2, id', e2, _, _, h2) =
                generate_id-Accounts i l a1 (between id held) on1 (omega (arith, next, room.ids))
                  h1 in
              (a2, id', ground (arith, e1, e2), h2)
        ]
    | inr off ↦
        let h1 : Accounts i l a (between id held) = elim (Bool-cases (element_default == id)) [
          | inl same ↦ Accounts-ext i l a held (between id held) (λ j. ground arith) h
          | inr other ↦
              valid-Accounts i l a id held (between id held)
                (off-valid a id held off other some_held h) (λ j e. ground arith) h
        ] in
        elim (Bool-cases (is_valid b)) [
          | inl good ↦ (a, b, ground arith, add-valid a b (between id held) good h1)
          | inr bad ↦ (
            record a { default_token_count = increment a.default_token_count },
            element_default,
            ground arith,
            gain_default-Accounts i l a (between id held) (ground (arith, room.defaults)) h1,
          )
        ]
  ]

  -- Assignment to a live token fails no FswAssert, and replaces its identifier on the books by its new
  -- one.
  pub assign-Accounts :
      (a : Accountant) (id b : ℕ) (held : ℕ → ℕ)
      → 0 < held id
      → Room a held
      → Accounts i l a held
      → (a' : Accountant) × (id' : ℕ) × (assign i a id b ≡ some (a', id'))
        × Accounts i l a' (add id' (remove id held))
  unfolding assign swap
  assign-Accounts a id b held some_held room h =
      let (a1, id', e, h1) = swap-Accounts a id b held some_held room h in
      (
        lose_default i id a1,
        id',
        bind_some (λ r. some (lose_default i id r.0, r.1)) e,
        elim (Bool-cases (element_default == id)) [
          | inl same ↦
              Accounts-ext i l (lose_default i id a1) (remove id (add id' held))
                (add id' (remove id held)) (λ j. ground (arith, some_held))
                (lose_default-Accounts i l a1 id (add id' held) same (ground (arith, some_held))
                  (ground (arith, room.defaults))
                  (Accounts-ext i l a1 (add id' (between id held)) (add id' held)
                    (λ j. ground arith) h1))
          | inr other ↦
              subst (λ x. Accounts i l x (add id' (remove id held))) (ground arith)
                (Accounts-ext i l a1 (add id' (between id held)) (add id' (remove id held))
                  (λ j. ground arith) h1)
        ],
      )
