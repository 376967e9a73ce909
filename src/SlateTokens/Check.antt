-- ===== src/SlateTokens/Check.antt =====
-- All ways in which a program uses tokens, and what the check before the slate is built then means.
use codon.Prelude.{
  ℕ, suc, ◌+◌, ◌-◌, ◌^◌, ◌%◌, ◌<◌, ◌≡◌, refl, subst, ap, inl, inr, true, false, List, [], ◌∷◌, some,
  arith, ◌==◌, length, Bool-cases, ◌↔◌,
}
use codon.SlateTokens.Accountant.{
  Identifiers, Accountant, increment, contains, register_id, dismiss_id, is_empty,
  check_for_uninitialized_tokens,
}
use codon.SlateTokens.Tokens.{construct_copy}
use codon.SlateTokens.Account.{
  Laws, count, add, remove, Accounts, Accounts-ext, must_dismiss-Accounts, gain_default-Accounts,
  valid-Accounts,
}
use codon.SlateTokens.Lifetime.{assign-Accounts}

count_of_contains : (id : ℕ) (xs : List ℕ) → contains id xs ≡ true → 0 < count id xs
count_of_contains id [] h = absurd (cc)
count_of_contains id (x ∷ xs) h = ground (arith, count_of_contains id xs)

is_empty-nil : (xs : List ℕ) → is_empty xs ≡ true → xs ≡ []
is_empty-nil [] h = refl
is_empty-nil (x ∷ xs) h = absurd (cc)

nil_of_count : (xs : List ℕ) → ((id : ℕ) → count id xs ≡ 0) → xs ≡ []
nil_of_count [] h = refl
nil_of_count (x ∷ xs) h = absurd (ground (arith, h x))

module _ (i : Identifiers) (l : Laws i) where
  open i use {build_invalid, is_valid, element_default}

  -- A copy of a token is on the books.
  pub construct_copy-Accounts :
      (a : Accountant) (b : ℕ) (held : ℕ → ℕ)
      → a.next_invalid_count < l.limit
      → suc (suc (held element_default)) < 2 ^ 64
      → Accounts i l a held
      → (a' : Accountant) × (id : ℕ) × (construct_copy i a b ≡ some (a', id))
        × Accounts i l a' (add id held)
  unfolding construct_copy
  construct_copy-Accounts a b held ids room h =
      let a0 : Accountant = record a { default_token_count = increment a.default_token_count } in
      let held0 = add element_default held in
      let h0 = gain_default-Accounts i l a held (omega arith) h in
      let (a', id, e, h') =
        assign-Accounts i l a0 element_default b held0 (ground arith)
          (record { ids = ids; defaults = ground (arith, room) }) h0 in
      (
        a',
        id,
        e,
        Accounts-ext i l a' (add id (remove element_default held0)) (add id held)
            (λ j. ground arith) h',
      )

  -- The builder registers a token, whose identifier is not valid yet, and gives it a valid one.
  pub register_id-Accounts :
      (a a' : Accountant) (id id' : ℕ) (held : ℕ → ℕ)
      → a.enabled ≡ true
      → 0 < held id
      → register_id i a id ≡ some (a', true)
      → is_valid id' ≡ true
      → Accounts i l a held
      → Accounts i l a' (add id' (remove id held))
  unfolding register_id dismiss_id
  register_id-Accounts a a' id id' held on some_held e good h =
      let bad : is_valid id ≡ false = ground arith in
      let known : contains id a.id_frames ≡ true = ground arith in
      let other = (h.listed id (count_of_contains id a.id_frames known)).1 in
      let (a1, e1, _, _, h1) = must_dismiss-Accounts i l a id held on bad other some_held h in
      let same : a1 ≡ a' = ground (arith, e, e1) in
      valid-Accounts i l a' id' (remove id held) (add id' (remove id held)) good
        (λ j ne. ground arith) (subst (λ x. Accounts i l x (remove id held)) same h1)

  -- If the books agree with the live tokens, the check succeeds exactly if each live token has a valid
  -- identifier.
  pub check_iff :
      (a : Accountant) (held : ℕ → ℕ)
      → Accounts i l a held
      → (check_for_uninitialized_tokens i a ≡ true) ↔ ((id : ℕ) → 0 < held id → is_valid id ≡ true)
  unfolding check_for_uninitialized_tokens
  check_iff a held h = (
    λ e id some_held. elim (Bool-cases (is_valid id)) [
      | inl good ↦ good
      | inr bad ↦
          let none_left : a.id_frames ≡ [] = is_empty-nil a.id_frames (ground arith) in
          elim (Bool-cases (element_default == id)) [
            | inl same ↦ absurd (ground (arith, h.defaults))
            | inr other ↦ absurd (ground (arith, h.tracked id bad other, none_left))
          ]
    ],
    λ all.
        let none_default : held element_default ≡ 0 =
          ground (arith, all element_default, l.default-invalid) in
        let none_left : a.id_frames ≡ [] =
          nil_of_count a.id_frames (λ id. ground (arith, h.listed id, all id, h.tracked id)) in
        let len : length a.id_frames ≡ 0 = ap length none_left in
        let sums : (a.valid_id_count + length a.id_frames) % 2 ^ 64
            ≡ (a.next_invalid_count + (2 ^ 64 - a.first_invalid_count)) % 2 ^ 64 =
          omega (arith, h.sum, h.bounded, l.fits) in
        let none : is_empty a.id_frames ≡ true = ap is_empty none_left in
        ground (arith, h.defaults, none_default, sums, none),
  )
