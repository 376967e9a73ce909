-- ===== src/SlateTokens/Run.antt =====
-- Any sequence of token operations from the start of the program.
use codon.Prelude.{ℕ, ◌^◌, ◌<◌, ◌≡◌, refl, sym, subst, ◌∙◌, true, some, arith, ◌↔◌}
use codon.SlateTokens.Accountant.{
  Identifiers, Accountant, initial, register_id, enable, check_for_uninitialized_tokens,
  acknowledge_and_disable,
}
use codon.SlateTokens.Tokens.{construct, destruct, assign, construct_copy}
use codon.SlateTokens.Account.{Laws, add, remove, Accounts}
use codon.SlateTokens.Lifetime.{Room, construct-Accounts, destruct-Accounts, assign-Accounts}
use codon.SlateTokens.Check.{construct_copy-Accounts, register_id-Accounts, check_iff}

some_inj : {A : Type 0} {x y : A} → some x ≡ some y → x ≡ y
some_inj e = cc

module _ (i : Identifiers) (l : Laws i) where
  -- The accountant's states that the program reaches, each with the number of live tokens that hold an
  -- identifier. Tokens are bound while tracking is on, and it is turned off after a check that succeeds.
  pub data Run : Accountant → (ℕ → ℕ) → Type 0 where
    start : Run initial (λ _. 0)
    constructed :
        {a a' : Accountant} {held : ℕ → ℕ} {id : ℕ}
        → Run a held
        → Room i l a held
        → construct i a ≡ (a', id)
        → Run a' (add id held)
    copied :
        {a a' : Accountant} {held : ℕ → ℕ} {id : ℕ} (b : ℕ)
        → Run a held
        → Room i l a (add i.element_default held)
        → construct_copy i a b ≡ some (a', id)
        → Run a' (add id held)
    destructed :
        {a a' : Accountant} {held : ℕ → ℕ} {id : ℕ}
        → Run a held
        → 0 < held id
        → held i.element_default < 2 ^ 64
        → destruct i a id ≡ some a'
        → Run a' (remove id held)
    assigned :
        {a a' : Accountant} {held : ℕ → ℕ} {id id' : ℕ} (b : ℕ)
        → Run a held
        → 0 < held id
        → Room i l a held
        → assign i a id b ≡ some (a', id')
        → Run a' (add id' (remove id held))
    bound :
        {a a' : Accountant} {held : ℕ → ℕ} {id id' : ℕ}
        → Run a held
        → a.enabled ≡ true
        → 0 < held id
        → register_id i a id ≡ some (a', true)
        → i.is_valid id' ≡ true
        → Run a' (add id' (remove id held))
    acknowledged :
        {a : Accountant} {held : ℕ → ℕ}
        → Run a held
        → check_for_uninitialized_tokens i a ≡ true
        → Run (acknowledge_and_disable i a).0 held
    enabled_again :
        {a a' : Accountant} {held : ℕ → ℕ} → Run a held → enable i a ≡ some a' → Run a' held

  initial-Accounts : Accounts i l initial (λ _. 0)
  initial-Accounts = record {
    tracked = λ id e1 e2. refl;
    listed = λ id h. absurd (omega arith);
    fresh = λ k lo hi. refl;
    defaults = refl;
    sum = refl;
    bounded = omega arith;
    off = λ e. refl;
  }

  acknowledge-Accounts :
      (a : Accountant) (held : ℕ → ℕ)
      → check_for_uninitialized_tokens i a ≡ true
      → Accounts i l a held
      → Accounts i l (acknowledge_and_disable i a).0 held
  unfolding acknowledge_and_disable check_for_uninitialized_tokens
  acknowledge-Accounts a held e h =
      let (sound, _) = check_iff i l a held h in
      record {
        tracked = λ id e1 e2. ground (arith, sound e id);
        listed = λ id some_id. absurd (omega arith);
        fresh = λ k lo hi. refl;
        defaults = h.defaults;
        sum = omega arith;
        bounded = h.bounded;
        off = λ x. refl;
      }

  enable-Accounts :
      (a a' : Accountant) (held : ℕ → ℕ)
      → enable i a ≡ some a'
      → Accounts i l a held
      → Accounts i l a' held
  unfolding enable
  enable-Accounts a a' held e h = record {
    tracked = λ id e1 e2. ground (arith, h.tracked id e1 e2);
    listed = λ id some_id. h.listed id (ground arith);
    fresh = λ k lo hi. ground (arith, h.fresh k);
    defaults = ground (arith, h.defaults);
    sum = ground (arith, h.sum);
    bounded = ground (arith, h.bounded);
    off = λ x. ground (arith, h.off);
  }

  pub Run-Accounts : {a : Accountant} {held : ℕ → ℕ} → Run a held → Accounts i l a held
  Run-Accounts start = initial-Accounts
  Run-Accounts (constructed {a} {a'} {held} {id} r room e) =
      let (a1, id1, e1, h) = construct-Accounts i l a held room (Run-Accounts r) in
      let same : (a1, id1) ≡ (a', id) = sym e1 ∙ e in
      subst (λ x. Accounts i l x.0 (add x.1 held)) same h
  Run-Accounts (copied {a} {a'} {held} {id} b r room e) =
      let (a1, id1, e1, h) =
        construct_copy-Accounts i l a b held room.ids (ground (arith, room.defaults))
          (Run-Accounts r) in
      subst (λ x. Accounts i l x.0 (add x.1 held)) (some_inj (sym e1 ∙ e)) h
  Run-Accounts (destructed {a} {a'} {held} {id} r live room e) =
      let (a1, e1, h) = destruct-Accounts i l a id held live room (Run-Accounts r) in
      subst (λ x. Accounts i l x (remove id held)) (some_inj (sym e1 ∙ e)) h
  Run-Accounts (assigned {a} {a'} {held} {id} {id'} b r live room e) =
      let (a1, id1, e1, h) = assign-Accounts i l a id b held live room (Run-Accounts r) in
      subst (λ x. Accounts i l x.0 (add x.1 (remove id held))) (some_inj (sym e1 ∙ e)) h
  Run-Accounts (bound {a} {a'} {held} {id} {id'} r on live e good) =
      register_id-Accounts i l a a' id id' held on live e good (Run-Accounts r)
  Run-Accounts (acknowledged {a} {held} r e) = acknowledge-Accounts a held e (Run-Accounts r)
  Run-Accounts (enabled_again {a} {a'} {held} r e) = enable-Accounts a a' held e (Run-Accounts r)

  -- Whatever tokens the program has constructed, copied, assigned, bound and destroyed, the check for
  -- uninitialized tokens succeeds exactly if each token that is still alive has a valid identifier.
  pub Run-check :
      {a : Accountant} {held : ℕ → ℕ}
      → Run a held
      → (check_for_uninitialized_tokens i a ≡ true)
        ↔ ((id : ℕ) → 0 < held id → i.is_valid id ≡ true)
  Run-check {a} {held} r = check_iff i l a held (Run-Accounts r)
