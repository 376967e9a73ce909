-- ===== src/SlateTokens/Account.antt =====
-- Each live token that could not be used is on the accountant's books, whatever the tokens do.
use codon.Prelude.{
  ℕ, suc, ◌+◌, ◌-◌, ◌^◌, ◌<◌, ◌≤◌, ◌≡◌, refl, sym, ◌∙◌, true, false, List, [], ◌∷◌, some, arith,
  ◌==◌, ==_ne, if◌then◌else◌, length,
}
use codon.SlateTokens.Accountant.{
  Identifiers, Accountant, increment, contains, erase, generate_id, register_id, dismiss_id,
}
use codon.SlateTokens.Tokens.{must_dismiss, lose_default}

abbrev pub count : ℕ → List ℕ → ℕ
count id [] = 0
count id (x ∷ xs) = if id == x then suc (count id xs) else count id xs

-- How many live tokens hold an identifier, with one more and one less.
abbrev pub add : ℕ → (ℕ → ℕ) → ℕ → ℕ
add id held j = if j == id then suc (held j) else held j

abbrev pub remove : ℕ → (ℕ → ℕ) → ℕ → ℕ
remove id held j = if j == id then held j - 1 else held j

contains_of_count : (id : ℕ) (xs : List ℕ) → 0 < count id xs → contains id xs ≡ true
contains_of_count id [] h = absurd (omega arith)
contains_of_count id (x ∷ xs) h = ground (arith, contains_of_count id xs)

not-contains : (id : ℕ) (xs : List ℕ) → count id xs ≡ 0 → contains id xs ≡ false
not-contains id [] h = refl
not-contains id (x ∷ xs) h = ground (arith, not-contains id xs)

count-erase :
    (id j : ℕ) (xs : List ℕ)
    → contains id xs ≡ true
    → count j (erase id xs) ≡ remove id (λ k. count k xs) j
count-erase id j [] h = absurd (cc)
count-erase id j (x ∷ xs) h = ground (arith, count-erase id j xs)

length-erase :
    (id : ℕ) (xs : List ℕ) → contains id xs ≡ true → suc (length (erase id xs)) ≡ length xs
length-erase id [] h = absurd (cc)
length-erase id (x ∷ xs) h = ground (arith, length-erase id xs)

-- What the accountant relies on: invalid identifiers below a limit, which 64 bits hold, are not valid,
-- all different, and not the default one.
pub record Laws (i : Identifiers) : Type 0 where
  pub limit : ℕ
  pub fits : limit < 2 ^ 64
  pub build_invalid-invalid : (k : ℕ) → k < limit → i.is_valid (i.build_invalid k) ≡ false
  pub build_invalid-other : (k : ℕ) → k < limit → (i.element_default == i.build_invalid k) ≡ false
  pub build_invalid-injective :
      (j k : ℕ) → j < limit → k < limit → i.build_invalid j ≡ i.build_invalid k → j ≡ k
  pub default-invalid : i.is_valid i.element_default ≡ false

module _ (i : Identifiers) (l : Laws i) where
  open i use {build_invalid, is_valid, element_default}

  -- The books agree with the live tokens: `held id` of them hold the identifier `id`.
  pub record Accounts (a : Accountant) (held : ℕ → ℕ) : Type 0 where
    pub tracked :
        (id : ℕ)
        → is_valid id ≡ false
        → (element_default == id) ≡ false
        → count id a.id_frames ≡ held id
    pub listed :
        (id : ℕ)
        → 0 < count id a.id_frames
        → (is_valid id ≡ false) × ((element_default == id) ≡ false)
    pub fresh :
        (k : ℕ) → a.next_invalid_count ≤ k → k < l.limit → count (build_invalid k) a.id_frames ≡ 0
    pub defaults : a.default_token_count ≡ held element_default
    pub sum : a.valid_id_count + length a.id_frames + a.first_invalid_count ≡ a.next_invalid_count
    pub bounded : a.next_invalid_count ≤ l.limit
    pub off : a.enabled ≡ false → a.id_frames ≡ []

  pub Accounts-ext :
      (a : Accountant) (held held' : ℕ → ℕ)
      → ((j : ℕ) → held j ≡ held' j)
      → Accounts a held
      → Accounts a held'
  Accounts-ext a held held' same h = record {
    tracked = λ id e1 e2. h.tracked id e1 e2 ∙ same id;
    listed = h.listed;
    fresh = h.fresh;
    defaults = h.defaults ∙ same element_default;
    sum = h.sum;
    bounded = h.bounded;
    off = h.off;
  }

  pub generate_id-Accounts :
      (a : Accountant) (held : ℕ → ℕ)
      → a.enabled ≡ true
      → a.next_invalid_count < l.limit
      → Accounts a held
      → (a' : Accountant) × (id : ℕ) × (generate_id i a ≡ (a', id))
        × ((element_default == id) ≡ false)
        × (is_valid id ≡ false)
        × Accounts a' (add id held)
  unfolding generate_id
  generate_id-Accounts a held on room h =
      let id : ℕ = build_invalid a.next_invalid_count in
      let new = not-contains id a.id_frames (h.fresh a.next_invalid_count (omega arith) room) in
      let a' : Accountant = record a {
        next_invalid_count = a.next_invalid_count + 1;
        id_frames = id ∷ a.id_frames;
      } in
      let other = l.build_invalid-other a.next_invalid_count room in
      (
        a',
        id,
        ground (arith, new, room, l.fits),
        other,
        l.build_invalid-invalid a.next_invalid_count room,
        record {
          tracked = λ j e1 e2. ground (arith, h.tracked j e1 e2);
          listed = λ j some_j. (
            ground (arith, h.listed j, l.build_invalid-invalid a.next_invalid_count room),
            ground (arith, h.listed j, other),
          );
          fresh = λ k lo hi. ground (
            arith,
            h.fresh k (omega arith) hi,
            l.build_invalid-injective k a.next_invalid_count hi room,
          );
          defaults = ground (arith, h.defaults, other);
          sum = omega (arith, h.sum);
          bounded = omega (arith, room);
          off = λ e. absurd (ground arith);
        },
      )

  pub must_dismiss-Accounts :
      (a : Accountant) (id : ℕ) (held : ℕ → ℕ)
      → a.enabled ≡ true
      → is_valid id ≡ false
      → (element_default == id) ≡ false
      → 0 < held id
      → Accounts a held
      → (a' : Accountant) × (must_dismiss i id a ≡ some a')
        × (a'.enabled ≡ true)
        × (a'.next_invalid_count ≡ a.next_invalid_count)
        × Accounts a' (remove id held)
  unfolding dismiss_id register_id
  must_dismiss-Accounts a id held on bad other some_held h =
      let known : contains id a.id_frames ≡ true =
        contains_of_count id a.id_frames (omega (arith, h.tracked id bad other)) in
      let len = length-erase id a.id_frames known in
      let a' : Accountant = record a {
        id_frames = erase id a.id_frames;
        valid_id_count = increment a.valid_id_count;
      } in
      (
        a',
        ground (arith, known),
        on,
        refl,
        record {
          tracked =
              λ j e1 e2. count-erase id j a.id_frames known ∙ ground (arith, h.tracked j e1 e2);
          listed = λ j some_j. h.listed j (ground (arith, count-erase id j a.id_frames known));
          fresh = λ k lo hi.
              ground (arith, count-erase id (build_invalid k) a.id_frames known, h.fresh k lo hi);
          defaults = ground (arith, h.defaults);
          sum = omega (arith, len, h.sum, h.bounded, l.fits);
          bounded = h.bounded;
          off = λ e. absurd (ground arith);
        },
      )

  -- One more or one less token holds the default identifier.
  pub lose_default-Accounts :
      (a : Accountant) (id : ℕ) (held : ℕ → ℕ)
      → (element_default == id) ≡ true
      → 0 < held id
      → held element_default < 2 ^ 64
      → Accounts a held
      → Accounts (lose_default i id a) (remove id held)
  lose_default-Accounts a id held same some_held room h = record {
    tracked = λ j e1 e2. ground (arith, h.tracked j e1 e2);
    listed = λ j some_j. (ground (arith, h.listed j), ground (arith, h.listed j));
    fresh = λ k lo hi. ground (arith, h.fresh k);
    defaults = ground (arith, h.defaults);
    sum = ground (arith, h.sum);
    bounded = ground (arith, h.bounded);
    off = λ e. ground (arith, h.off);
  }

  pub gain_default-Accounts :
      (a : Accountant) (held : ℕ → ℕ)
      → suc (held element_default) < 2 ^ 64
      → Accounts a held
      → Accounts
          (record a { default_token_count = increment a.default_token_count })
          (add element_default held)
  gain_default-Accounts a held room h = record {
    tracked = λ j e1 e2. ground (arith, h.tracked j e1 e2);
    listed = h.listed;
    fresh = h.fresh;
    defaults = ground (arith, h.defaults);
    sum = h.sum;
    bounded = h.bounded;
    off = h.off;
  }

  -- A token with a valid identifier is not on the books.
  pub valid-Accounts :
      (a : Accountant) (id : ℕ) (held held' : ℕ → ℕ)
      → is_valid id ≡ true
      → ((j : ℕ) → (j == id) ≡ false → held' j ≡ held j)
      → Accounts a held
      → Accounts a held'
  valid-Accounts a id held held' good same h = record {
    tracked = λ j e1 e2. h.tracked j e1 e2 ∙ sym (same j (==_ne j id (λ e. cc)));
    listed = h.listed;
    fresh = h.fresh;
    defaults = h.defaults ∙ sym (same element_default (==_ne element_default id (λ e. cc)));
    sum = h.sum;
    bounded = h.bounded;
    off = h.off;
  }
