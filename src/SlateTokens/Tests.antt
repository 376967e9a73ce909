-- ===== src/SlateTokens/Tests.antt =====
-- A short run of the accountant, with identifiers that stand for the real ones.
use codon.Prelude.{ℕ, ◌+◌, ◌<◌, ◌≡◌, refl, ◌↔◌, true, [], ◌∷◌, arith, ltb}
use codon.SlateTokens.Accountant.{
  Identifiers, Accountant, initial, generate_id, check_for_uninitialized_tokens,
}
use codon.SlateTokens.Tokens.{construct}
use codon.SlateTokens.Account.{Laws, add}
use codon.SlateTokens.Lifetime.{Room}
use codon.SlateTokens.Run.{Run, start, constructed, Run-check}

-- 1000 is the default identifier, the ones above it are invalid and the ones below are valid.
abbrev identifiers : Identifiers
identifiers = record {
  build_invalid = λ k. 1001 + k;
  is_valid = λ id. ltb id 1000;
  element_default = 1000;
}

laws : Laws identifiers
laws = record {
  limit = 1000;
  fits = omega arith;
  build_invalid-invalid = λ k h. ground arith;
  build_invalid-other = λ k h. ground arith;
  build_invalid-injective = λ j k h1 h2 e. omega arith;
  default-invalid = refl;
}

-- One token has been constructed.
abbrev one_token : Accountant
one_token = record initial { next_invalid_count = 1; id_frames = 1001 ∷ [] }

abbrev held : ℕ → ℕ
held = add 1001 (λ _. 0)

constructs : construct identifiers initial ≡ (one_token, 1001)
unfolding construct generate_id
constructs = refl

room : Room identifiers laws initial (λ _. 0)
unfolding laws
room = record { ids = omega arith; defaults = omega arith }

run : Run identifiers laws one_token held
run = constructed start room constructs

Run-check_example :
    (check_for_uninitialized_tokens identifiers one_token ≡ true)
    ↔ ((id : ℕ) → 0 < held id → ltb id 1000 ≡ true)
Run-check_example = Run-check identifiers laws run

one_token-Room : Room identifiers laws one_token held
unfolding laws
one_token-Room = record { ids = omega arith; defaults = omega arith }
