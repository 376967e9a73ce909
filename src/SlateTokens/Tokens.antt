-- ===== src/SlateTokens/Tokens.antt =====
-- `SlateToken`: constructors, destructor and assignment, on the identifier that a token holds.
use codon.Prelude.{ℕ, true, false, not, ◌&&◌, ◌>>=◌, Option, none, some, ◌==◌, if◌then◌else◌}
use codon.SlateTokens.Accountant.{
  Identifiers, Accountant, increment, decrement, generate_id, dismiss_id,
}

module _ (i : Identifiers) where
  open i use {build_invalid, is_valid, element_default}

  -- `++_slate_default_token_count` or `--` where the identifier is the default one.
  abbrev pub gain_default : ℕ → Accountant → Accountant
  gain_default id a =
      if element_default == id
      then record a { default_token_count = increment a.default_token_count }
      else a

  abbrev pub lose_default : ℕ → Accountant → Accountant
  lose_default id a =
      if element_default == id
      then record a { default_token_count = decrement a.default_token_count }
      else a

  -- `SlateToken::SlateToken()`
  unfoldable pub construct : Accountant → Accountant × ℕ
  construct a =
      let (a', id) = if a.enabled then generate_id i a else (a, element_default) in
      (gain_default id a', id)

  -- `dismiss_id` and the FswAssert on its result.
  abbrev pub must_dismiss : ℕ → Accountant → Option Accountant
  must_dismiss id a = elim (dismiss_id i a id) [
    | none ↦ none
    | some (a', false) ↦ none
    | some (a', true) ↦ some a'
  ]

  -- `SlateToken::~SlateToken`
  unfoldable pub destruct : Accountant → ℕ → Option Accountant
  destruct a id =
      (if a.enabled && (not (is_valid id) && not (element_default == id))
        then must_dismiss id a
        else some a)
      >>= λ a'. some (lose_default id a')

  -- `SlateToken::set` on a token that holds `id`, with a token that holds `b`.
  unfoldable pub assign : Accountant → ℕ → ℕ → Option (Accountant × ℕ)
  assign a id b =
      (if a.enabled
        then ((if not (is_valid id) && not (element_default == id)
              then must_dismiss id a
              else some a)
            >>= λ a'. some (if not (is_valid b) then generate_id i a' else (a', b)))
        else (if not (is_valid b)
            then some (
              record a { default_token_count = increment a.default_token_count },
              element_default,
            )
            else some (a, b)))
      >>= λ r. some (lose_default id r.0, r.1)

  -- `SlateToken::SlateToken(const SlateToken &)`
  unfoldable pub construct_copy : Accountant → ℕ → Option (Accountant × ℕ)
  construct_copy a b =
      assign (record a { default_token_count = increment a.default_token_count }) element_default b
