-- ===== src/SlateTokens/Accountant.antt =====
-- `SlateTokenAccountant`, and the globals next to it. `none` is a failed FswAssert.
use codon.Prelude.{
  ℕ, ◌+◌, ◌-◌, ◌^◌, ◌%◌, Bool, true, false, not, ◌||◌, List, [], ◌∷◌, Option, none, some, ◌==◌,
  if◌then◌else◌, length,
}

-- Identifiers (slate_id, not in the repository): `slate_id_build_invalid`, `slate_id_is_valid` and
-- `slate_element_default`.
pub record Identifiers : Type 0 where
  pub build_invalid : ℕ → ℕ
  pub is_valid : ℕ → Bool
  pub element_default : ℕ

-- The class's fields and the globals. `id_frames` is the keys of the map; the stack frames are for the
-- log only.
pub record Accountant : Type 0 where
  pub enabled : Bool
  pub auto_re_enable : Bool
  pub default_token_count : ℕ
  pub first_invalid_count : ℕ
  pub next_invalid_count : ℕ
  pub valid_id_count : ℕ
  pub id_frames : List ℕ

-- As the program starts.
abbrev pub initial : Accountant
initial = record {
  enabled = true;
  auto_re_enable = false;
  default_token_count = 0;
  first_invalid_count = 0;
  next_invalid_count = 0;
  valid_id_count = 0;
  id_frames = [];
}

-- `size_t` and `slate_element_t` have 64 bits.
abbrev pub increment : ℕ → ℕ
increment n = (n + 1) % 2 ^ 64

abbrev pub decrement : ℕ → ℕ
decrement n = (n + (2 ^ 64 - 1)) % 2 ^ 64

abbrev pub contains : ℕ → List ℕ → Bool
contains id [] = false
contains id (x ∷ xs) = id == x || contains id xs

-- `std::map::erase` of a key, and `operator[]` on the left of an assignment.
abbrev pub erase : ℕ → List ℕ → List ℕ
erase id [] = []
erase id (x ∷ xs) = if id == x then xs else x ∷ erase id xs

abbrev pub insert : ℕ → List ℕ → List ℕ
insert id xs = if contains id xs then xs else id ∷ xs

abbrev pub is_empty : List ℕ → Bool
is_empty [] = true
is_empty (_ ∷ _) = false

module _ (i : Identifiers) where
  open i use {build_invalid, is_valid, element_default}

  unfoldable pub generate_id : Accountant → Accountant × ℕ
  generate_id a = if not a.enabled then (a, element_default) else (
    record a {
      next_invalid_count = increment a.next_invalid_count;
      id_frames = insert (build_invalid a.next_invalid_count) a.id_frames;
    },
    build_invalid a.next_invalid_count,
  )

  unfoldable pub register_id : Accountant → ℕ → Option (Accountant × Bool)
  register_id a id =
      if is_valid id
      then some (a, false)
      else if not a.enabled
      then some (a, true)
      else if not (contains id a.id_frames)
      then (if id == element_default then some (a, false) else none)
      else some (
        record a { id_frames = erase id a.id_frames; valid_id_count = increment a.valid_id_count },
        true,
      )

  unfoldable pub dismiss_id : Accountant → ℕ → Option (Accountant × Bool)
  dismiss_id a id = elim (register_id a id) [ none ↦ none | some (a', ok) ↦ some (a', ok) ]

  unfoldable pub get_first_invalid_id : Accountant → ℕ
  get_first_invalid_id a = build_invalid a.first_invalid_count

  unfoldable pub get_last_invalid_id : Accountant → ℕ
  get_last_invalid_id a = build_invalid a.next_invalid_count

  unfoldable pub enable : Accountant → Option Accountant
  enable a =
      if not (a.enabled || a.auto_re_enable)
      then none
      else some (if a.auto_re_enable then record a { enabled = true } else a)

  unfoldable pub check_for_uninitialized_tokens : Accountant → Bool
  check_for_uninitialized_tokens a =
      if not (a.default_token_count == 0)
      then false
      else if not (
          (a.valid_id_count + length a.id_frames) % 2 ^ 64
          == (a.next_invalid_count + (2 ^ 64 - a.first_invalid_count)) % 2 ^ 64)
      then false
      else if not (is_empty a.id_frames)
      then false
      else true

  unfoldable pub acknowledge_and_disable : Accountant → Accountant × Bool
  acknowledge_and_disable a = (
    record a {
      enabled = false;
      first_invalid_count = a.next_invalid_count;
      id_frames = [];
      valid_id_count = 0;
    },
    true,
  )
