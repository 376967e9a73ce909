-- ===== src/SymbolTable/Table.antt =====
-- The tables, `add`, the lookups, and the comparison.
use codon.Prelude.{
  ℕ, ◌-◌, ◌^◌, Bool, true, false, not, ◌&&◌, List, [], ◌∷◌, Option, none, some, ltb, if◌then◌else◌,
}
use codon.Prelude.Int.{ℤ, pos, negsuc, eqb_ℤ}

-- Strings and what str_util, which is not in the repository, does with them: `==`, `string_to_int`,
-- `string_to_uint`, and `snprintf` of an int (`none` where it fails).
pub record Strings (S : Type 0) : Type 0 where
  pub eq : S → S → Bool
  pub string_to_int : S → Option ℤ
  pub string_to_uint : S → Option ℕ
  pub print : ℤ → Option S

-- A `std::map` as its entries. `find`, `insert` (which keeps an entry that is there), and `==`.
abbrev pub find {ℓ κ} : {K : Type ℓ} {A : Type κ} → (K → K → Bool) → K → List (K × A) → Option A
find eq k [] = none
find eq k ((k', v) ∷ rest) = if eq k k' then some v else find eq k rest

abbrev pub is_some {ℓ} : {A : Type ℓ} → Option A → Bool
is_some none = false
is_some (some _) = true

abbrev pub insert {ℓ κ} :
    {K : Type ℓ} {A : Type κ} → (K → K → Bool) → K → A → List (K × A) → List (K × A)
insert eq k v m = if is_some (find eq k m) then m else (k, v) ∷ m

abbrev pub is_value : {A : Type 0} → (A → A → Bool) → A → Option A → Bool
is_value eq v none = false
is_value eq v (some v') = eq v v'

abbrev pub all_in :
    {K A : Type 0} → (K → K → Bool) → (A → A → Bool) → List (K × A) → List (K × A) → Bool
all_in eqk eqv [] m = true
all_in eqk eqv ((k, v) ∷ rest) m = is_value eqv v (find eqk k m) && all_in eqk eqv rest m

pub record SymbolTable (S : Type 0) : Type 0 where
  pub to_int_table : List (S × ℤ)
  pub to_string_table : List (ℤ × S)
  pub use_fallback : Bool
  pub default_int : ℤ
  pub default_string : S

-- `static_cast<int>` of a uint.
abbrev pub cast_int : ℕ → ℤ
cast_int val = if ltb val (2 ^ 31) then pos val else negsuc (2 ^ 32 - 1 - val)

module _ {S : Type 0} (p : Strings S) where
  unfoldable pub empty : SymbolTable S → Bool
  empty t = is_nil t.to_int_table && is_nil t.to_string_table
    where
      is_nil : {A : Type 0} → List A → Bool
      is_nil [] = true
      is_nil (_ ∷ _) = false

  unfoldable pub clear_reads : SymbolTable S → SymbolTable S
  clear_reads t = record t { to_int_table = []; to_string_table = [] }

  unfoldable pub copy_reads : SymbolTable S → SymbolTable S → SymbolTable S
  copy_reads t other = record t {
    to_int_table = other.to_int_table;
    to_string_table = other.to_string_table;
  }

  -- `raw_get` of a string and of an int; `none` is the return value false.
  unfoldable pub raw_get_int : SymbolTable S → S → Bool → Option ℤ
  raw_get_int t s _use_fallback = elim (find p.eq s t.to_int_table) [
    | some i ↦ some i
    | none ↦ if not _use_fallback then none else elim (p.string_to_int s) [
      | some i ↦ some i
      | none ↦ elim (p.string_to_uint s) [ some val ↦ some (cast_int val) | none ↦ none ]
    ]
  ]

  unfoldable pub raw_get_string : SymbolTable S → ℤ → Bool → Option S
  raw_get_string t i _use_fallback = elim (find eqb_ℤ i t.to_string_table) [
    | some s ↦ some s
    | none ↦ if not _use_fallback then none else p.print i
  ]

  unfoldable pub get_int : SymbolTable S → S → ℤ → ℤ
  get_int t s def = elim (raw_get_int t s t.use_fallback) [ some i ↦ i | none ↦ def ]

  unfoldable pub get_string : SymbolTable S → ℤ → S → S
  get_string t i def = elim (raw_get_string t i t.use_fallback) [ some s ↦ s | none ↦ def ]

  unfoldable pub contains_int : SymbolTable S → ℤ → Bool
  contains_int t i = is_some (find eqb_ℤ i t.to_string_table)

  unfoldable pub contains_string : SymbolTable S → S → Bool
  contains_string t s = is_some (find p.eq s t.to_int_table)

  -- Returns the table and whether one of the two maps has taken the entry.
  unfoldable pub add : SymbolTable S → S → ℤ → SymbolTable S × Bool
  add t s i = (
    record t {
      to_int_table = insert p.eq s i t.to_int_table;
      to_string_table = insert eqb_ℤ i s t.to_string_table;
    },
    not (is_some (find p.eq s t.to_int_table) && is_some (find eqb_ℤ i t.to_string_table)),
  )

  unfoldable pub internal_add : SymbolTable S → S → ℤ → SymbolTable S × Bool
  internal_add t s i = ((add t s i).0, true)

  -- `read` of an array of entries.
  unfoldable pub read : SymbolTable S → List (S × ℤ) → SymbolTable S × Bool
  read t [] = (t, true)
  read t ((s, i) ∷ rest) = read (internal_add t s i).0 rest

  -- `operator==`
  unfoldable pub equal : SymbolTable S → SymbolTable S → Bool
  equal t other =
      all_in eqb_ℤ p.eq t.to_string_table other.to_string_table
      && all_in eqb_ℤ p.eq other.to_string_table t.to_string_table
      && p.eq t.default_string other.default_string
      && eqb_ℤ t.default_int other.default_int
      && same t.use_fallback other.use_fallback
    where
      same : Bool → Bool → Bool
      same true b = b
      same false b = not b
