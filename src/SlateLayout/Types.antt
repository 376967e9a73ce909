-- ===== src/SlateLayout/Types.antt =====
-- The data of SlateLayout.h, and what it asks of code outside the repository.
use codon.Prelude.{ℕ, Bool, List, Option}
use codon.SlateLayout.Buffer.{Buffer}

-- `slate_elem_access_t`, in the order of its values; `invalid_access` is any other value.
pub data Access : Type 0 where
  slate_private slate_read_only slate_read_write invalid_access : Access

abbrev pub rank : Access → ℕ
rank slate_private = 0
rank slate_read_only = 1
rank slate_read_write = 2
rank invalid_access = 3

-- `SlateElementMetadata`
pub record Metadata : Type 0 where
  pub type_id : ℕ
  pub shard : ℕ
  pub value_offset : ℕ
  pub value_size : ℕ
  pub access_policy : Access
  pub subsystem_id : ℕ
  pub is_view_element : Bool

-- A free chunk, by its size.
pub record Chunk : Type 0 where
  pub size : ℕ
  pub offset : ℕ

-- `shard_size`, `shard_free_list` and `initial_values` of one shard. The free list is a multimap: its
-- chunks are in the order of their sizes.
pub record Shard : Type 0 where
  pub size : ℕ
  pub free_list : List Chunk
  pub initial_values : Buffer

-- `SlatePathMap`, a map from paths to metadata whose entries have indices. An `insert` that does not
-- insert is none.
pub record PathMap (P M : Type 0) : Type 0 where
  pub empty : M
  pub find : M → P → Option Metadata
  pub insert : M → P → Metadata → Option M
  pub iterator_to_id : M → P → ℕ
  pub id_to_iterator : M → ℕ → Option P

-- The width of an offset, identifiers (slate_id), the rules for paths, and validators of type `F`.
pub record Host (P F : Type 0) : Type 0 where
  pub max_offset : ℕ
  pub slate_element_default : ℕ
  pub slate_type_invalid : ℕ
  pub shard_static : ℕ
  pub slate_id_buildup : Bool → Bool → ℕ → ℕ → ℕ → Option ℕ
  pub slate_id_is_valid : ℕ → Bool
  pub slate_id_index : ℕ → ℕ
  pub slate_id_can_write : ℕ → Bool
  pub slate_id_ro : ℕ → ℕ
  pub slate_id_has_validator : ℕ → Bool
  pub is_empty_path : P → Bool
  pub validate_slate_path : P → Bool
  pub is_noop : F → Bool
  pub no_validator : F

pub record SlateLayout (M F : Type 0) : Type 0 where
  pub elements : M
  pub idx_to_validator : List (ℕ × F)
  pub shard_policy : ℕ → Access
  pub shards : List Shard
