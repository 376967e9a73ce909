-- ===== src/SlateLayout/Access.antt =====
-- SlateLayout.cc: the queries of elements, and the identifiers that other users of an element get.
use codon.Prelude.{
  ℕ, zero, suc, Bool, true, false, not, List, [], ◌∷◌, Option, none, some, ltb, ◌==◌, if◌then◌else◌,
  ◌>>=◌, get_elem?, map,
}
use codon.SlateLayout.Types.{
  Access, slate_private, slate_read_only, slate_read_write, invalid_access, rank, Metadata, Shard,
  PathMap, Host, SlateLayout,
}
use codon.SlateLayout.Buffer.{empty_buffer, take}
use codon.SlateLayout.Layout.{has_index, get_element}

abbrev pub max_access : Access → Access → Access
max_access a b = if ltb (rank a) (rank b) then b else a

abbrev pub drop {ℓ} : {A : Type ℓ} → ℕ → List A → List A
drop zero xs = xs
drop (suc n) [] = []
drop (suc n) (x ∷ xs) = drop n xs

abbrev pub is_some {ℓ} : {A : Type ℓ} → Option A → Bool
is_some none = false
is_some (some x) = true

abbrev pub find_index : {F : Type 0} → List (ℕ × F) → ℕ → Option F
find_index [] idx = none
find_index ((i, f) ∷ rest) idx = if i == idx then some f else find_index rest idx

-- `finalize` of one shard.
abbrev pub cleared : Shard → Shard
cleared s = record s { free_list = []; initial_values = empty_buffer }

abbrev pub empty_shards : ℕ → List Shard
empty_shards zero = []
empty_shards (suc n) =
    record { size = 0; free_list = []; initial_values = empty_buffer } ∷ empty_shards n

module _ {P M F : Type 0} (paths : PathMap P M) (host : Host P F) where
  -- The constructor: static elements are read-only.
  unfoldable pub initial_layout : ℕ → SlateLayout M F
  initial_layout num_slate_shard_t = record {
    elements = paths.empty;
    idx_to_validator = [];
    shard_policy =
        (λ shard. if shard == host.shard_static then slate_read_only else slate_read_write);
    shards = empty_shards num_slate_shard_t;
  }

  -- The identifier by the access that is left.
  unfoldable pub id_by_access : Access → Bool → Metadata → ℕ → Option ℕ
  id_by_access slate_private has_validator metadata idx = none
  id_by_access slate_read_only has_validator metadata idx =
      host.slate_id_buildup false has_validator metadata.shard metadata.value_offset idx
  id_by_access slate_read_write has_validator metadata idx =
      host.slate_id_buildup true has_validator metadata.shard metadata.value_offset idx
  id_by_access invalid_access has_validator metadata idx = none

  unfoldable pub build_element_id : SlateLayout M F → P → Metadata → Access → Option ℕ
  build_element_id l path metadata access_elevation =
      let idx = paths.iterator_to_id l.elements path in
      paths.find l.elements path >>= (λ _.
        host.slate_id_buildup false false metadata.shard metadata.value_offset idx >>= (λ _.
          id_by_access (max_access metadata.access_policy access_elevation)
            (has_index l.idx_to_validator idx) metadata idx))

  unfoldable pub get_element_id : SlateLayout M F → P → ℕ → Access → Option ℕ
  get_element_id l path type_id access_elevation = paths.find l.elements path >>= (λ metadata.
      if not (metadata.type_id == type_id)
      then none
      else build_element_id l path metadata access_elevation)

  unfoldable pub get_element_access_policy : SlateLayout M F → ℕ → ℕ → Option Access
  get_element_access_policy l element_id type_id =
      get_element paths host l element_id type_id
      >>= (λ (path, metadata). some metadata.access_policy)

  unfoldable pub get_element_type : SlateLayout M F → P → Option ℕ
  get_element_type l path = paths.find l.elements path >>= (λ metadata. some metadata.type_id)

  unfoldable pub get_element_path : SlateLayout M F → ℕ → Option P
  get_element_path l element_id =
      if not (host.slate_id_is_valid element_id)
      then none
      else paths.id_to_iterator l.elements (host.slate_id_index element_id)

  unfoldable pub get_first_element_path : SlateLayout M F → ℕ → ℕ → Option P
  get_first_element_path l element_id type_id =
      get_element paths host l element_id type_id >>= (λ (path, metadata). some path)

  unfoldable pub get_element_initial_memory : SlateLayout M F → ℕ → ℕ → Option (List ℕ)
  get_element_initial_memory l element_id type_id =
      get_element paths host l element_id type_id >>= (λ (path, metadata).
        get_elem? l.shards metadata.shard >>= (λ s.
          some (take metadata.value_size (drop metadata.value_offset s.initial_values.bytes))))

  unfoldable pub get_element_validator : SlateLayout M F → ℕ → F
  get_element_validator l element_id =
      elim (find_index l.idx_to_validator (host.slate_id_index element_id)) [
        | none ↦ host.no_validator
        | some validator ↦ validator
      ]

  unfoldable pub path_exists : SlateLayout M F → P → Bool
  path_exists l path = is_some (paths.find l.elements path)

  unfoldable pub element_exists : SlateLayout M F → P → ℕ → Bool
  element_exists l path type_id = elim (paths.find l.elements path) [
    | none ↦ false
    | some metadata ↦ metadata.type_id == type_id
  ]

  unfoldable pub get_shard_size : SlateLayout M F → ℕ → Option ℕ
  get_shard_size l shard = get_elem? l.shards shard >>= (λ s. some s.size)

  unfoldable pub finalize : SlateLayout M F → SlateLayout M F
  finalize l = record l { elements = paths.empty; shards = map cleared l.shards }
