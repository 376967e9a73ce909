-- ===== src/SlateLayout/Layout.antt =====
-- SlateLayout.cc: registering elements and views, and looking them up. The Option is none where a call
-- returns false. The pool of path strings is left out.
use codon.Prelude.{
  ℕ, ◌+◌, ◌%◌, Bool, true, false, not, ◌||◌, ◌&&◌, List, [], ◌∷◌, Option, none, some, ltb, ◌==◌,
  if◌then◌else◌, ◌>>=◌, get_elem?, set,
}
use codon.SlateLayout.Types.{Access, slate_read_only, rank, Metadata, PathMap, Host, SlateLayout}
use codon.SlateLayout.Buffer.{max_alignment, is_power_of_two}
use codon.SlateLayout.Space.{find_space}

-- `count` of the map of validators.
abbrev pub has_index : {F : Type 0} → List (ℕ × F) → ℕ → Bool
has_index [] idx = false
has_index ((i, f) ∷ rest) idx = i == idx || has_index rest idx

module _ {P M F : Type 0} (paths : PathMap P M) (host : Host P F) where
  -- Whether the path can be copied: it is not the root, and valid.
  unfoldable pub allocate_path : P → Bool
  allocate_path path = not (host.is_empty_path path) && host.validate_slate_path path

  unfoldable pub register_validator : SlateLayout M F → ℕ → F → ℕ → SlateLayout M F × Option ℕ
  register_validator l idx validator id =
      if host.is_noop validator
      then (l, some id)
      else if has_index l.idx_to_validator idx
      then (l, none)
      else (record l { idx_to_validator = (idx, validator) ∷ l.idx_to_validator }, some id)

  unfoldable pub add_element_and_build_id :
      SlateLayout M F → P → Metadata → F → SlateLayout M F × Option ℕ
  add_element_and_build_id l path metadata validator =
      if not (allocate_path path) then (l, none) else elim (paths.insert l.elements path metadata) [
        | none ↦ (l, none)
        | some elements ↦
            let added = record l { elements = elements } in
            let idx = paths.iterator_to_id elements path in
            elim (host.slate_id_buildup (not (metadata.shard == host.shard_static))
              (not (host.is_noop validator)) metadata.shard metadata.value_offset idx) [
                | none ↦ (added, none)
                | some id ↦
                    if not (host.slate_id_is_valid id)
                    then (added, none)
                    else register_validator added idx validator id
              ]
      ]

  -- The element in the space that was found for it: its identifier and where its memory begins.
  unfoldable pub register_element :
      SlateLayout M F → P → Metadata → F → ℕ → SlateLayout M F × Option (ℕ × ℕ)
  register_element l path metadata validator value_offset =
      let (l', id) = add_element_and_build_id l path metadata validator in
      (l', id >>= (λ id. some (id, value_offset)))

  unfoldable pub allocate_element :
      SlateLayout M F → P → ℕ → ℕ → ℕ → ℕ → Access → F → ℕ → SlateLayout M F × Option (ℕ × ℕ)
  allocate_element l path type_id value_size alignment shard access_policy validator subsystem_id =
      if value_size == 0
      then (l, none)
      else if not (is_power_of_two alignment)
      then (l, none)
      else if ltb max_alignment alignment
      then (l, none)
      else if ltb value_size alignment
      then (l, none)
      else elim (get_elem? l.shards shard) [
        | none ↦ (l, none)
        | some s ↦
            if ltb (rank (l.shard_policy shard)) (rank access_policy)
            then (l, none)
            else (let (s', found) = find_space host.max_offset s value_size alignment in
                let l' = record l { shards = set l.shards shard s' } in
                elim found [
                  | none ↦ (l', none)
                  | some value_offset ↦
                      register_element l' path
                        (record {
                          type_id = type_id;
                          shard = shard;
                          value_offset = value_offset % (host.max_offset + 1);
                          value_size = value_size % (host.max_offset + 1);
                          access_policy = access_policy;
                          subsystem_id = subsystem_id;
                          is_view_element = false;
                        })
                        validator value_offset
                ])
      ]

  -- `get_element` by identifier.
  unfoldable pub get_element : SlateLayout M F → ℕ → ℕ → Option (P × Metadata)
  get_element l element_id type_id =
      if not (host.slate_id_is_valid element_id)
      then none
      else if type_id == host.slate_type_invalid
      then none
      else (paths.id_to_iterator l.elements (host.slate_id_index element_id) >>= (λ path.
          paths.find l.elements path
          >>= (λ metadata. if metadata.type_id == type_id then some (path, metadata) else none)))

  unfoldable pub view_access : SlateLayout M F × Option ℕ → ℕ → SlateLayout M F × Option ℕ
  view_access p parent_id =
      let (l, id) = p in
      (
        l,
        id >>= (λ view_element_id. some (
            if not (host.slate_id_can_write parent_id)
            then host.slate_id_ro view_element_id
            else view_element_id)),
      )

  -- `&` with the alignment less 1 is the remainder, the alignment being a power of two.
  unfoldable pub create_view_element :
      SlateLayout M F → ℕ → ℕ → ℕ → P → ℕ → ℕ → ℕ → ℕ → SlateLayout M F × Option ℕ
  create_view_element l parent_id parent_type_id element_offset path type_id value_size alignment
        subsystem_id =
      if value_size == 0
      then (l, none)
      else if not (is_power_of_two alignment)
      then (l, none)
      else if ltb max_alignment alignment
      then (l, none)
      else elim (get_element l parent_id parent_type_id) [
        | none ↦ (l, none)
        | some (parent_path, parent) ↦
            if has_index l.idx_to_validator (host.slate_id_index parent_id)
              && ltb (rank slate_read_only) (rank parent.access_policy)
            then (l, none)
            else if ltb parent.value_size element_offset
            then (l, none)
            else if ltb parent.value_size value_size
            then (l, none)
            else if ltb parent.value_size (element_offset + value_size)
            then (l, none)
            else if not ((parent.value_offset + element_offset) % alignment == 0)
            then (l, none)
            else view_access
                (add_element_and_build_id l path
                  (record {
                    type_id = type_id;
                    shard = parent.shard;
                    value_offset = (parent.value_offset + element_offset) % (host.max_offset + 1);
                    value_size = value_size % (host.max_offset + 1);
                    access_policy = parent.access_policy;
                    subsystem_id = subsystem_id;
                    is_view_element = true;
                  })
                  host.no_validator)
                parent_id
      ]
