-- ===== src/SlateBuilder/Builder.antt =====
-- SlateBuilder.cc: sub-slates, the paths that are permitted, and the elements of a builder.
use codon.Prelude.{
  ℕ, Bool, true, false, not, List, [], ◌∷◌, Option, none, some, if◌then◌else◌, ◌>>=◌,
}
use codon.SlateLayout.Types.{
  Access, slate_private, slate_read_only, slate_read_write, invalid_access, Metadata, PathMap, Host,
  SlateLayout,
}
use codon.SlateLayout.Access.{
  is_some, build_element_id, get_element_type, path_exists, element_exists,
}

-- Paths, whose functions are not in the repository: equality, `slate_join_path`, and
-- `slate_rel_path`, which strips the first path off the second where the second is at or below it.
pub record Paths (P : Type 0) : Type 0 where
  pub eq : P → P → Bool
  pub join : P → P → P
  pub rel : P → P → Option P

-- SlateBuilderStoreInterface and the permissions (`N`), which are not in the repository either. `T` is
-- a store; `store_element_id` is its `get_element_id`.
pub record Stores (T P N M F : Type 0) : Type 0 where
  pub is_superset : N → N → Bool
  pub take_subset : N → N → N
  pub get_permission : T → N
  pub get_masked_paths : T → List P
  pub get_subtree_path : T → P
  pub get_subsystem_id : T → ℕ
  pub is_super_store : T → Bool
  pub is_built_store : T → Bool
  pub store_layout : T → SlateLayout M F
  pub sub_store : T → P → List P → N → ℕ → T
  pub super_store : T → Option T
  pub store_element_id : T → P → ℕ → Option ℕ

-- EnumRegistry (`G`): `register_enum` with a channel's name, and `get_registered_enum`.
pub record Enums (G P E : Type 0) : Type 0 where
  pub register : G → P → E → Option G
  pub registered : G → P → Option E

-- The layout and the subtree path of a builder are those of its store.
pub record Builder (T P G : Type 0) : Type 0 where
  pub store : T
  pub enum_registry_relative_path : P
  pub enum_registry : Option G

-- `slate_element_key_t`
pub record ElementKey (P : Type 0) : Type 0 where
  pub path : P
  pub type_id : ℕ
  pub element_id : ℕ

abbrev pub is_private : Access → Bool
is_private slate_private = true
is_private slate_read_only = false
is_private slate_read_write = false
is_private invalid_access = false

abbrev pub new_builder : {T P G : Type 0} → T → P → Option G → Builder T P G
new_builder store path registry = record {
  store = store;
  enum_registry_relative_path = path;
  enum_registry = registry;
}

module _ {P : Type 0} (v : Paths P) where
  open v use {eq, join, rel}

  -- Whether one of the masks is above the path, or the path itself.
  abbrev pub masks_path : List P → P → Bool
  masks_path [] path = false
  masks_path (mask ∷ rest) path = if is_some (rel mask path) then true else masks_path rest path

  abbrev pub has : P → List P → Bool
  has p [] = false
  has p (q ∷ rest) = if eq p q then true else has p rest

  -- `std::set::insert`; nothing depends on the order of the set.
  abbrev pub insert : P → List P → List P
  insert p set = if has p set then set else p ∷ set

  abbrev pub insert_joined : P → List P → List P → List P
  insert_joined subtree [] set = set
  insert_joined subtree (p ∷ rest) set = insert_joined subtree rest (insert (join subtree p) set)

  -- The masks that lie in the subtree.
  abbrev pub insert_below : P → List P → List P → List P
  insert_below subtree [] set = set
  insert_below subtree (p ∷ rest) set =
      insert_below subtree rest (if is_some (rel subtree p) then insert p set else set)

  -- The names so far with those of the elements, if none is there twice.
  unfoldable pub insert_names : List (ElementKey P) → List P → Option (List P)
  insert_names [] names = some names
  insert_names (elem ∷ rest) names =
      let more = insert_names rest (elem.path ∷ names) in if has elem.path names then none else more

module _ {T P N M F : Type 0} (v : Paths P) (s : Stores T P N M F) where
  open v use {eq, join, rel}
  open s use {
    is_superset, take_subset, get_permission, get_masked_paths, get_subtree_path, is_super_store,
    is_built_store, store_layout, sub_store, super_store, store_element_id,
  }

  -- A failed FswAssert is none. `root` is the empty path of a builder without a registry.
  unfoldable pub sub_slate :
      {G : Type 0} → P → Builder T P G → P → List P → N → ℕ → Option (Builder T P G)
  sub_slate root b rel_subtree_path rel_masked_paths permission subsystem_id =
      let masked_paths = get_masked_paths b.store in
      let new_subtree_path = join (get_subtree_path b.store) rel_subtree_path in
      if not (is_superset (get_permission b.store) permission)
      then none
      else if masks_path v masked_paths rel_subtree_path
      then none
      else let store =
          sub_store b.store new_subtree_path
            (insert_below v new_subtree_path masked_paths
              (insert_joined v new_subtree_path rel_masked_paths []))
            (take_subset (get_permission b.store) permission) subsystem_id in
        some (elim b.enum_registry [
          | none ↦ new_builder store root none
          | some registry ↦
              new_builder store (join b.enum_registry_relative_path rel_subtree_path)
                (some registry)
        ])

  unfoldable pub super_slate : {G : Type 0} → P → Builder T P G → Option (Builder T P G)
  super_slate root b =
      if is_super_store b.store
      then some b
      else super_store b.store >>= (λ store. some (new_builder store root none))

  unfoldable pub is_permitted_path : {G : Type 0} → Builder T P G → P → Bool
  is_permitted_path b full_path = not (masks_path v (get_masked_paths b.store) full_path)

  -- The same, with a message when it fails.
  unfoldable pub require_permitted_path : {G : Type 0} → Builder T P G → P → Bool
  require_permitted_path b full_path = not (masks_path v (get_masked_paths b.store) full_path)

  abbrev pub full_path : {G : Type 0} → Builder T P G → P → P
  full_path b element_path = join (get_subtree_path b.store) element_path

  unfoldable pub builder_element_id : {G : Type 0} → Builder T P G → P → ℕ → Option ℕ
  builder_element_id b element_path type_id =
      if not (require_permitted_path b (full_path b element_path))
      then none
      else store_element_id b.store (full_path b element_path) type_id

  unfoldable pub add_enum_registry : {G : Type 0} → G → Builder T P G → Bool × Builder T P G
  add_enum_registry registry b = elim b.enum_registry [
    | some present ↦ (false, b)
    | none ↦ (true, record b { enum_registry = some registry })
  ]

  -- The flavour with a relative path.
  unfoldable pub add_enum_registry_at : {G : Type 0} → G → P → Builder T P G → Bool × Builder T P G
  add_enum_registry_at registry path b =
      add_enum_registry registry (record b { enum_registry_relative_path = path })

  unfoldable pub register_enum :
      {G E : Type 0} → Enums G P E → P → E → Builder T P G → Option (Builder T P G)
  register_enum enums element_path e b = b.enum_registry >>= (λ registry.
      enums.register registry (join b.enum_registry_relative_path element_path) e
      >>= (λ registry'. some (record b { enum_registry = some registry' })))

  unfoldable pub get_element_enum :
      {G E : Type 0} → Enums G P E → Builder T P G → P → Option (Option E)
  get_element_enum enums b element_path = b.enum_registry >>= (λ registry.
      some (enums.registered registry (join b.enum_registry_relative_path element_path)))

  module _ (paths : PathMap P M) (host : Host P F) (get_elements : M → List (P × Metadata)) where
    unfoldable pub builder_element_type : {G : Type 0} → Builder T P G → P → Option ℕ
    builder_element_type b element_path =
        if not (require_permitted_path b (full_path b element_path))
        then none
        else get_element_type paths host (store_layout b.store) (full_path b element_path)

    unfoldable pub builder_path_exists : {G : Type 0} → Builder T P G → P → Bool
    builder_path_exists b element_path =
        if not (is_permitted_path b (full_path b element_path))
        then false
        else path_exists paths host (store_layout b.store) (full_path b element_path)

    unfoldable pub builder_element_exists : {G : Type 0} → Builder T P G → P → ℕ → Bool
    builder_element_exists b element_path type_id =
        if not (is_permitted_path b (full_path b element_path))
        then false
        else element_exists paths host (store_layout b.store) (full_path b element_path) type_id

    abbrev pub visible_access : {G : Type 0} → Builder T P G → Metadata → Access
    visible_access b metadata =
        if is_super_store b.store then slate_read_write else metadata.access_policy

    unfoldable pub path_set_of :
        {G : Type 0} → Builder T P G → List (P × Metadata) → Option (List (ElementKey P))
    path_set_of b [] = some []
    path_set_of b ((path, metadata) ∷ elements) =
        let rest = path_set_of b elements in
        let access = visible_access b metadata in
        if is_private access then rest else elim (rel (get_subtree_path b.store) path) [
          | none ↦ rest
          | some rel_path ↦
              build_element_id paths host (store_layout b.store) path metadata access
              >>= (λ element_id. rest >>= (λ keys. some (
                  record { path = rel_path; type_id = metadata.type_id; element_id = element_id }
                  ∷ keys)))
        ]

    unfoldable pub compute_path_set : {G : Type 0} → Builder T P G → Option (List (ElementKey P))
    compute_path_set b = path_set_of b (get_elements (store_layout b.store).elements)

    unfoldable pub insert_builders : {G : Type 0} → List (Builder T P G) → List P → Option (List P)
    insert_builders [] names = some names
    insert_builders (builder ∷ rest) names =
        if not (is_built_store builder.store)
        then none
        else if not (is_super_store builder.store)
        then none
        else compute_path_set builder >>= (λ path_set.
          insert_names v path_set names >>= (λ names'. insert_builders rest names'))

    unfoldable pub names_distinct : {G : Type 0} → List (Builder T P G) → Bool
    names_distinct [] = false
    names_distinct (builder ∷ rest) = is_some (insert_builders (builder ∷ rest) [])
