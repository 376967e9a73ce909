-- ===== src/SlateLayout/Elements.antt =====
-- SlateLayout.cc: elements do not overlap, and an element that was allocated is found.
use codon.Prelude.{
  ℕ, ◌+◌, ◌≤◌, ◌≡◌, ◌≢◌, sym, subst, ap, ap₂, ◌∙◌, inl, inr, true, false, not, Option, none, some,
  ◌==◌, if◌then◌else◌, guard, bind_some, Option-cases, get_elem?, set, ◌>>=◌, ==_ne, ==_refl,
}
use codon.SlateLayout.Types.{Access, Metadata, Shard, PathMap, Host, SlateLayout}
use codon.SlateLayout.Carving.{Divides}
use codon.SlateLayout.Layout.{
  add_element_and_build_id, register_element, allocate_element, get_element,
}
use codon.SlateLayout.Occupancy.{MapLaws, IdLaws, Occupied, Vacant}
use codon.SlateLayout.Registering.{
  add_element_and_build_id-Registered, add_element_and_build_id-Occupied, Registered,
}
use codon.SlateLayout.Allocation.{new_metadata, allocate_cases, allocate_element-Placed}

module _ {P M F : Type 0} (paths : PathMap P M) (host : Host P F) (laws : MapLaws paths) where
  register_element-Occupied :
      (l : SlateLayout M F) (path : P) (x : Metadata) (validator : F) (v : ℕ)
      → Occupied paths l.elements l.shards
      → Vacant paths l.elements l.shards x.shard x.value_offset x.value_size
      → let (l', r) = register_element paths host l path x validator v in
        Occupied paths l'.elements l'.shards
  unfolding register_element
  register_element-Occupied l path x validator v o vacant =
      add_element_and_build_id-Occupied paths host laws l path x validator o (inr vacant)

  -- Whatever its arguments and whether or not it succeeds, `allocate_element` keeps elements and free chunks
  -- apart and inside of their shards, if the shard has room.
  pub allocate_element-Occupied :
      (l : SlateLayout M F) (path : P) (type_id value_size alignment shard : ℕ)
      (access_policy : Access) (validator : F) (subsystem_id : ℕ)
      → Occupied paths l.elements l.shards
      → ((s : Shard)
          → get_elem? l.shards shard ≡ some s
          → s.size + 31 + value_size ≤ host.max_offset)
      → let (l', r) =
          allocate_element paths host l path type_id value_size alignment shard access_policy
            validator subsystem_id in
        Occupied paths l'.elements l'.shards
  allocate_element-Occupied l path type_id value_size alignment shard access_policy validator
        subsystem_id o room =
      let Kept : SlateLayout M F × Option (ℕ × ℕ) → Type 0 =
        (λ (l', r). Occupied paths l'.elements l'.shards) in
      elim (allocate_cases paths host l path type_id value_size alignment shard access_policy
        validator subsystem_id) [
          | inl e ↦ subst Kept (sym e) o
          | inr (s, a) ↦
              let (s', v, placed) =
                allocate_element-Placed paths host l path type_id value_size alignment shard
                  access_policy validator subsystem_id s a (room s a.exists_shard) o in
              let x =
                new_metadata paths host l path type_id value_size alignment shard access_policy
                  validator subsystem_id v in
              let vacant : Vacant paths l.elements (set l.shards shard s') x.shard x.value_offset
                  x.value_size =
                subst (λ v. Vacant paths l.elements (set l.shards shard s') shard v x.value_size)
                  (sym placed.offset_exact)
                  (subst (Vacant paths l.elements (set l.shards shard s') shard v)
                    (sym placed.size_exact) placed.vacant) in
              subst Kept (sym placed.registers) (
                register_element-Occupied (record l { shards = set l.shards shard s' }) path x
                  validator v placed.occupied vacant)
        ]

  -- A valid identifier with the index of an element finds it.
  pub get_element-index :
      (l' : SlateLayout M F) (path : P) (x : Metadata) (id : ℕ)
      → paths.find l'.elements path ≡ some x
      → host.slate_id_is_valid id ≡ true
      → host.slate_id_index id ≡ paths.iterator_to_id l'.elements path
      → x.type_id ≢ host.slate_type_invalid
      → get_element paths host l' id x.type_id ≡ some (path, x)
  unfolding get_element
  get_element-index l' path x id there valid index typed =
      let at : paths.id_to_iterator l'.elements (host.slate_id_index id) ≡ some path =
        ap (paths.id_to_iterator l'.elements) index
        ∙ laws.id_to_iterator-iterator_to_id l'.elements path x there in
      let found : P → Metadata → Option (P × Metadata) =
        (λ p m. if m.type_id == x.type_id then some (p, m) else none) in
      let find : P → Option (P × Metadata) = (λ p. paths.find l'.elements p >>= found p) in
      let looks : Option (P × Metadata) =
        paths.id_to_iterator l'.elements (host.slate_id_index id) >>= find in
      guard none (if x.type_id == host.slate_type_invalid then none else looks) valid
      ∙ ap (λ t. if t then none else looks) (==_ne x.type_id host.slate_type_invalid typed)
      ∙ bind_some find at
      ∙ bind_some (found path) there
      ∙ ap (λ t. if t then some (path, x) else none) (==_refl x.type_id)

  -- What an identifier that registering gave is for.
  pub record Names (l' : SlateLayout M F) (path : P) (x : Metadata) (id : ℕ) : Type 0 where
    pub there : paths.find l'.elements path ≡ some x
    pub valid : host.slate_id_is_valid id ≡ true
    pub index : host.slate_id_index id ≡ paths.iterator_to_id l'.elements path
    pub writes : host.slate_id_can_write id ≡ not (x.shard == host.shard_static)

  pub Names-Registered :
      (ids : IdLaws host) (l l' : SlateLayout M F) (path : P) (x : Metadata) (validator : F)
      (id : ℕ)
      → Registered paths host l path x validator (l', some id)
      → Names l' path x id
  Names-Registered ids l l' path x validator id registered = elim registered [
    | inl (_, e) ↦ absurd (cc)
    | inr (inserted, _, built) ↦ elim built [
      | inl e ↦ absurd (cc)
      | inr (id', e, valid, buildup) ↦
          let same : id' ≡ id = cc in
          record {
            there = laws.find-insert l.elements l'.elements path x inserted;
            valid = ap host.slate_id_is_valid (sym same) ∙ valid;
            index =
                ap host.slate_id_index (sym same)
                ∙ ids.slate_id_index-slate_id_buildup _ _ _ _ _ _ buildup;
            writes =
                ap host.slate_id_can_write (sym same)
                ∙ ids.slate_id_can_write-slate_id_buildup _ _ _ _ _ _ buildup;
          }
    ]
  ]

  -- A call of `register_element` that gives an identifier.
  register_element-some :
      (l l' : SlateLayout M F) (path : P) (x : Metadata) (validator : F) (v id mem : ℕ)
      → register_element paths host l path x validator v ≡ (l', some (id, mem))
      → Registered paths host l path x validator (l', some id) × (v ≡ mem)
  unfolding register_element
  register_element-some l l' path x validator v id mem e =
      let r = add_element_and_build_id paths host l path x validator in
      let (l2, o) = r in
      let e1 : l2 ≡ l' = ap (λ (a, b). a) e in
      let give : Option ℕ → Option (ℕ × ℕ) = (λ o. o >>= (λ id. some (id, v))) in
      let e2 : give o ≡ some (id, mem) = ap (λ (a, b). b) e in
      elim (Option-cases o) [
        | inl n ↦ let e3 : give none ≡ some (id, mem) = sym (ap give n) ∙ e2 in absurd (cc)
        | inr (id', n) ↦
            let e3 : give (some id') ≡ some (id, mem) = sym (ap give n) ∙ e2 in
            let same : id' ≡ id = cc in
            let same_v : v ≡ mem = cc in
            let whole : r ≡ (l', some id) = ap₂ (λ a b. (a, b)) e1 (n ∙ ap some same) in
            (
              subst (Registered paths host l path x validator) whole
                  (add_element_and_build_id-Registered paths host l path x validator),
              same_v,
            )
      ]

  -- If elements and free chunks lie apart in their shards, the shard has room, and the type is not the
  -- invalid one, an element that was allocated is found by its identifier, with the arguments of the
  -- call and at an aligned offset, and the identifier may write unless the shard is the static one.
  pub allocate_element-get_element :
      (ids : IdLaws host) (l l' : SlateLayout M F) (path : P)
      (type_id value_size alignment shard : ℕ) (access_policy : Access) (validator : F)
      (subsystem_id id mem : ℕ)
      → Occupied paths l.elements l.shards
      → ((s : Shard)
          → get_elem? l.shards shard ≡ some s
          → s.size + 31 + value_size ≤ host.max_offset)
      → type_id ≢ host.slate_type_invalid
      → allocate_element paths host l path type_id value_size alignment shard access_policy
          validator subsystem_id
        ≡ (l', some (id, mem))
      → (get_element paths host l' id type_id
          ≡ some (
            path,
            record {
              type_id = type_id;
              shard = shard;
              value_offset = mem;
              value_size = value_size;
              access_policy = access_policy;
              subsystem_id = subsystem_id;
              is_view_element = false;
            },
          ))
        × Divides alignment mem
        × (host.slate_id_can_write id ≡ not (shard == host.shard_static))
  allocate_element-get_element ids l l' path type_id value_size alignment shard access_policy
        validator subsystem_id id mem o room typed e =
      elim (allocate_cases paths host l path type_id value_size alignment shard access_policy
        validator subsystem_id) [
          | inl r ↦ absurd (cc)
          | inr (s, a) ↦
              let (s', v, placed) =
                allocate_element-Placed paths host l path type_id value_size alignment shard
                  access_policy validator subsystem_id s a (room s a.exists_shard) o in
              let at : ℕ → ℕ → Metadata = (λ v size. record {
                type_id = type_id;
                shard = shard;
                value_offset = v;
                value_size = size;
                access_policy = access_policy;
                subsystem_id = subsystem_id;
                is_view_element = false;
              }) in
              let x =
                new_metadata paths host l path type_id value_size alignment shard access_policy
                  validator subsystem_id v in
              let (registered, same) =
                register_element-some (record l { shards = set l.shards shard s' }) l' path x
                  validator v id mem (sym placed.registers ∙ e) in
              let exact : x ≡ at mem value_size =
                ap₂ at (placed.offset_exact ∙ same) placed.size_exact in
              let n =
                Names-Registered ids (record l { shards = set l.shards shard s' }) l' path x
                  validator id registered in
              (
                get_element-index l' path x id n.there n.valid n.index typed
                    ∙ ap (λ x. some (path, x)) exact,
                subst (Divides alignment) same placed.aligned,
                n.writes,
              )
        ]
