-- ===== src/SlateLayout/Views.antt =====
-- SlateLayout.cc: views lie inside of their parents and allow no more than they do.
use native.Mathlib.Nat.{mod-eq_of_lt, div-add-mod'}
use codon.Prelude.{
  ℕ, ◌+◌, ◌/◌, ◌≤◌, ◌≡◌, ◌≢◌, refl, sym, subst, ap, ap₂, ◌∙◌, inl, inr, Bool, true, false, not,
  ◌&&◌, Option, none, some, arith, ◌==◌, if◌then◌else◌, Bool-cases, Option-cases, ◌>>=◌,
}
use codon.SlateLayout.Types.{Metadata, PathMap, Host, SlateLayout}
use codon.SlateLayout.Carving.{Divides}
use codon.SlateLayout.Layout.{
  add_element_and_build_id, get_element, view_access, create_view_element,
}
use codon.SlateLayout.Occupancy.{MapLaws, IdLaws, Occupied}
use codon.SlateLayout.Registering.{
  add_element_and_build_id-Registered, add_element_and_build_id-Occupied, Registered,
}
use codon.SlateLayout.Elements.{Names, Names-Registered, get_element-index}
use codon.SlateLayout.Viewing.{view_metadata, view_registered, view_cases}

and_true : (b : Bool) → b && true ≡ b
and_true true = refl
and_true false = refl

and_false : (b : Bool) → b && false ≡ false
and_false true = refl
and_false false = refl

module _ {P M F : Type 0} (paths : PathMap P M) (host : Host P F) (l : SlateLayout M F)
    (parent_id parent_type_id element_offset : ℕ) (path : P)
    (type_id value_size alignment subsystem_id : ℕ) where
  -- The identifier of a view, and whether it may write.
  viewed : ℕ → ℕ
  viewed id = if not (host.slate_id_can_write parent_id) then host.slate_id_ro id else id

  Names-viewed :
      (laws : MapLaws paths) (ids : IdLaws host) (l' : SlateLayout M F) (x : Metadata) (id : ℕ)
      → Names paths host laws l' path x id
      → (host.slate_id_is_valid (viewed id) ≡ true)
        × (host.slate_id_index (viewed id) ≡ paths.iterator_to_id l'.elements path)
        × (host.slate_id_can_write (viewed id)
            ≡ not (x.shard == host.shard_static) && host.slate_id_can_write parent_id)
  unfolding viewed
  Names-viewed laws ids l' x id n = elim (Bool-cases (host.slate_id_can_write parent_id)) [
    | inl t ↦
        let same : viewed id ≡ id = ap (λ t. if not t then host.slate_id_ro id else id) t in
        (
          ap host.slate_id_is_valid same ∙ n.valid,
          ap host.slate_id_index same ∙ n.index,
          ap host.slate_id_can_write same
              ∙ n.writes
              ∙ sym (and_true (not (x.shard == host.shard_static)))
              ∙ ap (λ t. not (x.shard == host.shard_static) && t) (sym t),
        )
    | inr f ↦
        let same : viewed id ≡ host.slate_id_ro id =
          ap (λ t. if not t then host.slate_id_ro id else id) f in
        (
          ap host.slate_id_is_valid same ∙ ids.slate_id_is_valid-slate_id_ro id ∙ n.valid,
          ap host.slate_id_index same ∙ ids.slate_id_index-slate_id_ro id ∙ n.index,
          ap host.slate_id_can_write same
              ∙ ids.slate_id_can_write-slate_id_ro id
              ∙ sym (and_false (not (x.shard == host.shard_static)))
              ∙ ap (λ t. not (x.shard == host.shard_static) && t) (sym f),
        )
  ]

  -- Making a view keeps elements and free chunks apart, whether or not it succeeds.
  pub create_view_element-Occupied :
      (laws : MapLaws paths)
      → Occupied paths l.elements l.shards
      → let (l', r) =
          create_view_element paths host l parent_id parent_type_id element_offset path type_id
            value_size alignment subsystem_id in
        Occupied paths l'.elements l'.shards
  unfolding view_registered view_access
  create_view_element-Occupied laws o =
      let Kept : SlateLayout M F × Option ℕ → Type 0 =
        (λ (l', r). Occupied paths l'.elements l'.shards) in
      elim (view_cases paths host l parent_id parent_type_id element_offset path type_id value_size
        alignment subsystem_id) [
          | inl e ↦ subst Kept (sym e) o
          | inr (parent_path, parent, v, e) ↦ subst Kept (sym e) (
              add_element_and_build_id-Occupied paths host laws l path
                (view_metadata paths host l parent_id parent_type_id element_offset path type_id
                  value_size alignment subsystem_id parent)
                host.no_validator o (inl refl))
        ]

  -- The view of a parent.
  abbrev pub view_of : Metadata → ℕ → ℕ → Metadata
  view_of parent offset size = record {
    type_id = type_id;
    shard = parent.shard;
    value_offset = offset;
    value_size = size;
    access_policy = parent.access_policy;
    subsystem_id = subsystem_id;
    is_view_element = true;
  }

  -- What holds of a view of a parent, with its identifier.
  abbrev pub IsView : SlateLayout M F → ℕ → Metadata → Type 0
  IsView l' view_id parent =
      (element_offset + value_size ≤ parent.value_size)
      × Divides alignment (parent.value_offset + element_offset)
      × (get_element paths host l' view_id type_id
          ≡ some (path, view_of parent (parent.value_offset + element_offset) value_size))
      × (host.slate_id_can_write view_id
          ≡ not (parent.shard == host.shard_static) && host.slate_id_can_write parent_id)

  -- A view that was made of a parent is found by its identifier at its place inside of the parent, with the
  -- parent's shard and policy, and its identifier may write only if the parent's may and the shard is not static.
  pub create_view_element_lem :
      (laws : MapLaws paths) (ids : IdLaws host) (l' : SlateLayout M F) (view_id : ℕ)
      (parent_path : P) (parent : Metadata)
      → get_element paths host l parent_id parent_type_id ≡ some (parent_path, parent)
      → parent.value_offset + parent.value_size ≤ host.max_offset
      → type_id ≢ host.slate_type_invalid
      → create_view_element paths host l parent_id parent_type_id element_offset path type_id
          value_size alignment subsystem_id
        ≡ (l', some view_id)
      → IsView l' view_id parent
  unfolding view_registered view_access viewed
  create_view_element_lem laws ids l' view_id parent_path parent there bound typed call =
      elim (view_cases paths host l parent_id parent_type_id element_offset path type_id value_size
        alignment subsystem_id) [
          | inl e ↦ absurd (cc)
          | inr (path', parent', v, e) ↦
              let same : parent' ≡ parent = cc (v.exists_parent, there) in
              let x =
                view_metadata paths host l parent_id parent_type_id element_offset path type_id
                  value_size alignment subsystem_id parent' in
              let r = add_element_and_build_id paths host l path x host.no_validator in
              let (l2, o) = r in
              let give : Option ℕ → Option ℕ = (λ o. o >>= (λ id. some (viewed id))) in
              let e' = sym e ∙ call in
              let e1 : l2 ≡ l' = ap (λ (a, b). a) e' in
              let e2 : give o ≡ some view_id = ap (λ (a, b). b) e' in
              elim (Option-cases o) [
                | inl n ↦ let e3 : give none ≡ some view_id = sym (ap give n) ∙ e2 in absurd (cc)
                | inr (id, n) ↦
                    let e3 : give (some id) ≡ some view_id = sym (ap give n) ∙ e2 in
                    let is_view : viewed id ≡ view_id = cc in
                    let whole : r ≡ (l', some id) = ap₂ (λ a b. (a, b)) e1 n in
                    let names =
                      Names-Registered paths host laws ids l l' path x host.no_validator id (
                        subst (Registered paths host l path x host.no_validator) whole (
                          add_element_and_build_id-Registered paths host l path x
                            host.no_validator)) in
                    let (valid, index, writes) = Names-viewed laws ids l' x id names in
                    let bound' =
                      subst (λ y. y.value_offset + y.value_size ≤ host.max_offset) (sym same)
                        bound in
                    let exact : x
                        ≡ view_of parent' (parent'.value_offset + element_offset) value_size =
                      ap₂ (view_of parent') (mod-eq_of_lt (omega (arith, v.inside)))
                        (mod-eq_of_lt (omega (arith, v.inside))) in
                    let divides : Divides alignment (parent'.value_offset + element_offset) = (
                      (parent'.value_offset + element_offset) / alignment,
                      omega (
                        arith,
                        div-add-mod' (parent'.value_offset + element_offset) alignment,
                        v.multiple,
                      ),
                    ) in
                    let found : get_element paths host l' (viewed id) type_id ≡ some (path, x) =
                      get_element-index paths host laws l' path x (viewed id) names.there valid
                        index typed in
                    subst (IsView l' view_id) same (
                      v.inside,
                      divides,
                      ap (λ i. get_element paths host l' i type_id) (sym is_view)
                          ∙ found
                          ∙ ap (λ x. some (path, x)) exact,
                      ap host.slate_id_can_write (sym is_view) ∙ writes,
                    )
              ]
        ]
