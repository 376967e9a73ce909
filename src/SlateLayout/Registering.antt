-- ===== src/SlateLayout/Registering.antt =====
-- SlateLayout.cc: what allocating an element does to the layout.
use codon.Prelude.{
  ℕ, ◌≡◌, refl, sym, subst, ◌⊎◌, inl, inr, true, not, ◌∷◌, Option, none, some, ◌==◌, if◌then◌else◌,
  Bool-cases, Option-cases,
}
use codon.SlateLayout.Types.{Metadata, PathMap, Host, SlateLayout}
use codon.SlateLayout.Layout.{
  has_index, allocate_path, register_validator, add_element_and_build_id,
}
use codon.SlateLayout.Occupancy.{MapLaws, Occupied, Vacant, Occupied-insert}

module _ {P M F : Type 0} (paths : PathMap P M) (host : Host P F) where
  -- The identifier that a call gives, if it gives one.
  abbrev pub Built : SlateLayout M F → P → Metadata → F → Option ℕ → Type 0
  Built l path x validator o =
      (o ≡ none)
      ⊎ ((id : ℕ) × (o ≡ some id)
          × (host.slate_id_is_valid id ≡ true)
          × (host.slate_id_buildup (not (x.shard == host.shard_static))
                (not (host.is_noop validator)) x.shard x.value_offset
                (paths.iterator_to_id l.elements path)
              ≡ some id))

  -- Registering changes nothing, or inserts the element and leaves the shards alone.
  abbrev pub Registered : SlateLayout M F → P → Metadata → F → SlateLayout M F × Option ℕ → Type 0
  Registered l path x validator (l', o) =
      ((l' ≡ l) × (o ≡ none))
      ⊎ ((paths.insert l.elements path x ≡ some l'.elements)
          × (l'.shards ≡ l.shards)
          × Built l' path x validator o)

  add_inserted :
      (l : SlateLayout M F) (path : P) (x : Metadata) (validator : F) (elements : M)
      → paths.insert l.elements path x ≡ some elements
      → Registered l path x validator (
          let added = record l { elements = elements } in
          elim (host.slate_id_buildup
            (not (x.shard == host.shard_static))
            (not (host.is_noop validator))
            x.shard
            x.value_offset
            (paths.iterator_to_id elements path)) [
              | none ↦ (added, none)
              | some id ↦
                  if not (host.slate_id_is_valid id)
                  then (added, none)
                  else register_validator paths host added
                      (paths.iterator_to_id elements path)
                      validator
                      id
            ])
  unfolding register_validator
  add_inserted l path x validator elements inserted =
      let added : SlateLayout M F = record l { elements = elements } in
      let none_added : SlateLayout M F × Option ℕ = (added, none) in
      let idx = paths.iterator_to_id elements path in
      let R : SlateLayout M F × Option ℕ → Type 0 = Registered l path x validator in
      let stays : R none_added = inr (inserted, refl, inl refl) in
      elim (Option-cases (
        host.slate_id_buildup (not (x.shard == host.shard_static)) (not (host.is_noop validator))
          x.shard x.value_offset idx)) [
            | inl e ↦
                subst
                  (λ o. R (elim o [
                    | none ↦ (added, none)
                    | some id ↦
                        if not (host.slate_id_is_valid id)
                        then (added, none)
                        else register_validator paths host added idx validator id
                  ]))
                  (sym e) stays
            | inr (id, e) ↦
                let registered : SlateLayout M F × Option ℕ =
                  register_validator paths host added idx validator id in
                let mapped : SlateLayout M F × Option ℕ = (
                  record added { idx_to_validator = (idx, validator) ∷ l.idx_to_validator },
                  some id,
                ) in
                let tested : SlateLayout M F × Option ℕ =
                  if has_index l.idx_to_validator idx then none_added else mapped in
                subst
                  (λ o. R (elim o [
                    | none ↦ (added, none)
                    | some id ↦
                        if not (host.slate_id_is_valid id)
                        then (added, none)
                        else register_validator paths host added idx validator id
                  ]))
                  (sym e)
                  (elim (Bool-cases (host.slate_id_is_valid id)) [
                    | inr f ↦
                        subst (λ t. R (if not t then none_added else registered)) (sym f) stays
                    | inl t ↦
                        subst (λ t. R (if not t then none_added else registered)) (sym t)
                          (elim (Bool-cases (host.is_noop validator)) [
                            | inl n ↦
                                subst (λ t. R (if t then (added, some id) else tested)) (sym n)
                                  (inr (inserted, refl, inr (id, refl, t, e)))
                            | inr n ↦
                                subst (λ t. R (if t then (added, some id) else tested)) (sym n)
                                  (elim (Bool-cases (has_index l.idx_to_validator idx)) [
                                    | inl h ↦
                                        subst (λ t. R (if t then none_added else mapped)) (sym h)
                                          stays
                                    | inr h ↦
                                        subst (λ t. R (if t then none_added else mapped)) (sym h)
                                          (inr (inserted, refl, inr (id, refl, t, e)))
                                  ])
                          ])
                  ])
          ]

  pub add_element_and_build_id-Registered :
      (l : SlateLayout M F) (path : P) (x : Metadata) (validator : F)
      → Registered l path x validator (add_element_and_build_id paths host l path x validator)
  unfolding add_element_and_build_id
  add_element_and_build_id-Registered l path x validator =
      let R : SlateLayout M F × Option ℕ → Type 0 = Registered l path x validator in
      let stays : R (l, none) = inl (refl, refl) in
      let inserts : Option M → SlateLayout M F × Option ℕ = (λ o. elim o [
        | none ↦ (l, none)
        | some elements ↦
            let added = record l { elements = elements } in
            elim (host.slate_id_buildup (not (x.shard == host.shard_static))
              (not (host.is_noop validator)) x.shard x.value_offset
              (paths.iterator_to_id elements path)) [
                | none ↦ (added, none)
                | some id ↦
                    if not (host.slate_id_is_valid id)
                    then (added, none)
                    else register_validator paths host added (paths.iterator_to_id elements path)
                        validator id
              ]
      ]) in
      elim (Bool-cases (allocate_path paths host path)) [
        | inr f ↦
            subst (λ t. R (if not t then (l, none) else inserts (paths.insert l.elements path x)))
              (sym f) stays
        | inl t ↦
            subst (λ t. R (if not t then (l, none) else inserts (paths.insert l.elements path x)))
              (sym t)
              (elim (Option-cases (paths.insert l.elements path x)) [
                | inl e ↦ subst (λ o. R (inserts o)) (sym e) stays
                | inr (elements, e) ↦
                    subst (λ o. R (inserts o)) (sym e) (add_inserted l path x validator elements e)
              ])
      ]

  -- Registering keeps the occupancy, if the element is a view or its space is vacant.
  pub add_element_and_build_id-Occupied :
      (laws : MapLaws paths) (l : SlateLayout M F) (path : P) (x : Metadata) (validator : F)
      → Occupied paths l.elements l.shards
      → (x.is_view_element ≡ true)
        ⊎ Vacant paths l.elements l.shards x.shard x.value_offset x.value_size
      → let (l', o) = add_element_and_build_id paths host l path x validator in
        Occupied paths l'.elements l'.shards
  add_element_and_build_id-Occupied laws l path x validator o ok =
      elim (add_element_and_build_id-Registered l path x validator) [
        | inl (same, _) ↦ subst (λ l. Occupied paths l.elements l.shards) (sym same) o
        | inr (inserted, same, _) ↦
            let (l', id) = add_element_and_build_id paths host l path x validator in
            subst (Occupied paths l'.elements) (sym same)
              (Occupied-insert paths laws l.elements l'.elements l.shards o path x inserted ok)
      ]
