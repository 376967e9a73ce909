-- ===== src/SlateLayout/Viewing.antt =====
-- SlateLayout.cc: what `create_view_element` tests before it registers a view.
use codon.Prelude.{
  ℕ, ◌+◌, ◌%◌, ◌<◌, ◌≤◌, ◌≡◌, ap, ◌∙◌, ◌⊎◌, inl, inr, Bool, true, false, not, ◌&&◌, Option, none,
  some, arith, ltb, ◌==◌, if◌then◌else◌, Bool-cases, Option-cases, ==→eq,
}
use codon.SlateLayout.Types.{Metadata, PathMap, Host, SlateLayout, rank, slate_read_only}
use codon.SlateLayout.Buffer.{max_alignment, is_power_of_two}
use codon.SlateLayout.Layout.{
  has_index, add_element_and_build_id, get_element, view_access, create_view_element,
}

module _ {P M F : Type 0} (paths : PathMap P M) (host : Host P F) (l : SlateLayout M F)
    (parent_id parent_type_id element_offset : ℕ) (path : P)
    (type_id value_size alignment subsystem_id : ℕ) where
  abbrev pub view_metadata : Metadata → Metadata
  view_metadata parent = record {
    type_id = type_id;
    shard = parent.shard;
    value_offset = (parent.value_offset + element_offset) % (host.max_offset + 1);
    value_size = value_size % (host.max_offset + 1);
    access_policy = parent.access_policy;
    subsystem_id = subsystem_id;
    is_view_element = true;
  }

  -- What a call that is not refused has made sure of.
  pub record Viewable (parent_path : P) (parent : Metadata) : Type 0 where
    pub positive : 0 < value_size
    pub power : is_power_of_two alignment ≡ true
    pub bounded : alignment ≤ max_alignment
    pub exists_parent :
        get_element paths host l parent_id parent_type_id ≡ some (parent_path, parent)
    pub unvalidated :
        has_index l.idx_to_validator (host.slate_id_index parent_id)
          && ltb (rank slate_read_only) (rank parent.access_policy)
        ≡ false
    pub inside : element_offset + value_size ≤ parent.value_size
    pub multiple : (parent.value_offset + element_offset) % alignment ≡ 0

  unfoldable pub view_registered : Metadata → SlateLayout M F × Option ℕ
  view_registered parent =
      view_access paths host
        (add_element_and_build_id paths host l path (view_metadata parent) host.no_validator)
        parent_id

  no_view : SlateLayout M F × Option ℕ
  no_view = (l, none)

  pub view_cases :
      (create_view_element paths host l parent_id parent_type_id element_offset path type_id
          value_size alignment subsystem_id
        ≡ (l, none))
      ⊎ ((parent_path : P) × (parent : Metadata) × Viewable parent_path parent
          × (create_view_element paths host l parent_id parent_type_id element_offset path type_id
                value_size alignment subsystem_id
              ≡ view_registered parent))
  unfolding create_view_element view_registered no_view
  view_cases =
      let validated : Metadata → Bool = (λ parent.
        has_index l.idx_to_validator (host.slate_id_index parent_id)
        && ltb (rank slate_read_only) (rank parent.access_policy)) in
      let r8 : Metadata → Bool → SlateLayout M F × Option ℕ =
        (λ parent t. if not t then no_view else view_registered parent) in
      let r7 : Metadata → Bool → SlateLayout M F × Option ℕ = (λ parent t.
        if t
        then no_view
        else r8 parent ((parent.value_offset + element_offset) % alignment == 0)) in
      let r6 : Metadata → Bool → SlateLayout M F × Option ℕ = (λ parent t.
        if t then no_view else r7 parent (ltb parent.value_size (element_offset + value_size))) in
      let r5 : Metadata → Bool → SlateLayout M F × Option ℕ =
        (λ parent t. if t then no_view else r6 parent (ltb parent.value_size value_size)) in
      let r4 : Metadata → Bool → SlateLayout M F × Option ℕ =
        (λ parent t. if t then no_view else r5 parent (ltb parent.value_size element_offset)) in
      let r3 : Option (P × Metadata) → SlateLayout M F × Option ℕ = (λ o. elim o [
        | none ↦ no_view
        | some (parent_path, parent) ↦ r4 parent (validated parent)
      ]) in
      let r2 : Bool → SlateLayout M F × Option ℕ =
        (λ t. if t then no_view else r3 (get_element paths host l parent_id parent_type_id)) in
      let r1 : Bool → SlateLayout M F × Option ℕ =
        (λ t. if not t then no_view else r2 (ltb max_alignment alignment)) in
      let r0 : Bool → SlateLayout M F × Option ℕ =
        (λ t. if t then no_view else r1 (is_power_of_two alignment)) in
      elim (Bool-cases (value_size == 0)) [
        | inl t1 ↦ inl (ap r0 t1)
        | inr f1 ↦ elim (Bool-cases (is_power_of_two alignment)) [
          | inr f2 ↦ inl (ap r0 f1 ∙ ap r1 f2)
          | inl t2 ↦ elim (Bool-cases (ltb max_alignment alignment)) [
            | inl t3 ↦ inl (ap r0 f1 ∙ ap r1 t2 ∙ ap r2 t3)
            | inr f3 ↦ elim (Option-cases (get_element paths host l parent_id parent_type_id)) [
              | inl n4 ↦ inl (ap r0 f1 ∙ ap r1 t2 ∙ ap r2 f3 ∙ ap r3 n4)
              | inr ((parent_path, parent), e4) ↦
                  let e = ap r0 f1 ∙ ap r1 t2 ∙ ap r2 f3 ∙ ap r3 e4 in
                  elim (Bool-cases (validated parent)) [
                    | inl t5 ↦ inl (e ∙ ap (r4 parent) t5)
                    | inr f5 ↦ elim (Bool-cases (ltb parent.value_size element_offset)) [
                      | inl t6 ↦ inl (e ∙ ap (r4 parent) f5 ∙ ap (r5 parent) t6)
                      | inr f6 ↦ elim (Bool-cases (ltb parent.value_size value_size)) [
                        | inl t7 ↦
                            inl (e ∙ ap (r4 parent) f5 ∙ ap (r5 parent) f6 ∙ ap (r6 parent) t7)
                        | inr f7 ↦
                            elim (Bool-cases
                              (ltb parent.value_size (element_offset + value_size))) [
                                | inl t8 ↦ inl (
                                    e
                                    ∙ ap (r4 parent) f5
                                    ∙ ap (r5 parent) f6
                                    ∙ ap (r6 parent) f7
                                    ∙ ap (r7 parent) t8)
                                | inr f8 ↦
                                    let e8 =
                                      e
                                      ∙ ap (r4 parent) f5
                                      ∙ ap (r5 parent) f6
                                      ∙ ap (r6 parent) f7
                                      ∙ ap (r7 parent) f8 in
                                    elim (Bool-cases
                                      ((parent.value_offset + element_offset) % alignment == 0)) [
                                        | inr f9 ↦ inl (e8 ∙ ap (r8 parent) f9)
                                        | inl t9 ↦ inr (
                                          parent_path,
                                          parent,
                                          record {
                                            positive = ground arith;
                                            power = t2;
                                            bounded = ground arith;
                                            exists_parent = e4;
                                            unvalidated = f5;
                                            inside = ground arith;
                                            multiple =
                                                ==→eq
                                                  ((parent.value_offset + element_offset)
                                                    % alignment)
                                                  0 t9;
                                          },
                                          e8 ∙ ap (r8 parent) t9,
                                        )
                                      ]
                              ]
                      ]
                    ]
                  ]
            ]
          ]
        ]
      ]
