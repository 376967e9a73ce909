-- ===== src/SlateLayout/Allocation.antt =====
-- SlateLayout.cc: what `allocate_element` does to the layout, and what it gives.
use native.Mathlib.Nat.{mod-eq_of_lt}
use codon.Prelude.{
  ℕ, ◌+◌, ◌-◌, ◌%◌, ◌<◌, ◌≤◌, ◌≡◌, ap, ◌∙◌, ◌⊎◌, inl, inr, Bool, true, false, not, Option, none,
  some, arith, ltb, ◌==◌, if◌then◌else◌, guard, Bool-cases, Option-cases, get_elem?, set,
  get_elem?-set_self, lt-length_of_get_elem?,
}
use codon.SlateLayout.Types.{Access, Metadata, Shard, PathMap, Host, SlateLayout, rank}
use codon.SlateLayout.Buffer.{max_alignment, is_power_of_two}
use codon.SlateLayout.Carving.{Divides, within, cover}
use codon.SlateLayout.Space.{find_space}
use codon.SlateLayout.Finding.{find_space_lem}
use codon.SlateLayout.Layout.{register_element, allocate_element}
use codon.SlateLayout.Occupancy.{Occupied, Vacant, Vacant-find_space, Occupied-find_space}

-- The last byte of a value is in the shard, so the value is.
within_end :
    (v n size c : ℕ) → 0 < n → within v n (v + n - 1) + c ≤ within 0 size (v + n - 1) → v + n ≤ size
within_end v n size c pos h = ground arith

module _ {P M F : Type 0} (paths : PathMap P M) (host : Host P F) (l : SlateLayout M F) (path : P)
    (type_id value_size alignment shard : ℕ) (access_policy : Access) (validator : F)
    (subsystem_id : ℕ) where
  -- The metadata of the element, for the space found.
  abbrev pub new_metadata : ℕ → Metadata
  new_metadata value_offset = record {
    type_id = type_id;
    shard = shard;
    value_offset = value_offset % (host.max_offset + 1);
    value_size = value_size % (host.max_offset + 1);
    access_policy = access_policy;
    subsystem_id = subsystem_id;
    is_view_element = false;
  }

  abbrev pub with_shard : Shard → SlateLayout M F
  with_shard s = record l { shards = set l.shards shard s }

  -- The arguments that get past the tests, for a shard of the state `s`.
  pub record Admitted (s : Shard) : Type 0 where
    pub positive : 0 < value_size
    pub power : is_power_of_two alignment ≡ true
    pub bounded : alignment ≤ max_alignment
    pub fits : alignment ≤ value_size
    pub exists_shard : get_elem? l.shards shard ≡ some s
    pub policy : rank access_policy ≤ rank (l.shard_policy shard)

  placed : Shard → SlateLayout M F × Option (ℕ × ℕ)
  placed s =
      let (s', found) = find_space host.max_offset s value_size alignment in
      let l' = record l { shards = set l.shards shard s' } in
      elim found [
        | none ↦ (l', none)
        | some value_offset ↦
            register_element paths host l' path (new_metadata value_offset) validator value_offset
      ]

  refused : SlateLayout M F × Option (ℕ × ℕ)
  refused = (l, none)

  -- An admitted call places the element in the space that is found.
  allocate_placed :
      (s : Shard)
      → Admitted s
      → allocate_element paths host l path type_id value_size alignment shard access_policy
          validator subsystem_id
        ≡ placed s
  unfolding allocate_element placed refused
  allocate_placed s a =
      let r4 : Option Shard → SlateLayout M F × Option (ℕ × ℕ) = (λ o. elim o [
        | none ↦ refused
        | some s ↦
            if ltb (rank (l.shard_policy shard)) (rank access_policy) then refused else placed s
      ]) in
      let r3 : SlateLayout M F × Option (ℕ × ℕ) =
        if ltb value_size alignment then refused else r4 (get_elem? l.shards shard) in
      let r2 : SlateLayout M F × Option (ℕ × ℕ) =
        if ltb max_alignment alignment then refused else r3 in
      let r1 : SlateLayout M F × Option (ℕ × ℕ) =
        if not (is_power_of_two alignment) then refused else r2 in
      let t1 : (value_size == 0) ≡ false = ground (arith, a.positive) in
      let t3 : ltb max_alignment alignment ≡ false = ground (arith, a.bounded) in
      let t4 : ltb value_size alignment ≡ false = ground (arith, a.fits) in
      let t5 : ltb (rank (l.shard_policy shard)) (rank access_policy) ≡ false =
        ground (arith, a.policy) in
      ap (λ t. if t then refused else r1) t1
      ∙ guard refused r2 a.power
      ∙ ap (λ t. if t then refused else r3) t3
      ∙ ap (λ t. if t then refused else r4 (get_elem? l.shards shard)) t4
      ∙ ap r4 a.exists_shard
      ∙ ap (λ t. if t then refused else placed s) t5

  -- Any other call is refused.
  pub allocate_cases :
      (allocate_element paths host l path type_id value_size alignment shard access_policy validator
          subsystem_id
        ≡ (l, none))
      ⊎ ((s : Shard) × Admitted s)
  unfolding allocate_element placed refused
  allocate_cases =
      let r5 : Shard → SlateLayout M F × Option (ℕ × ℕ) = (λ s.
        if ltb (rank (l.shard_policy shard)) (rank access_policy) then refused else placed s) in
      let r4 : Option Shard → SlateLayout M F × Option (ℕ × ℕ) =
        (λ o. elim o [ none ↦ refused | some s ↦ r5 s ]) in
      let r3 : Bool → SlateLayout M F × Option (ℕ × ℕ) =
        (λ t. if t then refused else r4 (get_elem? l.shards shard)) in
      let r2 : Bool → SlateLayout M F × Option (ℕ × ℕ) =
        (λ t. if t then refused else r3 (ltb value_size alignment)) in
      let r1 : Bool → SlateLayout M F × Option (ℕ × ℕ) =
        (λ t. if not t then refused else r2 (ltb max_alignment alignment)) in
      let r0 : Bool → SlateLayout M F × Option (ℕ × ℕ) =
        (λ t. if t then refused else r1 (is_power_of_two alignment)) in
      elim (Bool-cases (value_size == 0)) [
        | inl t1 ↦ inl (ap r0 t1)
        | inr f1 ↦ elim (Bool-cases (is_power_of_two alignment)) [
          | inr f2 ↦ inl (ap r0 f1 ∙ ap r1 f2)
          | inl t2 ↦ elim (Bool-cases (ltb max_alignment alignment)) [
            | inl t3 ↦ inl (ap r0 f1 ∙ ap r1 t2 ∙ ap r2 t3)
            | inr f3 ↦ elim (Bool-cases (ltb value_size alignment)) [
              | inl t4 ↦ inl (ap r0 f1 ∙ ap r1 t2 ∙ ap r2 f3 ∙ ap r3 t4)
              | inr f4 ↦ elim (Option-cases (get_elem? l.shards shard)) [
                | inl n5 ↦ inl (ap r0 f1 ∙ ap r1 t2 ∙ ap r2 f3 ∙ ap r3 f4 ∙ ap r4 n5)
                | inr (s, e5) ↦
                    elim (Bool-cases (ltb (rank (l.shard_policy shard)) (rank access_policy))) [
                      | inl t6 ↦ inl (
                          ap r0 f1
                          ∙ ap r1 t2
                          ∙ ap r2 f3
                          ∙ ap r3 f4
                          ∙ ap r4 e5
                          ∙ ap (λ t. if t then refused else placed s) t6)
                      | inr f6 ↦ inr (
                        s,
                        record {
                          positive = ground arith;
                          power = t2;
                          bounded = ground arith;
                          fits = ground arith;
                          exists_shard = e5;
                          policy = ground arith;
                        },
                      )
                    ]
              ]
            ]
          ]
        ]
      ]

  -- What finding space gives for an admitted call.
  pub record Placed (s' : Shard) (value_offset : ℕ) : Type 0 where
    pub registers :
        allocate_element paths host l path type_id value_size alignment shard access_policy
          validator subsystem_id
        ≡ register_element paths host
            (with_shard s')
            path
            (new_metadata value_offset)
            validator
            value_offset
    pub aligned : Divides alignment value_offset
    pub whole : value_offset + value_size ≤ s'.size
    pub small : s'.size ≤ host.max_offset
    pub offset_exact : value_offset % (host.max_offset + 1) ≡ value_offset
    pub size_exact : value_size % (host.max_offset + 1) ≡ value_size
    pub occupied : Occupied paths l.elements (set l.shards shard s')
    pub vacant : Vacant paths l.elements (set l.shards shard s') shard value_offset value_size

  pub allocate_element-Placed :
      (s : Shard)
      → Admitted s
      → s.size + 31 + value_size ≤ host.max_offset
      → Occupied paths l.elements l.shards
      → (s' : Shard) × (value_offset : ℕ) × Placed s' value_offset
  unfolding placed
  allocate_element-Placed s a room o =
      let place : Shard × Option ℕ → SlateLayout M F × Option (ℕ × ℕ) = (λ p.
        let (s', found) = p in
        elim found [
          | none ↦ (with_shard s', none)
          | some value_offset ↦
              register_element paths host (with_shard s') path (new_metadata value_offset) validator
                value_offset
        ]) in
      let (s', value_offset, e, found) =
        find_space_lem host.max_offset s value_size alignment a.power a.bounded a.positive a.fits
          room (o.shard_sound shard s a.exists_shard) in
      let vacant =
        Vacant-find_space paths l.elements l.shards o shard s s' a.exists_shard value_offset
          value_size alignment found in
      let whole : value_offset + value_size ≤ s'.size =
        within_end value_offset value_size s'.size
          (cover s'.free_list (value_offset + value_size - 1)) a.positive
          (vacant.inside s'
            (get_elem?-set_self l.shards shard s'
              (lt-length_of_get_elem? l.shards shard a.exists_shard))
            (value_offset + value_size - 1)) in
      (
        s',
        value_offset,
        record {
          registers = allocate_placed s a ∙ ap place e;
          aligned = found.aligned;
          whole = whole;
          small = omega (arith, found.slow);
          offset_exact = mod-eq_of_lt (omega (arith, found.slow));
          size_exact = mod-eq_of_lt (omega arith);
          occupied =
              Occupied-find_space paths l.elements l.shards o shard s s' a.exists_shard value_offset
                value_size alignment found;
          vacant = vacant;
        },
      )
