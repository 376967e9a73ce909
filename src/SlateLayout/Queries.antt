-- ===== src/SlateLayout/Queries.antt =====
-- SlateLayout.cc: the identifiers that `get_element_id` gives.
use codon.Prelude.{
  ℕ, ◌<◌, ◌≡◌, sym, ap, ◌∙◌, inl, inr, Bool, false, not, Option, none, some, arith, ltb, ◌==◌,
  if◌then◌else◌, bind_some, Bool-cases, Option-cases, ◌>>=◌, ==→eq,
}
use codon.SlateLayout.Types.{
  Access, slate_private, slate_read_only, slate_read_write, invalid_access, rank, Metadata, PathMap,
  Host, SlateLayout,
}
use codon.SlateLayout.Layout.{has_index}
use codon.SlateLayout.Access.{max_access, id_by_access, build_element_id, get_element_id}
use codon.SlateLayout.Occupancy.{IdLaws}

module _ {P M F : Type 0} (paths : PathMap P M) (host : Host P F) (ids : IdLaws host) where
  -- What the access says of an identifier.
  abbrev pub Allowed : Access → ℕ → ℕ → Type 0
  Allowed access idx id =
      (host.slate_id_can_write id ≡ ltb (rank slate_read_only) (rank access))
      × (host.slate_id_index id ≡ idx)
      × (0 < rank access)

  id_by_access_lem :
      (access : Access) (has_validator : Bool) (x : Metadata) (idx id : ℕ)
      → id_by_access paths host access has_validator x idx ≡ some id
      → Allowed access idx id
  unfolding id_by_access
  id_by_access_lem slate_private has_validator x idx id e = absurd (cc)
  id_by_access_lem slate_read_only has_validator x idx id e = (
    ids.slate_id_can_write-slate_id_buildup _ _ _ _ _ _ e,
    ids.slate_id_index-slate_id_buildup _ _ _ _ _ _ e,
    omega arith,
  )
  id_by_access_lem slate_read_write has_validator x idx id e = (
    ids.slate_id_can_write-slate_id_buildup _ _ _ _ _ _ e,
    ids.slate_id_index-slate_id_buildup _ _ _ _ _ _ e,
    omega arith,
  )
  id_by_access_lem invalid_access has_validator x idx id e = absurd (cc)

  -- An identifier is given only for the right type and for an access that is not private, and may write
  -- exactly if the element's policy or the elevation is to read and write.
  pub get_element_id_lem :
      (l : SlateLayout M F) (path : P) (x : Metadata) (type_id : ℕ) (access_elevation : Access)
      (id : ℕ)
      → paths.find l.elements path ≡ some x
      → get_element_id paths host l path type_id access_elevation ≡ some id
      → (x.type_id ≡ type_id)
        × Allowed
            (max_access x.access_policy access_elevation)
            (paths.iterator_to_id l.elements path)
            id
  unfolding get_element_id build_element_id
  get_element_id_lem l path x type_id access_elevation id there call =
      let idx = paths.iterator_to_id l.elements path in
      let last : ℕ → Option ℕ = (λ _.
        id_by_access paths host (max_access x.access_policy access_elevation)
          (has_index l.idx_to_validator idx) x idx) in
      let build : Option ℕ = host.slate_id_buildup false false x.shard x.value_offset idx in
      let known : Metadata → Option ℕ = (λ _. build >>= last) in
      let typed : Metadata → Option ℕ = (λ m.
        if not (m.type_id == type_id)
        then none
        else build_element_id paths host l path m access_elevation) in
      let start : (if not (x.type_id == type_id)
            then none
            else build_element_id paths host l path x access_elevation)
          ≡ some id =
        sym (bind_some typed there) ∙ call in
      elim (Bool-cases (x.type_id == type_id)) [
        | inr f ↦
            let e : none ≡ some id =
              sym (
                ap
                  (λ t.
                    if not t then none else build_element_id paths host l path x access_elevation)
                  f)
              ∙ start in
            absurd (cc)
        | inl t ↦
            let e1 : build >>= last ≡ some id =
              sym (bind_some known there)
              ∙ sym (
                  ap
                    (λ t.
                      if not t then none else build_element_id paths host l path x access_elevation)
                    t)
              ∙ start in
            elim (Option-cases build) [
              | inl n ↦ let e : none ≡ some id = sym (ap (λ o. o >>= last) n) ∙ e1 in absurd (cc)
              | inr (i, n) ↦ (
                ==→eq x.type_id type_id t,
                id_by_access_lem (max_access x.access_policy access_elevation)
                    (has_index l.idx_to_validator idx) x idx id (sym (bind_some last n) ∙ e1),
              )
            ]
      ]
