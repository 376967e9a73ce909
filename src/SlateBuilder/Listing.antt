-- ===== src/SlateBuilder/Listing.antt =====
-- SlateBuilder.cc: which elements a builder gives access to, and which it lists.
use codon.Prelude.{
  ℕ, ◌≡◌, refl, sym, ap, ◌⊎◌, inl, inr, ◌↔◌, true, false, List, [], ◌∷◌, none, some, arith,
  Bool-cases, Option-cases,
}
use codon.SlateLayout.Types.{Metadata, PathMap, Host}
use codon.SlateLayout.Access.{build_element_id}
use codon.SlateBuilder.Builder.{
  Paths, Stores, Builder, ElementKey, full_path, is_permitted_path, visible_access, is_private,
  path_set_of, compute_path_set, builder_element_id, builder_element_type, builder_path_exists,
  builder_element_exists, require_permitted_path,
}

module _ {T P N M F : Type 0} (v : Paths P) (s : Stores T P N M F) (paths : PathMap P M)
    (host : Host P F) (get_elements : M → List (P × Metadata)) where
  open v use {eq, join, rel}
  open s use {get_subtree_path, store_layout}

  -- A path that the builder does not permit gives no identifier and no type, and does not exist for it.
  pub is_permitted_path_refuses :
      {G : Type 0} (b : Builder T P G) (path : P) (type_id : ℕ)
      → is_permitted_path v s b (full_path v s b path) ≡ false
      → (builder_element_id v s b path type_id ≡ none)
        × (builder_element_type v s paths host get_elements b path ≡ none)
        × (builder_path_exists v s paths host get_elements b path ≡ false)
        × (builder_element_exists v s paths host get_elements b path type_id ≡ false)
  unfolding builder_element_id builder_element_type builder_path_exists builder_element_exists
      is_permitted_path require_permitted_path
  is_permitted_path_refuses b path type_id h =
      (ground arith, ground arith, ground arith, ground arith)

  -- The listed key of an element, of its type, with the identifier that the layout builds for it.
  pub record Lists {G : Type 0} (b : Builder T P G) (path : P) (metadata : Metadata)
      (k : ElementKey P) : Type 0 where
    pub seen : is_private (visible_access v s paths host get_elements b metadata) ≡ false
    pub named : rel (get_subtree_path b.store) path ≡ some k.path
    pub typed : k.type_id ≡ metadata.type_id
    pub built :
        build_element_id paths host
          (store_layout b.store)
          path
          metadata
          (visible_access v s paths host get_elements b metadata)
        ≡ some k.element_id

  abbrev pub Hidden : {G : Type 0} → Builder T P G → P → Metadata → Type 0
  Hidden b path metadata =
      (is_private (visible_access v s paths host get_elements b metadata) ≡ true)
      ⊎ (rel (get_subtree_path b.store) path ≡ none)

  -- The keys of the elements that are not hidden, in the order of the elements.
  abbrev pub AllListed :
      {G : Type 0} → Builder T P G → List (P × Metadata) → List (ElementKey P) → Type 0
  AllListed b [] keys = keys ≡ []
  AllListed b ((path, metadata) ∷ elements) keys =
      (Hidden b path metadata × AllListed b elements keys)
      ⊎ ((k : ElementKey P) × (rest : List (ElementKey P)) × Lists b path metadata k
          × (keys ≡ k ∷ rest)
          × AllListed b elements rest)

  listed :
      {G : Type 0} (b : Builder T P G) (elements : List (P × Metadata)) (keys : List (ElementKey P))
      → path_set_of v s paths host get_elements b elements ≡ some keys
      → AllListed b elements keys
  unfolding path_set_of
  listed b [] keys h = cc
  listed b ((path, m) ∷ elements) keys h =
      elim (Bool-cases (is_private (visible_access v s paths host get_elements b m))) [
        | inl e ↦ inl (inl e, listed b elements keys (ground arith))
        | inr e ↦ elim (Option-cases (rel (get_subtree_path b.store) path)) [
          | inl r ↦ inl (inr r, listed b elements keys (ground arith))
          | inr (name, r) ↦
              elim (Option-cases (
                build_element_id paths host (store_layout b.store) path m
                  (visible_access v s paths host get_elements b m))) [
                    | inl i ↦ absurd (ground arith)
                    | inr (id, i) ↦
                        elim (Option-cases (path_set_of v s paths host get_elements b elements)) [
                          | inl n ↦ absurd (ground arith)
                          | inr (rest, n) ↦ inr (
                            record { path = name; type_id = m.type_id; element_id = id },
                            rest,
                            record { seen = e; named = r; typed = refl; built = i },
                            ground arith,
                            listed b elements rest n,
                          )
                        ]
                  ]
        ]
      ]

  computed :
      {G : Type 0} (b : Builder T P G) (elements : List (P × Metadata)) (keys : List (ElementKey P))
      → AllListed b elements keys
      → path_set_of v s paths host get_elements b elements ≡ some keys
  unfolding path_set_of
  computed b [] keys h = ap some (sym h)
  computed b ((path, m) ∷ elements) keys (inl (inl e, h)) =
      let rest = computed b elements keys h in ground arith
  computed b ((path, m) ∷ elements) keys (inl (inr r, h)) =
      let rest = computed b elements keys h in
      elim (Bool-cases (is_private (visible_access v s paths host get_elements b m))) [
        | inl e ↦ ground arith
        | inr e ↦ ground arith
      ]
  computed b ((path, m) ∷ elements) keys (inr (k, ks, l, e, h)) =
      let rest = computed b elements ks h in ground (arith, l.seen, l.named, l.typed, l.built)

  -- compute_path_set gives the keys of the elements that are not private and lie in the builder's
  -- subtree, masked or not, in the order of the elements, each with its path in the subtree, its
  -- type, and the identifier that the layout builds for it; it fails only where there are no such
  -- keys.
  pub compute_path_set_iff :
      {G : Type 0} (b : Builder T P G) (keys : List (ElementKey P))
      → (compute_path_set v s paths host get_elements b ≡ some keys)
        ↔ AllListed b (get_elements (store_layout b.store).elements) keys
  unfolding compute_path_set
  compute_path_set_iff b keys = (
    listed b (get_elements (store_layout b.store).elements) keys,
    computed b (get_elements (store_layout b.store).elements) keys,
  )
