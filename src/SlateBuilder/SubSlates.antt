-- ===== src/SlateBuilder/SubSlates.antt =====
-- SlateBuilder::sub_slate: what the new builder may do, against its parent.
use codon.Prelude.{
  ℕ, ◌≡◌, refl, ap, subst, ◌∙◌, inl, inr, true, false, not, List, [], ◌∷◌, none, some, arith,
  Bool-cases, Option-cases, if◌then◌else◌, All,
}
use codon.SlateLayout.Access.{is_some}
use codon.SlateBuilder.Builder.{
  Paths, Stores, Builder, new_builder, masks_path, has, insert, insert_joined, insert_below,
  sub_slate, is_permitted_path,
}
use codon.SlateBuilder.Masks.{
  Below, Tree, insert_below-masks_path, insert_below_keeps, joined_masks,
}

module _ {T P N M F : Type 0} (v : Paths P) (s : Stores T P N M F) where
  open v use {eq, join, rel}
  open s use {
    is_superset, take_subset, get_permission, get_masked_paths, get_subtree_path, sub_store,
  }

  -- The store of a sub-slate has the path, masks, permissions and subsystem that it is made with, and
  -- what is taken of two permissions is in both.
  pub record StoreLaws : Type 0 where
    pub sub_permission :
        (t : T) (p : P) (l : List P) (n : N) (i : ℕ) → get_permission (sub_store t p l n i) ≡ n
    pub sub_masks :
        (t : T) (p : P) (l : List P) (n : N) (i : ℕ) → get_masked_paths (sub_store t p l n i) ≡ l
    pub sub_subtree :
        (t : T) (p : P) (l : List P) (n : N) (i : ℕ) → get_subtree_path (sub_store t p l n i) ≡ p
    pub subset_left : (a b : N) → is_superset a (take_subset a b) ≡ true
    pub subset_right : (a b : N) → is_superset b (take_subset a b) ≡ true

  -- The masks of the new builder, and its store.
  abbrev pub kept_masks : {G : Type 0} → Builder T P G → P → List P → List P
  kept_masks b rel_path masked =
      insert_below v (join (get_subtree_path b.store) rel_path) (get_masked_paths b.store)
        (insert_joined v (join (get_subtree_path b.store) rel_path) masked [])

  abbrev pub made_store : {G : Type 0} → Builder T P G → P → List P → N → ℕ → T
  made_store b rel_path masked n i =
      sub_store b.store (join (get_subtree_path b.store) rel_path) (kept_masks b rel_path masked)
        (take_subset (get_permission b.store) n) i

  made :
      {G : Type 0} (root : P) (b b' : Builder T P G) (rel_path : P) (masked : List P) (n : N)
      (i : ℕ)
      → sub_slate v s root b rel_path masked n i ≡ some b'
      → (b'.store ≡ made_store b rel_path masked n i)
        × (is_superset (get_permission b.store) n ≡ true)
        × (masks_path v (get_masked_paths b.store) rel_path ≡ false)
  unfolding sub_slate
  made root b b' rel_path masked n i h =
      elim (Bool-cases (is_superset (get_permission b.store) n)) [
        | inr e ↦ absurd (ground arith)
        | inl e ↦ elim (Bool-cases (masks_path v (get_masked_paths b.store) rel_path)) [
          | inl m ↦ absurd (ground arith)
          | inr m ↦ elim (Option-cases b.enum_registry) [
            | inl o ↦ (ground arith, e, m)
            | inr (g, o) ↦ (ground arith, e, m)
          ]
        ]
      ]

  masked_refused :
      {G : Type 0} (b : Builder T P G) (path : P)
      → masks_path v (get_masked_paths b.store) path ≡ true
      → is_permitted_path v s b path ≡ false
  unfolding is_permitted_path
  masked_refused b path h = ap not h

  refused_masked :
      {G : Type 0} (b : Builder T P G) (path : P)
      → is_permitted_path v s b path ≡ false
      → masks_path v (get_masked_paths b.store) path ≡ true
  unfolding is_permitted_path
  refused_masked b path h = ground arith

  permits :
      {G : Type 0} (b : Builder T P G) (path : P)
      → get_masked_paths b.store ≡ []
      → is_permitted_path v s b path ≡ true
  unfolding is_permitted_path
  permits b path e = ap (λ l. not (masks_path v l path)) e

  succeeds :
      {G : Type 0} (root : P) (b : Builder T P G) (rel_path : P) (masked : List P) (n : N) (i : ℕ)
      → is_superset (get_permission b.store) n ≡ true
      → masks_path v (get_masked_paths b.store) rel_path ≡ false
      → (b' : Builder T P G) × (sub_slate v s root b rel_path masked n i ≡ some b')
        × (b'.store ≡ made_store b rel_path masked n i)
  unfolding sub_slate
  succeeds root b rel_path masked n i e m = elim (Option-cases b.enum_registry) [
    | inl o ↦ (new_builder (made_store b rel_path masked n i) root none, ground arith, refl)
    | inr (g, o) ↦ (
      new_builder (made_store b rel_path masked n i) (join b.enum_registry_relative_path rel_path)
          (some g),
      ground arith,
      refl,
    )
  ]

  -- What a sub-slate may not do.
  pub record Restricted {G : Type 0} (b b' : Builder T P G) (n : N) (masked : List P) : Type 0 where
    pub of_parent : is_superset (get_permission b.store) (get_permission b'.store) ≡ true
    pub of_grant : is_superset n (get_permission b'.store) ≡ true
    pub new_masks :
        (m : P)
        → has v m masked ≡ true
        → is_permitted_path v s b' (join (get_subtree_path b'.store) m) ≡ false
    pub old_masks :
        (path : P)
        → Below v (get_subtree_path b'.store) path
        → is_permitted_path v s b path ≡ false
        → is_permitted_path v s b' path ≡ false

  module _ (t : Tree v) (l : StoreLaws) where
    masks_of :
        {G : Type 0} (b b' : Builder T P G) (rel_path : P) (masked : List P) (n : N) (i : ℕ)
        → b'.store ≡ made_store b rel_path masked n i
        → get_masked_paths b'.store ≡ kept_masks b rel_path masked
    masks_of b b' rel_path masked n i e = ap get_masked_paths e ∙ l.sub_masks _ _ _ _ _

    subtree_of :
        {G : Type 0} (b b' : Builder T P G) (rel_path : P) (masked : List P) (n : N) (i : ℕ)
        → b'.store ≡ made_store b rel_path masked n i
        → get_subtree_path b'.store ≡ join (get_subtree_path b.store) rel_path
    subtree_of b b' rel_path masked n i e = ap get_subtree_path e ∙ l.sub_subtree _ _ _ _ _

    permission_of :
        {G : Type 0} (b b' : Builder T P G) (rel_path : P) (masked : List P) (n : N) (i : ℕ)
        → b'.store ≡ made_store b rel_path masked n i
        → get_permission b'.store ≡ take_subset (get_permission b.store) n
    permission_of b b' rel_path masked n i e = ap get_permission e ∙ l.sub_permission _ _ _ _ _

    -- A sub-slate that a builder at the root makes has no permission that its parent or the grant has
    -- not, its new masks forbid their paths, and below its path it forbids whatever its parent does.
    pub sub_slate-Restricted :
        {G : Type 0} (root : P) (b b' : Builder T P G) (rel_path : P) (masked : List P) (n : N)
        (i : ℕ)
        → join (get_subtree_path b.store) rel_path ≡ rel_path
        → sub_slate v s root b rel_path masked n i ≡ some b'
        → Restricted b b' n masked
    sub_slate-Restricted root b b' rel_path masked n i at_root h =
        let (e, _, free) = made root b b' rel_path masked n i h in
        let subtree : P = join (get_subtree_path b.store) rel_path in
        let permission = permission_of b b' rel_path masked n i e in
        let masks = masks_of b b' rel_path masked n i e in
        let place = subtree_of b b' rel_path masked n i e in
        record {
          of_parent = ap (is_superset (get_permission b.store)) permission ∙ l.subset_left _ _;
          of_grant = ap (is_superset n) permission ∙ l.subset_right _ _;
          new_masks = λ m there. masked_refused b' (join (get_subtree_path b'.store) m) (
              ap (λ l. masks_path v l (join (get_subtree_path b'.store) m)) masks
              ∙ ap (λ p. masks_path v (kept_masks b rel_path masked) (join p m)) place
              ∙ insert_below_keeps v t subtree (get_masked_paths b.store)
                  (insert_joined v subtree masked []) (join subtree m)
                  (joined_masks v t subtree masked [] m there));
          old_masks = λ path under refused. masked_refused b' path (
              ap (λ l. masks_path v l path) masks
              ∙ insert_below-masks_path v t subtree (get_masked_paths b.store)
                  (insert_joined v subtree masked []) path (subst (λ p. Below v p path) place under)
                  (ap (masks_path v (get_masked_paths b.store)) at_root ∙ free)
                  (refused_masked b path refused));
        }

    no_mask_kept :
        (subtree : P) (masks : List P)
        → All (λ m. is_some (rel subtree m) ≡ false) masks
        → insert_below v subtree masks [] ≡ []
    no_mask_kept subtree [] h = refl
    no_mask_kept subtree (m ∷ rest) (apart, h) =
        ap (λ b. insert_below v subtree rest (if b then insert v m [] else [])) apart
        ∙ no_mask_kept subtree rest h

    -- The masks are held against the path of the sub-slate as it is given, relative to the builder.
    -- Where that path itself is below no mask and no mask is below the place of the sub-slate, a
    -- sub-slate is made that permits every path, even if its place is one that the builder forbids.
    pub sub_slate_forgets :
        {G : Type 0} (root : P) (b : Builder T P G) (rel_path : P) (n : N) (i : ℕ)
        → is_superset (get_permission b.store) n ≡ true
        → masks_path v (get_masked_paths b.store) rel_path ≡ false
        → All
            (λ m. is_some (rel (join (get_subtree_path b.store) rel_path) m) ≡ false)
            (get_masked_paths b.store)
        → is_permitted_path v s b (join (get_subtree_path b.store) rel_path) ≡ false
        → (b' : Builder T P G) × (sub_slate v s root b rel_path [] n i ≡ some b')
          × (get_subtree_path b'.store ≡ join (get_subtree_path b.store) rel_path)
          × ((path : P) → is_permitted_path v s b' path ≡ true)
    sub_slate_forgets root b rel_path n i allowed free apart refused =
        let (b', e, place) = succeeds root b rel_path [] n i allowed free in
        let masks : get_masked_paths b'.store ≡ [] =
          masks_of b b' rel_path [] n i place
          ∙ no_mask_kept (join (get_subtree_path b.store) rel_path) (get_masked_paths b.store)
              apart in
        (b', e, subtree_of b b' rel_path [] n i place, λ path. permits b' path masks)
