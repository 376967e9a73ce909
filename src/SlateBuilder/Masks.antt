-- ===== src/SlateBuilder/Masks.antt =====
-- SlateBuilder.cc: what a sub-slate keeps of the masks and the permissions of its parent.
use codon.Prelude.{
  ◌≡◌, sym, ap, subst, ◌∙◌, ◌⊎◌, inl, inr, true, false, List, [], ◌∷◌, arith, Bool-cases,
  if◌then◌else◌,
}
use codon.SlateLayout.Access.{is_some}
use codon.SlateBuilder.Builder.{Paths, masks_path, has, insert, insert_joined, insert_below}

module _ {P : Type 0} (v : Paths P) where
  open v use {eq, join, rel}

  -- The second path is at or below the first.
  abbrev pub Below : P → P → Type 0
  Below a b = is_some (rel a b) ≡ true

  -- Paths are a tree: two paths above the same path are one above the other.
  pub record Tree : Type 0 where
    pub rel_refl : (a : P) → Below a a
    pub rel_line : (a b c : P) → Below a c → Below b c → Below a b ⊎ Below b a
    pub join_below : (a b : P) → Below a (join a b)
    pub eq_true : (a b : P) → eq a b ≡ true → a ≡ b

  head_masks :
      (m : P) (rest : List P) (path : P) → Below m path → masks_path v (m ∷ rest) path ≡ true
  head_masks m rest path h = ap (λ b. if b then true else masks_path v rest path) h

  tail_masks :
      (m : P) (rest : List P) (path : P)
      → masks_path v rest path ≡ true
      → masks_path v (m ∷ rest) path ≡ true
  tail_masks m rest path h = ground arith

  either_masks :
      (m : P) (rest : List P) (path : P)
      → masks_path v (m ∷ rest) path ≡ true
      → Below m path ⊎ (masks_path v rest path ≡ true)
  either_masks m rest path h = elim (Bool-cases (is_some (rel m path))) [
    | inl e ↦ inl e
    | inr e ↦ inr (sym (ap (λ b. if b then true else masks_path v rest path) e) ∙ h)
  ]

  no_masks :
      (m : P) (rest : List P) (path : P)
      → masks_path v (m ∷ rest) path ≡ false
      → (¬ Below m path) × (masks_path v rest path ≡ false)
  no_masks m rest path h = (
    (λ b. absurd (cc (h, head_masks m rest path b))),
    elim (Bool-cases (masks_path v rest path)) [
      | inl e ↦ absurd (cc (h, tail_masks m rest path e))
      | inr e ↦ e
    ],
  )

  module _ (t : Tree) where
    has_masks :
        (p : P) (set : List P) (path : P)
        → has v p set ≡ true
        → Below p path
        → masks_path v set path ≡ true
    has_masks p [] path h b = absurd (cc h)
    has_masks p (q ∷ rest) path h b = elim (Bool-cases (eq p q)) [
      | inl e ↦ head_masks q rest path (subst (λ q. Below q path) (t.eq_true p q e) b)
      | inr e ↦
          tail_masks q rest path
            (has_masks p rest path (sym (ap (λ b. if b then true else has v p rest) e) ∙ h) b)
    ]

    insert_masks :
        (p : P) (set : List P) (path : P) → Below p path → masks_path v (insert v p set) path ≡ true
    insert_masks p set path b = elim (Bool-cases (has v p set)) [
      | inl e ↦
          ap (λ h. masks_path v (if h then set else p ∷ set) path) e ∙ has_masks p set path e b
      | inr e ↦ ap (λ h. masks_path v (if h then set else p ∷ set) path) e ∙ head_masks p set path b
    ]

    insert_keeps :
        (p : P) (set : List P) (path : P)
        → masks_path v set path ≡ true
        → masks_path v (insert v p set) path ≡ true
    insert_keeps p set path h = elim (Bool-cases (has v p set)) [
      | inl e ↦ ap (λ b. masks_path v (if b then set else p ∷ set) path) e ∙ h
      | inr e ↦ ap (λ b. masks_path v (if b then set else p ∷ set) path) e ∙ tail_masks p set path h
    ]

    pub insert_below_keeps :
        (subtree : P) (l set : List P) (path : P)
        → masks_path v set path ≡ true
        → masks_path v (insert_below v subtree l set) path ≡ true
    insert_below_keeps subtree [] set path h = h
    insert_below_keeps subtree (m ∷ rest) set path h = elim (Bool-cases (is_some (rel subtree m))) [
      | inl e ↦
          insert_below_keeps subtree rest (if is_some (rel subtree m) then insert v m set else set)
            path
            (ap (λ b. masks_path v (if b then insert v m set else set) path) e
              ∙ insert_keeps m set path h)
      | inr e ↦
          insert_below_keeps subtree rest (if is_some (rel subtree m) then insert v m set else set)
            path (ap (λ b. masks_path v (if b then insert v m set else set) path) e ∙ h)
    ]

    -- Masks that are not above the subtree still mask what they mask of it.
    pub insert_below-masks_path :
        (subtree : P) (l set : List P) (path : P)
        → Below subtree path
        → masks_path v l subtree ≡ false
        → masks_path v l path ≡ true
        → masks_path v (insert_below v subtree l set) path ≡ true
    insert_below-masks_path subtree [] set path b free h = absurd (cc h)
    insert_below-masks_path subtree (m ∷ rest) set path b free h =
        let (apart, free') = no_masks m rest subtree free in
        let set' : List P = if is_some (rel subtree m) then insert v m set else set in
        elim (either_masks m rest path h) [
          | inr h' ↦ insert_below-masks_path subtree rest set' path b free' h'
          | inl under ↦ elim (t.rel_line m subtree path under b) [
            | inl above ↦ absurd (apart above)
            | inr e ↦ insert_below_keeps subtree rest set' path (
                ap (λ b. masks_path v (if b then insert v m set else set) path) e
                ∙ insert_masks m set path under)
          ]
        ]

    joined_keeps :
        (subtree : P) (l set : List P) (path : P)
        → masks_path v set path ≡ true
        → masks_path v (insert_joined v subtree l set) path ≡ true
    joined_keeps subtree [] set path h = h
    joined_keeps subtree (m ∷ rest) set path h =
        joined_keeps subtree rest (insert v (join subtree m) set) path
          (insert_keeps (join subtree m) set path h)

    -- The new masks mask their subtrees.
    pub joined_masks :
        (subtree : P) (l set : List P) (m : P)
        → has v m l ≡ true
        → masks_path v (insert_joined v subtree l set) (join subtree m) ≡ true
    joined_masks subtree [] set m h = absurd (cc h)
    joined_masks subtree (q ∷ rest) set m h = elim (Bool-cases (eq m q)) [
      | inl e ↦ joined_keeps subtree rest (insert v (join subtree q) set) (join subtree m) (
          insert_masks (join subtree q) set (join subtree m) (
            subst (λ q. Below (join subtree q) (join subtree m)) (t.eq_true m q e)
              (t.rel_refl (join subtree m))))
      | inr e ↦
          joined_masks subtree rest (insert v (join subtree q) set) m
            (sym (ap (λ b. if b then true else has v m rest) e) ∙ h)
    ]
