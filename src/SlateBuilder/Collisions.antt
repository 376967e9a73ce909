-- ===== src/SlateBuilder/Collisions.antt =====
-- SlateBuilder::names_distinct: it finds the names that are there twice.
use codon.Prelude.{
  ◌≡◌, refl, ap, subst, inl, inr, ◌↔◌, true, List, [], ◌∷◌, ◌++◌, some, arith, Bool-cases,
  Option-cases, All,
}
use codon.SlateLayout.Types.{Metadata, PathMap, Host}
use codon.SlateLayout.Access.{is_some}
use codon.SlateBuilder.Builder.{
  Paths, Stores, Builder, ElementKey, insert_names, insert_builders, names_distinct,
  compute_path_set,
}
use codon.SlateBuilder.Names.{
  names_of, Distinct, Fresh, onto, Fresh-Distinct, Distinct-Fresh, none_in_empty, Fresh-append,
  append-Fresh, insert_names-Fresh, Fresh-insert_names,
}

module _ {T P N M F : Type 0} (v : Paths P) (s : Stores T P N M F) (paths : PathMap P M)
    (host : Host P F) (get_elements : M → List (P × Metadata)) where
  open s use {is_super_store, is_built_store}

  abbrev pub IsReady : {G : Type 0} → Builder T P G → Type 0
  IsReady b = (is_built_store b.store ≡ true) × (is_super_store b.store ≡ true)

  -- The names of all elements of the builders, one after another.
  abbrev pub AllNames : {G : Type 0} → List (Builder T P G) → List P → Type 0
  AllNames [] names = names ≡ []
  AllNames (b ∷ bs) names =
      (keys : List (ElementKey P)) × (rest : List P) × (compute_path_set v s paths host get_elements
          b
        ≡ some keys)
      × AllNames bs rest
      × (names ≡ names_of v keys ++ rest)

  insert_builders-Fresh :
      {G : Type 0} (bs : List (Builder T P G)) (set out : List P)
      → insert_builders v s paths host get_elements bs set ≡ some out
      → All IsReady bs × ((names : List P) × AllNames bs names × Fresh v set names)
  unfolding insert_builders
  insert_builders-Fresh [] set out h = (tt, ([], refl, tt))
  insert_builders-Fresh (b ∷ bs) set out h = elim (Bool-cases (is_built_store b.store)) [
    | inr e ↦ absurd (ground arith)
    | inl e ↦ elim (Bool-cases (is_super_store b.store)) [
      | inr u ↦ absurd (ground arith)
      | inl u ↦ elim (Option-cases (compute_path_set v s paths host get_elements b)) [
        | inl c ↦ absurd (ground arith)
        | inr (keys, c) ↦ elim (Option-cases (insert_names v keys set)) [
          | inl n ↦ absurd (ground arith)
          | inr (set', n) ↦
              let (fresh, grown) = insert_names-Fresh v keys set set' n in
              let again : insert_builders v s paths host get_elements bs set' ≡ some out =
                ground arith in
              let (ready, (rest, all, more)) = insert_builders-Fresh bs set' out again in
              (
                ((e, u), ready),
                (
                  names_of v keys ++ rest,
                  (keys, rest, c, all, refl),
                  append-Fresh v set (names_of v keys) rest fresh
                      (subst (λ l. Fresh v l rest) grown more),
                ),
              )
        ]
      ]
    ]
  ]

  Fresh-insert_builders :
      {G : Type 0} (bs : List (Builder T P G)) (set names : List P)
      → All IsReady bs
      → AllNames bs names
      → Fresh v set names
      → is_some (insert_builders v s paths host get_elements bs set) ≡ true
  unfolding insert_builders
  Fresh-insert_builders [] set names ready all fresh = refl
  Fresh-insert_builders (b ∷ bs) set names ((e, u), ready) (keys, rest, c, all, same) fresh =
      let (one, more) =
        Fresh-append v set (names_of v keys) rest (subst (λ l. Fresh v set l) same fresh) in
      let n : insert_names v keys set ≡ some (onto v (names_of v keys) set) =
        Fresh-insert_names v keys set one in
      let later = Fresh-insert_builders bs (onto v (names_of v keys) set) rest ready all more in
      ground (arith, e, u, c, n, later)

  -- Of a list of builders that is not empty, names_distinct is true exactly if all are built and super
  -- builders, their elements can be listed, and among the names of all their elements, in the order of
  -- the builders, none equals one before it.
  pub names_distinct_iff :
      {G : Type 0} (b : Builder T P G) (bs : List (Builder T P G))
      → (names_distinct v s paths host get_elements (b ∷ bs) ≡ true)
        ↔ (All IsReady (b ∷ bs) × ((names : List P) × AllNames (b ∷ bs) names × Distinct v names))
  unfolding names_distinct
  names_distinct_iff b bs = (
    λ h. elim (Option-cases (insert_builders v s paths host get_elements (b ∷ bs) [])) [
      | inl e ↦ absurd (cc (h, ap is_some e))
      | inr (out, e) ↦
          let (ready, (names, all, fresh)) = insert_builders-Fresh (b ∷ bs) [] out e in
          (ready, (names, all, (Fresh-Distinct v [] names fresh).0))
    ],
    λ (ready, (names, all, distinct)).
        Fresh-insert_builders (b ∷ bs) [] names ready all
          (Distinct-Fresh v [] names distinct (none_in_empty v names)),
  )
