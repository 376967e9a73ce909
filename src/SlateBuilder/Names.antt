-- ===== src/SlateBuilder/Names.antt =====
-- SlateBuilder::names_distinct: sets of names, and lists without a name that is there twice.
use codon.Prelude.{
  ◌≡◌, refl, sym, ap, ◌∙◌, inl, inr, ◌↔◌, false, List, [], ◌∷◌, ◌++◌, none, some, arith, Bool-cases,
  if◌then◌else◌, All,
}
use codon.SlateBuilder.Builder.{Paths, ElementKey, has, insert_names}

module _ {P : Type 0} (v : Paths P) where
  open v use {eq, join, rel}

  abbrev pub names_of : List (ElementKey P) → List P
  names_of [] = []
  names_of (k ∷ ks) = k.path ∷ names_of ks

  -- No name equals one before it.
  abbrev pub Distinct : List P → Type 0
  Distinct [] = Unit
  Distinct (p ∷ ps) = All (λ q. eq q p ≡ false) ps × Distinct ps

  -- No name is in the set or equals one before it.
  abbrev pub Fresh : List P → List P → Type 0
  Fresh set [] = Unit
  Fresh set (p ∷ ps) = (has v p set ≡ false) × Fresh (p ∷ set) ps

  abbrev pub onto : List P → List P → List P
  onto [] set = set
  onto (p ∷ ps) set = onto ps (p ∷ set)

  has_cons :
      (q p : P) (set : List P)
      → (has v q (p ∷ set) ≡ false) ↔ ((eq q p ≡ false) × (has v q set ≡ false))
  has_cons q p set = ground arith

  split :
      (p : P) (set ps : List P)
      → All (λ q. has v q (p ∷ set) ≡ false) ps
      → All (λ q. eq q p ≡ false) ps × All (λ q. has v q set ≡ false) ps
  split p set [] h = (tt, tt)
  split p set (q ∷ ps) (h, hs) =
      let (a, b) = (has_cons q p set).0 h in let (c, d) = split p set ps hs in ((a, c), (b, d))

  both_absent :
      (p : P) (set ps : List P)
      → All (λ q. eq q p ≡ false) ps
      → All (λ q. has v q set ≡ false) ps
      → All (λ q. has v q (p ∷ set) ≡ false) ps
  both_absent p set [] a b = tt
  both_absent p set (q ∷ ps) (a, c) (b, d) = ((has_cons q p set).1 (a, b), both_absent p set ps c d)

  pub Fresh-Distinct :
      (set ps : List P) → Fresh set ps → Distinct ps × All (λ q. has v q set ≡ false) ps
  Fresh-Distinct set [] h = (tt, tt)
  Fresh-Distinct set (p ∷ ps) (h, hs) =
      let (d, a) = Fresh-Distinct (p ∷ set) ps hs in
      let (x, y) = split p set ps a in ((x, d), (h, y))

  pub Distinct-Fresh :
      (set ps : List P) → Distinct ps → All (λ q. has v q set ≡ false) ps → Fresh set ps
  Distinct-Fresh set [] d a = tt
  Distinct-Fresh set (p ∷ ps) (x, d) (h, y) =
      (h, Distinct-Fresh (p ∷ set) ps d (both_absent p set ps x y))

  pub none_in_empty : (ps : List P) → All (λ q. has v q [] ≡ false) ps
  none_in_empty [] = tt
  none_in_empty (p ∷ ps) = (refl, none_in_empty ps)

  pub Fresh-append :
      (set xs ys : List P) → Fresh set (xs ++ ys) → Fresh set xs × Fresh (onto xs set) ys
  Fresh-append set [] ys h = (tt, h)
  Fresh-append set (x ∷ xs) ys (h, hs) = let (a, b) = Fresh-append (x ∷ set) xs ys hs in ((h, a), b)

  pub append-Fresh :
      (set xs ys : List P) → Fresh set xs → Fresh (onto xs set) ys → Fresh set (xs ++ ys)
  append-Fresh set [] ys h k = k
  append-Fresh set (x ∷ xs) ys (h, hs) k = (h, append-Fresh (x ∷ set) xs ys hs k)

  pub insert_names-Fresh :
      (ks : List (ElementKey P)) (set out : List P)
      → insert_names v ks set ≡ some out
      → Fresh set (names_of ks) × (out ≡ onto (names_of ks) set)
  unfolding insert_names
  insert_names-Fresh [] set out h = (tt, cc)
  insert_names-Fresh (k ∷ ks) set out h = elim (Bool-cases (has v k.path set)) [
    | inl e ↦ absurd (cc (h, ap (λ b. if b then none else insert_names v ks (k.path ∷ set)) e))
    | inr e ↦
        let (a, b) =
          insert_names-Fresh ks (k.path ∷ set) out
            (sym (ap (λ b. if b then none else insert_names v ks (k.path ∷ set)) e) ∙ h) in
        ((e, a), b)
  ]

  pub Fresh-insert_names :
      (ks : List (ElementKey P)) (set : List P)
      → Fresh set (names_of ks)
      → insert_names v ks set ≡ some (onto (names_of ks) set)
  unfolding insert_names
  Fresh-insert_names [] set h = refl
  Fresh-insert_names (k ∷ ks) set (e, hs) =
      ap (λ b. if b then none else insert_names v ks (k.path ∷ set)) e
      ∙ Fresh-insert_names ks (k.path ∷ set) hs
