-- ===== src/FastSort/Mapped.antt =====
-- fast_sort.cc: Sort maps the elements of signed integers before and after it sorts; how often each
-- occurs then.
use codon.Prelude.{
  ℕ, suc, ◌<◌, ◌≡◌, ◌≢◌, refl, sym, ap, ◌∙◌, Bool, true, false, List, [], ◌∷◌, map, arith, ◌==◌,
  if◌then◌else◌, ℕ_discrete, ==_refl, ==_ne,
}
use codon.FastSort.Sorting.{occurs, occurs_same, occurs_other}

-- A list without one occurrence of an element.
abbrev without : ℕ → List ℕ → List ℕ
without x [] = []
without x (y ∷ ys) = if y == x then ys else y ∷ without x ys

without_same : (x y : ℕ) (ys : List ℕ) → y ≡ x → without x (y ∷ ys) ≡ ys
without_same x y ys e =
    let t : (y == x) ≡ true = ap (λ y. y == x) e ∙ ==_refl x in
    ap (λ t. if t then ys else y ∷ without x ys) t

without_other : (x y : ℕ) (ys : List ℕ) → y ≢ x → without x (y ∷ ys) ≡ y ∷ without x ys
without_other x y ys ne = ap (λ t. if t then ys else y ∷ without x ys) (==_ne y x ne)

swap_tests :
    (t u : Bool) (n : ℕ)
    → (if t then suc (if u then suc n else n) else (if u then suc n else n))
      ≡ (if u then suc (if t then suc n else n) else (if t then suc n else n))
swap_tests true true n = refl
swap_tests true false n = refl
swap_tests false true n = refl
swap_tests false false n = refl

-- Taking an element out and putting it in front changes no count, before and after a function.
occurs-map-without :
    (f : ℕ → ℕ) (x v : ℕ) (ys : List ℕ)
    → 0 < occurs x ys
    → occurs v (map f (x ∷ without x ys)) ≡ occurs v (map f ys)
occurs-map-without f x v [] h = absurd (omega arith)
occurs-map-without f x v (y ∷ ys) h = elim (ℕ_discrete y x) [
  | yes e ↦
      ap (λ l. occurs v (f x ∷ map f l)) (without_same x y ys e)
      ∙ ap (λ z. occurs v (f z ∷ map f ys)) (sym e)
  | no ne ↦
      ap (λ l. occurs v (f x ∷ map f l)) (without_other x y ys ne)
      ∙ swap (f x) (f y) (map f (without x ys))
      ∙ cons_occurs (f y) (f x ∷ map f (without x ys)) (map f ys)
          (occurs-map-without f x v ys (omega (arith, occurs_other x y ys ne)))
]
  where
    cons_occurs :
        (a : ℕ) (l l' : List ℕ) → occurs v l ≡ occurs v l' → occurs v (a ∷ l) ≡ occurs v (a ∷ l')
    cons_occurs a l l' e = ap (λ n. if a == v then suc n else n) e

    swap : (a b : ℕ) (l : List ℕ) → occurs v (a ∷ b ∷ l) ≡ occurs v (b ∷ a ∷ l)
    swap a b l = swap_tests (a == v) (b == v) (occurs v l)

map_id : (xs : List ℕ) → map (λ x. x) xs ≡ xs
map_id [] = refl
map_id (x ∷ xs) = ap (λ l. x ∷ l) (map_id xs)

occurs-without :
    (x v : ℕ) (ys : List ℕ) → 0 < occurs x ys → occurs v (x ∷ without x ys) ≡ occurs v ys
occurs-without x v ys h =
    ap (occurs v) (sym (map_id (x ∷ without x ys)))
    ∙ occurs-map-without (λ x. x) x v ys h
    ∙ ap (occurs v) (map_id ys)

occurs_cancel :
    (x v : ℕ) (xs ys : List ℕ) → occurs v (x ∷ xs) ≡ occurs v (x ∷ ys) → occurs v xs ≡ occurs v ys
occurs_cancel x v xs ys h = elim (ℕ_discrete x v) [
  | yes e ↦ omega (arith, h, occurs_same v x xs e, occurs_same v x ys e)
  | no ne ↦ omega (arith, h, occurs_other v x xs ne, occurs_other v x ys ne)
]

-- A function applied to the same elements gives the same elements.
pub occurs-map :
    (f : ℕ → ℕ) (xs ys : List ℕ)
    → ((v : ℕ) → occurs v xs ≡ occurs v ys)
    → (v : ℕ) → occurs v (map f xs) ≡ occurs v (map f ys)
occurs-map f [] [] same v = refl
occurs-map f [] (y ∷ ys) same v = absurd (omega (arith, same y, occurs_same y y ys refl))
occurs-map f (x ∷ xs) ys same v =
    let h : 0 < occurs x ys = omega (arith, same x, occurs_same x x xs refl) in
    let rest : (w : ℕ) → occurs w xs ≡ occurs w (without x ys) =
      (λ w. occurs_cancel x w xs (without x ys) (same w ∙ sym (occurs-without x w ys h))) in
    ap (λ n. if f x == v then suc n else n) (occurs-map f xs (without x ys) rest v)
    ∙ occurs-map-without f x v ys h
