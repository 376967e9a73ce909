-- ===== src/FastSort/Sorting.antt =====
-- fast_sort.cc: gathering by one byte after the other sorts.
use native.Mathlib.Nat.{
  mod-lt, mod-eq_of_lt, mul-le-mul_right, mul-add-mod_self_right, div-add-mod', pow-suc,
}
use codon.Prelude.{
  ℕ, zero, suc, ◌+◌, ◌*◌, ◌/◌, ◌%◌, ◌^◌, ◌<◌, ◌≤◌, ◌≡◌, ◌≢◌, refl, sym, subst, ap, ap₂, ◌∙◌, inl,
  inr, true, List, [], ◌∷◌, ◌++◌, arith, ◌==◌, if◌then◌else◌, Bool-cases, ℕ_discrete, length,
  length-append, ==→eq, ==_refl, ==_ne, All,
}
use codon.FastSort.Passes.{byte}
use codon.FastSort.Scatter.{select, gathered, tally, select_same, select_other}
use codon.FastSort.Counting.{total, total_all}

-- Sorted by a key.
abbrev pub Sorted : (ℕ → ℕ) → List ℕ → Type 0
Sorted f [] = Unit
Sorted f (x ∷ xs) = All (λ y. f x ≤ f y) xs × Sorted f xs

abbrev pub occurs : ℕ → List ℕ → ℕ
occurs v [] = 0
occurs v (x ∷ xs) = if x == v then suc (occurs v xs) else occurs v xs

-- The number of the bytes before `i`.
abbrev pub low : ℕ → ℕ → ℕ
low i x = x % 256 ^ i

module _ {P Q : ℕ → Type 0} where
  All-map : (xs : List ℕ) → ((x : ℕ) → P x → Q x) → All P xs → All Q xs
  All-map [] f all = tt
  All-map (x ∷ xs) f (p, all) = (f x p, All-map xs f all)

module _ (P : ℕ → Type 0) where
  All-select : (i d : ℕ) (xs : List ℕ) → All P xs → All P (select i d xs)
  All-select i d [] all = tt
  All-select i d (x ∷ xs) (p, all) = elim (Bool-cases (byte i x == d)) [
    | inl t ↦
        subst (λ t. All P (if t then x ∷ select i d xs else select i d xs)) (sym t)
          (p, All-select i d xs all)
    | inr f ↦
        subst (λ t. All P (if t then x ∷ select i d xs else select i d xs)) (sym f)
          (All-select i d xs all)
  ]

  All-append : (xs ys : List ℕ) → All P xs → All P ys → All P (xs ++ ys)
  All-append [] ys all all' = all'
  All-append (x ∷ xs) ys (p, all) all' = (p, All-append xs ys all all')

Sorted-select : (f : ℕ → ℕ) (i d : ℕ) (xs : List ℕ) → Sorted f xs → Sorted f (select i d xs)
Sorted-select f i d [] sorted = tt
Sorted-select f i d (x ∷ xs) (first, sorted) = elim (Bool-cases (byte i x == d)) [
  | inl t ↦
      subst (λ t. Sorted f (if t then x ∷ select i d xs else select i d xs)) (sym t)
        (All-select (λ y. f x ≤ f y) i d xs first, Sorted-select f i d xs sorted)
  | inr e ↦
      subst (λ t. Sorted f (if t then x ∷ select i d xs else select i d xs)) (sym e)
        (Sorted-select f i d xs sorted)
]

byte-select : (i d : ℕ) (xs : List ℕ) → All (λ x. byte i x ≡ d) (select i d xs)
byte-select i d [] = tt
byte-select i d (x ∷ xs) = elim (Bool-cases (byte i x == d)) [
  | inl t ↦
      subst (λ t. All (λ x. byte i x ≡ d) (if t then x ∷ select i d xs else select i d xs)) (sym t)
        (==→eq (byte i x) d t, byte-select i d xs)
  | inr e ↦
      subst (λ t. All (λ x. byte i x ≡ d) (if t then x ∷ select i d xs else select i d xs)) (sym e)
        (byte-select i d xs)
]

byte-gathered : (i n d : ℕ) (xs : List ℕ) → All (λ x. d ≤ byte i x) (gathered i n d xs)
byte-gathered i zero d xs = tt
byte-gathered i (suc n) d xs =
    All-append (λ x. d ≤ byte i x) (select i d xs) (gathered i n (suc d) xs)
      (All-map (select i d xs) (λ x e. omega (arith, e)) (byte-select i d xs))
      (All-map (gathered i n (suc d) xs) (λ x le. omega (arith, le)) (byte-gathered i n (suc d) xs))

pow_pos : (i : ℕ) → 0 < 256 ^ i
pow_pos zero = omega arith
pow_pos (suc i) = omega (arith, pow-suc 256 i, pow_pos i)

byte_split : (m q a b r x : ℕ) → x ≡ q * m + r → q ≡ a * 256 + b → x ≡ a * (m * 256) + (b * m + r)
byte_split m q a b r x e e' = e ∙ ap (λ q. q * m + r) e' ∙ grind arith

-- A number by its byte at `i` and the bytes before.
low-suc : (i x : ℕ) → low (suc i) x ≡ byte i x * 256 ^ i + low i x
low-suc i x =
    let m = 256 ^ i in
    let q = x / m in
    let a = q / 256 in
    let c = q % 256 * m + x % m in
    let pos : 0 < m = pow_pos i in
    let whole : m * 256 ≡ 256 ^ suc i = sym (pow-suc 256 i) in
    let split : x ≡ a * (m * 256) + c =
      byte_split m q a (q % 256) (x % m) x (sym (div-add-mod' x m)) (sym (div-add-mod' q 256)) in
    let bound : q % 256 * m ≤ 255 * m = mul-le-mul_right m (omega arith) in
    let small : c < m * 256 = omega (arith, bound, mod-lt x pos) in
    ap (λ n. x % n) (sym whole)
    ∙ ap (λ x. x % (m * 256)) split
    ∙ mul-add-mod_self_right a (m * 256) c
    ∙ mod-eq_of_lt small

low_le : (i x y : ℕ) → byte i x ≡ byte i y → low i x ≤ low i y → low (suc i) x ≤ low (suc i) y
low_le i x y e le = omega (arith, low-suc i x, low-suc i y, ap (λ b. b * 256 ^ i) e)

low_less : (i x y : ℕ) → byte i x < byte i y → low (suc i) x ≤ low (suc i) y
low_less i x y lt =
    let le : suc (byte i x) * 256 ^ i ≤ byte i y * 256 ^ i = mul-le-mul_right (256 ^ i) lt in
    let more : suc (byte i x) * 256 ^ i ≡ byte i x * 256 ^ i + 256 ^ i = grind arith in
    omega (arith, low-suc i x, low-suc i y, le, more, mod-lt x (pow_pos i))

Sorted-append :
    (f : ℕ → ℕ) (xs ys : List ℕ)
    → Sorted f xs
    → Sorted f ys
    → All (λ x. All (λ y. f x ≤ f y) ys) xs
    → Sorted f (xs ++ ys)
Sorted-append f [] ys sorted sorted' less = sorted'
Sorted-append f (x ∷ xs) ys (first, sorted) sorted' (le, less) =
    (All-append (λ y. f x ≤ f y) xs ys first le, Sorted-append f xs ys sorted sorted' less)

-- Elements with one byte stay in order.
Sorted-low-suc :
    (i d : ℕ) (xs : List ℕ)
    → All (λ x. byte i x ≡ d) xs
    → Sorted (low i) xs
    → Sorted (low (suc i)) xs
Sorted-low-suc i d [] bytes sorted = tt
Sorted-low-suc i d (x ∷ xs) (e, bytes) (first, sorted) =
    (after xs first bytes, Sorted-low-suc i d xs bytes sorted)
  where
    after :
        (ys : List ℕ)
        → All (λ y. low i x ≤ low i y) ys
        → All (λ y. byte i y ≡ d) ys
        → All (λ y. low (suc i) x ≤ low (suc i) y) ys
    after [] le e' = tt
    after (y ∷ ys) (le, les) (e', es) = (low_le i x y (e ∙ sym e') le, after ys les es)

-- Gathering by a byte what is sorted by the bytes before sorts by both.
pub Sorted-gathered :
    (i n d : ℕ) (xs : List ℕ) → Sorted (low i) xs → Sorted (low (suc i)) (gathered i n d xs)
Sorted-gathered i zero d xs sorted = tt
Sorted-gathered i (suc n) d xs sorted =
    let later = gathered i n (suc d) xs in
    Sorted-append (low (suc i)) (select i d xs) later
      (Sorted-low-suc i d (select i d xs) (byte-select i d xs)
        (Sorted-select (low i) i d xs sorted))
      (Sorted-gathered i n (suc d) xs sorted)
      (All-map (select i d xs)
        (λ x e.
          All-map later (λ y le. low_less i x y (omega (arith, e, le)))
            (byte-gathered i n (suc d) xs))
        (byte-select i d xs))

pub occurs_same : (v x : ℕ) (xs : List ℕ) → x ≡ v → occurs v (x ∷ xs) ≡ suc (occurs v xs)
occurs_same v x xs e =
    let t : (x == v) ≡ true = ap (λ x. x == v) e ∙ ==_refl v in
    ap (λ t. if t then suc (occurs v xs) else occurs v xs) t

pub occurs_other : (v x : ℕ) (xs : List ℕ) → x ≢ v → occurs v (x ∷ xs) ≡ occurs v xs
occurs_other v x xs ne = ap (λ t. if t then suc (occurs v xs) else occurs v xs) (==_ne x v ne)

occurs-append : (v : ℕ) (xs ys : List ℕ) → occurs v (xs ++ ys) ≡ occurs v xs + occurs v ys
occurs-append v [] ys = omega arith
occurs-append v (x ∷ xs) ys = elim (ℕ_discrete x v) [
  | yes e ↦ omega (arith, occurs_same v x (xs ++ ys) e, occurs_same v x xs e, occurs-append v xs ys)
  | no ne ↦
      omega (arith, occurs_other v x (xs ++ ys) ne, occurs_other v x xs ne, occurs-append v xs ys)
]

occurs-select_same :
    (i v d : ℕ) (xs : List ℕ) → byte i v ≡ d → occurs v (select i d xs) ≡ occurs v xs
occurs-select_same i v d [] e = refl
occurs-select_same i v d (x ∷ xs) e = elim (ℕ_discrete x v) [
  | yes h ↦
      ap (occurs v) (select_same i d x xs (ap (byte i) h ∙ e))
      ∙ occurs_same v x (select i d xs) h
      ∙ ap suc (occurs-select_same i v d xs e)
      ∙ sym (occurs_same v x xs h)
  | no ne ↦ elim (ℕ_discrete (byte i x) d) [
    | yes h ↦
        ap (occurs v) (select_same i d x xs h)
        ∙ occurs_other v x (select i d xs) ne
        ∙ occurs-select_same i v d xs e
        ∙ sym (occurs_other v x xs ne)
    | no h ↦
        ap (occurs v) (select_other i d x xs h)
        ∙ occurs-select_same i v d xs e
        ∙ sym (occurs_other v x xs ne)
  ]
]

occurs-select_other : (i d v : ℕ) (xs : List ℕ) → byte i v ≢ d → occurs v (select i d xs) ≡ 0
occurs-select_other i d v [] ne = refl
occurs-select_other i d v (x ∷ xs) ne = elim (ℕ_discrete (byte i x) d) [
  | yes h ↦
      ap (occurs v) (select_same i d x xs h)
      ∙ occurs_other v x (select i d xs) (λ e. ne (ap (byte i) (sym e) ∙ h))
      ∙ occurs-select_other i d v xs ne
  | no h ↦ ap (occurs v) (select_other i d x xs h) ∙ occurs-select_other i d v xs ne
]

occurs-gathered_before :
    (i n d v : ℕ) (xs : List ℕ) → byte i v < d → occurs v (gathered i n d xs) ≡ 0
occurs-gathered_before i zero d v xs lt = refl
occurs-gathered_before i (suc n) d v xs lt =
    occurs-append v (select i d xs) (gathered i n (suc d) xs)
    ∙ omega (
      arith,
      occurs-select_other i d v xs (λ e. omega arith),
      occurs-gathered_before i n (suc d) v xs (omega arith),
    )

-- Gathering keeps each element as often as it was there.
pub occurs-gathered :
    (i n d v : ℕ) (xs : List ℕ)
    → d ≤ byte i v
    → byte i v < d + n
    → occurs v (gathered i n d xs) ≡ occurs v xs
occurs-gathered i zero d v xs le lt = absurd (omega arith)
occurs-gathered i (suc n) d v xs le lt =
    occurs-append v (select i d xs) (gathered i n (suc d) xs) ∙ elim (ℕ_discrete (byte i v) d) [
      | yes e ↦ omega (
        arith,
        occurs-select_same i v d xs e,
        occurs-gathered_before i n (suc d) v xs (omega arith),
      )
      | no ne ↦ omega (
        arith,
        occurs-select_other i d v xs ne,
        occurs-gathered i n (suc d) v xs (omega arith) (omega arith),
      )
    ]

length-select : (i d : ℕ) (xs : List ℕ) → length (select i d xs) ≡ tally i d xs
length-select i d [] = refl
length-select i d (x ∷ xs) = elim (Bool-cases (byte i x == d)) [
  | inl t ↦
      ap (λ t. length (if t then x ∷ select i d xs else select i d xs)) t
      ∙ ap suc (length-select i d xs)
      ∙ sym (ap (λ t. if t then suc (tally i d xs) else tally i d xs) t)
  | inr e ↦
      ap (λ t. length (if t then x ∷ select i d xs else select i d xs)) e
      ∙ length-select i d xs
      ∙ sym (ap (λ t. if t then suc (tally i d xs) else tally i d xs) e)
]

length-gathered_total : (i n d : ℕ) (xs : List ℕ) → length (gathered i n d xs) ≡ total i n d xs
length-gathered_total i zero d xs = refl
length-gathered_total i (suc n) d xs =
    length-append (select i d xs) (gathered i n (suc d) xs)
    ∙ ap₂ (λ a b. a + b) (length-select i d xs) (length-gathered_total i n (suc d) xs)

pub length-gathered : (i : ℕ) (xs : List ℕ) → length (gathered i 256 0 xs) ≡ length xs
length-gathered i xs = length-gathered_total i 256 0 xs ∙ total_all i xs
