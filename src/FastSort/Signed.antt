-- ===== src/FastSort/Signed.antt =====
-- fast_sort.cc: Sort of signed integers, which are sorted by their inverted highest bit.
use native.Mathlib.Nat.{mod-lt, mod-eq_of_lt, mod-add-mod, add-mod_right, pow-suc, two-pow-succ}
use codon.Prelude.{
  ℕ, zero, suc, ◌+◌, ◌-◌, ◌*◌, ◌%◌, ◌^◌, ◌<◌, ◌≤◌, ◌≡◌, refl, sym, ap, ap₂, ◌∙◌, ◌⊎◌, inl, inr,
  Bool-cases, ltb, List, [], ◌∷◌, map, arith, if◌then◌else◌, length, All,
}
use codon.Prelude.Int.{ℤ, pos, negsuc, ◌≤ℤ◌}
use codon.FastSort.Passes.{sort_internal, sort_signed, flip}
use codon.FastSort.Sorting.{Sorted, occurs, low}
use codon.FastSort.Mapped.{occurs-map}
use codon.FastSort.Sorts.{sort_internal_lem}

All-map_key :
    (f g h : ℕ → ℕ) (b : ℕ) (xs : List ℕ)
    → ((x : ℕ) → h (f x) ≡ g x)
    → All (λ y. g b ≤ g y) xs
    → All (λ y. h (f b) ≤ h y) (map f xs)
All-map_key f g h b [] e all = tt
All-map_key f g h b (x ∷ xs) e (le, all) =
    (omega (arith, le, e b, e x), All-map_key f g h b xs e all)

Sorted-map :
    (f g h : ℕ → ℕ) (xs : List ℕ) → ((x : ℕ) → h (f x) ≡ g x) → Sorted g xs → Sorted h (map f xs)
Sorted-map f g h [] e sorted = tt
Sorted-map f g h (x ∷ xs) e (first, sorted) =
    (All-map_key f g h x xs e first, Sorted-map f g h xs e sorted)

pow_eight : (n : ℕ) → 2 ^ suc (suc (suc (suc (suc (suc (suc (suc n))))))) ≡ 2 ^ n * 256
pow_eight n = omega (
  arith,
  two-pow-succ n,
  two-pow-succ (suc n),
  two-pow-succ (suc (suc n)),
  two-pow-succ (suc (suc (suc n))),
  two-pow-succ (suc (suc (suc (suc n)))),
  two-pow-succ (suc (suc (suc (suc (suc n))))),
  two-pow-succ (suc (suc (suc (suc (suc (suc n)))))),
  two-pow-succ (suc (suc (suc (suc (suc (suc (suc n))))))),
)

bits_of_bytes : (k : ℕ) → 2 ^ (8 * k) ≡ 256 ^ k
bits_of_bytes zero = refl
bits_of_bytes (suc k) =
    let e : 8 * suc k ≡ suc (suc (suc (suc (suc (suc (suc (suc (8 * k)))))))) = omega arith in
    ap (λ n. 2 ^ n) e
    ∙ pow_eight (8 * k)
    ∙ ap (λ n. n * 256) (bits_of_bytes k)
    ∙ sym (pow-suc 256 k)

two_halves : (k : ℕ) → 0 < k → 2 ^ (8 * k) ≡ 2 ^ (8 * k - 1) + 2 ^ (8 * k - 1)
two_halves k wide =
    let e : 8 * k ≡ suc (8 * k - 1) = omega arith in ap (λ n. 2 ^ n) e ∙ two-pow-succ (8 * k - 1)

-- Twice inverted is as before.
flip-flip : (k x : ℕ) → 0 < k → flip k (flip k x) ≡ low k x
flip-flip k x wide =
    let h = 2 ^ (8 * k - 1) in
    let m = 2 ^ (8 * k) in
    let double : m ≡ h + h = two_halves k wide in
    let twice : x + h + h ≡ x + m = omega (arith, double) in
    mod-add-mod (x + h) m h
    ∙ ap (λ y. y % m) twice
    ∙ add-mod_right x m
    ∙ ap (λ n. x % n) (bits_of_bytes k)

map-flip-flip :
    (k : ℕ) (xs : List ℕ)
    → 0 < k
    → All (λ x. x < 2 ^ (8 * k)) xs
    → map (flip k) (map (flip k) xs) ≡ xs
map-flip-flip k [] wide all = refl
map-flip-flip k (x ∷ xs) wide (lt, all) =
    let e : flip k (flip k x) ≡ x =
      flip-flip k x wide ∙ mod-eq_of_lt (omega (arith, lt, bits_of_bytes k)) in
    ap₂ (λ y ys. y ∷ ys) e (map-flip-flip k xs wide all)

length-map : (f : ℕ → ℕ) (xs : List ℕ) → length (map f xs) ≡ length xs
length-map f [] = refl
length-map f (x ∷ xs) = ap suc (length-map f xs)

-- The integer that a word of `k` bytes stands for in two's complement, and the order of these.
abbrev pub signed_value : ℕ → ℕ → ℤ
signed_value k x = if ltb x (2 ^ (8 * k - 1)) then pos x else negsuc (2 ^ (8 * k) - 1 - x)

abbrev pub SignedSorted : ℕ → List ℕ → Type 0
SignedSorted k [] = Unit
SignedSorted k (x ∷ xs) = All (λ y. signed_value k x ≤ℤ signed_value k y) xs × SignedSorted k xs

-- The inverted highest bit moves the integers up by half of the range.
flip_cases :
    (k x : ℕ)
    → 0 < k
    → x < 2 ^ (8 * k)
    → ((x < 2 ^ (8 * k - 1)) × (flip k x ≡ x + 2 ^ (8 * k - 1)))
      ⊎ ((2 ^ (8 * k - 1) ≤ x) × (flip k x + 2 ^ (8 * k - 1) ≡ x))
flip_cases k x wide lt =
    let h = 2 ^ (8 * k - 1) in
    let m = 2 ^ (8 * k) in
    let double : m ≡ h + h = two_halves k wide in
    elim (Bool-cases (ltb x h)) [
      | inl t ↦
          let small : x < h = ground arith in
          inl (small, mod-eq_of_lt (omega (arith, small, double)))
      | inr t ↦
          let big : h ≤ x = ground arith in
          let around : x + h ≡ (x - h) + m = omega (arith, big, double) in
          let wrapped : flip k x ≡ x - h =
            ap (λ y. y % m) around
            ∙ add-mod_right (x - h) m
            ∙ mod-eq_of_lt (omega (arith, big, double, lt)) in
          inr (big, omega (arith, wrapped, big))
    ]

value_le :
    (h m x y a b : ℕ)
    → m ≡ h + h
    → x < m
    → y < m
    → ((x < h) × (a ≡ x + h)) ⊎ ((h ≤ x) × (a + h ≡ x))
    → ((y < h) × (b ≡ y + h)) ⊎ ((h ≤ y) × (b + h ≡ y))
    → a ≤ b
    → (if ltb x h then pos x else negsuc (m - 1 - x))
      ≤ℤ (if ltb y h then pos y else negsuc (m - 1 - y))
value_le h m x y a b d lx ly (inl (p, e)) (inl (q, k)) le = ground arith
value_le h m x y a b d lx ly (inl (p, e)) (inr (q, k)) le = ground arith
value_le h m x y a b d lx ly (inr (p, e)) (inl (q, k)) le = ground arith
value_le h m x y a b d lx ly (inr (p, e)) (inr (q, k)) le = ground arith

flip-signed_value :
    (k x y : ℕ)
    → 0 < k
    → x < 2 ^ (8 * k)
    → y < 2 ^ (8 * k)
    → flip k x ≤ flip k y
    → signed_value k x ≤ℤ signed_value k y
flip-signed_value k x y wide lx ly le =
    value_le (2 ^ (8 * k - 1)) (2 ^ (8 * k)) x y (flip k x) (flip k y) (two_halves k wide) lx ly
      (flip_cases k x wide lx) (flip_cases k y wide ly) le

pow_pos : (n : ℕ) → 0 < 2 ^ n
pow_pos zero = omega arith
pow_pos (suc n) = omega (arith, two-pow-succ n, pow_pos n)

flip_bound : (k x : ℕ) → flip k x < 2 ^ (8 * k)
flip_bound k x = mod-lt (x + 2 ^ (8 * k - 1)) (pow_pos (8 * k))

All-flip_bound : (k : ℕ) (xs : List ℕ) → All (λ x. x < 2 ^ (8 * k)) (map (flip k) xs)
All-flip_bound k [] = tt
All-flip_bound k (x ∷ xs) = (flip_bound k x, All-flip_bound k xs)

Sorted-SignedSorted :
    (k : ℕ) (xs : List ℕ)
    → 0 < k
    → All (λ x. x < 2 ^ (8 * k)) xs
    → Sorted (flip k) xs
    → SignedSorted k xs
Sorted-SignedSorted k [] wide all sorted = tt
Sorted-SignedSorted k (x ∷ xs) wide (lt, all) (first, sorted) =
    (later xs all first, Sorted-SignedSorted k xs wide all sorted)
  where
    later :
        (ys : List ℕ)
        → All (λ x. x < 2 ^ (8 * k)) ys
        → All (λ y. flip k x ≤ flip k y) ys
        → All (λ y. signed_value k x ≤ℤ signed_value k y) ys
    later [] all first = tt
    later (y ∷ ys) (ly, all) (le, first) =
        (flip-signed_value k x y wide lt ly le, later ys all first)

-- `Sort` of signed integers of `k` bytes, each less than `2 ^ (8 * k)` in its unsigned reading, with
-- as many spare elements and fewer than `2 ^ 32` bytes: the elements come in the order of the
-- integers that they stand for in two's complement, and each as often as it was there.
pub sort_signed_lem :
    (k : ℕ) (scratch p : List ℕ)
    → 0 < k
    → All (λ x. x < 2 ^ (8 * k)) p
    → length scratch ≡ length p
    → length p * k < 2 ^ 32
    → SignedSorted k (sort_signed k scratch p)
      × ((v : ℕ) → occurs v (sort_signed k scratch p) ≡ occurs v p)
unfolding sort_signed
sort_signed_lem k scratch p wide words size fits =
    let flipped = map (flip k) p in
    let out = sort_internal k scratch flipped in
    let (sorted, same) =
      sort_internal_lem k scratch flipped wide (size ∙ sym (length-map (flip k) p))
        (omega (arith, fits, ap (λ n. n * k) (length-map (flip k) p))) in
    (
      Sorted-SignedSorted k (map (flip k) out) wide (All-flip_bound k out)
          (Sorted-map (flip k) (low k) (flip k) out (λ x. flip-flip k x wide) sorted),
      (λ v. occurs-map (flip k) out flipped same v ∙ ap (occurs v) (map-flip-flip k p wide words)),
    )
