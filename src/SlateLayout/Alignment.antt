-- ===== src/SlateLayout/Alignment.antt =====
-- The alignments that the layout admits, and aligning upwards.
use native.Mathlib.Nat.{div-add-mod', mod-lt}
use codon.Prelude.{
  ℕ, zero, suc, ◌+◌, ◌-◌, ◌/◌, ◌<◌, ◌≤◌, ◌≡◌, refl, sym, ap, ◌∙◌, inl, inr, Bool, true, not, ◌&&◌,
  ◌||◌, arith, ◌==◌, Bool-cases, ℕ_discrete,
}
use codon.SlateLayout.Buffer.{max_alignment, is_power_of_two, align_up}
use codon.SlateLayout.Carving.{Divides, pow2}

-- A test that holds of each number below a bound.
all_below : ℕ → (ℕ → Bool) → Bool
all_below zero p = true
all_below (suc n) p = p n && all_below n p

test_below : (n a : ℕ) (p : ℕ → Bool) → all_below n p ≡ true → a < n → p a ≡ true
unfolding all_below
test_below zero a p h lt = absurd (omega arith)
test_below (suc n) a p h lt = elim (ℕ_discrete a n) [
  | yes e ↦ elim (Bool-cases (p n)) [
    | inl t ↦ ap p e ∙ t
    | inr f ↦ absurd (cc (sym h ∙ ap (λ b. b && all_below n p) f))
  ]
  | no ne ↦ elim (Bool-cases (p n)) [
    | inl t ↦ test_below n a p (sym (ap (λ b. b && all_below n p) t) ∙ h) (omega arith)
    | inr f ↦ absurd (cc (sym h ∙ ap (λ b. b && all_below n p) f))
  ]
]

small_power : ℕ → Bool
small_power a = a == 1 || a == 2 || a == 4 || a == 8 || a == 16 || a == 32

table : all_below 33 (λ a. not (is_power_of_two a) || small_power a) ≡ true
unfolding all_below is_power_of_two small_power
table = refl

small_power_lem : (a : ℕ) → small_power a ≡ true → (k : ℕ) × (k < 6) × (a ≡ pow2 k)
unfolding small_power
small_power_lem a h = elim (ℕ_discrete a 1) [
  | yes e ↦ (0, omega arith, e)
  | no n1 ↦ elim (ℕ_discrete a 2) [
    | yes e ↦ (1, omega arith, e)
    | no n2 ↦ elim (ℕ_discrete a 4) [
      | yes e ↦ (2, omega arith, e)
      | no n4 ↦ elim (ℕ_discrete a 8) [
        | yes e ↦ (3, omega arith, e)
        | no n8 ↦ elim (ℕ_discrete a 16) [
          | yes e ↦ (4, omega arith, e)
          | no n16 ↦ elim (ℕ_discrete a 32) [
            | yes e ↦ (5, omega arith, e)
            | no n32 ↦ absurd (ground arith)
          ]
        ]
      ]
    ]
  ]
]

pub is_power_of_two-pow2 :
    (a : ℕ) → is_power_of_two a ≡ true → a ≤ max_alignment → (k : ℕ) × (k < 6) × (a ≡ pow2 k)
is_power_of_two-pow2 a h le =
    let t = test_below 33 a (λ a. not (is_power_of_two a) || small_power a) table (omega arith) in
    small_power_lem a (sym (ap (λ b. not b || small_power a) h) ∙ t)

-- A number is aligned upwards by less than the alignment.
pub align_up_lem :
    (x a : ℕ) → 0 < a → (x ≤ align_up x a) × (align_up x a < x + a) × Divides a (align_up x a)
align_up_lem x a pos =
    let e = div-add-mod' (x + a - 1) a in
    let lt = mod-lt (x + a - 1) pos in
    (omega (arith, lt), omega (arith, lt), ((x + a - 1) / a, omega (arith, e)))

pub pow2_small : (k : ℕ) → k < 6 → pow2 k ≤ 32
pow2_small k h = elim (ℕ_discrete k 5) [
  | yes e ↦ omega (arith, ap pow2 e)
  | no n5 ↦ elim (ℕ_discrete k 4) [
    | yes e ↦ omega (arith, ap pow2 e)
    | no n4 ↦ elim (ℕ_discrete k 3) [
      | yes e ↦ omega (arith, ap pow2 e)
      | no n3 ↦ elim (ℕ_discrete k 2) [
        | yes e ↦ omega (arith, ap pow2 e)
        | no n2 ↦ elim (ℕ_discrete k 1) [
          | yes e ↦ omega (arith, ap pow2 e)
          | no n1 ↦ let e : k ≡ 0 = omega arith in omega (arith, ap pow2 e)
        ]
      ]
    ]
  ]
]
