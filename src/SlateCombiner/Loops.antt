-- ===== src/SlateCombiner/Loops.antt =====
-- The loop over the batches of a bin runs its body on each batch.
use codon.Prelude.{
  ℕ, zero, suc, ◌+◌, ◌<◌, ◌≤◌, ◌≡◌, refl, ap, subst, false, Option, some, arith, ltb, lt→ltb,
  le→ltb, dec_lt,
}
use codon.SlateCombiner.Bins.{for_batches}

-- Where batch `k` begins.
abbrev pub offset : ℕ → ℕ → ℕ
offset stride zero = 0
offset stride (suc k) = offset stride k + stride

pub offset-lt : (stride k n : ℕ) → k < n → offset stride k + stride ≤ offset stride n
offset-lt stride k zero h = absurd (omega arith)
offset-lt stride k (suc n) h = elim (dec_lt k n) [
  | yes lt ↦ omega (arith, offset-lt stride k n lt)
  | no ge ↦ let e : k ≡ n = omega arith in rw e (omega arith)
]

pub le-offset : (stride n : ℕ) → 0 < stride → n ≤ offset stride n
le-offset stride zero h = omega arith
le-offset stride (suc n) h = omega (arith, le-offset stride n h)

module _ {A : Type 0} (count stride : ℕ) (body : ℕ → A → Option A) (P : ℕ → A → Type 0) where
  abbrev pub Passes : Type 0
  Passes =
      (k : ℕ) (a : A)
      → k < count
      → P k a
      → (a' : A) × (body (offset stride k) a ≡ some a') × P (suc k) a'

  done : (k : ℕ) → k ≡ count → ltb (offset stride k) (offset stride count) ≡ false
  done k e =
      let same : offset stride k ≡ offset stride count = ap (offset stride) e in
      le→ltb (offset stride k) (offset stride count) (omega arith)

  for_batches_from :
      0 < stride
      → Passes
      → (fuel left k : ℕ) (a : A) → k + left ≡ count
      → left ≤ fuel
      → P k a
      → (a' : A) × (for_batches fuel (offset stride count) stride body (offset stride k) a
          ≡ some a')
        × P count a'
  unfolding for_batches
  for_batches_from pos pass zero zero k a all enough now =
      let e : k ≡ count = omega arith in
      (a, rw (done k e, for_batches) refl, subst (λ x. P x a) e now)
  for_batches_from pos pass (suc fuel) zero k a all enough now =
      let e : k ≡ count = omega arith in
      (a, rw (done k e, for_batches) refl, subst (λ x. P x a) e now)
  for_batches_from pos pass zero (suc left) k a all enough now = absurd (omega arith)
  for_batches_from pos pass (suc fuel) (suc left) k a all enough now =
      let (a1, e1, next) = pass k a (omega arith) now in
      let (a2, e2, end) =
        for_batches_from pos pass fuel left (suc k) a1 (omega arith) (omega arith) next in
      let in_ =
        lt→ltb (offset stride k) (offset stride count)
          (omega (arith, offset-lt stride k count (omega arith))) in
      (a2, rw (in_, for_batches) (rw (e1, for_batches) e2), end)

  -- As much fuel as the vector is long is enough.
  pub for_batches_lem :
      0 < stride
      → Passes
      → (a : A) → P 0 a
      → (a' : A) × (for_batches (offset stride count) (offset stride count) stride body 0 a
          ≡ some a')
        × P count a'
  for_batches_lem pos pass a now =
      for_batches_from pos pass (offset stride count) count 0 a (omega arith)
        (le-offset stride count pos) now
