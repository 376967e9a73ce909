-- ===== src/FastSort/Sorts.antt =====
-- fast_sort.cc: SortInternal and Sort sort.
use native.Mathlib.Nat.{mod-lt}
use codon.Prelude.{
  ℕ, zero, suc, ◌+◌, ◌*◌, ◌%◌, ◌^◌, ◌<◌, ◌≤◌, ◌≡◌, refl, sym, subst, ap, ◌∙◌, inl, inr, true, false,
  List, [], ◌∷◌, arith, ◌==◌, if◌then◌else◌, Bool-cases, length, All,
}
use codon.FastSort.Passes.{sort_by_byte, sort_rounds, sort_internal}
use codon.FastSort.Scatter.{gathered}
use codon.FastSort.Rounds.{sort_by_byte-gathered}
use codon.FastSort.Sorting.{Sorted, occurs, low, Sorted-gathered, occurs-gathered, length-gathered}

-- The array that a round reads.
abbrev live : ℕ → List ℕ → List ℕ → List ℕ
live i p scratch = if i % 2 == 1 then scratch else p

-- What the rounds have done up to `i`, to the elements `xs`.
record Gathered (i : ℕ) (xs p scratch : List ℕ) : Type 0 where
  size : length p ≡ length xs
  scratch_size : length scratch ≡ length xs
  sorted : Sorted (low i) (live i p scratch)
  same : (v : ℕ) → occurs v (live i p scratch) ≡ occurs v xs

odd_suc : (i : ℕ) → (i % 2 == 1) ≡ true → (suc i % 2 == 1) ≡ false
odd_suc i h = ground arith

even_suc : (i : ℕ) → (i % 2 == 1) ≡ false → (suc i % 2 == 1) ≡ true
even_suc i h = ground arith

module _ (k i : ℕ) (xs p scratch : List ℕ) (pos : 0 < k) (fits : length xs * k < 2 ^ 32)
    (g : Gathered i xs p scratch) where
  Gathered-odd : (i % 2 == 1) ≡ true → Gathered (suc i) xs (sort_by_byte k i scratch p) scratch
  Gathered-odd odd =
      let e : sort_by_byte k i scratch p ≡ gathered i 256 0 scratch =
        sort_by_byte-gathered k i scratch p pos (g.size ∙ sym g.scratch_size)
          (omega (arith, fits, ap (λ n. n * k) g.scratch_size)) in
      let even : (suc i % 2 == 1) ≡ false = odd_suc i odd in
      let now : live (suc i) (sort_by_byte k i scratch p) scratch ≡ gathered i 256 0 scratch =
        ap (λ t. if t then scratch else sort_by_byte k i scratch p) even ∙ e in
      let before : live i p scratch ≡ scratch = ap (λ t. if t then scratch else p) odd in
      record {
        size = ap length e ∙ length-gathered i scratch ∙ g.scratch_size;
        scratch_size = g.scratch_size;
        sorted =
            subst (Sorted (low (suc i))) (sym now)
              (Sorted-gathered i 256 0 scratch (subst (Sorted (low i)) before g.sorted));
        same = (λ v.
            ap (occurs v) now
            ∙ occurs-gathered i 256 0 v scratch (omega arith) (omega arith)
            ∙ ap (occurs v) (sym before)
            ∙ g.same v);
      }

  Gathered-even : (i % 2 == 1) ≡ false → Gathered (suc i) xs p (sort_by_byte k i p scratch)
  Gathered-even even =
      let e : sort_by_byte k i p scratch ≡ gathered i 256 0 p =
        sort_by_byte-gathered k i p scratch pos (g.scratch_size ∙ sym g.size)
          (omega (arith, fits, ap (λ n. n * k) g.size)) in
      let odd : (suc i % 2 == 1) ≡ true = even_suc i even in
      let now : live (suc i) p (sort_by_byte k i p scratch) ≡ gathered i 256 0 p =
        ap (λ t. if t then sort_by_byte k i p scratch else p) odd ∙ e in
      let before : live i p scratch ≡ p = ap (λ t. if t then scratch else p) even in
      record {
        size = g.size;
        scratch_size = ap length e ∙ length-gathered i p ∙ g.size;
        sorted =
            subst (Sorted (low (suc i))) (sym now)
              (Sorted-gathered i 256 0 p (subst (Sorted (low i)) before g.sorted));
        same = (λ v.
            ap (occurs v) now
            ∙ occurs-gathered i 256 0 v p (omega arith) (omega arith)
            ∙ ap (occurs v) (sym before)
            ∙ g.same v);
      }

Gathered-sort_rounds :
    (k rounds i : ℕ) (xs p scratch : List ℕ)
    → 0 < k
    → length xs * k < 2 ^ 32
    → Gathered i xs p scratch
    → let (p', scratch') = sort_rounds k rounds i p scratch in Gathered (i + rounds) xs p' scratch'
unfolding sort_rounds
Gathered-sort_rounds k zero i xs p scratch pos fits g =
    let e : i ≡ i + 0 = omega arith in subst (λ i. Gathered i xs p scratch) e g
Gathered-sort_rounds k (suc rounds) i xs p scratch pos fits g =
    let after : List ℕ × List ℕ → Type 0 = (λ (p', scratch').
      let (p2, s2) = sort_rounds k rounds (suc i) p' scratch' in
      Gathered (i + suc rounds) xs p2 s2) in
    let e : suc i + rounds ≡ i + suc rounds = omega arith in
    elim (Bool-cases (i % 2 == 1)) [
      | inl t ↦
          let (p2, s2) = sort_rounds k rounds (suc i) (sort_by_byte k i scratch p) scratch in
          subst
            (λ t. after (
              if t then (sort_by_byte k i scratch p, scratch) else (p, sort_by_byte k i p scratch)))
            (sym t)
            (subst (λ i. Gathered i xs p2 s2) e
              (Gathered-sort_rounds k rounds (suc i) xs (sort_by_byte k i scratch p) scratch pos
                fits (Gathered-odd k i xs p scratch pos fits g t)))
      | inr t ↦
          let (p2, s2) = sort_rounds k rounds (suc i) p (sort_by_byte k i p scratch) in
          subst
            (λ t. after (
              if t then (sort_by_byte k i scratch p, scratch) else (p, sort_by_byte k i p scratch)))
            (sym t)
            (subst (λ i. Gathered i xs p2 s2) e
              (Gathered-sort_rounds k rounds (suc i) xs p (sort_by_byte k i p scratch) pos fits
                (Gathered-even k i xs p scratch pos fits g t)))
    ]

Sorted-zero : (xs : List ℕ) → Sorted (low 0) xs
Sorted-zero [] = tt
Sorted-zero (x ∷ xs) = (least xs, Sorted-zero xs)
  where
    least : (ys : List ℕ) → All (λ y. low 0 x ≤ low 0 y) ys
    least [] = tt
    least (y ∷ ys) =
        let small : x % 1 < 1 = mod-lt x (omega arith) in (omega (arith, small), least ys)

-- With a scratch array of the same length and counters that do not wrap around, `SortInternal` for elements
-- of `k` bytes sorts them by the number of those bytes, each as often as it was there.
pub sort_internal_lem :
    (k : ℕ) (scratch p : List ℕ)
    → 0 < k
    → length scratch ≡ length p
    → length p * k < 2 ^ 32
    → Sorted (low k) (sort_internal k scratch p)
      × ((v : ℕ) → occurs v (sort_internal k scratch p) ≡ occurs v p)
unfolding sort_internal
sort_internal_lem k scratch p pos size fits =
    let g =
      Gathered-sort_rounds k k 0 p p scratch pos fits
        (record { size = refl; scratch_size = size; sorted = Sorted-zero p; same = (λ v. refl) }) in
    let (p', scratch') = sort_rounds k k 0 p scratch in
    let e : 0 + k ≡ k = omega arith in
    (
      subst (λ i. Sorted (low i) (live i p' scratch')) e g.sorted,
      (λ v. ap (λ i. occurs v (live i p' scratch')) (sym e) ∙ g.same v),
    )
