-- ===== src/SlateCombiner/Masking.antt =====
-- What the consumers of the combined elements may rely on: voting masks one faulty source.
use codon.Prelude.{
  ℕ, ◌+◌, ◌<◌, ◌≡◌, subst, ap, ap₂, ◌∙◌, ◌⊎◌, inl, inr, true, false, List, [], ◌∷◌, some,
  Bool-cases, if◌then◌else◌, All,
}
use codon.Prelude.Int.{ℤ}
use codon.SlateCombiner.Types.{ElementType, Bin, Combiner, Access, Elements}
use codon.SlateCombiner.Combine.{connected_from, select_source, validate_and_combine}
use codon.SlateCombiner.Outputs.{cell}
use codon.SlateCombiner.Layout.{Laid, Combined}
use codon.SlateCombiner.Voting.{
  Ready, Voted, refreshed, refreshed_combiner, choose_of, connected-InRange, dispatch_bins_lem,
  validate_and_combine-go,
}

-- What `median3` is documented to do, for an order without incomparable values: its arguments may be
-- given in any order, and of three in order it is the middle one.
pub record MedianLaws {V : Type 0} (t : ElementType V) : Type 0 where
  pub swap_first : (x y z : V) → t.median3 x y z ≡ t.median3 y x z
  pub swap_last : (x y z : V) → t.median3 x y z ≡ t.median3 x z y
  pub middle : (x y z : V) → t.lt y x ≡ false → t.lt z y ≡ false → t.median3 x y z ≡ y
  pub irreflexive : (x : V) → t.lt x x ≡ false
  pub asymmetric : (x y : V) → t.lt x y ≡ true → t.lt y x ≡ false

-- Two of the three sources give `x`.
abbrev pub Majority : {V : Type 0} → (ℕ → V) → V → Type 0
Majority f x = ((f 1 ≡ x) × (f 2 ≡ x)) ⊎ (((f 1 ≡ x) × (f 3 ≡ x)) ⊎ ((f 2 ≡ x) × (f 3 ≡ x)))

module _ {V : Type 0} (t : ElementType V) (m : MedianLaws t) where
  median_pair : (x z : V) → t.median3 x x z ≡ x
  median_pair x z = elim (Bool-cases (t.lt z x)) [
    | inr e ↦ m.middle x x z (m.irreflexive x) e
    | inl e ↦
        m.swap_last x x z
        ∙ m.swap_first x z x
        ∙ m.middle z x x (m.asymmetric z x e) (m.irreflexive x)
  ]

  median-Majority : (f : ℕ → V) (x : V) → Majority f x → t.median3 (f 1) (f 2) (f 3) ≡ x
  median-Majority f x (inl (e1, e2)) = ap₂ (λ u v. t.median3 u v (f 3)) e1 e2 ∙ median_pair x (f 3)
  median-Majority f x (inr (inl (e1, e3))) =
      ap₂ (λ u v. t.median3 u (f 2) v) e1 e3 ∙ m.swap_last x (f 2) x ∙ median_pair x (f 2)
  median-Majority f x (inr (inr (e2, e3))) =
      ap₂ (λ u v. t.median3 (f 1) u v) e2 e3
      ∙ m.swap_first (f 1) x x
      ∙ m.swap_last x (f 1) x
      ∙ median_pair x (f 1)

module _ {V : Type 0} (a : Access V) (c : Combiner V) (r : Ready a c) where
  -- Without downselect mode `validate_and_combine` returns true. With one source connected each output
  -- becomes that source's input, with two the greater of the two, and with three the median; no other
  -- element changes, and with no source connected none at all.
  pub validate_and_combine-Voted :
      (invalid accepted : ℤ) (before : Elements V)
      → c.downselect ≡ false
      → (after : Elements V) × (validate_and_combine a c invalid accepted before
          ≡ some (refreshed_combiner a c r invalid accepted, after, true))
        × Voted a c r (connected_from 1 (refreshed a c r invalid accepted)) before after
  validate_and_combine-Voted invalid accepted before off =
      let indices = connected_from 1 (refreshed a c r invalid accepted) in
      let (inside, short) = connected-InRange a c r invalid accepted in
      let (after, e, voted) = dispatch_bins_lem a c r indices before inside short in
      (
        after,
        validate_and_combine-go a c r invalid accepted before after indices
            (ap (λ b. if b then select_source a c indices before else some indices) off) e,
        voted,
      )

  abbrev n : ℕ
  n = c.num_sources + 1

  -- Where two of the three inputs of an output are the same, the output is what they are.
  abbrev pub Masked : (bins : List (Bin V)) → Laid a n bins → Elements V → Elements V → Type 0
  Masked [] l before after = Unit
  Masked (bin ∷ rest) (w, _, l) before after =
      ((k : ℕ) (x : V)
        → k < w.count
        → Majority (λ s. before (cell n bin k s)) x
        → after (cell n bin k 0) ≡ x)
      × Masked rest l before after

  Combined-Masked :
      (i j k : ℕ) (is : List ℕ) (bins : List (Bin V)) (l : Laid a n bins)
      (before after : Elements V)
      → All (λ bin. MedianLaws bin.type) bins
      → Combined a n (choose_of (i ∷ j ∷ k ∷ is)) bins l before after
      → Masked bins l before after
  Combined-Masked i j k is [] l before after m done = tt
  Combined-Masked i j k is (bin ∷ rest) (w, _, l) before after (m, ms) (done, dones) = (
    λ b x h two. done b h ∙ median-Majority bin.type m (λ s. before (cell n bin b s)) x two,
    Combined-Masked i j k is rest l before after ms dones,
  )

  -- With three sources connected and no downselect mode, one faulty source is masked: an output for
  -- which two of the three sources give the same value gets that value, whatever the third one gives.
  pub validate_and_combine-Masked :
      (invalid accepted : ℤ) (before : Elements V)
      → c.downselect ≡ false
      → All (λ bin. MedianLaws bin.type) c.bins
      → connected_from 1 (refreshed a c r invalid accepted) ≡ 1 ∷ 2 ∷ 3 ∷ []
      → (after : Elements V) × (validate_and_combine a c invalid accepted before
          ≡ some (refreshed_combiner a c r invalid accepted, after, true))
        × Masked c.bins r.laid before after
  validate_and_combine-Masked invalid accepted before off laws all =
      let (after, e, voted) = validate_and_combine-Voted invalid accepted before off in
      (
        after,
        e,
        Combined-Masked 1 2 3 [] c.bins r.laid before after laws
            (subst (λ is. Voted a c r is before after) all voted).0,
      )
