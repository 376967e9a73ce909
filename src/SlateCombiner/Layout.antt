-- ===== src/SlateCombiner/Layout.antt =====
-- The loops over all bins of a combiner, whose bins do not share outputs.
use codon.Prelude.{
  ℕ, ◌+◌, ◌<◌, ◌≡◌, ◌≢◌, refl, sym, ◌∙◌, Bool, true, List, [], ◌∷◌, Option, some, get_elem?, All,
}
use codon.SlateCombiner.Types.{ElementType, Bin, Combiner, Access, Elements}
use codon.SlateCombiner.Combine.{for_bins}
use codon.SlateCombiner.Loops.{offset}
use codon.SlateCombiner.Outputs.{cell, WellFormed, cell-some, Written}

module _ {V : Type 0} (a : Access V) (n : ℕ) where
  -- No output of `bin` is an element of `other`.
  abbrev pub Clear : (bin : Bin V) → WellFormed a n bin → Bin V → Type 0
  Clear bin w other =
      (k i id : ℕ) → k < w.count → get_elem? other.ids i ≡ some id → cell n bin k 0 ≢ id

  -- The bins are well-formed, and no output of one is an element of a later one.
  abbrev pub Laid : List (Bin V) → Type 0
  Laid [] = Unit
  Laid (bin ∷ rest) = (w : WellFormed a n bin) × All (Clear bin w) rest × Laid rest

  -- Each output in `after` is chosen from the inputs of its batch in `before`.
  abbrev pub Combined :
      (ElementType V → (ℕ → V) → V)
      → (bins : List (Bin V)) → Laid bins
      → Elements V
      → Elements V
      → Type 0
  Combined choose [] l before after = Unit
  Combined choose (bin ∷ rest) (w, _, l) before after =
      ((k : ℕ)
        → k < w.count
        → after (cell n bin k 0) ≡ choose bin.type (λ s. before (cell n bin k s)))
      × Combined choose rest l before after

  abbrev pub NoOutput : (bins : List (Bin V)) → Laid bins → ℕ → Type 0
  NoOutput [] l id = Unit
  NoOutput (bin ∷ rest) (w, _, l) id =
      ((k : ℕ) → k < w.count → cell n bin k 0 ≢ id) × NoOutput rest l id

  -- All elements but the outputs are as they were.
  abbrev pub Untouched : (bins : List (Bin V)) → Laid bins → Elements V → Elements V → Type 0
  Untouched bins l before after = (id : ℕ) → NoOutput bins l id → after id ≡ before id

  abbrev pub Extensional : (ElementType V → (ℕ → V) → V) → Type 0
  Extensional choose =
      (t : ElementType V) (f g : ℕ → V)
      → ((s : ℕ) → 0 < s → s < n → f s ≡ g s)
      → choose t f ≡ choose t g

  -- The elements of the bins are the same in both.
  abbrev Agree : Elements V → Elements V → Bin V → Type 0
  Agree before middle bin = (i id : ℕ) → get_elem? bin.ids i ≡ some id → middle id ≡ before id

  Combined-before :
      (choose : ElementType V → (ℕ → V) → V)
      → Extensional choose
      → (bins : List (Bin V)) (l : Laid bins) (before middle after : Elements V)
      → All (Agree before middle) bins
      → Combined choose bins l middle after
      → Combined choose bins l before after
  Combined-before choose ext [] l before middle after same done = tt
  Combined-before choose ext (bin ∷ rest) (w, cl, l) before middle after (same, sames)
        (done, dones) =
      (
        λ k h.
            done k h
            ∙ ext bin.type _ _ (λ s pos in_.
              same (offset n k + s) (cell n bin k s) (cell-some a n bin w k s h in_)),
        Combined-before choose ext rest l before middle after sames dones,
      )

  Clear-NoOutput :
      (bin : Bin V) (w : WellFormed a n bin) (bins : List (Bin V)) (l : Laid bins)
      → 0 < n
      → All (Clear bin w) bins
      → (k : ℕ) → k < w.count
      → NoOutput bins l (cell n bin k 0)
  Clear-NoOutput bin w [] l pos cl k h = tt
  Clear-NoOutput bin w (other ∷ rest) (w', _, l) pos (cl, cls) k h = (
    λ j lt e.
        cl k (offset n j + 0) (cell n other j 0) h (cell-some a n other w' j 0 lt pos) (sym e),
    Clear-NoOutput bin w rest l pos cls k h,
  )

  Clear-Agree :
      (bin : Bin V) (w : WellFormed a n bin) (bins : List (Bin V)) (before middle : Elements V)
      → All (Clear bin w) bins
      → ((id : ℕ) → ((j : ℕ) → j < w.count → cell n bin j 0 ≢ id) → middle id ≡ before id)
      → All (Agree before middle) bins
  Clear-Agree bin w [] before middle cl same = tt
  Clear-Agree bin w (other ∷ rest) before middle (cl, cls) same =
      (λ i id e. same id (λ j lt. cl j i id lt e), Clear-Agree bin w rest before middle cls same)

  -- A loop over the bins whose calls choose the outputs of one bin chooses those of all.
  pub for_bins_lem :
      (c : Combiner V) (fn : Bin V → Elements V → Option (Elements V × Bool))
      → (choose : ElementType V → (ℕ → V) → V) → 0 < n
      → Extensional choose
      → ((bin : Bin V) (w : WellFormed a n bin) (before : Elements V)
          → (after : Elements V) × (fn bin before ≡ some (after, true))
            × Written a n bin w (choose bin.type) before w.count after)
      → (bins : List (Bin V)) (l : Laid bins) (before : Elements V)
      → (after : Elements V) × (for_bins a c fn bins before ≡ some after)
        × (Combined choose bins l before after × Untouched bins l before after)
  unfolding for_bins
  for_bins_lem c fn choose pos ext runs [] l before = (before, refl, (tt, λ id h. refl))
  for_bins_lem c fn choose pos ext runs (bin ∷ rest) (w, cl, l) before =
      let (middle, e1, wr) = runs bin w before in
      let (after, e2, (done, kept)) = for_bins_lem c fn choose pos ext runs rest l middle in
      (
        after,
        rw (e1, for_bins) e2,
        (
          (
            λ k h. kept (cell n bin k 0) (Clear-NoOutput bin w rest l pos cl k h) ∙ wr.outputs k h,
            Combined-before choose ext rest l before middle after
                (Clear-Agree bin w rest before middle cl wr.others) done,
          ),
          λ id (here, there). kept id there ∙ wr.others id here,
        ),
      )
