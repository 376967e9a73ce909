-- ===== src/SlateCombiner/Voting.antt =====
-- What `validate_and_combine` writes, by the sources that are connected.
use codon.Prelude.{
  ℕ, suc, ◌+◌, ◌<◌, ◌≤◌, ◌≡◌, refl, subst, ap, ap₂, ◌∙◌, Bool, true, false, ◌>>=◌, List, [], ◌∷◌,
  Option, some, arith, leb, if◌then◌else◌, length, All, guard, bind_some,
}
use codon.Prelude.Int.{ℤ}
use codon.SlateCombiner.Types.{ElementType, Source, Combiner, Access, Elements, num_sources_max}
use codon.SlateCombiner.Bins.{max, bin_copy, bin_max, bin_median}
use codon.SlateCombiner.Combine.{
  refresh_sources, connected_from, any_connected, select_source, dispatch_bins,
  validate_and_combine,
}
use codon.SlateCombiner.Passes.{bin_copy-Written, bin_max-Written, bin_median-Written}
use codon.SlateCombiner.Layout.{Laid, Combined, Untouched, for_bins_lem}

-- The number of a connected source is that of a source.
abbrev InRange : ℕ → ℕ → ℕ → Type 0
InRange low high i = (low ≤ i) × (i < high)

All-InRange-weaken :
    (low low' high : ℕ) (is : List ℕ)
    → low ≤ low'
    → All (InRange low' high) is
    → All (InRange low high) is
All-InRange-weaken low low' high [] h x = tt
All-InRange-weaken low low' high (i ∷ is) h ((lo, hi), rest) =
    ((omega arith, hi), All-InRange-weaken low low' high is h rest)

cons_if :
    (b : Bool) (i high most : ℕ) (is : List ℕ)
    → All (InRange (i + 1) high) is
    → length is ≤ most
    → i < high
    → All (InRange i high) (if b then i ∷ is else is)
      × (length (if b then i ∷ is else is) ≤ suc most)
cons_if true i high most is inside short h =
    (((omega arith, h), All-InRange-weaken i (i + 1) high is (omega arith) inside), omega arith)
cons_if false i high most is inside short h =
    (All-InRange-weaken i (i + 1) high is (omega arith) inside, omega arith)

pub connected_from-InRange :
    (i : ℕ) (sources : List Source)
    → All (InRange i (i + length sources)) (connected_from i sources)
      × (length (connected_from i sources) ≤ length sources)
unfolding connected_from
connected_from-InRange i [] = (tt, omega arith)
connected_from-InRange i (source ∷ rest) =
    let (inside, short) = connected_from-InRange (i + 1) rest in
    let e : i + 1 + length rest ≡ i + suc (length rest) = omega arith in
    cons_if source.connected i (i + suc (length rest)) (length rest) (connected_from (i + 1) rest)
      (subst (λ high. All (InRange (i + 1) high) (connected_from (i + 1) rest)) e inside) short
      (omega arith)

length-refresh_sources :
    (threshold : ℕ) (invalid accepted : ℤ) (sources : List Source)
    → length (refresh_sources threshold invalid accepted sources) ≡ length sources
unfolding refresh_sources
length-refresh_sources threshold invalid accepted [] = refl
length-refresh_sources threshold invalid accepted (source ∷ rest) =
    ap suc (length-refresh_sources threshold invalid accepted rest)

-- The value of a batch from the inputs of the sources in `indices`.
abbrev pub choose_of : {V : Type 0} → List ℕ → ElementType V → (ℕ → V) → V
choose_of (i ∷ []) t f = f i
choose_of (i ∷ j ∷ []) t f = max t (f i) (f j)
choose_of _ t f = t.median3 (f 1) (f 2) (f 3)

module _ {V : Type 0} (a : Access V) (c : Combiner V) where
  -- A combiner as `init` leaves it.
  pub record Ready : Type 0 where
    pub init : c.is_init ≡ true
    pub sized : length c.sources ≡ c.num_sources
    pub few : c.num_sources ≤ num_sources_max
    pub laid : Laid a (c.num_sources + 1) c.bins

  module _ (r : Ready) where
    abbrev n : ℕ
    n = c.num_sources + 1

    -- With no source connected nothing changes, and otherwise only the outputs do.
    abbrev pub Voted : List ℕ → Elements V → Elements V → Type 0
    Voted [] before after = after ≡ before
    Voted (i ∷ is) before after =
        Combined a n (choose_of (i ∷ is)) c.bins r.laid before after
        × Untouched a n c.bins r.laid before after

    pub dispatch_bins_lem :
        (indices : List ℕ) (before : Elements V)
        → All (InRange 1 n) indices
        → length indices ≤ c.num_sources
        → (after : Elements V) × (dispatch_bins a c indices before ≡ some after)
          × Voted indices before after
    unfolding dispatch_bins
    dispatch_bins_lem [] before inside short = (before, refl, refl)
    dispatch_bins_lem (i ∷ []) before ((lo, hi), _) short =
        for_bins_lem a n c (bin_copy a c i) (choose_of (i ∷ [])) (omega arith)
          (λ t f g same. same i (omega arith) hi)
          (λ bin w slate. bin_copy-Written a c bin r.init w slate i (omega arith) hi) c.bins r.laid
          before
    dispatch_bins_lem (i ∷ j ∷ []) before ((lo, hi), ((lo', hi'), _)) short =
        for_bins_lem a n c (bin_max a c i j) (choose_of (i ∷ j ∷ [])) (omega arith)
          (λ t f g same. ap₂ (max t) (same i (omega arith) hi) (same j (omega arith) hi'))
          (λ bin w slate.
            bin_max-Written a c bin r.init w slate i j (omega arith) hi (omega arith) hi')
          c.bins r.laid before
    dispatch_bins_lem (i ∷ j ∷ k ∷ []) before inside short =
        for_bins_lem a n c (bin_median a c) (choose_of (i ∷ j ∷ k ∷ [])) (omega arith)
          (λ t f g same.
            median_ext t f g (same 1 (omega arith) (omega (arith, short)))
              (same 2 (omega arith) (omega (arith, short)))
              (same 3 (omega arith) (omega (arith, short))))
          (λ bin w slate. bin_median-Written a c bin r.init w slate (omega (arith, short, r.few)))
          c.bins r.laid before
      where
        median_ext :
            (t : ElementType V) (f g : ℕ → V)
            → f 1 ≡ g 1
            → f 2 ≡ g 2
            → f 3 ≡ g 3
            → t.median3 (f 1) (f 2) (f 3) ≡ t.median3 (g 1) (g 2) (g 3)
        median_ext t f g e1 e2 e3 = cc
    dispatch_bins_lem (i ∷ j ∷ k ∷ l ∷ rest) before inside short =
        absurd (omega (arith, short, r.few))

    abbrev pub refreshed : ℤ → ℤ → List Source
    refreshed invalid accepted = refresh_sources c.stale_threshold invalid accepted c.sources

    abbrev pub refreshed_combiner : ℤ → ℤ → Combiner V
    refreshed_combiner invalid accepted = record c {
      sources = refreshed invalid accepted;
      combined_connected = any_connected (refreshed invalid accepted);
    }

    pub connected-InRange :
        (invalid accepted : ℤ)
        → All (InRange 1 n) (connected_from 1 (refreshed invalid accepted))
          × (length (connected_from 1 (refreshed invalid accepted)) ≤ c.num_sources)
    connected-InRange invalid accepted =
        let sources = refreshed invalid accepted in
        let many = length-refresh_sources c.stale_threshold invalid accepted c.sources ∙ r.sized in
        let (inside, short) = connected_from-InRange 1 sources in
        let e : 1 + length sources ≡ n = omega (arith, many) in
        (
          subst (λ high. All (InRange 1 high) (connected_from 1 sources)) e inside,
          omega (arith, many, short),
        )

    -- The tests at the start pass.
    pub validate_and_combine-go :
        (invalid accepted : ℤ) (before after : Elements V) (chosen : List ℕ)
        → (if c.downselect
            then select_source a c (connected_from 1 (refreshed invalid accepted)) before
            else some (connected_from 1 (refreshed invalid accepted)))
          ≡ some chosen
        → dispatch_bins a c chosen before ≡ some after
        → validate_and_combine a c invalid accepted before
          ≡ some (refreshed_combiner invalid accepted, after, true)
    unfolding validate_and_combine
    validate_and_combine-go invalid accepted before after chosen e1 e2 =
        guard _ _ r.init
        ∙ guard _ _ few
        ∙ bind_some (λ chosen. dispatch_bins a c chosen before >>= finish) e1
        ∙ bind_some finish e2
      where
        few : leb (length c.sources) num_sources_max ≡ true
        few = ground (arith, r.few, r.sized)

        finish : Elements V → Option (Combiner V × Elements V × Bool)
        finish slate = some (refreshed_combiner invalid accepted, slate, true)
