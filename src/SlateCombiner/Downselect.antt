-- ===== src/SlateCombiner/Downselect.antt =====
-- Downselect mode: the outputs are all copied from one source, chosen by comparing the second and the
-- third.
use codon.Prelude.{
  ℕ, zero, suc, ◌+◌, ◌<◌, ◌≤◌, ◌≡◌, refl, sym, ap, ◌∙◌, Bool, true, false, ◌&&◌, List, [], ◌∷◌,
  some, arith, if◌then◌else◌, get_elem?, length, All, guard, bind_some,
}
use codon.Prelude.Int.{ℤ}
use codon.SlateCombiner.Types.{Bin, Combiner, Access, Elements, load}
use codon.SlateCombiner.Bins.{eq_pass, bin_eq, load_at}
use codon.SlateCombiner.Combine.{connected_from, bins_eq, select_source, validate_and_combine}
use codon.SlateCombiner.Loops.{offset, for_batches_lem}
use codon.SlateCombiner.Outputs.{WellFormed, cell, cell-some}
use codon.SlateCombiner.Layout.{Laid}
use codon.SlateCombiner.Voting.{
  Ready, Voted, refreshed, refreshed_combiner, connected-InRange, dispatch_bins_lem,
  validate_and_combine-go,
}

module _ {V : Type 0} (a : Access V) (c : Combiner V) where
  abbrev n : ℕ
  n = c.num_sources + 1

  module _ (slate : Elements V) where
    -- The second and the third source agree on the batches before `k`.
    abbrev pub agree_before : Bin V → ℕ → Bool
    agree_before bin zero = true
    agree_before bin (suc k) =
        agree_before bin k && bin.type.eq (slate (cell n bin k 2)) (slate (cell n bin k 3))

    abbrev pub agree_all : (bins : List (Bin V)) → Laid a n bins → Bool
    agree_all [] l = true
    agree_all (bin ∷ rest) (w, _, l) = agree_before bin w.count && agree_all rest l

    eq_pass_at :
        (bin : Bin V) (i id1 id2 : ℕ) (result : Bool)
        → get_elem? bin.ids (i + 2) ≡ some id1
        → get_elem? bin.ids (i + 3) ≡ some id2
        → eq_pass a c 2 3 bin slate i result ≡ some (result && bin.type.eq (slate id1) (slate id2))
    unfolding eq_pass load
    eq_pass_at bin i id1 id2 result e1 e2 =
        rw (e1, eq_pass, load_at) (rw (e2, eq_pass, load_at) refl)

    and_assoc : (x y z : Bool) → ((x && y) && z) ≡ (x && (y && z))
    and_assoc true y z = refl
    and_assoc false y z = refl

    and_true : (x : Bool) → (x && true) ≡ x
    and_true true = refl
    and_true false = refl

    bin_eq_lem :
        (bin : Bin V)
        → c.is_init ≡ true
        → 3 ≤ c.num_sources
        → (w : WellFormed a n bin) (result : Bool)
        → bin_eq a c 2 3 bin slate result ≡ some (result && agree_before bin w.count, true)
    unfolding bin_eq
    bin_eq_lem bin init three w result =
        let (end, e, same) =
          for_batches_lem w.count n (eq_pass a c 2 3 bin slate)
            (λ k x. x ≡ (result && agree_before bin k)) (omega arith)
            (λ k x h now. (
              x && bin.type.eq (slate (cell n bin k 2)) (slate (cell n bin k 3)),
              eq_pass_at bin (offset n k) (cell n bin k 2) (cell n bin k 3) x
                  (cell-some a n bin w k 2 h (omega arith))
                  (cell-some a n bin w k 3 h (omega arith)),
              ap (λ y. y && bin.type.eq (slate (cell n bin k 2)) (slate (cell n bin k 3))) now
                  ∙ and_assoc result (agree_before bin k)
                      (bin.type.eq (slate (cell n bin k 2)) (slate (cell n bin k 3))),
            ))
            result (sym (and_true result)) in
        guard _ _ init
        ∙ bind_some (λ x. some (x, true)) (rw w.whole e)
        ∙ ap (λ x. some (x, true)) same

    bins_eq_lem :
        (bins : List (Bin V)) (l : Laid a n bins) (result : Bool)
        → c.is_init ≡ true
        → 3 ≤ c.num_sources
        → bins_eq a c 2 3 bins slate result ≡ some (result && agree_all bins l)
    unfolding bins_eq
    bins_eq_lem [] l result init three = ap some (sym (and_true result))
    bins_eq_lem (bin ∷ rest) (w, cl, l) result init three =
        rw (bin_eq_lem bin init three w result, bins_eq)
          (bins_eq_lem rest l (result && agree_before bin w.count) init three
            ∙ ap some (and_assoc result (agree_before bin w.count) (agree_all rest l)))

  -- The source that is copied: the first that is connected, but the second where all three are and the
  -- second and the third agree.
  abbrev pub pick : List ℕ → Bool → List ℕ
  pick (i ∷ j ∷ k ∷ []) agree = (if agree then 2 else 1) ∷ []
  pick (i ∷ _) agree = i ∷ []
  pick [] agree = []

  module _ (r : Ready a c) where
    abbrev Fits : List ℕ → Type 0
    Fits is = All (λ i. (1 ≤ i) × (i < n)) is × (length is ≤ c.num_sources)

    select_source_lem :
        (before : Elements V) (indices : List ℕ)
        → Fits indices
        → (select_source a c indices before ≡ some (pick indices (agree_all before c.bins r.laid)))
          × Fits (pick indices (agree_all before c.bins r.laid))
    unfolding select_source
    select_source_lem before [] (inside, short) = (refl, (tt, short))
    select_source_lem before (i ∷ []) fits = (refl, fits)
    select_source_lem before (i ∷ j ∷ []) ((first, _), short) =
        (refl, ((first, tt), omega (arith, short)))
    select_source_lem before (i ∷ j ∷ k ∷ []) (inside, short) = (
      rw (bins_eq_lem before c.bins r.laid true r.init (omega (arith, short)), select_source) refl,
      in_range (agree_all before c.bins r.laid),
    )
      where
        in_range : (b : Bool) → Fits ((if b then 2 else 1) ∷ [])
        in_range true = (((omega arith, omega (arith, short)), tt), omega (arith, short))
        in_range false = (((omega arith, omega (arith, short)), tt), omega (arith, short))
    select_source_lem before (i ∷ j ∷ k ∷ l ∷ rest) (inside, short) =
        absurd (omega (arith, short, r.few))

    -- In downselect mode `validate_and_combine` returns true and copies all outputs from one and the
    -- same source: the first that is connected, but the second where three are connected and the second
    -- and the third give equal values everywhere. No other element changes.
    pub validate_and_combine-downselect :
        (invalid accepted : ℤ) (before : Elements V)
        → c.downselect ≡ true
        → (after : Elements V) × (validate_and_combine a c invalid accepted before
            ≡ some (refreshed_combiner a c r invalid accepted, after, true))
          × Voted a c r
              (pick
                (connected_from 1 (refreshed a c r invalid accepted))
                (agree_all before c.bins r.laid))
              before
              after
    validate_and_combine-downselect invalid accepted before on =
        let indices = connected_from 1 (refreshed a c r invalid accepted) in
        let (picked, (inside, short)) =
          select_source_lem before indices (connected-InRange a c r invalid accepted) in
        let chosen = pick indices (agree_all before c.bins r.laid) in
        let (after, e, voted) = dispatch_bins_lem a c r chosen before inside short in
        (
          after,
          validate_and_combine-go a c r invalid accepted before after chosen
              (ap (λ b. if b then select_source a c indices before else some indices) on ∙ picked)
              e,
          voted,
        )
