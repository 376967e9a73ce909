-- ===== src/SlateCombiner/Combine.antt =====
-- `validate_and_combine` and `combine`. `none` is a failed FswAssert, which ends the process, or a
-- read past the end of a vector.
use codon.Prelude.{
  ℕ, ◌+◌, ◌^◌, ◌%◌, Bool, true, false, not, ◌&&◌, ◌||◌, ◌>>=◌, List, [], ◌∷◌, Option, none, some,
  ltb, leb, if◌then◌else◌, length,
}
use codon.Prelude.Int.{ℤ, pos, eqb_ℤ}
use codon.SlateCombiner.Types.{
  Bin, Source, Combiner, Access, Elements, num_sources_max, seq_default,
}
use codon.SlateCombiner.Bins.{bin_eq, bin_copy, bin_max, bin_median}

-- The part of the loop over the sources that finds out whether one has updated. `invalid` is
-- `sharer_invalid_sequence_number`, which is not in the repository.
unfoldable pub is_updated : ℤ → ℤ → Source → Bool
is_updated invalid accepted_sequence_number source =
    if not (eqb_ℤ source.fresh (pos 0)) && not (eqb_ℤ source.fresh seq_default)
    then (if eqb_ℤ accepted_sequence_number invalid
        then not (eqb_ℤ source.fresh source.fresh_last)
        else eqb_ℤ source.fresh accepted_sequence_number)
    else false

-- The age, a UINT8, and the last freshness of one source.
unfoldable pub age_source : ℕ → Bool → Source → Source
age_source stale_threshold updated_this_cycle source =
    if updated_this_cycle
    then record source { fresh_last = source.fresh; fresh_age = 0 }
    else if ltb source.fresh_age stale_threshold
    then record source { fresh_age = (source.fresh_age + 1) % 2 ^ 8 }
    else source

-- One pass of the loop over the sources.
unfoldable pub refresh_source : ℕ → ℤ → ℤ → Source → Source
refresh_source stale_threshold invalid accepted_sequence_number source =
    let aged =
      age_source stale_threshold (is_updated invalid accepted_sequence_number source)
        (record source { connected = false }) in
    record aged { connected = ltb aged.fresh_age stale_threshold }

unfoldable pub refresh_sources : ℕ → ℤ → ℤ → List Source → List Source
refresh_sources stale_threshold invalid accepted_sequence_number [] = []
refresh_sources stale_threshold invalid accepted_sequence_number (source ∷ rest) =
    refresh_source stale_threshold invalid accepted_sequence_number source
    ∷ refresh_sources stale_threshold invalid accepted_sequence_number rest

-- `indices`: the numbers, from 1, of the connected ones among the sources from number `i` on.
unfoldable pub connected_from : ℕ → List Source → List ℕ
connected_from i [] = []
connected_from i (source ∷ rest) =
    if source.connected then i ∷ connected_from (i + 1) rest else connected_from (i + 1) rest

unfoldable pub any_connected : List Source → Bool
any_connected [] = false
any_connected (source ∷ rest) = source.connected || any_connected rest

module _ {V : Type 0} (a : Access V) (c : Combiner V) where
  -- A loop over the bins around an FswAssert.
  unfoldable pub for_bins :
      (Bin V → Elements V → Option (Elements V × Bool))
      → List (Bin V)
      → Elements V
      → Option (Elements V)
  for_bins bin_fn [] slate = some slate
  for_bins bin_fn (bin ∷ rest) slate = elim (bin_fn bin slate) [
    | none ↦ none
    | some (slate', false) ↦ none
    | some (slate', true) ↦ for_bins bin_fn rest slate'
  ]

  unfoldable pub bins_eq : ℕ → ℕ → List (Bin V) → Elements V → Bool → Option Bool
  bins_eq src1 src2 [] slate result = some result
  bins_eq src1 src2 (bin ∷ rest) slate result = elim (bin_eq a c src1 src2 bin slate result) [
    | none ↦ none
    | some (result', false) ↦ none
    | some (result', true) ↦ bins_eq src1 src2 rest slate result'
  ]

  -- The `switch` of downselect mode: the indices it leaves.
  unfoldable pub select_source : List ℕ → Elements V → Option (List ℕ)
  select_source (i ∷ []) slate = some (i ∷ [])
  select_source (i ∷ _ ∷ []) slate = some (i ∷ [])
  select_source (i ∷ _ ∷ _ ∷ []) slate = elim (bins_eq 2 3 c.bins slate true) [
    | none ↦ none
    | some b_eq_c ↦ some ((if b_eq_c then 2 else 1) ∷ [])
  ]
  select_source indices slate = some indices

  -- The last `switch`.
  unfoldable pub dispatch_bins : List ℕ → Elements V → Option (Elements V)
  dispatch_bins (i ∷ []) slate = for_bins (bin_copy a c i) c.bins slate
  dispatch_bins (i ∷ j ∷ []) slate = for_bins (bin_max a c i j) c.bins slate
  dispatch_bins (_ ∷ _ ∷ _ ∷ []) slate = for_bins (bin_median a c) c.bins slate
  dispatch_bins _ slate = some slate

  unfoldable pub validate_and_combine : ℤ → ℤ → Elements V → Option (Combiner V × Elements V × Bool)
  validate_and_combine invalid accepted_sequence_number slate =
      if not c.is_init
      then some (c, slate, false)
      else if not (leb (length c.sources) num_sources_max)
      then none
      else do
        let sources = refresh_sources c.stale_threshold invalid accepted_sequence_number c.sources
        let indices = connected_from 1 sources
        chosen ← if c.downselect then select_source indices slate else some indices
        slate' ← dispatch_bins chosen slate
        some (
          record c { sources = sources; combined_connected = any_connected sources },
          slate',
          true,
        )

  unfoldable pub combine : ℤ → Elements V → Option (Combiner V × Elements V × Bool)
  combine invalid slate =
      if not c.is_init then some (c, slate, false) else validate_and_combine invalid invalid slate
