-- ===== src/SlateCombiner/Tests.antt =====
-- Three sources, one bin with two elements of natural numbers.
use codon.Prelude.{
  ℕ, zero, suc, ◌+◌, ◌*◌, ◌<◌, ◌≡◌, refl, Bool, true, false, [], ◌∷◌, some, arith, ltb, ◌==◌,
  if◌then◌else◌,
}
use codon.Prelude.Int.{pos, negsuc}
use codon.SlateCombiner.Types.{ElementType, Bin, Source, Combiner, Access, Elements}
use codon.SlateCombiner.Combine.{
  connected_from, validate_and_combine, refresh_source, refresh_sources, age_source, is_updated,
}
use codon.SlateCombiner.Outputs.{WellFormed, cell}
use codon.SlateCombiner.Voting.{Ready, Voted, refreshed, refreshed_combiner}
use codon.SlateCombiner.Masking.{
  MedianLaws, Masked, validate_and_combine-Voted, validate_and_combine-Masked,
}
use codon.SlateCombiner.Downselect.{agree_all, pick, validate_and_combine-downselect}
use codon.SlateCombiner.Freshness.{cycles, cycles-connected}

abbrev median_of_three : ℕ → ℕ → ℕ → ℕ
median_of_three x y z =
    if ltb x y
    then (if ltb y z then y else (if ltb x z then z else x))
    else (if ltb x z then x else (if ltb y z then z else y))

abbrev numbers : ElementType ℕ
numbers = record { eq = ◌==◌; lt = ltb; median3 = median_of_three }

numbers-laws : MedianLaws numbers
numbers-laws = record {
  swap_first = λ x y z. ground arith;
  swap_last = λ x y z. ground arith;
  middle = λ x y z e1 e2. ground arith;
  irreflexive = λ x. ground arith;
  asymmetric = λ x y e. ground arith;
}

abbrev bin : Bin ℕ
bin = record { ids = 0 ∷ 1 ∷ 2 ∷ 3 ∷ 4 ∷ 5 ∷ 6 ∷ 7 ∷ []; type = numbers }

-- Identifiers below 16 can be written, and elements hold what is written to them.
abbrev access : Access ℕ
access = record { can_write = λ id. ltb id 16; write = λ id old new. (new, true) }

abbrev source : Source
source = record { fresh = pos 7; fresh_last = pos 6; fresh_age = 1; connected = false }

abbrev combiner : Bool → Combiner ℕ
combiner downselect = record {
  is_init = true;
  downselect = downselect;
  num_sources = 3;
  stale_threshold = 2;
  bins = bin ∷ [];
  sources = source ∷ source ∷ source ∷ [];
  combined_connected = false;
}

-- The second source is faulty in its first element.
abbrev slate : Elements ℕ
slate id = if id == 2 then 99 else 40

cell_at : (k s : ℕ) → k < 2 → s < 4 → cell 4 bin k s ≡ 4 * k + s
cell_at zero zero h1 h2 = refl
cell_at zero (suc zero) h1 h2 = refl
cell_at zero (suc (suc zero)) h1 h2 = refl
cell_at zero (suc (suc (suc zero))) h1 h2 = refl
cell_at zero (suc (suc (suc (suc s)))) h1 h2 = absurd (omega arith)
cell_at (suc zero) zero h1 h2 = refl
cell_at (suc zero) (suc zero) h1 h2 = refl
cell_at (suc zero) (suc (suc zero)) h1 h2 = refl
cell_at (suc zero) (suc (suc (suc zero))) h1 h2 = refl
cell_at (suc zero) (suc (suc (suc (suc s)))) h1 h2 = absurd (omega arith)
cell_at (suc (suc k)) s h1 h2 = absurd (omega arith)

bin-WellFormed : WellFormed access 4 bin
bin-WellFormed = record {
  count = 2;
  whole = refl;
  writable = λ k h. ground (arith, cell_at k 0 h (omega arith));
  plain = λ k h old new. refl;
  distinct = λ k j h1 h2 ne e.
      ne (omega (arith, cell_at k 0 h1 (omega arith), cell_at j 0 h2 (omega arith), e));
  apart = λ k j s h1 h2 lo hi e. omega (arith, cell_at k 0 h1 (omega arith), cell_at j s h2 hi, e);
}

ready : Ready access (combiner false)
ready = record { init = refl; sized = refl; few = omega arith; laid = (bin-WellFormed, tt, tt) }

ready_downselect : Ready access (combiner true)
ready_downselect = record {
  init = refl;
  sized = refl;
  few = omega arith;
  laid = (bin-WellFormed, tt, tt);
}

validate_and_combine-Voted_example :
    (after : Elements ℕ) × (validate_and_combine access (combiner false) (negsuc 0) (negsuc 0) slate
      ≡ some (refreshed_combiner access (combiner false) ready (negsuc 0) (negsuc 0), after, true))
    × Voted access
        (combiner false)
        ready
        (connected_from 1 (refreshed access (combiner false) ready (negsuc 0) (negsuc 0)))
        slate
        after
validate_and_combine-Voted_example =
    validate_and_combine-Voted access (combiner false) ready (negsuc 0) (negsuc 0) slate refl

all_connected :
    connected_from 1 (refreshed access (combiner false) ready (negsuc 0) (negsuc 0))
    ≡ 1 ∷ 2 ∷ 3 ∷ []
unfolding connected_from refresh_sources refresh_source age_source is_updated
all_connected = refl

validate_and_combine-Masked_example :
    (after : Elements ℕ) × (validate_and_combine access (combiner false) (negsuc 0) (negsuc 0) slate
      ≡ some (refreshed_combiner access (combiner false) ready (negsuc 0) (negsuc 0), after, true))
    × Masked access (combiner false) ready (combiner false).bins ready.laid slate after
validate_and_combine-Masked_example =
    validate_and_combine-Masked access (combiner false) ready (negsuc 0) (negsuc 0) slate refl
      (numbers-laws, tt) all_connected

validate_and_combine-downselect_example :
    (after : Elements ℕ) × (validate_and_combine access (combiner true) (negsuc 0) (negsuc 0) slate
      ≡ some (
        refreshed_combiner access (combiner true) ready_downselect (negsuc 0) (negsuc 0),
        after,
        true,
      ))
    × Voted access
        (combiner true)
        ready_downselect
        (pick access
          (combiner true)
          (connected_from 1
            (refreshed access (combiner true) ready_downselect (negsuc 0) (negsuc 0)))
          (agree_all access (combiner true) slate (combiner true).bins ready_downselect.laid))
        slate
        after
validate_and_combine-downselect_example =
    validate_and_combine-downselect access (combiner true) ready_downselect (negsuc 0) (negsuc 0)
      slate refl

abbrev quiet : Source
quiet = record { fresh = pos 7; fresh_last = pos 7; fresh_age = 0; connected = true }

quiet-idle : is_updated (negsuc 0) (negsuc 0) quiet ≡ false
unfolding is_updated
quiet-idle = refl

cycles-connected_example : (cycles 2 (negsuc 0) 2 quiet).connected ≡ ltb 2 2
cycles-connected_example =
    cycles-connected 2 (negsuc 0) 1 quiet (omega arith) (omega arith) quiet-idle
