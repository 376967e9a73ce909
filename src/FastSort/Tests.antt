-- ===== src/FastSort/Tests.antt =====
-- The sort at small arrays.
use codon.Prelude.{ℕ, ◌≡◌, refl, List, [], ◌∷◌, arith}
use codon.FastSort.Passes.{sort_by_byte, sort_rounds, sort_internal, sort_signed}
use codon.FastSort.Scatter.{gathered}
use codon.FastSort.Sorting.{Sorted, occurs, low}
use codon.FastSort.Rounds.{sort_by_byte-gathered}
use codon.FastSort.Sorts.{sort_internal_lem}
use codon.FastSort.Signed.{SignedSorted, sort_signed_lem}

abbrev words : List ℕ
words = 513 ∷ 2 ∷ 65535 ∷ 256 ∷ 2 ∷ []

abbrev spare : List ℕ
spare = 0 ∷ 0 ∷ 0 ∷ 0 ∷ 0 ∷ []

abbrev signed_bytes : List ℕ
signed_bytes = 1 ∷ 255 ∷ 128 ∷ 127 ∷ 0 ∷ []

sort_by_byte-gathered_example : sort_by_byte 2 1 words spare ≡ gathered 1 256 0 words
sort_by_byte-gathered_example =
    sort_by_byte-gathered 2 1 words spare (omega arith) refl (omega arith)

sort_internal_lem_example :
    Sorted (low 2) (sort_internal 2 spare words)
    × ((v : ℕ) → occurs v (sort_internal 2 spare words) ≡ occurs v words)
sort_internal_lem_example = sort_internal_lem 2 spare words (omega arith) refl (omega arith)

sort_signed_lem_example :
    SignedSorted 1 (sort_signed 1 spare signed_bytes)
    × ((v : ℕ) → occurs v (sort_signed 1 spare signed_bytes) ≡ occurs v signed_bytes)
sort_signed_lem_example =
    sort_signed_lem 1 spare signed_bytes (omega arith)
      (omega arith, (omega arith, (omega arith, (omega arith, (omega arith, tt))))) refl
      (omega arith)

sort_signed_run : sort_signed 1 spare signed_bytes ≡ 128 ∷ 255 ∷ 0 ∷ 1 ∷ 127 ∷ []
unfolding sort_signed sort_internal sort_rounds sort_by_byte
sort_signed_run = refl
