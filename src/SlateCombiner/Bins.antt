-- ===== src/SlateCombiner/Bins.antt =====
-- `bin_eq`, `bin_copy`, `bin_max` and `bin_median`. `none` is a read past the end of a vector.
use codon.Prelude.{
  ℕ, zero, suc, ◌+◌, Bool, true, false, not, ◌&&◌, ◌>>=◌, Option, none, some, ltb, ◌==◌,
  if◌then◌else◌, get_elem?, length,
}
use codon.SlateCombiner.Types.{
  ElementType, Bin, Combiner, Access, Elements, load, store, num_sources_max,
}

-- `for (i = 0; i < size; i += stride)`, from `i` on. One unit of fuel for each pass.
unfoldable pub for_batches : {A : Type 0} → ℕ → ℕ → ℕ → (ℕ → A → Option A) → ℕ → A → Option A
for_batches zero size stride body i a = if ltb i size then none else some a
for_batches (suc fuel) size stride body i a =
    if ltb i size
    then elim (body i a) [
      | none ↦ none
      | some a' ↦ for_batches fuel size stride body (i + stride) a'
    ]
    else some a

-- `std::max`
abbrev pub max : {V : Type 0} → ElementType V → V → V → V
max t a b = if t.lt a b then b else a

module _ {V : Type 0} (a : Access V) (c : Combiner V) where
  abbrev stride : ℕ
  stride = c.num_sources + 1

  -- `slate.load<T>(bin.ids[i])`
  abbrev pub load_at : Bin V → Elements V → ℕ → Option V
  load_at bin slate i = elim (get_elem? bin.ids i) [ none ↦ none | some id ↦ some (load slate id) ]

  -- `success &= slate.store<T>(bin.ids[i], val)`
  abbrev pub store_at : Bin V → ℕ → V → Elements V × Bool → Option (Elements V × Bool)
  store_at bin i val (slate, success) = elim (get_elem? bin.ids i) [
    | none ↦ none
    | some id ↦ let (slate', ok) = store a slate id val in some (slate', success && ok)
  ]

  unfoldable pub eq_pass : ℕ → ℕ → Bin V → Elements V → ℕ → Bool → Option Bool
  eq_pass src1 src2 bin slate i result = do
    v1 ← load_at bin slate (i + src1)
    v2 ← load_at bin slate (i + src2)
    some (result && bin.type.eq v1 v2)

  -- Returns `result` and the success.
  unfoldable pub bin_eq : ℕ → ℕ → Bin V → Elements V → Bool → Option (Bool × Bool)
  bin_eq src1 src2 bin slate result = if not c.is_init then some (result, false) else do
    result' ←
        for_batches (length bin.ids) (length bin.ids) stride (eq_pass src1 src2 bin slate) 0 result
    some (result', true)

  unfoldable pub copy_pass : ℕ → Bin V → ℕ → Elements V × Bool → Option (Elements V × Bool)
  copy_pass src bin i (slate, success) = do
    val ← load_at bin slate (i + src)
    store_at bin i val (slate, success)

  unfoldable pub bin_copy : ℕ → Bin V → Elements V → Option (Elements V × Bool)
  bin_copy src bin slate =
      if not c.is_init
      then some (slate, false)
      else for_batches (length bin.ids) (length bin.ids) stride (copy_pass src bin) 0 (slate, true)

  unfoldable pub max_pass : ℕ → ℕ → Bin V → ℕ → Elements V × Bool → Option (Elements V × Bool)
  max_pass src1 src2 bin i (slate, success) = do
    val1 ← load_at bin slate (i + src1)
    val2 ← load_at bin slate (i + src2)
    store_at bin i (max bin.type val1 val2) (slate, success)

  unfoldable pub bin_max : ℕ → ℕ → Bin V → Elements V → Option (Elements V × Bool)
  bin_max src1 src2 bin slate =
      if not c.is_init
      then some (slate, false)
      else for_batches (length bin.ids) (length bin.ids) stride (max_pass src1 src2 bin) 0
          (slate, true)

  unfoldable pub median_pass : Bin V → ℕ → Elements V × Bool → Option (Elements V × Bool)
  median_pass bin i (slate, success) = do
    val1 ← load_at bin slate (i + 1)
    val2 ← load_at bin slate (i + 2)
    val3 ← load_at bin slate (i + 3)
    store_at bin i (bin.type.median3 val1 val2 val3) (slate, success)

  unfoldable pub bin_median : Bin V → Elements V → Option (Elements V × Bool)
  bin_median bin slate =
      if not c.is_init
      then some (slate, false)
      else if not (c.num_sources == 3)
      then some (slate, false)
      else for_batches (length bin.ids) (length bin.ids) (num_sources_max + 1) (median_pass bin) 0
          (slate, true)
