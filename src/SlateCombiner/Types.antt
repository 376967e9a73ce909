-- ===== src/SlateCombiner/Types.antt =====
-- The data of SlateCombiner.h, and the slate that it works on.
use codon.Prelude.{ℕ, Bool, false, List, ◌==◌, if◌then◌else◌}
use codon.Prelude.Int.{ℤ, nano_t_min}

-- What a bin's element type gives: `==`, `<`, and `median3` of the math library, which is not in the
-- repository. `V` is a value of any of the types.
pub record ElementType (V : Type 0) : Type 0 where
  pub eq : V → V → Bool
  pub lt : V → V → Bool
  pub median3 : V → V → V → V

-- `element_bin_t`: the elements of one type, in batches of one output and the inputs of the sources.
pub record Bin (V : Type 0) : Type 0 where
  pub ids : List ℕ
  pub type : ElementType V

-- `source_t`: the elements of the slate that its tokens stand for. `fresh` is the source's own.
pub record Source : Type 0 where
  pub fresh : ℤ
  pub fresh_last : ℤ
  pub fresh_age : ℕ
  pub connected : Bool

pub record Combiner (V : Type 0) : Type 0 where
  pub is_init : Bool
  pub downselect : Bool
  pub num_sources : ℕ
  pub stale_threshold : ℕ
  pub bins : List (Bin V)
  pub sources : List Source
  pub combined_connected : Bool

abbrev pub num_sources_max : ℕ
num_sources_max = 3

-- `std::numeric_limits<INT64>::min()`
abbrev pub seq_default : ℤ
seq_default = nano_t_min

-- The elements of the slate by their identifiers.
abbrev pub Elements : Type 0 → Type 0
Elements V = ℕ → V

-- What the slate asks of code outside the repository and of its element types: whether an identifier
-- may be written (`slate_id_breakdown`), and what an element holds after a write over an old value,
-- with the success of the write (`slate_info<T>::copy`, or the element's validator).
pub record Access (V : Type 0) : Type 0 where
  pub can_write : ℕ → Bool
  pub write : ℕ → V → V → V × Bool

abbrev pub put : {V : Type 0} → ℕ → V → Elements V → Elements V
put id v slate i = if i == id then v else slate i

-- `Slate::load` and `Slate::store` by identifier.
unfoldable pub load : {V : Type 0} → Elements V → ℕ → V
load slate id = slate id

unfoldable pub store : {V : Type 0} → Access V → Elements V → ℕ → V → Elements V × Bool
store a slate id value =
    if a.can_write id
    then (let (held, ok) = a.write id (slate id) value in (put id held slate, ok))
    else (slate, false)
