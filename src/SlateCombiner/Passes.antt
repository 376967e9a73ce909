-- ===== src/SlateCombiner/Passes.antt =====
-- `bin_copy`, `bin_max` and `bin_median` on a well-formed bin.
use codon.Prelude.{
  ℕ, ◌+◌, ◌<◌, ◌≡◌, refl, sym, ap, ap₂, ◌∙◌, Bool, true, false, not, ◌&&◌, Option, some, arith,
  ◌==◌, if◌then◌else◌, get_elem?, length,
}
use codon.SlateCombiner.Types.{ElementType, Bin, Combiner, Access, Elements, put, load, store}
use codon.SlateCombiner.Bins.{
  for_batches, max, copy_pass, max_pass, median_pass, bin_copy, bin_max, bin_median, load_at,
  store_at,
}
use codon.SlateCombiner.Loops.{offset}
use codon.SlateCombiner.Outputs.{
  cell, WellFormed, cell-some, Written, store-cell, for_batches-Written,
}

-- The value of a batch from the inputs of its sources.
abbrev pub copy_of : {V : Type 0} → ℕ → (ℕ → V) → V
copy_of src f = f src

abbrev pub max_of : {V : Type 0} → ElementType V → ℕ → ℕ → (ℕ → V) → V
max_of t src1 src2 f = max t (f src1) (f src2)

abbrev pub median_of : {V : Type 0} → ElementType V → (ℕ → V) → V
median_of t f = t.median3 (f 1) (f 2) (f 3)

module _ {V : Type 0} (a : Access V) (c : Combiner V) (bin : Bin V) where
  module _ (i out : ℕ) (slate slate' : Elements V) (ok : Bool)
      (e0 : get_elem? bin.ids i ≡ some out) where
    copy_pass_at :
        (src id : ℕ)
        → get_elem? bin.ids (i + src) ≡ some id
        → store a slate out (slate id) ≡ (slate', true)
        → copy_pass a c src bin i (slate, ok) ≡ some (slate', ok && true)
    unfolding copy_pass load
    copy_pass_at src id e1 s =
        rw (e1, copy_pass, load_at)
          (rw (e0, copy_pass, store_at) (rw (s, copy_pass, store_at) refl))

    max_pass_at :
        (src1 src2 id1 id2 : ℕ)
        → get_elem? bin.ids (i + src1) ≡ some id1
        → get_elem? bin.ids (i + src2) ≡ some id2
        → store a slate out (max bin.type (slate id1) (slate id2)) ≡ (slate', true)
        → max_pass a c src1 src2 bin i (slate, ok) ≡ some (slate', ok && true)
    unfolding max_pass load
    max_pass_at src1 src2 id1 id2 e1 e2 s =
        rw (e1, max_pass, load_at)
          (rw (e2, max_pass, load_at)
            (rw (e0, max_pass, store_at) (rw (s, max_pass, store_at) refl)))

    median_pass_at :
        (id1 id2 id3 : ℕ)
        → get_elem? bin.ids (i + 1) ≡ some id1
        → get_elem? bin.ids (i + 2) ≡ some id2
        → get_elem? bin.ids (i + 3) ≡ some id3
        → store a slate out (bin.type.median3 (slate id1) (slate id2) (slate id3)) ≡ (slate', true)
        → median_pass a c bin i (slate, ok) ≡ some (slate', ok && true)
    unfolding median_pass load
    median_pass_at id1 id2 id3 e1 e2 e3 s =
        rw (e1, median_pass, load_at)
          (rw (e2, median_pass, load_at)
            (rw (e3, median_pass, load_at)
              (rw (e0, median_pass, store_at) (rw (s, median_pass, store_at) refl))))

  module _ (init : c.is_init ≡ true) (w : WellFormed a (c.num_sources + 1) bin)
      (before : Elements V) where
    abbrev n : ℕ
    n = c.num_sources + 1

    output-some : (k : ℕ) → k < w.count → get_elem? bin.ids (offset n k) ≡ some (cell n bin k 0)
    output-some k h =
        let e : offset n k + 0 ≡ offset n k = omega arith in
        sym (ap (get_elem? bin.ids) e) ∙ cell-some a n bin w k 0 h (omega arith)

    if_init : {A : Type 0} (x y : A) → (if not c.is_init then x else y) ≡ y
    if_init x y = ap (λ b. if not b then x else y) init

    median_ext :
        (f g : ℕ → V)
        → f 1 ≡ g 1
        → f 2 ≡ g 2
        → f 3 ≡ g 3
        → median_of bin.type f ≡ median_of bin.type g
    median_ext f g e1 e2 e3 = cc

    pub bin_copy-Written :
        (src : ℕ)
        → 0 < src
        → src < n
        → (after : Elements V) × (bin_copy a c src bin before ≡ some (after, true))
          × Written a n bin w (copy_of src) before w.count after
    unfolding bin_copy
    bin_copy-Written src pos in_ =
        let (after, e, wr) =
          for_batches-Written a n bin w (copy_of src) before (copy_pass a c src bin) (omega arith)
            (λ k slate ok h.
              copy_pass_at (offset n k) (cell n bin k 0) slate
                (put (cell n bin k 0) (slate (cell n bin k src)) slate) ok (output-some k h) src
                (cell n bin k src) (cell-some a n bin w k src h in_)
                (store-cell a n bin w (copy_of src) before k (slate (cell n bin k src)) slate h))
            (λ f g same. same src pos in_) in
        (after, if_init (some (before, false)) _ ∙ e, wr)

    pub bin_max-Written :
        (src1 src2 : ℕ)
        → 0 < src1
        → src1 < n
        → 0 < src2
        → src2 < n
        → (after : Elements V) × (bin_max a c src1 src2 bin before ≡ some (after, true))
          × Written a n bin w (max_of bin.type src1 src2) before w.count after
    unfolding bin_max
    bin_max-Written src1 src2 pos1 in1 pos2 in2 =
        let (after, e, wr) =
          for_batches-Written a n bin w (max_of bin.type src1 src2) before
            (max_pass a c src1 src2 bin) (omega arith)
            (λ k slate ok h.
              let v = max bin.type (slate (cell n bin k src1)) (slate (cell n bin k src2)) in
              max_pass_at (offset n k) (cell n bin k 0) slate (put (cell n bin k 0) v slate) ok
                (output-some k h) src1 src2 (cell n bin k src1) (cell n bin k src2)
                (cell-some a n bin w k src1 h in1) (cell-some a n bin w k src2 h in2)
                (store-cell a n bin w (max_of bin.type src1 src2) before k v slate h))
            (λ f g same. ap₂ (max bin.type) (same src1 pos1 in1) (same src2 pos2 in2)) in
        (after, if_init (some (before, false)) _ ∙ e, wr)

    pub bin_median-Written :
        c.num_sources ≡ 3
        → (after : Elements V) × (bin_median a c bin before ≡ some (after, true))
          × Written a n bin w (median_of bin.type) before w.count after
    unfolding bin_median
    bin_median-Written three =
        let four : n ≡ 4 = omega arith in
        let (after, e, wr) =
          for_batches-Written a n bin w (median_of bin.type) before (median_pass a c bin)
            (omega arith)
            (λ k slate ok h.
              let v = median_of bin.type (λ s. slate (cell n bin k s)) in
              median_pass_at (offset n k) (cell n bin k 0) slate (put (cell n bin k 0) v slate) ok
                (output-some k h) (cell n bin k 1) (cell n bin k 2) (cell n bin k 3)
                (cell-some a n bin w k 1 h (omega arith)) (cell-some a n bin w k 2 h (omega arith))
                (cell-some a n bin w k 3 h (omega arith))
                (store-cell a n bin w (median_of bin.type) before k v slate h))
            (λ f g same.
              median_ext f g (same 1 (omega arith) (omega arith))
                (same 2 (omega arith) (omega arith)) (same 3 (omega arith) (omega arith))) in
        let run : ℕ → Option (Elements V × Bool) = λ s.
          for_batches (length bin.ids) (length bin.ids) s (median_pass a c bin) 0 (before, true) in
        let is_three : (c.num_sources == 3) ≡ true = ground arith in
        (
          after,
          if_init (some (before, false)) _
              ∙ ap (λ b. if not b then some (before, false) else run 4) is_three
              ∙ ap run (sym four)
              ∙ e,
          wr,
        )
