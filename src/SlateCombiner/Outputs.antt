-- ===== src/SlateCombiner/Outputs.antt =====
-- What the three ways of combining write: one value for each batch of a bin, and nothing else.
use codon.Prelude.{
  ℕ, suc, ◌+◌, ◌<◌, ◌≡◌, ◌≢◌, refl, sym, subst, ap, ◌∙◌, Bool, true, ◌&&◌, Option, none, some,
  arith, ==_refl, ==_ne, get_elem?, length, get_elem?-lt, ℕ_discrete,
}
use codon.SlateCombiner.Types.{Bin, Access, Elements, put, store}
use codon.SlateCombiner.Bins.{for_batches}
use codon.SlateCombiner.Loops.{offset, offset-lt, for_batches_lem}

-- The identifier of entry `s` of batch `k`; entry 0 is the output, entry `s` the input of source `s`.
abbrev pub cell : {V : Type 0} → ℕ → Bin V → ℕ → ℕ → ℕ
cell stride bin k s = elim (get_elem? bin.ids (offset stride k + s)) [ none ↦ 0 | some id ↦ id ]

-- The identifiers of a bin are whole batches, its outputs are different elements that can be written,
-- have no validator, and are not its inputs.
pub record WellFormed {V : Type 0} (a : Access V) (stride : ℕ) (bin : Bin V) : Type 0 where
  pub count : ℕ
  pub whole : length bin.ids ≡ offset stride count
  pub writable : (k : ℕ) → k < count → a.can_write (cell stride bin k 0) ≡ true
  pub plain :
      (k : ℕ) → k < count → (old new : V) → a.write (cell stride bin k 0) old new ≡ (new, true)
  pub distinct :
      (k j : ℕ) → k < count → j < count → k ≢ j → cell stride bin k 0 ≢ cell stride bin j 0
  pub apart :
      (k j s : ℕ)
      → k < count
      → j < count
      → 0 < s
      → s < stride
      → cell stride bin k 0 ≢ cell stride bin j s

put_self : {V : Type 0} (i : ℕ) (v : V) (slate : Elements V) → put i v slate i ≡ v
put_self i v slate = rw (==_refl i, put) refl

put_ne : {V : Type 0} (i j : ℕ) (v : V) (slate : Elements V) → j ≢ i → put i v slate j ≡ slate j
put_ne i j v slate ne = rw (==_ne j i ne, put) refl

module _ {V : Type 0} (a : Access V) (stride : ℕ) (bin : Bin V) (w : WellFormed a stride bin) where
  pub cell-some :
      (k s : ℕ)
      → k < w.count
      → s < stride
      → get_elem? bin.ids (offset stride k + s) ≡ some (cell stride bin k s)
  cell-some k s h in_ =
      let (id, e) =
        get_elem?-lt bin.ids (offset stride k + s)
          (omega (arith, w.whole, offset-lt stride k w.count h)) in
      e ∙ ap some (sym (rw (e, cell) refl))

  -- The value of each batch is chosen from its inputs.
  module _ (choose : (ℕ → V) → V) (before : Elements V) where
    abbrev pub inputs : ℕ → Elements V → ℕ → V
    inputs k slate s = slate (cell stride bin k s)

    -- The elements after `k` batches.
    pub record Written (k : ℕ) (after : Elements V) : Type 0 where
      pub outputs : (j : ℕ) → j < k → after (cell stride bin j 0) ≡ choose (inputs j before)
      pub others : (id : ℕ) → ((j : ℕ) → j < k → cell stride bin j 0 ≢ id) → after id ≡ before id

    -- One more batch.
    Written-put :
        (k : ℕ) (slate : Elements V)
        → k < w.count
        → Written k slate
        → Written (suc k) (put (cell stride bin k 0) (choose (inputs k before)) slate)
    Written-put k slate h wr = record {
      outputs = λ j lt. elim (ℕ_discrete j k) [
        | yes e ↦
            subst (λ x. put out v slate (cell stride bin x 0) ≡ choose (inputs x before)) (sym e)
              (put_self out v slate)
        | no ne ↦
            let before_k : j < k = omega arith in
            put_ne out (cell stride bin j 0) v slate (w.distinct j k (omega arith) h ne)
            ∙ wr.outputs j before_k
      ];
      others = λ id ne.
          put_ne out id v slate (λ e. ne k (omega arith) (sym e))
          ∙ wr.others id (λ j lt. ne j (omega arith));
    }
      where
        out : ℕ
        out = cell stride bin k 0

        v : V
        v = choose (inputs k before)

    -- The inputs of a batch are still what they were.
    Written-inputs :
        (k s : ℕ) (slate : Elements V)
        → k < w.count
        → Written k slate
        → 0 < s
        → s < stride
        → inputs k slate s ≡ inputs k before s
    Written-inputs k s slate h wr pos in_ =
        wr.others (cell stride bin k s) (λ j lt. w.apart j k s (omega arith) h pos in_)

    pub store-cell :
        (k : ℕ) (v : V) (slate : Elements V)
        → k < w.count
        → store a slate (cell stride bin k 0) v ≡ (put (cell stride bin k 0) v slate, true)
    unfolding store
    store-cell k v slate h =
        rw (w.writable k h, store) (rw (w.plain k h (slate (cell stride bin k 0)) v, store) refl)

    -- A body that stores the chosen value in the output of the batch that begins at `i`.
    abbrev pub Chooses : (ℕ → Elements V × Bool → Option (Elements V × Bool)) → Type 0
    Chooses body =
        (k : ℕ) (slate : Elements V) (ok : Bool)
        → k < w.count
        → body (offset stride k) (slate, ok)
          ≡ some (put (cell stride bin k 0) (choose (inputs k slate)) slate, ok && true)

    abbrev pub Depends : Type 0
    Depends = (f g : ℕ → V) → ((s : ℕ) → 0 < s → s < stride → f s ≡ g s) → choose f ≡ choose g

    pub for_batches-Written :
        (body : ℕ → Elements V × Bool → Option (Elements V × Bool))
        → 0 < stride
        → Chooses body
        → Depends
        → (after : Elements V) × (for_batches
              (length bin.ids)
              (length bin.ids)
              stride
              body
              0
              (before, true)
            ≡ some (after, true))
          × Written w.count after
    for_batches-Written body pos runs depends =
        let ((after, ok), e, (good, wr)) =
          for_batches_lem w.count stride body Good pos pass (before, true) start in
        (after, rw w.whole (e ∙ ap (λ x. some (after, x)) good), wr)
      where
        Good : ℕ → Elements V × Bool → Type 0
        Good k (slate, ok) = (ok ≡ true) × Written k slate

        start : Good 0 (before, true)
        start = (refl, record { outputs = λ j lt. absurd (omega arith); others = λ id ne. refl })

        pass :
            (k : ℕ) (st : Elements V × Bool)
            → k < w.count
            → Good k st
            → (st' : Elements V × Bool) × (body (offset stride k) st ≡ some st') × Good (suc k) st'
        pass k (slate, ok) h (good, wr) =
            let same =
              depends (inputs k slate) (inputs k before)
                (λ s pos in_. Written-inputs k s slate h wr pos in_) in
            (
              (put (cell stride bin k 0) (choose (inputs k slate)) slate, ok && true),
              runs k slate ok h,
              (
                rw good refl,
                subst (λ v. Written (suc k) (put (cell stride bin k 0) v slate)) (sym same)
                    (Written-put k slate h wr),
              ),
            )
