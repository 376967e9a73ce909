-- ===== src/SlateLayout/Growing.antt =====
-- AlignedBuffer.cc, the part of `ensure`: what a buffer holds after it has grown.
use Prim.Native.Nat.{max}
use codon.Prelude.{
  ℕ, zero, suc, ◌+◌, ◌-◌, ◌/◌, ◌<◌, ◌≤◌, ◌≡◌, refl, sym, ap, ◌∙◌, inl, inr, Bool, true, false, List,
  [], ◌∷◌, ◌++◌, some, arith, ltb, leb, if◌then◌else◌, guard, Bool-cases, get_elem?, length,
  length-append,
}
use codon.SlateLayout.Buffer.{
  Buffer, max_alignment, initial_total, take, replicate, is_power_of_two, ensure,
}

get_elem?-replicate : {A : Type 0} (n i : ℕ) (x : A) → i < n → get_elem? (replicate n x) i ≡ some x
get_elem?-replicate zero i x h = absurd (omega arith)
get_elem?-replicate (suc n) zero x h = refl
get_elem?-replicate (suc n) (suc i) x h = get_elem?-replicate n i x (omega arith)

length-replicate : {A : Type 0} (n : ℕ) (x : A) → length (replicate n x) ≡ n
length-replicate zero x = refl
length-replicate (suc n) x = ap suc (length-replicate n x)

length-take : {A : Type 0} (n : ℕ) (xs : List A) → n ≤ length xs → length (take n xs) ≡ n
length-take zero xs h = refl
length-take (suc n) [] h = absurd (omega arith)
length-take (suc n) (x ∷ xs) h = ap suc (length-take n xs (omega arith))

-- The first bytes are kept, the others are those appended.
get_elem?-take_append :
    {A : Type 0} (n i : ℕ) (xs ys : List A)
    → i < n
    → n ≤ length xs
    → get_elem? (take n xs ++ ys) i ≡ get_elem? xs i
get_elem?-take_append zero i xs ys h le = absurd (omega arith)
get_elem?-take_append (suc n) i [] ys h le = absurd (omega arith)
get_elem?-take_append (suc n) zero (x ∷ xs) ys h le = refl
get_elem?-take_append (suc n) (suc i) (x ∷ xs) ys h le =
    get_elem?-take_append n i xs ys (omega arith) (omega arith)

get_elem?-append_after :
    {A : Type 0} (xs ys : List A) (i : ℕ)
    → length xs ≤ i
    → get_elem? (xs ++ ys) i ≡ get_elem? ys (i - length xs)
get_elem?-append_after [] ys i h = ap (get_elem? ys) (omega arith)
get_elem?-append_after (x ∷ xs) ys zero h = absurd (omega arith)
get_elem?-append_after (x ∷ xs) ys (suc i) h =
    get_elem?-append_after xs ys i (omega arith) ∙ ap (get_elem? ys) (omega arith)

-- The block has the bytes that it is said to have, and all behind the length are 0.
pub record Zeroed (b : Buffer) : Type 0 where
  pub capacity : b.length ≤ b.total
  pub block : length b.bytes ≡ b.total
  pub none_yet : b.allocated ≡ false → b.total ≡ 0
  pub tail : (i : ℕ) → b.length ≤ i → i < b.total → get_elem? b.bytes i ≡ some 0

-- A buffer with room for `amount` bytes, with the bytes of before.
pub record Ensured (b b' : Buffer) (amount : ℕ) : Type 0 where
  pub long : amount ≤ b'.length
  pub longer : b.length ≤ b'.length
  pub zeroed : Zeroed b'
  pub kept : (i : ℕ) → i < b.length → get_elem? b'.bytes i ≡ get_elem? b.bytes i
  pub fresh : (i : ℕ) → b.length ≤ i → i < b'.total → get_elem? b'.bytes i ≡ some 0

new_total : ℕ → ℕ → ℕ
new_total total amount = max (max (total + total / 2) initial_total) amount

module _ (b : Buffer) (amount : ℕ) (z : Zeroed b) where
  kept_bytes : (if b.allocated then take b.length b.bytes else []) ≡ take b.length b.bytes
  kept_bytes = elim (Bool-cases b.allocated) [
    | inl e ↦ ap (λ t. if t then take b.length b.bytes else []) e
    | inr e ↦
        let none : b.length ≡ 0 = omega (arith, z.none_yet e, z.capacity) in
        ap (λ t. if t then take b.length b.bytes else []) e ∙ sym (ap (λ n. take n b.bytes) none)
  ]

  -- The capacity, and the bytes of a new block.
  larger : ℕ
  larger = max (max (b.total + b.total / 2) initial_total) amount

  zeroes : ℕ
  unfolding larger
  zeroes = larger - b.length

  bytes : List ℕ
  unfolding zeroes
  bytes = take b.length b.bytes ++ replicate zeroes 0

  -- The branch that allocates a block.
  Ensured-reallocate :
      b.total < amount
      → Ensured b
          (record { allocated = true; length = amount; total = larger; bytes = bytes })
          amount
  unfolding larger zeroes bytes
  Ensured-reallocate small =
      let enough : amount ≤ larger = omega arith in
      let size : length (take b.length b.bytes) ≡ b.length =
        length-take b.length b.bytes (omega (arith, z.capacity, z.block)) in
      let zeros : length (replicate {A = ℕ} zeroes 0) ≡ zeroes = length-replicate zeroes 0 in
      let fresh : (i : ℕ) → b.length ≤ i → i < larger → get_elem? bytes i ≡ some 0 = (λ i le lt.
        get_elem?-append_after (take b.length b.bytes) (replicate zeroes 0) i (omega (arith, size))
        ∙ get_elem?-replicate zeroes (i - length (take b.length b.bytes)) 0
            (omega (arith, size))) in
      record {
        long = omega arith;
        longer = omega (arith, z.capacity);
        zeroed = record {
          capacity = enough;
          block =
              length-append (take b.length b.bytes) (replicate zeroes 0)
              ∙ omega (arith, size, zeros, z.capacity);
          none_yet = (λ e. absurd (cc));
          tail = (λ i le lt. fresh i (omega (arith, z.capacity)) lt);
        };
        kept = (λ i lt.
            get_elem?-take_append b.length i b.bytes (replicate zeroes 0) lt
              (omega (arith, z.capacity, z.block)));
        fresh = fresh;
      }

-- For a power of two up to the maximal alignment `ensure` succeeds: the buffer has at least `amount` bytes,
-- those of before, and 0 behind them.
pub ensure_lem :
    (b : Buffer) (amount alignment : ℕ)
    → is_power_of_two alignment ≡ true
    → alignment ≤ max_alignment
    → Zeroed b
    → (b' : Buffer) × (ensure b amount alignment ≡ (b', true)) × Ensured b b' amount
unfolding ensure larger zeroes bytes
ensure_lem b amount alignment pow le z =
    let t : ltb max_alignment alignment ≡ false = ground arith in
    let kept : List ℕ = if b.allocated then take b.length b.bytes else [] in
    let grown : List ℕ → Buffer × Bool = (λ k. (
      record {
        allocated = true;
        length = amount;
        total = larger b amount z;
        bytes = k ++ replicate (larger b amount z - b.length) 0;
      },
      true,
    )) in
    let same : Buffer × Bool = (record b { length = max b.length amount }, true) in
    let rest : Buffer × Bool = if leb amount b.total then same else grown kept in
    let passes : ensure b amount alignment ≡ rest =
      guard (b, false) (if ltb max_alignment alignment then (b, false) else rest) pow
      ∙ ap (λ t. if t then (b, false) else rest) t in
    elim (Bool-cases (leb amount b.total)) [
      | inl f ↦ (
        record b { length = max b.length amount },
        passes ∙ ap (λ t. if t then same else grown kept) f,
        record {
          long = omega arith;
          longer = omega arith;
          zeroed = record {
            capacity = ground (arith, z.capacity);
            block = z.block;
            none_yet = z.none_yet;
            tail = (λ i le lt. z.tail i (omega arith) lt);
          };
          kept = (λ i lt. refl);
          fresh = (λ i le lt. z.tail i le lt);
        },
      )
      | inr f ↦ (
        record {
          allocated = true;
          length = amount;
          total = larger b amount z;
          bytes = bytes b amount z;
        },
        passes ∙ ap (λ t. if t then same else grown kept) f ∙ ap grown (kept_bytes b amount z),
        Ensured-reallocate b amount z (ground arith),
      )
    ]
