-- ===== src/SlateLayout/Carving.antt =====
-- The loop that carves free space always uses all of it, in chunks that are aligned to their size.
use native.Mathlib.Nat.{mul-div_cancel}
use codon.Prelude.{
  ℕ, zero, suc, ◌+◌, ◌-◌, ◌*◌, ◌/◌, ◌%◌, ◌<◌, ◌≤◌, ◌≡◌, refl, sym, subst, ap, ap₂, ◌∙◌, inl, inr,
  true, false, ◌&&◌, List, [], ◌∷◌, some, arith, ltb, leb, ◌==◌, if◌then◌else◌, Bool-cases, dec_le,
  dec_lt, ℕ_discrete, All,
}
use codon.SlateLayout.Types.{Chunk}
use codon.SlateLayout.Space.{insert_chunk, has_bit, carve}

-- `d` divides `n`.
abbrev pub Divides : ℕ → ℕ → Type 0
Divides d n = (q : ℕ) × (n ≡ q * d)

abbrev pub pow2 : ℕ → ℕ
pow2 zero = 1
pow2 (suc n) = pow2 n + pow2 n

pub pow2_pos : (n : ℕ) → 0 < pow2 n
pow2_pos zero = omega arith
pow2_pos (suc n) = omega (arith, pow2_pos n)

pub pow2_mono : (m n : ℕ) → m ≤ n → pow2 m ≤ pow2 n
pow2_mono m zero le = let e : 0 ≡ m = omega arith in omega (arith, ap pow2 e)
pow2_mono m (suc n) le = elim (dec_le m n) [
  | yes le' ↦ omega (arith, pow2_mono m n le')
  | no gt ↦ let e : suc n ≡ m = omega arith in omega (arith, ap pow2 e)
]

pub Divides-trans : (a b c : ℕ) → Divides a b → Divides b c → Divides a c
Divides-trans a b c (q, e) (r, e') = (r * q, e' ∙ ap (λ x. r * x) e ∙ grind arith)

pub Divides-pow2 : (m n : ℕ) → m ≤ n → Divides (pow2 m) (pow2 n)
Divides-pow2 m zero le = let e : 0 ≡ m = omega arith in (1, ap pow2 e ∙ omega arith)
Divides-pow2 m (suc n) le = elim (dec_le m n) [
  | yes le' ↦ let (q, e) = Divides-pow2 m n le' in (q + q, ap₂ (λ x y. x + y) e e ∙ grind arith)
  | no gt ↦ let e : suc n ≡ m = omega arith in (1, ap pow2 e ∙ omega arith)
]

-- Less than `s` lies between two multiples of `s` only if they are the same.
multiples : (s q r x : ℕ) → q * s + x ≡ r * s → x < s → x ≡ 0
multiples s q r x e small = elim (dec_le r q) [
  | yes le ↦ let m : r * s ≤ q * s = grind arith in omega arith
  | no gt ↦
      let m : (q + 1) * s ≤ r * s = grind arith in
      let d : (q + 1) * s ≡ q * s + s = grind arith in absurd (omega arith)
]

-- The bit of a multiple of the size.
bit_of : (s q : ℕ) → 0 < s → has_bit (q * s) s ≡ (q % 2 == 1)
bit_of s q pos = ap (λ x. x % 2 == 1) (mul-div_cancel q pos)

-- The bytes of a chunk, and how often a free list has a byte.
abbrev pub within : ℕ → ℕ → ℕ → ℕ
within offset size b = if leb offset b && ltb b (offset + size) then 1 else 0

abbrev pub cover : List Chunk → ℕ → ℕ
cover [] b = 0
cover (c ∷ rest) b = within c.offset c.size b + cover rest b

-- A chunk has the size of a power of two, at most 16, and lies at a multiple of it.
abbrev pub Aligned : Chunk → Type 0
Aligned c = (k : ℕ) × (k < 5) × (c.size ≡ pow2 k) × Divides c.size c.offset

pub cover-insert_chunk :
    (c : Chunk) (list : List Chunk) (b : ℕ)
    → cover (insert_chunk c list) b ≡ within c.offset c.size b + cover list b
cover-insert_chunk c [] b = omega arith
cover-insert_chunk c (d ∷ rest) b = elim (Bool-cases (ltb c.size d.size)) [
  | inl e ↦ ap (λ t. cover (if t then c ∷ d ∷ rest else d ∷ insert_chunk c rest) b) e
  | inr e ↦
      ap (λ t. cover (if t then c ∷ d ∷ rest else d ∷ insert_chunk c rest) b) e
      ∙ omega (arith, cover-insert_chunk c rest b)
]

pub Aligned-insert_chunk :
    (c : Chunk) (list : List Chunk)
    → Aligned c
    → All Aligned list
    → All Aligned (insert_chunk c list)
Aligned-insert_chunk c [] a al = (a, tt)
Aligned-insert_chunk c (d ∷ rest) a (a', al) = elim (Bool-cases (ltb c.size d.size)) [
  | inl e ↦
      subst (λ t. All Aligned (if t then c ∷ d ∷ rest else d ∷ insert_chunk c rest)) (sym e)
        (a, (a', al))
  | inr e ↦
      subst (λ t. All Aligned (if t then c ∷ d ∷ rest else d ∷ insert_chunk c rest)) (sym e)
        (a', Aligned-insert_chunk c rest a al)
]

-- A chunk that is longer by the gap in front of it.
pub within_gap :
    (o v f n b : ℕ) → o ≤ v → n ≡ v + f → within v f b + within o (v - o) b ≡ within o (n - o) b
within_gap o v f n b le e = ground arith

-- The branches of the loop.
module _ (fuel s o f : ℕ) (list : List Chunk) where
  closes : leb s f ≡ false → carve (suc fuel) s o f list ≡ some (list, f)
  unfolding carve
  closes t =
      ap
        (λ t.
          if t
          then (if has_bit o s
              then carve fuel (s + s) (o + s) (f - s)
                  (insert_chunk (record { size = s; offset = o }) list)
              else carve fuel (s + s) o f list)
          else some (list, f))
        t

  branches :
      leb s f ≡ true
      → carve (suc fuel) s o f list ≡ (
          if has_bit o s
          then carve fuel
              (s + s)
              (o + s)
              (f - s)
              (insert_chunk (record { size = s; offset = o }) list)
          else carve fuel (s + s) o f list)
  unfolding carve
  branches t =
      ap
        (λ t.
          if t
          then (if has_bit o s
              then carve fuel (s + s) (o + s) (f - s)
                  (insert_chunk (record { size = s; offset = o }) list)
              else carve fuel (s + s) o f list)
          else some (list, f))
        t

-- What the loop gives for the free space from `free_offset` on: the same bytes as chunks, and nothing left.
abbrev pub Carves : ℕ → ℕ → ℕ → ℕ → List Chunk → Type 0
Carves fuel size free_offset free_size list =
    (list' : List Chunk) × (carve fuel size free_offset free_size list ≡ some (list', 0))
    × ((b : ℕ) → cover list' b ≡ cover list b + within free_offset free_size b)
    × All Aligned list'

-- Space that ends at a multiple of `pow2 k`, begins at one of `pow2 i`, and is smaller than the first.
abbrev pub Space : ℕ → ℕ → ℕ → ℕ → Type 0
Space k i free_offset free_size =
    (i ≤ k)
    × (k < 6)
    × (free_size < pow2 k)
    × Divides (pow2 i) free_offset
    × Divides (pow2 k) (free_offset + free_size)

-- Less than the size is nothing.
rest_empty : (k i o f : ℕ) → Space k i o f → f < pow2 i → f ≡ 0
rest_empty k i o f (le, _, small, (q, e), d) h =
    let (r, e') = Divides-trans (pow2 i) (pow2 k) (o + f) (Divides-pow2 i k le) d in
    multiples (pow2 i) q r f (omega (arith, e, e')) h

pub within_none : (o f b : ℕ) → f ≡ 0 → within o f b ≡ 0
within_none o f b z = ground arith

pub within_split : (o s f b : ℕ) → s ≤ f → within o s b + within (o + s) (f - s) b ≡ within o f b
within_split o s f b h = ground arith

stop_carving :
    (k i fuel o f : ℕ) (list : List Chunk)
    → Space k i o f
    → f < pow2 i
    → All Aligned list
    → Carves (suc fuel) (pow2 i) o f list
stop_carving k i fuel o f list space h al =
    let z = rest_empty k i o f space h in
    let t : leb (pow2 i) f ≡ false = ground arith in
    (
      list,
      closes fuel (pow2 i) o f list t ∙ ap (λ x. some (list, x)) z,
      (λ b. omega (arith, within_none o f b z)),
      al,
    )

-- The next bit of an offset.
Divides-even : (s o : ℕ) → 0 < s → Divides s o → has_bit o s ≡ false → Divides (s + s) o
Divides-even s o pos (q, e) bit =
    let even : (q % 2 == 1) ≡ false = sym (bit_of s q pos) ∙ ap (λ x. has_bit x s) (sym e) ∙ bit in
    let half : q ≡ q / 2 + q / 2 = ground arith in (q / 2, e ∙ ap (λ x. x * s) half ∙ grind arith)

Divides-odd : (s o : ℕ) → 0 < s → Divides s o → has_bit o s ≡ true → Divides (s + s) (o + s)
Divides-odd s o pos (q, e) bit =
    let odd : (q % 2 == 1) ≡ true = sym (bit_of s q pos) ∙ ap (λ x. has_bit x s) (sym e) ∙ bit in
    let half : suc q ≡ (q + 1) / 2 + (q + 1) / 2 = ground arith in
    let up : o + s ≡ suc q * s = ap (λ x. x + s) e ∙ grind arith in
    ((q + 1) / 2, up ∙ ap (λ x. x * s) half ∙ grind arith)

-- With fuel for the sizes from `pow2 i` up to `pow2 k`, the loop ends and carves all of the space, which is
-- less than `pow2 k`, begins at a multiple of the first and ends at one of the second: the free list gets
-- exactly its bytes, in chunks aligned to their size.
pub carve_lem :
    (fuel k i o f : ℕ) (list : List Chunk)
    → k < i + fuel
    → Space k i o f
    → All Aligned list
    → Carves fuel (pow2 i) o f list
carve_lem zero k i o f list enough space al = absurd (omega arith)
carve_lem (suc fuel) k i o f list enough space al = elim (dec_lt f (pow2 i)) [
  | yes small ↦ stop_carving k i fuel o f list space small al
  | no large ↦
      let (le, k5, small, di, dk) = space in
      let lt : i < k = elim (ℕ_discrete i k) [
        | yes e ↦ absurd (omega (arith, ap pow2 e))
        | no ne ↦ omega arith
      ] in
      let t : leb (pow2 i) f ≡ true = ground arith in
      let odd =
        carve fuel (pow2 i + pow2 i) (o + pow2 i) (f - pow2 i)
          (insert_chunk (record { size = pow2 i; offset = o }) list) in
      let even = carve fuel (pow2 i + pow2 i) o f list in
      let open_loop = branches fuel (pow2 i) o f list t in
      elim (Bool-cases (has_bit o (pow2 i))) [
        | inl bit ↦
            let c : Chunk = record { size = pow2 i; offset = o } in
            let al' = Aligned-insert_chunk c list (i, omega arith, refl, di) al in
            let same : o + pow2 i + (f - pow2 i) ≡ o + f = omega arith in
            let space' : Space k (suc i) (o + pow2 i) (f - pow2 i) = (
              lt,
              k5,
              omega arith,
              Divides-odd (pow2 i) o (pow2_pos i) di bit,
              subst (Divides (pow2 k)) (sym same) dk,
            ) in
            let (list', e, bytes, all) =
              carve_lem fuel k (suc i) (o + pow2 i) (f - pow2 i) (insert_chunk c list) (omega arith)
                space' al' in
            (
              list',
              open_loop ∙ ap (λ t. if t then odd else even) bit ∙ e,
              (λ b.
                  bytes b
                  ∙ omega (
                    arith,
                    cover-insert_chunk c list b,
                    within_split o (pow2 i) f b (omega arith),
                  )),
              all,
            )
        | inr bit ↦
            let space' : Space k (suc i) o f =
              (lt, k5, small, Divides-even (pow2 i) o (pow2_pos i) di bit, dk) in
            let (list', e, bytes, all) =
              carve_lem fuel k (suc i) o f list (omega arith) space' al in
            (list', open_loop ∙ ap (λ t. if t then odd else even) bit ∙ e, bytes, all)
      ]
]
