-- ===== src/SlateLayout/Chunks.antt =====
-- Taking a chunk from the free list, and giving free space back to it.
use codon.Prelude.{
  ℕ, ◌+◌, ◌≤◌, ◌≡◌, refl, ap, ◌∙◌, ◌⊎◌, inl, inr, Bool, true, false, not, List, [], ◌∷◌, Option,
  none, some, arith, ltb, leb, ◌==◌, if◌then◌else◌, Bool-cases, ℕ_discrete, All,
}
use codon.SlateLayout.Types.{Chunk, Shard}
use codon.SlateLayout.Buffer.{max_alignment}
use codon.SlateLayout.Space.{take_chunk, carve, carve_fuel, carve_free}
use codon.SlateLayout.Alignment.{pow2_small}
use codon.SlateLayout.Carving.{within, cover, Aligned, Space, carve_lem}

-- A chunk that is taken: large enough, and no more than it leaves the list.
abbrev pub Taken : ℕ → List Chunk → Chunk → List Chunk → Type 0
Taken n list c rest =
    (take_chunk n list ≡ some (c, rest))
    × (n ≤ c.size)
    × ((b : ℕ) → cover list b ≡ within c.offset c.size b + cover rest b)
    × (All Aligned list → Aligned c × All Aligned rest)

skip : Chunk → Option (Chunk × List Chunk) → Option (Chunk × List Chunk)
skip d o = elim o [ none ↦ none | some (c, rest') ↦ some (c, d ∷ rest') ]

pub take_chunk_cases :
    (n : ℕ) (list : List Chunk)
    → (take_chunk n list ≡ none) ⊎ ((c : Chunk) × (rest : List Chunk) × Taken n list c rest)
unfolding skip
take_chunk_cases n [] = inl refl
take_chunk_cases n (d ∷ ds) = elim (Bool-cases (leb n d.size)) [
  | inl t ↦ inr (
    d,
    ds,
    (
      ap (λ t. if t then some (d, ds) else skip d (take_chunk n ds)) t,
      ground arith,
      (λ b. refl),
      (λ (a, al). (a, al)),
    ),
  )
  | inr f ↦ elim (take_chunk_cases n ds) [
    | inl e ↦ inl (ap (λ t. if t then some (d, ds) else skip d (take_chunk n ds)) f ∙ ap (skip d) e)
    | inr (c, rest, (e, le, bytes, al)) ↦ inr (
      c,
      d ∷ rest,
      (
        ap (λ t. if t then some (d, ds) else skip d (take_chunk n ds)) f ∙ ap (skip d) e,
        le,
        (λ b. omega (arith, bytes b)),
        (λ (a, al'). let (ac, ar) = al al' in (ac, (a, ar))),
      ),
    )
  ]
]

-- All of the space that is left is carved.
pub carve_free_lem :
    (k : ℕ) (s : Shard) (o f : ℕ)
    → Space k 0 o f
    → All Aligned s.free_list
    → (list : List Chunk) × (carve_free s o f ≡ (record s { free_list = list }, true))
      × ((b : ℕ) → cover list b ≡ cover s.free_list b + within o f b)
      × All Aligned list
unfolding carve_free
carve_free_lem k s o f space al =
    let rest : Option (List Chunk × ℕ) → Shard × Bool = (λ r. elim r [
      | none ↦ (s, false)
      | some (free_list, left) ↦ (record s { free_list = free_list }, left == 0)
    ]) in
    let carved = rest (carve carve_fuel 1 o f s.free_list) in
    elim (ℕ_discrete f 0) [
      | yes e ↦
          let t : (f == 0) ≡ true = ground arith in
          (
            s.free_list,
            ap
                (λ t.
                  if t then (s, true) else if not (ltb f max_alignment) then (s, false) else carved)
                t,
            (λ b. ground arith),
            al,
          )
      | no ne ↦
          let (le, k5, small, di, dk) = space in
          let t : (f == 0) ≡ false = ground arith in
          let u : ltb f max_alignment ≡ true = ground (arith, pow2_small k k5) in
          let (list, e, bytes, all) =
            carve_lem carve_fuel k 0 o f s.free_list (omega arith) space al in
          (
            list,
            (ap
                  (λ t.
                    if t
                    then (s, true)
                    else if not (ltb f max_alignment)
                    then (s, false)
                    else carved)
                  t
                ∙ ap (λ t. if not t then (s, false) else carved) u
                ∙ ap rest e),
            bytes,
            all,
          )
    ]
