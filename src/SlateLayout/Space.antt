-- ===== src/SlateLayout/Space.antt =====
-- The part of `allocate_element` that finds space for a value in a shard. The Option is none where the
-- call returns false.
use codon.Prelude.{
  ℕ, zero, suc, ◌+◌, ◌-◌, ◌/◌, ◌%◌, ◌^◌, Bool, true, false, not, List, [], ◌∷◌, Option, none, some,
  ltb, leb, ◌==◌, if◌then◌else◌,
}
use codon.SlateLayout.Types.{Chunk, Shard}
use codon.SlateLayout.Buffer.{max_alignment, align_up, ensure}

-- `std::multimap::insert`: behind the chunks that are no greater.
abbrev pub insert_chunk : Chunk → List Chunk → List Chunk
insert_chunk c [] = c ∷ []
insert_chunk c (d ∷ rest) = if ltb c.size d.size then c ∷ d ∷ rest else d ∷ insert_chunk c rest

-- `lower_bound` and `erase`: the first chunk that is large enough, and the others.
abbrev pub take_chunk : ℕ → List Chunk → Option (Chunk × List Chunk)
take_chunk value_size [] = none
take_chunk value_size (d ∷ rest) =
    if leb value_size d.size
    then some (d, rest)
    else elim (take_chunk value_size rest) [ none ↦ none | some (c, rest') ↦ some (c, d ∷ rest') ]

-- `free_offset & size`, for a size that is a power of two.
abbrev pub has_bit : ℕ → ℕ → Bool
has_bit free_offset size = (free_offset / size) % 2 == 1

-- The loop that carves free space into chunks: the free list, and the free size that is left. `none`
-- is no fuel.
unfoldable pub carve : ℕ → ℕ → ℕ → ℕ → List Chunk → Option (List Chunk × ℕ)
carve zero size free_offset free_size free_list = none
carve (suc fuel) size free_offset free_size free_list =
    if leb size free_size
    then (if has_bit free_offset size
        then carve fuel (size + size) (free_offset + size) (free_size - size)
            (insert_chunk (record { size = size; offset = free_offset }) free_list)
        else carve fuel (size + size) free_offset free_size free_list)
    else some (free_list, free_size)

-- The size doubles, and is greater than the free size after five rounds.
abbrev pub carve_fuel : ℕ
carve_fuel = 6

unfoldable pub carve_free : Shard → ℕ → ℕ → Shard × Bool
carve_free s free_offset free_size =
    if free_size == 0
    then (s, true)
    else if not (ltb free_size max_alignment)
    then (s, false)
    else elim (carve carve_fuel 1 free_offset free_size s.free_list) [
      | none ↦ (s, false)
      | some (free_list, left) ↦ (record s { free_list = free_list }, left == 0)
    ]

-- The memory of a shard that has grown, and the gap in front of the value as free chunks.
unfoldable pub fill_grown : Shard → ℕ → ℕ → ℕ → Shard × Option ℕ
fill_grown grown old_size value_offset alignment =
    let (initial_values, ok) = ensure grown.initial_values grown.size alignment in
    let filled = record grown { initial_values = initial_values } in
    if not ok
    then (filled, none)
    else (let (carved, done) = carve_free filled old_size (value_offset - old_size) in
        (carved, if done then some value_offset else none))

-- A shard that grows by the value and the gap in front of it. The tests behind the first two leave the
-- new size in the shard when they fail.
unfoldable pub grow : ℕ → Shard → ℕ → ℕ → Shard × Option ℕ
grow max_offset s value_size alignment =
    if ltb (max_offset - max_alignment + 1) s.size
    then (s, none)
    else if ltb max_offset value_size
    then (s, none)
    else (let value_offset = align_up s.size alignment in
        let grown = record s { size = (value_offset + value_size) % (max_offset + 1) } in
        if leb grown.size value_offset
        then (grown, none)
        else fill_grown grown s.size value_offset alignment)

-- The keys of the free list have the width of an offset, the difference has 64 bits.
unfoldable pub find_space : ℕ → Shard → ℕ → ℕ → Shard × Option ℕ
find_space max_offset s value_size alignment =
    elim (take_chunk (value_size % (max_offset + 1)) s.free_list) [
      | none ↦ grow max_offset s value_size alignment
      | some (chunk, rest) ↦
          let free_size = (chunk.size + 2 ^ 64 - value_size) % 2 ^ 64 in
          let (carved, done) =
            carve_free (record s { free_list = rest }) (chunk.offset + value_size) free_size in
          (carved, if done then some chunk.offset else none)
    ]
