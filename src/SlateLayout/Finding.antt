-- ===== src/SlateLayout/Finding.antt =====
use native.Mathlib.Nat.{mod-eq_of_lt}
-- The part of `allocate_element` that finds space for a value.
use codon.Prelude.{
  ℕ, suc, ◌+◌, ◌-◌, ◌*◌, ◌%◌, ◌^◌, ◌<◌, ◌≤◌, ◌≡◌, refl, sym, subst, ap, ◌∙◌, inl, inr, Bool, true,
  false, not, List, Option, none, some, arith, ltb, leb, if◌then◌else◌, dec_le, All, get_elem?,
}
use codon.SlateLayout.Types.{Chunk, Shard}
use codon.SlateLayout.Buffer.{Buffer, max_alignment, is_power_of_two, align_up}
use codon.SlateLayout.Space.{take_chunk, carve_free, fill_grown, grow, find_space}
use codon.SlateLayout.Growing.{Zeroed, ensure_lem}
use codon.SlateLayout.Alignment.{is_power_of_two-pow2, align_up_lem, pow2_small}
use codon.SlateLayout.Carving.{
  pow2, pow2_pos, Divides, Divides-trans, Divides-pow2, pow2_mono, within_none, within_split,
  within_gap, within, cover, Aligned,
}
use codon.SlateLayout.Chunks.{Taken, take_chunk_cases, carve_free_lem}

-- The chunks are aligned, and the buffer is as long as the shard.
pub record Sound (s : Shard) : Type 0 where
  pub chunks : All Aligned s.free_list
  pub zeroed : Zeroed s.initial_values
  pub backed : s.size ≤ s.initial_values.length

-- What `find_space` makes of a shard: the space found is aligned, and with the free space it is the free
-- space of before and what the shard has grown by.
pub record Found (s s' : Shard) (value_offset value_size alignment : ℕ) : Type 0 where
  pub aligned : Divides alignment value_offset
  pub grows : s.size ≤ s'.size
  pub slow : s'.size ≤ s.size + 31 + value_size
  pub bytes :
      (b : ℕ)
      → within value_offset value_size b + cover s'.free_list b
        ≡ cover s.free_list b + within s.size (s'.size - s.size) b
  pub sound : Sound s'
  pub kept :
      (i : ℕ)
      → i < s.size
      → get_elem? s'.initial_values.bytes i ≡ get_elem? s.initial_values.bytes i

module _ (max_offset : ℕ) (s : Shard) (value_size alignment k : ℕ) (is_power : alignment ≡ pow2 k)
    (k5 : k < 6) (positive : 0 < value_size) (fits : alignment ≤ value_size)
    (room : s.size + 31 + value_size ≤ max_offset) (sound : Sound s) where
  key : value_size % (max_offset + 1) ≡ value_size
  key = mod-eq_of_lt (omega arith)

  -- The space is that of a chunk.
  find_chunk :
      (c : Chunk) (rest : List Chunk)
      → Taken value_size s.free_list c rest
      → (s' : Shard) × (find_space max_offset s value_size alignment ≡ (s', some c.offset))
        × Found s s' c.offset value_size alignment
  unfolding find_space
  find_chunk c rest (e, le, bytes, al) =
      let ((m, m5, size, (q, multiple)), al') = al sound.chunks in
      let left : (c.size + 2 ^ 64 - value_size) % 2 ^ 64 ≡ c.size - value_size =
        omega (arith, pow2_small m (omega arith)) in
      let close : Shard × Bool → Shard × Option ℕ =
        (λ p. let (carved, done) = p in (carved, if done then some c.offset else none)) in
      let start = record s { free_list = rest } in
      let pick : Option (Chunk × List Chunk) → Shard × Option ℕ = (λ o. elim o [
        | none ↦ grow max_offset s value_size alignment
        | some (chunk, rest) ↦
            let free_size = (chunk.size + 2 ^ 64 - value_size) % 2 ^ 64 in
            let (carved, done) =
              carve_free (record s { free_list = rest }) (chunk.offset + value_size) free_size in
            (carved, if done then some chunk.offset else none)
      ]) in
      let stop : Divides (pow2 m) (c.offset + value_size + (c.size - value_size)) =
        (suc q, grind (arith, multiple, size, le)) in
      let (list, e', bytes', all) =
        carve_free_lem m start (c.offset + value_size) (c.size - value_size)
          (
            omega arith,
            omega arith,
            omega (arith, size),
            (c.offset + value_size, omega arith),
            stop,
          )
          al' in
      let small : k ≤ m = elim (dec_le k m) [
        | yes h ↦ h
        | no h ↦
            absurd (omega (arith, pow2_mono (suc m) k (omega arith), pow2_pos m, size, is_power))
      ] in
      let multiple' : c.offset ≡ q * pow2 m = multiple ∙ ap (λ x. q * x) size in
      (
        record start { free_list = list },
        (ap (λ n. pick (take_chunk n s.free_list)) key
            ∙ ap pick e
            ∙ ap (λ f. close (carve_free start (c.offset + value_size) f)) left
            ∙ ap close e'),
        record {
          aligned =
              subst (λ a. Divides a c.offset) (sym is_power)
                (Divides-trans (pow2 k) (pow2 m) c.offset (Divides-pow2 k m small) (q, multiple'));
          grows = omega arith;
          slow = omega arith;
          bytes = (λ b. omega (
            arith,
            bytes b,
            bytes' b,
            within_split c.offset value_size c.size b le,
            within_none s.size (s.size - s.size) b (omega arith),
          ));
          sound = record { chunks = all; zeroed = sound.zeroed; backed = sound.backed };
          kept = (λ i lt. refl);
        },
      )

  -- The shard grows.
  find_grown :
      is_power_of_two alignment ≡ true
      → take_chunk value_size s.free_list ≡ none
      → (s' : Shard) × (value_offset : ℕ) × (find_space max_offset s value_size alignment
          ≡ (s', some value_offset))
        × Found s s' value_offset value_size alignment
  unfolding find_space grow fill_grown
  find_grown pow e =
      let (lo, hi, (q, multiple)) =
        align_up_lem s.size alignment (omega (arith, is_power, pow2_pos k)) in
      let small = pow2_small k k5 in
      let value_offset = align_up s.size alignment in
      let new_size = (value_offset + value_size) % (max_offset + 1) in
      let exact : new_size ≡ value_offset + value_size = mod-eq_of_lt (omega arith) in
      let pick : Option (Chunk × List Chunk) → Shard × Option ℕ = (λ o. elim o [
        | none ↦ grow max_offset s value_size alignment
        | some (chunk, rest) ↦
            let free_size = (chunk.size + 2 ^ 64 - value_size) % 2 ^ 64 in
            let (carved, done) =
              carve_free (record s { free_list = rest }) (chunk.offset + value_size) free_size in
            (carved, if done then some chunk.offset else none)
      ]) in
      let close : Shard × Bool → Shard × Option ℕ =
        (λ p. let (carved, done) = p in (carved, if done then some value_offset else none)) in
      let filled : Buffer → Shard = (λ b. record s { size = new_size; initial_values = b }) in
      let fill : Buffer × Bool → Shard × Option ℕ = (λ p.
        let (b, ok) = p in
        if not ok
        then (filled b, none)
        else close (carve_free (filled b) s.size (value_offset - s.size))) in
      let grown : Shard = record s { size = new_size } in
      let filling : Shard × Option ℕ = fill_grown grown s.size value_offset alignment in
      let (b, e', ens) =
        ensure_lem s.initial_values new_size alignment pow (omega (arith, is_power)) sound.zeroed in
      let stop : Divides (pow2 k) (s.size + (value_offset - s.size)) =
        (q, omega (arith, multiple, ap (λ x. q * x) is_power)) in
      let (list, e2, bytes, all) =
        carve_free_lem k (filled b) s.size (value_offset - s.size)
          (omega arith, k5, omega (arith, is_power), (s.size, omega arith), stop) sound.chunks in
      let t1 : ltb (max_offset - max_alignment + 1) s.size ≡ false = ground arith in
      let t2 : ltb max_offset value_size ≡ false = ground arith in
      let t3 : leb new_size value_offset ≡ false = ground (arith, exact, positive) in
      (
        record s { size = new_size; free_list = list; initial_values = b },
        value_offset,
        (ap (λ n. pick (take_chunk n s.free_list)) key
            ∙ ap pick e
            ∙ ap
                (λ t.
                  if t
                  then (s, none)
                  else if ltb max_offset value_size
                  then (s, none)
                  else if leb new_size value_offset
                  then (grown, none)
                  else filling)
                t1
            ∙ ap
                (λ t.
                  if t
                  then (s, none)
                  else if leb new_size value_offset
                  then (grown, none)
                  else filling)
                t2
            ∙ ap (λ t. if t then (grown, none) else filling) t3
            ∙ ap fill e'
            ∙ ap close e2),
        record {
          aligned = (q, multiple);
          grows = omega (arith, exact);
          slow = omega (arith, exact, is_power);
          bytes = (λ n.
              omega
                (arith, bytes n, within_gap s.size value_offset value_size new_size n lo exact));
          sound = record { chunks = all; zeroed = ens.zeroed; backed = ens.long };
          kept = (λ i lt. ens.kept i (omega (arith, sound.backed)));
        },
      )

-- In a sound shard with room, space is always found for a value that is not smaller than its alignment,
-- a power of two: it is aligned, the shard stays sound and its memory is kept, and free space is neither
-- lost nor made but for what the shard grows by.
pub find_space_lem :
    (max_offset : ℕ) (s : Shard) (value_size alignment : ℕ)
    → is_power_of_two alignment ≡ true
    → alignment ≤ max_alignment
    → 0 < value_size
    → alignment ≤ value_size
    → s.size + 31 + value_size ≤ max_offset
    → Sound s
    → (s' : Shard) × (value_offset : ℕ) × (find_space max_offset s value_size alignment
        ≡ (s', some value_offset))
      × Found s s' value_offset value_size alignment
find_space_lem max_offset s value_size alignment pow le positive fits room sound =
    let (k, k5, is_power) = is_power_of_two-pow2 alignment pow le in
    elim (take_chunk_cases value_size s.free_list) [
      | inl none_left ↦
          find_grown max_offset s value_size alignment k is_power k5 positive fits room sound pow
            none_left
      | inr (c, rest, taken) ↦
          let (s', e, found) =
            find_chunk max_offset s value_size alignment k is_power k5 positive fits room sound c
              rest taken in
          (s', c.offset, e, found)
    ]
