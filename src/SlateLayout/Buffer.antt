-- ===== src/SlateLayout/Buffer.antt =====
-- `AlignedBuffer`: zeroed memory that grows, for one shard.
use Prim.Native.Nat.{bit_and, max}
use codon.Prelude.{
  ℕ, zero, suc, ◌+◌, ◌-◌, ◌/◌, ◌%◌, ◌^◌, Bool, true, false, not, ◌&&◌, List, [], ◌∷◌, ◌++◌, ltb,
  leb, ◌==◌, if◌then◌else◌,
}

-- `allocated` says whether there is a block, `bytes` is its contents (`total` of them).
pub record Buffer : Type 0 where
  pub allocated : Bool
  pub length : ℕ
  pub total : ℕ
  pub bytes : List ℕ

abbrev pub empty_buffer : Buffer
empty_buffer = record { allocated = false; length = 0; total = 0; bytes = [] }

abbrev pub max_alignment : ℕ
max_alignment = 32

abbrev pub initial_total : ℕ
initial_total = 3072

abbrev pub take {ℓ} : {A : Type ℓ} → ℕ → List A → List A
take zero xs = []
take (suc n) [] = []
take (suc n) (x ∷ xs) = x ∷ take n xs

abbrev pub replicate {ℓ} : {A : Type ℓ} → ℕ → A → List A
replicate zero x = []
replicate (suc n) x = x ∷ replicate n x

-- `(alignment != 0) && ((alignment & -alignment) == alignment)`, on 64 bits.
unfoldable pub is_power_of_two : ℕ → Bool
is_power_of_two alignment =
    not (alignment == 0) && bit_and alignment ((2 ^ 64 - alignment) % 2 ^ 64) == alignment

-- `(x + alignment - 1) & -alignment` for a power of two.
abbrev pub align_up : ℕ → ℕ → ℕ
align_up x alignment = x + alignment - 1 - (x + alignment - 1) % alignment

-- The block that `new` has given, and the aligned address in it.
unfoldable pub alloc_buffer : ℕ → ℕ → ℕ
alloc_buffer ptr alignment = align_up ptr alignment

unfoldable pub ensure : Buffer → ℕ → ℕ → Buffer × Bool
ensure b amount alignment =
    if not (is_power_of_two alignment)
    then (b, false)
    else if ltb max_alignment alignment
    then (b, false)
    else if leb amount b.total
    then (record b { length = max b.length amount }, true)
    else (
      record {
        allocated = true;
        length = amount;
        total = new_total;
        bytes = kept ++ replicate (new_total - b.length) 0;
      },
      true,
    )
  where
    new_total : ℕ
    new_total = max (max (b.total + b.total / 2) initial_total) amount

    kept : List ℕ
    kept = if b.allocated then take b.length b.bytes else []

unfoldable pub clone : Buffer → Buffer
clone b =
    if b.allocated
    then record {
      allocated = true;
      length = b.length;
      total = b.length;
      bytes = take b.length b.bytes;
    }
    else empty_buffer

-- `assign`: what the target and the source hold afterwards.
unfoldable pub assign_buffer : Buffer → Buffer → Buffer × Buffer
assign_buffer b other = (other, empty_buffer)
