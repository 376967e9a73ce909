-- ===== src/FastSort/Passes.antt =====
-- fast_sort.cc: SortInternal and Sort. An array is the list of its elements of kBytes bytes; the counters
-- have 32 bits.
use codon.Prelude.{
  ℕ, zero, suc, ◌+◌, ◌-◌, ◌*◌, ◌/◌, ◌%◌, ◌^◌, List, [], ◌∷◌, map, ◌==◌, if◌then◌else◌, set,
}

-- `pA[i + iByte]`
abbrev pub byte : ℕ → ℕ → ℕ
byte i x = x / 256 ^ i % 256

abbrev pub at : List ℕ → ℕ → ℕ
at [] d = 0
at (c ∷ cs) zero = c
at (c ∷ cs) (suc d) = at cs d

-- `byteCounts[d] += kBytes`
abbrev pub add_at : ℕ → List ℕ → ℕ → List ℕ
add_at k cs d = set cs d ((at cs d + k) % 2 ^ 32)

abbrev pub zeroes : ℕ → List ℕ
zeroes zero = []
zeroes (suc n) = 0 ∷ zeroes n

abbrev pub count_bytes : ℕ → ℕ → List ℕ → List ℕ → List ℕ
count_bytes k i [] cs = cs
count_bytes k i (x ∷ xs) cs = count_bytes k i xs (add_at k cs (byte i x))

-- The sums of the counters in front of each.
abbrev pub starts : ℕ → List ℕ → List ℕ
starts sum [] = []
starts sum (c ∷ cs) = sum ∷ starts ((sum + c) % 2 ^ 32) cs

abbrev pub scatter : ℕ → ℕ → List ℕ → List ℕ → List ℕ → List ℕ
scatter k i [] cs b = b
scatter k i (x ∷ xs) cs b = scatter k i xs (add_at k cs (byte i x)) (set b (at cs (byte i x) / k) x)

-- One round of the loop over the bytes: from the array `a` to the array `b`.
unfoldable pub sort_by_byte : ℕ → ℕ → List ℕ → List ℕ → List ℕ
sort_by_byte k i a b = scatter k i a (starts 0 (count_bytes k i a (zeroes 256))) b

-- The rounds from `i` on, that go from `p` to the scratch array and back.
unfoldable pub sort_rounds : ℕ → ℕ → ℕ → List ℕ → List ℕ → List ℕ × List ℕ
sort_rounds k zero i p scratch = (p, scratch)
sort_rounds k (suc rounds) i p scratch =
    let (p', scratch') =
      if i % 2 == 1
      then (sort_by_byte k i scratch p, scratch)
      else (p, sort_by_byte k i p scratch) in
    sort_rounds k rounds (suc i) p' scratch'

-- `SortInternal`: what `p` holds afterwards. With an odd size of elements, which is 1, the scratch array
-- has the result, and all of it is copied.
unfoldable pub sort_internal : ℕ → List ℕ → List ℕ → List ℕ
sort_internal k scratch p =
    let (p', scratch') = sort_rounds k k 0 p scratch in if k % 2 == 1 then scratch' else p'

-- `p[i] ^= 0x80…`: the highest bit of `8 * k` is inverted.
abbrev pub flip : ℕ → ℕ → ℕ
flip k x = (x + 2 ^ (8 * k - 1)) % 2 ^ (8 * k)

-- `Sort` of unsigned and of signed integers of `k` bytes, the latter as their unsigned reading.
unfoldable pub sort_unsigned : ℕ → List ℕ → List ℕ → List ℕ
sort_unsigned k scratch p = sort_internal k scratch p

unfoldable pub sort_signed : ℕ → List ℕ → List ℕ → List ℕ
sort_signed k scratch p = map (flip k) (sort_internal k scratch (map (flip k) p))
