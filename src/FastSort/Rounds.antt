-- ===== src/FastSort/Rounds.antt =====
-- fast_sort.cc: a round of the loop over the bytes gathers the elements by one byte.
use codon.Prelude.{
  ℕ, zero, suc, ◌+◌, ◌*◌, ◌%◌, ◌^◌, ◌<◌, ◌≤◌, ◌≡◌, refl, sym, subst, ap, ap₂, ◌∙◌, List, [], ◌∷◌,
  ◌++◌, arith, dec_lt, length,
}
use native.Mathlib.Nat.{mod-eq_of_lt, mul-le-mul_right}
use codon.FastSort.Passes.{at, zeroes, count_bytes, starts, scatter, sort_by_byte}
use codon.FastSort.Buckets.{Bucket, join, room, filled, Positions, no_buckets, bucket}
use codon.FastSort.Scatter.{
  select, tally, Roomy, scatter_lem, fill_all, gathered, join-gathered, room-fill_all,
  filled-fill_all, length-fill_all,
}
use codon.FastSort.Counting.{at-count_bytes, length-count_bytes, total, total_all, tally_high}

abbrev front : ℕ → List ℕ → List ℕ
front zero b = []
front (suc n) [] = []
front (suc n) (x ∷ b) = x ∷ front n b

abbrev back : ℕ → List ℕ → List ℕ
back zero b = b
back (suc n) [] = []
back (suc n) (x ∷ b) = back n b

front-back : (n : ℕ) (b : List ℕ) → front n b ++ back n b ≡ b
front-back zero b = refl
front-back (suc n) [] = refl
front-back (suc n) (x ∷ b) = ap (λ l. x ∷ l) (front-back n b)

length-front : (n : ℕ) (b : List ℕ) → n ≤ length b → length (front n b) ≡ n
length-front zero b le = refl
length-front (suc n) [] le = absurd (omega arith)
length-front (suc n) (x ∷ b) le = ap suc (length-front n b (omega arith))

length-back : (n : ℕ) (b : List ℕ) → n ≤ length b → length (back n b) + n ≡ length b
length-back zero b le = omega arith
length-back (suc n) [] le = absurd (omega arith)
length-back (suc n) (x ∷ b) le = omega (arith, length-back n b (omega arith))

zero_add : (n : ℕ) → 0 + n ≡ n
zero_add n = omega arith

-- The target array as empty buckets, each as long as it has to be.
abbrev slices : ℕ → ℕ → ℕ → List ℕ → List ℕ → List Bucket
slices i zero d xs b = []
slices i (suc n) d xs b =
    ([], front (tally i d xs) b) ∷ slices i n (suc d) xs (back (tally i d xs) b)

join-slices : (i n d : ℕ) (xs b : List ℕ) → length b ≡ total i n d xs → join (slices i n d xs b) ≡ b
join-slices i zero d xs [] size = refl
join-slices i zero d xs (x ∷ b) size = absurd (omega arith)
join-slices i (suc n) d xs b size =
    let t = tally i d xs in
    ap (λ l. front t b ++ l)
      (join-slices i n (suc d) xs (back t b) (omega (arith, length-back t b (omega arith))))
    ∙ front-back t b

room-slices :
    (i n d e : ℕ) (xs b : List ℕ)
    → length b ≡ total i n d xs
    → e < n
    → room (slices i n d xs b) e ≡ tally i (d + e) xs
room-slices i zero d e xs b size lt = absurd (omega arith)
room-slices i (suc n) d zero xs b size lt =
    length-front (tally i d xs) b (omega arith) ∙ ap (λ d. tally i d xs) (omega arith)
room-slices i (suc n) d (suc e) xs b size lt =
    let t = tally i d xs in
    room-slices i n (suc d) e xs (back t b) (omega (arith, length-back t b (omega arith)))
      (omega arith)
    ∙ ap (λ d. tally i d xs) (omega arith)

room_beyond : (bs : List Bucket) (e : ℕ) → length bs ≤ e → room bs e ≡ 0
room_beyond [] e le = refl
room_beyond (b ∷ bs) zero le = absurd (omega arith)
room_beyond (b ∷ bs) (suc e) le = room_beyond bs e (omega arith)

length-slices : (i n d : ℕ) (xs b : List ℕ) → length (slices i n d xs b) ≡ n
length-slices i zero d xs b = refl
length-slices i (suc n) d xs b = ap suc (length-slices i n (suc d) xs (back (tally i d xs) b))

filled-slices : (i n d e : ℕ) (xs b : List ℕ) → filled (slices i n d xs b) e ≡ []
filled-slices i zero d e xs b = refl
filled-slices i (suc n) d zero xs b = refl
filled-slices i (suc n) d (suc e) xs b = filled-slices i n (suc d) e xs (back (tally i d xs) b)

Roomy-slices : (i : ℕ) (xs b : List ℕ) → length b ≡ length xs → Roomy i xs (slices i 256 0 xs b)
Roomy-slices i xs b size e = elim (dec_lt e 256) [
  | yes lt ↦
      room-slices i 256 0 e xs b (size ∙ sym (total_all i xs)) lt
      ∙ ap (λ d. tally i d xs) (omega arith)
  | no ge ↦
      room_beyond (slices i 256 0 xs b) e (omega (arith, length-slices i 256 0 xs b))
      ∙ sym (tally_high i e xs (omega arith))
]

-- The sums of the counters are the positions of the buckets.
Positions-starts :
    (k i n d o : ℕ) (xs b cs : List ℕ)
    → length cs ≡ n
    → ((e : ℕ) → e < n → at cs e ≡ tally i (d + e) xs * k)
    → length b ≡ total i n d xs
    → (o + total i n d xs) * k < 2 ^ 32
    → Positions k o (slices i n d xs b) (starts (o * k) cs)
Positions-starts k i zero d o xs b [] len counted size fits = no_buckets
Positions-starts k i zero d o xs b (c ∷ cs) len counted size fits = absurd (omega arith)
Positions-starts k i (suc n) d o xs b [] len counted size fits = absurd (omega arith)
Positions-starts k i (suc n) d o xs b (c ∷ cs) len counted size fits =
    let t = tally i d xs in
    let here : c ≡ t * k = counted 0 (omega arith) ∙ ap (λ d. tally i d xs * k) (omega arith) in
    let sum : (o + t) * k ≡ o * k + c = grind (arith, here) in
    let le : (o + t) * k ≤ (o + total i (suc n) d xs) * k = mul-le-mul_right k (omega arith) in
    let next : (o * k + c) % 2 ^ 32 ≡ (o + t) * k =
      mod-eq_of_lt (omega (arith, sum, le, fits)) ∙ sym sum in
    let first : o * k ≡ (o + 0) * k = ap (λ o. o * k) (omega arith) in
    let place : o + t ≡ o + 0 + length (front t b) =
      omega (arith, length-front t b (omega arith)) in
    let all : o + t + total i n (suc d) xs ≡ o + total i (suc n) d xs = omega arith in
    let rest =
      Positions-starts k i n (suc d) (o + t) xs (back t b) cs (omega arith)
        (λ e lt. counted (suc e) (omega arith) ∙ ap (λ d. tally i d xs * k) (omega arith))
        (omega (arith, length-back t b (omega arith))) (omega (arith, fits, ap (λ n. n * k) all)) in
    let later = slices i n (suc d) xs (back t b) in
    bucket first (
      subst (λ sum. Positions k (o + 0 + length (front t b)) later (starts sum cs)) (sym next)
        (subst (λ o'. Positions k o' later (starts ((o + t) * k) cs)) place rest))

length-zeroes : (n : ℕ) → length (zeroes n) ≡ n
length-zeroes zero = refl
length-zeroes (suc n) = ap suc (length-zeroes n)

at-zeroes : (n d : ℕ) → at (zeroes n) d ≡ 0
at-zeroes zero d = refl
at-zeroes (suc n) zero = refl
at-zeroes (suc n) (suc d) = at-zeroes n d

-- A round with a target of the same length, and counters that do not wrap around: the elements in the order of one byte, those with the same byte in their old order.
pub sort_by_byte-gathered :
    (k i : ℕ) (a b : List ℕ)
    → 0 < k
    → length b ≡ length a
    → length a * k < 2 ^ 32
    → sort_by_byte k i a b ≡ gathered i 256 0 a
unfolding sort_by_byte
sort_by_byte-gathered k i a b pos same fits =
    let counts = count_bytes k i a (zeroes 256) in
    let size : length counts ≡ 256 = length-count_bytes k i a (zeroes 256) ∙ length-zeroes 256 in
    let counted : (e : ℕ) → e < 256 → at counts e ≡ tally i (0 + e) a * k = (λ e lt.
      at-count_bytes k i a (zeroes 256) e (length-zeroes 256)
        (λ e. omega (arith, at-zeroes 256 e, fits))
      ∙ omega (arith, at-zeroes 256 e, ap (λ d. tally i d a * k) (zero_add e))) in
    let all = total_all i a in
    let bs = slices i 256 0 a b in
    let whole : join bs ≡ b = join-slices i 256 0 a b (same ∙ sym all) in
    let start : 0 * k ≡ 0 = grind arith in
    let fits' : (0 + total i 256 0 a) * k < 2 ^ 32 =
      omega (arith, fits, ap (λ n. n * k) (zero_add (total i 256 0 a) ∙ all)) in
    let ps : Positions k 0 bs (starts 0 counts) =
      subst (λ o. Positions k 0 bs (starts o counts)) start
        (Positions-starts k i 256 0 0 a b counts size counted (same ∙ sym all) fits') in
    let roomy = Roomy-slices i a b same in
    let fits2 : length (join bs) * k < 2 ^ 32 =
      omega (arith, fits, ap (λ n. n * k) (ap length whole ∙ same)) in
    let final = fill_all i a bs in
    let count : length final ≡ 256 = length-fill_all i a bs ∙ length-slices i 256 0 a b in
    ap (scatter k i a (starts 0 counts)) (sym whole)
    ∙ scatter_lem k i a bs (starts 0 counts) pos ps fits2 roomy
    ∙ join-gathered i 0 a final (λ e. room-fill_all i a bs e roomy)
        (λ e lt.
          filled-fill_all i a bs e (length-slices i 256 0 a b)
          ∙ ap₂ (λ f d. f ++ select i d a) (filled-slices i 256 0 e a b) (sym (zero_add e)))
    ∙ ap (λ n. gathered i n 0 a) count
