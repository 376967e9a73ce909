-- ===== src/FastSort/Counting.antt =====
-- fast_sort.cc, the loops that count bytes and sum the counters: where the buckets begin.
use codon.Prelude.{
  ℕ, zero, suc, ◌+◌, ◌*◌, ◌%◌, ◌^◌, ◌<◌, ◌≤◌, ◌≡◌, ◌≢◌, refl, ap, ◌∙◌, List, [], ◌∷◌, arith,
  ℕ_discrete, set, length, length-set,
}
use native.Mathlib.Nat.{mod-eq_of_lt}
use codon.FastSort.Passes.{byte, at, add_at, count_bytes}
use codon.FastSort.Scatter.{tally, tally_same, tally_other}

at-set_self : (cs : List ℕ) (d v : ℕ) → d < length cs → at (set cs d v) d ≡ v
at-set_self [] d v lt = absurd (omega arith)
at-set_self (c ∷ cs) zero v lt = refl
at-set_self (c ∷ cs) (suc d) v lt = at-set_self cs d v (omega arith)

at-set_ne : (cs : List ℕ) (d e v : ℕ) → d ≢ e → at (set cs d v) e ≡ at cs e
at-set_ne [] d e v ne = refl
at-set_ne (c ∷ cs) zero zero v ne = absurd (ne refl)
at-set_ne (c ∷ cs) zero (suc e) v ne = refl
at-set_ne (c ∷ cs) (suc d) zero v ne = refl
at-set_ne (c ∷ cs) (suc d) (suc e) v ne = at-set_ne cs d e v (λ h. ne (ap suc h))

-- The counters count, in bytes, if they do not wrap around.
pub at-count_bytes :
    (k i : ℕ) (xs : List ℕ) (cs : List ℕ) (d : ℕ)
    → length cs ≡ 256
    → ((e : ℕ) → at cs e + length xs * k < 2 ^ 32)
    → at (count_bytes k i xs cs) d ≡ at cs d + tally i d xs * k
at-count_bytes k i [] cs d size fits = let z : 0 * k ≡ 0 = grind arith in omega (arith, z)
at-count_bytes k i (x ∷ xs) cs d size fits =
    let b = byte i x in
    let small : b < length cs = omega arith in
    let more : suc (length xs) * k ≡ length xs * k + k = grind arith in
    let next : at (add_at k cs b) b ≡ at cs b + k =
      at-set_self cs b ((at cs b + k) % 2 ^ 32) small
      ∙ mod-eq_of_lt (omega (arith, fits b, more)) in
    let fits' : (e : ℕ) → at (add_at k cs b) e + length xs * k < 2 ^ 32 = (λ e.
      elim (ℕ_discrete b e) [
        | yes h ↦ omega (arith, ap (at (add_at k cs b)) h, next, fits b, more)
        | no ne ↦ omega (arith, at-set_ne cs b e ((at cs b + k) % 2 ^ 32) ne, fits e, more)
      ]) in
    let rest =
      at-count_bytes k i xs (add_at k cs b) d (length-set cs b ((at cs b + k) % 2 ^ 32) ∙ size)
        fits' in
    elim (ℕ_discrete b d) [
      | yes h ↦
          let t : tally i d (x ∷ xs) * k ≡ tally i d xs * k + k =
            ap (λ n. n * k) (tally_same i d x xs h) ∙ grind arith in
          omega (arith, rest, ap (at (add_at k cs b)) h, ap (at cs) h, next, t)
      | no ne ↦ omega (
        arith,
        rest,
        at-set_ne cs b d ((at cs b + k) % 2 ^ 32) ne,
        ap (λ n. n * k) (tally_other i d x xs ne),
      )
    ]

pub length-count_bytes : (k i : ℕ) (xs cs : List ℕ) → length (count_bytes k i xs cs) ≡ length cs
length-count_bytes k i [] cs = refl
length-count_bytes k i (x ∷ xs) cs =
    length-count_bytes k i xs (add_at k cs (byte i x))
    ∙ length-set cs (byte i x) ((at cs (byte i x) + k) % 2 ^ 32)

-- How many elements have one of the `n` bytes from `d` on.
abbrev pub total : ℕ → ℕ → ℕ → List ℕ → ℕ
total i zero d xs = 0
total i (suc n) d xs = tally i d xs + total i n (suc d) xs

total_before : (i n d x : ℕ) (xs : List ℕ) → byte i x < d → total i n d (x ∷ xs) ≡ total i n d xs
total_before i zero d x xs lt = refl
total_before i (suc n) d x xs lt =
    omega
      (arith, tally_other i d x xs (λ e. omega arith), total_before i n (suc d) x xs (omega arith))

total_within :
    (i n d x : ℕ) (xs : List ℕ)
    → d ≤ byte i x
    → byte i x < d + n
    → total i n d (x ∷ xs) ≡ suc (total i n d xs)
total_within i zero d x xs le lt = absurd (omega arith)
total_within i (suc n) d x xs le lt = elim (ℕ_discrete (byte i x) d) [
  | yes e ↦ omega (arith, tally_same i d x xs e, total_before i n (suc d) x xs (omega arith))
  | no ne ↦
      omega
        (arith, tally_other i d x xs ne, total_within i n (suc d) x xs (omega arith) (omega arith))
]

total_none : (i n d : ℕ) → total i n d [] ≡ 0
total_none i zero d = refl
total_none i (suc n) d = omega (arith, total_none i n (suc d))

pub total_all : (i : ℕ) (xs : List ℕ) → total i 256 0 xs ≡ length xs
total_all i [] = refl
total_all i (x ∷ xs) =
    total_within i 256 0 x xs (omega arith) (omega arith) ∙ ap suc (total_all i xs)

pub tally_high : (i d : ℕ) (xs : List ℕ) → 256 ≤ d → tally i d xs ≡ 0
tally_high i d [] le = refl
tally_high i d (x ∷ xs) le =
    omega (arith, tally_other i d x xs (λ e. omega arith), tally_high i d xs le)
