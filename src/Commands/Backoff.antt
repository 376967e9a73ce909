-- ===== src/Commands/Backoff.antt =====
-- GrpcPoller::on_response: the time to the next call after a failure.
use native.Mathlib.Nat.{mod-eq_of_lt, div-add-mod', mod-lt, mul-le-mul_left, mul_comm, one-le-pow}
use codon.Prelude.{
  ℕ, ◌+◌, ◌-◌, ◌*◌, ◌/◌, ◌%◌, ◌^◌, ◌≤◌, ◌<◌, ◌≡◌, sym, ap, ap₂, subst, ◌∙◌, arith, lt→ltb,
  if◌then◌else◌, dec_le,
}
use codon.Prelude.Int.{pos, negsuc, ◌≤ℤ◌}
use codon.Commands.PollerTypes.{PollerConfig, backoff, signed, unsigned, min, largest_multiplier}

-- With `q` the largest multiplier that does not overflow, the capped product is the one that does
-- not know about overflow.
capped :
    (mn mx k q : ℕ)
    → mn * q ≤ 2 ^ 63 - 1
    → 2 ^ 63 ≤ mn * q + mn
    → mn + mx ≤ 2 ^ 63
    → min (mn * min q k) mx ≡ min (mn * k) mx
capped mn mx k q a b h = elim (dec_le k q) [
  | yes l ↦ ap (λ m. min (mn * m) mx) (cap k q l)
  | no g ↦
      let larger : mn * q ≤ mn * k = mul-le-mul_left mn (omega (arith, g)) in
      let left : min (mn * q) mx ≡ mx = cap mx (mn * q) (omega (arith, b, h)) in
      let right : min (mn * k) mx ≡ mx = cap mx (mn * k) (omega (arith, b, h, larger)) in
      ap (λ m. min (mn * m) mx) (first q k (omega (arith, g))) ∙ left ∙ sym right
]
  where
    cap : (a b : ℕ) → a ≤ b → min b a ≡ a
    cap a b l = ground arith

    first : (a b : ℕ) → a ≤ b → min a b ≡ a
    first a b l = ground arith

quotient_bounds : (mn a : ℕ) → 0 < mn → (mn * (a / mn) ≤ a) × (a < mn * (a / mn) + mn)
quotient_bounds mn a h =
    let e : a / mn * mn + a % mn ≡ a = div-add-mod' a mn in
    let m : a % mn < mn = mod-lt a h in
    let c : a / mn * mn ≡ mn * (a / mn) = mul_comm (a / mn) mn in
    (omega (arith, e, m, c), omega (arith, e, m, c))

signed_of_small : (n : ℕ) → n < 2 ^ 63 → signed n ≡ pos n
signed_of_small n h = ap (λ t. if t then pos n else negsuc (2 ^ 64 - 1 - n)) (lt→ltb n (2 ^ 63) h)

computed :
    (mn mx k : ℕ)
    → 0 < mn
    → mn + mx ≤ 2 ^ 63
    → signed (min (mn % 2 ^ 64 * min ((2 ^ 63 - 1) / mn) k % 2 ^ 64) (mx % 2 ^ 64))
      ≡ pos (min (mn * k) mx)
computed mn mx k positive fits =
    let q : ℕ = (2 ^ 63 - 1) / mn in
    let (low, high) = quotient_bounds mn (2 ^ 63 - 1) positive in
    let product : mn * min q k ≤ mn * q = mul-le-mul_left mn (min-le_left q k) in
    let e : min (mn % 2 ^ 64 * min q k % 2 ^ 64) (mx % 2 ^ 64) ≡ min (mn * min q k) mx =
      ap₂ min
        (ap (λ m. m * min q k % 2 ^ 64) (mod-eq_of_lt (omega (arith, fits, positive)))
          ∙ mod-eq_of_lt (omega (arith, product, low)))
        (mod-eq_of_lt (omega (arith, fits, positive))) in
    let e' : min (mn * min q k) mx ≡ min (mn * k) mx =
      capped mn mx k q low (omega (arith, high)) fits in
    ap signed (e ∙ e')
    ∙ signed_of_small (min (mn * k) mx) (omega (arith, min-le_right (mn * k) mx, fits, positive))
  where
    min-le_left : (a b : ℕ) → min a b ≤ a
    min-le_left a b = ground arith

    min-le_right : (a b : ℕ) → min a b ≤ b
    min-le_right a b = ground arith

-- The time to the next call after a failure is the minimum backoff, doubled for each failure before
-- it up to 32, and no more than the maximum; the multiplication does not overflow, when the two
-- backoffs are positive and their sum is at most 2^63.
pub backoff_lem :
    (config : PollerConfig) (mn mx retry_count : ℕ)
    → config.min_retry_backoff ≡ pos mn
    → config.max_retry_backoff ≡ pos mx
    → 0 < mn
    → mn + mx ≤ 2 ^ 63
    → backoff config retry_count ≡ pos (min (mn * 2 ^ min retry_count 32) mx)
unfolding backoff
backoff_lem config mn mx retry_count a b positive fits =
    ap₂
      (λ m n. signed (
        min (unsigned m * min (largest_multiplier m) (2 ^ min retry_count 32) % 2 ^ 64)
          (unsigned n)))
      a b
    ∙ computed mn mx (2 ^ min retry_count 32) positive fits

pub backoff_bounds :
    (config : PollerConfig) (mn mx retry_count : ℕ)
    → config.min_retry_backoff ≡ pos mn
    → config.max_retry_backoff ≡ pos mx
    → 0 < mn
    → mn ≤ mx
    → mn + mx ≤ 2 ^ 63
    → (pos mn ≤ℤ backoff config retry_count) × (backoff config retry_count ≤ℤ pos mx)
backoff_bounds config mn mx retry_count a b positive le fits =
    let e : backoff config retry_count ≡ pos (min (mn * 2 ^ min retry_count 32) mx) =
      backoff_lem config mn mx retry_count a b positive fits in
    let k : ℕ = 2 ^ min retry_count 32 in
    let one : 0 < k = one-le-pow (min retry_count 32) 2 (omega arith) in
    let product : mn * 1 ≤ mn * k = mul-le-mul_left mn (omega (arith, one)) in
    let (l, h) = between (mn * k) (omega (arith, product)) in
    (
      subst (λ b. pos mn ≤ℤ b) (sym e) (omega (arith, l)),
      subst (λ b. b ≤ℤ pos mx) (sym e) (omega (arith, h)),
    )
  where
    between : (n : ℕ) → mn ≤ n → (mn ≤ min n mx) × (min n mx ≤ mx)
    between n h = ground arith
