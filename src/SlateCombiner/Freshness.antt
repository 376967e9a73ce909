-- ===== src/SlateCombiner/Freshness.antt =====
-- Which sources are connected: those that have updated less than `stale_threshold` cycles ago.
use codon.Prelude.{
  ℕ, zero, suc, ◌+◌, ◌^◌, ◌<◌, ◌≤◌, ◌≡◌, refl, ap, ◌∙◌, true, false, arith, ltb, if◌then◌else◌,
  Bool-cases, inl, inr,
}
use codon.Prelude.Int.{ℤ}
use codon.SlateCombiner.Types.{Source}
use codon.SlateCombiner.Combine.{is_updated, age_source, refresh_source}

-- The state of a source between two cycles.
pub record Aged (stale_threshold : ℕ) (source : Source) : Type 0 where
  pub capped : source.fresh_age ≤ stale_threshold
  pub agrees : source.connected ≡ ltb source.fresh_age stale_threshold

-- `count` cycles in which the source itself does nothing.
abbrev pub cycles : ℕ → ℤ → ℕ → Source → Source
cycles stale_threshold invalid zero source = source
cycles stale_threshold invalid (suc count) source =
    cycles stale_threshold invalid count (refresh_source stale_threshold invalid invalid source)

module _ (stale_threshold : ℕ) (invalid accepted : ℤ) (source : Source)
    (fits : stale_threshold < 2 ^ 8) where
  abbrev next : Source
  next = refresh_source stale_threshold invalid accepted source

  -- One cycle, by whether the source has updated.
  refresh_updated :
      is_updated invalid accepted source ≡ true
      → next ≡ record source {
        fresh_last = source.fresh;
        fresh_age = 0;
        connected = ltb 0 stale_threshold;
      }
  unfolding refresh_source age_source
  refresh_updated e = rw e refl

  refresh_idle :
      is_updated invalid accepted source ≡ false
      → source.fresh_age ≤ stale_threshold
      → next ≡ record source {
        fresh_age =
            (if ltb source.fresh_age stale_threshold
              then source.fresh_age + 1
              else source.fresh_age);
        connected = ltb (source.fresh_age + 1) stale_threshold;
      }
  unfolding refresh_source age_source
  refresh_idle e capped = ground arith

-- A cycle keeps the age at most the threshold, and the source connected exactly while its age is below
-- it, for a threshold above 0 that fits a UINT8; a source that updates is connected, with age 0.
pub refresh_source-Aged :
    (stale_threshold : ℕ) (invalid accepted : ℤ) (source : Source)
    → 0 < stale_threshold
    → stale_threshold < 2 ^ 8
    → Aged stale_threshold source
    → Aged stale_threshold (refresh_source stale_threshold invalid accepted source)
      × (is_updated invalid accepted source ≡ true
          → ((refresh_source stale_threshold invalid accepted source).connected ≡ true)
            × ((refresh_source stale_threshold invalid accepted source).fresh_age ≡ 0))
refresh_source-Aged stale_threshold invalid accepted source some_age fits aged =
    elim (Bool-cases (is_updated invalid accepted source)) [
      | inl e ↦
          let s = refresh_updated stale_threshold invalid accepted source fits e in
          (
            record { capped = ground (arith, s); agrees = ground (arith, s) },
            λ _. (ground (arith, s), ground (arith, s)),
          )
      | inr e ↦
          let s = refresh_idle stale_threshold invalid accepted source fits e aged.capped in
          (
            record { capped = ground (arith, s); agrees = ground (arith, s) },
            λ h. absurd (ground arith),
          )
    ]

is_updated-same :
    (invalid accepted : ℤ) (s s' : Source)
    → s'.fresh ≡ s.fresh
    → s'.fresh_last ≡ s.fresh_last
    → is_updated invalid accepted s' ≡ is_updated invalid accepted s
unfolding is_updated
is_updated-same invalid accepted s s' e1 e2 = cc

-- When no sequence number is asked for, the threshold fits in a byte and the age is not beyond it, a
-- source that does not update any more stays connected until its age has reached the threshold, and
-- is not connected from then on.
pub cycles-connected :
    (stale_threshold : ℕ) (invalid : ℤ) (count : ℕ) (source : Source)
    → stale_threshold < 2 ^ 8
    → source.fresh_age ≤ stale_threshold
    → is_updated invalid invalid source ≡ false
    → (cycles stale_threshold invalid (suc count) source).connected
      ≡ ltb (source.fresh_age + suc count) stale_threshold
cycles-connected stale_threshold invalid zero source fits capped idle =
    let s = refresh_idle stale_threshold invalid invalid source fits idle capped in
    ground (arith, s)
cycles-connected stale_threshold invalid (suc count) source fits capped idle =
    let source' = refresh_source stale_threshold invalid invalid source in
    let s = refresh_idle stale_threshold invalid invalid source fits idle capped in
    let rest = cycles-connected stale_threshold invalid count source' fits (ground (arith, s)) (
      is_updated-same invalid invalid source source' (ap (λ x. x.fresh) s)
        (ap (λ x. x.fresh_last) s)
      ∙ idle) in
    let age = ap (λ x. x.fresh_age) s in rest ∙ ground (arith, age)
