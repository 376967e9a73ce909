-- ===== src/FastSort/Scatter.antt =====
-- fast_sort.cc, one round of the loop over the bytes: what the target array holds afterwards.
use codon.Prelude.{
  ℕ, zero, suc, ◌+◌, ◌-◌, ◌*◌, ◌/◌, ◌^◌, ◌<◌, ◌≡◌, ◌≢◌, refl, sym, ap, ap₂, ◌∙◌, true, List, [],
  ◌∷◌, ◌++◌, arith, ◌==◌, if◌then◌else◌, ℕ_discrete, set, length, length-set, ==_refl, ==_ne,
}
use native.Mathlib.Nat.{mul-div_cancel}
use codon.FastSort.Passes.{byte, at, add_at, scatter}
use codon.FastSort.Buckets.{
  Bucket, join, fill, room, filled, Positions, goes, room-fill_self, room-fill_ne, filled-fill_self,
  filled-fill_ne, length-fill, append_assoc,
}

-- The elements that have the byte `d` at `i`, and how many there are.
abbrev pub select : ℕ → ℕ → List ℕ → List ℕ
select i d [] = []
select i d (x ∷ xs) = if byte i x == d then x ∷ select i d xs else select i d xs

abbrev pub tally : ℕ → ℕ → List ℕ → ℕ
tally i d [] = 0
tally i d (x ∷ xs) = if byte i x == d then suc (tally i d xs) else tally i d xs

module _ (i d x : ℕ) (xs : List ℕ) where
  pub select_same : byte i x ≡ d → select i d (x ∷ xs) ≡ x ∷ select i d xs
  select_same e =
      let t : (byte i x == d) ≡ true = ap (λ b. b == d) e ∙ ==_refl d in
      ap (λ t. if t then x ∷ select i d xs else select i d xs) t

  pub select_other : byte i x ≢ d → select i d (x ∷ xs) ≡ select i d xs
  select_other ne = ap (λ t. if t then x ∷ select i d xs else select i d xs) (==_ne (byte i x) d ne)

  pub tally_same : byte i x ≡ d → tally i d (x ∷ xs) ≡ suc (tally i d xs)
  tally_same e =
      let t : (byte i x == d) ≡ true = ap (λ b. b == d) e ∙ ==_refl d in
      ap (λ t. if t then suc (tally i d xs) else tally i d xs) t

  pub tally_other : byte i x ≢ d → tally i d (x ∷ xs) ≡ tally i d xs
  tally_other ne = ap (λ t. if t then suc (tally i d xs) else tally i d xs) (==_ne (byte i x) d ne)

abbrev pub fill_all : ℕ → List ℕ → List Bucket → List Bucket
fill_all i [] bs = bs
fill_all i (x ∷ xs) bs = fill_all i xs (fill bs (byte i x) x)

-- Each bucket has room for the elements that are still to come.
abbrev pub Roomy : ℕ → List ℕ → List Bucket → Type 0
Roomy i xs bs = (d : ℕ) → room bs d ≡ tally i d xs

Roomy-fill :
    (i x : ℕ) (xs : List ℕ) (bs : List Bucket)
    → Roomy i (x ∷ xs) bs
    → Roomy i xs (fill bs (byte i x) x)
Roomy-fill i x xs bs roomy d = elim (ℕ_discrete (byte i x) d) [
  | yes e ↦
      ap (room (fill bs (byte i x) x)) (sym e)
      ∙ room-fill_self bs (byte i x) x
      ∙ ap (λ d. room bs d - 1) e
      ∙ omega (arith, roomy d, tally_same i d x xs e)
  | no ne ↦ room-fill_ne bs (byte i x) x d ne ∙ roomy d ∙ tally_other i d x xs ne
]

-- The loop fills the buckets.
pub scatter_lem :
    (k i : ℕ) (xs : List ℕ) (bs : List Bucket) (cs : List ℕ)
    → 0 < k
    → Positions k 0 bs cs
    → length (join bs) * k < 2 ^ 32
    → Roomy i xs bs
    → scatter k i xs cs (join bs) ≡ join (fill_all i xs bs)
scatter_lem k i [] bs cs pos ps fits roomy = refl
scatter_lem k i (x ∷ xs) bs cs pos ps fits roomy =
    let d = byte i x in
    let free : 0 < room bs d = omega (arith, roomy d, tally_same i d x xs refl) in
    let z : 0 + length (join bs) ≡ length (join bs) = omega arith in
    let (j, place, written, ps') =
      goes k 0 d x bs cs ps free (omega (arith, fits, ap (λ n. n * k) z)) in
    let target : at cs d / k ≡ j =
      ap (λ c. c / k) place ∙ mul-div_cancel (0 + j) pos ∙ omega arith in
    let same : set (join bs) (at cs d / k) x ≡ join (fill bs d x) =
      ap (λ j. set (join bs) j x) target ∙ written in
    let size : length (join (fill bs d x)) ≡ length (join bs) =
      ap length (sym written) ∙ length-set (join bs) j x in
    ap (scatter k i xs (add_at k cs d)) same
    ∙ scatter_lem k i xs (fill bs d x) (add_at k cs d) pos ps' (omega (arith, ap (λ n. n * k) size))
        (Roomy-fill i x xs bs roomy)

pub room-fill_all :
    (i : ℕ) (xs : List ℕ) (bs : List Bucket) (d : ℕ) → Roomy i xs bs → room (fill_all i xs bs) d ≡ 0
room-fill_all i [] bs d roomy = roomy d
room-fill_all i (x ∷ xs) bs d roomy =
    room-fill_all i xs (fill bs (byte i x) x) d (Roomy-fill i x xs bs roomy)

append_nil : (xs : List ℕ) → xs ++ [] ≡ xs
append_nil [] = refl
append_nil (x ∷ xs) = ap (λ l. x ∷ l) (append_nil xs)

pub filled-fill_all :
    (i : ℕ) (xs : List ℕ) (bs : List Bucket) (d : ℕ)
    → length bs ≡ 256
    → filled (fill_all i xs bs) d ≡ filled bs d ++ select i d xs
filled-fill_all i [] bs d size = sym (append_nil (filled bs d))
filled-fill_all i (x ∷ xs) bs d size =
    let small : byte i x < length bs = omega arith in
    let rest = filled-fill_all i xs (fill bs (byte i x) x) d (length-fill bs (byte i x) x ∙ size) in
    elim (ℕ_discrete (byte i x) d) [
      | yes e ↦
          rest
          ∙ ap (λ f. f ++ select i d xs)
              (ap (filled (fill bs (byte i x) x)) (sym e) ∙ filled-fill_self bs (byte i x) x small)
          ∙ append_assoc (filled bs (byte i x)) (x ∷ []) (select i d xs)
          ∙ ap₂ (λ f s. f ++ s) (ap (filled bs) e) (sym (select_same i d x xs e))
      | no ne ↦
          rest
          ∙ ap₂ (λ f s. f ++ s) (filled-fill_ne bs (byte i x) x d ne)
              (sym (select_other i d x xs ne))
    ]

pub length-fill_all :
    (i : ℕ) (xs : List ℕ) (bs : List Bucket) → length (fill_all i xs bs) ≡ length bs
length-fill_all i [] bs = refl
length-fill_all i (x ∷ xs) bs =
    length-fill_all i xs (fill bs (byte i x) x) ∙ length-fill bs (byte i x) x

-- The elements in the order of their bytes, for `n` bytes from `d` on.
abbrev pub gathered : ℕ → ℕ → ℕ → List ℕ → List ℕ
gathered i zero d xs = []
gathered i (suc n) d xs = select i d xs ++ gathered i n (suc d) xs

-- Buckets without room are the elements that fill them.
pub join-gathered :
    (i d : ℕ) (xs : List ℕ) (bs : List Bucket)
    → ((e : ℕ) → room bs e ≡ 0)
    → ((e : ℕ) → e < length bs → filled bs e ≡ select i (d + e) xs)
    → join bs ≡ gathered i (length bs) d xs
join-gathered i d xs [] full fs = refl
join-gathered i d xs ((f, []) ∷ bs) full fs =
    ap₂ (λ f r. f ++ r) (fs 0 (omega arith) ∙ ap (λ d. select i d xs) (omega arith))
      (join-gathered i (suc d) xs bs (λ e. full (suc e))
        (λ e lt. fs (suc e) (omega arith) ∙ ap (λ d. select i d xs) (omega arith)))
join-gathered i d xs ((f, y ∷ r) ∷ bs) full fs = absurd (omega (arith, full 0))
