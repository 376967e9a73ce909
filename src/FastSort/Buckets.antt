-- ===== src/FastSort/Buckets.antt =====
-- fast_sort.cc, the loop that scatters elements: each bucket of the target array has the elements that
-- are written and the room that is left.
use codon.Prelude.{
  ℕ, zero, suc, ◌+◌, ◌-◌, ◌*◌, ◌%◌, ◌^◌, ◌<◌, ◌≤◌, ◌≡◌, ◌≢◌, refl, sym, subst, ap, ◌∙◌, List, [],
  ◌∷◌, ◌++◌, arith, set, length, length-append,
}
use native.Mathlib.Nat.{mod-eq_of_lt}
use codon.FastSort.Passes.{at, add_at}

abbrev pub Bucket : Type 0
Bucket = List ℕ × List ℕ

abbrev pub join : List Bucket → List ℕ
join [] = []
join ((f, r) ∷ bs) = f ++ (r ++ join bs)

abbrev pub behind : List ℕ → List ℕ
behind [] = []
behind (x ∷ xs) = xs

abbrev pub fill : List Bucket → ℕ → ℕ → List Bucket
fill [] d x = []
fill ((f, r) ∷ bs) zero x = (f ++ (x ∷ []), behind r) ∷ bs
fill (b ∷ bs) (suc d) x = b ∷ fill bs d x

abbrev pub room : List Bucket → ℕ → ℕ
room [] d = 0
room ((f, r) ∷ bs) zero = length r
room (b ∷ bs) (suc d) = room bs d

abbrev pub filled : List Bucket → ℕ → List ℕ
filled [] d = []
filled ((f, r) ∷ bs) zero = f
filled (b ∷ bs) (suc d) = filled bs d

-- The counters say where each bucket goes on, in bytes.
pub data Positions (k : ℕ) : ℕ → List Bucket → List ℕ → Type 0 where
  no_buckets : {o : ℕ} → Positions k o [] []
  bucket :
      {o c : ℕ} {f r : List ℕ} {bs : List Bucket} {cs : List ℕ}
      → c ≡ (o + length f) * k
      → Positions k (o + length f + length r) bs cs
      → Positions k o ((f, r) ∷ bs) (c ∷ cs)

pub append_assoc : (xs ys zs : List ℕ) → (xs ++ ys) ++ zs ≡ xs ++ (ys ++ zs)
append_assoc [] ys zs = refl
append_assoc (x ∷ xs) ys zs = ap (λ l. x ∷ l) (append_assoc xs ys zs)

set-append : (xs ys : List ℕ) (j x : ℕ) → set (xs ++ ys) (length xs + j) x ≡ xs ++ set ys j x
set-append [] ys j x = let e : 0 + j ≡ j = omega arith in ap (λ j. set ys j x) e
set-append (y ∷ xs) ys j x =
    let e : suc (length xs) + j ≡ suc (length xs + j) = omega arith in
    ap (λ j. set (y ∷ (xs ++ ys)) j x) e ∙ ap (λ l. y ∷ l) (set-append xs ys j x)

-- Where the next element of a bucket goes.
abbrev pub Goes : ℕ → ℕ → List Bucket → List ℕ → ℕ → ℕ → Type 0
Goes k o bs cs d x =
    (j : ℕ) × (at cs d ≡ (o + j) * k)
    × (set (join bs) j x ≡ join (fill bs d x))
    × Positions k o (fill bs d x) (add_at k cs d)

write_head :
    (k o c x y : ℕ) (f r : List ℕ) (bs : List Bucket) (cs : List ℕ)
    → c ≡ (o + length f) * k
    → Positions k (o + length f + length (y ∷ r)) bs cs
    → (o + length (join ((f, y ∷ r) ∷ bs))) * k < 2 ^ 32
    → Goes k o ((f, y ∷ r) ∷ bs) (c ∷ cs) 0 x
write_head k o c x y f r bs cs e rest fits =
    let size = length-append f (y ∷ (r ++ join bs)) in
    let written : set (f ++ (y ∷ (r ++ join bs))) (length f) x ≡ (f ++ (x ∷ [])) ++ (r ++ join bs) =
      ap (λ j. set (f ++ (y ∷ (r ++ join bs))) j x) (omega arith)
      ∙ set-append f (y ∷ (r ++ join bs)) 0 x
      ∙ sym (append_assoc f (x ∷ []) (r ++ join bs)) in
    let more = length-append f (x ∷ []) in
    let longer : o + length (f ++ (x ∷ [])) ≡ o + length f + 1 = omega (arith, more) in
    let le : (o + length f + 1) * k ≤ (o + length (join ((f, y ∷ r) ∷ bs))) * k =
      grind (arith, size) in
    let next : (c + k) % 2 ^ 32 ≡ (o + length (f ++ (x ∷ []))) * k =
      mod-eq_of_lt (grind (arith, e, le, fits)) ∙ grind (arith, e, longer) in
    let from : o + length f + length (y ∷ r) ≡ o + length (f ++ (x ∷ [])) + length r =
      omega (arith, more) in
    (length f, e, written, bucket next (subst (λ o. Positions k o bs cs) from rest))

pub goes :
    (k o d x : ℕ) (bs : List Bucket) (cs : List ℕ)
    → Positions k o bs cs
    → 0 < room bs d
    → (o + length (join bs)) * k < 2 ^ 32
    → Goes k o bs cs d x
goes k o d x [] cs ps free fits = absurd (omega arith)
goes k o zero x ((f, []) ∷ bs) [] ps free fits = elim ps [ ]
goes k o zero x ((f, y ∷ r) ∷ bs) [] ps free fits = elim ps [ ]
goes k o (suc d) x ((f, r) ∷ bs) [] ps free fits = elim ps [ ]
goes k o zero x ((f, []) ∷ bs) (c ∷ cs) (bucket e rest) free fits = absurd (omega arith)
goes k o zero x ((f, y ∷ r) ∷ bs) (c ∷ cs) (bucket e rest) free fits =
    write_head k o c x y f r bs cs e rest fits
goes k o (suc d) x ((f, r) ∷ bs) (c ∷ cs) (bucket e rest) free fits =
    let size = length-append f (r ++ join bs) in
    let size' = length-append r (join bs) in
    let same : o + length f + length r + length (join bs) ≡ o + length (join ((f, r) ∷ bs)) =
      omega (arith, size, size') in
    let (j, place, written, ps) =
      goes k (o + length f + length r) d x bs cs rest free (omega (arith, ap (λ n. n * k) same)) in
    (
      length f + (length r + j),
      place ∙ ap (λ n. n * k) (omega arith),
      set-append f (r ++ join bs) (length r + j) x
          ∙ ap (λ l. f ++ l) (set-append r (join bs) j x ∙ ap (λ l. r ++ l) written),
      bucket e ps,
    )

-- A fill takes room of its bucket, and adds the element there.
pub room-fill_self : (bs : List Bucket) (d x : ℕ) → room (fill bs d x) d ≡ room bs d - 1
room-fill_self [] d x = omega arith
room-fill_self ((f, []) ∷ bs) zero x = refl
room-fill_self ((f, y ∷ r) ∷ bs) zero x = omega arith
room-fill_self ((f, r) ∷ bs) (suc d) x = room-fill_self bs d x

pub room-fill_ne : (bs : List Bucket) (d x e : ℕ) → d ≢ e → room (fill bs d x) e ≡ room bs e
room-fill_ne [] d x e ne = refl
room-fill_ne ((f, r) ∷ bs) zero x zero ne = absurd (ne refl)
room-fill_ne ((f, r) ∷ bs) zero x (suc e) ne = refl
room-fill_ne ((f, r) ∷ bs) (suc d) x zero ne = refl
room-fill_ne ((f, r) ∷ bs) (suc d) x (suc e) ne = room-fill_ne bs d x e (λ h. ne (ap suc h))

pub filled-fill_self :
    (bs : List Bucket) (d x : ℕ) → d < length bs → filled (fill bs d x) d ≡ filled bs d ++ (x ∷ [])
filled-fill_self [] d x lt = absurd (omega arith)
filled-fill_self ((f, r) ∷ bs) zero x lt = refl
filled-fill_self ((f, r) ∷ bs) (suc d) x lt = filled-fill_self bs d x (omega arith)

pub filled-fill_ne : (bs : List Bucket) (d x e : ℕ) → d ≢ e → filled (fill bs d x) e ≡ filled bs e
filled-fill_ne [] d x e ne = refl
filled-fill_ne ((f, r) ∷ bs) zero x zero ne = absurd (ne refl)
filled-fill_ne ((f, r) ∷ bs) zero x (suc e) ne = refl
filled-fill_ne ((f, r) ∷ bs) (suc d) x zero ne = refl
filled-fill_ne ((f, r) ∷ bs) (suc d) x (suc e) ne = filled-fill_ne bs d x e (λ h. ne (ap suc h))

pub length-fill : (bs : List Bucket) (d x : ℕ) → length (fill bs d x) ≡ length bs
length-fill [] d x = refl
length-fill (b ∷ bs) zero x = refl
length-fill (b ∷ bs) (suc d) x = ap suc (length-fill bs d x)
