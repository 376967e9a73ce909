-- ===== src/StateMachine/GraphSearch.antt =====
-- The depth-first search of `search_for_cycle`, against walks through dangerous states.
use codon.Prelude.{
  ℕ, zero, suc, ◌<◌, ◌≤◌, ◌≡◌, ◌≢◌, refl, sym, subst, ap, ◌∙◌, ◌⊎◌, inl, inr, Bool, true, false,
  List, [], ◌∷◌, Option, some, arith, ltb, get_elem?, set, length, length-set, get_elem?-set_self,
  get_elem?-set_ne, lt-length_of_get_elem?, get_elem?-lt, Bool-cases, ℕ_discrete, ltb→lt, ltb→le,
}
use codon.StateMachine.Types.{Machine, next_state}
use codon.StateMachine.Graph.{Color, unexplored, in_progress, explored, member, search_for_cycle}
use codon.StateMachine.GraphWalk.{Walk, one, more, Walk-start, Safe, benign, leave, step}

-- How many states are still to be coloured.
abbrev pub count : List Color → ℕ
count [] = 0
count (unexplored ∷ cs) = suc (count cs)
count (in_progress ∷ cs) = count cs
count (explored ∷ cs) = count cs

count-set :
    (colors : List Color) (i : ℕ)
    → get_elem? colors i ≡ some unexplored
    → suc (count (set colors i in_progress)) ≡ count colors
count-set [] i h = absurd (cc)
count-set (unexplored ∷ cs) zero h = refl
count-set (in_progress ∷ cs) zero h = absurd (cc)
count-set (explored ∷ cs) zero h = absurd (cc)
count-set (unexplored ∷ cs) (suc i) h = ap suc (count-set cs i h)
count-set (in_progress ∷ cs) (suc i) h = count-set cs i h
count-set (explored ∷ cs) (suc i) h = count-set cs i h

pub count≤length : (colors : List Color) → count colors ≤ length colors
count≤length [] = omega arith
count≤length (unexplored ∷ cs) = omega (arith, count≤length cs)
count≤length (in_progress ∷ cs) = omega (arith, count≤length cs)
count≤length (explored ∷ cs) = omega (arith, count≤length cs)

module _ (m : Machine) (timeout_index : ℕ) (d : List ℕ) (dangerous : ℕ → Bool) where
  abbrev next : ℕ → Option ℕ
  next k = next_state m.state k timeout_index

  abbrev n : ℕ
  n = length m.state

  -- What the colors stand for, `i` being the state that the search is at.
  pub record Marked (colors : List Color) : Type 0 where
    pub sized : length colors ≡ n
    pub safe : (k : ℕ) → get_elem? colors k ≡ some explored → Safe n dangerous next k

  pub record Ready (fuel : ℕ) (colors : List Color) (i : ℕ) : Type 0 where
    pub marked : Marked colors
    pub fresh : get_elem? colors i ≡ some unexplored
    pub enough : count colors ≤ fuel
    pub path : (k : ℕ) → get_elem? colors k ≡ some in_progress → Walk n dangerous next k i

  -- A search without a cycle leaves no new state in progress.
  pub record Left (colors colors' : List Color) (i : ℕ) : Type 0 where
    pub marked : Marked colors'
    pub here : Safe n dangerous next i
    pub closed :
        (k : ℕ) → get_elem? colors' k ≡ some in_progress → get_elem? colors k ≡ some in_progress

  abbrev pub Found : List Color → ℕ → List Color → Bool → Type 0
  Found colors i colors' false = Left colors colors' i
  Found colors i colors' true = (k : ℕ) × Walk n dangerous next k k

  set-same :
      (xs : List Color) (i : ℕ) (c : Color)
      → i < length xs
      → {k : ℕ} → i ≡ k
      → get_elem? (set xs i c) k ≡ some c
  set-same xs i c h e =
      subst (λ k. get_elem? (set xs i c) k ≡ some c) e (get_elem?-set_self xs i c h)

  -- `i` is done: it becomes explored on top of what its successor has left.
  finish :
      (colors colors2 : List Color) (i : ℕ)
      → i < n
      → Marked colors2
      → Safe n dangerous next i
      → ((k : ℕ)
          → i ≢ k
          → get_elem? colors2 k ≡ some in_progress
          → get_elem? colors k ≡ some in_progress)
      → Left colors (set colors2 i explored) i
  finish colors colors2 i inside k2 s closed =
      let within : i < length colors2 = omega (arith, inside, k2.sized) in
      record {
        marked = record {
          sized = length-set colors2 i explored ∙ k2.sized;
          safe = λ k h. elim (ℕ_discrete i k) [
            | yes same ↦ subst (Safe n dangerous next) same s
            | no other ↦ k2.safe k (sym (get_elem?-set_ne colors2 explored other) ∙ h)
          ];
        };
        here = s;
        closed = λ k h. elim (ℕ_discrete i k) [
          | yes same ↦ absurd (ground (arith, set-same colors2 i explored within same, h))
          | no other ↦ closed k other (sym (get_elem?-set_ne colors2 explored other) ∙ h)
        ];
      }

  -- The state in hand joins the ones in progress, and the search looks at its successor `j`.
  enter :
      (fuel : ℕ) (colors : List Color) (i j : ℕ)
      → Ready fuel colors i
      → dangerous i ≡ true
      → next i ≡ some j
      → i < n
      → (k : ℕ) → get_elem? (set colors i in_progress) k ≡ some in_progress
      → Walk n dangerous next k j
  enter fuel colors i j r d e inside k h = elim (ℕ_discrete i k) [
    | yes same ↦ subst (λ x. Walk n dangerous next x j) same (one d e)
    | no other ↦ more (r.path k (sym (get_elem?-set_ne colors in_progress other) ∙ h)) d e
  ]

  Marked-enter :
      (colors : List Color) (i : ℕ) → i < n → Marked colors → Marked (set colors i in_progress)
  Marked-enter colors i inside k = record {
    sized = length-set colors i in_progress ∙ k.sized;
    safe = λ x h. elim (ℕ_discrete i x) [
      | yes same ↦
          absurd
            (ground (arith, set-same colors i in_progress (omega (arith, inside, k.sized)) same, h))
      | no other ↦ k.safe x (sym (get_elem?-set_ne colors in_progress other) ∙ h)
    ];
  }

  back :
      (colors : List Color) (i : ℕ) (k : ℕ)
      → i ≢ k
      → get_elem? (set colors i in_progress) k ≡ some in_progress
      → get_elem? colors k ≡ some in_progress
  back colors i k other h = sym (get_elem?-set_ne colors in_progress other) ∙ h

  abbrev pub Searched : ℕ → List Color → ℕ → Type 0
  Searched fuel colors i =
      (colors' : List Color) × (b : Bool) × (search_for_cycle m timeout_index true fuel d colors
          false i
        ≡ some (colors', b))
      × Found colors i colors' b

  module _ (agree : (k : ℕ) → member d k ≡ dangerous k)
      (leads : (k : ℕ) → k < n → (j : ℕ) × (next k ≡ some j)) where
    search_benign :
        (fuel : ℕ) (colors : List Color) (i : ℕ)
        → Ready (suc fuel) colors i
        → dangerous i ≡ false
        → i < n
        → Searched (suc fuel) colors i
    unfolding search_for_cycle
    search_benign fuel colors i r quiet inside = (
      set colors i explored,
      false,
      rw (r.fresh, search_for_cycle) (rw (agree i ∙ quiet, search_for_cycle) refl),
      finish colors colors i inside r.marked (benign quiet) (λ k _ h. h),
    )

    search_leaf :
        (fuel : ℕ) (colors : List Color) (i j : ℕ)
        → Ready (suc fuel) colors i
        → dangerous i ≡ true
        → i < n
        → next i ≡ some j
        → (ltb j n ≡ false)
          ⊎ ((ltb j n ≡ true) × (get_elem? (set colors i in_progress) j ≡ some explored))
        → Searched (suc fuel) colors i
    unfolding search_for_cycle
    search_leaf fuel colors i j r hot inside e (inl out) = (
      set (set colors i in_progress) i explored,
      false,
      rw (r.fresh, search_for_cycle)
          (rw (agree i ∙ hot, search_for_cycle)
            (rw (e, search_for_cycle) (rw (out, search_for_cycle) refl))),
      finish colors (set colors i in_progress) i inside (Marked-enter colors i inside r.marked)
          (leave e (ltb→le j n out)) (back colors i),
    )
    search_leaf fuel colors i j r hot inside e (inr (in_, done)) =
        let k = Marked-enter colors i inside r.marked in
        (
          set (set colors i in_progress) i explored,
          false,
          rw (r.fresh, search_for_cycle)
              (rw (agree i ∙ hot, search_for_cycle)
                (rw (e, search_for_cycle)
                  (rw (in_, search_for_cycle) (rw (done, search_for_cycle) refl)))),
          finish colors (set colors i in_progress) i inside k (step e (k.safe j done))
              (back colors i),
        )

    search_back :
        (fuel : ℕ) (colors : List Color) (i j : ℕ)
        → Ready (suc fuel) colors i
        → dangerous i ≡ true
        → i < n
        → next i ≡ some j
        → ltb j n ≡ true
        → get_elem? (set colors i in_progress) j ≡ some in_progress
        → Searched (suc fuel) colors i
    unfolding search_for_cycle
    search_back fuel colors i j r hot inside e in_ met =
        let w = enter (suc fuel) colors i j r hot e inside j met in
        (
          set colors i in_progress,
          true,
          rw (r.fresh, search_for_cycle)
              (rw (agree i ∙ hot, search_for_cycle)
                (rw (e, search_for_cycle)
                  (rw (in_, search_for_cycle)
                    (rw (met, search_for_cycle)
                      (rw (agree j ∙ Walk-start n dangerous next w) refl))))),
          (j, w),
        )

    search_on :
        (fuel : ℕ) (colors : List Color) (i j : ℕ)
        → Ready (suc fuel) colors i
        → dangerous i ≡ true
        → i < n
        → next i ≡ some j
        → ltb j n ≡ true
        → get_elem? (set colors i in_progress) j ≡ some unexplored
        → Searched fuel (set colors i in_progress) j
        → Searched (suc fuel) colors i
    unfolding search_for_cycle
    search_on fuel colors i j r hot inside e in_ met (colors2, true, run, found) = (
      set colors2 i explored,
      true,
      rw (r.fresh, search_for_cycle)
          (rw (agree i ∙ hot, search_for_cycle)
            (rw (e, search_for_cycle)
              (rw (in_, search_for_cycle)
                (rw (met, search_for_cycle) (rw (run, search_for_cycle) refl))))),
      found,
    )
    search_on fuel colors i j r hot inside e in_ met (colors2, false, run, found) = (
      set colors2 i explored,
      false,
      rw (r.fresh, search_for_cycle)
          (rw (agree i ∙ hot, search_for_cycle)
            (rw (e, search_for_cycle)
              (rw (in_, search_for_cycle)
                (rw (met, search_for_cycle) (rw (run, search_for_cycle) refl))))),
      finish colors colors2 i inside found.marked (step e found.here)
          (λ k other h. back colors i k other (found.closed k h)),
    )

    search_color :
        (fuel : ℕ) (colors : List Color) (i j : ℕ)
        → Ready (suc fuel) colors i
        → dangerous i ≡ true
        → i < n
        → next i ≡ some j
        → ltb j n ≡ true
        → (Ready fuel (set colors i in_progress) j → Searched fuel (set colors i in_progress) j)
        → (c : Color) → get_elem? (set colors i in_progress) j ≡ some c
        → Searched (suc fuel) colors i
    search_color fuel colors i j r hot inside e in_ rec in_progress h =
        search_back fuel colors i j r hot inside e in_ h
    search_color fuel colors i j r hot inside e in_ rec explored h =
        search_leaf fuel colors i j r hot inside e (inr (in_, h))
    search_color fuel colors i j r hot inside e in_ rec unexplored h =
        search_on fuel colors i j r hot inside e in_ h (
          rec (record {
            marked = Marked-enter colors i inside r.marked;
            fresh = h;
            enough = omega (arith, r.enough, count-set colors i r.fresh);
            path = enter (suc fuel) colors i j r hot e inside;
          }))

    -- Each call colours one state, so as much fuel as there are states left is enough; the answer is
    -- whether there is a cycle.
    pub search_for_cycle_lem :
        (fuel : ℕ) (colors : List Color) (i : ℕ) → Ready fuel colors i → Searched fuel colors i
    search_for_cycle_lem zero colors i r =
        absurd (ground (arith, count-set colors i r.fresh, r.enough))
    search_for_cycle_lem (suc fuel) colors i r =
        let inside : i < n =
          ground (arith, lt-length_of_get_elem? colors i r.fresh, r.marked.sized) in
        let colors1 = set colors i in_progress in
        elim (Bool-cases (dangerous i)) [
          | inr quiet ↦ search_benign fuel colors i r quiet inside
          | inl hot ↦
              let (j, e) = leads i inside in
              elim (Bool-cases (ltb j n)) [
                | inr out ↦ search_leaf fuel colors i j r hot inside e (inl out)
                | inl in_ ↦
                    let k = Marked-enter colors i inside r.marked in
                    let (c, at_j) =
                      get_elem?-lt colors1 j (omega (arith, k.sized, ltb→lt j n in_)) in
                    search_color fuel colors i j r hot inside e in_
                      (search_for_cycle_lem fuel colors1 j) c at_j
              ]
        ]
