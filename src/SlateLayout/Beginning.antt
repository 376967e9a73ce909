-- ===== src/SlateLayout/Beginning.antt =====
-- SlateLayout.cc, the constructor: the layout before any element is allocated.
use codon.Prelude.{ℕ, zero, suc, ◌≤◌, ◌≡◌, refl, subst, [], some, arith, get_elem?}
use codon.SlateLayout.Types.{Shard, PathMap, Host}
use codon.SlateLayout.Buffer.{empty_buffer}
use codon.SlateLayout.Carving.{cover, within}
use codon.SlateLayout.Growing.{Zeroed}
use codon.SlateLayout.Finding.{Sound}
use codon.SlateLayout.Access.{empty_shards, initial_layout}
use codon.SlateLayout.Occupancy.{MapLaws, Occupied}

abbrev pub empty_shard : Shard
empty_shard = record { size = 0; free_list = []; initial_values = empty_buffer }

pub empty_buffer-Zeroed : Zeroed empty_buffer
empty_buffer-Zeroed = record {
  capacity = omega arith;
  block = refl;
  none_yet = (λ e. refl);
  tail = (λ i le lt. absurd (omega arith));
}

pub empty_shard-Sound : Sound empty_shard
empty_shard-Sound = record { chunks = tt; zeroed = empty_buffer-Zeroed; backed = omega arith }

pub all_empty : (n i : ℕ) (s : Shard) → get_elem? (empty_shards n) i ≡ some s → empty_shard ≡ s
all_empty zero i s e = absurd (cc)
all_empty (suc n) zero s e = cc
all_empty (suc n) (suc i) s e = all_empty n i s e

module _ {P M F : Type 0} (paths : PathMap P M) (host : Host P F) (laws : MapLaws paths) where
  -- At first nothing is occupied.
  pub initial_layout-Occupied :
      (num_slate_shard_t : ℕ)
      → let l = initial_layout paths host num_slate_shard_t in Occupied paths l.elements l.shards
  unfolding initial_layout
  initial_layout-Occupied n = record {
    shard_sound = (λ i s e. subst Sound (all_empty n i s e) empty_shard-Sound);
    free = (λ i s e.
        subst (λ s. (b : ℕ) → cover s.free_list b ≤ within 0 s.size b) (all_empty n i s e)
          (λ b. omega arith));
    element = (λ p x s there view at. absurd (cc (laws.find-empty p, there)));
    disjoint = (λ p q x y ne there there' view view' same. absurd (cc (laws.find-empty p, there)));
  }
