-- ===== src/SlateLayout/Occupancy.antt =====
-- What the elements and the free chunks of a layout occupy, and what registering an element does to it.
use codon.Prelude.{
  ℕ, ◌+◌, ◌-◌, ◌≤◌, ◌≡◌, ◌≢◌, refl, sym, subst, ap, ◌∙◌, ◌⊎◌, inl, inr, Bool, true, false, List,
  none, some, arith, ℕ_discrete, get_elem?, set, get_elem?-set_self, get_elem?-set_ne,
  lt-length_of_get_elem?,
}
use codon.SlateLayout.Types.{Metadata, Shard, PathMap, Host}
use codon.SlateLayout.Carving.{within, cover}
use codon.SlateLayout.Finding.{Sound, Found}

-- What the code relies on of the map and of the identifiers.
pub record MapLaws {P M : Type 0} (paths : PathMap P M) : Type 0 where
  pub find-empty : (p : P) → paths.find paths.empty p ≡ none
  pub find-insert :
      (m m' : M) (p : P) (x : Metadata) → paths.insert m p x ≡ some m' → paths.find m' p ≡ some x
  pub find-insert_ne :
      (m m' : M) (p q : P) (x : Metadata)
      → paths.insert m p x ≡ some m'
      → p ≢ q
      → paths.find m' q ≡ paths.find m q
  pub id_to_iterator-iterator_to_id :
      (m : M) (p : P) (x : Metadata)
      → paths.find m p ≡ some x
      → paths.id_to_iterator m (paths.iterator_to_id m p) ≡ some p
  pub same_path : (p q : P) → (p ≡ q) ⊎ (p ≢ q)

pub record IdLaws {P F : Type 0} (host : Host P F) : Type 0 where
  pub slate_id_index-slate_id_buildup :
      (may_write has_validator : Bool) (shard offset idx id : ℕ)
      → host.slate_id_buildup may_write has_validator shard offset idx ≡ some id
      → host.slate_id_index id ≡ idx
  pub slate_id_can_write-slate_id_buildup :
      (may_write has_validator : Bool) (shard offset idx id : ℕ)
      → host.slate_id_buildup may_write has_validator shard offset idx ≡ some id
      → host.slate_id_can_write id ≡ may_write
  pub slate_id_index-slate_id_ro :
      (id : ℕ) → host.slate_id_index (host.slate_id_ro id) ≡ host.slate_id_index id
  pub slate_id_is_valid-slate_id_ro :
      (id : ℕ) → host.slate_id_is_valid (host.slate_id_ro id) ≡ host.slate_id_is_valid id
  pub slate_id_can_write-slate_id_ro :
      (id : ℕ) → host.slate_id_can_write (host.slate_id_ro id) ≡ false

-- Where the bytes of an element are, or would be, free of the free chunks and inside of the shard.
abbrev pub Inside : ℕ → ℕ → Shard → Type 0
Inside offset size s = (b : ℕ) → within offset size b + cover s.free_list b ≤ within 0 s.size b

within_le : (n b : ℕ) → within 0 n b ≤ 1
within_le n b = ground arith

abbrev pub Apart : ℕ → ℕ → ℕ → ℕ → Type 0
Apart offset size offset' size' = (b : ℕ) → within offset size b + within offset' size' b ≤ 1

module _ {P M : Type 0} (paths : PathMap P M) where
  -- Each shard is sound, its free chunks do not overlap and lie inside of it, and the same holds of the
  -- elements that are not views, together with the chunks.
  pub record Occupied (elements : M) (shards : List Shard) : Type 0 where
    pub shard_sound : (i : ℕ) (s : Shard) → get_elem? shards i ≡ some s → Sound s
    pub free :
        (i : ℕ) (s : Shard)
        → get_elem? shards i ≡ some s
        → (b : ℕ) → cover s.free_list b ≤ within 0 s.size b
    pub element :
        (p : P) (x : Metadata) (s : Shard)
        → paths.find elements p ≡ some x
        → x.is_view_element ≡ false
        → get_elem? shards x.shard ≡ some s
        → Inside x.value_offset x.value_size s
    pub disjoint :
        (p q : P) (x y : Metadata)
        → p ≢ q
        → paths.find elements p ≡ some x
        → paths.find elements q ≡ some y
        → x.is_view_element ≡ false
        → y.is_view_element ≡ false
        → x.shard ≡ y.shard
        → Apart x.value_offset x.value_size y.value_offset y.value_size

  -- Space that no element has.
  pub record Vacant (elements : M) (shards : List Shard) (i offset size : ℕ) : Type 0 where
    pub inside : (s : Shard) → get_elem? shards i ≡ some s → Inside offset size s
    pub apart :
        (p : P) (x : Metadata)
        → paths.find elements p ≡ some x
        → x.is_view_element ≡ false
        → x.shard ≡ i
        → Apart offset size x.value_offset x.value_size

  module _ (elements : M) (shards : List Shard) (o : Occupied elements shards) (i : ℕ)
      (s s' : Shard) (here : get_elem? shards i ≡ some s) (v size alignment : ℕ)
      (found : Found s s' v size alignment) where
    -- The shard that has changed, and the others.
    changed :
        (j : ℕ) (t : Shard)
        → get_elem? (set shards i s') j ≡ some t
        → ((i ≡ j) × (s' ≡ t)) ⊎ ((i ≢ j) × (get_elem? shards j ≡ some t))
    changed j t e = elim (ℕ_discrete i j) [
      | yes h ↦
          let e' = get_elem?-set_self shards i s' (lt-length_of_get_elem? shards i here) in
          let e2 : get_elem? (set shards i s') i ≡ some t =
            ap (get_elem? (set shards i s')) h ∙ e in
          inl (h, cc)
      | no h ↦ inr (h, sym (get_elem?-set_ne shards s' h) ∙ e)
    ]

    grown : (b : ℕ) → within 0 s.size b + within s.size (s'.size - s.size) b ≡ within 0 s'.size b
    grown b = ground (arith, found.grows)

    -- The space found is vacant.
    pub Vacant-find_space : Vacant elements (set shards i s') i v size
    Vacant-find_space = record {
      inside = (λ t e. elim (changed i t e) [
        | inl (h, same) ↦
            subst (Inside v size) same
              (λ b. omega (arith, found.bytes b, grown b, o.free i s here b))
        | inr (ne, e') ↦ absurd (ne refl)
      ]);
      apart = (λ p x e view at b.
          let at' : get_elem? shards x.shard ≡ some s = ap (get_elem? shards) at ∙ here in
          omega
            (arith, found.bytes b, grown b, o.element p x s e view at' b, within_le (s'.size) b));
    }

    pub Occupied-find_space : Occupied elements (set shards i s')
    Occupied-find_space = record {
      shard_sound = (λ j t e. elim (changed j t e) [
        | inl (h, same) ↦ subst Sound same found.sound
        | inr (ne, e') ↦ o.shard_sound j t e'
      ]);
      free = (λ j t e. elim (changed j t e) [
        | inl (h, same) ↦
            subst (λ t. (b : ℕ) → cover t.free_list b ≤ within 0 t.size b) same
              (λ b. omega (arith, found.bytes b, grown b, o.free i s here b))
        | inr (ne, e') ↦ o.free j t e'
      ]);
      element = (λ p x t e view at. elim (changed x.shard t at) [
        | inl (h, same) ↦
            let at' : get_elem? shards x.shard ≡ some s = ap (get_elem? shards) (sym h) ∙ here in
            subst (Inside x.value_offset x.value_size) same
              (λ b. omega (arith, found.bytes b, grown b, o.element p x s e view at' b))
        | inr (ne, at') ↦ o.element p x t e view at'
      ]);
      disjoint = o.disjoint;
    }

  module _ (laws : MapLaws paths) (elements elements' : M) (shards : List Shard)
      (o : Occupied elements shards) (path : P) (x : Metadata)
      (inserted : paths.insert elements path x ≡ some elements') where
    -- The element that was inserted, and the others.
    found_path :
        (p : P) (y : Metadata)
        → paths.find elements' p ≡ some y
        → ((path ≡ p) × (x ≡ y)) ⊎ ((path ≢ p) × (paths.find elements p ≡ some y))
    found_path p y e = elim (laws.same_path path p) [
      | inl h ↦
          let e' = laws.find-insert elements elements' path x inserted in
          let e2 : paths.find elements' path ≡ some y = ap (paths.find elements') h ∙ e in
          inl (h, cc)
      | inr h ↦ inr (h, sym (laws.find-insert_ne elements elements' path p x inserted h) ∙ e)
    ]

    module _
        (ok : (x.is_view_element ≡ true)
          ⊎ Vacant elements shards x.shard x.value_offset x.value_size) where
      vacant :
          (y : Metadata)
          → x ≡ y
          → y.is_view_element ≡ false
          → Vacant elements shards y.shard y.value_offset y.value_size
      vacant y same view = elim ok [
        | inl yes_view ↦ absurd (cc (sym yes_view ∙ ap (λ x. x.is_view_element) same ∙ view))
        | inr v ↦ subst (λ y. Vacant elements shards y.shard y.value_offset y.value_size) same v
      ]

      -- An element that is a view, or whose space is vacant, keeps the occupancy.
      pub Occupied-insert : Occupied elements' shards
      Occupied-insert = record {
        shard_sound = o.shard_sound;
        free = o.free;
        element = (λ p y t e view at. elim (found_path p y e) [
          | inl (h, same) ↦ let v = vacant y same view in v.inside t at
          | inr (ne, e') ↦ o.element p y t e' view at
        ]);
        disjoint = (λ p q y z ne e f view_y view_z same_shard. elim (found_path p y e) [
          | inl (h, same) ↦ elim (found_path q z f) [
            | inl (h', same') ↦ absurd (ne (sym h ∙ h'))
            | inr (ne', f') ↦ let v = vacant y same view_y in v.apart q z f' view_z (sym same_shard)
          ]
          | inr (ne', e') ↦ elim (found_path q z f) [
            | inl (h', same') ↦
                let v = vacant z same' view_z in
                (λ b. omega (arith, v.apart p y e' view_y same_shard b))
            | inr (ne2, f') ↦ o.disjoint p q y z ne e' f' view_y view_z same_shard
          ]
        ]);
      }
