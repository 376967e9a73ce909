-- ===== src/SlateLayout/Samples.antt =====
-- A map from numbers to metadata and identifiers made of an index, at which the layout can be run.
use codon.Prelude.{
  ℕ, suc, ◌+◌, ◌-◌, ◌*◌, ◌/◌, ◌%◌, ◌≡◌, ◌≢◌, refl, sym, subst, ap, ◌∙◌, inl, inr, Bool, true, false,
  not, List, [], ◌∷◌, Option, none, some, arith, ltb, ◌==◌, if◌then◌else◌, Bool-cases, Option-cases,
  ◌>>=◌, ==→eq, ==_refl, ==_ne, get_elem?, ℕ_discrete,
}
use codon.SlateLayout.Types.{Metadata, PathMap, Host}
use codon.SlateLayout.Occupancy.{MapLaws, IdLaws}

abbrev pub Entries : Type 0
Entries = List (ℕ × Metadata)

abbrev pub find : Entries → ℕ → Option Metadata
find [] p = none
find ((q, x) ∷ rest) p = if q == p then some x else find rest p

abbrev pub append : Entries → ℕ → Metadata → Entries
append [] p x = (p, x) ∷ []
append ((q, y) ∷ rest) p x = (q, y) ∷ append rest p x

abbrev pub insert : Entries → ℕ → Metadata → Option Entries
insert m p x = elim (find m p) [ none ↦ some (append m p x) | some y ↦ none ]

abbrev pub index_of : Entries → ℕ → ℕ
index_of [] p = 0
index_of ((q, x) ∷ rest) p = if q == p then 0 else suc (index_of rest p)

abbrev pub path_at : Entries → ℕ → Option ℕ
path_at m i = get_elem? m i >>= (λ (p, x). some p)

abbrev pub number_paths : PathMap ℕ Entries
number_paths = record {
  empty = [];
  find = find;
  insert = insert;
  iterator_to_id = index_of;
  id_to_iterator = path_at;
}

find-append :
    (m : Entries) (p : ℕ) (x : Metadata) → find m p ≡ none → find (append m p x) p ≡ some x
find-append [] p x e = ap (λ t. if t then some x else none) (==_refl p)
find-append ((q, y) ∷ rest) p x e = elim (Bool-cases (q == p)) [
  | inl t ↦ absurd (cc (sym (ap (λ t. if t then some y else find rest p) t) ∙ e))
  | inr f ↦
      ap (λ t. if t then some y else find (append rest p x) p) f
      ∙ find-append rest p x (sym (ap (λ t. if t then some y else find rest p) f) ∙ e)
]

find-append_ne : (m : Entries) (p q : ℕ) (x : Metadata) → p ≢ q → find (append m p x) q ≡ find m q
find-append_ne [] p q x ne = ap (λ t. if t then some x else none) (==_ne p q ne)
find-append_ne ((r, y) ∷ rest) p q x ne =
    ap (λ o. if r == q then some y else o) (find-append_ne rest p q x ne)

insert_lem :
    (m m' : Entries) (p : ℕ) (x : Metadata)
    → insert m p x ≡ some m'
    → (find m p ≡ none) × (append m p x ≡ m')
insert_lem m m' p x e =
    let f : Option Metadata → Option Entries =
      (λ o. elim o [ none ↦ some (append m p x) | some y ↦ none ]) in
    elim (Option-cases (find m p)) [
      | inl n ↦ let e' : some (append m p x) ≡ some m' = sym (ap f n) ∙ e in (n, cc)
      | inr (y, s) ↦ let e' : none ≡ some m' = sym (ap f s) ∙ e in absurd (cc)
    ]

path_at-index_of :
    (m : Entries) (p : ℕ) (x : Metadata) → find m p ≡ some x → path_at m (index_of m p) ≡ some p
path_at-index_of [] p x e = absurd (cc)
path_at-index_of ((q, y) ∷ rest) p x e = elim (Bool-cases (q == p)) [
  | inl t ↦
      ap (λ t. path_at ((q, y) ∷ rest) (if t then 0 else suc (index_of rest p))) t
      ∙ ap some (==→eq q p t)
  | inr f ↦
      ap (λ t. path_at ((q, y) ∷ rest) (if t then 0 else suc (index_of rest p))) f
      ∙ path_at-index_of rest p x (sym (ap (λ t. if t then some y else find rest p) f) ∙ e)
]

pub number_laws : MapLaws number_paths
number_laws = record {
  find-empty = (λ p. refl);
  find-insert = (λ m m' p x e.
      let (n, a) = insert_lem m m' p x e in subst (λ m. find m p ≡ some x) a (find-append m p x n));
  find-insert_ne = (λ m m' p q x e ne.
      let (n, a) = insert_lem m m' p x e in
      subst (λ m'. find m' q ≡ find m q) a (find-append_ne m p q x ne));
  id_to_iterator-iterator_to_id = path_at-index_of;
  same_path = (λ p q. elim (ℕ_discrete p q) [ yes e ↦ inl e | no ne ↦ inr ne ]);
}

-- An identifier is odd if it may write, and half of it is the index, from 1.
abbrev pub odd : Bool → ℕ
odd true = 1
odd false = 0

abbrev pub bit_host : Host ℕ Bool
bit_host = record {
  max_offset = 4294967295;
  slate_element_default = 0;
  slate_type_invalid = 0;
  shard_static = 1;
  slate_id_buildup =
      (λ may_write has_validator shard offset idx. some (2 * (idx + 1) + odd may_write));
  slate_id_is_valid = (λ id. ltb 1 id);
  slate_id_index = (λ id. id / 2 - 1);
  slate_id_can_write = (λ id. id % 2 == 1);
  slate_id_ro = (λ id. id / 2 * 2);
  slate_id_has_validator = (λ id. false);
  is_empty_path = (λ p. p == 0);
  validate_slate_path = (λ p. ltb p 100);
  is_noop = (λ f. not f);
  no_validator = false;
}

index-id : (w : Bool) (idx id : ℕ) → some (2 * (idx + 1) + odd w) ≡ some id → id / 2 - 1 ≡ idx
index-id true idx id e = let e' : 2 * (idx + 1) + 1 ≡ id = cc in omega arith
index-id false idx id e = let e' : 2 * (idx + 1) + 0 ≡ id = cc in omega arith

can_write-id : (w : Bool) (idx id : ℕ) → some (2 * (idx + 1) + odd w) ≡ some id → (id % 2 == 1) ≡ w
can_write-id true idx id e = let e' : 2 * (idx + 1) + 1 ≡ id = cc in ground arith
can_write-id false idx id e = let e' : 2 * (idx + 1) + 0 ≡ id = cc in ground arith

pub bit_laws : IdLaws bit_host
bit_laws = record {
  slate_id_index-slate_id_buildup = (λ w v shard offset idx id e. index-id w idx id e);
  slate_id_can_write-slate_id_buildup = (λ w v shard offset idx id e. can_write-id w idx id e);
  slate_id_index-slate_id_ro = (λ id. ground arith);
  slate_id_is_valid-slate_id_ro = (λ id. ground arith);
  slate_id_can_write-slate_id_ro = (λ id. ground arith);
}
