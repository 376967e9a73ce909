-- ===== src/SlateBuilder/Tests.antt =====
-- Paths of numbers, and stores that hold what they are made with, for the theorems to run on.
use codon.Prelude.{
  ℕ, ◌+◌, ◌≡◌, refl, sym, ap, ap₂, subst, ◌∙◌, ◌⊎◌, inl, inr, ◌↔◌, Bool, true, false, not, ◌&&◌,
  ◌||◌, List, [], ◌∷◌, ◌++◌, Option, none, some, arith, Bool-cases, if◌then◌else◌, All, ◌==◌,
  ==_refl, ==→eq,
}
use codon.SlateLayout.Types.{slate_read_only, Metadata, PathMap, Host, SlateLayout}
use codon.SlateLayout.Access.{is_some}
use codon.SlateBuilder.Builder.{
  Paths, Stores, Builder, is_permitted_path, sub_slate, names_distinct, compute_path_set,
  path_set_of, builder_element_id, require_permitted_path, ElementKey,
}
use codon.SlateLayout.Access.{build_element_id, id_by_access}
use codon.SlateBuilder.Masks.{Below, Tree}
use codon.SlateBuilder.SubSlates.{StoreLaws, Restricted, sub_slate-Restricted, sub_slate_forgets}
use codon.SlateBuilder.Names.{Distinct}
use codon.SlateBuilder.Collisions.{IsReady, AllNames, names_distinct_iff}

abbrev same : List ℕ → List ℕ → Bool
same [] [] = true
same [] (y ∷ ys) = false
same (x ∷ xs) [] = false
same (x ∷ xs) (y ∷ ys) = if x == y then same xs ys else false

abbrev strip : List ℕ → List ℕ → Option (List ℕ)
strip [] ys = some ys
strip (x ∷ xs) [] = none
strip (x ∷ xs) (y ∷ ys) = if x == y then strip xs ys else none

abbrev number_paths : Paths (List ℕ)
number_paths = record { eq = same; join = λ a b. a ++ b; rel = strip }

same_true : (a b : List ℕ) → same a b ≡ true → a ≡ b
same_true [] [] h = refl
same_true [] (y ∷ ys) h = absurd (cc h)
same_true (x ∷ xs) [] h = absurd (cc h)
same_true (x ∷ xs) (y ∷ ys) h = elim (Bool-cases (x == y)) [
  | inl e ↦
      ap₂ (λ x xs. x ∷ xs) (==→eq x y e)
        (same_true xs ys (sym (ap (λ b. if b then same xs ys else false) e) ∙ h))
  | inr e ↦ absurd (cc)
]

strip_append : (a b : List ℕ) → strip a (a ++ b) ≡ some b
strip_append [] b = refl
strip_append (x ∷ a) b =
    ap (λ t. if t then strip a (a ++ b) else none) (==_refl x) ∙ strip_append a b

strip_refl : (a : List ℕ) → Below number_paths a a
strip_refl [] = refl
strip_refl (x ∷ a) = ap (λ t. is_some (if t then strip a a else none)) (==_refl x) ∙ strip_refl a

strip_line :
    (a b c : List ℕ)
    → Below number_paths a c
    → Below number_paths b c
    → Below number_paths a b ⊎ Below number_paths b a
strip_line [] b c h k = inl refl
strip_line (x ∷ a) [] c h k = inr refl
strip_line (x ∷ a) (y ∷ b) [] h k = absurd (cc h)
strip_line (x ∷ a) (y ∷ b) (z ∷ c) h k = elim (Bool-cases (x == z)) [
  | inr e ↦ absurd (cc)
  | inl e ↦ elim (Bool-cases (y == z)) [
    | inr f ↦ absurd (cc)
    | inl f ↦
        let xy : x ≡ y = ==→eq x z e ∙ sym (==→eq y z f) in
        elim (strip_line a b c (sym (ap (λ t. is_some (if t then strip a c else none)) e) ∙ h)
          (sym (ap (λ t. is_some (if t then strip b c else none)) f) ∙ k)) [
            | inl u ↦ inl (
                ap (λ t. is_some (if t then strip a b else none))
                  (subst (λ y. (x == y) ≡ true) xy (==_refl x))
                ∙ u)
            | inr u ↦ inr (
                ap (λ t. is_some (if t then strip b a else none))
                  (subst (λ x. (y == x) ≡ true) (sym xy) (==_refl y))
                ∙ u)
          ]
  ]
]

number_paths-Tree : Tree number_paths
number_paths-Tree = record {
  rel_refl = strip_refl;
  rel_line = strip_line;
  join_below = λ a b. ap is_some (strip_append a b);
  eq_true = same_true;
}

abbrev Entries : Type 0
Entries = List (List ℕ × Metadata)

abbrev lookup : Entries → List ℕ → Option Metadata
lookup [] p = none
lookup ((q, x) ∷ rest) p = if same q p then some x else lookup rest p

abbrev entries : PathMap (List ℕ) Entries
entries = record {
  empty = [];
  find = lookup;
  insert = λ m p x. some ((p, x) ∷ m);
  iterator_to_id = λ m p. 0;
  id_to_iterator = λ m n. none;
}

abbrev host : Host (List ℕ) Bool
host = record {
  max_offset = 4294967295;
  slate_element_default = 0;
  slate_type_invalid = 0;
  shard_static = 1;
  slate_id_buildup = λ may_write has_validator shard offset idx. some (idx + 1);
  slate_id_is_valid = λ id. true;
  slate_id_index = λ id. id;
  slate_id_can_write = λ id. false;
  slate_id_ro = λ id. id;
  slate_id_has_validator = λ id. false;
  is_empty_path = λ p. false;
  validate_slate_path = λ p. true;
  is_noop = λ f. f;
  no_validator = true;
}

abbrev element : Metadata
element = record {
  type_id = 3;
  shard = 0;
  value_offset = 0;
  value_size = 4;
  access_policy = slate_read_only;
  subsystem_id = 0;
  is_view_element = false;
}

-- A store: whether it may write, its masks and its path.
record Store : Type 0 where
  permission : Bool
  masked_paths : List (List ℕ)
  subtree_path : List ℕ
  is_super : Bool

abbrev layout : SlateLayout Entries Bool
layout = record {
  elements = (1 ∷ 2 ∷ [], element) ∷ (1 ∷ 4 ∷ [], element) ∷ [];
  idx_to_validator = [];
  shard_policy = λ shard. slate_read_only;
  shards = [];
}

abbrev stores : Stores Store (List ℕ) Bool Entries Bool
stores = record {
  is_superset = λ a b. a || not b;
  take_subset = λ a b. a && b;
  get_permission = λ t. t.permission;
  get_masked_paths = λ t. t.masked_paths;
  get_subtree_path = λ t. t.subtree_path;
  get_subsystem_id = λ t. 0;
  is_super_store = λ t. t.is_super;
  is_built_store = λ t. true;
  store_layout = λ t. layout;
  sub_store = λ t p l n i. record {
    permission = n;
    masked_paths = l;
    subtree_path = p;
    is_super = t.is_super;
  };
  super_store = λ t. some (record t { is_super = true });
  store_element_id = λ t p n. some 1;
}

take_left : (a b : Bool) → (a || not (a && b)) ≡ true
take_left a b = ground arith

take_right : (a b : Bool) → (b || not (a && b)) ≡ true
take_right a b = ground arith

stores-StoreLaws : StoreLaws number_paths stores
stores-StoreLaws = record {
  sub_permission = λ t p l n i. refl;
  sub_masks = λ t p l n i. refl;
  sub_subtree = λ t p l n i. refl;
  subset_left = take_left;
  subset_right = take_right;
}

-- The root, with the mask /1/2, and a builder at /1 with the same mask.
abbrev root : Builder Store (List ℕ) ℕ
root = record {
  store = record {
    permission = true;
    masked_paths = (1 ∷ 2 ∷ []) ∷ [];
    subtree_path = [];
    is_super = false;
  };
  enum_registry_relative_path = [];
  enum_registry = none;
}

abbrev at_one : Builder Store (List ℕ) ℕ
at_one = record root { store = record root.store { subtree_path = 1 ∷ [] } }

abbrev sub : Builder Store (List ℕ) ℕ
sub = record root {
  store = record {
    permission = false;
    masked_paths = (1 ∷ 2 ∷ []) ∷ (1 ∷ 3 ∷ []) ∷ [];
    subtree_path = 1 ∷ [];
    is_super = false;
  };
}

sub_run : sub_slate number_paths stores [] root (1 ∷ []) ((3 ∷ []) ∷ []) false 0 ≡ some sub
unfolding sub_slate
sub_run = refl

sub_slate-Restricted_example : Restricted number_paths stores root sub false ((3 ∷ []) ∷ [])
sub_slate-Restricted_example =
    sub_slate-Restricted number_paths stores number_paths-Tree stores-StoreLaws [] root sub (1 ∷ [])
      ((3 ∷ []) ∷ []) false 0 refl sub_run

at_one_refuses : is_permitted_path number_paths stores at_one (1 ∷ 2 ∷ 5 ∷ []) ≡ false
unfolding is_permitted_path
at_one_refuses = refl

sub_slate_forgets_example :
    (b' : Builder Store (List ℕ) ℕ) × (sub_slate number_paths stores [] at_one
        (2 ∷ 5 ∷ [])
        []
        false
        0
      ≡ some b')
    × (b'.store.subtree_path ≡ 1 ∷ 2 ∷ 5 ∷ [])
    × ((path : List ℕ) → is_permitted_path number_paths stores b' path ≡ true)
sub_slate_forgets_example =
    sub_slate_forgets number_paths stores number_paths-Tree stores-StoreLaws [] at_one (2 ∷ 5 ∷ [])
      false 0 refl refl (refl, tt) at_one_refuses

abbrev super : Builder Store (List ℕ) ℕ
super = record root { store = record root.store { is_super = true; masked_paths = [] } }

names_distinct_iff_example :
    (names_distinct number_paths stores entries host (λ m. m) (super ∷ []) ≡ true) ↔ (
      All (IsReady number_paths stores entries host (λ m. m)) (super ∷ [])
      × ((names : List (List ℕ)) × AllNames number_paths stores entries host
            (λ m. m)
            (super ∷ [])
            names
          × Distinct number_paths names))
names_distinct_iff_example = names_distinct_iff number_paths stores entries host (λ m. m) super []

abbrev keys : List (ElementKey (List ℕ))
keys =
    record { path = 2 ∷ []; type_id = 3; element_id = 1 }
    ∷ record { path = 4 ∷ []; type_id = 3; element_id = 1 }
    ∷ []

-- The element /1/2 is listed, although its path is masked.
listed_run : compute_path_set number_paths stores entries host (λ m. m) at_one ≡ some keys
unfolding compute_path_set path_set_of build_element_id id_by_access
listed_run = refl

masked_run : builder_element_id number_paths stores at_one (2 ∷ []) 3 ≡ none
unfolding builder_element_id require_permitted_path
masked_run = refl
