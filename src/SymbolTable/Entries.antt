-- ===== src/SymbolTable/Entries.antt =====
-- What `add` and `read` do to the entries: the first entry of a name or an integer stays, and the two
-- maps know the same names and integers.
use codon.Prelude.{
  ◌≡◌, refl, sym, ap, ◌∙◌, ◌⊎◌, Bool, true, false, List, [], ◌∷◌, Option, none, some, arith, inl,
  inr, Bool-cases, Option-cases,
}
use codon.Prelude.Int.{ℤ, eqb_ℤ, eq_of_parts}
use codon.SymbolTable.Table.{
  Strings, SymbolTable, find, is_some, insert, add, internal_add, read, raw_get_int, raw_get_string,
  contains_int, contains_string,
}

-- `==` on keys decides equality.
pub record Decides {K : Type 0} (eq : K → K → Bool) : Type 0 where
  pub same : (k : K) → eq k k ≡ true
  pub sound : (k k' : K) → eq k k' ≡ true → k ≡ k'

pub eqb_ℤ-Decides : Decides eqb_ℤ
eqb_ℤ-Decides = record {
  same = λ k. ground arith;
  sound = λ k k' e. eq_of_parts k k' (ground arith);
}

module _ {K A : Type 0} (eq : K → K → Bool) (d : Decides eq) where
  find-insert :
      (k : K) (v : A) (m : List (K × A)) → find eq k m ≡ none → find eq k (insert eq k v m) ≡ some v
  find-insert k v m e = ground (arith, e, d.same k)

  find-insert_kept :
      (k k' : K) (v v' : A) (m : List (K × A))
      → find eq k' m ≡ some v'
      → find eq k' (insert eq k v m) ≡ some v'
  find-insert_kept k k' v v' m e = elim (Option-cases (find eq k m)) [
    | inr (x, h) ↦ ground (arith, e, h)
    | inl h ↦ elim (Bool-cases (eq k' k)) [
      | inr ne ↦ ground (arith, e, h, ne)
      | inl same ↦
          let clash : some v' ≡ none = sym e ∙ ap (λ x. find eq x m) (d.sound k' k same) ∙ h in
          absurd (cc)
    ]
  ]

  -- A key that is in the map after an insertion was there or is the new one.
  find-insert_new :
      (k k' : K) (v v' : A) (m : List (K × A))
      → find eq k' (insert eq k v m) ≡ some v'
      → (find eq k' m ≡ some v') ⊎ ((k' ≡ k) × (v' ≡ v))
  find-insert_new k k' v v' m e = elim (Option-cases (find eq k m)) [
    | inr (x, h) ↦ inl (ground (arith, e, h))
    | inl h ↦ elim (Bool-cases (eq k' k)) [
      | inr ne ↦ inl (ground (arith, e, h, ne))
      | inl same ↦ inr (d.sound k' k same, ground (arith, e, h, same))
    ]
  ]

  find-insert-some :
      (k : K) (v : A) (m : List (K × A)) → (v' : A) × (find eq k (insert eq k v m) ≡ some v')
  find-insert-some k v m = elim (Option-cases (find eq k m)) [
    | inr (x, h) ↦ (x, ground (arith, h))
    | inl h ↦ (v, find-insert k v m h)
  ]

module _ {S : Type 0} (p : Strings S) (d : Decides p.eq) where
  -- The lookups go to the maps first, and without the fallback nowhere else.
  raw_get_int-find :
      (t : SymbolTable S) (s : S) (i : ℤ) (fallback : Bool)
      → find p.eq s t.to_int_table ≡ some i
      → raw_get_int p t s fallback ≡ some i
  unfolding raw_get_int
  raw_get_int-find t s i fallback e = ground (arith, e)

  raw_get_string-find :
      (t : SymbolTable S) (i : ℤ) (s : S) (fallback : Bool)
      → find eqb_ℤ i t.to_string_table ≡ some s
      → raw_get_string p t i fallback ≡ some s
  unfolding raw_get_string
  raw_get_string-find t i s fallback e = ground (arith, e)

  find-raw_get_int :
      (t : SymbolTable S) (s : S) (i : ℤ)
      → raw_get_int p t s false ≡ some i
      → find p.eq s t.to_int_table ≡ some i
  unfolding raw_get_int
  find-raw_get_int t s i e = ground arith

  find-raw_get_string :
      (t : SymbolTable S) (i : ℤ) (s : S)
      → raw_get_string p t i false ≡ some s
      → find eqb_ℤ i t.to_string_table ≡ some s
  unfolding raw_get_string
  find-raw_get_string t i s e = ground arith

  -- An entry for a name and an integer that the table does not have is added, and both lookups find it.
  pub add-lookup :
      (t : SymbolTable S) (s : S) (i : ℤ) (fallback : Bool)
      → contains_string p t s ≡ false
      → contains_int p t i ≡ false
      → ((add p t s i).1 ≡ true)
        × (raw_get_int p (add p t s i).0 s fallback ≡ some i)
        × (raw_get_string p (add p t s i).0 i fallback ≡ some s)
  unfolding add contains_int contains_string
  add-lookup t s i fallback no_name no_int =
      let name : find p.eq s t.to_int_table ≡ none = absent (find p.eq s t.to_int_table) no_name in
      let int : find eqb_ℤ i t.to_string_table ≡ none =
        absent (find eqb_ℤ i t.to_string_table) no_int in
      (
        ground (arith, no_name),
        raw_get_int-find (add p t s i).0 s i fallback (find-insert p.eq d s i t.to_int_table name),
        raw_get_string-find (add p t s i).0 i s fallback
            (find-insert eqb_ℤ eqb_ℤ-Decides i s t.to_string_table int),
      )
    where
      absent : {A : Type 0} (o : Option A) → is_some o ≡ false → o ≡ none
      absent none e = refl
      absent (some x) e = absurd (cc)

  -- The two maps know the same names and the same integers.
  pub record Linked (t : SymbolTable S) : Type 0 where
    pub name_of :
        (s : S) (i : ℤ)
        → find p.eq s t.to_int_table ≡ some i
        → (s' : S) × (find eqb_ℤ i t.to_string_table ≡ some s')
    pub int_of :
        (i : ℤ) (s : S)
        → find eqb_ℤ i t.to_string_table ≡ some s
        → (i' : ℤ) × (find p.eq s t.to_int_table ≡ some i')

  add-Linked : (t : SymbolTable S) (s : S) (i : ℤ) → Linked t → Linked (add p t s i).0
  unfolding add
  add-Linked t s i l = record {
    name_of = λ s1 i1 e. elim (find-insert_new p.eq d s s1 i i1 t.to_int_table e) [
      | inl old ↦
          let (s', e') = l.name_of s1 i1 old in
          (s', find-insert_kept eqb_ℤ eqb_ℤ-Decides i i1 s s' t.to_string_table e')
      | inr (_, new) ↦
          let (s', e') = find-insert-some eqb_ℤ eqb_ℤ-Decides i s t.to_string_table in
          (s', ap (λ x. find eqb_ℤ x (insert eqb_ℤ i s t.to_string_table)) new ∙ e')
    ];
    int_of = λ i1 s1 e. elim (find-insert_new eqb_ℤ eqb_ℤ-Decides i i1 s s1 t.to_string_table e) [
      | inl old ↦
          let (i', e') = l.int_of i1 s1 old in
          (i', find-insert_kept p.eq d s s1 i i' t.to_int_table e')
      | inr (_, new) ↦
          let (i', e') = find-insert-some p.eq d s i t.to_int_table in
          (i', ap (λ x. find p.eq x (insert p.eq s i t.to_int_table)) new ∙ e')
    ];
  }

  -- Reading entries into a table keeps the two maps linked, and every name and integer that the table
  -- already has keeps its meaning, whatever the entries are.
  pub read-Linked :
      (t : SymbolTable S) (entries : List (S × ℤ))
      → Linked t
      → Linked (read p t entries).0
        × ((s : S) (i : ℤ)
            → raw_get_int p t s false ≡ some i
            → raw_get_int p (read p t entries).0 s false ≡ some i)
        × ((i : ℤ) (s : S)
            → raw_get_string p t i false ≡ some s
            → raw_get_string p (read p t entries).0 i false ≡ some s)
  unfolding read internal_add add
  read-Linked t [] l = (l, λ s i e. e, λ i s e. e)
  read-Linked t ((s0, i0) ∷ rest) l =
      let (l', ints, names) = read-Linked (add p t s0 i0).0 rest (add-Linked t s0 i0 l) in
      (
        l',
        λ s i e. ints s i (
            raw_get_int-find (add p t s0 i0).0 s i false
              (find-insert_kept p.eq d s0 s i0 i t.to_int_table (find-raw_get_int t s i e))),
        λ i s e. names i s (
            raw_get_string-find (add p t s0 i0).0 i s false (
              find-insert_kept eqb_ℤ eqb_ℤ-Decides i0 i s0 s t.to_string_table
                (find-raw_get_string t i s e))),
      )
