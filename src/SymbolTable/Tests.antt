-- ===== src/SymbolTable/Tests.antt =====
-- Names stand for themselves as numbers.
use codon.Prelude.{ℕ, ◌≡◌, refl, true, false, List, [], ◌∷◌, none, some, ◌==◌, ==_refl, ==→eq}
use codon.Prelude.Int.{ℤ, pos, negsuc}
use codon.SymbolTable.Table.{
  Strings, SymbolTable, add, read, equal, raw_get_int, raw_get_string, contains_string,
  contains_int,
}
use codon.SymbolTable.Entries.{Decides, Linked, add-lookup, read-Linked}

abbrev strings : Strings ℕ
strings = record {
  eq = ◌==◌;
  string_to_int = λ s. none;
  string_to_uint = λ s. none;
  print = λ i. none;
}

strings-Decides : Decides strings.eq
strings-Decides = record { same = ==_refl; sound = ==→eq }

abbrev no_entries : SymbolTable ℕ
no_entries = record {
  to_int_table = [];
  to_string_table = [];
  use_fallback = false;
  default_int = negsuc 0;
  default_string = 0;
}

no_entries-Linked : Linked strings strings-Decides no_entries
no_entries-Linked = record { name_of = λ s i e. absurd (cc); int_of = λ i s e. absurd (cc) }

add-lookup_example :
    ((add strings no_entries 7 (pos 1)).1 ≡ true)
    × (raw_get_int strings (add strings no_entries 7 (pos 1)).0 7 false ≡ some (pos 1))
    × (raw_get_string strings (add strings no_entries 7 (pos 1)).0 (pos 1) false ≡ some 7)
unfolding contains_string contains_int
add-lookup_example = add-lookup strings strings-Decides no_entries 7 (pos 1) false refl refl

abbrev entries : List (ℕ × ℤ)
entries = (7, pos 1) ∷ (8, pos 1) ∷ (7, pos 2) ∷ []

read-Linked_example :
    Linked strings strings-Decides (read strings no_entries entries).0
    × ((s : ℕ) (i : ℤ)
        → raw_get_int strings no_entries s false ≡ some i
        → raw_get_int strings (read strings no_entries entries).0 s false ≡ some i)
    × ((i : ℤ) (s : ℕ)
        → raw_get_string strings no_entries i false ≡ some s
        → raw_get_string strings (read strings no_entries entries).0 i false ≡ some s)
read-Linked_example = read-Linked strings strings-Decides no_entries entries no_entries-Linked

-- Two tables that `operator==` does not tell apart, and that differ on the name 8.
abbrev one_name : SymbolTable ℕ
one_name = record no_entries { to_int_table = (7, pos 1) ∷ []; to_string_table = (pos 1, 7) ∷ [] }

abbrev two_names : SymbolTable ℕ
two_names = record one_name { to_int_table = (8, pos 1) ∷ (7, pos 1) ∷ [] }

adds_second_name : add strings one_name 8 (pos 1) ≡ (two_names, true)
unfolding add
adds_second_name = refl

equal_of_one_two : equal strings one_name two_names ≡ true
unfolding equal
equal_of_one_two = refl

raw_get_int_of_one : raw_get_int strings one_name 8 false ≡ none
unfolding raw_get_int
raw_get_int_of_one = refl

raw_get_int_of_two : raw_get_int strings two_names 8 false ≡ some (pos 1)
unfolding raw_get_int
raw_get_int_of_two = refl
