-- ===== src/SlateLayout/Tests.antt =====
-- A layout with two shards over the sample map, and the theorems at it.
use codon.Prelude.{
  ℕ, ◌%◌, ◌≡◌, refl, sym, ap, Bool, true, false, not, [], ◌∷◌, some, arith, ◌==◌, get_elem?,
}
use codon.SlateLayout.Types.{slate_private, slate_read_only, Metadata, Shard, SlateLayout}
use codon.SlateLayout.Occupancy.{Occupied}
use codon.SlateLayout.Access.{
  initial_layout, max_access, get_element_id, build_element_id, id_by_access,
}
use codon.SlateLayout.Layout.{
  allocate_element, get_element, create_view_element, register_element, add_element_and_build_id,
  register_validator, allocate_path, view_access,
}
use codon.SlateLayout.Space.{carve_free, fill_grown, grow, find_space}
use codon.SlateLayout.Carving.{Divides, Carves, carve_lem, pow2}
use codon.SlateLayout.Finding.{Sound, Found, find_space_lem}
use codon.SlateLayout.Elements.{allocate_element-Occupied, allocate_element-get_element}
use codon.SlateLayout.Beginning.{all_empty, initial_layout-Occupied}
use codon.SlateLayout.Views.{create_view_element_lem, IsView}
use codon.SlateLayout.Queries.{get_element_id_lem, Allowed}
use codon.SlateLayout.Buffer.{ensure, is_power_of_two}
use codon.SlateLayout.Samples.{
  Entries, find, index_of, number_paths, number_laws, bit_host, bit_laws,
}

abbrev two_shards : SlateLayout Entries Bool
two_shards = initial_layout number_paths bit_host 2

start_room : (n : ℕ) (s : Shard) → get_elem? two_shards.shards n ≡ some s → s.size ≡ 0
unfolding initial_layout
start_room n s e = sym (ap (λ s. s.size) (all_empty 2 n s e))

-- An element of 6 bytes in the first shard.
abbrev one_element : SlateLayout Entries Bool
one_element =
    (allocate_element number_paths bit_host two_shards 7 5 6 2 0 slate_read_only false 1).0

allocate_element-Occupied_example : Occupied number_paths one_element.elements one_element.shards
allocate_element-Occupied_example =
    allocate_element-Occupied number_paths bit_host number_laws two_shards 7 5 6 2 0 slate_read_only
      false 1 (initial_layout-Occupied number_paths bit_host number_laws 2)
      (λ s e. omega (arith, start_room 0 s e))

one_element_run :
    allocate_element number_paths bit_host two_shards 7 5 6 2 0 slate_read_only false 1
    ≡ (one_element, some (3, 0))
unfolding allocate_element register_element add_element_and_build_id register_validator
    allocate_path initial_layout find_space grow fill_grown ensure carve_free is_power_of_two
one_element_run = refl

allocate_element-get_element_example :
    (get_element number_paths bit_host one_element 3 5
      ≡ some (
        7,
        record {
          type_id = 5;
          shard = 0;
          value_offset = 0;
          value_size = 6;
          access_policy = slate_read_only;
          subsystem_id = 1;
          is_view_element = false;
        },
      ))
    × Divides 2 0
    × ((3 % 2 == 1) ≡ not (0 == 1))
allocate_element-get_element_example =
    allocate_element-get_element number_paths bit_host number_laws bit_laws two_shards one_element 7
      5 6 2 0 slate_read_only false 1 3 0
      (initial_layout-Occupied number_paths bit_host number_laws 2)
      (λ s e. omega (arith, start_room 0 s e)) (λ e. ground arith) one_element_run

-- A view of the last two bytes of it.
abbrev one_view : SlateLayout Entries Bool
one_view = (create_view_element number_paths bit_host one_element 3 5 4 8 2 2 2 1).0

one_view_run :
    create_view_element number_paths bit_host one_element 3 5 4 8 2 2 2 1 ≡ (one_view, some 5)
unfolding create_view_element get_element view_access allocate_element register_element
    add_element_and_build_id register_validator allocate_path initial_layout find_space grow
    fill_grown ensure carve_free is_power_of_two
one_view_run = refl

element_metadata : Metadata
element_metadata = record {
  type_id = 5;
  shard = 0;
  value_offset = 0;
  value_size = 6;
  access_policy = slate_read_only;
  subsystem_id = 1;
  is_view_element = false;
}

create_view_element_lem_example :
    IsView number_paths bit_host one_element 3 5 4 8 2 2 2 1 one_view 5 element_metadata
unfolding element_metadata
create_view_element_lem_example =
    create_view_element_lem number_paths bit_host one_element 3 5 4 8 2 2 2 1 number_laws bit_laws
      one_view 5 7 element_metadata allocate_element-get_element_example.0 (omega arith)
      (λ e. ground arith) one_view_run

one_id_run : get_element_id number_paths bit_host one_element 7 5 slate_private ≡ some 2
unfolding get_element_id build_element_id id_by_access allocate_element register_element
    add_element_and_build_id register_validator allocate_path initial_layout find_space grow
    fill_grown ensure carve_free is_power_of_two
one_id_run = refl

one_element_there : find one_element.elements 7 ≡ some element_metadata
unfolding element_metadata allocate_element register_element add_element_and_build_id
    register_validator allocate_path initial_layout find_space grow fill_grown ensure carve_free
    is_power_of_two
one_element_there = refl

get_element_id_lem_example :
    (element_metadata.type_id ≡ 5)
    × Allowed number_paths bit_host bit_laws
        (max_access element_metadata.access_policy slate_private)
        (index_of one_element.elements 7)
        2
get_element_id_lem_example =
    get_element_id_lem number_paths bit_host bit_laws one_element 7 element_metadata 5 slate_private
      2 one_element_there one_id_run

-- A shard with 5 bytes.
abbrev five_bytes : Shard
five_bytes = record {
  size = 5;
  free_list = [];
  initial_values = record {
    allocated = true;
    length = 5;
    total = 5;
    bytes = 1 ∷ 2 ∷ 3 ∷ 4 ∷ 5 ∷ [];
  };
}

five_bytes-Sound : Sound five_bytes
five_bytes-Sound = record {
  chunks = tt;
  zeroed = record {
    capacity = omega arith;
    block = refl;
    none_yet = (λ e. absurd (cc));
    tail = (λ i le lt. absurd (omega arith));
  };
  backed = omega arith;
}

find_space_lem_example :
    (s' : Shard) × (value_offset : ℕ) × (find_space 65535 five_bytes 8 8 ≡ (s', some value_offset))
    × Found five_bytes s' value_offset 8 8
unfolding is_power_of_two
find_space_lem_example =
    find_space_lem 65535 five_bytes 8 8 refl (omega arith) (omega arith) (omega arith) (omega arith)
      five_bytes-Sound

carve_lem_example : Carves 6 (pow2 0) 35 29 []
carve_lem_example =
    carve_lem 6 5 0 35 29 [] (omega arith)
      (omega arith, omega arith, omega arith, (35, refl), (2, refl)) tt
