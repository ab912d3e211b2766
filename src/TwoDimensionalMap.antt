-- ===== src/TwoDimensionalMap.antt =====
-- include/mata/utils/two-dimensional-map.hh: the map from pairs of numbers to numbers, as a matrix or,
-- where that would be large, as a vector of maps. A `std::unordered_map` is an association list
-- without an order that matters. Reads out of the vectors, which the code does not make, read the
-- default. The inverted indices are tracked (`TrackInverted`).
use mata.Common.{
  ◌%◌, ◌^◌, ℕ, zero, suc, ◌+◌, ◌*◌, Bool, List, [], ◌∷◌, Option, none, some, ltb, ◌==◌,
  if◌then◌else◌, get_or, set, replicate, resize,
}
pub mod Laws

-- `std::numeric_limits<T>::max()` of a state, for a pair that is not there
abbrev pub no_value : ℕ
no_value = 18_446_744_073_709_551_615

abbrev pub max_matrix_size : ℕ
max_matrix_size = 50_000_000

-- A row as a `std::unordered_map`: `find`, and the assignment through `operator[]`.
abbrev pub find_key : ℕ → List (ℕ × ℕ) → Option ℕ
find_key k [] = none
find_key k ((j, v) ∷ m) = if j == k then some v else find_key k m

abbrev pub assign_key : ℕ → ℕ → List (ℕ × ℕ) → List (ℕ × ℕ)
assign_key k v [] = (k, v) ∷ []
assign_key k v ((j, w) ∷ m) = if j == k then (j, v) ∷ m else (j, w) ∷ assign_key k v m

pub record TwoDimensionalMap : Type 0 where
  pub is_large : Bool
  pub first_dim_size : ℕ
  pub second_dim_size : ℕ
  pub matrix_storage : List (List ℕ)
  pub vec_map_storage : List (List (ℕ × ℕ))
  pub first_dim_inverted : List ℕ
  pub second_dim_inverted : List ℕ

-- The constructor.
unfoldable pub new : ℕ → ℕ → TwoDimensionalMap
new first_dim_size second_dim_size =
    let is_large = ltb max_matrix_size ((first_dim_size * second_dim_size) % 2 ^ 64) in
    record {
      is_large = is_large;
      first_dim_size = first_dim_size;
      second_dim_size = second_dim_size;
      matrix_storage =
          if is_large then [] else replicate first_dim_size (replicate second_dim_size no_value);
      vec_map_storage = if is_large then replicate first_dim_size [] else [];
      first_dim_inverted = replicate (first_dim_size + second_dim_size) 0;
      second_dim_inverted = replicate (first_dim_size + second_dim_size) 0;
    }

-- `get(first, second)`
unfoldable pub get : TwoDimensionalMap → ℕ → ℕ → ℕ
get m first second =
    if m.is_large
    then elim (find_key second (get_or m.vec_map_storage first [])) [
      | none ↦ no_value
      | some value ↦ value
    ]
    else get_or (get_or m.matrix_storage first []) second no_value

-- `insert(first, second, value)`
unfoldable pub insert : ℕ → ℕ → ℕ → TwoDimensionalMap → TwoDimensionalMap
insert first second value m = record m {
  matrix_storage =
      if m.is_large
      then m.matrix_storage
      else set m.matrix_storage first (set (get_or m.matrix_storage first []) second value);
  vec_map_storage =
      if m.is_large
      then set m.vec_map_storage first (assign_key second value (get_or m.vec_map_storage first []))
      else m.vec_map_storage;
  first_dim_inverted = set (resize (value + 1) 0 m.first_dim_inverted) value first;
  second_dim_inverted = set (resize (value + 1) 0 m.second_dim_inverted) value second;
}

-- `get_first_inverted(value)` and `get_second_inverted(value)`
unfoldable pub get_first_inverted : TwoDimensionalMap → ℕ → ℕ
get_first_inverted m value = get_or m.first_dim_inverted value 0

unfoldable pub get_second_inverted : TwoDimensionalMap → ℕ → ℕ
get_second_inverted m value = get_or m.second_dim_inverted value 0
