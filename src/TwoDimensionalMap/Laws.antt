-- ===== src/TwoDimensionalMap/Laws.antt =====
-- include/mata/utils/two-dimensional-map.hh: both storages behave as one map, and the inverted indices
-- lead back.
use mata.Common.{
  ◌%◌, ◌^◌, ℕ, zero, suc, ◌+◌, ◌*◌, ◌≤◌, ◌<◌, ◌≡◌, refl, ap, ◌∙◌, inl, inr, true, false, ◌&&◌, List,
  [], ◌∷◌, some, arith, ltb, ◌==◌, if◌then◌else◌, Bool-cases, length, get_or, set, replicate,
  resize, get_or-set, length-set, get_or-resize, length-resize,
}
use mata.TwoDimensionalMap.{
  no_value, max_matrix_size, find_key, assign_key, TwoDimensionalMap, new, get, insert,
  get_first_inverted, get_second_inverted,
}

-- Every row has its place.
pub record IsSized (m : TwoDimensionalMap) : Type 0 where
  pub rows : m.is_large ≡ false → length m.matrix_storage ≡ m.first_dim_size
  pub columns :
      m.is_large ≡ false
      → (i : ℕ) → i < m.first_dim_size
      → length (get_or m.matrix_storage i []) ≡ m.second_dim_size
  pub maps : m.is_large ≡ true → length m.vec_map_storage ≡ m.first_dim_size

find-assign :
    (k j v : ℕ) (m : List (ℕ × ℕ))
    → find_key j (assign_key k v m) ≡ (if k == j then some v else find_key j m)
find-assign k j v [] = refl
find-assign k j v ((i, w) ∷ m) = ground (arith, find-assign k j v m)

length-replicate {ℓ} : {A : Type ℓ} (n : ℕ) (a : A) → length (replicate n a) ≡ n
length-replicate zero a = refl
length-replicate (suc n) a = ap suc (length-replicate n a)

get_or-replicate {ℓ} :
    {A : Type ℓ} (n : ℕ) (a d : A) (i : ℕ) → i < n → get_or (replicate n a) i d ≡ a
get_or-replicate zero a d i h = elim h [ ]
get_or-replicate (suc n) a d zero h = refl
get_or-replicate (suc n) a d (suc i) h = get_or-replicate n a d i (omega arith)

pub new-IsSized : (a b : ℕ) → IsSized (new a b)
unfolding new
new-IsSized a b = record {
  rows = λ e. rw e (length-replicate a (replicate b no_value));
  columns = λ e i h. rw e (row i h);
  maps = λ e. rw e (length-replicate a []);
}
  where
    row : (i : ℕ) → i < a → length (get_or (replicate a (replicate b no_value)) i []) ≡ b
    row i h =
        ap (λ (l : List ℕ). length l) (get_or-replicate a (replicate b no_value) [] i h)
        ∙ length-replicate b no_value

pub get-new : (a b i j : ℕ) → i < a → j < b → get (new a b) i j ≡ no_value
unfolding get new
get-new a b i j h k = elim (Bool-cases (ltb max_matrix_size ((a * b) % 2 ^ 64))) [
  | inl large ↦ rw large (rw (find_key, get_or-replicate {A = List (ℕ × ℕ)} a [] [] i h) refl)
  | inr small ↦ rw small (
      ap (λ (l : List ℕ). get_or l j no_value) (get_or-replicate a (replicate b no_value) [] i h)
      ∙ get_or-replicate b no_value no_value j k)
]

module _ (m : TwoDimensionalMap) (s : IsSized m) (first second value : ℕ)
    (in_rows : first < m.first_dim_size) (in_columns : second < m.second_dim_size) where
  -- For a map whose storage has its sizes and a pair within the dimensions, after `insert` the map
  -- holds the value at the pair and what it held at all other pairs, in the matrix storage and in
  -- the vector of maps.
  pub get-insert :
      (i j : ℕ)
      → get (insert first second value m) i j
        ≡ (if first == i && second == j then value else get m i j)
  unfolding get insert
  get-insert i j = elim (Bool-cases m.is_large) [
    | inl large ↦ ground (
      arith,
      s.maps large,
      get_or-set m.vec_map_storage first i
          (assign_key second value (get_or m.vec_map_storage first [])) [],
      find-assign second j value (get_or m.vec_map_storage first []),
      same_map,
    )
    | inr small ↦ ground (
      arith,
      s.rows small,
      s.columns small first in_rows,
      get_or-set m.matrix_storage first i (set (get_or m.matrix_storage first []) second value) [],
      get_or-set (get_or m.matrix_storage first []) second j value no_value,
      same_row,
    )
  ]
    where
      same_map : first ≡ i → get_or m.vec_map_storage first [] ≡ get_or m.vec_map_storage i []
      same_map e = ap (λ (k : ℕ). get_or m.vec_map_storage k []) e

      same_row : first ≡ i → get_or m.matrix_storage first [] ≡ get_or m.matrix_storage i []
      same_row e = ap (λ (k : ℕ). get_or m.matrix_storage k []) e

  pub insert-IsSized : IsSized (insert first second value m)
  unfolding insert
  insert-IsSized = record {
    rows = λ e. rw e (length-set m.matrix_storage first _ ∙ s.rows e);
    columns = λ e i h. rw e (
        ground (
          arith,
          s.rows e,
          s.columns e i h,
          s.columns e first in_rows,
          get_or-set m.matrix_storage first i (set (get_or m.matrix_storage first []) second value)
              [],
          length-set (get_or m.matrix_storage first []) second value,
        ));
    maps = λ e. rw e (length-set m.vec_map_storage first _ ∙ s.maps e);
  }

-- The inverted indices of the new value, and of the smaller ones.
module _ (m : TwoDimensionalMap) (first second value : ℕ) where
  -- After `insert` the two inverted indices of the value are the pair that was inserted, and those
  -- of smaller values are kept.
  pub inverted-insert :
      (v : ℕ)
      → v ≤ value
      → (get_first_inverted (insert first second value m) v
          ≡ (if value == v then first else get_first_inverted m v))
        × (get_second_inverted (insert first second value m) v
            ≡ (if value == v then second else get_second_inverted m v))
  unfolding get_first_inverted get_second_inverted insert
  inverted-insert v h = (
    get_or-set (resize (value + 1) 0 m.first_dim_inverted) value v first 0
          (omega (arith, length-resize {A = ℕ} (value + 1) 0 m.first_dim_inverted))
        ∙ ap (λ (x : ℕ). if value == v then first else x)
            (get_or-resize (value + 1) 0 m.first_dim_inverted v (omega arith)),
    get_or-set (resize (value + 1) 0 m.second_dim_inverted) value v second 0
          (omega (arith, length-resize {A = ℕ} (value + 1) 0 m.second_dim_inverted))
        ∙ ap (λ (x : ℕ). if value == v then second else x)
            (get_or-resize (value + 1) 0 m.second_dim_inverted v (omega arith)),
  )
