-- ===== src/OrdVector/Merge.antt =====
-- include/mata/utils/ord-vector.hh: the loops that walk two sorted vectors at once. The two
-- iterators are the two rests that they still have to visit. What a `let` binds waits, so each
-- round makes one recursive call.
pub mod Laws
use mata.Common.{Bool, true, false, List, [], ◌∷◌, ltb, ◌==◌, if◌then◌else◌, length}
use mata.OrdVector.{Ranked, rank}

module _ {ℓ} {A : Type ℓ} ⦃r : Ranked A⦄ where
  -- `are_disjoint(lhs, rhs)`, which is also the loop of `is_intersection_empty_with`
  unfoldable pub are_disjoint : List A → List A → Bool
  are_disjoint [] ys = true
  are_disjoint (x ∷ xs) [] = true
  are_disjoint (x ∷ xs) (y ∷ ys) =
      let next_lhs = are_disjoint xs (y ∷ ys) in
      let next_rhs = are_disjoint (x ∷ xs) ys in
      if rank x == rank y then false else if ltb (rank x) (rank y) then next_lhs else next_rhs

  -- `difference(lhs, rhs)`
  unfoldable pub difference : List A → List A → List A
  difference [] ys = []
  difference (x ∷ xs) [] = x ∷ difference xs []
  difference (x ∷ xs) (y ∷ ys) =
      let next_both = difference xs ys in
      let keep = x ∷ difference xs (y ∷ ys) in
      let next_rhs = difference (x ∷ xs) ys in
      if rank x == rank y then next_both else if ltb (rank x) (rank y) then keep else next_rhs

  -- `intersection(lhs, rhs)`
  unfoldable pub intersection : List A → List A → List A
  intersection [] ys = []
  intersection (x ∷ xs) [] = []
  intersection (x ∷ xs) (y ∷ ys) =
      let keep = x ∷ intersection xs ys in
      let next_lhs = intersection xs (y ∷ ys) in
      let next_rhs = intersection (x ∷ xs) ys in
      if rank x == rank y then keep else if ltb (rank x) (rank y) then next_lhs else next_rhs

  -- `std::ranges::set_union`, which takes the first of two equal elements
  unfoldable pub merge : List A → List A → List A
  merge [] ys = ys
  merge (x ∷ xs) [] = x ∷ xs
  merge (x ∷ xs) (y ∷ ys) =
      let left = x ∷ merge xs (y ∷ ys) in
      let right = y ∷ merge (x ∷ xs) ys in
      let both = x ∷ merge xs ys in
      if ltb (rank x) (rank y) then left else if ltb (rank y) (rank x) then right else both

  -- `set_union(lhs, rhs, result)` on an empty result: the result, and whether `lhs` grew
  unfoldable pub set_union : List A → List A → List A × Bool
  set_union [] [] = ([], false)
  set_union [] (y ∷ ys) = (y ∷ ys, true)
  set_union (x ∷ xs) [] = (x ∷ xs, false)
  set_union (x ∷ xs) (y ∷ ys) =
      let result = merge (x ∷ xs) (y ∷ ys) in (result, ltb (length (x ∷ xs)) (length result))

  -- `insert(const OrdVector& vec)`
  unfoldable pub insert_all : List A → List A → List A × Bool
  unfolding set_union
  insert_all xs vec = set_union xs vec

  -- `std::includes(bigger, smaller)`, the body of `smaller.is_subset_of(bigger)`
  unfoldable pub is_subset_of : List A → List A → Bool
  is_subset_of [] ys = true
  is_subset_of (x ∷ xs) [] = false
  is_subset_of (x ∷ xs) (y ∷ ys) =
      let next_both = is_subset_of xs ys in
      let next_bigger = is_subset_of (x ∷ xs) ys in
      if ltb (rank x) (rank y)
      then false
      else if ltb (rank y) (rank x)
      then next_bigger
      else next_both
