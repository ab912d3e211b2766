-- ===== src/OrdVector/Merge/Laws.antt =====
-- include/mata/utils/ord-vector.hh: the walks over two sorted vectors compute the set operations,
-- and keep the order.
use mata.Common.{
  ℕ, ◌<◌, ◌≤◌, ◌≡◌, refl, ◌↔◌, inl, inr, true, not, ◌||◌, ◌&&◌, List, [], ◌∷◌, arith, ltb, ◌==◌,
  length, Bool-cases,
}
use mata.OrdVector.{Ranked, rank, Above, IsSorted, member}
use mata.OrdVector.Order.{member-Above, Above-le}
use mata.OrdVector.Merge.{
  are_disjoint, difference, intersection, merge, set_union, insert_all, is_subset_of,
}

module _ {ℓ} {A : Type ℓ} ⦃r : Ranked A⦄ where
  pub member-merge :
      (k : ℕ) (xs ys : List A) → member k (merge xs ys) ≡ (member k xs || member k ys)
  unfolding merge
  member-merge k [] ys = refl
  member-merge k (x ∷ xs) [] = ground arith
  member-merge k (x ∷ xs) (y ∷ ys) =
      ground (arith, member-merge k xs (y ∷ ys), member-merge k (x ∷ xs) ys, member-merge k xs ys)

  Above-merge : (k : ℕ) (xs ys : List A) → Above k xs → Above k ys → Above k (merge xs ys)
  unfolding merge
  Above-merge k [] ys a b = b
  Above-merge k (x ∷ xs) [] a b = a
  Above-merge k (x ∷ xs) (y ∷ ys) a b =
      ground (arith, Above-merge k xs (y ∷ ys), Above-merge k (x ∷ xs) ys, Above-merge k xs ys)

  pub merge-IsSorted : (xs ys : List A) → IsSorted xs → IsSorted ys → IsSorted (merge xs ys)
  unfolding merge
  merge-IsSorted [] ys s t = t
  merge-IsSorted (x ∷ xs) [] s t = s
  merge-IsSorted (x ∷ xs) (y ∷ ys) s t = ground (
    arith,
    merge-IsSorted xs (y ∷ ys),
    merge-IsSorted (x ∷ xs) ys,
    merge-IsSorted xs ys,
    Above-merge (rank x) xs (y ∷ ys),
    Above-merge (rank y) (x ∷ xs) ys,
    Above-merge (rank x) xs ys,
    Above-le (rank x) (rank y) ys,
    Above-le (rank y) (rank x) xs,
  )

  -- The union holds the keys of both, and is sorted.
  pub set_union-eq-merge : (xs ys : List A) → (set_union xs ys).0 ≡ merge xs ys
  unfolding set_union merge
  set_union-eq-merge [] [] = refl
  set_union-eq-merge [] (y ∷ ys) = refl
  set_union-eq-merge (x ∷ xs) [] = refl
  set_union-eq-merge (x ∷ xs) (y ∷ ys) = refl

  length-merge-ge : (xs ys : List A) → length xs ≤ length (merge xs ys)
  unfolding merge
  length-merge-ge [] ys = omega arith
  length-merge-ge (x ∷ xs) [] = omega arith
  length-merge-ge (x ∷ xs) (y ∷ ys) =
      ground
        (arith, length-merge-ge xs (y ∷ ys), length-merge-ge (x ∷ xs) ys, length-merge-ge xs ys)

  -- The union is no longer than the left vector exactly when it adds no key to it.
  pub length-merge-lt :
      (xs ys : List A)
      → IsSorted xs
      → IsSorted ys
      → ltb (length xs) (length (merge xs ys)) ≡ not (is_subset_of ys xs)
  unfolding merge is_subset_of
  length-merge-lt [] [] s t = refl
  length-merge-lt [] (y ∷ ys) s t = ground arith
  length-merge-lt (x ∷ xs) [] s t = ground arith
  length-merge-lt (x ∷ xs) (y ∷ ys) s t =
      ground
        (arith, length-merge-lt xs (y ∷ ys), length-merge-lt xs ys, length-merge-ge (x ∷ xs) ys)

  -- For two sorted vectors, the difference holds exactly the keys of the first that are not keys
  -- of the second.
  pub member-difference :
      (k : ℕ) (xs ys : List A)
      → IsSorted xs
      → IsSorted ys
      → member k (difference xs ys) ≡ (member k xs && not (member k ys))
  unfolding difference
  member-difference k [] ys s t = refl
  member-difference k (x ∷ xs) [] s t = ground (arith, member-difference k xs [])
  member-difference k (x ∷ xs) (y ∷ ys) s t = elim (Bool-cases (rank x == rank y)) [
    | inl same ↦
        ground
          (arith, member-difference k xs ys, member-Above k (rank x) xs, member-Above k (rank y) ys)
    | inr other ↦ elim (Bool-cases (ltb (rank x) (rank y))) [
      | inl less ↦ ground (arith, member-difference k xs (y ∷ ys), member-Above k (rank y) ys)
      | inr greater ↦ ground (arith, member-difference k (x ∷ xs) ys, member-Above k (rank x) xs)
    ]
  ]

  Above-difference : (k : ℕ) (xs ys : List A) → Above k xs → Above k (difference xs ys)
  unfolding difference
  Above-difference k [] ys a = tt
  Above-difference k (x ∷ xs) [] a = ground (arith, Above-difference k xs [])
  Above-difference k (x ∷ xs) (y ∷ ys) a = ground (
    arith,
    Above-difference k xs (y ∷ ys),
    Above-difference k (x ∷ xs) ys,
    Above-difference k xs ys,
  )

  pub difference-IsSorted : (xs ys : List A) → IsSorted xs → IsSorted (difference xs ys)
  unfolding difference
  difference-IsSorted [] ys s = tt
  difference-IsSorted (x ∷ xs) [] s =
      ground (arith, difference-IsSorted xs [], Above-difference (rank x) xs [])
  difference-IsSorted (x ∷ xs) (y ∷ ys) s = ground (
    arith,
    difference-IsSorted xs (y ∷ ys),
    difference-IsSorted (x ∷ xs) ys,
    difference-IsSorted xs ys,
    Above-difference (rank x) xs (y ∷ ys),
  )

  -- For two sorted vectors, the intersection holds exactly the keys of both.
  pub member-intersection :
      (k : ℕ) (xs ys : List A)
      → IsSorted xs
      → IsSorted ys
      → member k (intersection xs ys) ≡ (member k xs && member k ys)
  unfolding intersection
  member-intersection k [] ys s t = refl
  member-intersection k (x ∷ xs) [] s t = ground arith
  member-intersection k (x ∷ xs) (y ∷ ys) s t = ground (
    arith,
    member-intersection k xs (y ∷ ys),
    member-intersection k (x ∷ xs) ys,
    member-intersection k xs ys,
    member-Above k (rank x) xs,
    member-Above k (rank y) ys,
  )

  Above-intersection : (k : ℕ) (xs ys : List A) → Above k xs → Above k (intersection xs ys)
  unfolding intersection
  Above-intersection k [] ys a = tt
  Above-intersection k (x ∷ xs) [] a = tt
  Above-intersection k (x ∷ xs) (y ∷ ys) a = ground (
    arith,
    Above-intersection k xs (y ∷ ys),
    Above-intersection k (x ∷ xs) ys,
    Above-intersection k xs ys,
  )

  pub intersection-IsSorted : (xs ys : List A) → IsSorted xs → IsSorted (intersection xs ys)
  unfolding intersection
  intersection-IsSorted [] ys s = tt
  intersection-IsSorted (x ∷ xs) [] s = tt
  intersection-IsSorted (x ∷ xs) (y ∷ ys) s = ground (
    arith,
    intersection-IsSorted xs (y ∷ ys),
    intersection-IsSorted (x ∷ xs) ys,
    intersection-IsSorted xs ys,
    Above-intersection (rank x) xs ys,
  )

  -- `are_disjoint` is the emptiness of the intersection.
  pub are_disjoint_iff : (xs ys : List A) → (are_disjoint xs ys ≡ true) ↔ (intersection xs ys ≡ [])
  unfolding are_disjoint intersection
  are_disjoint_iff [] ys = ground arith
  are_disjoint_iff (x ∷ xs) [] = ground arith
  are_disjoint_iff (x ∷ xs) (y ∷ ys) =
      ground
        (arith, are_disjoint_iff xs (y ∷ ys), are_disjoint_iff (x ∷ xs) ys, are_disjoint_iff xs ys)

  is_subset_of-member :
      (k : ℕ) (xs ys : List A) → is_subset_of xs ys ≡ true → member k xs ≡ true → member k ys ≡ true
  unfolding is_subset_of
  is_subset_of-member k [] ys h m = cc
  is_subset_of-member k (x ∷ xs) [] h m = cc
  is_subset_of-member k (x ∷ xs) (y ∷ ys) h m =
      ground (arith, is_subset_of-member k xs ys, is_subset_of-member k (x ∷ xs) ys)

  is_subset_of_intro :
      (xs ys : List A)
      → IsSorted xs
      → IsSorted ys
      → ((k : ℕ) → member k xs ≡ true → member k ys ≡ true)
      → is_subset_of xs ys ≡ true
  unfolding is_subset_of
  is_subset_of_intro [] ys s t h = refl
  is_subset_of_intro (x ∷ xs) [] s t h = ground (arith, h (rank x))
  is_subset_of_intro (x ∷ xs) (y ∷ ys) s t h =
      let same = λ (e : rank x ≡ rank y).
        is_subset_of_intro xs ys s.1 t.1 (λ k m. ground (arith, h k, member-Above k (rank x) xs)) in
      let greater = λ (e : rank y < rank x).
        is_subset_of_intro (x ∷ xs) ys s t.1
          (λ k m. ground (arith, h k, member-Above k (rank x) xs)) in
      ground (arith, h (rank x), member-Above (rank x) (rank y) ys, same, greater)

  -- For two sorted vectors, `is_subset_of` is true exactly when every key of the first is a key of
  -- the second.
  pub is_subset_of_iff :
      (xs ys : List A)
      → IsSorted xs
      → IsSorted ys
      → (is_subset_of xs ys ≡ true) ↔ ((k : ℕ) → member k xs ≡ true → member k ys ≡ true)
  is_subset_of_iff xs ys s t = (λ h k. is_subset_of-member k xs ys h, is_subset_of_intro xs ys s t)

  -- For two sorted vectors, inserting the second leaves a sorted vector with the keys of both, and
  -- the returned flag is true exactly when the second is not a subset of the first.
  pub insert_all_correct :
      (xs ys : List A)
      → IsSorted xs
      → IsSorted ys
      → IsSorted (insert_all xs ys).0
        × ((k : ℕ) → member k (insert_all xs ys).0 ≡ (member k xs || member k ys))
        × ((insert_all xs ys).1 ≡ not (is_subset_of ys xs))
  unfolding insert_all
  insert_all_correct xs ys s t = (
    rw (set_union-eq-merge xs ys) (merge-IsSorted xs ys s t),
    λ k. rw (set_union-eq-merge xs ys) (member-merge k xs ys),
    grew xs ys s t,
  )
    where
      grew :
          (xs ys : List A)
          → IsSorted xs
          → IsSorted ys
          → (set_union xs ys).1 ≡ not (is_subset_of ys xs)
      grew [] [] s t = unfold is_subset_of set_union in refl
      grew [] (y ∷ ys) s t = unfold is_subset_of set_union in refl
      grew (x ∷ xs) [] s t = unfold is_subset_of set_union in refl
      grew (x ∷ xs) (y ∷ ys) s t = unfold set_union in length-merge-lt (x ∷ xs) (y ∷ ys) s t
