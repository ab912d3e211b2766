-- ===== src/OrdVector/Order.antt =====
-- include/mata/utils/ord-vector.hh: `is_sorted`, and operations that keep a vector sorted.
use mata.Common.{ℕ, suc, ◌<◌, ◌≡◌, refl, ◌↔◌, true, false, List, [], ◌∷◌, arith}
use mata.OrdVector.{Ranked, rank, Above, IsSorted, member, is_sorted, is_sorted_from, insert, erase}

module _ {ℓ} {A : Type ℓ} ⦃r : Ranked A⦄ where
  pub Above-le : (k l : ℕ) (xs : List A) → k < l → Above l xs → Above k xs
  Above-le k l [] h a = tt
  Above-le k l (x ∷ xs) h a = ground (arith, Above-le k l xs)

  -- Below a lower bound nothing is found.
  pub member-Above : (j k : ℕ) (xs : List A) → Above k xs → j < suc k → member j xs ≡ false
  member-Above j k [] a h = refl
  member-Above j k (x ∷ xs) a h = ground (arith, member-Above j k xs)

  is_sorted_from_iff : (x : A) (xs : List A) → (is_sorted_from x xs ≡ true) ↔ IsSorted (x ∷ xs)
  unfolding is_sorted_from
  is_sorted_from_iff x [] = ground arith
  is_sorted_from_iff x (y ∷ ys) =
      ground (arith, is_sorted_from_iff y ys, Above-le (rank x) (rank y) ys)

  -- The test accepts exactly the strictly increasing vectors.
  pub is_sorted-IsSorted : (xs : List A) → (is_sorted xs ≡ true) ↔ IsSorted xs
  unfolding is_sorted
  is_sorted-IsSorted [] = ground arith
  is_sorted-IsSorted (x ∷ xs) = is_sorted_from_iff x xs

  Above-insert : (k : ℕ) (x : A) (xs : List A) → k < rank x → Above k xs → Above k (insert x xs).vec
  unfolding insert
  Above-insert k x [] h a = ground arith
  Above-insert k x (y ∷ ys) h a = ground (arith, Above-insert k x ys)

  -- An insertion keeps the vector sorted.
  pub insert-IsSorted : (x : A) (xs : List A) → IsSorted xs → IsSorted (insert x xs).vec
  unfolding insert
  insert-IsSorted x [] s = ground arith
  insert-IsSorted x (y ∷ ys) s =
      ground
        (arith, insert-IsSorted x ys, Above-insert (rank y) x ys, Above-le (rank x) (rank y) ys)

  Above-erase : (j k : ℕ) (xs : List A) → Above j xs → Above j (erase k xs).0
  unfolding erase
  Above-erase j k [] a = ground arith
  Above-erase j k (x ∷ xs) a = ground (arith, Above-erase j k xs)

  -- An erasure keeps the vector sorted.
  pub erase-IsSorted : (k : ℕ) (xs : List A) → IsSorted xs → IsSorted (erase k xs).0
  unfolding erase
  erase-IsSorted k [] s = ground arith
  erase-IsSorted k (x ∷ xs) s = ground (arith, erase-IsSorted k xs, Above-erase (rank x) k xs)
