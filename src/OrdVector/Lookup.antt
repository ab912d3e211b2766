-- ===== src/OrdVector/Lookup.antt =====
-- include/mata/utils/ord-vector.hh: what `insert`, `erase`, `find`, `count` and `contains` mean for
-- the set of keys, and for the map from keys to elements.
use mata.Common.{
  ℕ, suc, ◌<◌, ◌≡◌, refl, not, ◌||◌, ◌&&◌, List, [], ◌∷◌, none, some, arith, ◌==◌, if◌then◌else◌,
}
use mata.OrdVector.{
  Ranked, rank, Above, IsSorted, member, lookup, insert, contains, find_elem, erase, count,
}
use mata.OrdVector.Order.{member-Above}

module _ {ℓ} {A : Type ℓ} ⦃r : Ranked A⦄ where
  -- The keys after an insertion: those before and the new one.
  pub member-insert :
      (k : ℕ) (x : A) (xs : List A) → member k (insert x xs).vec ≡ (rank x == k || member k xs)
  unfolding insert
  member-insert k x [] = ground arith
  member-insert k x (y ∷ ys) = ground (arith, member-insert k x ys)

  -- `inserted` says whether the key was new.
  pub inserted-insert :
      (x : A) (xs : List A) → IsSorted xs → (insert x xs).inserted ≡ not (member (rank x) xs)
  unfolding insert
  inserted-insert x [] s = ground arith
  inserted-insert x (y ∷ ys) s =
      ground (arith, inserted-insert x ys, member-Above (rank x) (rank y) ys)

  pub lookup-Above : (j k : ℕ) (xs : List A) → Above k xs → j < suc k → lookup j xs ≡ none
  lookup-Above j k [] a h = refl
  lookup-Above j k (x ∷ xs) a h = ground (arith, lookup-Above j k xs)

  -- On a sorted vector, an insertion adds its element under its key where the key is new and
  -- changes nothing where it is there; other keys keep their elements.
  pub lookup-insert :
      (k : ℕ) (x : A) (xs : List A)
      → IsSorted xs
      → lookup k (insert x xs).vec
        ≡ (if rank x == k then (if member k xs then lookup k xs else some x) else lookup k xs)
  unfolding insert
  lookup-insert k x [] s = ground arith
  lookup-insert k x (y ∷ ys) s =
      ground (arith, lookup-insert k x ys, lookup-Above k (rank y) ys, member-Above k (rank y) ys)

  -- On a sorted vector, the search by `lower_bound` finds what a walk through all elements finds.
  pub find_elem-eq-lookup : (k : ℕ) (xs : List A) → IsSorted xs → find_elem k xs ≡ lookup k xs
  unfolding find_elem
  find_elem-eq-lookup k [] s = refl
  find_elem-eq-lookup k (x ∷ xs) s =
      ground (arith, find_elem-eq-lookup k xs, lookup-Above k (rank x) xs)

  pub contains-eq-member : (k : ℕ) (xs : List A) → IsSorted xs → contains k xs ≡ member k xs
  unfolding contains
  contains-eq-member k [] s = refl
  contains-eq-member k (x ∷ xs) s =
      ground (arith, contains-eq-member k xs, member-Above k (rank x) xs)

  pub count-eq-member :
      (k : ℕ) (xs : List A) → IsSorted xs → count k xs ≡ (if member k xs then 1 else 0)
  unfolding count
  count-eq-member k [] s = refl
  count-eq-member k (x ∷ xs) s = ground (arith, count-eq-member k xs, member-Above k (rank x) xs)

  -- The keys after an erasure, and what it returns.
  pub member-erase :
      (j k : ℕ) (xs : List A)
      → IsSorted xs
      → member j (erase k xs).0 ≡ (member j xs && not (j == k))
  unfolding erase
  member-erase j k [] s = refl
  member-erase j k (x ∷ xs) s = ground (arith, member-erase j k xs, member-Above j (rank x) xs)

  pub lookup-erase :
      (j k : ℕ) (xs : List A)
      → IsSorted xs
      → lookup j (erase k xs).0 ≡ (if j == k then none else lookup j xs)
  unfolding erase
  lookup-erase j k [] s = ground arith
  lookup-erase j k (x ∷ xs) s = ground (arith, lookup-erase j k xs, lookup-Above j (rank x) xs)

  pub count-erase :
      (k : ℕ) (xs : List A) → IsSorted xs → (erase k xs).1 ≡ (if member k xs then 1 else 0)
  unfolding erase
  count-erase k [] s = refl
  count-erase k (x ∷ xs) s = ground (arith, count-erase k xs, member-Above k (rank x) xs)
