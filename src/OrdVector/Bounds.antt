-- ===== src/OrdVector/Bounds.antt =====
-- include/mata/utils/ord-vector.hh: positions that `lower_bound` returns, and the inserting
-- function with a hint.
use mata.Common.{ℕ, ◌≤◌, ◌<◌, ◌≡◌, refl, false, List, [], ◌∷◌, ◌++◌, none, some, arith, back?}
use mata.OrdVector.{
  Ranked, rank, IsSorted, member, lookup, insert, insert_hint, lower_bound, points_to,
}

module _ {ℓ} {A : Type ℓ} ⦃r : Ranked A⦄ where
  head-le-back :
      (x last : A) (xs : List A)
      → IsSorted (x ∷ xs)
      → back? (x ∷ xs) ≡ some last
      → rank x ≤ rank last
  head-le-back x last [] s e = ground arith
  head-le-back x last (y ∷ ys) s e = ground (arith, head-le-back y last ys)

  -- With the largest element below `k`, the key `k` is not there and new elements go to the end.
  pub past_back :
      (k : ℕ) (xs : List A) (last : A)
      → IsSorted xs
      → back? xs ≡ some last
      → rank last < k
      → (member k xs ≡ false) × (lookup k xs ≡ none)
  past_back k [] last s e h = cc
  past_back k (x ∷ []) last s e h = ground arith
  past_back k (x ∷ y ∷ ys) last s e h =
      ground (arith, past_back k (y ∷ ys) last, head-le-back x last (y ∷ ys))

  pub insert_past_back :
      (x : A) (xs : List A) (last : A)
      → IsSorted xs
      → back? xs ≡ some last
      → rank last < rank x
      → (insert x xs).vec ≡ xs ++ x ∷ []
  unfolding insert
  insert_past_back x [] last s e h = cc
  insert_past_back x (y ∷ []) last s e h = ground arith
  insert_past_back x (y ∷ z ∷ zs) last s e h = ground (arith, insert_past_back x (z ∷ zs) last)

  -- At the position that `lower_bound` returns, where the key is not there, the hint is good.
  pub insert_hint-lower_bound :
      (x : A) (xs : List A)
      → IsSorted xs
      → points_to xs (lower_bound (rank x) xs) (rank x) ≡ false
      → (insert_hint xs (lower_bound (rank x) xs) x).0 ≡ (insert x xs).vec
  unfolding insert_hint insert
  insert_hint-lower_bound x [] s e = refl
  insert_hint-lower_bound x (y ∷ []) s e = ground arith
  insert_hint-lower_bound x (y ∷ z ∷ zs) s e = ground (arith, insert_hint-lower_bound x (z ∷ zs))
