-- ===== src/OrdVector.antt =====
-- include/mata/utils/ord-vector.hh and the vector helpers of include/mata/utils/utils.hh.
-- An `OrdVector<Key>` is the list of its `vec_`. The keys of the program (states, symbols, symbol
-- posts) compare by one number, so that the order of a key type is a `Ranked` instance. Iterators
-- are positions. Capacity (`reserve`) has no effect on contents and is left out.
-- `std::lower_bound` returns the first position whose element is not less, which is what it
-- promises on the sorted vectors that the assertions demand.
use mata.Common.{
  ℕ, zero, suc, ◌<◌, ◌≡◌, Bool, true, false, ◌||◌, List, [], ◌∷◌, Option, none, some, ltb, leb,
  ◌==◌, if◌then◌else◌, length, get_elem?, insert_at, erase_at,
}
pub mod Merge
pub mod Sort
pub mod Rename
pub mod Bounds
pub mod Order
pub mod Lookup

-- The order of a key type: `a < b` is `rank a < rank b`, `a == b` is `rank a == rank b`.
pub record Ranked {ℓ} (A : Type ℓ) : Type ℓ where
  pub rank : A → ℕ

instance abbrev pub ℕ_ranked : Ranked ℕ
ℕ_ranked = record { rank = λ n. n }

-- What `insert(const Key&)` leaves and returns.
pub record Inserted {ℓ} (A : Type ℓ) : Type ℓ where
  pub vec : List A
  pub pos : ℕ
  pub inserted : Bool

abbrev pub rank {ℓ} : {A : Type ℓ} ⦃r : Ranked A⦄ → A → ℕ
rank ⦃r⦄ = r.rank

module _ {ℓ} {A : Type ℓ} ⦃r : Ranked A⦄ where
  -- All keys of the vector lie above `k`.
  abbrev pub Above : ℕ → List A → Type 0
  Above k [] = Unit
  Above k (x ∷ xs) = (k < rank x) × Above k xs

  -- Strictly increasing, as a specification of the assertions.
  abbrev pub IsSorted : List A → Type 0
  IsSorted [] = Unit
  IsSorted (x ∷ xs) = Above (rank x) xs × IsSorted xs

  -- The abstract view: is `k` the key of an element?
  abbrev pub member : ℕ → List A → Bool
  member k [] = false
  member k (x ∷ xs) = rank x == k || member k xs

  -- The element under the key `k`, where the vector serves as a map.
  abbrev pub lookup : ℕ → List A → Option A
  lookup k [] = none
  lookup k (x ∷ xs) = if rank x == k then some x else lookup k xs

  is_sorted_from : A → List A → Bool
  is_sorted_from x [] = true
  is_sorted_from x (y ∷ ys) = if ltb (rank x) (rank y) then is_sorted_from y ys else false

  -- `is_sorted(vec)`
  unfoldable pub is_sorted : List A → Bool
  unfolding is_sorted_from
  is_sorted [] = true
  is_sorted (x ∷ xs) = is_sorted_from x xs

  -- `std::lower_bound(vec.begin(), vec.end(), x)` for an `x` of key `k`
  unfoldable pub lower_bound : ℕ → List A → ℕ
  lower_bound k [] = 0
  lower_bound k (x ∷ xs) = if ltb (rank x) k then suc (lower_bound k xs) else 0

  -- `pos != vec_.end() && *pos == x`
  unfoldable pub points_to : List A → ℕ → ℕ → Bool
  points_to xs pos k = elim (get_elem? xs pos) [ none ↦ false | some y ↦ rank y == k ]

  -- `itr != begin() && x <= *(itr - 1)`
  before : List A → ℕ → A → Bool
  before xs zero x = false
  before xs (suc i) x = elim (get_elem? xs i) [ none ↦ false | some y ↦ leb (rank x) (rank y) ]

  -- `insert(const Key& x)`
  unfoldable pub insert : A → List A → Inserted A
  unfolding lower_bound points_to
  insert x xs =
      let pos = lower_bound (rank x) xs in
      if points_to xs pos (rank x)
      then record { vec = xs; pos = pos; inserted = false }
      else record { vec = insert_at xs pos x; pos = pos; inserted = true }

  -- `insert(iterator itr, const Key& x)`: the vector, and whether `x` went in
  unfoldable pub insert_hint : List A → ℕ → A → List A × Bool
  unfolding before
  insert_hint xs itr x = elim (get_elem? xs itr) [
    | none ↦ (insert_at xs itr x, true)
    | some y ↦
        if leb (rank y) (rank x) || before xs itr x then (xs, false) else (insert_at xs itr x, true)
  ]

  -- `count(const Key&)`
  unfoldable pub count : ℕ → List A → ℕ
  count k [] = 0
  count k (v ∷ vs) = if rank v == k then 1 else if ltb k (rank v) then 0 else count k vs

  -- `find(const Key&)`: the position, `none` for `end()`
  unfoldable pub find : ℕ → List A → Option ℕ
  unfolding lower_bound points_to
  find k xs = let it = lower_bound k xs in if points_to xs it k then some it else none

  -- `contains(const Key&)`
  unfoldable pub contains : ℕ → List A → Bool
  unfolding find
  contains k xs = elim (find k xs) [ none ↦ false | some _ ↦ true ]

  -- `*find(key)`, `none` for `end()`
  unfoldable pub find_elem : ℕ → List A → Option A
  unfolding find
  find_elem k xs = elim (find k xs) [ none ↦ none | some it ↦ get_elem? xs it ]

  -- `erase(const Key&)`: the vector and the number of erased elements
  unfoldable pub erase : ℕ → List A → List A × ℕ
  unfolding lower_bound points_to
  erase k xs =
      let it = lower_bound k xs in if points_to xs it k then (erase_at xs it, 1) else (xs, 0)
