-- ===== src/OrdVector/Sort.antt =====
-- include/mata/utils/utils.hh: `sort_and_rmdupl`, by which the constructors of `OrdVector` build a
-- set of numbers from an arbitrary sequence.
use mata.Common.{ℕ, suc, ◌<◌, ◌≡◌, refl, ◌∙◌, ◌||◌, List, [], ◌∷◌, arith, leb, ◌==◌, if◌then◌else◌}
use mata.OrdVector.{Above, IsSorted, member, ℕ_ranked}

insert_sorted : ℕ → List ℕ → List ℕ
insert_sorted x [] = x ∷ []
insert_sorted x (y ∷ ys) = if leb x y then x ∷ y ∷ ys else y ∷ insert_sorted x ys

-- `std::sort`, whose result on numbers does not depend on how it sorts
sort : List ℕ → List ℕ
unfolding insert_sorted
sort [] = []
sort (x ∷ xs) = insert_sorted x (sort xs)

unique_from : ℕ → List ℕ → List ℕ
unique_from x [] = x ∷ []
unique_from x (y ∷ ys) =
    let skip = unique_from x ys in let keep = x ∷ unique_from y ys in if x == y then skip else keep

-- `std::unique` and the `resize` to what it keeps
unique : List ℕ → List ℕ
unfolding unique_from
unique [] = []
unique (x ∷ xs) = unique_from x xs

-- `sort_and_rmdupl(vec)`
unfoldable pub sort_and_rmdupl : List ℕ → List ℕ
unfolding sort unique
sort_and_rmdupl xs = unique (sort xs)

-- Weakly increasing, from a bound on.
abbrev Rising : ℕ → List ℕ → Type 0
Rising k [] = Unit
Rising k (x ∷ xs) = (k < suc x) × Rising x xs

insert_sorted-Rising :
    (k x : ℕ) (xs : List ℕ) → k < suc x → Rising k xs → Rising k (insert_sorted x xs)
unfolding insert_sorted
insert_sorted-Rising k x [] h s = ground arith
insert_sorted-Rising k x (y ∷ ys) h s = ground (arith, insert_sorted-Rising y x ys)

sort-Rising : (xs : List ℕ) → Rising 0 (sort xs)
unfolding sort
sort-Rising [] = tt
sort-Rising (x ∷ xs) = insert_sorted-Rising 0 x (sort xs) (omega arith) (sort-Rising xs)

member-insert_sorted :
    (k x : ℕ) (xs : List ℕ) → member k (insert_sorted x xs) ≡ (x == k || member k xs)
unfolding insert_sorted
member-insert_sorted k x [] = refl
member-insert_sorted k x (y ∷ ys) = ground (arith, member-insert_sorted k x ys)

member-sort : (k : ℕ) (xs : List ℕ) → member k (sort xs) ≡ member k xs
unfolding sort
member-sort k [] = refl
member-sort k (x ∷ xs) = ground (arith, member-insert_sorted k x (sort xs), member-sort k xs)

member-unique_from : (k x : ℕ) (xs : List ℕ) → member k (unique_from x xs) ≡ (x == k || member k xs)
unfolding unique_from
member-unique_from k x [] = refl
member-unique_from k x (y ∷ ys) =
    ground (arith, member-unique_from k x ys, member-unique_from k y ys)

Above-unique_from : (k x : ℕ) (xs : List ℕ) → k < x → Rising x xs → Above k (unique_from x xs)
unfolding unique_from
Above-unique_from k x [] h s = ground arith
Above-unique_from k x (y ∷ ys) h s =
    ground (arith, Above-unique_from k x ys, Above-unique_from k y ys)

unique_from-IsSorted : (x : ℕ) (xs : List ℕ) → Rising x xs → IsSorted (unique_from x xs)
unfolding unique_from
unique_from-IsSorted x [] s = ground arith
unique_from-IsSorted x (y ∷ ys) s =
    ground (arith, unique_from-IsSorted x ys, unique_from-IsSorted y ys, Above-unique_from x y ys)

unique-IsSorted : (xs : List ℕ) → Rising 0 xs → IsSorted (unique xs)
unfolding unique
unique-IsSorted [] s = tt
unique-IsSorted (x ∷ xs) s = unique_from-IsSorted x xs s.1

member-unique : (k : ℕ) (xs : List ℕ) → member k (unique xs) ≡ member k xs
unfolding unique
member-unique k [] = refl
member-unique k (x ∷ xs) = member-unique_from k x xs

-- From any sequence of numbers `sort_and_rmdupl` makes a strictly increasing vector with exactly
-- the numbers of the sequence.
pub sort_and_rmdupl_correct :
    (xs : List ℕ)
    → IsSorted (sort_and_rmdupl xs) × ((k : ℕ) → member k (sort_and_rmdupl xs) ≡ member k xs)
unfolding sort_and_rmdupl
sort_and_rmdupl_correct xs =
    (unique-IsSorted (sort xs) (sort-Rising xs), λ k. member-unique k (sort xs) ∙ member-sort k xs)
