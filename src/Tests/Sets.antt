-- ===== src/Tests/Sets.antt =====
-- The theorems on sparse sets and ordered vectors, at concrete inputs.
use mata.Common.{
  ◌++◌, drop, ℕ, suc, ◌<◌, ◌≡◌, refl, ◌↔◌, Bool, true, false, not, ◌&&◌, ◌||◌, ltb, if◌then◌else◌,
  List, [], ◌∷◌, some, length, arith,
}
use mata.OrdVector.{ℕ_ranked, IsSorted, member, lookup, find_elem}
use mata.OrdVector
use mata.OrdVector.Merge
use mata.OrdVector.Lookup
use mata.OrdVector.Merge.Laws
use mata.OrdVector.Rename
use mata.OrdVector.Sort
use mata.SparseSet.{SparseSet, contains, elements}
use mata.SparseSet
use mata.SparseSet.Invariant.{IsConsistent}
use mata.Tests.{three_seven, three_seven-IsConsistent, only, only-IsConsistent}

-- What the operations compute to.
contains_three : (contains three_seven 3 ≡ true) × (contains three_seven 4 ≡ false)
unfolding contains SparseSet.insert SparseSet.grown SparseSet.reserve
contains_three = (refl, refl)

missing_five : contains three_seven 5 ≡ false
unfolding contains SparseSet.insert SparseSet.grown SparseSet.reserve
missing_five = refl

contains-insert_example :
    contains (SparseSet.insert 5 three_seven) 7 ≡ (false || contains three_seven 7)
contains-insert_example = SparseSet.Insert.contains-insert three_seven-IsConsistent 5 7

insert-eq-insert_checked_example :
    SparseSet.insert_checked 5 three_seven ≡ some (SparseSet.insert 5 three_seven)
insert-eq-insert_checked_example =
    SparseSet.Insert.insert-eq-insert_checked three_seven-IsConsistent 5

contains-erase_example :
    contains (SparseSet.erase 3 three_seven) 7 ≡ (contains three_seven 7 && not false)
contains-erase_example = SparseSet.Erase.contains-erase three_seven-IsConsistent 3 7

complement_correct_example :
    IsConsistent (SparseSet.complement 5 three_seven)
    × ((j : ℕ)
        → contains (SparseSet.complement 5 three_seven) j
          ≡ (ltb j 5 && not (contains three_seven j)))
complement_correct_example =
    SparseSet.Complement.complement_correct 5 three_seven three_seven-IsConsistent

abbrev below_five : ℕ → Bool
below_five j = ltb j 5

contains-rename_example :
    (contains (SparseSet.rename suc three_seven) 4 ≡ true)
    ↔ ((v : ℕ) × (contains three_seven v ≡ true) × (suc v ≡ 4))
contains-rename_example =
    SparseSet.Rename.contains-rename suc three_seven (λ i j hi hj e. apart i j hi hj e)
      three_seven-IsConsistent 4
  where
    apart :
        (i j : ℕ)
        → i < three_seven.size
        → j < three_seven.size
        → suc (SparseSet.dense_at three_seven i) ≡ suc (SparseSet.dense_at three_seven j)
        → i ≡ j
    apart i j hi hj e =
        ground (arith, three_seven-IsConsistent.back i, three_seven-IsConsistent.back j)

are_disjoint_iff_example :
    (SparseSet.are_disjoint three_seven (only 4) ≡ true)
    ↔ ((j : ℕ) → contains three_seven j ≡ true → contains (only 4) j ≡ true → ⊥)
are_disjoint_iff_example =
    SparseSet.Elements.are_disjoint_iff three_seven-IsConsistent (only-IsConsistent 4)

abbrev odds : List ℕ
odds = 1 ∷ 3 ∷ 5 ∷ []

abbrev powers : List ℕ
powers = 1 ∷ 2 ∷ 4 ∷ []

insert_all_correct_example :
    IsSorted (Merge.insert_all odds powers).0
    × ((k : ℕ) → member k (Merge.insert_all odds powers).0 ≡ (member k odds || member k powers))
    × ((Merge.insert_all odds powers).1 ≡ not (Merge.is_subset_of powers odds))
insert_all_correct_example = Merge.Laws.insert_all_correct odds powers (omega arith) (omega arith)

member-difference_example :
    member 3 (Merge.difference odds powers) ≡ (member 3 odds && not (member 3 powers))
member-difference_example = Merge.Laws.member-difference 3 odds powers (omega arith) (omega arith)

member-intersection_example :
    member 1 (Merge.intersection odds powers) ≡ (member 1 odds && member 1 powers)
member-intersection_example =
    Merge.Laws.member-intersection 1 odds powers (omega arith) (omega arith)

lookup-insert_example :
    lookup 2 (OrdVector.insert 2 odds).vec
    ≡ (if true then (if member 2 odds then lookup 2 odds else some 2) else lookup 2 odds)
lookup-insert_example = Lookup.lookup-insert 2 2 odds (omega arith)

find_elem-eq-lookup_example : find_elem 3 odds ≡ lookup 3 odds
find_elem-eq-lookup_example = Lookup.find_elem-eq-lookup 3 odds (omega arith)

abbrev shuffled : List ℕ
shuffled = 5 ∷ 1 ∷ 5 ∷ 3 ∷ []

sort_and_rmdupl_correct_example :
    IsSorted (Sort.sort_and_rmdupl shuffled)
    × ((k : ℕ) → member k (Sort.sort_and_rmdupl shuffled) ≡ member k shuffled)
sort_and_rmdupl_correct_example = Sort.sort_and_rmdupl_correct shuffled

filter-eq-kept_example :
    Rename.filter below_five shuffled
    ≡ Rename.kept below_five shuffled ++ drop (length (Rename.kept below_five shuffled)) shuffled
filter-eq-kept_example = OrdVector.Rename.filter-eq-kept below_five shuffled
