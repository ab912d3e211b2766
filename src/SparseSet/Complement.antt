-- ===== src/SparseSet/Complement.antt =====
-- include/mata/utils/sparse-set.hh: `complement` toggles each number below the new domain and
-- removes the rest.
use mata.Common.{
  ℕ, zero, suc, ◌+◌, ◌-◌, ◌<◌, ◌≡◌, ap, inl, inr, true, not, ◌&&◌, ltb, leb, ◌==◌, if◌then◌else◌,
  arith, Bool-cases,
}
use mata.SparseSet.{SparseSet, contains, erase, toggle, toggle_loop, erase_loop, complement}
use mata.SparseSet.Invariant.{IsConsistent}
use mata.SparseSet.Insert.{insert-IsConsistent, contains-insert}
use mata.SparseSet.Erase.{
  erase-IsConsistent, contains-erase, erase_nocheck-IsConsistent, contains-erase_nocheck,
}

toggle_correct :
    (i : ℕ) (s : SparseSet)
    → IsConsistent s
    → IsConsistent (toggle i s)
      × ((j : ℕ) → contains (toggle i s) j ≡ (if i == j then not (contains s j) else contains s j))
unfolding toggle
toggle_correct i s c = elim (Bool-cases (contains s i)) [
  | inl old ↦ rw old (
    erase_nocheck-IsConsistent c i old,
    λ j. ground (arith, contains-erase_nocheck c i old j, same j),
  )
  | inr new ↦ rw new (insert-IsConsistent c i, λ j. ground (arith, contains-insert c i j, same j))
]
  where
    same : (j : ℕ) → i ≡ j → contains s i ≡ contains s j
    same j e = ap (contains s) e

toggle_loop_correct :
    (n i : ℕ) (s : SparseSet)
    → IsConsistent s
    → IsConsistent (toggle_loop n i s)
      × ((j : ℕ)
          → contains (toggle_loop n i s) j
            ≡ (if leb i j && ltb j (i + n) then not (contains s j) else contains s j))
unfolding toggle_loop
toggle_loop_correct zero i s c = (c, λ j. ground arith)
toggle_loop_correct (suc n) i s c =
    let (kept, toggled) = toggle_correct i s c in
    let (kept', rest) = toggle_loop_correct n (suc i) (toggle i s) kept in
    (kept', λ j. ground (arith, rest j, toggled j))

erase_loop_correct :
    (n i : ℕ) (s : SparseSet)
    → IsConsistent s
    → IsConsistent (erase_loop n i s)
      × ((j : ℕ) → contains (erase_loop n i s) j ≡ (contains s j && not (leb i j && ltb j (i + n))))
unfolding erase_loop
erase_loop_correct zero i s c = (c, λ j. ground arith)
erase_loop_correct (suc n) i s c =
    let (kept, rest) = erase_loop_correct n (suc i) (erase i s) (erase-IsConsistent c i) in
    (kept, λ j. ground (arith, rest j, contains-erase c i j))

-- On a consistent set, `complement(n)` keeps the set consistent, and it then holds exactly the
-- numbers below `n` that it did not hold before.
pub complement_correct :
    (n : ℕ) (s : SparseSet)
    → IsConsistent s
    → IsConsistent (complement n s)
      × ((j : ℕ) → contains (complement n s) j ≡ (ltb j n && not (contains s j)))
unfolding complement
complement_correct n s c =
    let (kept, toggled) = toggle_loop_correct n 0 s c in
    let (kept', erased) = erase_loop_correct (s.domain_size - n) n (toggle_loop n 0 s) kept in
    (kept', λ j. ground (arith, toggled j, erased j, bounded j))
  where
    bounded : (j : ℕ) → contains s j ≡ true → j < s.domain_size
    bounded j h = unfold contains in ground arith
