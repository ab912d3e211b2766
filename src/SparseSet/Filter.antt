-- ===== src/SparseSet/Filter.antt =====
-- include/mata/utils/sparse-set.hh: `filter` keeps exactly the numbers that stay.
use mata.Common.{
  ℕ, zero, suc, ◌+◌, ◌≤◌, ◌<◌, ◌≡◌, inl, inr, Bool, true, false, ◌&&◌, ltb, ◌==◌, arith, ltb→lt,
  ==_iff, Bool-cases,
}
use mata.SparseSet.{SparseSet, dense_at, sparse_at, contains, erase, filter_loop, filter}
use mata.SparseSet.Invariant.{IsConsistent, contains-dense_at}
use mata.SparseSet.Erase.{erase-IsConsistent, contains-erase, size-erase, dense-erase}

placed :
    (s : SparseSet) (j : ℕ)
    → contains s j ≡ true
    → (sparse_at s j < s.size) × (dense_at s (sparse_at s j) ≡ j)
unfolding contains
placed s j h = ground arith

smaller :
    (i : ℕ) (s : SparseSet)
    → IsConsistent s
    → i < s.size
    → suc (erase (dense_at s i) s).size ≡ s.size
smaller i s c inside = ground (arith, size-erase c (dense_at s i), contains-dense_at c i inside)

module _ (is_staying : ℕ → Bool) where
  -- The numbers at the positions before `i` stay.
  abbrev Checked : ℕ → SparseSet → Type 0
  Checked i s = (k : ℕ) → k < i → k < s.size → is_staying (dense_at s k) ≡ true

  all-Checked :
      (i : ℕ) (s : SparseSet)
      → IsConsistent s
      → s.size ≤ i
      → Checked i s
      → (j : ℕ) → contains s j ≡ (contains s j && is_staying j)
  all-Checked i s c over done j = elim (Bool-cases (contains s j)) [
    | inl present ↦
        let (inside, e) = placed s j present in
        let stays : is_staying j ≡ true = rw e at (done (sparse_at s j) (omega arith) inside) in
        rw (present, stays)
    | inr missing ↦ rw missing
  ]

  Checked-next :
      (i : ℕ) (s : SparseSet) → Checked i s → is_staying (dense_at s i) ≡ true → Checked (suc i) s
  Checked-next i s done stays k below inside = elim (Bool-cases (k == i)) [
    | inl e ↦ rw ((==_iff k i).0 e) stays
    | inr e ↦ done k (ground arith) inside
  ]

  -- The last number comes to position `i`, and the positions before it keep theirs.
  Checked-erase :
      (i : ℕ) (s : SparseSet)
      → IsConsistent s
      → i < s.size
      → Checked i s
      → Checked i (erase (dense_at s i) s)
  Checked-erase i s c inside done k below within =
      let kept : dense_at (erase (dense_at s i) s) k ≡ dense_at s k = ground (
        arith,
        smaller i s c inside,
        dense-erase c (dense_at s i) (contains-dense_at c i inside) k,
        c.back i,
      ) in
      rw kept (done k below (omega arith))

  same : (v j : ℕ) → is_staying v ≡ false → v ≡ j → is_staying j ≡ false
  same v j goes e = rw e at goes

  filter_loop_correct :
      (fuel i : ℕ) (s : SparseSet)
      → IsConsistent s
      → s.size ≤ fuel + i
      → Checked i s
      → IsConsistent (filter_loop is_staying fuel i s)
        × ((j : ℕ) → contains (filter_loop is_staying fuel i s) j ≡ (contains s j && is_staying j))
  unfolding filter_loop
  filter_loop_correct zero i s c room done = (c, λ j. all-Checked i s c (omega arith) done j)
  filter_loop_correct (suc fuel) i s c room done = elim (Bool-cases (ltb i s.size)) [
    | inr over ↦ rw over (c, λ j. all-Checked i s c (ground arith) done j)
    | inl more ↦ elim (Bool-cases (is_staying (dense_at s i))) [
      | inl stays ↦
          rw (more, stays)
            (filter_loop_correct fuel (suc i) s c (omega arith) (Checked-next i s done stays))
      | inr goes ↦
          let v = dense_at s i in
          let inside : i < s.size = ltb→lt i s.size more in
          let (kept, rest) =
            filter_loop_correct fuel i (erase v s) (erase-IsConsistent c v)
              (omega (arith, smaller i s c inside)) (Checked-erase i s c inside done) in
          rw (more, goes) (kept, λ j. ground (arith, rest j, contains-erase c v j, same v j goes))
    ]
  ]

  pub filter_correct :
      (s : SparseSet)
      → IsConsistent s
      → IsConsistent (filter is_staying s)
        × ((j : ℕ) → contains (filter is_staying s) j ≡ (contains s j && is_staying j))
  unfolding filter
  filter_correct s c = filter_loop_correct s.size 0 s c (omega arith) (λ k h. absurd (omega arith))
