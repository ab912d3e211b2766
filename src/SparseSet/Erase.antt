-- ===== src/SparseSet/Erase.antt =====
-- include/mata/utils/sparse-set.hh: `erase` keeps the invariant and removes one number.
use mata.Common.{
  ℕ, ◌-◌, ◌<◌, ◌≡◌, refl, ap, inl, inr, true, not, ◌&&◌, List, [], ◌∷◌, ◌==◌, if◌then◌else◌, get_or,
  set, length-set, get_or-set, arith, Bool-cases,
}
use mata.SparseSet.{SparseSet, dense_at, sparse_at, contains, erase, erase_nocheck, erase_all}
use mata.SparseSet.Invariant.{IsConsistent}
use mata.OrdVector.{ℕ_ranked, member}

module _ {s : SparseSet} (c : IsConsistent s) (v : ℕ) (present : contains s v ≡ true) where
  -- The position of the number, which the last number takes over.
  hole_at : (sparse_at s v < s.size) × (dense_at s (sparse_at s v) ≡ v) × (v < s.domain_size)
  hole_at = unfold contains in ground arith

  dense-erase_nocheck :
      (i : ℕ)
      → i < s.size - 1
      → dense_at (erase_nocheck v s) i
        ≡ (if sparse_at s v == i then dense_at s (s.size - 1) else dense_at s i)
  unfolding erase_nocheck
  dense-erase_nocheck i h = ground (
    arith,
    hole_at,
    c.size-le,
    c.dense_room,
    get_or-set s.dense (sparse_at s v) i (dense_at s (s.size - 1)) 0,
  )

  sparse-erase_nocheck :
      (j : ℕ)
      → sparse_at (erase_nocheck v s) j
        ≡ (if dense_at s (s.size - 1) == j then sparse_at s v else sparse_at s j)
  unfolding erase_nocheck
  sparse-erase_nocheck j = ground (
    arith,
    hole_at,
    c.size-le,
    c.dense_room,
    c.sparse_room,
    c.in_domain (s.size - 1),
    get_or-set s.dense (sparse_at s v) (s.size - 1) (dense_at s (s.size - 1)) 0,
    get_or-set s.sparse (dense_at s (s.size - 1)) j (sparse_at s v) 0,
  )

  pub erase_nocheck-IsConsistent : IsConsistent (erase_nocheck v s)
  erase_nocheck-IsConsistent = record {
    size-le = unfold erase_nocheck in omega (arith, c.size-le);
    dense_room =
        unfold erase_nocheck in
        omega (arith, c.dense_room, length-set s.dense (sparse_at s v) (dense_at s (s.size - 1)));
    sparse_room =
        unfold erase_nocheck in
        omega (
          arith,
          c.sparse_room,
          length-set s.sparse
              (get_or (set s.dense (sparse_at s v) (dense_at s (s.size - 1))) (s.size - 1) 0)
              (sparse_at s v),
        );
    in_domain = λ i h. in_domain' i h;
    back = λ i h. back' i h;
  }
    where
      lt : (i : ℕ) → i < (erase_nocheck v s).size → i < s.size - 1
      lt i h = unfold erase_nocheck in h

      in_domain' :
          (i : ℕ)
          → i < (erase_nocheck v s).size
          → dense_at (erase_nocheck v s) i < (erase_nocheck v s).domain_size
      in_domain' i h =
          rw (dense-erase_nocheck i (lt i h)) (
            unfold erase_nocheck in ground (arith, lt i h, c.in_domain i, c.in_domain (s.size - 1)))

      back' :
          (i : ℕ)
          → i < (erase_nocheck v s).size
          → sparse_at (erase_nocheck v s) (dense_at (erase_nocheck v s) i) ≡ i
      back' i h = ground (
        arith,
        lt i h,
        dense-erase_nocheck i,
        sparse-erase_nocheck (dense_at (erase_nocheck v s) i),
        sparse-erase_nocheck (dense_at s i),
        c.back i,
        c.back (s.size - 1),
        hole_at,
      )

  size-erase_nocheck :
      ((erase_nocheck v s).size ≡ s.size - 1) × ((erase_nocheck v s).domain_size ≡ s.domain_size)
  unfolding erase_nocheck
  size-erase_nocheck = (refl, refl)

  -- The last number takes the place of the erased one.
  pub contains-erase_nocheck :
      (j : ℕ) → contains (erase_nocheck v s) j ≡ (contains s j && not (v == j))
  contains-erase_nocheck j =
      unfold contains in
      ground (
        arith,
        size-erase_nocheck,
        hole_at,
        sparse-erase_nocheck j,
        dense-erase_nocheck (sparse_at s j),
        dense-erase_nocheck (sparse_at s v),
        c.back (s.size - 1),
        c.in_domain (s.size - 1),
      )

  -- After an erasure the last number stands where the erased one stood.
  pub dense-erase :
      (i : ℕ)
      → i < s.size - 1
      → dense_at (erase v s) i
        ≡ (if sparse_at s v == i then dense_at s (s.size - 1) else dense_at s i)
  unfolding erase
  dense-erase i h = rw present (dense-erase_nocheck i h)

module _ {s : SparseSet} (c : IsConsistent s) (v : ℕ) where
  pub erase-IsConsistent : IsConsistent (erase v s)
  unfolding erase
  erase-IsConsistent = elim (Bool-cases (contains s v)) [
    | inl present ↦ rw present (erase_nocheck-IsConsistent c v present)
    | inr missing ↦ rw missing c
  ]

  -- On a consistent set, after `erase` exactly the numbers from before without the erased one are
  -- contained.
  pub contains-erase : (j : ℕ) → contains (erase v s) j ≡ (contains s j && not (v == j))
  unfolding erase
  contains-erase j = elim (Bool-cases (contains s v)) [
    | inl present ↦ rw (present) (contains-erase_nocheck c v present j)
    | inr missing ↦ rw (missing) (ground (arith, same_contains))
  ]
    where
      same_contains : v ≡ j → contains s v ≡ contains s j
      same_contains e = ap (contains s) e

  pub size-erase : (erase v s).size ≡ (if contains s v then s.size - 1 else s.size)
  unfolding erase
  size-erase = elim (Bool-cases (contains s v)) [
    | inl present ↦ rw present (unfold erase_nocheck in refl)
    | inr missing ↦ rw missing
  ]

-- `erase(first, last)` keeps the invariant and removes the numbers of the range.
pub erase_all_correct :
    (xs : List ℕ) (s : SparseSet)
    → IsConsistent s
    → IsConsistent (erase_all xs s)
      × ((j : ℕ) → contains (erase_all xs s) j ≡ (contains s j && not (member j xs)))
unfolding erase_all
erase_all_correct [] s c = (c, λ j. ground arith)
erase_all_correct (x ∷ xs) s c =
    let (kept, removed) = erase_all_correct xs (erase x s) (erase-IsConsistent c x) in
    (kept, λ j. ground (arith, removed j, contains-erase c x j))
