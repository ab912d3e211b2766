-- ===== src/SparseSet/Invariant.antt =====
-- include/mata/utils/sparse-set.hh: the invariant behind `consistent()`, and the operations that
-- move no element.
use mata.Common.{
  ℕ, ◌≤◌, ◌<◌, ◌≡◌, inl, inr, true, false, ltb, length, length-resize, get_or-resize, arith,
  pigeonhole_missing, Bool-cases,
}
use mata.SparseSet.{SparseSet, dense_at, sparse_at, contains, reserve, empty_set}

-- The numbers of the set stand in `dense` below `size`, and `sparse` leads back to them.
pub record IsConsistent (s : SparseSet) : Type 0 where
  pub size-le : s.size ≤ s.domain_size
  pub dense_room : s.domain_size ≤ length s.dense
  pub sparse_room : s.domain_size ≤ length s.sparse
  pub in_domain : (i : ℕ) → i < s.size → dense_at s i < s.domain_size
  pub back : (i : ℕ) → i < s.size → sparse_at s (dense_at s i) ≡ i

pub IsConsistent-empty : IsConsistent empty_set
IsConsistent-empty = record {
  size-le = omega arith;
  dense_room = omega arith;
  sparse_room = omega arith;
  in_domain = λ i h. absurd (omega arith);
  back = λ i h. absurd (omega arith);
}

module _ {s : SparseSet} (c : IsConsistent s) where
  -- A number is contained exactly if some position below `size` holds it.
  pub contains-dense_at : (i : ℕ) → i < s.size → contains s (dense_at s i) ≡ true
  unfolding contains
  contains-dense_at i h = ground (arith, c.in_domain i, c.back i)

  pub reserve-IsConsistent : (u : ℕ) → IsConsistent (reserve u s)
  unfolding reserve
  reserve-IsConsistent u = elim (Bool-cases (ltb s.domain_size u)) [
    | inl grows ↦ rw grows (record {
      size-le = ground (arith, c.size-le);
      dense_room = omega (arith, length-resize u 0 s.dense);
      sparse_room = omega (arith, length-resize u 0 s.sparse);
      in_domain = λ i h. ground (arith, c.in_domain i, c.size-le, get_or-resize u 0 s.dense i);
      back = λ i h. ground (
        arith,
        c.in_domain i,
        c.back i,
        c.size-le,
        get_or-resize u 0 s.dense i,
        get_or-resize u 0 s.sparse (dense_at s i),
      );
    })
    | inr stays ↦ rw stays c
  ]

  pub contains-reserve : (u j : ℕ) → contains (reserve u s) j ≡ contains s j
  unfolding contains reserve
  contains-reserve u j = ground (
    arith,
    c.size-le,
    get_or-resize u 0 s.sparse j,
    get_or-resize u 0 s.dense (sparse_at s j),
    c.in_domain (sparse_at s j),
  )

  -- If a number is not contained, there is room for it.
  pub missing-lt : (v : ℕ) → v < s.domain_size → contains s v ≡ false → s.size < s.domain_size
  unfolding contains
  missing-lt v h e =
      pigeonhole_missing s.size s.domain_size (dense_at s) v c.in_domain
        (λ i j hi hj same. ground (arith, c.back i, c.back j)) h
        (λ i hi same. ground (arith, c.back i))
