-- ===== src/SparseSet/Insert.antt =====
-- include/mata/utils/sparse-set.hh: `insert` writes within bounds, keeps the invariant and adds
-- one number.
use mata.Common.{
  ℕ, suc, ◌+◌, ◌<◌, ◌≤◌, ◌≡◌, refl, ap, ◌∙◌, ◌⊎◌, inl, inr, Bool, true, false, ◌||◌, List, [], ◌∷◌,
  some, ltb, leb, ◌==◌, if◌then◌else◌, length, get_or, set, length-set, get_or-set, arith,
  Bool-cases,
}
use mata.SparseSet.{
  SparseSet, dense_at, contains, reserve, insert, insert_checked, put_checked, grown, put,
  insert_all,
}
use mata.OrdVector.{ℕ_ranked, member}
use mata.SparseSet.Invariant.{IsConsistent, reserve-IsConsistent, contains-reserve, missing-lt}

module _ {s : SparseSet} (c : IsConsistent s) where
  module _ (v : ℕ) (fits : v < s.domain_size) (missing : contains s v ≡ false) where
    put-IsConsistent : IsConsistent (put v s)
    unfolding put
    put-IsConsistent =
        let room = missing-lt c v fits missing in
        record {
          size-le = room;
          dense_room = omega (arith, c.dense_room, length-set s.dense s.size v);
          sparse_room = omega (arith, c.sparse_room, length-set s.sparse v s.size);
          in_domain =
              λ i h. ground (arith, c.dense_room, c.in_domain i, get_or-set s.dense s.size i v 0);
          back = λ i h. ground (
            arith,
            c.dense_room,
            c.sparse_room,
            c.back i,
            get_or-set s.dense s.size i v 0,
            get_or-set s.sparse v (get_or (set s.dense s.size v) i 0) s.size 0,
            not_at i,
          );
        }
      where
        not_at : (i : ℕ) → i < s.size → dense_at s i ≡ v → ⊥
        not_at i h e = unfold contains in ground (arith, c.back i, c.in_domain i)

    contains-put : (j : ℕ) → contains (put v s) j ≡ (v == j || contains s j)
    unfolding put contains
    contains-put j = ground (
      arith,
      missing-lt c v fits missing,
      c.dense_room,
      c.sparse_room,
      get_or-set s.sparse v j s.size 0,
      get_or-set s.dense s.size (get_or (set s.sparse v s.size) j 0) v 0,
    )

record Grown (v : ℕ) (s : SparseSet) : Type 0 where
  consistent : IsConsistent (grown v s)
  fits : v < (grown v s).domain_size
  same : (j : ℕ) → contains (grown v s) j ≡ contains s j
  same_size : (grown v s).size ≡ s.size

grown_lem : (v : ℕ) (s : SparseSet) → IsConsistent s → Grown v s
unfolding grown
grown_lem v s c = elim (Bool-cases (leb s.domain_size v)) [
  | inl grows ↦ record {
    consistent = rw (grows, grown) (reserve-IsConsistent c (v + 1));
    fits = rw (grows, grown) (unfold reserve in ground arith);
    same = λ j. rw (grows, grown) (contains-reserve c (v + 1) j);
    same_size = rw (grows, grown) (unfold reserve in ground arith);
  }
  | inr stays ↦ record {
    consistent = rw (stays, grown) c;
    fits = rw (stays, grown) (ground arith);
    same = λ j. rw (stays, grown) refl;
    same_size = rw (stays, grown) refl;
  }
]

insert-cases :
    (v : ℕ) (s : SparseSet)
    → (contains s v ≡ true) × (insert v s ≡ s)
      ⊎ (contains s v ≡ false) × (insert v s ≡ put v (grown v s))
unfolding insert
insert-cases v s = ground arith

module _ {s : SparseSet} (c : IsConsistent s) (v : ℕ) where
  writes_in_bounds :
      contains s v ≡ false → (s.size < length (grown v s).dense) × (v < length (grown v s).sparse)
  writes_in_bounds missing =
      let g = grown_lem v s c in
      ground (
        arith,
        g.fits,
        g.same v,
        g.same_size,
        g.consistent.dense_room,
        g.consistent.sparse_room,
        missing-lt g.consistent v g.fits,
      )

  -- On a consistent set, `insert` with every write checked against the bounds of the vector as it
  -- is at that point has a result, the same as `insert`: no write is out of bounds.
  pub insert-eq-insert_checked : insert_checked v s ≡ some (insert v s)
  unfolding insert_checked insert put_checked put
  insert-eq-insert_checked = elim (Bool-cases (contains s v)) [
    | inl old ↦ rw old refl
    | inr new ↦
        let (first, second) = writes_in_bounds new in
        let size = (grown_lem v s c).same_size in
        let in_dense : ltb (grown v s).size (length (grown v s).dense) ≡ true = ground arith in
        let in_sparse : ltb v (length (grown v s).sparse) ≡ true = ground arith in
        rw (new, put_checked, in_dense, in_sparse) refl
  ]

  pub insert-IsConsistent : IsConsistent (insert v s)
  insert-IsConsistent = elim (insert-cases v s) [
    | inl (old, e) ↦ rw e c
    | inr (new, e) ↦
        let g = grown_lem v s c in rw e (put-IsConsistent g.consistent v g.fits (g.same v ∙ new))
  ]

  -- On a consistent set, after `insert` exactly the numbers from before and the inserted one are
  -- contained.
  pub contains-insert : (j : ℕ) → contains (insert v s) j ≡ (v == j || contains s j)
  contains-insert j = elim (insert-cases v s) [
    | inl (old, e) ↦ rw e (ground (arith, same_contains))
    | inr (new, e) ↦
        let g = grown_lem v s c in
        rw e (
          contains-put g.consistent v g.fits (g.same v ∙ new) j
          ∙ ap (λ (b : Bool). v == j || b) (g.same j))
  ]
    where
      same_contains : v ≡ j → contains s v ≡ contains s j
      same_contains e = ap (contains s) e

  pub size-insert : (insert v s).size ≡ (if contains s v then s.size else suc s.size)
  size-insert = elim (insert-cases v s) [
    | inl (old, e) ↦ rw (e, old)
    | inr (new, e) ↦ rw (e, new) (unfold put in ap suc (grown_lem v s c).same_size)
  ]

-- `insert(first, last)` keeps the invariant and adds the numbers of the range.
pub insert_all_correct :
    (xs : List ℕ) (s : SparseSet)
    → IsConsistent s
    → IsConsistent (insert_all xs s)
      × ((j : ℕ) → contains (insert_all xs s) j ≡ (member j xs || contains s j))
unfolding insert_all
insert_all_correct [] s c = (c, λ j. refl)
insert_all_correct (x ∷ xs) s c =
    let (kept, added) = insert_all_correct xs (insert x s) (insert-IsConsistent c x) in
    (kept, λ j. ground (arith, added j, contains-insert c x j))

pub domain_le-insert : (v : ℕ) (s : SparseSet) → s.domain_size ≤ (insert v s).domain_size
unfolding insert put grown reserve
domain_le-insert v s = ground arith

-- The domain only grows.
pub domain_le-insert_all :
    (xs : List ℕ) (s : SparseSet) → s.domain_size ≤ (insert_all xs s).domain_size
unfolding insert_all
domain_le-insert_all [] s = omega arith
domain_le-insert_all (x ∷ xs) s =
    omega (arith, domain_le-insert x s, domain_le-insert_all xs (insert x s))
