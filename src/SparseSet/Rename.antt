-- ===== src/SparseSet/Rename.antt =====
-- include/mata/utils/sparse-set.hh: `rename` in place, for a renaming that keeps the numbers of the
-- set apart.
use mata.Common.{
  ℕ, zero, suc, ◌+◌, ◌≤◌, ◌<◌, ◌≡◌, refl, sym, ap, ◌∙◌, ◌↔◌, inl, inr, true, ◌==◌, if◌then◌else◌,
  length, set, length-set, length-resize, get_or-set, get_or-resize, arith, Bool-cases, ==_iff,
  subst,
}
use mata.SparseSet.{
  SparseSet, dense_at, sparse_at, contains, reserve, grown, rename, rename_at, rename_step,
  rename_loop,
}
use mata.SparseSet.Invariant.{IsConsistent, contains-dense_at}

-- The vectors cover the domain.
abbrev Roomy : SparseSet → Type 0
Roomy s =
    (s.size ≤ s.domain_size) × (s.domain_size ≤ length s.dense) × (s.domain_size ≤ length s.sparse)

-- A growth makes room for `v`, and below the old domain it changes nothing.
grown_keeps :
    (v : ℕ) (s : SparseSet)
    → Roomy s
    → Roomy (grown v s)
      × ((grown v s).size ≡ s.size)
      × (v < (grown v s).domain_size)
      × (s.domain_size ≤ (grown v s).domain_size)
unfolding grown reserve
grown_keeps v s r =
    ground (arith, length-resize (v + 1) 0 s.dense, length-resize (v + 1) 0 s.sparse)

grown_at :
    (v : ℕ) (s : SparseSet) (k : ℕ)
    → k < s.domain_size
    → (dense_at (grown v s) k ≡ dense_at s k) × (sparse_at (grown v s) k ≡ sparse_at s k)
unfolding grown reserve
grown_at v s k h =
    ground (arith, get_or-resize (v + 1) 0 s.dense k, get_or-resize (v + 1) 0 s.sparse k)

-- What the writes of one round leave.
record Written (i q : ℕ) (s t : SparseSet) : Type 0 where
  same_size : t.size ≡ s.size
  roomy : Roomy t
  fits : q < t.domain_size
  grows : s.domain_size ≤ t.domain_size
  dense_lem : (k : ℕ) → k < s.domain_size → dense_at t k ≡ (if i == k then q else dense_at s k)
  sparse_lem : (v : ℕ) → v < s.domain_size → sparse_at t v ≡ (if q == v then i else sparse_at s v)
  sparse_self : sparse_at t q ≡ i

Written-rename_at :
    (i q : ℕ) (s : SparseSet) → Roomy s → i < s.size → Written i q s (rename_at i q s)
unfolding rename_at
Written-rename_at i q s r h =
    let t = record s { dense = set s.dense i q } in
    let kept : Roomy t = omega (arith, length-set s.dense i q) in
    let g = grown_keeps q t kept in
    record {
      same_size = g.1;
      roomy = ground (arith, g, length-set (grown q t).sparse q i);
      fits = g.2;
      grows = g.3;
      dense_lem = λ k b. ground (arith, grown_at q t k, get_or-set s.dense i k q 0);
      sparse_lem = λ v b. ground (arith, g, grown_at q t v, get_or-set (grown q t).sparse q v i 0);
      sparse_self = ground (arith, g, get_or-set (grown q t).sparse q q i 0);
    }

placed :
    (s : SparseSet) (j : ℕ)
    → contains s j ≡ true
    → (sparse_at s j < s.size) × (dense_at s (sparse_at s j) ≡ j)
unfolding contains
placed s j h = ground arith

module _ (f : ℕ → ℕ) (s : SparseSet) where
  -- The set `t` after the positions before `i` have been renamed.
  record Renamed (i : ℕ) (t : SparseSet) : Type 0 where
    same_size : t.size ≡ s.size
    roomy : Roomy t
    new_dense : (k : ℕ) → k < i → k < s.size → dense_at t k ≡ f (dense_at s k)
    new_domain : (k : ℕ) → k < i → k < s.size → f (dense_at s k) < t.domain_size
    new_back : (k : ℕ) → k < i → k < s.size → sparse_at t (f (dense_at s k)) ≡ k
    old_dense : (k : ℕ) → i ≤ k → k < s.size → dense_at t k ≡ dense_at s k
    old_domain : (k : ℕ) → i ≤ k → k < s.size → dense_at s k < t.domain_size
    old_back :
        (k : ℕ)
        → i ≤ k
        → k < s.size
        → f (dense_at s k) ≡ dense_at s k
        → sparse_at t (dense_at s k) ≡ k

  Renamed-start : IsConsistent s → Renamed 0 s
  Renamed-start c = record {
    same_size = refl;
    roomy = (c.size-le, c.dense_room, c.sparse_room);
    new_dense = λ k h. absurd (omega arith);
    new_domain = λ k h. absurd (omega arith);
    new_back = λ k h. absurd (omega arith);
    old_dense = λ k _ _. refl;
    old_domain = λ k _ h. c.in_domain k h;
    old_back = λ k _ h _. c.back k h;
  }

  module _
      (apart : (i j : ℕ)
        → i < s.size
        → j < s.size
        → f (dense_at s i) ≡ f (dense_at s j)
        → i ≡ j) where
    stay-Renamed :
        (i : ℕ) (t : SparseSet)
        → Renamed i t
        → i < s.size
        → dense_at t i ≡ f (dense_at t i)
        → Renamed (suc i) t
    stay-Renamed i t r h e = record {
      same_size = r.same_size;
      roomy = r.roomy;
      new_dense = λ k a b. ground (arith, r.new_dense k, r.old_dense k, at k);
      new_domain = λ k a b. ground (arith, r.new_domain k, r.old_domain k, at k);
      new_back = λ k a b. ground (arith, r.new_back k, r.old_back k, at k);
      old_dense = λ k a b. r.old_dense k (omega arith) b;
      old_domain = λ k a b. r.old_domain k (omega arith) b;
      old_back = λ k a b. r.old_back k (omega arith) b;
    }
      where
        fixed : f (dense_at s i) ≡ dense_at s i
        fixed = rw (r.old_dense i (omega arith) h) at (sym e)

        at : (k : ℕ) → k ≡ i → f (dense_at s k) ≡ dense_at s k
        at k same = rw same fixed

    write-Renamed :
        (i : ℕ) (t : SparseSet)
        → Renamed i t
        → i < s.size
        → Renamed (suc i) (rename_at i (f (dense_at t i)) t)
    write-Renamed i t r h =
        let q = f (dense_at s i) in
        let w = Written-rename_at i q t r.roomy (omega (arith, r.same_size)) in
        rw (r.old_dense i (omega arith) h) (record {
          same_size = w.same_size ∙ r.same_size;
          roomy = w.roomy;
          new_dense =
              λ k a b. ground (arith, w.dense_lem k, r.new_dense k, r.roomy, r.same_size, at k);
          new_domain = λ k a b. ground (arith, r.new_domain k, w.grows, w.fits, at k);
          new_back = λ k a b. ground (
            arith,
            w.sparse_lem (f (dense_at s k)),
            r.new_back k,
            r.new_domain k,
            apart i k,
            at k,
            w.sparse_self,
          );
          old_dense = λ k a b. ground (arith, w.dense_lem k, r.old_dense k, r.roomy, r.same_size);
          old_domain = λ k a b. ground (arith, r.old_domain k, w.grows);
          old_back = λ k a b e.
              ground (arith, w.sparse_lem (dense_at s k), r.old_back k, r.old_domain k, apart i k);
        })
      where
        at : (k : ℕ) → k ≡ i → f (dense_at s k) ≡ f (dense_at s i)
        at k same = ap (λ (j : ℕ). f (dense_at s j)) same

    step-Renamed :
        (i : ℕ) (t : SparseSet) → Renamed i t → i < s.size → Renamed (suc i) (rename_step f i t)
    unfolding rename_step
    step-Renamed i t r h = elim (Bool-cases (dense_at t i == f (dense_at t i))) [
      | inl e ↦ rw e (stay-Renamed i t r h ((==_iff _ _).0 e))
      | inr e ↦ rw e (write-Renamed i t r h)
    ]

    loop-Renamed :
        (n i : ℕ) (t : SparseSet)
        → Renamed i t
        → n + i ≡ s.size
        → Renamed s.size (rename_loop f n i t)
    unfolding rename_loop
    loop-Renamed zero i t r e = subst (λ k. Renamed k t) (omega arith) r
    loop-Renamed (suc n) i t r e =
        loop-Renamed n (suc i) (rename_step f i t) (step-Renamed i t r (omega arith)) (omega arith)

    Renamed-rename : IsConsistent s → Renamed s.size (rename f s)
    unfolding rename
    Renamed-rename c = loop-Renamed s.size 0 s (Renamed-start c) (omega arith)

    -- A renaming that keeps the numbers of the set apart keeps the invariant.
    pub rename-IsConsistent : IsConsistent s → IsConsistent (rename f s)
    rename-IsConsistent c =
        let r = Renamed-rename c in
        record {
          size-le = r.roomy.0;
          dense_room = r.roomy.1;
          sparse_room = r.roomy.2;
          in_domain = λ k h. ground (arith, r.same_size, r.new_dense k, r.new_domain k);
          back = λ k h.
              rw (r.new_dense k (omega (arith, r.same_size)) (omega (arith, r.same_size)))
                (r.new_back k (omega (arith, r.same_size)) (omega (arith, r.same_size)));
        }

    -- On a consistent set whose numbers the renaming keeps apart, the set holds after `rename`
    -- exactly the new names of its numbers.
    pub contains-rename :
        (c : IsConsistent s) (j : ℕ)
        → (contains (rename f s) j ≡ true) ↔ ((v : ℕ) × (contains s v ≡ true) × (f v ≡ j))
    contains-rename c j = (
      λ h.
          let (inside, e) = placed (rename f s) j h in
          let k = sparse_at (rename f s) j in
          let below : k < s.size = omega (arith, r.same_size) in
          (dense_at s k, contains-dense_at c k below, sym (r.new_dense k below below) ∙ e),
      λ (v, h, e).
          let (inside, at_v) = placed s v h in
          let k = sparse_at s v in
          let new : dense_at (rename f s) k ≡ j = r.new_dense k inside inside ∙ ap f at_v ∙ e in
          subst (λ (u : ℕ). contains (rename f s) u ≡ true) new
            (contains-dense_at (rename-IsConsistent c) k (omega (arith, r.same_size))),
    )
      where
        r : Renamed s.size (rename f s)
        r = Renamed-rename c
