-- ===== src/SparseSet/Elements.antt =====
-- include/mata/utils/sparse-set.hh: iteration, `max`, `truncate`, `intersects_with` and
-- `are_disjoint`.
use mata.Common.{
  ℕ, zero, suc, ◌≤◌, ◌<◌, ◌≡◌, refl, ap, ◌↔◌, inl, inr, true, false, List, [], ◌∷◌, ltb, ◌==◌,
  if◌then◌else◌, length, get_or, take, arith, Bool-cases, Bool-ext, pigeonhole, ◌∙◌, sym, ==_iff,
}
use mata.SparseSet.{
  SparseSet, dense_at, sparse_at, contains, elements, max, max_loop, truncate, consistent,
  intersects_with, are_disjoint, disjoint_loop,
}
use mata.SparseSet.Invariant.{IsConsistent, contains-dense_at}
use mata.OrdVector.{ℕ_ranked, member}

-- A number stands in a list exactly if it stands at some position.
member-at : (xs : List ℕ) (i : ℕ) → i < length xs → member (get_or xs i 0) xs ≡ true
member-at [] i h = absurd (omega arith)
member-at (x ∷ xs) zero h = ground arith
member-at (x ∷ xs) (suc i) h = ground (arith, member-at xs i)

position :
    (j : ℕ) (xs : List ℕ) → member j xs ≡ true → (i : ℕ) × (i < length xs) × (get_or xs i 0 ≡ j)
position j [] h = cc
position j (x ∷ xs) h = elim (Bool-cases (x == j)) [
  | inl here ↦ (0, omega arith, ground arith)
  | inr there ↦ let (i, below, e) = position j xs (ground arith) in (suc i, omega arith, e)
]

-- No number stands twice in the list.
abbrev pub Distinct : List ℕ → Type 0
Distinct [] = Unit
Distinct (x ∷ xs) = (member x xs ≡ false) × Distinct xs

injective-Distinct :
    (xs : List ℕ)
    → ((i j : ℕ) → i < length xs → j < length xs → get_or xs i 0 ≡ get_or xs j 0 → i ≡ j)
    → Distinct xs
injective-Distinct [] h = tt
injective-Distinct (x ∷ xs) h = (
  elim (Bool-cases (member x xs)) [
    | inl again ↦
        let (i, below, e) = position x xs again in
        let twice = h 0 (suc i) (omega arith) (omega arith) (sym e) in absurd (omega arith)
    | inr once ↦ once
  ],
  injective-Distinct xs
      (λ i j hi hj e. let same = h (suc i) (suc j) (omega arith) (omega arith) e in omega arith),
)

get_or-take : (n : ℕ) (xs : List ℕ) (i : ℕ) → i < n → get_or (take n xs) i 0 ≡ get_or xs i 0
get_or-take zero xs i h = absurd (omega arith)
get_or-take (suc n) [] i h = refl
get_or-take (suc n) (x ∷ xs) zero h = refl
get_or-take (suc n) (x ∷ xs) (suc i) h = get_or-take n xs i (omega arith)

length-take : (n : ℕ) (xs : List ℕ) → n ≤ length xs → length (take n xs) ≡ n
length-take zero xs h = refl
length-take (suc n) [] h = absurd (omega arith)
length-take (suc n) (x ∷ xs) h = ap suc (length-take n xs (omega arith))

module _ {s : SparseSet} (c : IsConsistent s) where
  length-elements : length (elements s) ≡ s.size
  unfolding elements
  length-elements = length-take s.size s.dense (omega (arith, c.size-le, c.dense_room))

  at_elements : (i : ℕ) → i < s.size → get_or (elements s) i 0 ≡ dense_at s i
  unfolding elements
  at_elements i h = get_or-take s.size s.dense i h

  pub elements-Distinct : Distinct (elements s)
  elements-Distinct = injective-Distinct (elements s) (λ i j hi hj e.
      let a : i < s.size = omega (arith, length-elements) in
      let b : j < s.size = omega (arith, length-elements) in
      let same = sym (at_elements i a) ∙ e ∙ at_elements j b in
      sym (c.back i a) ∙ ap (sparse_at s) same ∙ c.back j b)

  -- The iteration from `begin()` to `end()` visits exactly the contained numbers.
  pub member-elements : (j : ℕ) → member j (elements s) ≡ contains s j
  member-elements j =
      Bool-ext (member j (elements s)) (contains s j)
        (λ h.
          let (i, below, e) = position j (elements s) h in
          let inside : i < s.size = omega (arith, length-elements) in
          let same : dense_at s i ≡ j = sym (at_elements i inside) ∙ e in
          rw same at (contains-dense_at c i inside))
        (λ h.
          let (inside, same) = placed h in
          rw (at_elements (sparse_at s j) inside, same) at
            (member-at (elements s) (sparse_at s j) (omega (arith, length-elements))))
    where
      placed : contains s j ≡ true → (sparse_at s j < s.size) × (dense_at s (sparse_at s j) ≡ j)
      placed h = unfold contains in ground arith

  max_loop-ge :
      (m j : ℕ) (xs : List ℕ) → (m ≤ max_loop m xs) × (member j xs ≡ true → j ≤ max_loop m xs)
  unfolding max_loop
  max_loop-ge m j [] = ground arith
  max_loop-ge m j (x ∷ xs) = ground (arith, max_loop-ge (if ltb m x then x else m) j xs)

  -- `max()` bounds the set.
  pub le-max : (j : ℕ) → contains s j ≡ true → j ≤ max s
  unfolding max
  le-max j h = (max_loop-ge 0 j (elements s)).1 (member-elements j ∙ h)

  max_loop-lt :
      (m n : ℕ) (xs : List ℕ) → m < n → ((j : ℕ) → member j xs ≡ true → j < n) → max_loop m xs < n
  unfolding max_loop
  max_loop-lt m n [] h all = h
  max_loop-lt m n (x ∷ xs) h all =
      max_loop-lt (if ltb m x then x else m) n xs (ground (arith, all x))
        (λ j l. ground (arith, all j))

  pub max-lt : 0 < s.domain_size → max s < s.domain_size
  unfolding max
  max-lt h =
      max_loop-lt 0 s.domain_size (elements s) h
        (λ j l. ground (arith, member-elements j, bounded j))
    where
      bounded : (j : ℕ) → contains s j ≡ true → j < s.domain_size
      bounded j e = unfold contains in ground arith

  -- The invariant implies the assertion that the code makes.
  pub IsConsistent-consistent : consistent s ≡ true
  unfolding consistent
  IsConsistent-consistent = ground (arith, max-lt, c.size-le, c.dense_room, c.sparse_room)

  dense_at-le-max : (i : ℕ) → i < s.size → dense_at s i ≤ max s
  dense_at-le-max i h = le-max (dense_at s i) (contains-dense_at c i h)

  size-le-max : s.size ≤ suc (max s)
  size-le-max =
      pigeonhole s.size (suc (max s)) (dense_at s) (λ i h. omega (arith, dense_at-le-max i h))
        (λ i j hi hj e. ground (arith, c.back i, c.back j))

  -- `truncate` keeps the invariant, also where it lowers the domain below the vectors' lengths.
  pub truncate-IsConsistent : IsConsistent (truncate s)
  unfolding truncate
  truncate-IsConsistent = record {
    size-le = ground (arith, size-le-max);
    dense_room = ground (arith, max-lt, c.dense_room, c.size-le);
    sparse_room = ground (arith, max-lt, c.sparse_room, c.size-le);
    in_domain = λ i h. ground (arith, dense_at-le-max i);
    back = c.back;
  }

  -- `truncate` keeps the numbers.
  pub contains-truncate : (j : ℕ) → contains (truncate s) j ≡ contains s j
  contains-truncate j =
      Bool-ext (contains (truncate s) j) (contains s j)
        (λ h. unfold truncate contains in ground (arith, c.size-le, max-lt))
        (λ h. let bound = le-max j h in unfold truncate contains in ground arith)

  pub intersects_with-member :
      (xs : List ℕ)
      → (intersects_with s xs ≡ true) ↔ ((j : ℕ) × (member j xs ≡ true) × (contains s j ≡ true))
  unfolding intersects_with
  intersects_with-member [] = (λ h. cc, λ (j, h, _). cc)
  intersects_with-member (x ∷ xs) = (
    λ h. elim (Bool-cases (contains s x)) [
      | inl here ↦ (x, ground arith, here)
      | inr there ↦
          let (j, l, e) = (intersects_with-member xs).0 (ground arith) in (j, ground arith, e)
    ],
    λ (j, l, e). elim (Bool-cases (x == j)) [
      | inl here ↦ ground (arith, ap (contains s) ((==_iff x j).0 here))
      | inr there ↦ ground (arith, (intersects_with-member xs).1 (j, ground arith, e))
    ],
  )

disjoint_loop_iff :
    (xs : List ℕ) (b : SparseSet)
    → (disjoint_loop xs b ≡ true) ↔ ((j : ℕ) → member j xs ≡ true → contains b j ≡ true → ⊥)
unfolding disjoint_loop
disjoint_loop_iff [] b = (λ h j l e. cc, λ h. refl)
disjoint_loop_iff (x ∷ xs) b = (
  λ h j l e. elim (Bool-cases (x == j)) [
    | inl here ↦ ground (arith, ap (contains b) ((==_iff x j).0 here))
    | inr there ↦ (disjoint_loop_iff xs b).0 (ground arith) j (ground arith) e
  ],
  λ h. ground (arith, h x, (disjoint_loop_iff xs b).1 (λ j l e. h j (ground arith) e)),
)

-- For two consistent sets, `are_disjoint` is true exactly when no number is in both, whichever of
-- them is walked.
pub are_disjoint_iff :
    {a b : SparseSet}
    → IsConsistent a
    → IsConsistent b
    → (are_disjoint a b ≡ true) ↔ ((j : ℕ) → contains a j ≡ true → contains b j ≡ true → ⊥)
unfolding are_disjoint
are_disjoint_iff {a} {b} c d = elim (Bool-cases (ltb b.size a.size)) [
  | inl swap ↦ rw swap (
    λ h j p q. (disjoint_loop_iff (elements b) a).0 h j (member-elements d j ∙ q) p,
    λ h. (disjoint_loop_iff (elements b) a).1 (λ j l e. h j e (sym (member-elements d j) ∙ l)),
  )
  | inr stay ↦ rw stay (
    λ h j p q. (disjoint_loop_iff (elements a) b).0 h j (member-elements c j ∙ p) q,
    λ h. (disjoint_loop_iff (elements a) b).1 (λ j l e. h j (sym (member-elements c j) ∙ l) e),
  )
]
