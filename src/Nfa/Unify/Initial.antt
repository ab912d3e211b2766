-- ===== src/Nfa/Unify/Initial.antt =====
-- src/nfa/nfa.cc: `unify_initial` keeps the language.
use mata.Common.{
  ℕ, ◌≡◌, refl, inl, inr, Bool, false, ◌&&◌, ◌||◌, List, [], ◌∷◌, arith, ◌==◌, if◌then◌else◌,
  Bool-cases, get_or,
}
use mata.OrdVector.{ℕ_ranked, IsSorted, member}
use mata.OrdVector.Lookup.{lookup-Above}
use mata.SparseSet.{SparseSet, contains, elements}
use mata.SparseSet
use mata.SparseSet.Invariant.{IsConsistent}
use mata.SparseSet.Insert.{contains-insert, insert-IsConsistent}
use mata.Delta.{Delta, StatePost, SymbolPost_ranked, add, state_post}
use mata.Delta.Post.{targets_of}
use mata.Delta.Relation.{has, IsDelta, has-add, add-IsDelta}
use mata.Nfa.Unify.{copy_targets, copy_post, unify_initial_loop}

module _ (s : ℕ) where
  has-copy_targets :
      (a : ℕ) (ts : List ℕ) (d : Delta)
      → IsDelta d
      → IsDelta (copy_targets s a ts d)
        × ((j b r : ℕ)
            → has (copy_targets s a ts d) j b r ≡ (s == j && a == b && member r ts || has d j b r))
  unfolding copy_targets
  has-copy_targets a [] d h = (h, λ j b r. ground arith)
  has-copy_targets a (t ∷ ts) d h =
      let (h', e) = has-copy_targets a ts (add s a t d) (add-IsDelta d s a t h) in
      (h', λ j b r. ground (arith, e j b r, has-add d s a t j b r h))

  has-copy_post :
      (post : StatePost) (d : Delta)
      → IsSorted post
      → IsDelta d
      → IsDelta (copy_post s post d)
        × ((j b r : ℕ)
            → has (copy_post s post d) j b r
              ≡ (s == j && member r (targets_of b post) || has d j b r))
  unfolding copy_post
  has-copy_post [] d o h = (h, λ j b r. ground arith)
  has-copy_post (p ∷ ps) d o h =
      let (h1, e1) = has-copy_targets p.symbol p.targets d h in
      let (h2, e2) = has-copy_post ps (copy_targets s p.symbol p.targets d) o.1 h1 in
      (h2, λ j b r. ground (arith, e1 j b r, e2 j b r, lookup-Above b p.symbol ps))

  abbrev pub any_has : Delta → List ℕ → ℕ → ℕ → Bool
  any_has d [] b r = false
  any_has d (i ∷ is) b r = has d i b r || any_has d is b r

  -- None of the states is the new one.
  abbrev pub Others : List ℕ → Type 0
  Others [] = Unit
  Others (i ∷ is) = ((s == i) ≡ false) × Others is

  any_has-same :
      (d d' : Delta) (is : List ℕ) (b r : ℕ)
      → ((i : ℕ) → (s == i) ≡ false → has d' i b r ≡ has d i b r)
      → Others is
      → any_has d' is b r ≡ any_has d is b r
  any_has-same d d' [] b r same o = refl
  any_has-same d d' (i ∷ is) b r same (o, os) = cc (same i o, any_has-same d d' is b r same os)

  abbrev pub any_final : SparseSet → List ℕ → Bool
  any_final final [] = false
  any_final final (i ∷ is) = contains final i || any_final final is

  any_final-same :
      (f f' : SparseSet) (is : List ℕ)
      → ((i : ℕ) → (s == i) ≡ false → contains f' i ≡ contains f i)
      → Others is
      → any_final f' is ≡ any_final f is
  any_final-same f f' [] same o = refl
  any_final-same f f' (i ∷ is) same (o, os) = cc (same i o, any_final-same f f' is same os)

  -- The final states after one round.
  abbrev next_final : ℕ → SparseSet → SparseSet
  next_final i f = if contains f i then SparseSet.insert s f else f

  contains-next_final :
      (i : ℕ) (f : SparseSet)
      → IsConsistent f
      → IsConsistent (next_final i f)
        × ((j : ℕ) → contains (next_final i f) j ≡ (s == j && contains f i || contains f j))
  contains-next_final i f c = elim (Bool-cases (contains f i)) [
    | inl there ↦ rw there (insert-IsConsistent c s, λ j. ground (arith, contains-insert c s j))
    | inr other ↦ rw other (c, λ j. ground arith)
  ]

  pub has-unify_initial_loop :
      (is : List ℕ) (d : Delta) (f : SparseSet)
      → IsDelta d
      → IsConsistent f
      → Others is
      → ((j b r : ℕ)
          → has (unify_initial_loop s is d f).0 j b r ≡ (s == j && any_has d is b r || has d j b r))
        × ((j : ℕ)
            → contains (unify_initial_loop s is d f).1 j
              ≡ (s == j && any_final f is || contains f j))
  unfolding unify_initial_loop state_post
  has-unify_initial_loop [] d f h c o = (λ j b r. ground arith, λ j. ground arith)
  has-unify_initial_loop (i ∷ is) d f h c (o, os) =
      let (h', e) = has-copy_post (get_or d i []) d (h.posts i).sorted h in
      let (c', k) = contains-next_final i f c in
      let (rest, finals) =
        has-unify_initial_loop is (copy_post s (get_or d i []) d) (next_final i f) h' c' os in
      (
        λ j b r. ground (
          arith,
          rest j b r,
          e j b r,
          any_has-same d (copy_post s (get_or d i []) d) is b r (λ q m. ground (arith, e q b r)) os,
        ),
        λ j. ground (
          arith,
          finals j,
          k j,
          any_final-same f (next_final i f) is (λ q m. ground (arith, k q)) os,
        ),
      )
