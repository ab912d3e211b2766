-- ===== src/Delta/Iterate/Equality.antt =====
-- src/nfa/delta.cc: `Delta::operator==` decides whether two relations have the same transitions, since
-- the order of the posts makes what the iterator visits unique.
use mata.Common.{
  ℕ, suc, ◌+◌, ◌≤◌, ◌<◌, ◌≡◌, refl, sym, ap, ◌∙◌, ◌↔◌, inl, inr, Bool, true, some, List, [], ◌∷◌,
  arith, ltb, ==_refl, Bool-cases, get_or,
}
use mata.OrdVector.{ℕ_ranked, member, IsSorted}
use mata.OrdVector.Lookup.{lookup-Above}
use mata.OrdVector.Order.{member-Above}
use mata.Delta.{SymbolPost, SymbolPost_ranked, StatePost, Delta}
use mata.Delta.Post.{targets_of, Filled, HasTargets, IsPost}
use mata.Delta.Relation.{has, IsDelta}
use mata.Delta.Queries.{listed, num_of_transitions}
use mata.Delta.Iterate.{begin, transitions, delta_eq}
use mata.Delta.Iterate.Compare.{same_transitions, same_transitions_iff, eq_loop_lem}
use mata.Delta.Iterate.Visits.{of_post, of_posts, transitions-eq-of_posts, listed-eq-has}

-- A sorted vector of numbers is determined by its members.
sorted_ext :
    (xs ys : List ℕ) → IsSorted xs → IsSorted ys → ((k : ℕ) → member k xs ≡ member k ys) → xs ≡ ys
sorted_ext [] [] s t h = refl
sorted_ext [] (y ∷ ys) s t h = cc (h y, ==_refl y)
sorted_ext (x ∷ xs) [] s t h = cc (h x, ==_refl x)
sorted_ext (x ∷ xs) (y ∷ ys) s t h =
    let same : x ≡ y = ground (arith, h x, h y, member-Above x y ys t.0, member-Above y x xs s.0) in
    cc (
      same,
      sorted_ext xs ys s.1 t.1
          (λ k. ground (arith, h k, member-Above k x xs s.0, member-Above k y ys t.0)),
    )

some_member : (ts : List ℕ) → Filled ts → (r : ℕ) × (member r ts ≡ true)
some_member [] f = elim f [ ]
some_member (t ∷ ts) f = (t, ground (arith, ==_refl t))

-- The targets of a post under the symbol of its first symbol post.
targets_of-head : (p : SymbolPost) (ps : StatePost) → targets_of p.symbol (p ∷ ps) ≡ p.targets
targets_of-head p ps = rw (targets_of, ==_refl p.symbol) refl

-- Below its first symbol a post has no targets.
targets_of-below :
    (a : ℕ) (p : SymbolPost) (ps : StatePost)
    → IsSorted (p ∷ ps)
    → a < p.symbol
    → targets_of a (p ∷ ps) ≡ []
targets_of-below a p ps o lt = ground (arith, lookup-Above a p.symbol ps o.0)

abbrev SameTargets : StatePost → StatePost → Type 0
SameTargets post post' = (a r : ℕ) → member r (targets_of a post) ≡ member r (targets_of a post')

-- Posts with the same targets do not start at different symbols.
head_le :
    (p p' : SymbolPost) (ps ps' : StatePost)
    → IsSorted (p' ∷ ps')
    → Filled p.targets
    → SameTargets (p ∷ ps) (p' ∷ ps')
    → p'.symbol ≤ p.symbol
head_le p p' ps ps' o f h = elim (Bool-cases (ltb p.symbol p'.symbol)) [
  | inl below ↦
      let (r, m) = some_member p.targets f in
      absurd (
        cc (
          m,
          h p.symbol r,
          ap (member r) (targets_of-head p ps),
          ap (member r) (targets_of-below p.symbol p' ps' o (ground arith)),
        ))
  | inr above ↦ ground arith
]

-- A sorted post with filled targets is determined by its targets.
of_post_ext :
    (q : ℕ) (post post' : StatePost)
    → IsSorted post
    → IsSorted post'
    → HasTargets post
    → HasTargets post'
    → SameTargets post post'
    → of_post q post ≡ of_post q post'
of_post_ext q [] [] o o' f f' h = refl
of_post_ext q [] (p ∷ ps) o o' f f' h =
    let (r, m) = some_member p.targets f'.1 in
    cc (m, h p.symbol r, ap (member r) (targets_of-head p ps))
of_post_ext q (p ∷ ps) [] o o' f f' h =
    let (r, m) = some_member p.targets f.1 in
    cc (m, h p.symbol r, ap (member r) (targets_of-head p ps))
of_post_ext q (p ∷ ps) (p' ∷ ps') o o' f f' h =
    let same : p.symbol ≡ p'.symbol =
      omega
        (arith, head_le p p' ps ps' o' f.1 h, head_le p' p ps' ps o f'.1 (λ a r. sym (h a r))) in
    let targets : p.targets ≡ p'.targets = sorted_ext p.targets p'.targets f.0 f'.0 (heads same) in
    cc (same, targets, of_post_ext q ps ps' o.1 o'.1 f.2 f'.2 (tails same))
  where
    heads : p.symbol ≡ p'.symbol → (k : ℕ) → member k p.targets ≡ member k p'.targets
    heads same k = cc (
      h p.symbol k,
      ap (member k) (targets_of-head p ps),
      ap (member k) (targets_of-head p' ps'),
      ap (λ (a : ℕ). member k (targets_of a (p' ∷ ps'))) same,
    )

    tails : p.symbol ≡ p'.symbol → SameTargets ps ps'
    tails same a r =
        ground (arith, h a r, lookup-Above a p.symbol ps o.0, lookup-Above a p'.symbol ps' o'.0)

of_posts_ext :
    (q : ℕ) (d e : Delta)
    → ((i : ℕ) → IsPost (get_or d i []))
    → ((i : ℕ) → IsPost (get_or e i []))
    → ((i : ℕ) → SameTargets (get_or d i []) (get_or e i []))
    → of_posts q d ≡ of_posts q e
of_posts_ext q [] [] v w h = refl
of_posts_ext q [] (post ∷ posts) v w h = cc (
  of_post_ext q [] post (v 0).sorted (w 0).sorted (v 0).filled (w 0).filled (h 0),
  of_posts_ext (suc q) [] posts (λ i. v (suc i)) (λ i. w (suc i)) (λ i. h (suc i)),
)
of_posts_ext q (post ∷ posts) [] v w h = cc (
  of_post_ext q post [] (v 0).sorted (w 0).sorted (v 0).filled (w 0).filled (h 0),
  of_posts_ext (suc q) posts [] (λ i. v (suc i)) (λ i. w (suc i)) (λ i. h (suc i)),
)
of_posts_ext q (post ∷ posts) (post' ∷ posts') v w h = cc (
  of_post_ext q post post' (v 0).sorted (w 0).sorted (v 0).filled (w 0).filled (h 0),
  of_posts_ext (suc q) posts posts' (λ i. v (suc i)) (λ i. w (suc i)) (λ i. h (suc i)),
)

-- For two well-formed relations, the loop of `operator==` over two iterators returns within as
-- many rounds as `this` has transitions, and one, and its result is true exactly when both have
-- the same transitions, whatever number of posts they have allocated.
pub delta_eq_iff :
    (this other : Delta)
    → IsDelta this
    → IsDelta other
    → (result : Bool) × (delta_eq this other ≡ some result)
      × ((result ≡ true) ↔ ((q a r : ℕ) → has this q a r ≡ has other q a r))
unfolding delta_eq
delta_eq_iff this other v w =
    let (f, g) = same_transitions_iff (of_posts 0 this) (of_posts 0 other) in
    (
      same_transitions (of_posts 0 this) (of_posts 0 other),
      eq_loop_lem this other (num_of_transitions this + 1) (num_of_transitions other + 1)
          (begin this) (begin other) (of_posts 0 this) (of_posts 0 other)
          (unfold transitions in transitions-eq-of_posts this v)
          (unfold transitions in transitions-eq-of_posts other w),
      (
        λ e q a r.
            sym (listed-eq-has this q a r v)
            ∙ ap (listed q a r) (f e)
            ∙ listed-eq-has other q a r w,
        λ h. g (of_posts_ext 0 this other v.posts w.posts (λ i a r. h i a r)),
      ),
    )
