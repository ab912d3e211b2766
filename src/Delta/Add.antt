-- ===== src/Delta/Add.antt =====
-- src/nfa/delta.cc: `Delta::add` adds one transition, through any of its branches.
use mata.Common.{
  ℕ, ◌≡◌, refl, ap, inl, inr, ◌⊎◌, true, false, List, [], ◌∷◌, none, some, arith, ltb, ◌==◌,
  if◌then◌else◌, ltb→lt, Bool-cases, Option-cases, back?, back?-none,
}
use mata.OrdVector.{ℕ_ranked, IsSorted, member, insert, lower_bound, points_to, find}
use mata.OrdVector.Order.{member-Above, insert-IsSorted}
use mata.OrdVector.Lookup.{lookup-insert}
use mata.OrdVector.Bounds.{past_back}
use mata.Delta.{SymbolPost, SymbolPost_ranked, StatePost, update_targets, add_to_post}
use mata.Delta.Post.{
  targets_of, Filled, HasTargets, IsPost, update-IsSorted, update-HasTargets, targets_of-update,
}

-- What `find` returns on a sorted post.
pub find-cases :
    (a : ℕ) (post : StatePost)
    → IsSorted post
    → (find a post ≡ none) × (member a post ≡ false)
      ⊎ (find a post ≡ some (lower_bound a post))
        × (points_to post (lower_bound a post) a ≡ true)
        × (member a post ≡ true)
unfolding find
find-cases a [] s = ground arith
find-cases a (p ∷ ps) s = ground (arith, find-cases a ps, member-Above a p.symbol ps)

module _ (a : ℕ) (fresh : List ℕ) (grow : List ℕ → List ℕ) where
  abbrev fresh_post : SymbolPost
  fresh_post = record { symbol = a; targets = fresh }

  -- The three branches are two cases: the symbol is new, or its targets grow.
  add_to_post-cases :
      (post : StatePost)
      → IsSorted post
      → (member a post ≡ false) × (add_to_post a fresh grow post ≡ (insert fresh_post post).vec)
        ⊎ (member a post ≡ true)
          × (points_to post (lower_bound a post) a ≡ true)
          × (add_to_post a fresh grow post ≡ update_targets grow (lower_bound a post) post)
  unfolding add_to_post
  add_to_post-cases post s = elim (Option-cases (back? post)) [
    | inl e ↦ inl (rw (back?-none post e) refl, rw (e, add_to_post) refl)
    | inr (last, e) ↦ elim (Bool-cases (ltb last.symbol a)) [
      | inl past ↦ inl (
        (past_back a post last s e (ltb→lt last.symbol a past)).0,
        rw (e, add_to_post, past) refl,
      )
      | inr within ↦ elim (find-cases a post s) [
        | inl (f, m) ↦ inl (m, rw (e, add_to_post, within, f) refl)
        | inr (f, at, m) ↦ inr (m, at, rw (e, add_to_post, within, f) refl)
      ]
    ]
  ]

  HasTargets-insert :
      (post : StatePost)
      → IsSorted fresh
      → Filled fresh
      → HasTargets post
      → HasTargets (insert fresh_post post).vec
  unfolding insert
  HasTargets-insert [] s f h = ground arith
  HasTargets-insert (p ∷ ps) s f h = ground (arith, HasTargets-insert ps)

  module _ (post : StatePost) (h : IsPost post) where
    -- The targets under each symbol afterwards.
    pub targets_of-add_to_post :
        (j : ℕ)
        → targets_of j (add_to_post a fresh grow post) ≡ (
            if a == j
            then (if member a post then grow (targets_of a post) else fresh)
            else targets_of j post)
    targets_of-add_to_post j = elim (add_to_post-cases post h.sorted) [
      | inl (new, e) ↦ rw (e, new) (ground (arith, lookup-insert j fresh_post post, same))
      | inr (old, at, e) ↦ rw (e, old) (targets_of-update grow a j post h.sorted at)
    ]
      where
        same : a ≡ j → member a post ≡ member j post
        same e = ap (λ (k : ℕ). member k post) e

    pub add_to_post-IsPost :
        IsSorted fresh
        → Filled fresh
        → ((targets : List ℕ)
            → IsSorted targets
            → Filled targets
            → IsSorted (grow targets) × Filled (grow targets))
        → IsPost (add_to_post a fresh grow post)
    add_to_post-IsPost s f keep = elim (add_to_post-cases post h.sorted) [
      | inl (new, e) ↦ rw e (record {
        sorted = insert-IsSorted fresh_post post h.sorted;
        filled = HasTargets-insert post s f h.filled;
      })
      | inr (old, at, e) ↦ rw e (record {
        sorted = update-IsSorted grow (lower_bound a post) post h.sorted;
        filled = update-HasTargets grow keep (lower_bound a post) post h.filled;
      })
    ]
