-- ===== src/Delta/Remove.antt =====
-- src/nfa/delta.cc: `Delta::remove` removes one transition and drops a symbol post that becomes
-- empty; it throws where the symbol is not used in the post of the source.
use mata.Common.{
  ℕ, ◌≤◌, ◌<◌, ◌≡◌, refl, ◌∙◌, ◌⊎◌, inl, inr, ltb→lt, leb→le, true, false, not, ◌&&◌, List, [], ◌∷◌,
  Option, none, some, arith, ltb, leb, ◌==◌, if◌then◌else◌, ==_iff, Bool-cases, Option-cases,
  length, get_or, set, back?, back?-none, get_or-set, get_or-ge,
}
use mata.OrdVector.{ℕ_ranked, IsSorted, member, erase, lower_bound, points_to}
use mata.OrdVector.Order.{erase-IsSorted}
use mata.OrdVector.Lookup.{lookup-erase, member-erase}
use mata.OrdVector.Bounds.{past_back}
use mata.Delta.{
  SymbolPost_ranked, StatePost, Delta, update_targets, has_targets, remove_from_post, remove,
}
use mata.Delta.Post.{targets_of, HasTargets, IsPost, update-IsSorted, targets_of-update}
use mata.Delta.Add.{find-cases}
use mata.Delta.Relation.{has, IsDelta, targets_of-cases}

module _ (a t : ℕ) where
  abbrev shrink : List ℕ → List ℕ
  shrink targets = (erase t targets).0

  -- The post whose found symbol post has lost the target.
  abbrev shrunk : StatePost → StatePost
  shrunk post = update_targets shrink (lower_bound a post) post

  abbrev remaining : StatePost → StatePost
  remaining post =
      if has_targets (lower_bound a post) (shrunk post)
      then shrunk post
      else (erase a (shrunk post)).0

  remove_from_post-cases :
      (post : StatePost)
      → IsSorted post
      → (member a post ≡ false) × (remove_from_post a t post ≡ none)
        ⊎ (member a post ≡ true)
          × (points_to post (lower_bound a post) a ≡ true)
          × (remove_from_post a t post ≡ some (remaining post))
  unfolding remove_from_post
  remove_from_post-cases post s = elim (Option-cases (back? post)) [
    | inl e ↦ inl (rw (back?-none post e) refl, rw (e, remove_from_post) refl)
    | inr (last, e) ↦ elim (Bool-cases (ltb last.symbol a)) [
      | inl past ↦ inl (
        (past_back a post last s e (ltb→lt last.symbol a past)).0,
        rw (e, remove_from_post, past) refl,
      )
      | inr within ↦ elim (find-cases a post s) [
        | inl (f, m) ↦ inl (m, rw (e, remove_from_post, within, f) refl)
        | inr (f, at, m) ↦ inr (
          m,
          at,
          elim (Bool-cases (has_targets (lower_bound a post) (shrunk post))) [
            | inl some_left ↦ rw (e, remove_from_post, within, f, some_left) refl
            | inr none_left ↦ rw (e, remove_from_post, within, f, none_left) refl
          ],
        )
      ]
    ]
  ]

  -- Whether the found symbol post still has targets.
  has_targets-shrunk :
      (post : StatePost)
      → points_to post (lower_bound a post) a ≡ true
      → IsSorted post
      → has_targets (lower_bound a post) (shrunk post) ≡ false
      → shrink (targets_of a post) ≡ []
  unfolding has_targets update_targets lower_bound points_to
  has_targets-shrunk [] at s e = cc
  has_targets-shrunk (p ∷ ps) at s e = ground (arith, has_targets-shrunk ps)

  HasTargets-shrunk :
      (post : StatePost)
      → HasTargets post
      → has_targets (lower_bound a post) (shrunk post) ≡ true
      → HasTargets (shrunk post)
  unfolding has_targets update_targets lower_bound
  HasTargets-shrunk [] h e = tt
  HasTargets-shrunk (p ∷ ps) h e = ground (arith, HasTargets-shrunk ps, erase-IsSorted t p.targets)

  HasTargets-erased :
      (post : StatePost)
      → IsSorted post
      → points_to post (lower_bound a post) a ≡ true
      → HasTargets post
      → HasTargets (erase a (shrunk post)).0
  unfolding update_targets lower_bound erase points_to
  HasTargets-erased [] s at h = tt
  HasTargets-erased (p ∷ ps) s at h = ground (arith, HasTargets-erased ps)

  targets_of-remaining :
      (post : StatePost) (j : ℕ)
      → IsSorted post
      → points_to post (lower_bound a post) a ≡ true
      → targets_of j (remaining post)
        ≡ (if a == j then shrink (targets_of a post) else targets_of j post)
  targets_of-remaining post j s at =
      elim (Bool-cases (has_targets (lower_bound a post) (shrunk post))) [
        | inl some_left ↦ rw some_left (targets_of-update shrink a j post s at)
        | inr none_left ↦ rw none_left (
            ground (
              arith,
              lookup-erase j a (shrunk post) (update-IsSorted shrink (lower_bound a post) post s),
              has_targets-shrunk post,
              targets_of-update shrink a j post,
            ))
      ]

  remaining-IsPost :
      (post : StatePost)
      → IsPost post
      → points_to post (lower_bound a post) a ≡ true
      → IsPost (remaining post)
  remaining-IsPost post h at =
      let sorted = update-IsSorted shrink (lower_bound a post) post h.sorted in
      elim (Bool-cases (has_targets (lower_bound a post) (shrunk post))) [
        | inl some_left ↦
            rw some_left
              (record { sorted = sorted; filled = HasTargets-shrunk post h.filled some_left })
        | inr none_left ↦ rw none_left (record {
          sorted = erase-IsSorted a (shrunk post) sorted;
          filled = HasTargets-erased post h.sorted at h.filled;
        })
      ]

-- What `remove` may do to the relation of `delta`.
pub data Removal (delta : Delta) (q a t : ℕ) : Option Delta → Type 0 where
  -- it throws: the source is allocated and has no transition under the symbol
  throws : q < length delta → ((r : ℕ) → has delta q a r ≡ false) → Removal delta q a t none
  -- the transition is gone, all others stay
  removes :
      {delta' : Delta}
      → IsDelta delta'
      → ((j b r : ℕ) → has delta' j b r ≡ (has delta j b r && not (q == j && a == b && t == r)))
      → Removal delta q a t (some delta')

module _ (delta : Delta) (q a t : ℕ) (d : IsDelta delta) where
  abbrev post : StatePost
  post = get_or delta q []

  removes_set :
      q < length delta
      → points_to post (lower_bound a post) a ≡ true
      → Removal delta q a t (some (set delta q (remaining a t post)))
  removes_set inside at =
      removes
        (record {
          posts = λ j.
              rw (get_or-set delta q j (remaining a t post) [] inside) (elim (Bool-cases (q == j)) [
                | inl here ↦ rw here (remaining-IsPost a t post (d.posts q) at)
                | inr there ↦ rw there (d.posts j)
              ]);
        })
        (λ j b r. gone j b r)
    where
      gone :
          (j b r : ℕ)
          → has (set delta q (remaining a t post)) j b r
            ≡ (has delta j b r && not (q == j && a == b && t == r))
      gone j b r = elim (Bool-cases (q == j)) [
        | inr there ↦ rw (get_or-set delta q j (remaining a t post) [] inside, there) (ground arith)
        | inl here ↦
            rw
              (
                get_or-set delta q j (remaining a t post) [] inside,
                here,
                ← (==_iff q j).0 here,
                targets_of-remaining a t post b (d.posts q).sorted at,
              )
              (elim (Bool-cases (a == b)) [
                | inr other ↦ rw other (ground arith)
                | inl same ↦
                    rw (same, ← (==_iff a b).0 same)
                      (elim (targets_of-cases a post (d.posts q).filled) [
                        | inl (old, s, f) ↦ member-erase r t (targets_of a post) s ∙ flipped r
                        | inr (new, none_left) ↦ rw none_left (unfold erase in refl)
                      ])
              ])
      ]
        where
          flipped :
              (r : ℕ)
              → (member r (targets_of a post) && not (r == t))
                ≡ (member r (targets_of a post) && not (t == r))
          flipped r = ground arith

-- On a well-formed relation, `remove` throws only where the source is allocated and has no
-- transition under the symbol; where it does not throw, exactly the given transition is gone and
-- the relation is well-formed.
pub remove-Removal :
    (delta : Delta) (q a t : ℕ) → IsDelta delta → Removal delta q a t (remove q a t delta)
unfolding remove
remove-Removal delta q a t d = elim (Bool-cases (leb (length delta) q)) [
  | inl out ↦ rw out (removes d (λ j b r. untouched j b r (leb→le _ _ out)))
  | inr inside ↦ elim (remove_from_post-cases a t (get_or delta q []) (d.posts q).sorted) [
    | inl (m, e) ↦
        rw (inside, e, remove)
          (throws (ground arith) (λ r.
            elim (targets_of-cases a (get_or delta q []) (d.posts q).filled) [
              | inl (old, _, _) ↦ cc
              | inr (new, none_left) ↦ rw none_left refl
            ]))
    | inr (m, at, e) ↦ rw (inside, e, remove) (removes_set delta q a t d (ground arith) at)
  ]
]
  where
    untouched :
        (j b r : ℕ)
        → length delta ≤ q
        → has delta j b r ≡ (has delta j b r && not (q == j && a == b && t == r))
    untouched j b r out = elim (Bool-cases (q == j)) [
      | inl here ↦ rw (← (==_iff q j).0 here, get_or-ge delta q [] out) refl
      | inr there ↦ rw there (ground arith)
    ]
