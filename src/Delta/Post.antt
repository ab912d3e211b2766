-- ===== src/Delta/Post.antt =====
-- src/nfa/delta.cc: the posts of one state, as the map from symbols to sets of targets.
use mata.Common.{
  ℕ, zero, suc, ◌≡◌, ◌&&◌, ◌||◌, refl, inl, inr, true, List, [], ◌∷◌, none, some, arith, ltb, ◌==◌,
  if◌then◌else◌, ltb→lt, Bool-cases, Option-cases, back?, back?-none,
}
use mata.OrdVector.Lookup.{lookup-Above}
use mata.OrdVector.{ℕ_ranked, member, Above, IsSorted, lookup, insert, lower_bound, points_to}
use mata.OrdVector.Bounds.{insert_past_back, insert_hint-lower_bound}
use mata.Delta.{SymbolPost, SymbolPost_ranked, StatePost, insert_state, update_targets}

-- The largest target goes to the back, any other to its place: both as a plain insertion.
pub insert_state-eq-insert :
    (s : ℕ) (targets : List ℕ) → IsSorted targets → insert_state s targets ≡ (insert s targets).vec
unfolding insert_state
insert_state-eq-insert s targets sorted = elim (Option-cases (back? targets)) [
  | inl e ↦ rw (back?-none targets e) (unfold insert in refl)
  | inr (last, e) ↦ elim (Bool-cases (ltb last s)) [
    | inl past ↦
        rw (e, insert_state, past, insert_past_back s targets last sorted e (ltb→lt last s past))
    | inr within ↦ elim (Bool-cases (points_to targets (lower_bound s targets) s)) [
      | inl there ↦ rw (e, insert_state, within, there) (insert_there there)
      | inr new ↦ rw (e, insert_state, within, new) (insert_hint-lower_bound s targets sorted new)
    ]
  ]
]
  where
    insert_there :
        points_to targets (lower_bound s targets) s ≡ true → targets ≡ (insert s targets).vec
    insert_there there = unfold insert in rw there

-- The targets under a symbol, none where the symbol is not used.
abbrev pub targets_of : ℕ → StatePost → List ℕ
targets_of symbol post = elim (lookup symbol post) [ none ↦ [] | some p ↦ p.targets ]

abbrev pub Filled : List ℕ → Type 0
Filled [] = ⊥
Filled (x ∷ xs) = Unit

-- Every symbol post has targets, in order.
abbrev pub HasTargets : StatePost → Type 0
HasTargets [] = Unit
HasTargets (p ∷ ps) = IsSorted p.targets × Filled p.targets × HasTargets ps

pub record IsPost (post : StatePost) : Type 0 where
  pub sorted : IsSorted post
  pub filled : HasTargets post

module _ (f : List ℕ → List ℕ) where
  Above-update : (k it : ℕ) (post : StatePost) → Above k post → Above k (update_targets f it post)
  unfolding update_targets
  Above-update k it [] a = tt
  Above-update k zero (p ∷ ps) a = a
  Above-update k (suc it) (p ∷ ps) a = (a.0, Above-update k it ps a.1)

  pub update-IsSorted :
      (it : ℕ) (post : StatePost) → IsSorted post → IsSorted (update_targets f it post)
  unfolding update_targets
  update-IsSorted it [] s = tt
  update-IsSorted zero (p ∷ ps) s = s
  update-IsSorted (suc it) (p ∷ ps) s = (Above-update p.symbol it ps s.0, update-IsSorted it ps s.1)

  pub update-HasTargets :
      ((targets : List ℕ)
        → IsSorted targets
        → Filled targets
        → IsSorted (f targets) × Filled (f targets))
      → (it : ℕ) (post : StatePost) → HasTargets post
      → HasTargets (update_targets f it post)
  unfolding update_targets
  update-HasTargets keep it [] h = tt
  update-HasTargets keep zero (p ∷ ps) h = let (a, b) = keep p.targets h.0 h.1 in (a, b, h.2)
  update-HasTargets keep (suc it) (p ∷ ps) h = (h.0, h.1, update-HasTargets keep it ps h.2)

  -- The symbol post at the position that was found gets the new targets; the others stay.
  pub targets_of-update :
      (a j : ℕ) (post : StatePost)
      → IsSorted post
      → points_to post (lower_bound a post) a ≡ true
      → targets_of j (update_targets f (lower_bound a post) post)
        ≡ (if a == j then f (targets_of a post) else targets_of j post)
  unfolding update_targets lower_bound points_to
  targets_of-update a j [] s e = cc
  targets_of-update a j (p ∷ ps) s e = ground (arith, targets_of-update a j ps)

-- The targets of a symbol in a sorted post are those of its first symbol post or of the others.
pub member-targets_of :
    (a r : ℕ) (p : SymbolPost) (ps : StatePost)
    → IsSorted (p ∷ ps)
    → member r (targets_of a (p ∷ ps))
      ≡ (p.symbol == a && member r p.targets || member r (targets_of a ps))
member-targets_of a r p ps s = elim (Bool-cases (p.symbol == a)) [
  | inl here ↦
      let gone = lookup-Above a p.symbol ps s.0 (ground arith) in
      rw (here, targets_of, gone) (ground arith)
  | inr there ↦ rw (there, targets_of) refl
]
