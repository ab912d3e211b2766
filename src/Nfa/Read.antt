-- ===== src/Nfa/Read.antt =====
-- src/nfa/nfa.cc and src/nfa/operations.cc: `post`, `read_word` and `is_in_lang` without epsilon
-- transitions decide the language.
use mata.Common.{
  ℕ, zero, suc, ◌≡◌, refl, sym, subst, ◌∙◌, ◌↔◌, ◌⊎◌, inl, inr, true, false, ◌||◌, List, [], ◌∷◌,
  arith, ◌==◌, ==_iff, if◌then◌else◌, Bool-cases, Option-cases, get_or,
}
use mata.OrdVector.{ℕ_ranked, IsSorted, member, lookup}
use mata.OrdVector.Lookup.{find_elem-eq-lookup}
use mata.OrdVector.Merge.{insert_all}
use mata.OrdVector.Merge.Laws.{insert_all_correct}
use mata.OrdVector.Sort.{sort_and_rmdupl_correct}
use mata.SparseSet.{contains, intersects_with, elements}
use mata.SparseSet.Elements.{member-elements, intersects_with-member}
use mata.Delta.{Delta, SymbolPost_ranked}
use mata.Delta.Post.{targets_of}
use mata.Delta.Relation.{has, IsDelta, targets_of-cases}
use mata.Nfa.{
  Nfa, epsilon, closure_none, post_loop, post, read_loop, read_word, is_in_lang, state_set,
  no_transitions, is_empty,
}
use mata.Nfa.Language.{Leads, Reads, Accepts, IsNfa}

-- Some state of the list has a transition to `r`.
abbrev pub Step : Delta → ℕ → List ℕ → ℕ → Type 0
Step delta a states r = (q : ℕ) × (member q states ≡ true) × (has delta q a r ≡ true)

targets_of-IsSorted :
    (delta : Delta) (q a : ℕ) → IsDelta delta → IsSorted (targets_of a (get_or delta q []))
targets_of-IsSorted delta q a d = elim (targets_of-cases a (get_or delta q []) (d.posts q).filled) [
  | inl (m, s, f) ↦ s
  | inr (m, e) ↦ rw e tt
]

-- One round of the loop unites the targets of one state with the result.
post_loop-cons :
    (delta : Delta) (a q : ℕ) (states res : List ℕ)
    → IsDelta delta
    → IsSorted res
    → (res' : List ℕ) × (post_loop delta a (q ∷ states) res ≡ post_loop delta a states res')
      × IsSorted res'
      × ((r : ℕ) → member r res' ≡ (member r res || has delta q a r))
unfolding post_loop
post_loop-cons delta a q states res d s = elim (Option-cases (lookup a (get_or delta q []))) [
  | inl e ↦ (
    res,
    rw (find_elem-eq-lookup a (get_or delta q []) (d.posts q).sorted, e, post_loop) refl,
    s,
    λ r. ground arith,
  )
  | inr (p, e) ↦
      let same : targets_of a (get_or delta q []) ≡ p.targets = ground arith in
      let sorted : IsSorted p.targets =
        subst (λ (ts : List ℕ). IsSorted ts) same (targets_of-IsSorted delta q a d) in
      let (u, v, _) = insert_all_correct res p.targets s sorted in
      (
        (insert_all res p.targets).0,
        rw (find_elem-eq-lookup a (get_or delta q []) (d.posts q).sorted, e, post_loop) refl,
        u,
        λ r. ground (arith, v r),
      )
]

pub post_loop_correct :
    (delta : Delta) (a : ℕ) (states res : List ℕ)
    → IsDelta delta
    → IsSorted res
    → IsSorted (post_loop delta a states res)
      × ((r : ℕ)
          → (member r (post_loop delta a states res) ≡ true)
            ↔ ((member r res ≡ true) ⊎ Step delta a states r))
post_loop_correct delta a [] res d s =
    unfold post_loop in (s, λ r. (inl, λ h. elim h [ inl m ↦ m | inr (q, m, e) ↦ cc ]))
post_loop_correct delta a (q ∷ states) res d s =
    let (res', e, s', one) = post_loop-cons delta a q states res d s in
    let (sorted, rest) = post_loop_correct delta a states res' d s' in
    rw e (
      sorted,
      λ r. (λ h. forth res' r (one r) ((rest r).0 h), λ h. (rest r).1 (back res' r (one r) h)),
    )
  where
    forth :
        (res' : List ℕ) (r : ℕ)
        → member r res' ≡ (member r res || has delta q a r)
        → (member r res' ≡ true) ⊎ Step delta a states r
        → (member r res ≡ true) ⊎ Step delta a (q ∷ states) r
    forth res' r one (inl m) = elim (Bool-cases (member r res)) [
      | inl old ↦ inl old
      | inr new ↦ inr (q, ground arith, ground arith)
    ]
    forth res' r one (inr (p, m, h)) = inr (p, ground arith, h)

    back :
        (res' : List ℕ) (r : ℕ)
        → member r res' ≡ (member r res || has delta q a r)
        → (member r res ≡ true) ⊎ Step delta a (q ∷ states) r
        → (member r res' ≡ true) ⊎ Step delta a states r
    back res' r one (inl m) = inl (ground arith)
    back res' r one (inr (p, m, h)) = elim (Bool-cases (q == p)) [
      | inl here ↦ inl (let e : has delta q a r ≡ true = rw ((==_iff q p).0 here) h in ground arith)
      | inr there ↦ inr (p, ground arith, h)
    ]

pub no_transitions-has :
    (delta : Delta) (q a r : ℕ) → no_transitions delta ≡ true → has delta q a r ≡ false
unfolding no_transitions
no_transitions-has [] q a r h = refl
no_transitions-has ([] ∷ posts) zero a r h = refl
no_transitions-has ([] ∷ posts) (suc q) a r h = no_transitions-has posts q a r h
no_transitions-has ((p ∷ ps) ∷ posts) q a r h = cc

post-none :
    (n : Nfa) (states : List ℕ) (a : ℕ)
    → post n states a closure_none
      ≡ (if no_transitions n.delta then [] else post_loop n.delta a states [])
unfolding post
post-none n states a = elim (Bool-cases (a == epsilon)) [ inl e ↦ rw e refl | inr e ↦ rw e refl ]

module _ (n : Nfa) (h : IsNfa n) where
  -- Without epsilon closure `post` is the set of successors.
  pub post_correct :
      (states : List ℕ) (a : ℕ)
      → IsSorted (post n states a closure_none)
        × ((r : ℕ) → (member r (post n states a closure_none) ≡ true) ↔ Step n.delta a states r)
  post_correct states a = rw (post-none n states a) (elim (Bool-cases (no_transitions n.delta)) [
    | inl e ↦ rw e (tt, λ r. (λ m. cc, λ (q, m, s). cc (no_transitions-has n.delta q a r e)))
    | inr e ↦
        let (sorted, steps) = post_loop_correct n.delta a states [] h.delta_lem tt in
        rw e (
          sorted,
          λ r. (λ m. elim ((steps r).0 m) [ inl old ↦ cc | inr s ↦ s ], λ s. (steps r).1 (inr s)),
        )
  ])

  -- From a set of states the word leads to `s`.
  abbrev LeadsFrom : List ℕ → List ℕ → ℕ → Type 0
  LeadsFrom states word s = (q : ℕ) × (member q states ≡ true) × Leads n.delta q word s

  read_loop_correct :
      (word states : List ℕ) (s : ℕ)
      → (member s (read_loop n closure_none states word) ≡ true) ↔ LeadsFrom states word s
  unfolding read_loop
  read_loop_correct [] states s = (λ m. (s, m, refl), λ (q, m, e). rw e at m)
  read_loop_correct (a ∷ word) states s =
      let next = post n states a closure_none in
      let (_, steps) = post_correct states a in
      let (there, back) = read_loop_correct word next s in
      (
        λ m.
            let (r, mr, l) = there (stopped next m) in
            let (q, mq, t) = (steps r).0 mr in (q, mq, (r, t, l)),
        λ (q, mq, (r, t, l)).
            let mr = (steps r).1 (q, mq, t) in resumed r next mr (back (r, mr, l)),
      )
    where
      stopped :
          (next : List ℕ)
          → member s (if is_empty next then next else read_loop n closure_none next word) ≡ true
          → member s (read_loop n closure_none next word) ≡ true
      stopped [] m = cc
      stopped (x ∷ xs) m = m

      resumed :
          (r : ℕ) (next : List ℕ)
          → member r next ≡ true
          → member s (read_loop n closure_none next word) ≡ true
          → member s (if is_empty next then next else read_loop n closure_none next word) ≡ true
      resumed r [] m k = cc
      resumed r (x ∷ xs) m k = k

  pub member-state_set : (q : ℕ) → member q (state_set n.initial) ≡ contains n.initial q
  unfolding state_set
  member-state_set q =
      (sort_and_rmdupl_correct (elements n.initial)).1 q ∙ member-elements h.initial_lem q

  LeadsFrom-Reads :
      (word : List ℕ) (s : ℕ) → LeadsFrom (state_set n.initial) word s ↔ Reads n word s
  LeadsFrom-Reads word s = (
    λ (q, m, l). (q, sym (member-state_set q) ∙ m, l),
    λ (q, m, l). (q, member-state_set q ∙ m, l),
  )

  -- For a well-formed automaton, `read_word` without epsilon closure returns exactly the states to
  -- which the word leads from the initial states.
  pub read_word_correct :
      (word : List ℕ) (s : ℕ) → (member s (read_word n word false) ≡ true) ↔ Reads n word s
  unfolding read_word
  read_word_correct word s =
      let (there, back) = read_loop_correct word (state_set n.initial) s in
      let (out, into) = LeadsFrom-Reads word s in (λ m. out (there m), λ r. back (into r))

  pub intersects-final :
      (states : List ℕ)
      → (intersects_with n.final states ≡ true)
        ↔ ((s : ℕ) × (member s states ≡ true) × (contains n.final s ≡ true))
  intersects-final states = intersects_with-member h.final_lem states

  -- For a well-formed automaton, `is_in_lang` without epsilon closure and without prefix matching
  -- is true exactly when the word leads along the transitions from an initial to a final state.
  pub is_in_lang_correct : (word : List ℕ) → (is_in_lang n word false false ≡ true) ↔ Accepts n word
  unfolding is_in_lang
  is_in_lang_correct word = (
    λ e.
        let (s, m, f) = (intersects-final (read_word n word false)).0 e in
        (s, (read_word_correct word s).0 m, f),
    λ (s, r, f).
        (intersects-final (read_word n word false)).1 (s, (read_word_correct word s).1 r, f),
  )
