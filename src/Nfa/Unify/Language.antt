-- ===== src/Nfa/Unify/Language.antt =====
-- src/nfa/nfa.cc: `unify_initial` keeps the language.
use mata.Common.{
  ℕ, ◌+◌, ◌≤◌, ◌<◌, ◌≡◌, refl, sym, ap, subst, ◌∙◌, ◌↔◌, inl, inr, Bool, true, false, not, ◌&&◌,
  ◌||◌, List, [], ◌∷◌, arith, ltb, ◌==◌, ==_iff, ==_refl, Bool-cases, length, get_or, resize,
  length-resize, get_or-resize, get_or-ge,
}
use mata.OrdVector.{ℕ_ranked, member}
use mata.SparseSet.{SparseSet, contains, elements}
use mata.SparseSet
use mata.SparseSet.Invariant.{IsConsistent}
use mata.SparseSet.Insert.{contains-insert}
use mata.SparseSet.Elements.{member-elements}
use mata.Delta.{Delta, StatePost, SymbolPost_ranked}
use mata.Delta.Post.{targets_of}
use mata.Delta.Relation.{has}
use mata.Nfa.{Nfa, num_of_states, add_state}
use mata.Nfa.Language.{Leads, Leads-mono, Accepts, IsNfa, source_lt}
use mata.Nfa.Complete.Start.{contains-lt}
use mata.Nfa.Unify.{unify_initial_loop, unify_initial}
use mata.Nfa.Unify.Initial.{any_has, any_final, Others, has-unify_initial_loop}

IsConsistent-clear : {s : SparseSet} → IsConsistent s → IsConsistent (SparseSet.clear s)
unfolding SparseSet.clear
IsConsistent-clear c = record {
  size-le = omega arith;
  dense_room = c.dense_room;
  sparse_room = c.sparse_room;
  in_domain = λ i h. omega arith;
  back = λ i h. omega arith;
}

contains-clear : (s : SparseSet) (j : ℕ) → contains (SparseSet.clear s) j ≡ false
unfolding SparseSet.clear contains
contains-clear s j = ground arith

any_has-some :
    (s : ℕ) (d : Delta) (is : List ℕ) (b r : ℕ)
    → (any_has s d is b r ≡ true) ↔ ((i : ℕ) × (member i is ≡ true) × (has d i b r ≡ true))
any_has-some s d [] b r = (λ e. cc e, λ (i, m, e). cc m)
any_has-some s d (x ∷ xs) b r = (
  λ e. elim (Bool-cases (has d x b r)) [
    | inl here ↦ (x, ground (arith, ==_refl x), here)
    | inr there ↦ let (i, m, k) = (any_has-some s d xs b r).0 (ground arith) in (i, ground arith, k)
  ],
  λ (i, m, k). elim (Bool-cases (x == i)) [
    | inl here ↦ ground (arith, ap (λ (q : ℕ). has d q b r) ((==_iff x i).0 here))
    | inr there ↦ ground (arith, (any_has-some s d xs b r).1 (i, ground arith, k))
  ],
)

any_final-some :
    (s : ℕ) (f : SparseSet) (is : List ℕ)
    → (any_final s f is ≡ true) ↔ ((i : ℕ) × (member i is ≡ true) × (contains f i ≡ true))
any_final-some s f [] = (λ e. cc e, λ (i, m, e). cc m)
any_final-some s f (x ∷ xs) = (
  λ e. elim (Bool-cases (contains f x)) [
    | inl here ↦ (x, ground (arith, ==_refl x), here)
    | inr there ↦ let (i, m, k) = (any_final-some s f xs).0 (ground arith) in (i, ground arith, k)
  ],
  λ (i, m, k). elim (Bool-cases (x == i)) [
    | inl here ↦ ground (arith, ap (λ (q : ℕ). contains f q) ((==_iff x i).0 here))
    | inr there ↦ ground (arith, (any_final-some s f xs).1 (i, ground arith, k))
  ],
)

Others-all : (s : ℕ) (is : List ℕ) → ((i : ℕ) → member i is ≡ true → (s == i) ≡ false) → Others s is
Others-all s [] f = tt
Others-all s (i ∷ is) f =
    (f i (ground (arith, ==_refl i)), Others-all s is (λ j m. f j (ground arith)))

module _ (aut : Nfa) (h : IsNfa aut) where
  abbrev n : ℕ
  n = num_of_states aut

  abbrev grown : Delta
  grown = resize (n + 1) [] aut.delta

  abbrev starts : List ℕ
  starts = elements aut.initial

  get_or-grown : (j : ℕ) → get_or grown j [] ≡ get_or aut.delta j []
  get_or-grown j = elim (Bool-cases (ltb j (n + 1))) [
    | inl low ↦ get_or-resize (n + 1) [] aut.delta j (ground arith)
    | inr high ↦
        get_or-ge grown j [] (ground (arith, length-resize {A = StatePost} (n + 1) [] aut.delta))
        ∙ sym (get_or-ge aut.delta j [] (beyond (ground arith)))
  ]
    where
      beyond : n + 1 ≤ j → length aut.delta ≤ j
      beyond l = unfold num_of_states in omega arith

  has-grown : (j b r : ℕ) → has grown j b r ≡ has aut.delta j b r
  has-grown j b r = ap (λ (p : StatePost). member r (targets_of b p)) (get_or-grown j)

  start_lt : (i : ℕ) → contains aut.initial i ≡ true → i < n
  start_lt i e = let lt = contains-lt aut.initial i e in unfold num_of_states in omega arith

  final_lt : (f : ℕ) → contains aut.final f ≡ true → f < n
  final_lt f e = let lt = contains-lt aut.final f e in unfold num_of_states in omega arith

  abbrev looped : Delta × SparseSet
  looped = unify_initial_loop n starts grown aut.final

  looped_lem :
      ((j b r : ℕ) → has looped.0 j b r ≡ (n == j && any_has n grown starts b r || has grown j b r))
      × ((j : ℕ)
          → contains looped.1 j ≡ (n == j && any_final n aut.final starts || contains aut.final j))
  looped_lem =
      has-unify_initial_loop n starts grown aut.final
        (record { posts = λ q. rw (get_or-grown q) (h.delta_lem.posts q) }) h.final_lem
        (Others-all n starts
          (λ i m. apart i (start_lt i (sym (member-elements h.initial_lem i) ∙ m))))
    where
      apart : (i : ℕ) → i < n → (n == i) ≡ false
      apart i l = ground arith

  old_step : (q a r : ℕ) → q < n → has looped.0 q a r ≡ has aut.delta q a r
  old_step q a r lt = ground (arith, looped_lem.0 q a r, has-grown q a r)

  -- From an old state words lead as before.
  Leads-old :
      (word : List ℕ) (q f : ℕ)
      → q < n
      → Leads looped.0 q word f
      → Leads aut.delta q word f × (f < n)
  Leads-old [] q f lt e = (e, omega arith)
  Leads-old (a ∷ word) q f lt (r, t, l) =
      let t' = sym (old_step q a r lt) ∙ t in
      let (l', m) = Leads-old word r f (h.targets_lt q a r t') l in ((r, t', l'), m)

  keeps : (j b r : ℕ) → has aut.delta j b r ≡ true → has looped.0 j b r ≡ true
  keeps j b r e = old_step j b r (source_lt aut j b r e) ∙ e

  abbrev unified : Nfa
  unified = record {
    delta = looped.0;
    initial = SparseSet.insert n (SparseSet.clear aut.initial);
    final = looped.1;
  }

  contains-start : (j : ℕ) → contains unified.initial j ≡ (n == j)
  contains-start j =
      ground (
        arith,
        contains-insert (IsConsistent-clear h.initial_lem) n j,
        contains-clear aut.initial j,
      )

  -- The new state has the transitions of the initial states, and is final if one of them is.
  new_step :
      (a r : ℕ)
      → (has looped.0 n a r ≡ true)
        ↔ ((i : ℕ) × (contains aut.initial i ≡ true) × (has aut.delta i a r ≡ true))
  new_step a r = (
    λ e.
        let (i, m, k) = (any_has-some n grown starts a r).0 (picked e) in
        (i, sym (member-elements h.initial_lem i) ∙ m, sym (has-grown i a r) ∙ k),
    λ (i, ci, k).
        let any =
          (any_has-some n grown starts a r).1
            (i, member-elements h.initial_lem i ∙ ci, has-grown i a r ∙ k) in
        ground (arith, looped_lem.0 n a r, ==_refl n),
  )
    where
      picked : has looped.0 n a r ≡ true → any_has n grown starts a r ≡ true
      picked e = ground (arith, looped_lem.0 n a r, has-grown n a r, source_lt aut n a r)

  new_final :
      (contains looped.1 n ≡ true)
      ↔ ((i : ℕ) × (contains aut.initial i ≡ true) × (contains aut.final i ≡ true))
  new_final = (
    λ e.
        let (i, m, k) = (any_final-some n aut.final starts).0 (picked e) in
        (i, sym (member-elements h.initial_lem i) ∙ m, k),
    λ (i, ci, k).
        let any =
          (any_final-some n aut.final starts).1 (i, member-elements h.initial_lem i ∙ ci, k) in
        ground (arith, looped_lem.1 n, ==_refl n),
  )
    where
      picked : contains looped.1 n ≡ true → any_final n aut.final starts ≡ true
      picked e = ground (arith, looped_lem.1 n, final_lt n)

  old_final : (f : ℕ) → f < n → contains looped.1 f ≡ contains aut.final f
  old_final f lt = ground (arith, looped_lem.1 f)

  from_unified : (word : List ℕ) → Accepts unified word → Accepts aut word
  from_unified [] (f, (i, ci, l), fin) =
      let at = (==_iff n i).0 (sym (contains-start i) ∙ ci) in
      let (j, cj, k) =
        new_final.0 (subst (λ (x : ℕ). contains looped.1 x ≡ true) (sym (at ∙ l)) fin) in
      (j, (j, cj, refl), k)
  from_unified (a ∷ word) (f, (i, ci, (r, t, l)), fin) =
      let at = (==_iff n i).0 (sym (contains-start i) ∙ ci) in
      let (j, cj, k) = (new_step a r).0 (subst (λ (x : ℕ). has looped.0 x a r ≡ true) (sym at) t) in
      let (l', lt) = Leads-old word r f (h.targets_lt j a r k) l in
      (f, (j, cj, (r, k, l')), sym (old_final f lt) ∙ fin)

  to_unified : (word : List ℕ) → Accepts aut word → Accepts unified word
  to_unified [] (f, (i, ci, l), fin) = (
    n,
    (n, contains-start n ∙ ==_refl n, refl),
    new_final.1 (f, subst (λ (x : ℕ). contains aut.initial x ≡ true) l ci, fin),
  )
  to_unified (a ∷ word) (f, (i, ci, (r, t, l)), fin) = (
    f,
    (
      n,
      contains-start n ∙ ==_refl n,
      (r, (new_step a r).1 (i, ci, t), Leads-mono aut.delta looped.0 keeps word r f l),
    ),
    old_final f (final_lt f fin) ∙ fin,
  )

-- For a well-formed automaton, `unify_initial` keeps the language, whether or not a new initial
-- state is forced.
pub Accepts-unify_initial :
    (force_new_state : Bool) (aut : Nfa)
    → IsNfa aut
    → (word : List ℕ) → Accepts (unify_initial force_new_state aut) word ↔ Accepts aut word
unfolding unify_initial add_state
Accepts-unify_initial force_new_state aut h word =
    elim (Bool-cases (not force_new_state && (aut.initial.size == 0 || aut.initial.size == 1))) [
      | inl kept ↦ rw kept (λ x. x, λ x. x)
      | inr changed ↦ rw changed (from_unified aut h word, to_unified aut h word)
    ]
