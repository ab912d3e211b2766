-- ===== src/Nfa/RemoveEpsilon/Result.antt =====
-- src/nfa/operations.cc: the transitions and final states that `remove_epsilon` builds from the
-- closures.
use mata.Common.{
  ℕ, zero, suc, ◌+◌, ◌<◌, ◌≡◌, refl, sym, ap, ◌∙◌, ◌↔◌, inl, inr, Bool, true, false, not, ◌&&◌,
  ◌||◌, List, [], ◌∷◌, arith, ◌==◌, ==_iff, ==_refl, if◌then◌else◌, Bool-cases, get_or,
}
use mata.OrdVector.{ℕ_ranked, IsSorted, member}
use mata.SparseSet.{SparseSet, contains}
use mata.SparseSet
use mata.SparseSet.Invariant.{IsConsistent}
use mata.SparseSet.Insert.{insert-IsConsistent, contains-insert}
use mata.Delta.{Delta, SymbolPost_ranked, StatePost, state_post}
use mata.Delta.Post.{targets_of, member-targets_of}
use mata.Delta.Relation.{has, IsDelta}
use mata.Nfa.{Nfa}
use mata.Nfa.Concatenate.Loops.{add_targets_correct, some_in}
use mata.Nfa.RemoveEpsilon.{Closures, closure, add_moves, add_closure, add_closures}

add_moves_correct :
    (epsilon state : ℕ) (post : StatePost) (delta : Delta)
    → IsSorted post
    → IsDelta delta
    → IsDelta (add_moves epsilon state post delta)
      × ((q a r : ℕ)
          → has (add_moves epsilon state post delta) q a r
            ≡ (state == q && not (a == epsilon) && member r (targets_of a post) || has delta q a r))
unfolding add_moves
add_moves_correct epsilon state [] delta s d = (d, λ q a r. ground arith)
add_moves_correct epsilon state (p ∷ ps) delta s d = elim (Bool-cases (p.symbol == epsilon)) [
  | inl quiet ↦
      let (kept, k) = add_moves_correct epsilon state ps delta s.1 d in
      rw quiet (kept, λ q a r. ground (arith, k q a r, member-targets_of a r p ps s))
  | inr loud ↦
      let (one_kept, one) = add_targets_correct state p.symbol p.targets delta d in
      let (kept, k) = add_moves_correct epsilon state ps _ s.1 one_kept in
      rw loud (kept, λ q a r. ground (arith, k q a r, one q a r, member-targets_of a r p ps s))
]

-- Some state of the list has the transition.
abbrev pub some_has : Delta → ℕ → ℕ → List ℕ → Bool
some_has delta a r [] = false
some_has delta a r (x ∷ xs) = has delta x a r || some_has delta a r xs

pub some_has_iff :
    (delta : Delta) (a r : ℕ) (xs : List ℕ)
    → (some_has delta a r xs ≡ true) ↔ ((p : ℕ) × (member p xs ≡ true) × (has delta p a r ≡ true))
some_has_iff delta a r [] = (λ e. cc e, λ (p, m, t). cc m)
some_has_iff delta a r (x ∷ xs) =
    let (f, g) = some_has_iff delta a r xs in
    (
      λ e. elim (Bool-cases (has delta x a r)) [
        | inl here ↦ (x, ground (arith, ==_refl x), here)
        | inr there ↦ let (p, m, t) = f (ground arith) in (p, ground arith, t)
      ],
      λ (p, m, t). elim (Bool-cases (x == p)) [
        | inl here ↦
            let same = ap (λ (y : ℕ). has delta y a r) ((==_iff x p).0 here) in ground arith
        | inr there ↦ let e = g (p, ground arith, t) in ground arith
      ],
    )

-- The test of the vector that stands for `q`, in the closures from the state `i` on.
abbrev at_state : (List ℕ → Bool) → Closures → ℕ → ℕ → Bool
at_state f [] i q = false
at_state f (xs ∷ closures) i q = i == q && f xs || at_state f closures (suc i) q

at_state-below :
    (f : List ℕ → Bool) (closures : Closures) (i q : ℕ) → q < i → at_state f closures i q ≡ false
at_state-below f [] i q l = refl
at_state-below f (xs ∷ closures) i q l =
    ground (arith, at_state-below f closures (suc i) q (omega arith))

at_state_lem :
    (f : List ℕ → Bool) (closures : Closures) (i j q : ℕ)
    → f [] ≡ false
    → q ≡ i + j
    → at_state f closures i q ≡ f (closure closures j)
at_state_lem f [] i j q e at = sym e
at_state_lem f (xs ∷ closures) i zero q e at =
    ground (arith, at_state-below f closures (suc i) q (omega arith))
at_state_lem f (xs ∷ closures) i (suc j) q e at =
    ground (arith, at_state_lem f closures (suc i) j q e (omega arith))

module _ (epsilon : ℕ) (aut : Nfa) (d : IsDelta aut.delta) where
  record Built (tests : (List ℕ → Bool) → ℕ → Bool) (st st' : Delta × SparseSet) : Type 0 where
    pub delta_lem : IsDelta st'.0
    pub final_lem : IsConsistent st'.1
    pub has_lem :
        (q a r : ℕ)
        → has st'.0 q a r
          ≡ (not (a == epsilon) && tests (some_has aut.delta a r) q || has st.0 q a r)
    pub contains_lem : (j : ℕ) → contains st'.1 j ≡ (tests (some_in aut.final) j || contains st.1 j)

  add_closure-Built :
      (state : ℕ) (xs : List ℕ) (delta : Delta) (final : SparseSet)
      → IsDelta delta
      → IsConsistent final
      → Built
          (λ f q. state == q && f xs)
          (delta, final)
          (add_closure epsilon aut state xs (delta, final))
  unfolding add_closure state_post
  add_closure-Built state [] delta final k c = record {
    delta_lem = k;
    final_lem = c;
    has_lem = λ q a r. ground arith;
    contains_lem = λ j. ground arith;
  }
  add_closure-Built state (x ∷ xs) delta final k c =
      let (one_kept, one) =
        add_moves_correct epsilon state (get_or aut.delta x []) delta (d.posts x).sorted k in
      let (fin_kept, fin) = insert_if (contains aut.final x) in
      let b = add_closure-Built state xs _ _ one_kept fin_kept in
      record {
        delta_lem = b.delta_lem;
        final_lem = b.final_lem;
        has_lem = λ q a r. ground (arith, b.has_lem q a r, one q a r);
        contains_lem = λ j. ground (arith, b.contains_lem j, fin j);
      }
    where
      insert_if :
          (b : Bool)
          → IsConsistent (if b then SparseSet.insert state final else final)
            × ((j : ℕ)
                → contains (if b then SparseSet.insert state final else final) j
                  ≡ (b && state == j || contains final j))
      insert_if true = (insert-IsConsistent c state, λ j. contains-insert c state j)
      insert_if false = (c, λ j. refl)

  add_closures-Built :
      (state : ℕ) (closures : Closures) (st : Delta × SparseSet)
      → IsDelta st.0
      → IsConsistent st.1
      → Built (λ f q. at_state f closures state q) st (add_closures epsilon aut state closures st)
  unfolding add_closures
  add_closures-Built state [] st k c = record {
    delta_lem = k;
    final_lem = c;
    has_lem = λ q a r. ground arith;
    contains_lem = λ j. refl;
  }
  add_closures-Built state (xs ∷ closures) st k c =
      let one = add_closure-Built state xs st.0 st.1 k c in
      let b = add_closures-Built (suc state) closures _ one.delta_lem one.final_lem in
      record {
        delta_lem = b.delta_lem;
        final_lem = b.final_lem;
        has_lem = λ q a r. ground (arith, b.has_lem q a r, one.has_lem q a r);
        contains_lem = λ j. ground (arith, b.contains_lem j, one.contains_lem j);
      }

  -- The transitions and the final states of the result, by the closures.
  pub add_closures_correct :
      (closures : Closures) (delta : Delta) (final : SparseSet)
      → IsDelta delta
      → IsConsistent final
      → ((q a r : ℕ)
          → has (add_closures epsilon aut 0 closures (delta, final)).0 q a r ≡ (
              not (a == epsilon) && some_has aut.delta a r (closure closures q) || has delta q a r))
        × ((j : ℕ)
            → contains (add_closures epsilon aut 0 closures (delta, final)).1 j
              ≡ (some_in aut.final (closure closures j) || contains final j))
  add_closures_correct closures delta final k c =
      let b = add_closures-Built 0 closures (delta, final) k c in
      (
        λ q a r.
            b.has_lem q a r
            ∙ ap (λ (x : Bool). not (a == epsilon) && x || has delta q a r)
                (at_state_lem (some_has aut.delta a r) closures 0 q q refl (omega arith)),
        λ j.
            b.contains_lem j
            ∙ ap (λ (x : Bool). x || contains final j)
                (at_state_lem (some_in aut.final) closures 0 j j refl (omega arith)),
      )
