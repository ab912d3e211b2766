-- ===== src/Delta/Iterate/Compare.antt =====
-- src/nfa/delta.cc: the loop of `Delta::operator==` over two iterators compares what they visit.
use mata.Common.{
  ℕ, zero, suc, ◌≡◌, refl, ap, ◌∙◌, ◌↔◌, ◌⊎◌, inl, inr, Bool, true, false, not, ◌||◌, if◌then◌else◌,
  Option, none, some, List, [], ◌∷◌, arith, Bool-cases,
}
use mata.OrdVector.{ℕ_ranked}
use mata.Delta.{Transition, SymbolPost_ranked, Delta}
use mata.Delta.Iterate.{TransitionsIterator, prepend, advance, visit, same_transition, eq_loop}

same_transition_lem : (t u : Transition) → same_transition t u ≡ true → t ≡ u
same_transition_lem t u e = ground arith

same_transition_refl : (t : Transition) → same_transition t t ≡ true
same_transition_refl t = ground arith

-- A comparison of two lists, element by element.
abbrev pub same_transitions : List Transition → List Transition → Bool
same_transitions [] [] = true
same_transitions [] (u ∷ us) = false
same_transitions (t ∷ ts) [] = false
same_transitions (t ∷ ts) (u ∷ us) =
    let rest = same_transitions ts us in if same_transition t u then rest else false

pub same_transitions_iff : (ts us : List Transition) → (same_transitions ts us ≡ true) ↔ (ts ≡ us)
same_transitions_iff [] [] = (λ e. refl, λ e. refl)
same_transitions_iff [] (u ∷ us) = (λ e. cc e, λ e. cc e)
same_transitions_iff (t ∷ ts) [] = (λ e. cc e, λ e. cc e)
same_transitions_iff (t ∷ ts) (u ∷ us) = elim (Bool-cases (same_transition t u)) [
  | inl same ↦
      let (f, g) = same_transitions_iff ts us in
      rw same (λ e. cc (same_transition_lem t u same, f e), λ e. g (cc e))
  | inr other ↦ rw other (λ e. cc e, λ e. cc (e, same_transition_refl t, other))
]

-- A loop that ends is at its end, or passes over one element and ends.
visit-cases :
    (delta : Delta) (fuel : ℕ) (it : TransitionsIterator) (ts : List Transition)
    → visit (suc fuel) delta it ≡ some ts
    → (it.is_end ≡ true) × (ts ≡ [])
      ⊎ (it.is_end ≡ false)
        × ((rest : List Transition) × (visit fuel delta (advance delta it) ≡ some rest)
            × (ts ≡ it.transition ∷ rest))
unfolding visit
visit-cases delta fuel it ts e = at it.is_end (visit fuel delta (advance delta it)) e
  where
    at :
        (end : Bool) (visited : Option (List Transition))
        → (if end then some [] else prepend it.transition visited) ≡ some ts
        → (end ≡ true) × (ts ≡ [])
          ⊎ (end ≡ false)
            × ((rest : List Transition) × (visited ≡ some rest) × (ts ≡ it.transition ∷ rest))
    at true visited f = inl (refl, cc f)
    at false none f = cc f
    at false (some rest) f = inr (refl, (rest, refl, cc f))

-- One round of the loop, by the two ends, the comparison and what the next rounds return.
abbrev round : Bool → Bool → Bool → Option Bool → Option Bool
round end other_end same rest =
    if not end then if other_end || not same then some false else rest else some other_end

round_lem :
    (this_it other_it : TransitionsIterator) (rest result : Option Bool) {end other_end same : Bool}
    → this_it.is_end ≡ end
    → other_it.is_end ≡ other_end
    → same_transition this_it.transition other_it.transition ≡ same
    → round end other_end same rest ≡ result
    → round this_it.is_end other_it.is_end
        (same_transition this_it.transition other_it.transition)
        rest
      ≡ result
round_lem this_it other_it rest result e f g k = cc (e, f, g, k)

-- The loop over both iterators compares what they visit.
pub eq_loop_lem :
    (this other : Delta) (fuel fuel' : ℕ) (this_it other_it : TransitionsIterator)
    (ts us : List Transition)
    → visit fuel this this_it ≡ some ts
    → visit fuel' other other_it ≡ some us
    → eq_loop fuel this other this_it other_it ≡ some (same_transitions ts us)
unfolding eq_loop
eq_loop_lem this other zero fuel' this_it other_it ts us e f = unfold visit in cc e
eq_loop_lem this other (suc fuel) zero this_it other_it ts us e f = unfold visit in cc f
eq_loop_lem this other (suc fuel) (suc fuel') this_it other_it ts us e f =
    elim (visit-cases this fuel this_it ts e) [
      | inl (end, ts_lem) ↦ elim (visit-cases other fuel' other_it us f) [
        | inl (other_end, us_lem) ↦
            rw (ts_lem, us_lem) (round_lem this_it other_it _ _ end other_end refl refl)
        | inr (more, (rest, _, us_lem)) ↦
            rw (ts_lem, us_lem) (round_lem this_it other_it _ _ end more refl refl)
      ]
      | inr (going, (ts', e', ts_lem)) ↦ elim (visit-cases other fuel' other_it us f) [
        | inl (other_end, us_lem) ↦
            rw (ts_lem, us_lem) (round_lem this_it other_it _ _ going other_end refl refl)
        | inr (more, (us', f', us_lem)) ↦
            let rest = eq_loop_lem this other fuel fuel' _ _ ts' us' e' f' in
            elim (Bool-cases (same_transition this_it.transition other_it.transition)) [
              | inl same ↦
                  rw (ts_lem, us_lem)
                    (round_lem this_it other_it _ _ going more same
                      (rest ∙ ap some (kept this_it.transition other_it.transition ts' us' same)))
              | inr differs ↦
                  rw (ts_lem, us_lem)
                    (round_lem this_it other_it _ _ going more differs
                      (ap some (left this_it.transition other_it.transition ts' us' differs)))
            ]
      ]
    ]
  where
    kept :
        (t u : Transition) (ts us : List Transition)
        → same_transition t u ≡ true
        → same_transitions ts us ≡ same_transitions (t ∷ ts) (u ∷ us)
    kept t u ts us e = rw e refl

    left :
        (t u : Transition) (ts us : List Transition)
        → same_transition t u ≡ false
        → false ≡ same_transitions (t ∷ ts) (u ∷ us)
    left t u ts us e = rw e refl
