-- ===== src/Nfa/Complete/Keep.antt =====
-- src/nfa/operations.cc: `make_complete` with a new sink keeps the language and leaves no gaps.
use mata.Common.{
  ℕ, ◌<◌, ◌≡◌, refl, sym, subst, ◌↔◌, inl, inr, true, false, List, none, arith, Bool-cases,
}
use mata.OrdVector.{ℕ_ranked, IsSorted, member}
use mata.SparseSet.{SparseSet, contains}
use mata.Delta.Relation.{has}
use mata.Nfa.{Nfa, num_of_states}
use mata.Nfa.Language.{Accepts, IsNfa, source_lt}
use mata.Nfa.Complete.{make_complete}
use mata.Nfa.Complete.Language.{Completed, Completed-make_complete, Leads-iff}
use mata.Nfa.Complete.Start.{contains-lt}

module _ (aut : Nfa) (h : IsNfa aut) (symbols : List ℕ) (sorted : IsSorted symbols) where
  abbrev completed : Nfa
  completed = (make_complete aut symbols none).0

  completed_lem : Completed symbols (num_of_states aut) aut.delta completed.delta
  completed_lem =
      let both =
        Completed-make_complete symbols sorted (num_of_states aut) aut h.delta_lem (omega arith)
          fresh in
      unfold make_complete in both.0
    where
      fresh : (b r : ℕ) → has aut.delta (num_of_states aut) b r ≡ false
      fresh b r = elim (Bool-cases (has aut.delta (num_of_states aut) b r)) [
        | inl there ↦ elim (irreflexive (source_lt aut (num_of_states aut) b r there)) [ ]
        | inr missing ↦ missing
      ]
        where
          irreflexive : num_of_states aut < num_of_states aut → ⊥
          irreflexive e = omega arith

  same_sets : (completed.initial ≡ aut.initial) × (completed.final ≡ aut.final)
  unfolding make_complete
  same_sets = (refl, refl)

  final_lt : (f : ℕ) → contains aut.final f ≡ true → f < num_of_states aut
  final_lt f e = let lt = contains-lt aut.final f e in unfold num_of_states in omega arith

  pub make_complete_total :
      (q a : ℕ)
      → q < num_of_states aut
      → member a symbols ≡ true
      → (r : ℕ) × (has completed.delta q a r ≡ true)
  make_complete_total q a lt m = completed_lem.total q a lt m

  -- For a well-formed automaton and sorted symbols, `make_complete` with a new sink keeps the
  -- language.
  pub Accepts-make_complete :
      (word : List ℕ) → Accepts (make_complete aut symbols none).0 word ↔ Accepts aut word
  Accepts-make_complete word = (
    λ (f, (i, ci, l), fin).
        let fin' = subst (λ (x : SparseSet). contains x f ≡ true) same_sets.1 fin in
        (
          f,
          (
            i,
            subst (λ (x : SparseSet). contains x i ≡ true) same_sets.0 ci,
            (Leads-iff symbols aut h completed.delta completed_lem word i f (final_lt f fin')).0 l,
          ),
          fin',
        ),
    λ (f, (i, ci, l), fin). (
      f,
      (
        i,
        subst (λ (x : SparseSet). contains x i ≡ true) (sym same_sets.0) ci,
        (Leads-iff symbols aut h completed.delta completed_lem word i f (final_lt f fin)).1 l,
      ),
      subst (λ (x : SparseSet). contains x f ≡ true) (sym same_sets.1) fin,
    ),
  )
