-- ===== src/Tests/Automata.antt =====
-- The theorems on automata, at concrete inputs.
use mathlib.Core.List.{reverse}
use mata.Common.{ℕ, ◌≡◌, ◌↔◌, true, false, List, [], ◌∷◌}
use mata.OrdVector.{ℕ_ranked, IsSorted, member}
use mata.Nfa.Read.{Step}
use mata.Nfa.{read_word, is_in_lang}
use mata.Nfa
use mata.Nfa.Language.{Accepts}
use mata.Common.{refl, false, arith, none}
use mata.SparseSet.{contains, empty_set}
use mata.SparseSet.Invariant.{IsConsistent-empty}
use mata.SparseSet.Insert.{contains-insert}
use mata.Delta.{add}
use mata.Delta.Relation.{has-add, add-IsDelta}
use mata.Tests.{IsDelta-empty}
use mata.Nfa.Complete.{complement_deterministic, make_complete}
use mata.Nfa.Complete.Language.{IsDeterministic}
use mata.Common.{◌⊎◌}
use mata.SparseSet
use mata.Nfa.{no_transitions, num_of_states}
use mata.Nfa.Deterministic.{is_deterministic, single_loop, single_targets}
use mata.Nfa.Unify.{unify_initial}
use mata.Nfa.{closure_before_and_after, closure_none}
use mata.Nfa.Unite.{unite_nondet_with}
use mata.Nfa.Revert.{revert}
use mata.Tests.{alternating, alternating-IsNfa}

abbrev aba : List ℕ
aba = 97 ∷ 98 ∷ 97 ∷ []

is_in_lang_correct_example :
    (is_in_lang alternating aba false false ≡ true) ↔ Accepts alternating aba
is_in_lang_correct_example = Nfa.Read.is_in_lang_correct alternating alternating-IsNfa aba

Accepts-revert_example : Accepts (revert alternating) aba ↔ Accepts alternating (reverse aba)
Accepts-revert_example = Nfa.Revert.Accepts-revert alternating alternating-IsNfa aba

alternating-IsDeterministic : IsDeterministic alternating
alternating-IsDeterministic = record {
  one_start = λ i j e k. ground (
    arith,
    contains-insert IsConsistent-empty 0 i,
    contains-insert IsConsistent-empty 0 j,
    none_in_empty i,
    none_in_empty j,
  );
  one_target = λ q a r t e k. ground (
    arith,
    has-add (add 0 97 1 []) 1 98 0 q a r (add-IsDelta [] 0 97 1 IsDelta-empty),
    has-add (add 0 97 1 []) 1 98 0 q a t (add-IsDelta [] 0 97 1 IsDelta-empty),
    has-add [] 0 97 1 q a r IsDelta-empty,
    has-add [] 0 97 1 q a t IsDelta-empty,
  );
}
  where
    none_in_empty : (i : ℕ) → contains empty_set i ≡ false
    none_in_empty i = unfold contains in ground arith

Accepts-complement_deterministic_example :
    Accepts (complement_deterministic alternating (97 ∷ 98 ∷ []) none) aba
    ↔ (Accepts alternating aba → ⊥)
Accepts-complement_deterministic_example =
    Nfa.Complete.Complement.Accepts-complement_deterministic alternating alternating-IsNfa
      alternating-IsDeterministic (97 ∷ 98 ∷ []) (omega arith) aba (refl, (refl, (refl, tt)))

Accepts-make_complete_example :
    Accepts (make_complete alternating (97 ∷ 98 ∷ []) none).0 aba ↔ Accepts alternating aba
Accepts-make_complete_example =
    Nfa.Complete.Keep.Accepts-make_complete alternating alternating-IsNfa (97 ∷ 98 ∷ [])
      (omega arith) aba

Accepts-unite_nondet_with_example :
    Accepts (unite_nondet_with alternating (revert alternating)) aba
    ↔ (Accepts alternating aba ⊎ Accepts (revert alternating) aba)
Accepts-unite_nondet_with_example =
    Nfa.Unite.Language.Accepts-unite_nondet_with alternating (revert alternating) alternating-IsNfa
      (Nfa.Revert.revert-IsNfa alternating alternating-IsNfa) aba

alternating_deterministic : is_deterministic alternating ≡ true
unfolding is_deterministic no_transitions single_loop single_targets num_of_states SparseSet.insert
    SparseSet.grown SparseSet.reserve add contains
alternating_deterministic = refl

is_deterministic-IsDeterministic_example : IsDeterministic alternating
is_deterministic-IsDeterministic_example =
    Nfa.Deterministic.is_deterministic-IsDeterministic alternating alternating-IsNfa
      alternating_deterministic

Accepts-unify_initial_example :
    Accepts (unify_initial true alternating) aba ↔ Accepts alternating aba
Accepts-unify_initial_example =
    Nfa.Unify.Language.Accepts-unify_initial true alternating alternating-IsNfa aba

post_before_and_after_correct_example :
    IsSorted (Nfa.post alternating (0 ∷ []) 97 closure_before_and_after)
    × ((r : ℕ)
        → (member r (Nfa.post alternating (0 ∷ []) 97 closure_before_and_after) ≡ true)
          ↔ Step alternating.delta 97 (0 ∷ []) r)
post_before_and_after_correct_example =
    Nfa.Closure.post_before_and_after_correct alternating (0 ∷ []) 97 alternating-IsNfa refl
