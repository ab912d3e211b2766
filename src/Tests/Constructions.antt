-- ===== src/Tests/Constructions.antt =====
-- The theorems on automata that are built from others, and on reachable states, at concrete inputs.
use mata.Common.{
  ℕ, zero, suc, ◌<◌, ◌≡◌, refl, ◌↔◌, Bool, true, false, ◌&&◌, ◌||◌, List, [], ◌∷◌, ◌++◌, Option,
  some, arith, ltb, ◌==◌,
}
use mata.OrdVector.{ℕ_ranked, IsSorted, member}
use mata.SparseSet.{contains, empty_set}
use mata.SparseSet.Invariant.{IsConsistent-empty}
use mata.SparseSet.Insert.{contains-insert}
use mata.Delta.{add}
use mata.Delta.Relation.{has, has-add, add-IsDelta, length-add}
use mata.Delta.Defragment.{stays}
use mata.Nfa.{Nfa, epsilon, is_in_lang, mk_epsilon_closure, num_of_states}
use mata.Nfa.Closure.Epsilons.{IsSource, EpsilonEdge}
use mata.Nfa.Language.{Leads, Reads, Accepts, IsNfa, without}
use mata.Nfa.Concatenate.{concatenate, concatenate_nth_power}
use mata.Nfa.Concatenate.Words.{Power}
use mata.Nfa.Concatenate.Epsilon.{concatenate_eps}
use mata.Nfa.Concatenate.Epsilon.Language.{Joins}
use mata.Nfa
use mata.Nfa.RemoveEpsilon.{remove_epsilon}
use mata.Nfa.Trim.{trim, trimmed}
use mata.Nfa.Reach.{marked, reachable_states, get_reachable_states}
use mata.Nfa.Reach.Reached.{IsStart, IsEdge}
use mata.Worklist.{Reached}
use mata.Nfa.Reach.States.{allows}
use mata.Tests.{
  alternating, alternating-IsNfa, ping_pong, ping_pong-IsDelta, IsDelta-empty, only,
  only-IsConsistent,
}

abbrev a_word : List ℕ
a_word = 97 ∷ []

-- The automaton `alternating` with a transition to a state 2 that leads nowhere.
abbrev dead_end : Nfa
dead_end = record { delta = add 0 97 2 ping_pong; initial = only 0; final = only 1 }

has-dead_end :
    (q a r : ℕ)
    → has dead_end.delta q a r ≡ (
        0 == q && 97 == a && 2 == r
        || 1 == q && 98 == a && 0 == r
        || 0 == q && 97 == a && 1 == r
        || false)
has-dead_end q a r = ground (
  arith,
  has-add ping_pong 0 97 2 q a r ping_pong-IsDelta,
  has-add (add 0 97 1 []) 1 98 0 q a r (add-IsDelta [] 0 97 1 IsDelta-empty),
  has-add [] 0 97 1 q a r IsDelta-empty,
)

dead_end-IsNfa : IsNfa dead_end
dead_end-IsNfa = record {
  delta_lem = add-IsDelta ping_pong 0 97 2 ping_pong-IsDelta;
  initial_lem = only-IsConsistent 0;
  final_lem = only-IsConsistent 1;
  targets_lt = λ q a r e.
      let room = length-add ping_pong 0 97 2 in
      let low : r < 3 = ground (arith, has-dead_end q a r) in unfold num_of_states in omega arith;
}

-- No accepting run goes through the states from 2 on.
dead_end_useful :
    (u v : List ℕ) (m f : ℕ)
    → Reads dead_end u m
    → Leads dead_end.delta m v f
    → contains dead_end.final f ≡ true
    → stays (true ∷ true ∷ false ∷ []) m ≡ true
dead_end_useful u v zero f r l c = refl
dead_end_useful u v (suc zero) f r l c = refl
dead_end_useful u [] (suc (suc m)) f r l c =
    absurd (ground (arith, contains-insert IsConsistent-empty 1 f, none_in_empty f, l))
  where
    none_in_empty : (i : ℕ) → contains empty_set i ≡ false
    none_in_empty i = unfold contains in ground arith
dead_end_useful u (a ∷ v) (suc (suc m)) f r (t, step, l) c =
    absurd (ground (arith, has-dead_end (suc (suc m)) a t))

Accepts-trim_example :
    Accepts (trim (true ∷ true ∷ false ∷ []) dead_end) a_word ↔ Accepts dead_end a_word
Accepts-trim_example =
    Nfa.Trim.Language.Accepts-trim (true ∷ true ∷ false ∷ []) dead_end dead_end-IsNfa
      dead_end_useful a_word

trim-eq-trimmed_example :
    trim (true ∷ true ∷ false ∷ []) dead_end
    ≡ trimmed (true ∷ true ∷ false ∷ []) dead_end (only 0) (only 1)
trim-eq-trimmed_example =
    Nfa.Trim.Language.trim-eq-trimmed (true ∷ true ∷ false ∷ []) dead_end dead_end-IsNfa

Accepts-concatenate_example : Accepts (concatenate alternating dead_end) (97 ∷ 97 ∷ []) ↔ (
    (u : List ℕ) × (v : List ℕ) × (97 ∷ 97 ∷ [] ≡ u ++ v)
    × Accepts alternating u
    × Accepts dead_end v)
Accepts-concatenate_example =
    Nfa.Concatenate.Language.Accepts-concatenate alternating dead_end alternating-IsNfa
      dead_end-IsNfa (97 ∷ 97 ∷ [])

concatenate-IsNfa_example : IsNfa (concatenate alternating dead_end)
concatenate-IsNfa_example =
    Nfa.Concatenate.Invariant.concatenate-IsNfa alternating dead_end alternating-IsNfa
      dead_end-IsNfa

Accepts-concatenate_nth_power_example :
    (result : Nfa) × (concatenate_nth_power alternating 3 ≡ some result)
    × IsNfa result
    × ((word : List ℕ) → Accepts result word ↔ Power (Accepts alternating) 3 word)
Accepts-concatenate_nth_power_example =
    Nfa.Concatenate.Power.Accepts-concatenate_nth_power alternating alternating-IsNfa 3

-- Without the state 1.
abbrev but_one : Option (List Bool)
but_one = some (true ∷ false ∷ true ∷ [])

marked-reachable_states_example :
    (reachable : List Bool) × (reachable_states dead_end but_one ≡ some reachable)
    × ((q : ℕ)
        → (marked reachable q ≡ true)
          ↔ Reached (IsStart dead_end but_one) (IsEdge dead_end but_one) q)
marked-reachable_states_example =
    Nfa.Reach.Reached.marked-reachable_states dead_end dead_end-IsNfa but_one

get_reachable_states_correct_example :
    (states : List ℕ) × (get_reachable_states dead_end (some (λ q. ltb 0 q)) ≡ some states)
    × IsSorted states
    × ((q : ℕ)
        → (member q states ≡ true)
          ↔ ((word : List ℕ) × Reads dead_end word q) × (allows (some (λ q. ltb 0 q)) q ≡ true))
get_reachable_states_correct_example =
    Nfa.Reach.States.get_reachable_states_correct dead_end dead_end-IsNfa (some (λ q. ltb 0 q))

-- The automaton `alternating` with a silent transition from 1 to 0.
abbrev silent : Nfa
silent = record alternating { delta = add 1 epsilon 0 ping_pong }

silent-IsNfa : IsNfa silent
silent-IsNfa = record {
  delta_lem = add-IsDelta ping_pong 1 epsilon 0 ping_pong-IsDelta;
  initial_lem = only-IsConsistent 0;
  final_lem = only-IsConsistent 1;
  targets_lt = λ q a r e.
      let room = length-add ping_pong 1 epsilon 0 in
      let low : r < 2 = ground (
        arith,
        has-add ping_pong 1 epsilon 0 q a r ping_pong-IsDelta,
        has-add (add 0 97 1 []) 1 98 0 q a r (add-IsDelta [] 0 97 1 IsDelta-empty),
        has-add [] 0 97 1 q a r IsDelta-empty,
      ) in
      unfold num_of_states in omega arith;
}

mk_epsilon_closure_correct_example :
    (closure : List ℕ) × (mk_epsilon_closure silent (1 ∷ []) (epsilon ∷ []) ≡ some closure)
    × IsSorted closure
    × ((q : ℕ)
        → (member q closure ≡ true)
          ↔ Reached (IsSource (1 ∷ [])) (EpsilonEdge silent (epsilon ∷ [])) q)
mk_epsilon_closure_correct_example =
    Nfa.Closure.Epsilons.mk_epsilon_closure_correct silent silent-IsNfa (1 ∷ []) (epsilon ∷ [])
      (omega arith)

is_in_lang-epsilon_example :
    (is_in_lang silent (97 ∷ 97 ∷ []) true false ≡ true)
    ↔ ((run : List ℕ) × (without epsilon run ≡ 97 ∷ 97 ∷ []) × Accepts silent run)
is_in_lang-epsilon_example =
    Nfa.Closure.Read.is_in_lang-epsilon silent silent-IsNfa (97 ∷ 97 ∷ []) (refl, (refl, tt))

Accepts-remove_epsilon_example :
    (result : Nfa) × (remove_epsilon epsilon silent ≡ some result)
    × ((word : List ℕ)
        → Accepts result word
          ↔ ((run : List ℕ) × (without epsilon run ≡ word) × Accepts silent run))
Accepts-remove_epsilon_example =
    Nfa.RemoveEpsilon.Language.Accepts-remove_epsilon epsilon silent silent-IsNfa

Accepts-concatenate_eps_example :
    (joined : Nfa) × (concatenate_eps alternating dead_end epsilon false ≡ some joined)
    × ((word : List ℕ)
        → Accepts joined word ↔ (
            (run : List ℕ) × (without epsilon run ≡ word)
            × Joins alternating dead_end alternating-IsNfa dead_end-IsNfa epsilon run))
Accepts-concatenate_eps_example =
    Nfa.Concatenate.Epsilon.Language.Accepts-concatenate_eps alternating dead_end alternating-IsNfa
      dead_end-IsNfa epsilon false
