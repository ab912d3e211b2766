-- ===== src/Nfa/Concatenate/Epsilon.antt =====
-- src/nfa/concatenation.cc: `concatenate_eps`, which connects the automata by epsilon transitions. The
-- maps from old to new states are lists; the one for the states of `lhs` keeps them. The maps that are
-- passed back to the caller are left out.
use mata.Common.{
  Option, some, ℕ, zero, suc, ◌+◌, ◌-◌, Bool, ◌||◌, List, [], ◌∷◌, leb, ◌==◌, if◌then◌else◌, length,
  get_or, resize,
}
use mata.SparseSet.{SparseSet, elements, empty_set}
use mata.SparseSet
use mata.Delta.{Delta, StatePost, add, state_post}
use mata.Nfa.{Nfa, empty_nfa, num_of_states}
use mata.Nfa.RemoveEpsilon.{remove_epsilon}
pub mod Loops
pub mod Transitions
pub mod Language

-- The loop that numbers `count` states from `result_state_index` on.
abbrev pub renaming_from : ℕ → ℕ → List ℕ
renaming_from result_state_index zero = []
renaming_from result_state_index (suc count) =
    result_state_index ∷ renaming_from (suc result_state_index) count

-- `rhs_states_renaming[state]`
abbrev pub result_state : List ℕ → ℕ → ℕ
result_state renaming state = get_or renaming state 0

-- `add_state(state)` on the relation
unfoldable pub add_state_at : ℕ → Delta → Delta
add_state_at state delta = if leb (length delta) state then resize (state + 1) [] delta else delta

-- The epsilon transitions from one final state, and from all of them.
unfoldable pub add_epsilons : ℕ → List ℕ → ℕ → List ℕ → Delta → Delta
unfolding add
add_epsilons epsilon renaming lhs_final_state [] delta = delta
add_epsilons epsilon renaming lhs_final_state (rhs_initial_state ∷ initials) delta =
    add_epsilons epsilon renaming lhs_final_state initials
      (add lhs_final_state epsilon (result_state renaming rhs_initial_state) delta)

unfoldable pub connect_epsilons : ℕ → List ℕ → List ℕ → List ℕ → Delta → Delta
unfolding add_epsilons
connect_epsilons epsilon renaming initials [] delta = delta
connect_epsilons epsilon renaming initials (lhs_final_state ∷ finals) delta =
    connect_epsilons epsilon renaming initials finals
      (add_epsilons epsilon renaming lhs_final_state initials delta)

-- The final states of the result.
unfoldable pub insert_renamed : List ℕ → List ℕ → SparseSet → SparseSet
unfolding SparseSet.insert
insert_renamed renaming [] final = final
insert_renamed renaming (rhs_final_state ∷ finals) final =
    insert_renamed renaming finals (SparseSet.insert (result_state renaming rhs_final_state) final)

-- The transitions of `rhs`: the loops over targets, moves and states.
unfoldable pub add_rhs_targets : List ℕ → ℕ → ℕ → List ℕ → Delta → Delta
unfolding add
add_rhs_targets renaming source symbol [] delta = delta
add_rhs_targets renaming source symbol (rhs_state_to ∷ targets) delta =
    add_rhs_targets renaming source symbol targets
      (add source symbol (result_state renaming rhs_state_to) delta)

unfoldable pub add_rhs_moves : List ℕ → ℕ → StatePost → Delta → Delta
unfolding add_rhs_targets
add_rhs_moves renaming source [] delta = delta
add_rhs_moves renaming source (rhs_move ∷ moves) delta =
    add_rhs_moves renaming source moves
      (add_rhs_targets renaming source rhs_move.symbol rhs_move.targets delta)

unfoldable pub add_rhs_states : List ℕ → Delta → ℕ → ℕ → Delta → Delta
unfolding add_rhs_moves state_post
add_rhs_states renaming rhs zero rhs_state delta = delta
add_rhs_states renaming rhs (suc count) rhs_state delta =
    add_rhs_states renaming rhs count (suc rhs_state)
      (add_rhs_moves renaming (result_state renaming rhs_state) (state_post rhs rhs_state) delta)

-- The argument of `result.remove_epsilon()`, which is its default.
abbrev pub default_epsilon : ℕ
default_epsilon = 4_294_967_295

-- `concatenate_eps(lhs, rhs, epsilon, use_epsilon)`
unfoldable pub concatenate_eps : Nfa → Nfa → ℕ → Bool → Option Nfa
unfolding add_state_at connect_epsilons insert_renamed add_rhs_states remove_epsilon num_of_states
    elements
concatenate_eps lhs rhs epsilon use_epsilon =
    let lhs_states_num = num_of_states lhs in
    let rhs_states_num = num_of_states rhs in
    let result_num_of_states = lhs_states_num + rhs_states_num in
    let rhs_states_renaming = renaming_from lhs_states_num rhs_states_num in
    let connected =
      connect_epsilons epsilon rhs_states_renaming (elements rhs.initial) (elements lhs.final)
        (add_state_at (result_num_of_states - 1) lhs.delta) in
    let result : Nfa = record {
      delta = add_rhs_states rhs_states_renaming rhs.delta rhs_states_num 0 connected;
      initial = lhs.initial;
      final = insert_renamed rhs_states_renaming (elements rhs.final) empty_set;
    } in
    if lhs_states_num == 0
      || rhs_states_num == 0
      || lhs.initial.size == 0
      || lhs.final.size == 0
      || rhs.initial.size == 0
      || rhs.final.size == 0
    then some empty_nfa
    else if use_epsilon
    then some result
    else remove_epsilon default_epsilon result
