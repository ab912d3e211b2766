-- ===== src/Nfa/Trim.antt =====
-- src/nfa/nfa.cc: `Nfa::trim` and the function `trim`, for the useful states that
-- `get_useful_states` marks, which are an argument here. The renaming that is passed back to the
-- caller is left out.
use mata.Common.{ℕ, Bool, ◌&&◌, List, ltb, length}
use mata.SparseSet.{SparseSet, truncate}
use mata.SparseSet
use mata.Delta.Defragment.{stays, renamed, defragment, defragmented, make_renaming}
use mata.Nfa.{Nfa}
pub mod Language

unfoldable pub is_state_useful : List Bool → ℕ → Bool
is_state_useful useful_states q = ltb q (length useful_states) && stays useful_states q

-- What both functions do to the initial and to the final states.
unfoldable pub trim_states : List Bool → List ℕ → SparseSet → SparseSet
unfolding is_state_useful SparseSet.filter SparseSet.rename truncate
trim_states useful_states renaming s =
    truncate
      (SparseSet.rename (renamed renaming) (SparseSet.filter (is_state_useful useful_states) s))

-- `trim()` in place
unfoldable pub trim : List Bool → Nfa → Nfa
unfolding make_renaming defragment trim_states
trim useful_states this =
    let renaming = make_renaming 0 useful_states in
    record {
      delta = defragment useful_states renaming this.delta;
      initial = trim_states useful_states renaming this.initial;
      final = trim_states useful_states renaming this.final;
    }

-- The function `trim(nfa, …, initial_states, final_states)`
unfoldable pub trimmed : List Bool → Nfa → SparseSet → SparseSet → Nfa
unfolding make_renaming defragmented trim_states
trimmed useful_states nfa initial_states final_states =
    let renaming = make_renaming 0 useful_states in
    record {
      delta = defragmented useful_states renaming nfa.delta;
      initial = trim_states useful_states renaming initial_states;
      final = trim_states useful_states renaming final_states;
    }
