-- ===== src/Nfa/Reach.antt =====
-- src/nfa/nfa.cc: `reachable_states` and `get_reachable_states`. A `StateBoolArray` is a list of
-- Booleans. The worklist is a stack, whose back is the head of the list.
use mata.Common.{
  ℕ, zero, suc, ◌+◌, Bool, true, false, not, ◌&&◌, List, [], ◌∷◌, ◌++◌, Option, none, some,
  if◌then◌else◌, get_or, set, replicate, length,
}
use mata.OrdVector.{ℕ_ranked}
use mata.OrdVector
use mata.SparseSet.{SparseSet, elements}
use mata.Delta.{Delta, StatePost, state_post}
use mata.Nfa.{Nfa, num_of_states}
pub mod Marks
pub mod Reached
pub mod States

-- `reachable[q]`
abbrev pub marked : List Bool → ℕ → Bool
marked reachable q = get_or reachable q false

-- `!states_to_consider.has_value() || states_to_consider.value()[state]`
abbrev pub considers : Option (List Bool) → ℕ → Bool
considers none q = true
considers (some states) q = get_or states q false

-- `worklist.push_back(state)` and `reachable[state] = true`
abbrev pub push : ℕ → List ℕ × List Bool → List ℕ × List Bool
push state (worklist, reachable) = (state ∷ worklist, set reachable state true)

-- The loop over the initial states.
unfoldable pub push_initial : Option (List Bool) → List ℕ → List ℕ × List Bool → List ℕ × List Bool
push_initial consider [] st = st
push_initial consider (state ∷ states) st =
    push_initial consider states (if considers consider state then push state st else st)

-- The loop over the targets of one move.
unfoldable pub push_targets : Option (List Bool) → List ℕ → List ℕ × List Bool → List ℕ × List Bool
push_targets consider [] st = st
push_targets consider (target ∷ targets) st =
    push_targets consider targets
      (if not (marked st.1 target) && considers consider target then push target st else st)

-- The loop over the moves of one state.
unfoldable pub push_moves : Option (List Bool) → StatePost → List ℕ × List Bool → List ℕ × List Bool
unfolding push_targets
push_moves consider [] st = st
push_moves consider (move ∷ moves) st =
    push_moves consider moves (push_targets consider move.targets st)

-- The `while` loop, on fuel: `none` where the fuel runs out before the worklist is empty.
unfoldable pub reach_loop : Delta → Option (List Bool) → ℕ → List ℕ × List Bool → Option (List Bool)
unfolding push_moves state_post
reach_loop delta consider zero st = none
reach_loop delta consider (suc fuel) ([], reachable) = some reachable
reach_loop delta consider (suc fuel) (state ∷ worklist, reachable) =
    reach_loop delta consider fuel
      (push_moves consider (state_post delta state) (worklist, reachable))

-- `reachable_states(nfa, states_to_consider)`. A state enters the worklist once, so that the states
-- of the automaton bound the rounds; one more sees the worklist empty.
unfoldable pub reachable_states : Nfa → Option (List Bool) → Option (List Bool)
unfolding push_initial reach_loop num_of_states elements
reachable_states nfa consider =
    reach_loop nfa.delta consider (num_of_states nfa + 1)
      (push_initial consider (elements nfa.initial) ([], replicate (num_of_states nfa) false))

-- The loop of `get_reachable_states` over the states from `state` on, of which `count` are left.
unfoldable pub collect_states : List Bool → Option (ℕ → Bool) → ℕ → ℕ → List ℕ → List ℕ
collect_states reachable filter zero state reached = reached
collect_states reachable filter (suc count) state reached =
    collect_states reachable filter count (suc state) (
      if marked reachable state && elim filter [ none ↦ true | some test ↦ test state ]
      then (OrdVector.insert state reached).vec
      else reached)

-- `get_reachable_states(filter)`
unfoldable pub get_reachable_states : Nfa → Option (ℕ → Bool) → Option (List ℕ)
unfolding reachable_states collect_states num_of_states
get_reachable_states nfa filter = elim (reachable_states nfa none) [
  | none ↦ none
  | some reachable ↦ some (collect_states reachable filter (num_of_states nfa) 0 [])
]
