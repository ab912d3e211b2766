-- ===== src/Nfa/RemoveEpsilon.antt =====
-- src/nfa/operations.cc: `remove_epsilon`. The map from states to their closures is a list of sorted
-- vectors, one for each state; a state that the map does not hold has the empty one, which adds
-- nothing to the result. The map is walked in the order of the states.
use mata.Common.{
  ℕ, zero, suc, ◌+◌, ◌*◌, Bool, true, false, ◌||◌, List, [], ◌∷◌, Option, none, some, ◌==◌,
  if◌then◌else◌, get_or, set,
}
use mata.OrdVector.{ℕ_ranked}
use mata.OrdVector
use mata.OrdVector.Merge
use mata.SparseSet.{SparseSet, contains}
use mata.SparseSet
use mata.Delta.{Delta, SymbolPost, SymbolPost_ranked, StatePost, state_post}
use mata.Nfa.{Nfa, num_of_states}
use mata.Nfa.Concatenate.{add_targets}
pub mod Fixpoint
pub mod Round
pub mod Result
pub mod Language

abbrev pub Closures : Type 0
Closures = List (List ℕ)

-- `epsilon_closure[state]`
abbrev pub closure : Closures → ℕ → List ℕ
closure closures state = get_or closures state []

-- `epsilon_closure.insert({i, {i}})`, which changes nothing where `i` is there
abbrev pub with_self : ℕ → List ℕ → List ℕ
with_self i [] = i ∷ []
with_self i (x ∷ xs) = x ∷ xs

-- The first loop, over the symbol posts of `i`.
unfoldable pub start_closure : ℕ → ℕ → StatePost → List ℕ → List ℕ
start_closure epsilon i [] states = states
start_closure epsilon i (trans ∷ post) states =
    let own = with_self i states in
    start_closure epsilon i post
      (if trans.symbol == epsilon then (Merge.insert_all own trans.targets).0 else own)

-- The loop over `count` states from `i` on.
unfoldable pub start_closures : ℕ → Delta → ℕ → ℕ → Closures
unfolding start_closure state_post
start_closures epsilon delta zero i = []
start_closures epsilon delta (suc count) i =
    start_closure epsilon i (state_post delta i) [] ∷ start_closures epsilon delta count (suc i)

-- Is some state of the target's closure not in the source's?
unfoldable pub any_new : List ℕ → List ℕ → Bool
any_new src_eps_cl [] = false
any_new src_eps_cl (st ∷ tgt_eps_cl) =
    let rest = any_new src_eps_cl tgt_eps_cl in
    if OrdVector.count st src_eps_cl == 0 then true else rest

-- The loop over the epsilon targets of the state `i`: the closures and `changed`.
unfoldable pub spread_targets : ℕ → List ℕ → Closures × Bool → Closures × Bool
unfolding any_new
spread_targets i [] st = st
spread_targets i (tgt ∷ targets) (closures, changed) =
    let src_eps_cl = closure closures i in
    let tgt_eps_cl = closure closures tgt in
    spread_targets i targets (
      set closures i (Merge.insert_all src_eps_cl tgt_eps_cl).0,
      changed || any_new src_eps_cl tgt_eps_cl,
    )

-- One round of the fixpoint, over `count` states from `i` on.
unfoldable pub spread_states : ℕ → Delta → ℕ → ℕ → Closures × Bool → Closures × Bool
unfolding spread_targets state_post
spread_states epsilon delta zero i st = st
spread_states epsilon delta (suc count) i st =
    spread_states epsilon delta count (suc i)
      (elim (OrdVector.find_elem epsilon (state_post delta i)) [
        | none ↦ st
        | some eps_move ↦ spread_targets i eps_move.targets st
      ])

-- `while (changed)`, on fuel: `none` where the fuel runs out before a round changes nothing.
unfoldable pub fixpoint : ℕ → Delta → ℕ → ℕ → Closures → Option Closures
unfolding spread_states
fixpoint epsilon delta num_of_states zero closures = none
fixpoint epsilon delta num_of_states (suc fuel) closures =
    let st = spread_states epsilon delta num_of_states 0 (closures, false) in
    let rest = fixpoint epsilon delta num_of_states fuel st.0 in if st.1 then rest else some st.0

-- The moves of a state of the closure, but those under epsilon.
unfoldable pub add_moves : ℕ → ℕ → StatePost → Delta → Delta
unfolding add_targets
add_moves epsilon state [] delta = delta
add_moves epsilon state (move ∷ post) delta =
    add_moves epsilon state post
      (if move.symbol == epsilon then delta else add_targets state move.symbol move.targets delta)

-- The loop over the closure of `state`: the relation and the final states of the result.
unfoldable pub add_closure : ℕ → Nfa → ℕ → List ℕ → Delta × SparseSet → Delta × SparseSet
unfolding add_moves state_post contains SparseSet.insert
add_closure epsilon aut state [] st = st
add_closure epsilon aut state (eps_cl_state ∷ closure_states) (delta, final) =
    add_closure epsilon aut state closure_states (
      add_moves epsilon state (state_post aut.delta eps_cl_state) delta,
      if contains aut.final eps_cl_state then SparseSet.insert state final else final,
    )

unfoldable pub add_closures : ℕ → Nfa → ℕ → Closures → Delta × SparseSet → Delta × SparseSet
unfolding add_closure
add_closures epsilon aut state [] st = st
add_closures epsilon aut state (closure_states ∷ closures) st =
    add_closures epsilon aut (suc state) closures (add_closure epsilon aut state closure_states st)

-- `remove_epsilon(aut, epsilon)`. Every round of the fixpoint but the last adds a state to some
-- closure, so that the pairs of states bound the rounds.
unfoldable pub remove_epsilon : ℕ → Nfa → Option Nfa
unfolding start_closures fixpoint add_closures num_of_states
remove_epsilon epsilon aut =
    let n = num_of_states aut in
    elim (fixpoint epsilon aut.delta n (n * n + 1) (start_closures epsilon aut.delta n 0)) [
      | none ↦ none
      | some closures ↦
          let built = add_closures epsilon aut 0 closures ([], aut.final) in
          some (record { delta = built.0; initial = aut.initial; final = built.1 })
    ]
