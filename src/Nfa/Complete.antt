-- ===== src/Nfa/Complete.antt =====
-- src/nfa/operations.cc, `Nfa::make_complete`, src/nfa/nfa.cc, `Nfa::complement_deterministic`,
-- and include/mata/nfa/nfa.hh, `Nfa::swap_final_nonfinal`.
use mata.Common.{
  ℕ, zero, suc, Bool, false, not, ◌&&◌, ◌||◌, List, [], ◌∷◌, Option, none, some, leb, ◌==◌,
  if◌then◌else◌,
}
use mata.OrdVector.{ℕ_ranked}
use mata.OrdVector
use mata.OrdVector.Merge.{difference}
use mata.SparseSet
use mata.Delta.{Delta, StatePost, SymbolPost_ranked, state_post, add}
use mata.Nfa.{Nfa, num_of_states, is_empty}
pub mod Sink
pub mod Language
pub mod Keep
pub mod Start
pub mod Complement

-- The loop over the symbol posts of a state, which collects their symbols.
unfoldable pub used_symbols : StatePost → List ℕ → List ℕ
unfolding OrdVector.insert
used_symbols [] used = used
used_symbols (p ∷ ps) used = used_symbols ps (OrdVector.insert p.symbol used).vec

-- The loop that leads the given symbols from a state to the sink.
unfoldable pub add_to_sink : ℕ → ℕ → List ℕ → Delta → Delta
unfolding add
add_to_sink state sink_state [] delta = delta
add_to_sink state sink_state (symbol ∷ symbols) delta =
    add_to_sink state sink_state symbols (add state symbol sink_state delta)

-- The loop over `n` states from `state` on: the relation, and `transition_added`.
unfoldable pub complete_states : List ℕ → ℕ → ℕ → ℕ → Delta × Bool → Delta × Bool
unfolding used_symbols add_to_sink difference state_post
complete_states symbols sink_state zero state st = st
complete_states symbols sink_state (suc n) state (delta, added) =
    let unused = difference symbols (used_symbols (state_post delta state) []) in
    complete_states symbols sink_state n (suc state)
      (add_to_sink state sink_state unused delta, added || not (is_empty unused))

-- `sink_state.value_or(...)`
abbrev pub value_or : Option ℕ → ℕ → ℕ
value_or none y = y
value_or (some x) y = x

-- `make_complete(symbols, sink_state)`: the automaton, and whether a transition was added
unfoldable pub make_complete : Nfa → List ℕ → Option ℕ → Nfa × Bool
unfolding complete_states add_to_sink num_of_states
make_complete aut symbols sink_state =
    let n = num_of_states aut in
    let sink_state_val = value_or sink_state n in
    let r = complete_states symbols sink_state_val n 0 (aut.delta, false) in
    let delta =
      if r.1 && leb n sink_state_val
      then add_to_sink sink_state_val sink_state_val symbols r.0
      else r.0 in
    (record aut { delta = delta }, r.1)

-- `swap_final_nonfinal()`
unfoldable pub swap_final_nonfinal : Nfa → Nfa
unfolding SparseSet.complement num_of_states
swap_final_nonfinal aut = record aut { final = SparseSet.complement (num_of_states aut) aut.final }

-- `if (initial.empty()) { initial.insert(sink); }`
unfoldable pub with_start : ℕ → Nfa → Nfa
unfolding SparseSet.insert
with_start sink aut =
    if aut.initial.size == 0
    then record aut { initial = SparseSet.insert sink aut.initial }
    else aut

-- `complement_deterministic(symbols, sink_state)`
unfoldable pub complement_deterministic : Nfa → List ℕ → Option ℕ → Nfa
unfolding make_complete swap_final_nonfinal with_start num_of_states
complement_deterministic aut symbols sink_state =
    let sink = value_or sink_state (num_of_states aut) in
    swap_final_nonfinal (make_complete (with_start sink aut) symbols (some sink)).0
