-- ===== src/Nfa/Concatenate.antt =====
-- src/nfa/concatenation.cc: `Nfa::concatenate` and `concatenate_nth_power`, with
-- `create_empty_string_nfa` (src/nfa/builder.cc). The bits of `power` are those of a number, whose
-- 32 bits bound it.
use mata.Common.{
  Option, none, some, ℕ, zero, suc, ◌+◌, ◌/◌, ◌%◌, Bool, true, false, List, [], ◌∷◌, ◌==◌,
  if◌then◌else◌, resize,
}
use mata.SparseSet.{SparseSet, contains, elements, empty_set}
use mata.SparseSet
use mata.Delta.{Delta, SymbolPost, StatePost, add, state_post}
use mata.Nfa.{Nfa, num_of_states}
use mata.Nfa.Unite.{renumber_targets, append, allocate, insert_renumbered}
pub mod Loops
pub mod Transitions
pub mod Invariant
pub mod Language
pub mod Words
pub mod Power
pub mod Epsilon

-- The loop over the targets of one symbol post.
unfoldable pub add_targets : ℕ → ℕ → List ℕ → Delta → Delta
unfolding add
add_targets fin symbol [] delta = delta
add_targets fin symbol (dest ∷ targets) delta =
    add_targets fin symbol targets (add fin symbol dest delta)

-- The loop over the symbol posts of an initial state, for one final state.
unfoldable pub add_post : ℕ → StatePost → Delta → Delta
unfolding add_targets
add_post fin [] delta = delta
add_post fin (ini_mv ∷ ini_post) delta =
    add_post fin ini_post (add_targets fin ini_mv.symbol ini_mv.targets delta)

-- The loop over the final states, for one initial state: the relation and the new final states.
unfoldable pub connect_finals : Bool → StatePost → List ℕ → Delta × SparseSet → Delta × SparseSet
unfolding add_post SparseSet.insert
connect_finals is_final ini_post [] st = st
connect_finals is_final ini_post (fin ∷ finals) (delta, new_fin) =
    connect_finals is_final ini_post finals
      (add_post fin ini_post delta, if is_final then SparseSet.insert fin new_fin else new_fin)

-- The loop over the initial states of the second automaton.
unfoldable pub connect_parts :
    ℕ → SparseSet → List ℕ → List ℕ → Delta × SparseSet → Delta × SparseSet
unfolding connect_finals state_post contains
connect_parts n aut_final finals [] st = st
connect_parts n aut_final finals (ini ∷ initials) st =
    connect_parts n aut_final finals initials
      (connect_finals (contains aut_final ini) (state_post st.0 (n + ini)) finals st)

-- `concatenate(aut)`, for another object `aut`
unfoldable pub concatenate : Nfa → Nfa → Nfa
unfolding num_of_states renumber_targets append allocate insert_renumbered connect_parts elements
concatenate this aut =
    let n = num_of_states this in
    let aut_n = num_of_states aut in
    let joined = append (allocate n this.delta) (renumber_targets (λ st. n + st) aut.delta) in
    let new_fin = insert_renumbered n (n + aut_n) aut.final empty_set in
    let connected =
      connect_parts n aut.final (elements this.final) (elements aut.initial) (joined, new_fin) in
    record { delta = connected.0; initial = this.initial; final = connected.1 }

-- `concatenate(*this)`: the initial and final states are copied before, and the relation that is
-- renumbered is the one that `allocate` has just extended.
unfoldable pub concatenate_self : Nfa → Nfa
unfolding concatenate allocate num_of_states
concatenate_self this =
    concatenate this (record this { delta = allocate (num_of_states this) this.delta })

unfoldable pub create_empty_string_nfa : Nfa
unfolding SparseSet.insert
create_empty_string_nfa =
    let zero_only = SparseSet.insert 0 empty_set in
    record { delta = [] ∷ []; initial = zero_only; final = zero_only }

-- The `while` loop of `concatenate_nth_power`, on fuel: `none` where the fuel runs out
-- before `power` is 0.
unfoldable pub power_loop : ℕ → ℕ → Nfa → Nfa → Option Nfa
unfolding concatenate concatenate_self
power_loop zero power base result = none
power_loop (suc fuel) power base result =
    let result' = if power % 2 == 1 then concatenate result base else result in
    let power' = power / 2 in
    let base' = if power' == 0 then base else concatenate_self base in
    let rest = power_loop fuel power' base' result' in if power == 0 then some result else rest

-- `concatenate_nth_power(nfa_to_concatenate, power)`. Every round halves `power`, so that `power`
-- rounds are enough, and one more sees that it is 0.
unfoldable pub concatenate_nth_power : Nfa → ℕ → Option Nfa
unfolding create_empty_string_nfa power_loop
concatenate_nth_power nfa_to_concatenate power =
    if power == 0
    then some create_empty_string_nfa
    else power_loop (power + 1) power nfa_to_concatenate create_empty_string_nfa
