-- ===== src/Nfa/Unify.antt =====
-- src/nfa/nfa.cc: `unify_initial`, `unify_final`, `insert_word` and `clear`.
use mata.Common.{ℕ, zero, suc, Bool, not, ◌&&◌, ◌||◌, List, [], ◌∷◌, ◌==◌, if◌then◌else◌}
use mata.SparseSet.{SparseSet, contains, elements}
use mata.SparseSet
use mata.Delta.{Transition, Delta, StatePost, add, state_post}
use mata.Delta.Queries.{get_transitions_to}
use mata.Nfa.{Nfa, add_state}
pub mod Initial
pub mod Language

-- The loops of `unify_initial` over the targets of a symbol post and over a state post.
unfoldable pub copy_targets : ℕ → ℕ → List ℕ → Delta → Delta
unfolding add
copy_targets new_initial_state symbol [] delta = delta
copy_targets new_initial_state symbol (target ∷ targets) delta =
    copy_targets new_initial_state symbol targets (add new_initial_state symbol target delta)

unfoldable pub copy_post : ℕ → StatePost → Delta → Delta
unfolding copy_targets
copy_post new_initial_state [] delta = delta
copy_post new_initial_state (p ∷ ps) delta =
    copy_post new_initial_state ps (copy_targets new_initial_state p.symbol p.targets delta)

-- The loop over the initial states: the relation and the final states.
unfoldable pub unify_initial_loop : ℕ → List ℕ → Delta → SparseSet → Delta × SparseSet
unfolding copy_post state_post contains SparseSet.insert
unify_initial_loop new_initial_state [] delta final = (delta, final)
unify_initial_loop new_initial_state (orig_initial_state ∷ states) delta final =
    unify_initial_loop new_initial_state states
      (copy_post new_initial_state (state_post delta orig_initial_state) delta)
      (if contains final orig_initial_state
        then SparseSet.insert new_initial_state final
        else final)

-- `unify_initial(force_new_state)`
unfoldable pub unify_initial : Bool → Nfa → Nfa
unfolding unify_initial_loop add_state elements SparseSet.clear SparseSet.insert
unify_initial force_new_state aut =
    let (aut', new_initial_state) = add_state aut in
    let r = unify_initial_loop new_initial_state (elements aut'.initial) aut'.delta aut'.final in
    let unified : Nfa = record {
      delta = r.0;
      initial = SparseSet.insert new_initial_state (SparseSet.clear aut'.initial);
      final = r.1;
    } in
    if not force_new_state && (aut.initial.size == 0 || aut.initial.size == 1) then aut else unified

-- The loop of `unify_final` over the transitions to a final state.
unfoldable pub redirect : ℕ → List Transition → Delta → Delta
unfolding add
redirect new_final_state [] delta = delta
redirect new_final_state (transition ∷ transitions) delta =
    redirect new_final_state transitions
      (add transition.source transition.symbol new_final_state delta)

-- The loop over the final states: the relation and the initial states.
unfoldable pub unify_final_loop : ℕ → List ℕ → Delta → SparseSet → Delta × SparseSet
unfolding redirect get_transitions_to contains SparseSet.insert
unify_final_loop new_final_state [] delta initial = (delta, initial)
unify_final_loop new_final_state (orig_final_state ∷ states) delta initial =
    unify_final_loop new_final_state states
      (redirect new_final_state (get_transitions_to delta orig_final_state) delta)
      (if contains initial orig_final_state
        then SparseSet.insert new_final_state initial
        else initial)

-- `unify_final(force_new_state)`
unfoldable pub unify_final : Bool → Nfa → Nfa
unfolding unify_final_loop add_state elements SparseSet.clear SparseSet.insert
unify_final force_new_state aut =
    let (aut', new_final_state) = add_state aut in
    let r = unify_final_loop new_final_state (elements aut'.final) aut'.delta aut'.initial in
    let unified : Nfa = record {
      delta = r.0;
      initial = r.1;
      final = SparseSet.insert new_final_state (SparseSet.clear aut'.final);
    } in
    if not force_new_state && (aut.final.size == 0 || aut.final.size == 1) then aut else unified

-- `clear()`
unfoldable pub clear : Nfa → Nfa
unfolding SparseSet.clear
clear aut = record {
  delta = [];
  initial = SparseSet.clear aut.initial;
  final = SparseSet.clear aut.final;
}

-- The loop of `insert_word` over the inner symbols, with the last transition to `target` behind it.
unfoldable pub insert_inner : ℕ → ℕ → List ℕ → ℕ → Nfa → Nfa
unfolding add_state add
insert_inner prev_state symbol [] target aut = record aut {
  delta = add prev_state symbol target aut.delta;
}
insert_inner prev_state symbol (next ∷ word) target aut =
    let (aut', inner_state) = add_state aut in
    insert_inner inner_state next word target
      (record aut' { delta = add prev_state symbol inner_state aut'.delta })

-- `insert_word(source, word, target)`: the automaton, and the target. The word is not empty.
unfoldable pub insert_word : ℕ → List ℕ → ℕ → Nfa → Nfa × ℕ
unfolding insert_inner
insert_word source [] target aut = (aut, target)
insert_word source (symbol ∷ word) target aut = (insert_inner source symbol word target aut, target)
