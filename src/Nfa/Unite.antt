-- ===== src/Nfa/Unite.antt =====
-- src/nfa/nfa.cc, `Nfa::unite_nondet_with`, with `Delta::renumber_targets`, `append` and
-- `allocate` (src/nfa/delta.cc, include/mata/nfa/delta.hh). The two automata are two objects; with
-- one and the same object the code returns it unchanged.
use mata.Common.{ℕ, ◌+◌, List, [], ◌∷◌, ◌++◌, ◌||◌, ◌==◌, if◌then◌else◌, resize}
use mata.SparseSet.{SparseSet, elements, reserve}
use mata.SparseSet
use mata.Delta.{Delta, SymbolPost, StatePost}
use mata.Nfa.{Nfa, num_of_states}
pub mod Language
pub mod Invariant

unfoldable pub renumber : (ℕ → ℕ) → List ℕ → List ℕ
renumber target_renumberer [] = []
renumber target_renumberer (state ∷ states) =
    target_renumberer state ∷ renumber target_renumberer states

unfoldable pub renumber_post : (ℕ → ℕ) → StatePost → StatePost
unfolding renumber
renumber_post target_renumberer [] = []
renumber_post target_renumberer (p ∷ ps) =
    record { symbol = p.symbol; targets = renumber target_renumberer p.targets }
    ∷ renumber_post target_renumberer ps

-- `renumber_targets(target_renumberer)`
unfoldable pub renumber_targets : (ℕ → ℕ) → Delta → Delta
unfolding renumber_post
renumber_targets target_renumberer [] = []
renumber_targets target_renumberer (post ∷ posts) =
    renumber_post target_renumberer post ∷ renumber_targets target_renumberer posts

-- `append(post_vector)`
unfoldable pub append : Delta → Delta → Delta
append delta post_vector = delta ++ post_vector

-- `allocate(num_of_states)`
unfoldable pub allocate : ℕ → Delta → Delta
allocate n delta = resize n [] delta

-- The growth of the initial or final states: `reserve`, and the insertion of the renumbered states.
unfoldable pub insert_renumbered : ℕ → ℕ → SparseSet → SparseSet → SparseSet
unfolding renumber elements SparseSet.insert_all reserve
insert_renumbered num_of_states_this num_of_states_result states to =
    SparseSet.insert_all (renumber (λ state. num_of_states_this + state) (elements states))
      (reserve num_of_states_result to)

-- `unite_nondet_with(nfa)`
unfoldable pub unite_nondet_with : Nfa → Nfa → Nfa
unfolding renumber_targets append allocate insert_renumbered num_of_states
unite_nondet_with this nfa =
    let num_of_states_this = num_of_states this in
    let num_of_states_result = num_of_states_this + num_of_states nfa in
    let united : Nfa = record {
      delta =
          append (allocate num_of_states_this this.delta)
            (renumber_targets (λ state. num_of_states_this + state) nfa.delta);
      initial = insert_renumbered num_of_states_this num_of_states_result nfa.initial this.initial;
      final = insert_renumbered num_of_states_this num_of_states_result nfa.final this.final;
    } in
    if this.final.size == 0 || this.initial.size == 0
    then nfa
    else if nfa.final.size == 0 || nfa.initial.size == 0
    then this
    else united
