-- ===== src/Nfa/Concatenate/Invariant.antt =====
-- src/nfa/concatenation.cc: the concatenation of well-formed automata is well-formed.
use mata.Common.{ℕ, ◌+◌, ◌-◌, ◌≤◌, ◌<◌, ◌≡◌, inl, inr, Bool, true, false, List, [], ◌∷◌, arith}
use mata.SparseSet.{SparseSet, contains, elements, empty_set, reserve}
use mata.SparseSet
use mata.SparseSet.Insert.{domain_le-insert, domain_le-insert_all}
use mata.Delta.{Delta, StatePost, state_post}
use mata.Delta.Relation.{has}
use mata.Nfa.{Nfa, num_of_states}
use mata.Nfa.Language.{IsNfa}
use mata.Nfa.Unite.{renumber, insert_renumbered}
use mata.Nfa.Unite.Language.{has-joined}
use mata.Nfa.Concatenate.{concatenate, connect_finals, connect_parts, add_post}
use mata.Nfa.Concatenate.Transitions.{both, new_fin, connected, has-result}

connect_finals_le :
    (is_final : Bool) (post : StatePost) (finals : List ℕ) (delta : Delta) (new_fin : SparseSet)
    → new_fin.domain_size ≤ (connect_finals is_final post finals (delta, new_fin)).1.domain_size
unfolding connect_finals
connect_finals_le is_final post [] delta new_fin = omega arith
connect_finals_le true post (fin ∷ finals) delta new_fin = omega (
  arith,
  domain_le-insert fin new_fin,
  connect_finals_le true post finals (add_post fin post delta) (SparseSet.insert fin new_fin),
)
connect_finals_le false post (fin ∷ finals) delta new_fin =
    connect_finals_le false post finals (add_post fin post delta) new_fin

connect_parts_le :
    (n : ℕ) (aut_final : SparseSet) (finals initials : List ℕ) (st : Delta × SparseSet)
    → st.1.domain_size ≤ (connect_parts n aut_final finals initials st).1.domain_size
unfolding connect_parts
connect_parts_le n aut_final finals [] st = omega arith
connect_parts_le n aut_final finals (ini ∷ initials) st =
    let is_final = contains aut_final ini in
    let post = state_post st.0 (n + ini) in
    omega (
      arith,
      connect_finals_le is_final post finals st.0 st.1,
      connect_parts_le n aut_final finals initials (connect_finals is_final post finals st),
    )

module _ (this aut : Nfa) (h : IsNfa this) (k : IsNfa aut) where
  new_fin_room : num_of_states this + num_of_states aut ≤ (new_fin this aut h k).domain_size
  unfolding insert_renumbered
  new_fin_room =
      let room = reserve (num_of_states this + num_of_states aut) empty_set in
      let reserved : num_of_states this + num_of_states aut ≤ room.domain_size =
        unfold reserve in ground arith in
      omega (
        arith,
        domain_le-insert_all (renumber (λ state. num_of_states this + state) (elements aut.final))
            room,
      )

  all_states_le : num_of_states this + num_of_states aut ≤ num_of_states (concatenate this aut)
  all_states_le =
      let room = new_fin_room in
      let grows =
        connect_parts_le (num_of_states this) aut.final (elements this.final) (elements aut.initial)
          (both this aut h k, new_fin this aut h k) in
      let final_le : (num_of_states this + num_of_states aut)
          ≤ (concatenate this aut).final.domain_size =
        unfold concatenate in omega arith in
      unfold num_of_states in omega arith

  target_lt :
      (q a r : ℕ)
      → has (both this aut h k) q a r ≡ true
      → r < num_of_states this + num_of_states aut
  target_lt q a r t = ground (
    arith,
    has-joined this aut h k q a r,
    h.targets_lt q a r,
    k.targets_lt (q - num_of_states this) a (r - num_of_states this),
  )

  -- For two well-formed automata, `concatenate` makes a well-formed one; every transition that it
  -- adds ends in a state.
  pub concatenate-IsNfa : IsNfa (concatenate this aut)
  concatenate-IsNfa = record {
    delta_lem = (connected this aut h k).delta_lem;
    initial_lem = unfold concatenate in h.initial_lem;
    final_lem = (connected this aut h k).final_lem;
    targets_lt = λ q a r t.
        let room = all_states_le in
        elim ((has-result this aut h k q a r).0 t) [
          | inl (cf, (i, ci, t')) ↦ omega (arith, target_lt (num_of_states this + i) a r t')
          | inr old ↦ omega (arith, target_lt q a r old)
        ];
  }
