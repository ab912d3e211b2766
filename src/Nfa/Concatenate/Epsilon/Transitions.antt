-- ===== src/Nfa/Concatenate/Epsilon/Transitions.antt =====
-- src/nfa/concatenation.cc: the transitions and the final states of `concatenate_eps`.
use mata.Common.{
  ℕ, ◌+◌, ◌-◌, ◌<◌, ◌≡◌, refl, sym, ap, ◌∙◌, inl, inr, Bool, true, ◌&&◌, ◌||◌, [], arith, ltb, leb,
  ◌==◌, Bool-cases, length, get_or, get_or-resize, get_or-ge, length-resize, ltb→lt, resize,
}
use mata.OrdVector.{ℕ_ranked, member}
use mata.SparseSet.{SparseSet, contains, elements, empty_set}
use mata.SparseSet.Invariant.{IsConsistent, IsConsistent-empty}
use mata.SparseSet.Elements.{member-elements}
use mata.Delta.{Delta, StatePost}
use mata.Delta.Relation.{has, IsDelta}
use mata.Nfa.{Nfa, num_of_states}
use mata.Nfa.Language.{IsNfa}
use mata.Nfa.Complete.Start.{contains-lt}
use mata.Nfa.Concatenate.Epsilon.{add_state_at, connect_epsilons, insert_renamed, add_rhs_states}
use mata.Nfa.Concatenate.Epsilon.Loops.{
  Adds, named_in, names, named_in_lem, connect_epsilons-Adds, insert_renamed_correct,
  add_rhs_states-Adds,
}

get_or-add_state_at :
    (state q : ℕ) (delta : Delta) → get_or (add_state_at state delta) q [] ≡ get_or delta q []
unfolding add_state_at
get_or-add_state_at state q delta = elim (Bool-cases (leb (length delta) state)) [
  | inr stays ↦ rw stays refl
  | inl grows ↦ rw grows (elim (Bool-cases (ltb q (state + 1))) [
    | inl inside ↦ get_or-resize (state + 1) [] delta q (ltb→lt _ _ inside)
    | inr outside ↦
        get_or-ge (resize (state + 1) [] delta) q []
          (ground (arith, length-resize (state + 1) [] delta))
        ∙ sym (get_or-ge delta q [] (ground arith))
  ])
]

add_state_at-IsDelta :
    (state : ℕ) (delta : Delta) → IsDelta delta → IsDelta (add_state_at state delta)
add_state_at-IsDelta state delta d = record {
  posts = λ q. rw (get_or-add_state_at state q delta) (d.posts q);
}

pub add_state_at-room : (state : ℕ) (delta : Delta) → state < length (add_state_at state delta)
unfolding add_state_at
add_state_at-room state delta = ground (arith, length-resize {A = StatePost} (state + 1) [] delta)

member_lt :
    (aut : Nfa) (s : SparseSet)
    → ((j : ℕ) → contains s j ≡ true → j < num_of_states aut)
    → IsConsistent s
    → (j : ℕ) → member j (elements s) ≡ true
    → j < num_of_states aut
member_lt aut s low c j m = low j (sym (member-elements c j) ∙ m)

pub initial_low : (aut : Nfa) (j : ℕ) → contains aut.initial j ≡ true → j < num_of_states aut
initial_low aut j e = let lt = contains-lt aut.initial j e in unfold num_of_states in omega arith

pub final_low : (aut : Nfa) (j : ℕ) → contains aut.final j ≡ true → j < num_of_states aut
final_low aut j e = let lt = contains-lt aut.final j e in unfold num_of_states in omega arith

module _ (lhs rhs : Nfa) (h : IsNfa lhs) (k : IsNfa rhs) (e : ℕ) where
  abbrev pub n : ℕ
  n = num_of_states lhs

  abbrev pub m : ℕ
  m = num_of_states rhs

  abbrev pub grown : Delta
  grown = add_state_at ((n + m) - 1) lhs.delta

  abbrev pub connected : Delta
  connected = connect_epsilons e (names n m) (elements rhs.initial) (elements lhs.final) grown

  abbrev pub result : Nfa
  result = record {
    delta = add_rhs_states (names n m) rhs.delta m 0 connected;
    initial = lhs.initial;
    final = insert_renamed (names n m) (elements rhs.final) empty_set;
  }

  has-grown : (q a r : ℕ) → has grown q a r ≡ has lhs.delta q a r
  has-grown q a r = rw (get_or-add_state_at ((n + m) - 1) q lhs.delta) refl

  pub first_Adds :
      Adds
        (λ q a r.
          member q (elements lhs.final) && a == e && named_in (names n m) (elements rhs.initial) r)
        grown
        connected
  first_Adds =
      connect_epsilons-Adds (names n m) e (elements rhs.initial) (elements lhs.final) grown
        (add_state_at-IsDelta ((n + m) - 1) lhs.delta h.delta_lem)

  pub second_Adds :
      Adds
        (λ q a r. leb (n + 0) q && ltb q (n + m) && leb n r && has rhs.delta (q - n) a (r - n))
        connected
        result.delta
  second_Adds =
      add_rhs_states-Adds n m rhs.delta m 0 connected (omega arith) k.delta_lem k.targets_lt
        first_Adds.kept

  -- The transitions of the result.
  pub has-result :
      (q a r : ℕ)
      → has result.delta q a r ≡ (
          leb n q && ltb q (n + m) && leb n r && has rhs.delta (q - n) a (r - n)
          || contains lhs.final q && a == e && leb n r && contains rhs.initial (r - n)
          || has lhs.delta q a r)
  has-result q a r = ground (
    arith,
    second_Adds.has_lem q a r,
    first_Adds.has_lem q a r,
    has-grown q a r,
    member-elements h.final_lem q,
    named_in_lem n m (elements rhs.initial) r
        (member_lt rhs rhs.initial (initial_low rhs) k.initial_lem),
    member-elements k.initial_lem (r - n),
  )

  pub contains-result : (j : ℕ) → contains result.final j ≡ (leb n j && contains rhs.final (j - n))
  contains-result j =
      (insert_renamed_correct (names n m) (elements rhs.final) empty_set IsConsistent-empty).1 j
      ∙ ap (λ (b : Bool). b || contains empty_set j)
          (named_in_lem n m (elements rhs.final) j
            (member_lt rhs rhs.final (final_low rhs) k.final_lem))
      ∙ ap (λ (b : Bool). leb n j && b || contains empty_set j)
          (member-elements k.final_lem (j - n))
      ∙ none_there (leb n j && contains rhs.final (j - n))
    where
      none_there : (b : Bool) → (b || contains empty_set j) ≡ b
      none_there b = unfold contains in ground arith
