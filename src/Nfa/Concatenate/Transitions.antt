-- ===== src/Nfa/Concatenate/Transitions.antt =====
-- src/nfa/concatenation.cc: the transitions and the final states that `concatenate` makes.
use mata.Common.{
  ℕ, ◌+◌, ◌-◌, ◌≤◌, ◌<◌, ◌≡◌, sym, ap, ◌∙◌, ◌⊎◌, ◌↔◌, inl, inr, Bool, true, ◌&&◌, ◌||◌, List, [],
  ◌∷◌, arith, leb, Bool-cases, ◌==◌, ==_iff,
}
use mata.OrdVector.{ℕ_ranked, member}
use mata.SparseSet.{SparseSet, contains, elements, empty_set}
use mata.SparseSet.Invariant.{IsConsistent, IsConsistent-empty, reserve-IsConsistent}
use mata.SparseSet.Insert.{insert_all_correct}
use mata.SparseSet.Elements.{member-elements}
use mata.Delta.{Delta}
use mata.Delta.Relation.{has}
use mata.Nfa.{Nfa, num_of_states}
use mata.Nfa.Language.{IsNfa}
use mata.Nfa.Unite.{renumber, insert_renumbered}
use mata.Nfa.Unite.Language.{joined, final_lt, contains-insert_renumbered}
use mata.Nfa.Unite.Invariant.{append-IsDelta}
use mata.Nfa.Concatenate.{concatenate}
use mata.Nfa.Concatenate.Loops.{starts, some_in, Joined, connect_parts_correct}

-- An initial state that makes the test true.
starts_iff :
    (n : ℕ) (delta : Delta) (initials : List ℕ) (a r : ℕ)
    → (starts n delta initials a r ≡ true)
      ↔ ((i : ℕ) × (member i initials ≡ true) × (has delta (n + i) a r ≡ true))
starts_iff n delta [] a r = (λ e. cc e, λ (i, m, t). cc m)
starts_iff n delta (ini ∷ initials) a r =
    let (f, g) = starts_iff n delta initials a r in
    (
      λ e. elim (Bool-cases (has delta (n + ini) a r)) [
        | inl here ↦ (ini, ground arith, here)
        | inr there ↦ let (i, m, t) = f (ground arith) in (i, ground arith, t)
      ],
      λ (i, m, t). elim (Bool-cases (ini == i)) [
        | inl here ↦ let same = ap (λ (x : ℕ). has delta (n + x) a r) ((==_iff ini i).0 here) in cc
        | inr there ↦ let e = g (i, ground arith, t) in ground arith
      ],
    )

pub some_in_iff :
    (s : SparseSet) (xs : List ℕ)
    → (some_in s xs ≡ true) ↔ ((i : ℕ) × (member i xs ≡ true) × (contains s i ≡ true))
some_in_iff s [] = (λ e. cc e, λ (i, m, t). cc m)
some_in_iff s (x ∷ xs) =
    let (f, g) = some_in_iff s xs in
    (
      λ e. elim (Bool-cases (contains s x)) [
        | inl here ↦ (x, ground arith, here)
        | inr there ↦ let (i, m, t) = f (ground arith) in (i, ground arith, t)
      ],
      λ (i, m, t). elim (Bool-cases (x == i)) [
        | inl here ↦ let same = ap (contains s) ((==_iff x i).0 here) in ground arith
        | inr there ↦ let e = g (i, ground arith, t) in ground arith
      ],
    )

-- The transitions and the final states of the concatenation.
module _ (this aut : Nfa) (h : IsNfa this) (k : IsNfa aut) where
  abbrev pub n : ℕ
  n = num_of_states this

  abbrev pub both : Delta
  both = joined this aut h k

  abbrev pub result : Nfa
  result = concatenate this aut

  abbrev pub new_fin : SparseSet
  new_fin = insert_renumbered n (n + num_of_states aut) aut.final empty_set

  new_fin-IsConsistent : IsConsistent new_fin
  unfolding insert_renumbered
  new_fin-IsConsistent =
      let moved = renumber (λ state. n + state) (elements aut.final) in
      let room = reserve-IsConsistent IsConsistent-empty (n + num_of_states aut) in
      (insert_all_correct moved _ room).0

  contains-new_fin : (j : ℕ) → contains new_fin j ≡ (leb n j && contains aut.final (j - n))
  contains-new_fin j =
      contains-insert_renumbered this aut h k aut.final empty_set j k.final_lem IsConsistent-empty
      ∙ none_there (leb n j && contains aut.final (j - n))
    where
      none_there : (b : Bool) → (b || contains empty_set j) ≡ b
      none_there b = unfold contains in ground arith

  finals_low : (j : ℕ) → member j (elements this.final) ≡ true → j < n
  finals_low j e = final_lt this aut h k j (sym (member-elements h.final_lem j) ∙ e)

  pub connected :
      Joined n aut.final
        (elements this.final)
        (elements aut.initial)
        (both, new_fin)
        (result.delta, result.final)
  unfolding concatenate
  connected =
      connect_parts_correct n aut.final (elements this.final) finals_low (elements aut.initial)
        (both, new_fin) (append-IsDelta n this.delta aut.delta h.delta_lem k.delta_lem)
        new_fin-IsConsistent

  -- A transition of the concatenation is one of the two automata, or leads from a final state of the
  -- first one where an initial state of the second one leads.
  pub has-result :
      (q a r : ℕ)
      → (has result.delta q a r ≡ true) ↔ (
          (contains this.final q ≡ true)
            × ((i : ℕ) × (contains aut.initial i ≡ true) × (has both (n + i) a r ≡ true))
          ⊎ (has both q a r ≡ true))
  has-result q a r =
      let (f, g) = starts_iff n both (elements aut.initial) a r in
      let fin = member-elements h.final_lem q in
      (
        λ e. elim (Bool-cases (has both q a r)) [
          | inl old ↦ inr old
          | inr new ↦
              let (i, m, t) = f (ground (arith, connected.has_lem q a r)) in
              inl (
                ground (arith, connected.has_lem q a r, fin),
                (i, sym (member-elements k.initial_lem i) ∙ m, t),
              )
        ],
        λ o. elim o [
          | inl (cf, (i, ci, t)) ↦
              let there = g (i, member-elements k.initial_lem i ∙ ci, t) in
              ground (arith, connected.has_lem q a r, fin)
          | inr old ↦ ground (arith, connected.has_lem q a r)
        ],
      )

  -- The final states are those of the second automaton, and those of the first one if the second one
  -- accepts the empty word.
  pub contains-result :
      (j : ℕ)
      → (contains result.final j ≡ true) ↔ (
          (contains this.final j ≡ true)
            × ((i : ℕ) × (contains aut.initial i ≡ true) × (contains aut.final i ≡ true))
          ⊎ (n ≤ j) × (contains aut.final (j - n) ≡ true))
  contains-result j =
      let (f, g) = some_in_iff aut.final (elements aut.initial) in
      let fin = member-elements h.final_lem j in
      (
        λ e. elim (Bool-cases (contains new_fin j)) [
          | inl old ↦ inr (ground (arith, contains-new_fin j))
          | inr new ↦
              let (i, m, t) = f (ground (arith, connected.contains_lem j)) in
              inl (
                ground (arith, connected.contains_lem j, fin),
                (i, sym (member-elements k.initial_lem i) ∙ m, t),
              )
        ],
        λ o. elim o [
          | inl (cf, (i, ci, t)) ↦
              let there = g (i, member-elements k.initial_lem i ∙ ci, t) in
              ground (arith, connected.contains_lem j, fin)
          | inr (l, old) ↦ ground (arith, connected.contains_lem j, contains-new_fin j)
        ],
      )
