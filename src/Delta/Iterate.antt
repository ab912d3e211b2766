-- ===== src/Delta/Iterate.antt =====
-- include/mata/nfa/delta.hh and src/nfa/delta.cc: the iterators `Delta::Transitions::const_iterator`
-- and `StatePost::Moves::const_iterator`, and `Delta::operator==`. The iterators over symbol posts
-- and targets are the rests that they still have to visit. `*it` at an end reads 0.
use mata.Common.{
  ℕ, zero, suc, ◌+◌, Bool, true, false, not, ◌&&◌, ◌||◌, Option, none, some, List, [], ◌∷◌, ◌==◌,
  if◌then◌else◌, length, get_or, drop,
}
use mata.Delta.{Transition, SymbolPost, StatePost, Delta}
use mata.Delta.Queries.{num_of_moves, num_of_transitions}
pub mod Visits
pub mod Compare
pub mod Equality

-- `Delta::Transitions::const_iterator`
pub record TransitionsIterator : Type 0 where
  pub current_state : ℕ
  pub state_post_it : StatePost
  pub symbol_post_it : List ℕ
  pub is_end : Bool
  pub transition : Transition

-- The assignments at a state post that is not empty.
abbrev pub at_post : ℕ → SymbolPost → StatePost → TransitionsIterator
at_post source p ps = record {
  current_state = source;
  state_post_it = p ∷ ps;
  symbol_post_it = p.targets;
  is_end = false;
  transition = record { source = source; symbol = p.symbol; target = get_or p.targets 0 0 };
}

abbrev pub end_iterator : ℕ → TransitionsIterator
end_iterator source = record {
  current_state = source;
  state_post_it = [];
  symbol_post_it = [];
  is_end = true;
  transition = record { source = 0; symbol = 0; target = 0 };
}

-- The loop of the constructors, which skips empty posts, over the posts from `source` on.
unfoldable pub start_from : ℕ → Delta → TransitionsIterator
start_from source [] = end_iterator source
start_from source ([] ∷ posts) = start_from (suc source) posts
start_from source ((p ∷ ps) ∷ posts) = at_post source p ps

-- `const_iterator(delta)` and `const_iterator(delta, current_state)`
unfoldable pub begin : Delta → TransitionsIterator
unfolding start_from
begin delta = start_from 0 delta

unfoldable pub begin_at : Delta → ℕ → TransitionsIterator
unfolding start_from
begin_at delta current_state = start_from current_state (drop current_state delta)

abbrev pub tail {ℓ} : {A : Type ℓ} → List A → List A
tail [] = []
tail (x ∷ xs) = xs

-- `operator++`
unfoldable pub advance : Delta → TransitionsIterator → TransitionsIterator
unfolding start_from
advance delta it = elim (tail it.symbol_post_it) [
  | target ∷ targets ↦ record it {
    symbol_post_it = target ∷ targets;
    transition = record it.transition { target = target };
  }
  | [] ↦ elim (tail it.state_post_it) [
    | p ∷ ps ↦ record it {
      state_post_it = p ∷ ps;
      symbol_post_it = p.targets;
      transition = record it.transition { symbol = p.symbol; target = get_or p.targets 0 0 };
    }
    | [] ↦ start_from (suc it.current_state) (drop (suc it.current_state) delta)
  ]
]

abbrev pub prepend {ℓ} : {A : Type ℓ} → A → Option (List A) → Option (List A)
prepend x none = none
prepend x (some xs) = some (x ∷ xs)

-- What a loop over the iterator visits until the iterator is at its end, on fuel: `none` where the
-- fuel runs out before.
unfoldable pub visit : ℕ → Delta → TransitionsIterator → Option (List Transition)
unfolding advance
visit zero delta it = none
visit (suc fuel) delta it =
    let rest = visit fuel delta (advance delta it) in
    if it.is_end then some [] else prepend it.transition rest

-- What a loop `for (const Transition& t : delta.transitions())` visits. Each round visits one
-- transition, and one more sees the end.
unfoldable pub transitions : Delta → Option (List Transition)
unfolding visit begin num_of_transitions
transitions delta = visit (num_of_transitions delta + 1) delta (begin delta)

abbrev pub same_transition : Transition → Transition → Bool
same_transition t u = t.source == u.source && t.symbol == u.symbol && t.target == u.target

-- The `while` loop of `operator==` and the `return` behind it, on fuel: `none` where the fuel runs
-- out. An iterator is equal to an `end()` exactly if its `is_end_` is set.
unfoldable pub eq_loop : ℕ → Delta → Delta → TransitionsIterator → TransitionsIterator → Option Bool
unfolding advance
eq_loop zero this other this_it other_it = none
eq_loop (suc fuel) this other this_it other_it =
    let rest = eq_loop fuel this other (advance this this_it) (advance other other_it) in
    if not this_it.is_end
    then if other_it.is_end || not (same_transition this_it.transition other_it.transition)
      then some false
      else rest
    else some other_it.is_end

-- `Delta::operator==`. Every round but the last passes over a transition of `this`.
unfoldable pub delta_eq : Delta → Delta → Option Bool
unfolding eq_loop begin num_of_transitions
delta_eq this other = eq_loop (num_of_transitions this + 1) this other (begin this) (begin other)
