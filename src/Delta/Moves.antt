-- ===== src/Delta/Moves.antt =====
-- include/mata/nfa/delta.hh and src/nfa/delta.cc: `StatePost::Moves`, the iterator over the moves of a
-- range of symbol posts, and `first_epsilon_it`, which splits a post at the first epsilon. A range is
-- the list of the symbol posts from its begin to its end. A thrown `std::runtime_error` is `none`.
use mata.Common.{
  ℕ, zero, suc, ◌+◌, Bool, true, false, List, [], ◌∷◌, Option, none, some, ltb, leb, ◌==◌,
  if◌then◌else◌, length, get_elem?, get_or, take, drop,
}
use mata.Delta.{SymbolPost, StatePost}
use mata.Delta.Queries.{num_of_moves}
use mata.Delta.Iterate.{tail, prepend}
pub mod Visits
pub mod Epsilons

pub record Move : Type 0 where
  pub symbol : ℕ
  pub target : ℕ

-- `StatePost::Moves::const_iterator`
pub record MovesIterator : Type 0 where
  pub symbol_post_it : StatePost
  pub target_it : List ℕ
  pub is_end : Bool
  pub move : Move

-- `const_iterator(state_post, symbol_post_it, symbol_post_end)`
abbrev pub start : StatePost → MovesIterator
start [] = record {
  symbol_post_it = [];
  target_it = [];
  is_end = true;
  move = record { symbol = 0; target = 0 };
}
start (p ∷ ps) = record {
  symbol_post_it = p ∷ ps;
  target_it = p.targets;
  is_end = false;
  move = record { symbol = p.symbol; target = get_or p.targets 0 0 };
}

-- `operator++`
unfoldable pub advance : MovesIterator → MovesIterator
advance it = elim (tail it.target_it) [
  | target ∷ targets ↦ record it {
    target_it = target ∷ targets;
    move = record it.move { target = target };
  }
  | [] ↦ elim (tail it.symbol_post_it) [
    | p ∷ ps ↦ record it {
      symbol_post_it = p ∷ ps;
      target_it = p.targets;
      move = record { symbol = p.symbol; target = get_or p.targets 0 0 };
    }
    | [] ↦ record it { symbol_post_it = []; target_it = []; is_end = true }
  ]
]

-- What a loop over the iterator visits until the iterator is at its end, on fuel: `none` where the
-- fuel runs out before.
unfoldable pub visit : ℕ → MovesIterator → Option (List Move)
unfolding advance
visit zero it = none
visit (suc fuel) it =
    let rest = visit fuel (advance it) in if it.is_end then some [] else prepend it.move rest

-- What a loop `for (const Move& move : range)` visits. Each round visits one move, and one more sees
-- the end.
unfoldable pub moves : StatePost → Option (List Move)
unfolding visit num_of_moves
moves range = visit (num_of_moves range + 1) (start range)

-- The loop of `first_epsilon_it` from the position `it` down, and the check behind it.
unfoldable pub first_epsilon_loop : ℕ → StatePost → ℕ → ℕ
first_epsilon_loop first_epsilon post zero = elim (get_elem? post 0) [
  | none ↦ length post
  | some p ↦ if leb first_epsilon p.symbol then 0 else length post
]
first_epsilon_loop first_epsilon post (suc it) =
    let rest = first_epsilon_loop first_epsilon post it in
    elim (get_elem? post it) [
      | none ↦ length post
      | some p ↦ if ltb p.symbol first_epsilon then suc it else rest
    ]

-- `first_epsilon_it(first_epsilon)`: the position
unfoldable pub first_epsilon_it : ℕ → StatePost → ℕ
unfolding first_epsilon_loop
first_epsilon_it first_epsilon post = first_epsilon_loop first_epsilon post (length post)

-- `moves_epsilons(first_epsilon)`: the range
unfoldable pub moves_epsilons : ℕ → StatePost → StatePost
unfolding first_epsilon_it
moves_epsilons first_epsilon post = drop (first_epsilon_it first_epsilon post) post

-- `moves_symbols(last_symbol)`, which refuses the default epsilon: the range
unfoldable pub moves_symbols : ℕ → StatePost → Option StatePost
unfolding first_epsilon_it
moves_symbols last_symbol post =
    if last_symbol == 4_294_967_295
    then none
    else some (take (first_epsilon_it (last_symbol + 1) post) post)
