-- ===== src/Tests.antt =====
-- Concrete sets, relations and automata, on which the children apply the theorems.
pub mod Sets
pub mod Relations
pub mod Automata
pub mod Constructions
pub mod Maps
use mata.Common.{ℕ, ◌<◌, ◌≡◌, true, ◌||◌, ◌&&◌, ◌==◌, List, [], ◌∷◌, length, arith}
use mata.OrdVector.{ℕ_ranked, IsSorted}
use mata.SparseSet.{SparseSet, empty_set}
use mata.SparseSet
use mata.SparseSet.Invariant.{IsConsistent, IsConsistent-empty}
use mata.SparseSet.Insert.{insert-IsConsistent}
use mata.Delta.{Delta, add}
use mata.Delta.Relation.{has, IsDelta, IsPost-empty, has-add, add-IsDelta, length-add}
use mata.Nfa.{Nfa, num_of_states}
use mata.Nfa.Language.{IsNfa}

-- {3, 7}
abbrev pub three_seven : SparseSet
three_seven = SparseSet.insert 7 (SparseSet.insert 3 empty_set)

pub three_seven-IsConsistent : IsConsistent three_seven
three_seven-IsConsistent = insert-IsConsistent (insert-IsConsistent IsConsistent-empty 3) 7

-- {n}
abbrev pub only : ℕ → SparseSet
only n = SparseSet.insert n empty_set

pub only-IsConsistent : (n : ℕ) → IsConsistent (only n)
only-IsConsistent n = insert-IsConsistent IsConsistent-empty n

pub IsDelta-empty : IsDelta []
IsDelta-empty = record { posts = λ q. IsPost-empty }

-- 0 -a-> 1 and 1 -b-> 0
abbrev pub ping_pong : Delta
ping_pong = add 1 98 0 (add 0 97 1 [])

pub ping_pong-IsDelta : IsDelta ping_pong
ping_pong-IsDelta = add-IsDelta _ 1 98 0 (add-IsDelta [] 0 97 1 IsDelta-empty)

-- The words a, aba, ababa, …
abbrev pub alternating : Nfa
alternating = record { delta = ping_pong; initial = only 0; final = only 1 }

ping_pong-lt : (q a r : ℕ) → has ping_pong q a r ≡ true → r < length ping_pong
ping_pong-lt q a r e = ground (
  arith,
  has-add (add 0 97 1 []) 1 98 0 q a r (add-IsDelta [] 0 97 1 IsDelta-empty),
  has-add [] 0 97 1 q a r IsDelta-empty,
  length-add (add 0 97 1 []) 1 98 0,
)

pub alternating-IsNfa : IsNfa alternating
alternating-IsNfa = record {
  delta_lem = ping_pong-IsDelta;
  initial_lem = only-IsConsistent 0;
  final_lem = only-IsConsistent 1;
  targets_lt = λ q a r e. let lt = ping_pong-lt q a r e in unfold num_of_states in omega arith;
}
