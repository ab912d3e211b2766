-- ===== src/Tests/Maps.antt =====
-- The theorems on iterators, on defragmentation and on two-dimensional maps, at concrete inputs.
use mata.Common.{
  Bool, List, length, ◌⊎◌, ◌≢◌, ℕ, ◌+◌, ◌≡◌, ◌↔◌, true, false, ◌&&◌, [], ◌∷◌, none, some, arith,
  ◌==◌, if◌then◌else◌,
}
use mata.Delta.{Delta, Transition, StatePost, add}
use mata.Delta.Queries.{listed, num_of_transitions}
use mata.Delta.Relation.{has}
use mata.Delta.Iterate.{transitions, delta_eq}
use mata.Delta.Moves.{moves, moves_symbols}
use mata.Delta.Moves.Visits.{moves_of}
use mata.Delta.Moves.Epsilons.{symbols}
use mata.Delta.Defragment.{defragment, make_renaming}
use mata.Delta.Defragment.Transitions.{Named}
use mata.Delta
use mata.TwoDimensionalMap.{
  TwoDimensionalMap, new, get, insert, get_first_inverted, get_second_inverted,
}
use mata.TwoDimensionalMap.Laws.{new-IsSized}
use mata.TwoDimensionalMap
use mata.Delta.Relation.{add-IsDelta}
use mata.Tests.{ping_pong, ping_pong-IsDelta, IsDelta-empty}

-- The transitions of `ping_pong`, added in the other order.
abbrev pong_ping : Delta
pong_ping = add 0 97 1 (add 1 98 0 [])

delta_eq_iff_example :
    (result : Bool) × (delta_eq ping_pong pong_ping ≡ some result)
    × ((result ≡ true) ↔ ((q a r : ℕ) → has ping_pong q a r ≡ has pong_ping q a r))
delta_eq_iff_example =
    Delta.Iterate.Equality.delta_eq_iff ping_pong pong_ping ping_pong-IsDelta
      (add-IsDelta _ 0 97 1 (add-IsDelta [] 1 98 0 IsDelta-empty))

listed-transitions_example :
    (ts : List Transition) × (transitions ping_pong ≡ some ts)
    × (length ts ≡ num_of_transitions ping_pong)
    × ((q a r : ℕ) → listed q a r ts ≡ has ping_pong q a r)
listed-transitions_example = Delta.Iterate.Visits.listed-transitions ping_pong ping_pong-IsDelta

has-defragment_example :
    (has (defragment (true ∷ false ∷ []) (make_renaming 0 (true ∷ false ∷ [])) ping_pong) 0 97 0
      ≡ true)
    ↔ ((q : ℕ) × (r : ℕ) × Named (true ∷ false ∷ []) q 0
        × Named (true ∷ false ∷ []) r 0
        × (has ping_pong q 97 r ≡ true))
has-defragment_example =
    Delta.Defragment.Transitions.has-defragment (true ∷ false ∷ []) ping_pong 0 97 0
      ping_pong-IsDelta

-- Moves under two symbols.
abbrev two_symbols : StatePost
two_symbols =
    record { symbol = 5; targets = 1 ∷ 2 ∷ [] } ∷ record { symbol = 8; targets = 0 ∷ [] } ∷ []

abbrev five : ℕ
five = 5

moves_symbols_lem_example :
    (five ≡ 4_294_967_295) × (moves_symbols five two_symbols ≡ none)
    ⊎ (five ≢ 4_294_967_295)
      × ((range : StatePost) × (moves_symbols five two_symbols ≡ some range)
          × (range ≡ symbols (five + 1) two_symbols)
          × (moves range ≡ some (moves_of (symbols (five + 1) two_symbols))))
moves_symbols_lem_example =
    Delta.Moves.Epsilons.moves_symbols_lem five two_symbols (omega arith) (omega arith)

get-insert_example :
    get (insert 1 2 7 (new 2 3)) 1 2 ≡ (if 1 == 1 && 2 == 2 then 7 else get (new 2 3) 1 2)
unfolding new
get-insert_example =
    TwoDimensionalMap.Laws.get-insert (new 2 3) (new-IsSized 2 3) 1 2 7 (omega arith) (omega arith)
      1 2

inverted-insert_example :
    (get_first_inverted (insert 1 2 7 (new 2 3)) 7
      ≡ (if 7 == 7 then 1 else get_first_inverted (new 2 3) 7))
    × (get_second_inverted (insert 1 2 7 (new 2 3)) 7
        ≡ (if 7 == 7 then 2 else get_second_inverted (new 2 3) 7))
inverted-insert_example = TwoDimensionalMap.Laws.inverted-insert (new 2 3) 1 2 7 7 (omega arith)
