-- ===== src/Delta.antt =====
-- include/mata/nfa/delta.hh and src/nfa/delta.cc: the transition relation. A `Delta` is the list of
-- its `state_posts_`, a `StatePost` the sorted vector of its symbol posts. States and symbols are
-- numbers (`State` is `unsigned long`, `Symbol` is `unsigned`). A thrown `std::invalid_argument` is
-- `none`. `reserve` and the move operators have no effect on contents.
use mata.Common.{
  ℕ, zero, suc, ◌+◌, max, Bool, true, false, ◌&&◌, ◌||◌, List, [], ◌∷◌, ◌++◌, Option, none, some,
  ltb, leb, ◌==◌, if◌then◌else◌, length, get_elem?, get_or, insert_at, set, back?, resize,
}
use mata.OrdVector.{
  Ranked, ℕ_ranked, rank, IsSorted, member, lookup, insert, lower_bound, points_to, find, erase,
}
use mata.OrdVector
pub mod Post
pub mod Add
pub mod Relation
pub mod Remove
pub mod Traverse
pub mod Queries
pub mod Iterate
pub mod Moves
pub mod Defragment

pub record Transition : Type 0 where
  pub source : ℕ
  pub symbol : ℕ
  pub target : ℕ

-- The targets that one state reaches under one symbol.
pub record SymbolPost : Type 0 where
  pub symbol : ℕ
  pub targets : List ℕ

-- `operator<=>` and `operator==` of `SymbolPost` compare the symbols alone.
instance abbrev pub SymbolPost_ranked : Ranked SymbolPost
SymbolPost_ranked = record { rank = λ p. p.symbol }

abbrev pub StatePost : Type 0
StatePost = List SymbolPost

abbrev pub Delta : Type 0
Delta = List StatePost

-- `SymbolPost::insert(State)`: at the back where the state is the largest, else where
-- `lower_bound` says, through the inserting function with a hint.
unfoldable pub insert_state : ℕ → List ℕ → List ℕ
unfolding OrdVector.insert_hint lower_bound points_to
insert_state s targets = elim (back? targets) [
  | none ↦ targets ++ s ∷ []
  | some last ↦
      if ltb last s
      then targets ++ s ∷ []
      else (let it = lower_bound s targets in
          if points_to targets it s then targets else (OrdVector.insert_hint targets it s).0)
]

-- `SymbolPost::insert(const StateSet&)`
unfoldable pub insert_states : List ℕ → List ℕ → List ℕ
unfolding insert_state
insert_states [] targets = targets
insert_states (s ∷ states) targets = insert_states states (insert_state s targets)

-- `symbol_transitions->insert(...)` on the symbol post at a position.
unfoldable pub update_targets : (List ℕ → List ℕ) → ℕ → StatePost → StatePost
update_targets f it [] = []
update_targets f zero (p ∷ ps) = record p { targets = f p.targets } ∷ ps
update_targets f (suc it) (p ∷ ps) = p ∷ update_targets f it ps

-- The three branches of `Delta::add` on the post of the source: `fresh` is the symbol post for a
-- symbol that is not yet used, `grow` what happens to the targets of one that is.
unfoldable pub add_to_post : ℕ → List ℕ → (List ℕ → List ℕ) → StatePost → StatePost
unfolding find insert update_targets
add_to_post symbol fresh grow post =
    let new : SymbolPost = record { symbol = symbol; targets = fresh } in
    elim (back? post) [
      | none ↦ (insert new post).vec
      | some back ↦
          if ltb back.symbol symbol then (insert new post).vec else elim (find symbol post) [
            | none ↦ (insert new post).vec
            | some it ↦ update_targets grow it post
          ]
    ]

-- `state_post(source)`, which is also `operator[]`
unfoldable pub state_post : Delta → ℕ → StatePost
state_post delta source = get_or delta source []

unfoldable pub num_of_states : Delta → ℕ
num_of_states delta = length delta

-- `resize_for_states(source, target)`
unfoldable pub resize_for_states : ℕ → ℕ → Delta → Delta
resize_for_states source target delta =
    let max_state = max source target in
    if leb (length delta) max_state then resize (max_state + 1) [] delta else delta

-- `add(source, symbol, target)`
unfoldable pub add : ℕ → ℕ → ℕ → Delta → Delta
unfolding resize_for_states add_to_post insert_state
add source symbol target delta =
    let delta' = resize_for_states source target delta in
    set delta' source
      (add_to_post symbol (target ∷ []) (insert_state target) (get_or delta' source []))

-- `add(source, symbol, targets)`
unfoldable pub add_all : ℕ → ℕ → List ℕ → Delta → Delta
unfolding resize_for_states add_to_post insert_states
add_all source symbol targets delta = elim (back? targets) [
  | none ↦ delta
  | some last ↦
      let delta' = resize_for_states source last delta in
      set delta' source
        (add_to_post symbol targets (insert_states targets) (get_or delta' source []))
]

-- `!symbol_transitions->empty()`
unfoldable pub has_targets : ℕ → StatePost → Bool
has_targets it post = elim (get_elem? post it) [
  | none ↦ false
  | some p ↦ elim p.targets [ [] ↦ false | _ ∷ _ ↦ true ]
]

-- The branches of `remove` on the post of the source.
unfoldable pub remove_from_post : ℕ → ℕ → StatePost → Option StatePost
unfolding find erase update_targets has_targets
remove_from_post symbol target post = elim (back? post) [
  | none ↦ none
  | some back ↦ if ltb back.symbol symbol then none else elim (find symbol post) [
    | none ↦ none
    | some it ↦
        let post' = update_targets (λ targets. (erase target targets).0) it post in
        if has_targets it post' then some post' else some (erase symbol post').0
  ]
]

-- `remove(source, symbol, target)`
unfoldable pub remove : ℕ → ℕ → ℕ → Delta → Option Delta
unfolding remove_from_post
remove source symbol target delta =
    if leb (length delta) source
    then some delta
    else elim (remove_from_post symbol target (get_or delta source [])) [
      | none ↦ none
      | some post ↦ some (set delta source post)
    ]

-- `contains(source, symbol, target)`
unfoldable pub contains : Delta → ℕ → ℕ → ℕ → Bool
unfolding find
contains delta source symbol target =
    if leb (length delta) source
    then false
    else elim (OrdVector.find_elem symbol (get_or delta source [])) [
      | none ↦ false
      | some p ↦ OrdVector.contains target p.targets
    ]
