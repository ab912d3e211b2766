-- ===== src/Nfa.antt =====
-- include/mata/nfa/nfa.hh, src/nfa/nfa.cc and src/nfa/operations.cc: the automaton, and the
-- operations that read words. The pointers to an alphabet and to attributes take no part in them
-- and are left out. A `StateSet` is the sorted list of its states.
use mata.Common.{
  ℕ, zero, suc, ◌+◌, max, Bool, true, false, not, ◌&&◌, ◌||◌, List, [], ◌∷◌, ◌++◌, Option, none,
  some, ltb, leb, ◌==◌, if◌then◌else◌, length, resize,
}
use mata.OrdVector.{ℕ_ranked}
use mata.OrdVector
use mata.OrdVector.Merge
use mata.OrdVector.Sort.{sort_and_rmdupl}
use mata.SparseSet.{SparseSet, empty_set, elements}
use mata.SparseSet
use mata.Delta.{Delta, StatePost, SymbolPost, SymbolPost_ranked, state_post}
use mata.Delta
pub mod Language
pub mod Read
pub mod Revert
pub mod Complete
pub mod Unite
pub mod Unify
pub mod Closure
pub mod Deterministic
pub mod Trim
pub mod Concatenate
pub mod Reach
pub mod RemoveEpsilon

pub record Nfa : Type 0 where
  pub delta : Delta
  pub initial : SparseSet
  pub final : SparseSet

-- `EPSILON`, the largest symbol
abbrev pub epsilon : ℕ
epsilon = 4_294_967_295

abbrev pub empty_nfa : Nfa
empty_nfa = record { delta = []; initial = empty_set; final = empty_set }

unfoldable pub num_of_states : Nfa → ℕ
num_of_states n = max (max n.initial.domain_size n.final.domain_size) (length n.delta)

-- `Delta::empty()`
unfoldable pub no_transitions : Delta → Bool
no_transitions [] = true
no_transitions ([] ∷ posts) = no_transitions posts
no_transitions ((p ∷ ps) ∷ posts) = false

-- `add_state()`: the automaton and the new state
unfoldable pub add_state : Nfa → Nfa × ℕ
unfolding num_of_states
add_state n =
    let new_state = num_of_states n in
    (record n { delta = resize (new_state + 1) [] n.delta }, new_state)

-- `StateSet(initial)`
unfoldable pub state_set : SparseSet → List ℕ
unfolding sort_and_rmdupl elements
state_set s = sort_and_rmdupl (elements s)

pub data EpsilonClosureOpt : Type 0 where
  closure_none closure_before closure_after closure_before_and_after : EpsilonClosureOpt

abbrev pub is_none : EpsilonClosureOpt → Bool
is_none closure_none = true
is_none closure_before = false
is_none closure_after = false
is_none closure_before_and_after = false

abbrev pub is_empty : List ℕ → Bool
is_empty [] = true
is_empty (x ∷ xs) = false

-- The loop of `mk_epsilon_closure` over the targets of one symbol post: the closure and the queue.
unfoldable pub close_targets : List ℕ → List ℕ × List ℕ → List ℕ × List ℕ
close_targets [] st = st
close_targets (target ∷ targets) (closure, worklist) =
    let r = OrdVector.insert target closure in
    close_targets targets (r.vec, if r.inserted then worklist ++ target ∷ [] else worklist)

-- The loop over the epsilon symbols, for the post of one state.
unfoldable pub close_epsilons : StatePost → List ℕ → List ℕ × List ℕ → List ℕ × List ℕ
unfolding close_targets
close_epsilons post [] st = st
close_epsilons post (eps ∷ epsilons) st =
    close_epsilons post epsilons
      (elim (OrdVector.find_elem eps post) [ none ↦ st | some p ↦ close_targets p.targets st ])

-- The `while` loop, on fuel: `none` where the fuel runs out before the queue is empty.
unfoldable pub close_loop : Delta → List ℕ → ℕ → List ℕ → List ℕ → Option (List ℕ)
unfolding close_epsilons state_post
close_loop delta epsilons zero closure worklist = none
close_loop delta epsilons (suc fuel) closure [] = some closure
close_loop delta epsilons (suc fuel) closure (state ∷ worklist) =
    let st = close_epsilons (state_post delta state) epsilons (closure, worklist) in
    close_loop delta epsilons fuel st.0 st.1

-- `mk_epsilon_closure(source_states, epsilons)`. Every round takes one state from the queue, and a
-- state enters it once, so that the states bound the rounds; one more sees the queue empty.
unfoldable pub mk_epsilon_closure : Nfa → List ℕ → List ℕ → Option (List ℕ)
unfolding close_loop num_of_states
mk_epsilon_closure n source_states epsilons =
    close_loop n.delta epsilons (length source_states + num_of_states n + 1) source_states
      source_states

-- The closure that `post` goes on with. A search that does not end has none; on a well-formed
-- automaton every search ends.
abbrev pub ended : Option (List ℕ) → List ℕ
ended none = []
ended (some closure) = closure

-- The loop of `post` over the states from which it steps.
unfoldable pub post_loop : Delta → ℕ → List ℕ → List ℕ → List ℕ
unfolding state_post
post_loop delta symbol [] res = res
post_loop delta symbol (state ∷ states) res =
    post_loop delta symbol states (elim (OrdVector.find_elem symbol (state_post delta state)) [
      | none ↦ res
      | some p ↦ (Merge.insert_all res p.targets).0
    ])

-- `post(states, symbol, epsilon_closure_opt)`
unfoldable pub post : Nfa → List ℕ → ℕ → EpsilonClosureOpt → List ℕ
unfolding no_transitions post_loop mk_epsilon_closure
post n states symbol opt =
    let eps = epsilon ∷ [] in
    let start = if symbol == epsilon && not (is_none opt) then states else [] in
    let from_states : List ℕ = elim opt [
      | closure_before ↦ ended (mk_epsilon_closure n states eps)
      | _ ↦ states
    ] in
    let res = post_loop n.delta symbol from_states start in
    if no_transitions n.delta
    then start
    else elim opt [ closure_after ↦ ended (mk_epsilon_closure n res eps) | _ ↦ res ]

-- The loop of `read_word` over the word, which stops at the empty set.
unfoldable pub read_loop : Nfa → EpsilonClosureOpt → List ℕ → List ℕ → List ℕ
unfolding post
read_loop n opt current [] = current
read_loop n opt current (sym ∷ word) =
    let next = post n current sym opt in
    let rest = read_loop n opt next word in if is_empty next then next else rest

-- `read_word(run, use_epsilon)`
unfoldable pub read_word : Nfa → List ℕ → Bool → List ℕ
unfolding state_set post read_loop
read_word n word use_epsilon =
    let start = state_set n.initial in
    if use_epsilon
    then read_loop n closure_after (post n start epsilon closure_before) word
    else read_loop n closure_none start word

-- The loop of `is_in_lang` with `match_prefix`.
unfoldable pub prefix_loop : Nfa → EpsilonClosureOpt → List ℕ → List ℕ → Bool
unfolding post
prefix_loop n opt current [] = SparseSet.intersects_with n.final current
prefix_loop n opt current (sym ∷ word) =
    let next = post n current sym opt in
    let rest = prefix_loop n opt next word in
    if SparseSet.intersects_with n.final current
    then true
    else if is_empty next
    then false
    else rest

-- `is_in_lang(run, use_epsilon, match_prefix)`
unfoldable pub is_in_lang : Nfa → List ℕ → Bool → Bool → Bool
unfolding read_word prefix_loop state_set post
is_in_lang n word use_epsilon match_prefix =
    let start = state_set n.initial in
    let by_prefix =
      if use_epsilon
      then prefix_loop n closure_after (post n start epsilon closure_before) word
      else prefix_loop n closure_none start word in
    if match_prefix
    then by_prefix
    else SparseSet.intersects_with n.final (read_word n word use_epsilon)
