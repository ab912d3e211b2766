-- ===== src/Lib.antt =====
-- A model of the core of mata, a library for finite automata: its containers, the transition
-- relation and the automaton, with proofs about them.
--
-- The parts, and the files that model them:
-- * `OrdVector` (include/mata/utils/ord-vector.hh, include/mata/utils/utils.hh): sets as sorted
--   vectors. A vector is a list; its order is that of a number, the `rank` of an element, which
--   the interface `Ranked` gives. `OrdVector/Merge` has the walks over two vectors,
--   `OrdVector/Sort` the constructor from a sequence, `OrdVector/Rename` two helpers.
-- * `SparseSet` (include/mata/utils/sparse-set.hh): sets of numbers with constant-time
--   operations, as a record of the four fields of the class.
-- * `Delta` (include/mata/nfa/delta.hh, src/nfa/delta.cc): the transition relation, a list of
--   state posts, each a sorted vector of symbol posts, each with a sorted vector of targets.
--   `Delta/Relation` has the relation that it stands for and its invariant, `Delta/Queries` the
--   queries, `Delta/Traverse` the loops over all transitions, `Delta/Iterate` and `Delta/Moves`
--   the iterators over transitions and over moves, `Delta/Defragment` the removal of states.
-- * `TwoDimensionalMap` (include/mata/utils/two-dimensional-map.hh): a map from pairs of
--   states, as a matrix or a vector of maps.
-- * `Nfa` (include/mata/nfa/nfa.hh, src/nfa/nfa.cc, src/nfa/operations.cc): the automaton, made
--   of a `Delta` and of two `SparseSet`s, and the operations on it. `Nfa/Language` has the
--   language of an automaton as a specification. `Nfa/Read` and `Nfa/Closure` are about reading
--   words, `Nfa/Revert`, `Nfa/Unite`, `Nfa/Unify`, `Nfa/Complete` and `Nfa/Deterministic` about
--   `revert`, `unite_nondet_with`, `unify_initial` and `unify_final`, `make_complete` and
--   `complement_deterministic`, and `is_deterministic`. `Nfa/Reach` is about `reachable_states`
--   and `get_reachable_states`, `Nfa/Trim` about `trim`, `Nfa/RemoveEpsilon` about
--   `remove_epsilon`, and `Nfa/Concatenate` (src/nfa/concatenation.cc) about `concatenate`,
--   `concatenate_eps` and `concatenate_nth_power`.
-- * `Worklist` has the scheme of the searches over states. `Common` has tests, lists and
--   counting that the parts share; `Tests` applies the theorems to concrete sets and automata.
--
-- A function of the code has its own name here; a method takes the object as an argument and
-- returns the new one. States and symbols are numbers without a bound, so that the wrap-around of
-- `State` and `Symbol` (at the largest numbers) is not modelled. An exception is `none`. A loop
-- that is not structural runs on fuel. Where a condition of its own ends the loop, the model is
-- `none` when the fuel runs out before the condition holds, so that a result shows that the loop
-- ends: `mk_epsilon_closure` has the sum of the given states and the states of the automaton, each
-- of which enters the queue once, and one round for the empty queue, `reachable_states` the states
-- of the automaton, each of which is pushed once, and one, the fixpoint of `remove_epsilon` the
-- pairs of states, since every round but the last adds one to a closure, and one, a loop over
-- transitions or moves, and the loop of `Delta::operator==`, their number and one round that sees
-- the end of the iterator, and `concatenate_nth_power` the exponent, which every round halves, and
-- one. `post` goes on with the closure that `mk_epsilon_closure` returns; on a well-formed
-- automaton there always is one. The loop of `SparseSet.filter` counts its rounds by the size of
-- the set, of which every round passes or erases one number, and that of `filter` in utils.hh by
-- the length of the vector. The useful states that `trim` keeps are an argument, since the
-- depth-first search of `get_useful_states` is not modelled.
--
-- Not modelled: memory (moves, capacities, iterator validity), the alphabet and the attributes
-- of an automaton, the renamings that are passed back to a caller, determinization, products,
-- inclusion, reduction and minimization, input and output, the transducers under nft, the
-- parser, and the libraries under 3rdparty.
pub mod Common
pub mod OrdVector
pub mod SparseSet
pub mod TwoDimensionalMap
pub mod Delta
pub mod Worklist
pub mod Nfa
pub mod Tests
