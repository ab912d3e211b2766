-- ===== src/Nfa/Deterministic.antt =====
-- src/nfa/operations.cc: `is_deterministic` and `read_word_det`.
use mata.Common.{
  ℕ, zero, suc, ◌+◌, ◌≤◌, ◌<◌, ◌≡◌, refl, sym, subst, ◌⊎◌, inl, inr, Bool, true, false, not, List,
  [], ◌∷◌, Option, none, some, arith, ◌==◌, if◌then◌else◌, Bool-cases, length, get_or,
}
use mata.OrdVector.{ℕ_ranked, member}
use mata.SparseSet.{SparseSet, contains, dense_at}
use mata.Delta.{Delta, StatePost, SymbolPost_ranked, state_post}
use mata.Delta.Post.{targets_of}
use mata.Delta.Queries.{get_successors}
use mata.Delta.Relation.{has}
use mata.Nfa.{Nfa, num_of_states, no_transitions}
use mata.Nfa.Language.{IsNfa, source_lt}
use mata.Nfa.Complete.Language.{IsDeterministic}

-- `symbol_post.num_of_targets() != 1` over the symbol posts of a state.
unfoldable pub single_targets : StatePost → Bool
single_targets [] = true
single_targets (p ∷ ps) = if length p.targets == 1 then single_targets ps else false

-- The loop over `n` states from `i` on.
unfoldable pub single_loop : ℕ → ℕ → Delta → Bool
unfolding single_targets state_post
single_loop zero i delta = true
single_loop (suc n) i delta =
    let rest = single_loop n (suc i) delta in
    if single_targets (state_post delta i) then rest else false

unfoldable pub is_deterministic : Nfa → Bool
unfolding no_transitions single_loop num_of_states
is_deterministic aut =
    if not (aut.initial.size == 1)
    then false
    else if no_transitions aut.delta
    then true
    else single_loop (num_of_states aut) 0 aut.delta

-- The loop of `read_word_det` over the word.
unfoldable pub read_det_loop : Delta → ℕ → List ℕ → Option ℕ
unfolding get_successors
read_det_loop delta current_post [] = some current_post
read_det_loop delta current_post (sym ∷ word) = elim (get_successors delta current_post sym) [
  | [] ↦ none
  | next ∷ _ ↦ read_det_loop delta next word
]

-- `read_word_det(run)`
unfoldable pub read_word_det : Nfa → List ℕ → Option ℕ
unfolding read_det_loop
read_word_det aut word =
    if aut.initial.size == 0 then none else read_det_loop aut.delta (dense_at aut.initial 0) word

single_targets_lem :
    (a : ℕ) (post : StatePost) (r t : ℕ)
    → single_targets post ≡ true
    → member r (targets_of a post) ≡ true
    → member t (targets_of a post) ≡ true
    → r ≡ t
unfolding single_targets
single_targets_lem a [] r t e k l = cc
single_targets_lem a (p ∷ ps) r t e k l = elim (Bool-cases (p.symbol == a)) [
  | inl here ↦
      one p.targets (ground arith) (rw (here, targets_of) at k) (rw (here, targets_of) at l)
  | inr there ↦
      single_targets_lem a ps r t (ground arith) (rw (there, targets_of) at k)
        (rw (there, targets_of) at l)
]
  where
    one : (ts : List ℕ) → (length ts == 1) ≡ true → member r ts ≡ true → member t ts ≡ true → r ≡ t
    one [] e k l = cc
    one (x ∷ []) e k l = ground arith
    one (x ∷ y ∷ ys) e k l = ground arith

single_loop_lem :
    (n i : ℕ) (delta : Delta) (q : ℕ)
    → single_loop n i delta ≡ true
    → i ≤ q
    → q < i + n
    → single_targets (get_or delta q []) ≡ true
unfolding single_loop state_post
single_loop_lem zero i delta q e lo hi = ground arith
single_loop_lem (suc n) i delta q e lo hi = elim (Bool-cases (i == q)) [
  | inl here ↦
      subst (λ (x : ℕ). single_targets (get_or delta x []) ≡ true) (at_i i q here) (ground arith)
  | inr later ↦ single_loop_lem n (suc i) delta q (ground arith) (ground arith) (omega arith)
]
  where
    at_i : (i q : ℕ) → (i == q) ≡ true → i ≡ q
    at_i i q e = ground arith

no_transitions_lem :
    (delta : Delta) (q a r : ℕ) → no_transitions delta ≡ true → has delta q a r ≡ false
unfolding no_transitions
no_transitions_lem [] q a r e = refl
no_transitions_lem ([] ∷ posts) zero a r e = refl
no_transitions_lem ([] ∷ posts) (suc q) a r e = no_transitions_lem posts q a r e
no_transitions_lem ((p ∷ ps) ∷ posts) q a r e = cc

one_initial :
    (s : SparseSet) (i j : ℕ)
    → (s.size == 1) ≡ true
    → contains s i ≡ true
    → contains s j ≡ true
    → i ≡ j
unfolding contains
one_initial s i j e k l = ground arith

is_deterministic-cases :
    (aut : Nfa)
    → is_deterministic aut ≡ true
    → ((aut.initial.size == 1) ≡ true)
      × ((no_transitions aut.delta ≡ true) ⊎ (single_loop (num_of_states aut) 0 aut.delta ≡ true))
unfolding is_deterministic
is_deterministic-cases aut e = elim (Bool-cases (no_transitions aut.delta)) [
  | inl empty ↦ (ground arith, inl empty)
  | inr some_there ↦ (ground arith, inr (ground arith))
]

-- A well-formed automaton that passes `is_deterministic` has one initial state at most, and one
-- target at most for each source and symbol.
pub is_deterministic-IsDeterministic :
    (aut : Nfa) → IsNfa aut → is_deterministic aut ≡ true → IsDeterministic aut
is_deterministic-IsDeterministic aut h e =
    let (one, cases) = is_deterministic-cases aut e in
    record {
      one_start = λ i j k l. one_initial aut.initial i j one k l;
      one_target = λ q a r t k l. elim cases [
        | inl empty ↦ cc (no_transitions_lem aut.delta q a r empty, k)
        | inr loop ↦
            single_targets_lem a (get_or aut.delta q []) r t
              (single_loop_lem (num_of_states aut) 0 aut.delta q loop (omega arith)
                (omega (arith, source_lt aut q a r k)))
              k l
      ];
    }
