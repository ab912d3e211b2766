-- ===== src/Delta/Queries.antt =====
-- src/nfa/delta.cc: queries on the transition relation.
use mata.Common.{
  ℕ, zero, suc, ◌+◌, ◌-◌, ◌≡◌, ◌↔◌, refl, sym, ap, ◌∙◌, Bool, true, false, ◌&&◌, ◌||◌, List, [],
  ◌∷◌, ◌++◌, none, some, arith, ltb, leb, ◌==◌, if◌then◌else◌, length, get_or, Bool-cases, inl, inr,
}
use mata.OrdVector.{ℕ_ranked, IsSorted, Above, member, lookup, find, find_elem}
use mata.OrdVector
use mata.OrdVector.Merge.{insert_all}
use mata.OrdVector.Lookup.{find_elem-eq-lookup, contains-eq-member, lookup-Above}
use mata.OrdVector.Sort.{sort_and_rmdupl, sort_and_rmdupl_correct}
use mata.Delta.{Transition, SymbolPost_ranked, StatePost, Delta, state_post}
use mata.Delta.Post.{targets_of, HasTargets, IsPost}
use mata.Delta.Relation.{has, IsDelta}

-- `StatePost::get_successors()`
unfoldable pub all_successors : StatePost → List ℕ → List ℕ
unfolding insert_all
all_successors [] successors = successors
all_successors (p ∷ ps) successors = all_successors ps (insert_all successors p.targets).0

-- `get_successors(state, symbol)`
unfoldable pub get_successors : Delta → ℕ → ℕ → List ℕ
unfolding find_elem state_post
get_successors delta state symbol = elim (find_elem symbol (state_post delta state)) [
  | none ↦ []
  | some p ↦ p.targets
]

-- The loop over the symbol posts of `state_from` in `get_transitions_to` and
-- `get_transitions_between`.
unfoldable pub post_transitions : ℕ → ℕ → StatePost → List Transition
unfolding OrdVector.contains
post_transitions state_from state_to [] = []
post_transitions state_from state_to (p ∷ ps) =
    let rest = post_transitions state_from state_to ps in
    if OrdVector.contains state_to p.targets
    then record { source = state_from; symbol = p.symbol; target = state_to } ∷ rest
    else rest

-- `get_transitions_between(state_from, state_to)`
unfoldable pub get_transitions_between : Delta → ℕ → ℕ → List Transition
unfolding post_transitions state_post
get_transitions_between delta state_from state_to =
    post_transitions state_from state_to (state_post delta state_from)

-- The loop of `get_transitions_to` over the states from `state_from` on, given by their posts.
unfoldable pub transitions_to_loop : ℕ → ℕ → List StatePost → List Transition
unfolding post_transitions
transitions_to_loop state_from state_to [] = []
transitions_to_loop state_from state_to (post ∷ posts) =
    post_transitions state_from state_to post ++ transitions_to_loop (suc state_from) state_to posts

-- `get_transitions_to(state_to)`
unfoldable pub get_transitions_to : Delta → ℕ → List Transition
unfolding transitions_to_loop
get_transitions_to delta state_to = transitions_to_loop 0 state_to delta

-- `StatePost::num_of_moves()`
unfoldable pub num_of_moves : StatePost → ℕ
num_of_moves [] = 0
num_of_moves (p ∷ ps) = length p.targets + num_of_moves ps

-- `num_of_transitions()`
unfoldable pub num_of_transitions : Delta → ℕ
unfolding num_of_moves
num_of_transitions [] = 0
num_of_transitions (post ∷ posts) = num_of_moves post + num_of_transitions posts

-- The symbols in the order of the loops of `get_used_symbols_vec`.
unfoldable pub post_symbols : StatePost → List ℕ
post_symbols [] = []
post_symbols (p ∷ ps) = p.symbol ∷ post_symbols ps

unfoldable pub all_symbols : Delta → List ℕ
unfolding post_symbols
all_symbols [] = []
all_symbols (post ∷ posts) = post_symbols post ++ all_symbols posts

-- `get_used_symbols_vec()`
unfoldable pub get_used_symbols_vec : Delta → List ℕ
unfolding all_symbols sort_and_rmdupl
get_used_symbols_vec delta = sort_and_rmdupl (all_symbols delta)

unfoldable pub post_max : ℕ → StatePost → ℕ
post_max max [] = max
post_max max (p ∷ ps) = post_max (if ltb max p.symbol then p.symbol else max) ps

unfoldable pub max_symbol_loop : ℕ → Delta → ℕ
unfolding post_max
max_symbol_loop max [] = max
max_symbol_loop max (post ∷ posts) = max_symbol_loop (post_max max post) posts

-- `get_max_symbol()`
unfoldable pub get_max_symbol : Delta → ℕ
unfolding max_symbol_loop
get_max_symbol delta = max_symbol_loop 0 delta

-- On a well-formed relation, `get_successors` of a state and a symbol returns the targets under
-- the symbol, none where it is not used.
pub get_successors_lem :
    (delta : Delta) (q a : ℕ)
    → IsDelta delta
    → get_successors delta q a ≡ targets_of a (get_or delta q [])
unfolding get_successors state_post
get_successors_lem delta q a d =
    rw (get_successors, find_elem-eq-lookup a (get_or delta q []) ((d.posts q).sorted)) refl

-- Is the transition in the list?
abbrev pub listed : ℕ → ℕ → ℕ → List Transition → Bool
listed q a r [] = false
listed q a r (t ∷ ts) = t.source == q && t.symbol == a && t.target == r || listed q a r ts

pub listed-append :
    (q a r : ℕ) (ts us : List Transition)
    → listed q a r (ts ++ us) ≡ (listed q a r ts || listed q a r us)
listed-append q a r [] us = refl
listed-append q a r (t ∷ ts) us = ground (arith, listed-append q a r ts us)

module _ (s : ℕ) where
  listed-post_transitions :
      (q0 q a r : ℕ) (post : StatePost)
      → IsSorted post
      → HasTargets post
      → listed q a r (post_transitions q0 s post)
        ≡ (q0 == q && s == r && member s (targets_of a post))
  unfolding post_transitions
  listed-post_transitions q0 q a r [] o h = ground arith
  listed-post_transitions q0 q a r (p ∷ ps) o h =
      elim (Bool-cases (OrdVector.contains s p.targets)) [
        | inl there ↦ ground (
          arith,
          listed-post_transitions q0 q a r ps,
          contains-eq-member s p.targets,
          lookup-Above a p.symbol ps,
        )
        | inr missing ↦ ground (
          arith,
          listed-post_transitions q0 q a r ps,
          contains-eq-member s p.targets,
          lookup-Above a p.symbol ps,
        )
      ]

  listed-transitions_to_loop :
      (i q a r : ℕ) (posts : Delta)
      → ((j : ℕ) → IsPost (get_or posts j []))
      → listed q a r (transitions_to_loop i s posts)
        ≡ (leb i q && s == r && member s (targets_of a (get_or posts (q - i) [])))
  unfolding transitions_to_loop
  listed-transitions_to_loop i q a r [] d = ground arith
  listed-transitions_to_loop i q a r (post ∷ posts) d =
      listed-append q a r (post_transitions i s post) (transitions_to_loop (suc i) s posts)
      ∙ elim (Bool-cases (leb q i)) [
        | inl first ↦ ground (
          arith,
          listed-post_transitions i q a r post (d 0).sorted (d 0).filled,
          listed-transitions_to_loop (suc i) q a r posts (λ j. d (suc j)),
          ap (λ (k : ℕ). member s (targets_of a (get_or (post ∷ posts) k []))) (at_first first),
        )
        | inr later ↦ ground (
          arith,
          listed-post_transitions i q a r post (d 0).sorted (d 0).filled,
          listed-transitions_to_loop (suc i) q a r posts (λ j. d (suc j)),
          ap (λ (k : ℕ). member s (targets_of a (get_or (post ∷ posts) k []))) (at_later later),
        )
      ]
    where
      at_first : leb q i ≡ true → q - i ≡ 0
      at_first e = ground arith

      at_later : leb q i ≡ false → q - i ≡ suc (q - suc i)
      at_later e = ground arith

-- On a well-formed relation, `get_transitions_to` lists exactly the transitions whose target is
-- the given state.
pub listed-get_transitions_to :
    (delta : Delta) (s q a r : ℕ)
    → IsDelta delta
    → listed q a r (get_transitions_to delta s) ≡ (s == r && has delta q a s)
unfolding get_transitions_to
listed-get_transitions_to delta s q a r d =
    listed-transitions_to_loop s 0 q a r delta d.posts ∙ ground arith

-- On a well-formed relation, `get_transitions_between` lists exactly the transitions from the one
-- state to the other.
pub listed-get_transitions_between :
    (delta : Delta) (p s q a r : ℕ)
    → IsDelta delta
    → listed q a r (get_transitions_between delta p s) ≡ (p == q && s == r && has delta p a s)
unfolding get_transitions_between state_post
listed-get_transitions_between delta p s q a r d =
    listed-post_transitions s p q a r (get_or delta p []) (d.posts p).sorted (d.posts p).filled

member-post_symbols : (b : ℕ) (post : StatePost) → member b (post_symbols post) ≡ member b post
unfolding post_symbols
member-post_symbols b [] = refl
member-post_symbols b (p ∷ ps) = ground (arith, member-post_symbols b ps)

member-append : (b : ℕ) (xs ys : List ℕ) → member b (xs ++ ys) ≡ (member b xs || member b ys)
member-append b [] ys = refl
member-append b (x ∷ xs) ys = ground (arith, member-append b xs ys)

-- The symbols of every post are among all symbols, and there are no others.
symbol-all_symbols :
    (b : ℕ) (delta : Delta) (q : ℕ)
    → member b (state_post delta q) ≡ true
    → member b (all_symbols delta) ≡ true
unfolding all_symbols state_post
symbol-all_symbols b [] q k = k
symbol-all_symbols b (post ∷ posts) zero k =
    ground
      (arith, member-append b (post_symbols post) (all_symbols posts), member-post_symbols b post)
symbol-all_symbols b (post ∷ posts) (suc q) k =
    ground (
      arith,
      member-append b (post_symbols post) (all_symbols posts),
      symbol-all_symbols b posts q k,
    )

state-all_symbols :
    (b : ℕ) (delta : Delta)
    → member b (all_symbols delta) ≡ true
    → (q : ℕ) × (member b (state_post delta q) ≡ true)
unfolding all_symbols state_post
state-all_symbols b [] e = cc e
state-all_symbols b (post ∷ posts) e = elim (Bool-cases (member b post)) [
  | inl here ↦ (0, here)
  | inr there ↦
      let (q, k) = state-all_symbols b posts (
        ground (
          arith,
          member-append b (post_symbols post) (all_symbols posts),
          member-post_symbols b post,
        )) in
      (suc q, k)
]

-- `get_used_symbols_vec` holds exactly the symbols of the symbol posts of all states.
pub member-get_used_symbols_vec :
    (b : ℕ) (delta : Delta)
    → (member b (get_used_symbols_vec delta) ≡ true)
      ↔ ((q : ℕ) × (member b (state_post delta q) ≡ true))
unfolding get_used_symbols_vec
member-get_used_symbols_vec b delta =
    let (o, e) = sort_and_rmdupl_correct (all_symbols delta) in
    (λ k. state-all_symbols b delta (sym (e b) ∙ k), λ (q, k). e b ∙ symbol-all_symbols b delta q k)
