-- ===== src/Delta/Moves/Visits.antt =====
-- src/nfa/delta.cc: the iterator over the moves of a range visits them all, in their order.
use mata.Common.{
  ℕ, zero, suc, ◌+◌, ◌<◌, ◌≡◌, refl, sym, ap, subst, ◌∙◌, inl, inr, false, List, [], ◌∷◌, ◌++◌,
  some, arith, List-cases, length, length-append, get_or,
}
use mata.Delta.{SymbolPost, StatePost}
use mata.Delta.Post.{Filled, HasTargets}
use mata.Delta.Queries.{num_of_moves}
use mata.Delta.Iterate.{prepend}
use mata.Delta.Moves.{Move, MovesIterator, start, advance, visit, moves}

abbrev pub with_symbol : ℕ → List ℕ → List Move
with_symbol a [] = []
with_symbol a (t ∷ ts) = record { symbol = a; target = t } ∷ with_symbol a ts

-- The moves by the structure of the range.
abbrev pub moves_of : StatePost → List Move
moves_of [] = []
moves_of (p ∷ ps) = with_symbol p.symbol p.targets ++ moves_of ps

abbrev at_target : ℕ → ℕ → List ℕ → SymbolPost → StatePost → MovesIterator
at_target a t ts p ps = record {
  symbol_post_it = p ∷ ps;
  target_it = t ∷ ts;
  is_end = false;
  move = record { symbol = a; target = t };
}

abbrev left_at : ℕ → ℕ → List ℕ → StatePost → List Move
left_at a t ts ps = record { symbol = a; target = t } ∷ (with_symbol a ts ++ moves_of ps)

abbrev VisitsFrom : ℕ → Type 0
VisitsFrom fuel =
    (a t : ℕ) (ts : List ℕ) (p : SymbolPost) (ps : StatePost)
    → HasTargets ps
    → length (left_at a t ts ps) < fuel
    → visit fuel (at_target a t ts p ps) ≡ some (left_at a t ts ps)

visit-start :
    (fuel : ℕ)
    → VisitsFrom fuel
    → (ps : StatePost) → HasTargets ps
    → length (moves_of ps) < fuel
    → visit fuel (start ps) ≡ some (moves_of ps)
unfolding visit
visit-start zero from ps h l = absurd (omega arith)
visit-start (suc fuel) from [] h l = refl
visit-start (suc fuel) from (p ∷ ps) h l = elim (List-cases p.targets) [
  | inl none_there ↦ elim (subst Filled none_there h.1) [ ]
  | inr (t, ts, f) ↦
      ap (λ (us : List ℕ). visit (suc fuel) (at_targets us)) f
      ∙ from p.symbol t ts p ps h.2 (omega (arith, ap length (spread t ts f)))
      ∙ ap some (sym (spread t ts f))
]
  where
    at_targets : List ℕ → MovesIterator
    at_targets us = record {
      symbol_post_it = p ∷ ps;
      target_it = us;
      is_end = false;
      move = record { symbol = p.symbol; target = get_or us 0 0 };
    }

    spread :
        (t : ℕ) (ts : List ℕ) → p.targets ≡ t ∷ ts → moves_of (p ∷ ps) ≡ left_at p.symbol t ts ps
    spread t ts f = ap (λ (us : List ℕ). with_symbol p.symbol us ++ moves_of ps) f

visits : (fuel : ℕ) → VisitsFrom fuel
unfolding visit advance
visits zero a t ts p ps h l = absurd (omega arith)
visits (suc fuel) a t (u ∷ us) p ps h l =
    ap (prepend (record { symbol = a; target = t })) (visits fuel a u us p ps h (omega arith))
visits (suc zero) a t [] p [] h l = absurd (omega arith)
visits (suc (suc fuel)) a t [] p [] h l = refl
visits (suc fuel) a t [] p (p' ∷ ps) h l =
    ap (prepend (record { symbol = a; target = t }))
      (visit-start fuel (visits fuel) (p' ∷ ps) h (omega arith))

length-with_symbol : (a : ℕ) (ts : List ℕ) → length (with_symbol a ts) ≡ length ts
length-with_symbol a [] = refl
length-with_symbol a (t ∷ ts) = ap suc (length-with_symbol a ts)

length-moves_of : (ps : StatePost) → length (moves_of ps) ≡ num_of_moves ps
unfolding num_of_moves
length-moves_of [] = refl
length-moves_of (p ∷ ps) = omega (
  arith,
  length-append (with_symbol p.symbol p.targets) (moves_of ps),
  length-with_symbol p.symbol p.targets,
  length-moves_of ps,
)

pub moves-eq-moves_of : (range : StatePost) → HasTargets range → moves range ≡ some (moves_of range)
unfolding moves
moves-eq-moves_of range h =
    visit-start (num_of_moves range + 1) (visits (num_of_moves range + 1)) range h
      (omega (arith, length-moves_of range))
