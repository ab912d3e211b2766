-- ===== src/Delta/Iterate/Visits.antt =====
-- src/nfa/delta.cc: the iterator over the transitions visits them all, in the order of the posts.
use mata.Common.{
  ℕ, zero, suc, ◌+◌, ◌-◌, ◌<◌, ◌≡◌, refl, sym, ap, subst, ◌∙◌, inl, inr, true, false, ◌&&◌, some,
  List, [], ◌∷◌, ◌++◌, arith, leb, ◌==◌, Bool-cases, List-cases, length, length-append, get_or,
  drop, drop-suc,
}
use mata.OrdVector.{ℕ_ranked, member, IsSorted}
use mata.OrdVector.Lookup.{lookup-Above}
use mata.Delta.{Transition, SymbolPost, SymbolPost_ranked, StatePost, Delta}
use mata.Delta.Post.{targets_of, Filled, HasTargets, IsPost}
use mata.Delta.Relation.{has, IsDelta}
use mata.Delta.Queries.{num_of_moves, num_of_transitions, listed, listed-append}
use mata.Delta.Iterate.{
  TransitionsIterator, at_post, start_from, begin, advance, prepend, visit, transitions,
}

-- The transitions in the order of the posts, by the structure of the relation.
abbrev pub of_targets : ℕ → ℕ → List ℕ → List Transition
of_targets q a [] = []
of_targets q a (t ∷ ts) = record { source = q; symbol = a; target = t } ∷ of_targets q a ts

abbrev pub of_post : ℕ → StatePost → List Transition
of_post q [] = []
of_post q (p ∷ ps) = of_targets q p.symbol p.targets ++ of_post q ps

abbrev pub of_posts : ℕ → Delta → List Transition
of_posts q [] = []
of_posts q (post ∷ posts) = of_post q post ++ of_posts (suc q) posts

abbrev AllHaveTargets : Delta → Type 0
AllHaveTargets [] = Unit
AllHaveTargets (post ∷ posts) = HasTargets post × AllHaveTargets posts

pub AllHaveTargets-IsDelta :
    (delta : Delta) → ((q : ℕ) → IsPost (get_or delta q [])) → AllHaveTargets delta
AllHaveTargets-IsDelta [] h = tt
AllHaveTargets-IsDelta (post ∷ posts) h =
    ((h 0).filled, AllHaveTargets-IsDelta posts (λ q. h (suc q)))

append_assoc {ℓ} : {A : Type ℓ} (xs ys zs : List A) → (xs ++ ys) ++ zs ≡ xs ++ (ys ++ zs)
append_assoc [] ys zs = refl
append_assoc (x ∷ xs) ys zs = ap (λ l. x ∷ l) (append_assoc xs ys zs)

module _ (delta : Delta) where
  -- The iterator at the target `t`, with `ts` behind it, of a symbol post with `ps` behind it.
  abbrev at_target : ℕ → ℕ → ℕ → List ℕ → SymbolPost → StatePost → TransitionsIterator
  at_target q a t ts p ps = record {
    current_state = q;
    state_post_it = p ∷ ps;
    symbol_post_it = t ∷ ts;
    is_end = false;
    transition = record { source = q; symbol = a; target = t };
  }

  -- What is left to visit there.
  abbrev left_at : ℕ → ℕ → ℕ → List ℕ → StatePost → Delta → List Transition
  left_at q a t ts ps posts =
      record { source = q; symbol = a; target = t }
      ∷ (of_targets q a ts ++ (of_post q ps ++ of_posts (suc q) posts))

  abbrev VisitsFrom : ℕ → Type 0
  VisitsFrom fuel =
      (q a t : ℕ) (ts : List ℕ) (p : SymbolPost) (ps : StatePost) (posts : Delta)
      → HasTargets ps
      → AllHaveTargets posts
      → drop (suc q) delta ≡ posts
      → length (left_at q a t ts ps posts) < fuel
      → visit fuel delta (at_target q a t ts p ps) ≡ some (left_at q a t ts ps posts)

  -- From the first target of a state post on.
  visit-at_post :
      (fuel : ℕ)
      → VisitsFrom fuel
      → (q : ℕ) (p : SymbolPost) (ps : StatePost) (posts : Delta) → HasTargets (p ∷ ps)
      → AllHaveTargets posts
      → drop (suc q) delta ≡ posts
      → length (of_posts q ((p ∷ ps) ∷ posts)) < fuel
      → visit fuel delta (at_post q p ps) ≡ some (of_posts q ((p ∷ ps) ∷ posts))
  visit-at_post fuel from q p ps posts h k e l = elim (List-cases p.targets) [
    | inl none_there ↦ elim (subst Filled none_there h.1) [ ]
    | inr (t, ts, f) ↦
        ap (λ (us : List ℕ). visit fuel delta (at_targets us)) f
        ∙ from q p.symbol t ts p ps posts h.2 k e (omega (arith, ap length (spread t ts f)))
        ∙ ap some (sym (spread t ts f))
  ]
    where
      at_targets : List ℕ → TransitionsIterator
      at_targets us = record {
        current_state = q;
        state_post_it = p ∷ ps;
        symbol_post_it = us;
        is_end = false;
        transition = record { source = q; symbol = p.symbol; target = get_or us 0 0 };
      }

      spread :
          (t : ℕ) (ts : List ℕ)
          → p.targets ≡ t ∷ ts
          → of_posts q ((p ∷ ps) ∷ posts) ≡ left_at q p.symbol t ts ps posts
      spread t ts f =
          append_assoc (of_targets q p.symbol p.targets) (of_post q ps) (of_posts (suc q) posts)
          ∙ ap
              (λ (us : List ℕ).
                of_targets q p.symbol us ++ (of_post q ps ++ of_posts (suc q) posts))
              f

  visit-start_from :
      (fuel : ℕ)
      → VisitsFrom fuel
      → (q : ℕ) (posts : Delta) → AllHaveTargets posts
      → drop q delta ≡ posts
      → length (of_posts q posts) < fuel
      → visit fuel delta (start_from q posts) ≡ some (of_posts q posts)
  unfolding start_from visit
  visit-start_from zero from q posts h e l = absurd (omega arith)
  visit-start_from (suc fuel) from q [] h e l = refl
  visit-start_from (suc fuel) from q ([] ∷ posts) h e l =
      visit-start_from (suc fuel) from (suc q) posts h.1 (drop-suc q [] delta posts e) l
  visit-start_from (suc fuel) from q ((p ∷ ps) ∷ posts) h e l =
      visit-at_post (suc fuel) from q p ps posts h.0 h.1 (drop-suc q (p ∷ ps) delta posts e) l

  visits : (fuel : ℕ) → VisitsFrom fuel
  unfolding visit advance
  visits zero q a t ts p ps posts h k e l = absurd (omega arith)
  visits (suc fuel) q a t (u ∷ us) p ps posts h k e l =
      ap (prepend (record { source = q; symbol = a; target = t }))
        (visits fuel q a u us p ps posts h k e (omega arith))
  visits (suc fuel) q a t [] p [] posts h k e l = rw e (
      ap (prepend (record { source = q; symbol = a; target = t }))
        (visit-start_from fuel (visits fuel) (suc q) posts k e (omega arith)))
  visits (suc fuel) q a t [] p (p' ∷ ps) posts h k e l =
      ap (prepend (record { source = q; symbol = a; target = t }))
        (visit-at_post fuel (visits fuel) q p' ps posts h k e (omega arith))

length-of_targets : (q a : ℕ) (ts : List ℕ) → length (of_targets q a ts) ≡ length ts
length-of_targets q a [] = refl
length-of_targets q a (t ∷ ts) = ap suc (length-of_targets q a ts)

length-of_post : (q : ℕ) (post : StatePost) → length (of_post q post) ≡ num_of_moves post
unfolding num_of_moves
length-of_post q [] = refl
length-of_post q (p ∷ ps) = omega (
  arith,
  length-append (of_targets q p.symbol p.targets) (of_post q ps),
  length-of_targets q p.symbol p.targets,
  length-of_post q ps,
)

length-of_posts : (q : ℕ) (delta : Delta) → length (of_posts q delta) ≡ num_of_transitions delta
unfolding num_of_transitions
length-of_posts q [] = refl
length-of_posts q (post ∷ posts) = omega (
  arith,
  length-append (of_post q post) (of_posts (suc q) posts),
  length-of_post q post,
  length-of_posts (suc q) posts,
)

pub transitions-eq-of_posts :
    (delta : Delta) → IsDelta delta → transitions delta ≡ some (of_posts 0 delta)
unfolding transitions begin
transitions-eq-of_posts delta d =
    visit-start_from delta (num_of_transitions delta + 1)
      (visits delta (num_of_transitions delta + 1)) 0 delta (AllHaveTargets-IsDelta delta d.posts)
      refl (omega (arith, length-of_posts 0 delta))

listed-of_targets :
    (j b r q a : ℕ) (ts : List ℕ)
    → listed j b r (of_targets q a ts) ≡ (q == j && a == b && member r ts)
listed-of_targets j b r q a [] = ground arith
listed-of_targets j b r q a (t ∷ ts) = ground (arith, listed-of_targets j b r q a ts)

pub listed-of_post :
    (j b r q : ℕ) (post : StatePost)
    → IsSorted post
    → listed j b r (of_post q post) ≡ (q == j && member r (targets_of b post))
listed-of_post j b r q [] o = ground arith
listed-of_post j b r q (p ∷ ps) o = ground (
  arith,
  listed-append j b r (of_targets q p.symbol p.targets) (of_post q ps),
  listed-of_targets j b r q p.symbol p.targets,
  listed-of_post j b r q ps,
  lookup-Above b p.symbol ps,
)

listed-of_posts :
    (j b r q : ℕ) (delta : Delta)
    → ((i : ℕ) → IsPost (get_or delta i []))
    → listed j b r (of_posts q delta)
      ≡ (leb q j && member r (targets_of b (get_or delta (j - q) [])))
listed-of_posts j b r q [] d = ground arith
listed-of_posts j b r q (post ∷ posts) d =
    listed-append j b r (of_post q post) (of_posts (suc q) posts) ∙ elim (Bool-cases (leb j q)) [
      | inl first ↦ ground (
        arith,
        listed-of_post j b r q post (d 0).sorted,
        listed-of_posts j b r (suc q) posts (λ i. d (suc i)),
        ap (λ (k : ℕ). member r (targets_of b (get_or (post ∷ posts) k []))) (at_first first),
      )
      | inr later ↦ ground (
        arith,
        listed-of_post j b r q post (d 0).sorted,
        listed-of_posts j b r (suc q) posts (λ i. d (suc i)),
        ap (λ (k : ℕ). member r (targets_of b (get_or (post ∷ posts) k []))) (at_later later),
      )
    ]
  where
    at_first : leb j q ≡ true → j - q ≡ 0
    at_first e = ground arith

    at_later : leb j q ≡ false → j - q ≡ suc (j - suc q)
    at_later e = ground arith

pub listed-eq-has :
    (delta : Delta) (q a r : ℕ) → IsDelta delta → listed q a r (of_posts 0 delta) ≡ has delta q a r
listed-eq-has delta q a r d = listed-of_posts q a r 0 delta d.posts ∙ ground arith

-- On a well-formed relation, the iterator over the transitions, started at the first one and
-- advanced as often as `num_of_transitions` counts, is at its end; before, it has visited exactly
-- the transitions of the relation, as many as `num_of_transitions` counts.
pub listed-transitions :
    (delta : Delta)
    → IsDelta delta
    → (ts : List Transition) × (transitions delta ≡ some ts)
      × (length ts ≡ num_of_transitions delta)
      × ((q a r : ℕ) → listed q a r ts ≡ has delta q a r)
listed-transitions delta d = (
  of_posts 0 delta,
  transitions-eq-of_posts delta d,
  length-of_posts 0 delta,
  λ q a r. listed-eq-has delta q a r d,
)
