-- ===== src/Nfa/Unite/Invariant.antt =====
-- src/nfa/delta.cc: a relation that is renumbered and appended to another stays well-formed.
use mata.Common.{
  ℕ, ◌+◌, ◌-◌, inl, inr, List, [], ◌∷◌, arith, ltb, ltb→lt, Bool-cases, get_or, resize,
  length-resize, get_or-resize,
}
use mata.OrdVector.{ℕ_ranked, IsSorted, Above}
use mata.Delta.{Delta, StatePost, SymbolPost_ranked}
use mata.Delta.Post.{Filled, HasTargets}
use mata.Delta.Relation.{IsDelta}
use mata.Nfa.Unite.{renumber, renumber_post, renumber_targets, append, allocate}
use mata.Nfa.Unite.Language.{up, get_or-append, get_or-renumber_targets}

module _ (n : ℕ) where
  Above-renumber :
      (k : ℕ) (states : List ℕ) → Above k states → Above (n + k) (renumber (up n) states)
  unfolding renumber
  Above-renumber k [] a = tt
  Above-renumber k (q ∷ qs) a = (omega (arith, a.0), Above-renumber k qs a.1)

  renumber-IsSorted : (states : List ℕ) → IsSorted states → IsSorted (renumber (up n) states)
  unfolding renumber
  renumber-IsSorted [] s = tt
  renumber-IsSorted (q ∷ qs) s = (Above-renumber q qs s.0, renumber-IsSorted qs s.1)

  renumber-Filled : (states : List ℕ) → Filled states → Filled (renumber (up n) states)
  unfolding renumber
  renumber-Filled [] f = f
  renumber-Filled (q ∷ qs) f = tt

  Above-renumber_post :
      (k : ℕ) (post : StatePost) → Above k post → Above k (renumber_post (up n) post)
  unfolding renumber_post
  Above-renumber_post k [] a = tt
  Above-renumber_post k (p ∷ ps) a = (a.0, Above-renumber_post k ps a.1)

  post-IsSorted : (post : StatePost) → IsSorted post → IsSorted (renumber_post (up n) post)
  unfolding renumber_post
  post-IsSorted [] s = tt
  post-IsSorted (p ∷ ps) s = (Above-renumber_post p.symbol ps s.0, post-IsSorted ps s.1)

  post-HasTargets : (post : StatePost) → HasTargets post → HasTargets (renumber_post (up n) post)
  unfolding renumber_post
  post-HasTargets [] h = tt
  post-HasTargets (p ∷ ps) h =
      (renumber-IsSorted p.targets h.0, renumber-Filled p.targets h.1, post-HasTargets ps h.2)

  -- The relation of the first automaton, on `n` states, with that of the second one moved up.
  pub append-IsDelta :
      (delta delta' : Delta)
      → IsDelta delta
      → IsDelta delta'
      → IsDelta (append (allocate n delta) (renumber_targets (up n) delta'))
  unfolding append allocate
  append-IsDelta delta delta' d d' = record {
    posts = λ q.
        rw (get_or-append (resize n [] delta) (renumber_targets (up n) delta') q)
          (elim (Bool-cases (ltb q n)) [
            | inl low ↦
                rw
                  (
                    length-resize {A = StatePost} n [] delta,
                    low,
                    get_or-resize n [] delta q (ltb→lt q n low),
                  )
                  (d.posts q)
            | inr high ↦
                rw
                  (
                    length-resize {A = StatePost} n [] delta,
                    high,
                    get_or-renumber_targets n (q - n) delta',
                  )
                  record {
                    sorted = post-IsSorted (get_or delta' (q - n) []) (d'.posts (q - n)).sorted;
                    filled = post-HasTargets (get_or delta' (q - n) []) (d'.posts (q - n)).filled;
                  }
          ]);
  }
