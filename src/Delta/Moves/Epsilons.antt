-- ===== src/Delta/Moves/Epsilons.antt =====
-- src/nfa/delta.cc: `first_epsilon_it` splits a post at the symbols from the first epsilon on, and
-- `moves_epsilons` and `moves_symbols` visit the two parts.
use mata.Common.{
  ==_iff, ◌≢◌, ◌⊎◌, ℕ, zero, suc, ◌+◌, ◌≤◌, ◌<◌, ◌≡◌, refl, sym, ap, ◌∙◌, inl, inr, false, true, [],
  ◌∷◌, arith, none, some, leb, ltb, ◌==◌, if◌then◌else◌, Bool-cases, length, get_elem?, take, drop,
}
use mata.OrdVector.{Above, IsSorted}
use mata.Delta.{SymbolPost, SymbolPost_ranked, StatePost}
use mata.Delta.Post.{HasTargets}
use mata.Delta.Moves.{moves, first_epsilon_loop, first_epsilon_it, moves_epsilons, moves_symbols}
use mata.Delta.Moves.Visits.{moves_of, moves-eq-moves_of}

-- The symbol posts from the first epsilon on, and those before, by a walk through all.
abbrev pub epsilons : ℕ → StatePost → StatePost
epsilons e [] = []
epsilons e (p ∷ ps) = if leb e p.symbol then p ∷ epsilons e ps else epsilons e ps

abbrev pub symbols : ℕ → StatePost → StatePost
symbols e [] = []
symbols e (p ∷ ps) = if leb e p.symbol then symbols e ps else p ∷ symbols e ps

-- `k` is the number of symbol posts below the first epsilon.
abbrev count_below : ℕ → StatePost → ℕ
count_below e [] = 0
count_below e (p ∷ ps) = (if ltb p.symbol e then 1 else 0) + count_below e ps

epsilons-Above :
    (e k : ℕ) (ps : StatePost)
    → e ≤ suc k
    → Above k ps
    → (count_below e ps ≡ 0) × (epsilons e ps ≡ ps) × (symbols e ps ≡ [])
epsilons-Above e k [] le a = (refl, refl, refl)
epsilons-Above e k (p ∷ ps) le (lt, a) = ground (arith, epsilons-Above e k ps le a)

module _ (e : ℕ) where
  drop-count_below : (ps : StatePost) → IsSorted ps → drop (count_below e ps) ps ≡ epsilons e ps
  drop-count_below [] o = refl
  drop-count_below (p ∷ ps) o = elim (Bool-cases (leb e p.symbol)) [
    | inl eps ↦ ap (λ (k : ℕ). drop k (p ∷ ps)) (none_below eps) ∙ rw (epsilons, eps) (kept eps)
    | inr below ↦
        ap (λ (k : ℕ). drop k (p ∷ ps)) (one_below below)
        ∙ rw (epsilons, below) (drop-count_below ps o.1)
  ]
    where
      none_below : leb e p.symbol ≡ true → count_below e (p ∷ ps) ≡ 0
      none_below eps = ground (arith, epsilons-Above e p.symbol ps)

      one_below : leb e p.symbol ≡ false → count_below e (p ∷ ps) ≡ suc (count_below e ps)
      one_below below = ground arith

      kept : leb e p.symbol ≡ true → p ∷ ps ≡ p ∷ epsilons e ps
      kept eps = let (_, k, _) = epsilons-Above e p.symbol ps (ground arith) o.0 in cc k

  take-count_below : (ps : StatePost) → IsSorted ps → take (count_below e ps) ps ≡ symbols e ps
  take-count_below [] o = refl
  take-count_below (p ∷ ps) o = elim (Bool-cases (leb e p.symbol)) [
    | inl eps ↦
        let (none_below, _, none_there) = epsilons-Above e p.symbol ps (ground arith) o.0 in
        ap (λ (k : ℕ). take k (p ∷ ps)) (first eps none_below) ∙ rw (symbols, eps) (sym none_there)
    | inr below ↦
        ap (λ (k : ℕ). take k (p ∷ ps)) (one_below below)
        ∙ rw (symbols, below) (ap (λ (l : StatePost). p ∷ l) (take-count_below ps o.1))
  ]
    where
      one_below : leb e p.symbol ≡ false → count_below e (p ∷ ps) ≡ suc (count_below e ps)
      one_below below = ground arith

      first : leb e p.symbol ≡ true → count_below e ps ≡ 0 → count_below e (p ∷ ps) ≡ 0
      first eps none_below = ground arith

  -- A position holds a symbol below the first epsilon exactly if it is among the first ones.
  below_at :
      (ps : StatePost) (i : ℕ) (q : SymbolPost)
      → IsSorted ps
      → get_elem? ps i ≡ some q
      → ltb q.symbol e ≡ ltb i (count_below e ps)
  below_at [] i q o g = cc g
  below_at (p ∷ ps) zero q o g = ground (arith, epsilons-Above e p.symbol ps)
  below_at (p ∷ ps) (suc i) q o g =
      ground (arith, epsilons-Above e p.symbol ps, below_at ps i q o.1 g)

  in_range : (ps : StatePost) (i : ℕ) → i < length ps → (q : SymbolPost) × (get_elem? ps i ≡ some q)
  in_range [] i l = absurd (omega arith)
  in_range (p ∷ ps) zero l = (p, refl)
  in_range (p ∷ ps) (suc i) l = in_range ps i (omega arith)

  count_below-le : (ps : StatePost) → count_below e ps ≤ length ps
  count_below-le [] = omega arith
  count_below-le (p ∷ ps) = ground (arith, count_below-le ps)

  first_epsilon_loop_lem :
      (ps : StatePost) (n : ℕ)
      → IsSorted ps
      → count_below e ps ≤ n
      → n ≤ length ps
      → first_epsilon_loop e ps n ≡ count_below e ps
  unfolding first_epsilon_loop
  first_epsilon_loop_lem [] zero o l m = refl
  first_epsilon_loop_lem (p ∷ ps) zero o l m = ground arith
  first_epsilon_loop_lem ps (suc n) o l m =
      let (q, g) = in_range ps n (omega arith) in
      let at = below_at ps n q o g in
      elim (Bool-cases (ltb q.symbol e)) [
        | inl below ↦ rw (g, below, first_epsilon_loop) (ground arith)
        | inr eps ↦
            rw (g, eps, first_epsilon_loop)
              (first_epsilon_loop_lem ps n o (ground arith) (omega arith))
      ]

  first_epsilon_it_lem : (ps : StatePost) → IsSorted ps → first_epsilon_it e ps ≡ count_below e ps
  unfolding first_epsilon_it
  first_epsilon_it_lem ps o =
      first_epsilon_loop_lem ps (length ps) o (count_below-le ps) (omega arith)

  HasTargets-epsilons : (ps : StatePost) → HasTargets ps → HasTargets (epsilons e ps)
  HasTargets-epsilons [] h = tt
  HasTargets-epsilons (p ∷ ps) h = ground (arith, HasTargets-epsilons ps h.2)

  HasTargets-symbols : (ps : StatePost) → HasTargets ps → HasTargets (symbols e ps)
  HasTargets-symbols [] h = tt
  HasTargets-symbols (p ∷ ps) h = ground (arith, HasTargets-symbols ps h.2)

  -- `moves_epsilons` makes the range of the symbol posts from the first epsilon on, and its
  -- iterator comes to the end after all moves of theirs.
  pub moves_epsilons_lem :
      (post : StatePost)
      → IsSorted post
      → HasTargets post
      → (moves_epsilons e post ≡ epsilons e post)
        × (moves (moves_epsilons e post) ≡ some (moves_of (epsilons e post)))
  unfolding moves_epsilons
  moves_epsilons_lem post o h =
      let range =
        ap (λ (k : ℕ). drop k post) (first_epsilon_it_lem post o) ∙ drop-count_below post o in
      (range, ap moves range ∙ moves-eq-moves_of (epsilons e post) (HasTargets-epsilons post h))

-- On a sorted post whose symbol posts have targets, `moves_symbols` throws exactly for the default
-- epsilon; otherwise it returns the range of the symbol posts whose symbols are not above the
-- given one, and a loop over the iterator of this range comes to its end after exactly their
-- moves.
pub moves_symbols_lem :
    (last_symbol : ℕ) (post : StatePost)
    → IsSorted post
    → HasTargets post
    → (last_symbol ≡ 4_294_967_295) × (moves_symbols last_symbol post ≡ none)
      ⊎ (last_symbol ≢ 4_294_967_295)
        × ((range : StatePost) × (moves_symbols last_symbol post ≡ some range)
            × (range ≡ symbols (last_symbol + 1) post)
            × (moves range ≡ some (moves_of (symbols (last_symbol + 1) post))))
unfolding moves_symbols
moves_symbols_lem last_symbol post o h = elim (Bool-cases (last_symbol == 4_294_967_295)) [
  | inl default ↦ inl ((==_iff last_symbol 4_294_967_295).0 default, rw default refl)
  | inr other ↦
      let range =
        ap (λ (k : ℕ). take k post) (first_epsilon_it_lem (last_symbol + 1) post o)
        ∙ take-count_below (last_symbol + 1) post o in
      inr (
        λ e. cc (other, (==_iff last_symbol 4_294_967_295).1 e),
        rw other (
          take (first_epsilon_it (last_symbol + 1) post) post,
          refl,
          range,
          ap moves range
              ∙ moves-eq-moves_of (symbols (last_symbol + 1) post)
                  (HasTargets-symbols (last_symbol + 1) post h),
        ),
      )
]
