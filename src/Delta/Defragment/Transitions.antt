-- ===== src/Delta/Defragment/Transitions.antt =====
-- src/nfa/delta.cc: with the compact renaming, `defragment` leaves exactly the transitions between
-- states that stay, under their new names.
use mata.Common.{
  ℕ, zero, suc, ◌+◌, ◌≤◌, ◌<◌, ◌≡◌, refl, sym, ap, ◌⊎◌, ◌↔◌, inl, inr, Bool, true, false, List, [],
  ◌∷◌, arith, ◌==◌, ==_iff, ==_refl, Bool-cases, List-cases, if◌then◌else◌, get_or,
}
use mata.OrdVector.{ℕ_ranked, Above, IsSorted, member}
use mata.OrdVector.Lookup.{lookup-Above}
use mata.Delta.{SymbolPost_ranked, StatePost, Delta}
use mata.Delta.Post.{targets_of, HasTargets, IsPost}
use mata.Delta.Relation.{has, IsDelta, IsPost-empty}
use mata.Delta.Defragment.{
  stays, filter_rename_targets, filter_rename_state_post, defragmented_from, defragmented,
  make_renaming, defragment,
}
use mata.Delta.Defragment.Compact.{count_below, renamed-make_renaming, count_below-lt}
use mata.Delta.Defragment.Agree.{defragment-eq-defragmented}

count_below-zero : (bs : List Bool) → count_below bs 0 ≡ 0
count_below-zero [] = refl
count_below-zero (b ∷ bs) = refl

count_below-suc :
    (bs : List Bool) (q : ℕ)
    → count_below bs (suc q) ≡ count_below bs q + (if stays bs q then 1 else 0)
count_below-suc [] q = omega arith
count_below-suc (true ∷ bs) zero = omega (arith, count_below-zero bs)
count_below-suc (false ∷ bs) zero = omega (arith, count_below-zero bs)
count_below-suc (b ∷ bs) (suc q) = omega (arith, count_below-suc bs q)

module _ (bs : List Bool) where
  abbrev rn : List ℕ
  rn = make_renaming 0 bs

  abbrev kept_targets : List ℕ → List ℕ
  kept_targets = filter_rename_targets bs rn

  abbrev kept_post : StatePost → StatePost
  kept_post = filter_rename_state_post bs rn

  -- A state `r` that stays and has the new name `r'`.
  abbrev pub Named : ℕ → ℕ → Type 0
  Named r r' = (stays bs r ≡ true) × (count_below bs r ≡ r')

  member-kept_targets :
      (r' : ℕ) (ts : List ℕ)
      → (member r' (kept_targets ts) ≡ true) ↔ ((r : ℕ) × (member r ts ≡ true) × Named r r')
  unfolding filter_rename_targets
  member-kept_targets r' [] = (λ e. cc e, λ (r, m, n). cc m)
  member-kept_targets r' (x ∷ xs) = elim (Bool-cases (stays bs x)) [
    | inl stay ↦
        let name = renamed-make_renaming bs x stay in
        let (f, g) = member-kept_targets r' xs in
        rw stay (
          λ e. elim (Bool-cases (count_below bs x == r')) [
            | inl here ↦ (x, ground (arith, ==_refl x), (stay, ground arith))
            | inr there ↦ let (r, m, n) = f (ground arith) in (r, ground arith, n)
          ],
          λ (r, m, n). elim (Bool-cases (x == r)) [
            | inl here ↦ ground (arith, ap (count_below bs) ((==_iff x r).0 here), n.1)
            | inr there ↦ let k = g (r, ground arith, n) in ground arith
          ],
        )
    | inr leave ↦
        let (f, g) = member-kept_targets r' xs in
        rw leave (
          λ e. let (r, m, n) = f e in (r, ground arith, n),
          λ (r, m, n). elim (Bool-cases (x == r)) [
            | inl here ↦ cc (ap (stays bs) ((==_iff x r).0 here), n.0, leave)
            | inr there ↦ g (r, ground arith, n)
          ],
        )
  ]

  Above-kept_post : (k : ℕ) (post : StatePost) → Above k post → Above k (kept_post post)
  unfolding filter_rename_state_post
  Above-kept_post k [] a = tt
  Above-kept_post k (p ∷ ps) a = elim (List-cases (kept_targets p.targets)) [
    | inl gone ↦ rw gone (Above-kept_post k ps a.1)
    | inr (t, ts, e) ↦ rw e (a.0, Above-kept_post k ps a.1)
  ]

  kept_post-IsSorted : (post : StatePost) → IsSorted post → IsSorted (kept_post post)
  unfolding filter_rename_state_post
  kept_post-IsSorted [] s = tt
  kept_post-IsSorted (p ∷ ps) s = elim (List-cases (kept_targets p.targets)) [
    | inl gone ↦ rw gone (kept_post-IsSorted ps s.1)
    | inr (t, ts, e) ↦ rw e (Above-kept_post p.symbol ps s.0, kept_post-IsSorted ps s.1)
  ]

  -- A symbol post that becomes empty is erased, and then its symbol has no targets.
  targets_of-kept_post :
      (a : ℕ) (post : StatePost)
      → IsSorted post
      → targets_of a (kept_post post) ≡ kept_targets (targets_of a post)
  unfolding filter_rename_state_post
  targets_of-kept_post a [] s = unfold filter_rename_targets in refl
  targets_of-kept_post a (p ∷ ps) s = elim (List-cases (kept_targets p.targets)) [
    | inl gone ↦ elim (Bool-cases (p.symbol == a)) [
      | inl here ↦
          rw
            (
              gone,
              here,
              targets_of,
              lookup-Above a p.symbol (kept_post ps) (Above-kept_post p.symbol ps s.0)
                  (ground arith),
            )
            (sym gone)
      | inr there ↦ rw (gone, there, targets_of) (targets_of-kept_post a ps s.1)
    ]
    | inr (t, ts, e) ↦ elim (Bool-cases (p.symbol == a)) [
      | inl here ↦ rw (e, here, targets_of) (sym e)
      | inr there ↦ rw (e, there, targets_of) (targets_of-kept_post a ps s.1)
    ]
  ]

  -- The post of a state that stays stands under its new name, filtered and renamed.
  get_or-defragmented :
      (source : ℕ) (posts : Delta) (q k j : ℕ)
      → q ≡ source + k
      → stays bs q ≡ true
      → count_below bs q ≡ count_below bs source + j
      → get_or (defragmented_from bs rn source posts) j [] ≡ kept_post (get_or posts k [])
  unfolding defragmented_from
  get_or-defragmented source [] q k j at s e = unfold filter_rename_state_post in refl
  get_or-defragmented source (post ∷ posts) q zero j at s e =
      let same : q ≡ source = omega (arith, at) in
      let stay : stays bs source ≡ true = cc (s, ap (stays bs) same) in
      let first : j ≡ 0 = omega (arith, e, ap (count_below bs) same) in rw (stay, first) refl
  get_or-defragmented source (post ∷ posts) q (suc k) j at s e =
      elim (Bool-cases (stays bs source)) [
        | inr leave ↦ rw leave (
            get_or-defragmented (suc source) posts q k j (omega arith) s
              (ground (arith, count_below-suc bs source)))
        | inl stay ↦
            let one = count_below-suc bs source in
            let after = count_below-lt bs source q (omega (arith, at)) stay in
            rw stay (
              later j (ground arith) (λ i e'.
                get_or-defragmented (suc source) posts q k i (omega arith) s (ground arith)))
      ]
    where
      later :
          (j : ℕ)
          → 0 < j
          → ((i : ℕ)
              → j ≡ suc i
              → get_or (defragmented_from bs rn (suc source) posts) i []
                ≡ kept_post (get_or posts k []))
          → get_or (kept_post post ∷ defragmented_from bs rn (suc source) posts) j []
            ≡ kept_post (get_or posts k [])
      later zero l next = absurd (omega arith)
      later (suc j) l next = next j refl

  -- Every post that is not empty belongs to a state that stays.
  position_cases :
      (source : ℕ) (posts : Delta) (j : ℕ)
      → (get_or (defragmented_from bs rn source posts) j [] ≡ [])
        ⊎ ((q : ℕ) × (source ≤ q)
            × (stays bs q ≡ true)
            × (count_below bs q ≡ count_below bs source + j))
  unfolding defragmented_from
  position_cases source [] j = inl refl
  position_cases source (post ∷ posts) j = elim (Bool-cases (stays bs source)) [
    | inr leave ↦ rw leave (elim (position_cases (suc source) posts j) [
      | inl gone ↦ inl gone
      | inr (q, l, s, e) ↦ inr (q, omega arith, s, ground (arith, count_below-suc bs source))
    ])
    | inl stay ↦
        let one = count_below-suc bs source in
        rw stay (later j stay (ground arith) (position_cases (suc source) posts))
  ]
    where
      later :
          (j : ℕ)
          → stays bs source ≡ true
          → count_below bs (suc source) ≡ count_below bs source + 1
          → ((i : ℕ)
              → (get_or (defragmented_from bs rn (suc source) posts) i [] ≡ [])
                ⊎ ((q : ℕ) × (suc source ≤ q)
                    × (stays bs q ≡ true)
                    × (count_below bs q ≡ count_below bs (suc source) + i)))
          → (get_or (kept_post post ∷ defragmented_from bs rn (suc source) posts) j [] ≡ [])
            ⊎ ((q : ℕ) × (source ≤ q)
                × (stays bs q ≡ true)
                × (count_below bs q ≡ count_below bs source + j))
      later zero stay one next = inr (source, omega arith, stay, omega arith)
      later (suc j) stay one next = elim (next j) [
        | inl gone ↦ inl gone
        | inr (q, l, s, e) ↦ inr (q, omega arith, s, omega arith)
      ]

  has-defragmented :
      (delta : Delta) (q' a r' : ℕ)
      → IsDelta delta
      → (has (defragmented bs rn delta) q' a r' ≡ true)
        ↔ ((q : ℕ) × (r : ℕ) × Named q q' × Named r r' × (has delta q a r ≡ true))
  unfolding defragmented
  has-defragmented delta q' a r' d = (
    λ e. elim (position_cases 0 delta q') [
      | inl gone ↦ cc (rw gone at e)
      | inr (q, l, s, c) ↦
          let (r, m, named) = (at q s (omega (arith, c, count_below-zero bs))).0 e in
          (q, r, (s, omega (arith, c, count_below-zero bs)), named, m)
    ],
    λ (q, r, (s, c), named, m). (at q s c).1 (r, m, named),
  )
    where
      at :
          (q : ℕ)
          → stays bs q ≡ true
          → count_below bs q ≡ q'
          → (has (defragmented_from bs rn 0 delta) q' a r' ≡ true)
            ↔ ((r : ℕ) × (has delta q a r ≡ true) × Named r r')
      at q s c =
          let post =
            get_or-defragmented 0 delta q q q' (omega arith) s
              (omega (arith, count_below-zero bs)) in
          rw (post, targets_of-kept_post a (get_or delta q []) (d.posts q).sorted)
            (member-kept_targets r' (targets_of a (get_or delta q [])))

  Above-kept_targets :
      (x : ℕ) (ts : List ℕ)
      → stays bs x ≡ true
      → Above x ts
      → Above (count_below bs x) (kept_targets ts)
  unfolding filter_rename_targets
  Above-kept_targets x [] s a = tt
  Above-kept_targets x (t ∷ ts) s a = elim (Bool-cases (stays bs t)) [
    | inl stay ↦
        let name = renamed-make_renaming bs t stay in
        let higher = count_below-lt bs x t a.0 s in
        rw stay (omega (arith, name, higher), Above-kept_targets x ts s a.1)
    | inr leave ↦ rw leave (Above-kept_targets x ts s a.1)
  ]

  kept_targets-IsSorted : (ts : List ℕ) → IsSorted ts → IsSorted (kept_targets ts)
  unfolding filter_rename_targets
  kept_targets-IsSorted [] s = tt
  kept_targets-IsSorted (t ∷ ts) s = elim (Bool-cases (stays bs t)) [
    | inl stay ↦
        rw (stay, renamed-make_renaming bs t stay)
          (Above-kept_targets t ts stay s.0, kept_targets-IsSorted ts s.1)
    | inr leave ↦ rw leave (kept_targets-IsSorted ts s.1)
  ]

  kept_post-HasTargets : (post : StatePost) → HasTargets post → HasTargets (kept_post post)
  unfolding filter_rename_state_post
  kept_post-HasTargets [] h = tt
  kept_post-HasTargets (p ∷ ps) h =
      let sorted = kept_targets-IsSorted p.targets h.0 in
      elim (List-cases (kept_targets p.targets)) [
        | inl gone ↦ rw gone (kept_post-HasTargets ps h.2)
        | inr (t, ts, e) ↦ rw e (rw e at sorted, tt, kept_post-HasTargets ps h.2)
      ]

  pub defragment-IsDelta : (delta : Delta) → IsDelta delta → IsDelta (defragment bs rn delta)
  unfolding defragmented
  defragment-IsDelta delta d = record {
    posts = λ j. rw (defragment-eq-defragmented bs delta d) (post j);
  }
    where
      post : (j : ℕ) → IsPost (get_or (defragmented bs rn delta) j [])
      post j = elim (position_cases 0 delta j) [
        | inl gone ↦ rw gone IsPost-empty
        | inr (q, l, s, c) ↦
            let e =
              get_or-defragmented 0 delta q q j (omega arith) s
                (omega (arith, c, count_below-zero bs)) in
            rw e record {
              sorted = kept_post-IsSorted (get_or delta q []) (d.posts q).sorted;
              filled = kept_post-HasTargets (get_or delta q []) (d.posts q).filled;
            }
      ]

  -- For a well-formed relation and the compact renaming that `trim` makes, `Delta::defragment`
  -- leaves exactly the transitions between two states that stay, under their new names.
  pub has-defragment :
      (delta : Delta) (q' a r' : ℕ)
      → IsDelta delta
      → (has (defragment bs rn delta) q' a r' ≡ true)
        ↔ ((q : ℕ) × (r : ℕ) × Named q q' × Named r r' × (has delta q a r ≡ true))
  has-defragment delta q' a r' d =
      rw (defragment-eq-defragmented bs delta d) (has-defragmented delta q' a r' d)
