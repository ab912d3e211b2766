-- ===== src/Nfa/RemoveEpsilon/Round.antt =====
-- src/nfa/operations.cc: one merge of closures and one round of the fixpoint of `remove_epsilon`.
use mata.Common.{
  ℕ, zero, suc, ◌+◌, ◌≤◌, ◌<◌, ◌≡◌, refl, sym, ap, subst, ◌∙◌, ◌⊎◌, ◌↔◌, inl, inr, Bool, true,
  false, ◌&&◌, ◌||◌, List, [], ◌∷◌, arith, ◌==◌, ==_iff, ==_refl, if◌then◌else◌, Bool-cases,
  Option-cases, length, length-set, get_or, get_or-set, set,
}
use mata.OrdVector.{ℕ_ranked, IsSorted, member, lookup}
use mata.OrdVector.Lookup.{count-eq-member, find_elem-eq-lookup}
use mata.OrdVector.Merge
use mata.OrdVector.Merge.Laws.{insert_all_correct}
use mata.Delta.{Delta, SymbolPost_ranked, state_post}
use mata.Delta.Post.{targets_of}
use mata.Delta.Relation.{has, IsDelta}
use mata.Worklist.{Reached, start, step}
use mata.Nfa.Closure.Epsilons.{missing}
use mata.Nfa.RemoveEpsilon.{Closures, closure, any_new, spread_targets, spread_states}

-- A vector that gains elements misses fewer.
missing_mono :
    (n : ℕ) (xs ys : List ℕ)
    → ((q : ℕ) → member q xs ≡ true → member q ys ≡ true)
    → missing n ys ≤ missing n xs
missing_mono zero xs ys h = omega arith
missing_mono (suc n) xs ys h = ground (arith, h n, missing_mono n xs ys h)

missing_drop :
    (n t : ℕ) (xs ys : List ℕ)
    → ((q : ℕ) → member q xs ≡ true → member q ys ≡ true)
    → t < n
    → member t xs ≡ false
    → member t ys ≡ true
    → missing n ys < missing n xs
missing_drop zero t xs ys h l old new = absurd (omega arith)
missing_drop (suc n) t xs ys h l old new = elim (Bool-cases (t == n)) [
  | inl here ↦
      let same = (==_iff t n).0 here in
      let old' : member n xs ≡ false = ap (λ (x : ℕ). member x xs) (sym same) ∙ old in
      let new' : member n ys ≡ true = ap (λ (x : ℕ). member x ys) (sym same) ∙ new in
      ground (arith, missing_mono n xs ys h)
  | inr there ↦ ground (arith, h n, missing_drop n t xs ys h (ground arith) old new)
]

abbrev pub total : ℕ → Closures → ℕ
total n [] = 0
total n (xs ∷ closures) = missing n xs + total n closures

total-set :
    (n : ℕ) (closures : Closures) (i : ℕ) (ys : List ℕ)
    → i < length closures
    → total n (set closures i ys) + missing n (closure closures i) ≡ total n closures + missing n ys
total-set n [] i ys l = absurd (omega arith)
total-set n (xs ∷ closures) zero ys l = omega arith
total-set n (xs ∷ closures) (suc i) ys l = omega (arith, total-set n closures i ys (omega arith))

any_new_iff :
    (src tgt : List ℕ)
    → IsSorted src
    → (any_new src tgt ≡ true) ↔ ((q : ℕ) × (member q tgt ≡ true) × (member q src ≡ false))
unfolding any_new
any_new_iff src [] s = (λ e. cc e, λ (q, m, _). cc m)
any_new_iff src (t ∷ tgt) s =
    let c = count-eq-member t src s in
    let (f, g) = any_new_iff src tgt s in
    (
      λ e. elim (Bool-cases (member t src)) [
        | inl old ↦ let (q, m, k) = f (ground arith) in (q, ground arith, k)
        | inr new ↦ (t, ground (arith, ==_refl t), new)
      ],
      λ (q, m, k). elim (Bool-cases (t == q)) [
        | inl here ↦
            let new : member t src ≡ false =
              ap (λ (x : ℕ). member x src) ((==_iff t q).0 here) ∙ k in
            ground arith
        | inr there ↦ let rest = g (q, ground arith, k) in ground arith
      ],
    )

module _ (epsilon : ℕ) (delta : Delta) (d : IsDelta delta) (n : ℕ)
    (targets_lt : (q a r : ℕ) → has delta q a r ≡ true → r < n) where
  -- From `i` epsilons lead to `r`.
  abbrev pub Silent : ℕ → ℕ → Type 0
  Silent i r = Reached (λ q. i ≡ q) (λ q p. has delta q epsilon p ≡ true) r

  -- The closures hold states that epsilons lead to, at least the state itself where it has a
  -- transition, and its targets under epsilon.
  pub record Closing (closures : Closures) : Type 0 where
    pub size : length closures ≡ n
    pub sorted : (i : ℕ) → IsSorted (closure closures i)
    pub silent : (i r : ℕ) → member r (closure closures i) ≡ true → Silent i r
    pub bounded : (i r : ℕ) → member r (closure closures i) ≡ true → r < n
    pub own : (i a r : ℕ) → has delta i a r ≡ true → member i (closure closures i) ≡ true
    pub next : (i r : ℕ) → has delta i epsilon r ≡ true → member r (closure closures i) ≡ true

  Silent-trans : (i t r : ℕ) → has delta i epsilon t ≡ true → Silent t r → Silent i r
  Silent-trans i t r e (start s) =
      step (start refl) (subst (λ (x : ℕ). has delta i epsilon x ≡ true) s e)
  Silent-trans i t r e (step {q = p} s k) = step (Silent-trans i t p e s) k

  -- A pair of a state and a target is settled if the target's closure is among the state's.
  abbrev pub Settled : Closures → ℕ → ℕ → Type 0
  Settled closures i t =
      (r : ℕ) → member r (closure closures t) ≡ true → member r (closure closures i) ≡ true

  -- From `st` to `st'` the closures grow, and without a change the pairs of `Pair` are settled.
  pub record Spreads (Pair : ℕ → ℕ → Type 0) (st st' : Closures × Bool) : Type 0 where
    pub closing : Closing st'.0
    pub le : total n st'.0 ≤ total n st.0
    pub less : st.1 ≡ false → st'.1 ≡ true → total n st'.0 < total n st.0
    pub stay :
        st'.1 ≡ false
        → (st.1 ≡ false)
          × ((j r : ℕ) → member r (closure st'.0 j) ≡ member r (closure st.0 j))
          × ((i t : ℕ) → Pair i t → Settled st.0 i t)

  Spreads-none : (st : Closures × Bool) → Closing st.0 → Spreads (λ i t. ⊥) st st
  Spreads-none st c = record {
    closing = c;
    le = omega arith;
    less = λ e k. cc (e, k);
    stay = λ e. (e, (λ j r. refl), λ i t p. elim p [ ]);
  }

  Spreads-trans :
      {P Q : ℕ → ℕ → Type 0} {st mid st' : Closures × Bool}
      → Spreads P st mid
      → Spreads Q mid st'
      → Spreads (λ i t. P i t ⊎ Q i t) st st'
  Spreads-trans {st = st} {mid = mid} f g = record {
    closing = g.closing;
    le = omega (arith, f.le, g.le);
    less = λ e k. elim (Bool-cases mid.1) [
      | inl early ↦ omega (arith, f.less e early, g.le)
      | inr late ↦ omega (arith, f.le, g.less late k)
    ];
    stay = λ k.
        let (e, same, settled) = g.stay k in
        let (e', same', settled') = f.stay e in
        (
          e',
          (λ j r. same j r ∙ same' j r),
          λ i t o. elim o [
            | inl p ↦ settled' i t p
            | inr q ↦ λ r m. sym (same' i r) ∙ settled i t q r (same' t r ∙ m)
          ],
        );
  }

  Spreads-ext :
      {P Q : ℕ → ℕ → Type 0} {st st' : Closures × Bool}
      → ((i t : ℕ) → Q i t → P i t)
      → Spreads P st st'
      → Spreads Q st st'
  Spreads-ext h f = record {
    closing = f.closing;
    le = f.le;
    less = f.less;
    stay = λ k. let (e, same, settled) = f.stay k in (e, same, λ i t q. settled i t (h i t q));
  }

  module _ (i t : ℕ) (edge : has delta i epsilon t ≡ true) (low : i < n) (st : Closures × Bool)
      (c : Closing st.0) where
    abbrev merged : List ℕ
    merged = (Merge.insert_all (closure st.0 i) (closure st.0 t)).0

    abbrev after : Closures
    after = set st.0 i merged

    merged_lem :
        IsSorted merged
        × ((q : ℕ) → member q merged ≡ (member q (closure st.0 i) || member q (closure st.0 t)))
    merged_lem =
        let (s, k, _) =
          insert_all_correct (closure st.0 i) (closure st.0 t) (c.sorted i) (c.sorted t) in
        (s, k)

    after_lem : (j : ℕ) → closure after j ≡ (if i == j then merged else closure st.0 j)
    after_lem j = get_or-set st.0 i j merged [] (omega (arith, c.size))

    member-after :
        (j r : ℕ)
        → member r (closure after j)
          ≡ (member r (closure st.0 j) || i == j && member r (closure st.0 t))
    member-after j r = ap (member r) (after_lem j) ∙ elim (Bool-cases (i == j)) [
      | inl here ↦
          let same = ap (λ (x : ℕ). member r (closure st.0 x)) ((==_iff i j).0 here) in
          rw here (ground (arith, merged_lem.1 r))
      | inr there ↦ rw there (ground arith)
    ]

    after-Closing : Closing after
    after-Closing = record {
      size = length-set st.0 i merged ∙ c.size;
      sorted = λ j. rw (after_lem j) (elim (Bool-cases (i == j)) [
        | inl here ↦ rw here merged_lem.0
        | inr there ↦ rw there (c.sorted j)
      ]);
      silent = λ j r m. elim (Bool-cases (member r (closure st.0 j))) [
        | inl old ↦ c.silent j r old
        | inr new ↦
            let here : (i == j) ≡ true = ground (arith, member-after j r) in
            let there : member r (closure st.0 t) ≡ true = ground (arith, member-after j r) in
            subst (λ (x : ℕ). Silent x r) ((==_iff i j).0 here)
              (Silent-trans i t r edge (c.silent t r there))
      ];
      bounded = λ j r m. elim (Bool-cases (member r (closure st.0 j))) [
        | inl old ↦ c.bounded j r old
        | inr new ↦ c.bounded t r (ground (arith, member-after j r))
      ];
      own = λ j a r e. let old = c.own j a r e in ground (arith, member-after j j);
      next = λ j r e. let old = c.next j r e in ground (arith, member-after j r);
    }

    grows : (q : ℕ) → member q (closure st.0 i) ≡ true → member q merged ≡ true
    grows q m = ground (arith, merged_lem.1 q)

    Spreads-merge :
        Spreads
          (λ j s. (i ≡ j) × (t ≡ s))
          st
          (after, st.1 || any_new (closure st.0 i) (closure st.0 t))
    Spreads-merge =
        let sum = total-set n st.0 i merged (omega (arith, c.size)) in
        let (f, g) = any_new_iff (closure st.0 i) (closure st.0 t) (c.sorted i) in
        record {
          closing = after-Closing;
          le = omega (arith, sum, missing_mono n (closure st.0 i) merged grows);
          less = λ e k.
              let (q, m, fresh) = f (ground arith) in
              let drop =
                missing_drop n q (closure st.0 i) merged grows (c.bounded t q m) fresh
                  (ground (arith, merged_lem.1 q)) in
              omega (arith, sum);
          stay = λ k.
              let quiet : any_new (closure st.0 i) (closure st.0 t) ≡ false = ground arith in
              let settled : Settled st.0 i t = λ r m.
                elim (Bool-cases (member r (closure st.0 i))) [
                  | inl old ↦ old
                  | inr new ↦ let found = g (r, m, new) in cc (found, quiet)
                ] in
              (
                ground arith,
                (λ j r. unchanged settled j r),
                λ j s (e, e').
                    subst (λ (x : ℕ). Settled st.0 x s) e
                      (subst (λ (x : ℕ). Settled st.0 i x) e' settled),
              );
        }
      where
        unchanged :
            Settled st.0 i t → (j r : ℕ) → member r (closure after j) ≡ member r (closure st.0 j)
        unchanged settled j r = elim (Bool-cases (i == j)) [
          | inl here ↦
              let same = ap (λ (x : ℕ). member r (closure st.0 x)) ((==_iff i j).0 here) in
              ground (arith, member-after j r, settled r)
          | inr there ↦ ground (arith, member-after j r)
        ]

  spread_targets-Spreads :
      (i : ℕ) (targets : List ℕ) (st : Closures × Bool)
      → i < n
      → ((t : ℕ) → member t targets ≡ true → has delta i epsilon t ≡ true)
      → Closing st.0
      → Spreads (λ j s. (i ≡ j) × (member s targets ≡ true)) st (spread_targets i targets st)
  unfolding spread_targets
  spread_targets-Spreads i [] st low edges c = Spreads-ext (λ j s (e, m). cc m) (Spreads-none st c)
  spread_targets-Spreads i (t ∷ ts) st low edges c =
      let one = Spreads-merge i t (edges t (ground (arith, ==_refl t))) low st c in
      Spreads-ext
        (λ j s (e, m). elim (Bool-cases (t == s)) [
          | inl here ↦ inl (e, (==_iff t s).0 here)
          | inr there ↦ inr (e, ground arith)
        ])
        (Spreads-trans one
          (spread_targets-Spreads i ts _ low (λ s m. edges s (ground arith)) one.closing))

  pub spread_states-Spreads :
      (k i : ℕ) (st : Closures × Bool)
      → i + k ≤ n
      → Closing st.0
      → Spreads
          (λ j s. (i ≤ j) × (j < i + k) × (has delta j epsilon s ≡ true))
          st
          (spread_states epsilon delta k i st)
  unfolding spread_states state_post
  spread_states-Spreads zero i st l c =
      Spreads-ext (λ j s (a, b, e). absurd (omega arith)) (Spreads-none st c)
  spread_states-Spreads (suc k) i st l c =
      let post = get_or delta i [] in
      let found = find_elem-eq-lookup epsilon post (d.posts i).sorted in
      elim (Option-cases (lookup epsilon post)) [
        | inl gone ↦
            rw (found, gone)
              (Spreads-ext
                (λ j s (a, b, e). elim (Bool-cases (i == j)) [
                  | inl here ↦
                      let at = ap (λ (x : ℕ). has delta x epsilon s) ((==_iff i j).0 here) in
                      let none_there : targets_of epsilon post ≡ [] = rw (targets_of, gone) refl in
                      cc (at, e, ap (member s) none_there)
                  | inr there ↦ (ground arith, omega arith, e)
                ])
                (spread_states-Spreads k (suc i) st (omega arith) c))
        | inr (p, there) ↦
            let same : targets_of epsilon post ≡ p.targets = rw (targets_of, there) refl in
            let one =
              spread_targets-Spreads i p.targets st (omega arith) (λ t m. ap (member t) same ∙ m)
                c in
            rw (found, there)
              (Spreads-ext
                (λ j s (a, b, e). elim (Bool-cases (i == j)) [
                  | inl here ↦
                      let eq = (==_iff i j).0 here in
                      inl (
                        eq,
                        sym (ap (member s) same) ∙ ap (λ (x : ℕ). has delta x epsilon s) eq ∙ e,
                      )
                  | inr other ↦ inr (ground arith, omega arith, e)
                ])
                (Spreads-trans one (spread_states-Spreads k (suc i) _ (omega arith) one.closing)))
      ]
