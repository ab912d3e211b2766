-- ===== src/Nfa/RemoveEpsilon/Fixpoint.antt =====
-- src/nfa/operations.cc: the closures that `remove_epsilon` starts from, and the end of its fixpoint.
use mata.Common.{
  ℕ, zero, suc, ◌+◌, ◌*◌, ◌≤◌, ◌<◌, ◌≡◌, refl, sym, ap, subst, ◌∙◌, ◌⊎◌, inl, inr, true, false,
  List, [], ◌∷◌, some, arith, ◌==◌, ==_iff, ==_refl, Bool-cases, length, get_or, ltb, ltb→lt,
  get_or-ge,
}
use mata.OrdVector.{ℕ_ranked, IsSorted, member}
use mata.OrdVector.Merge
use mata.OrdVector.Merge.Laws.{insert_all_correct}
use mata.Delta.{Delta, SymbolPost_ranked, StatePost, state_post}
use mata.Delta.Post.{targets_of, HasTargets, member-targets_of}
use mata.Delta.Relation.{has, IsDelta}
use mata.Worklist.{start, step}
use mata.Nfa.Closure.Epsilons.{missing-le}
use mata.Nfa.RemoveEpsilon.{
  Closures, closure, with_self, start_closure, start_closures, spread_states, fixpoint,
}
use mata.Nfa.RemoveEpsilon.Round.{total, Closing, Settled, spread_states-Spreads}

-- The vector is empty or holds the state itself.
abbrev HasSelf : ℕ → List ℕ → Type 0
HasSelf i states = (states ≡ []) ⊎ (member i states ≡ true)

with_self_lem :
    (i : ℕ) (states : List ℕ)
    → HasSelf i states
    → IsSorted states
    → IsSorted (with_self i states)
      × (member i (with_self i states) ≡ true)
      × ((r : ℕ) → member r states ≡ true → member r (with_self i states) ≡ true)
      × ((r : ℕ) → member r (with_self i states) ≡ true → (member r states ≡ true) ⊎ (i ≡ r))
with_self_lem i [] o s =
    ((tt, tt), ground (arith, ==_refl i), (λ r m. cc m), λ r m. inr ((==_iff i r).0 (ground arith)))
with_self_lem i (x ∷ xs) (inl e) s = cc e
with_self_lem i (x ∷ xs) (inr m) s = (s, m, (λ r k. k), λ r k. inl k)

record Starts (epsilon i : ℕ) (post : StatePost) (states result : List ℕ) : Type 0 where
  sorted : IsSorted result
  keeps : (r : ℕ) → member r states ≡ true → member r result ≡ true
  own : ((post ≡ []) ⊎ (member i result ≡ true)) × HasSelf i result
  next : (r : ℕ) → member r (targets_of epsilon post) ≡ true → member r result ≡ true
  sound :
      (r : ℕ)
      → member r result ≡ true
      → (member r states ≡ true) ⊎ (i ≡ r) ⊎ (member r (targets_of epsilon post) ≡ true)

start_closure-Starts :
    (epsilon i : ℕ) (post : StatePost) (states : List ℕ)
    → IsSorted post
    → HasTargets post
    → HasSelf i states
    → IsSorted states
    → Starts epsilon i post states (start_closure epsilon i post states)
unfolding start_closure
start_closure-Starts epsilon i [] states o h self s = record {
  sorted = s;
  keeps = λ r m. m;
  own = (inl refl, self);
  next = λ r m. cc m;
  sound = λ r m. inl m;
}
start_closure-Starts epsilon i (p ∷ ps) states o h self s =
    let (s', m', keep, back) = with_self_lem i states self s in
    elim (Bool-cases (p.symbol == epsilon)) [
      | inr other ↦
          let k = start_closure-Starts epsilon i ps (with_self i states) o.1 h.2 (inr m') s' in
          rw other (record {
            sorted = k.sorted;
            keeps = λ r m. k.keeps r (keep r m);
            own = (inr (k.keeps i m'), k.own.1);
            next = λ r m. k.next r (ground (arith, member-targets_of epsilon r p ps o));
            sound = λ r m. elim (k.sound r m) [
              | inl early ↦ elim (back r early) [ inl old ↦ inl old | inr e ↦ inr (inl e) ]
              | inr (inl e) ↦ inr (inl e)
              | inr (inr t) ↦ inr (inr (ground (arith, member-targets_of epsilon r p ps o)))
            ];
          })
      | inl same ↦
          let (s2, all, _) = insert_all_correct (with_self i states) p.targets s' h.0 in
          let grown = (Merge.insert_all (with_self i states) p.targets).0 in
          let k =
            start_closure-Starts epsilon i ps grown o.1 h.2 (inr (ground (arith, all i))) s2 in
          rw same (record {
            sorted = k.sorted;
            keeps = λ r m. let m2 = keep r m in k.keeps r (ground (arith, all r));
            own = (inr (k.keeps i (ground (arith, all i))), k.own.1);
            next = λ r m. elim (Bool-cases (member r p.targets)) [
              | inl here ↦ k.keeps r (ground (arith, all r))
              | inr there ↦ k.next r (ground (arith, member-targets_of epsilon r p ps o))
            ];
            sound = λ r m. elim (k.sound r m) [
              | inl early ↦ elim (Bool-cases (member r p.targets)) [
                | inl here ↦ inr (inr (ground (arith, member-targets_of epsilon r p ps o)))
                | inr there ↦ elim (back r (ground (arith, all r))) [
                  | inl old ↦ inl old
                  | inr e ↦ inr (inl e)
                ]
              ]
              | inr (inl e) ↦ inr (inl e)
              | inr (inr t) ↦ inr (inr (ground (arith, member-targets_of epsilon r p ps o)))
            ];
          })
    ]

total_le : (n : ℕ) (closures : Closures) → total n closures ≤ n * length closures
total_le n [] = omega arith
total_le n (xs ∷ closures) =
    let rest = total_le n closures in
    let one = missing-le n xs in
    let product : n * suc (length closures) ≡ n + n * length closures = omega arith in omega arith

module _ (epsilon : ℕ) (delta : Delta) (d : IsDelta delta) (n : ℕ)
    (targets_lt : (q a r : ℕ) → has delta q a r ≡ true → r < n)
    (sources_lt : (q a r : ℕ) → has delta q a r ≡ true → q < n) where
  abbrev pub started : Closures
  started = start_closures epsilon delta n 0

  length-start_closures : (k i : ℕ) → length (start_closures epsilon delta k i) ≡ k
  unfolding start_closures
  length-start_closures zero i = refl
  length-start_closures (suc k) i = ap suc (length-start_closures k (suc i))

  closure-start_closures :
      (k i j q : ℕ)
      → j < k
      → q ≡ i + j
      → closure (start_closures epsilon delta k i) j
        ≡ start_closure epsilon q (get_or delta q []) []
  unfolding start_closures state_post
  closure-start_closures zero i j q l e = absurd (omega arith)
  closure-start_closures (suc k) i zero q l e =
      ap (λ (x : ℕ). start_closure epsilon x (get_or delta x []) []) (omega arith)
  closure-start_closures (suc k) i (suc j) q l e =
      closure-start_closures k (suc i) j q (omega arith) (omega arith)

  begins :
      (q : ℕ)
      → Starts epsilon q (get_or delta q []) [] (start_closure epsilon q (get_or delta q []) [])
  begins q =
      start_closure-Starts epsilon q (get_or delta q []) [] (d.posts q).sorted (d.posts q).filled
        (inl refl) tt

  closure-cases :
      (q : ℕ)
      → (q < n) × (closure started q ≡ start_closure epsilon q (get_or delta q []) [])
        ⊎ (n ≤ q) × (closure started q ≡ [])
  closure-cases q = elim (Bool-cases (ltb q n)) [
    | inl low ↦ inl (ltb→lt q n low, closure-start_closures n 0 q q (ltb→lt q n low) (omega arith))
    | inr high ↦
        let size = length-start_closures n 0 in
        inr (ground arith, get_or-ge started q [] (ground arith))
  ]

  Closing-started : Closing epsilon delta d n targets_lt started
  Closing-started = record {
    size = length-start_closures n 0;
    sorted = λ q. elim (closure-cases q) [
      | inl (low, e) ↦ subst (λ (xs : List ℕ). IsSorted xs) (sym e) (begins q).sorted
      | inr (high, e) ↦ subst (λ (xs : List ℕ). IsSorted xs) (sym e) tt
    ];
    silent = λ q r m. elim (origin q r m) [ inl (low, e) ↦ start e | inr t ↦ step (start refl) t ];
    bounded = λ q r m. elim (origin q r m) [
      | inl (low, e) ↦ omega (arith, low, e)
      | inr t ↦ targets_lt q epsilon r t
    ];
    own = λ q a r t. elim (closure-cases q) [
      | inl (low, e) ↦ elim (begins q).own.0 [
        | inl none_there ↦ cc (none_there, t)
        | inr m ↦ ap (member q) e ∙ m
      ]
      | inr (high, e) ↦ absurd (omega (arith, sources_lt q a r t))
    ];
    next = λ q r t. elim (closure-cases q) [
      | inl (low, e) ↦ ap (member r) e ∙ (begins q).next r t
      | inr (high, e) ↦ absurd (omega (arith, sources_lt q epsilon r t))
    ];
  }
    where
      origin :
          (q r : ℕ)
          → member r (closure started q) ≡ true
          → (q < n) × (q ≡ r) ⊎ (has delta q epsilon r ≡ true)
      origin q r m = elim (closure-cases q) [
        | inl (low, e) ↦ elim ((begins q).sound r (sym (ap (member r) e) ∙ m)) [
          | inl old ↦ cc old
          | inr (inl same) ↦ inl (low, same)
          | inr (inr t) ↦ inr t
        ]
        | inr (high, e) ↦ cc (ap (member r) e, m)
      ]

  -- The closures at the end: along every epsilon transition they are settled.
  pub record Fixed (closures : Closures) : Type 0 where
    pub closing : Closing epsilon delta d n targets_lt closures
    pub settled :
        (i t : ℕ) → has delta i epsilon t ≡ true → Settled epsilon delta d n targets_lt closures i t

  fixpoint-Fixed :
      (fuel : ℕ) (closures : Closures)
      → Closing epsilon delta d n targets_lt closures
      → total n closures < fuel
      → (last : Closures) × (fixpoint epsilon delta n fuel closures ≡ some last) × Fixed last
  unfolding fixpoint
  fixpoint-Fixed zero closures c l = absurd (omega arith)
  fixpoint-Fixed (suc fuel) closures c l =
      let st = spread_states epsilon delta n 0 (closures, false) in
      let k =
        spread_states-Spreads epsilon delta d n targets_lt n 0 (closures, false) (omega arith) c in
      elim (Bool-cases st.1) [
        | inl changed ↦
            rw changed (fixpoint-Fixed fuel st.0 k.closing (omega (arith, k.less refl changed)))
        | inr same ↦
            let (_, kept, settled) = k.stay same in
            rw same (
              st.0,
              refl,
              record {
                closing = k.closing;
                settled = λ i t e r m.
                    kept i r
                    ∙ settled i t (omega arith, omega (arith, sources_lt i epsilon t e), e) r
                        (sym (kept t r) ∙ m);
              },
            )
      ]

  -- As many rounds as there are pairs of states, and one, are enough.
  pub fixpoint_lem :
      (last : Closures) × (fixpoint epsilon delta n (n * n + 1) started ≡ some last) × Fixed last
  fixpoint_lem =
      let bound = total_le n started in
      let same = ap (λ (k : ℕ). n * k) (length-start_closures n 0) in
      fixpoint-Fixed (n * n + 1) started Closing-started (omega arith)
