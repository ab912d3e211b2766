-- ===== src/Nfa/Complete/Sink.antt =====
-- src/nfa/operations.cc: what the loops of `make_complete` add to the transition relation.
use mata.Common.{
  ℕ, zero, suc, ◌+◌, ◌≤◌, ◌<◌, ◌≡◌, refl, ap, subst, ◌⊎◌, inl, inr, Bool, true, false, not, ◌&&◌,
  ◌||◌, List, [], ◌∷◌, arith, ◌==◌, ==_refl, Bool-cases, length, get_or,
}
use mata.OrdVector.{ℕ_ranked, IsSorted, member}
use mata.OrdVector.Lookup.{member-insert}
use mata.OrdVector.Order.{insert-IsSorted}
use mata.OrdVector.Merge.{difference}
use mata.OrdVector.Merge.Laws.{member-difference}
use mata.Delta.{Delta, StatePost, SymbolPost_ranked, add, state_post}
use mata.Delta.Post.{targets_of, Filled}
use mata.Delta.Relation.{has, IsDelta, has-add, add-IsDelta, length-add, targets_of-cases}
use mata.Nfa.{is_empty}
use mata.Nfa.Complete.{used_symbols, add_to_sink, complete_states}

used_symbols_correct :
    (b : ℕ) (post : StatePost) (used : List ℕ)
    → IsSorted used
    → IsSorted (used_symbols post used)
      × (member b (used_symbols post used) ≡ (member b post || member b used))
unfolding used_symbols
used_symbols_correct b [] used s = (s, refl)
used_symbols_correct b (p ∷ ps) used s =
    let (s', e) = used_symbols_correct b ps _ (insert-IsSorted p.symbol used s) in
    (s', ground (arith, e, member-insert b p.symbol used))

-- A used symbol has a transition.
member-has :
    (d : Delta) (q b : ℕ)
    → IsDelta d
    → member b (state_post d q) ≡ true
    → (r : ℕ) × (has d q b r ≡ true)
unfolding state_post
member-has d q b h e = elim (targets_of-cases b (get_or d q []) ((h.posts q).filled)) [
  | inl (m, s, f) ↦ some_target (targets_of b (get_or d q [])) f
  | inr (m, n) ↦ cc (e, m)
]
  where
    some_target : (ts : List ℕ) → Filled ts → (r : ℕ) × (member r ts ≡ true)
    some_target [] f = elim f [ ]
    some_target (t ∷ ts) f = (t, ground (arith, ==_refl t))

-- An unused one has none.
missing-has :
    (d : Delta) (q b : ℕ)
    → IsDelta d
    → member b (state_post d q) ≡ false
    → (r : ℕ) → has d q b r ≡ false
unfolding state_post
missing-has d q b h e r = elim (targets_of-cases b (get_or d q []) ((h.posts q).filled)) [
  | inl (m, s, f) ↦ cc (e, m)
  | inr (m, n) ↦ ap (member r) n
]

pub has-add_to_sink :
    (q s : ℕ) (symbols : List ℕ) (d : Delta)
    → IsDelta d
    → IsDelta (add_to_sink q s symbols d)
      × (length d ≤ length (add_to_sink q s symbols d))
      × ((b : ℕ) → member b symbols ≡ true → s < length (add_to_sink q s symbols d))
      × ((j b r : ℕ)
          → has (add_to_sink q s symbols d) j b r
            ≡ (q == j && member b symbols && s == r || has d j b r))
unfolding add_to_sink
has-add_to_sink q s [] d h = (h, omega arith, λ b e. cc, λ j b r. ground arith)
has-add_to_sink q s (a ∷ symbols) d h =
    let (h', grown, room, e) = has-add_to_sink q s symbols (add q a s d) (add-IsDelta d q a s h) in
    let (l, m, t) = length-add d q a s in
    (h', omega arith, λ b k. omega arith, λ j b r. ground (arith, e j b r, has-add d q a s j b r h))

-- What the loop over the states makes of a relation `d`, from `lo` to below `hi`: it keeps the
-- transitions, adds some to the sink where there were none under the symbol, and leaves no gaps.
pub record Spread (symbols : List ℕ) (s lo hi : ℕ) (d : Delta) (added : Bool) (st : Delta × Bool)
    : Type 0 where
  pub well : IsDelta st.0
  pub flagged : added ≡ true → st.1 ≡ true
  pub grows : length d ≤ length st.0
  pub keeps : (j b r : ℕ) → has d j b r ≡ true → has st.0 j b r ≡ true
  pub new :
      (j b r : ℕ)
      → has st.0 j b r ≡ true
      → (has d j b r ≡ true)
        ⊎ (s ≡ r) × ((t : ℕ) → has d j b t ≡ false) × (s < length st.0) × (st.1 ≡ true)
  pub total :
      (j b : ℕ) → lo ≤ j → j < hi → member b symbols ≡ true → (r : ℕ) × (has st.0 j b r ≡ true)

module _ (symbols : List ℕ) (sorted : IsSorted symbols) (s : ℕ) where
  module _ (q : ℕ) (d : Delta) (added : Bool) (h : IsDelta d) where
    abbrev unused : List ℕ
    unused = difference symbols (used_symbols (state_post d q) [])

    abbrev next : Delta
    next = add_to_sink q s unused d

    member-unused :
        (b : ℕ) → member b unused ≡ (member b symbols && not (member b (state_post d q)))
    member-unused b =
        let (s', e) = used_symbols_correct b (state_post d q) [] tt in
        ground (arith, member-difference b symbols (used_symbols (state_post d q) []) sorted s', e)

    not_empty : (b : ℕ) (bs : List ℕ) → member b bs ≡ true → not (is_empty bs) ≡ true
    not_empty b [] e = cc
    not_empty b (x ∷ xs) e = refl

    Spread-step : Spread symbols s q (suc q) d added (next, added || not (is_empty unused))
    Spread-step =
        let (h', grown, room, e) = has-add_to_sink q s unused d h in
        record {
          well = h';
          flagged = λ k. rw k refl;
          grows = grown;
          keeps = λ j b r k. ground (arith, e j b r);
          new = λ j b r k. elim (Bool-cases (has d j b r)) [
            | inl old ↦ inl old
            | inr fresh ↦
                let (at, m, to) = parts j b r (cc (e j b r)) in
                inr (
                  to,
                  λ t. subst (λ (i : ℕ). has d i b t ≡ false) at (gap b m t),
                  room b m,
                  ground (arith, not_empty b unused m),
                )
          ];
          total = λ j b lo hi m. elim (Bool-cases (member b (state_post d q))) [
            | inl there ↦
                (let (r, k) = member-has d q b h there in (r, at_old j b r (omega arith) k))
            | inr missing ↦ (s, at_sink j b (omega arith) m missing)
          ];
        }
      where
        parts :
            (j b r : ℕ)
            → (q == j && member b unused && s == r || false) ≡ true
            → (q ≡ j) × (member b unused ≡ true) × (s ≡ r)
        parts j b r k = ground arith

        gap : (b : ℕ) → member b unused ≡ true → (t : ℕ) → has d q b t ≡ false
        gap b m t = missing-has d q b h (ground (arith, member-unused b)) t

        at_old : (j b r : ℕ) → q ≡ j → has d q b r ≡ true → has next j b r ≡ true
        at_old j b r at k =
            let (h', grown, room, e) = has-add_to_sink q s unused d h in
            subst (λ (i : ℕ). has next i b r ≡ true) at (ground (arith, e q b r))

        at_sink :
            (j b : ℕ)
            → q ≡ j
            → member b symbols ≡ true
            → member b (state_post d q) ≡ false
            → has next j b s ≡ true
        at_sink j b at m missing =
            let (h', grown, room, e) = has-add_to_sink q s unused d h in
            subst (λ (i : ℕ). has next i b s ≡ true) at
              (ground (arith, e q b s, member-unused b, ==_refl q, ==_refl s))

  -- From `q` on, the loop over `n` states leaves no gaps in their posts.
  pub Spread-complete_states :
      (n q : ℕ) (d : Delta) (added : Bool)
      → IsDelta d
      → Spread symbols s q (q + n) d added (complete_states symbols s n q (d, added))
  unfolding complete_states
  Spread-complete_states zero q d added h = record {
    well = h;
    flagged = λ k. k;
    grows = omega arith;
    keeps = λ j b r k. k;
    new = λ j b r k. inl k;
    total = λ j b lo hi m. elim (none_between j lo hi) [ ];
  }
    where
      none_between : (j : ℕ) → q ≤ j → j < q + 0 → ⊥
      none_between j lo hi = omega arith
  Spread-complete_states (suc n) q d added h =
      let step = Spread-step q d added h in
      let flag = added || not (is_empty (unused q d added h)) in
      let rest = Spread-complete_states n (suc q) (next q d added h) flag step.well in
      record {
        well = rest.well;
        flagged = λ k. rest.flagged (step.flagged k);
        grows = omega (arith, step.grows, rest.grows);
        keeps = λ j b r k. rest.keeps j b r (step.keeps j b r k);
        new = λ j b r k. elim (rest.new j b r k) [
          | inl k' ↦ elim (step.new j b r k') [
            | inl old ↦ inl old
            | inr (to, gap, room, f) ↦ inr (to, gap, omega (arith, rest.grows), rest.flagged f)
          ]
          | inr (to, gap, room, f) ↦ inr (
            to,
            λ t. elim (Bool-cases (has d j b t)) [
              | inl there ↦ cc (step.keeps j b t there, gap t)
              | inr missing ↦ missing
            ],
            room,
            f,
          )
        ];
        total = λ j b lo hi m. elim (Bool-cases (q == j)) [
          | inl here ↦ let (r, k) = step.total j b lo (ground arith) m in (r, rest.keeps j b r k)
          | inr later ↦ rest.total j b (ground arith) (omega arith) m
        ];
      }
