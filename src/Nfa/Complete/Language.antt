-- ===== src/Nfa/Complete/Language.antt =====
-- src/nfa/operations.cc and src/nfa/nfa.cc: the language of the automaton that `make_complete` and
-- `complement_deterministic` leave, where the sink is a new state.
use mata.Common.{
  ℕ, ◌+◌, ◌≤◌, ◌<◌, ◌≡◌, refl, sym, subst, ◌∙◌, ◌⊎◌, ◌↔◌, inl, inr, Bool, true, false, ◌&&◌, ◌||◌,
  List, [], ◌∷◌, some, arith, leb, ◌==◌, ==_refl, Bool-cases, length,
}
use mata.OrdVector.{ℕ_ranked, IsSorted, member}
use mata.SparseSet.{contains}
use mata.Delta.{Delta}
use mata.Delta.Relation.{has, IsDelta}
use mata.Nfa.{Nfa, num_of_states}
use mata.Nfa.Language.{Leads, IsNfa, Leads-mono, source_lt}
use mata.Nfa.Complete.{add_to_sink, complete_states, make_complete}
use mata.Nfa.Complete.Sink.{Spread, Spread-complete_states, has-add_to_sink}

-- What `make_complete` makes of the relation `d` with the sink `s`.
pub record Completed (symbols : List ℕ) (s : ℕ) (d d' : Delta) : Type 0 where
  pub well : IsDelta d'
  pub grows : length d ≤ length d'
  pub keeps : (j b r : ℕ) → has d j b r ≡ true → has d' j b r ≡ true
  pub new :
      (j b r : ℕ)
      → has d' j b r ≡ true
      → (has d j b r ≡ true)
        ⊎ (s ≡ r)
          × ((t : ℕ) → has d j b t ≡ false)
          × (s < length d')
          × ((c : ℕ) → member c symbols ≡ true → (t : ℕ) × (has d' s c t ≡ true))
  pub total : (j b : ℕ) → j < s → member b symbols ≡ true → (r : ℕ) × (has d' j b r ≡ true)

module _ (symbols : List ℕ) (sorted : IsSorted symbols) (s : ℕ) (aut : Nfa) (h : IsDelta aut.delta)
    (low : s ≤ num_of_states aut) (fresh : (b r : ℕ) → has aut.delta s b r ≡ false) where
  abbrev looped : Delta × Bool
  looped = complete_states symbols s (num_of_states aut) 0 (aut.delta, false)

  spread : Spread symbols s 0 (0 + num_of_states aut) aut.delta false looped
  spread = Spread-complete_states symbols sorted s (num_of_states aut) 0 aut.delta false h

  abbrev sunk : Delta
  sunk = add_to_sink s s symbols looped.0

  has-sunk :
      (j b r : ℕ) → has sunk j b r ≡ (s == j && member b symbols && s == r || has looped.0 j b r)
  has-sunk = (has-add_to_sink s s symbols looped.0 spread.well).3

  sink_total : (c : ℕ) → member c symbols ≡ true → (t : ℕ) × (has sunk s c t ≡ true)
  sink_total c m = (s, ground (arith, has-sunk s c s, ==_refl s))

  Completed-sunk : Completed symbols s aut.delta sunk
  Completed-sunk =
      let (h', grown, room, e) = has-add_to_sink s s symbols looped.0 spread.well in
      record {
        well = h';
        grows = omega (arith, spread.grows);
        keeps = λ j b r k. ground (arith, has-sunk j b r, spread.keeps j b r k);
        new = λ j b r k. elim (Bool-cases (has looped.0 j b r)) [
          | inl old ↦ elim (spread.new j b r old) [
            | inl older ↦ inl older
            | inr (to, gap, fits, f) ↦ inr (to, gap, omega arith, sink_total)
          ]
          | inr missing ↦
              let (at, m, to) = parts j b r (cc (has-sunk j b r)) in
              inr (
                to,
                λ t. subst (λ (i : ℕ). has aut.delta i b t ≡ false) at (fresh b t),
                room b m,
                sink_total,
              )
        ];
        total = λ j b l m.
            let (r, k) = spread.total j b (omega arith) (omega arith) m in
            (r, ground (arith, has-sunk j b r));
      }
    where
      parts :
          (j b r : ℕ)
          → (s == j && member b symbols && s == r || false) ≡ true
          → (s ≡ j) × (member b symbols ≡ true) × (s ≡ r)
      parts j b r k = ground arith

  -- The states are complete, and so is the sink if a transition leads there.
  pub Completed-make_complete :
      Completed symbols s aut.delta (make_complete aut symbols (some s)).0.delta
      × (s < num_of_states aut
          → (c : ℕ) → member c symbols ≡ true
          → (t : ℕ) × (has (make_complete aut symbols (some s)).0.delta s c t ≡ true))
  unfolding make_complete
  Completed-make_complete = elim (Bool-cases (looped.1 && leb (num_of_states aut) s)) [
    | inl sink ↦ rw sink (Completed-sunk, λ l. sink_total)
    | inr plain ↦ rw plain (
      record {
        well = spread.well;
        grows = spread.grows;
        keeps = spread.keeps;
        new = λ j b r k. elim (spread.new j b r k) [
          | inl old ↦ inl old
          | inr (to, gap, room, f) ↦
              inr (to, gap, room, λ c m. spread.total s c (omega arith) (inside plain f) m)
        ];
        total = λ j b l m. spread.total j b (omega arith) (omega arith) m;
      },
      λ l c m. spread.total s c (omega arith) (omega arith) m,
    )
  ]
    where
      inside :
          (looped.1 && leb (num_of_states aut) s) ≡ false
          → looped.1 ≡ true
          → s < 0 + num_of_states aut
      inside plain f = ground arith

-- Where the automaton is deterministic: one initial state at most, and one target for each source
-- and symbol.
pub record IsDeterministic (aut : Nfa) : Type 0 where
  pub one_start : (i j : ℕ) → contains aut.initial i ≡ true → contains aut.initial j ≡ true → i ≡ j
  pub one_target : (q a r t : ℕ) → has aut.delta q a r ≡ true → has aut.delta q a t ≡ true → r ≡ t

-- All symbols of the word are among the given ones.
abbrev pub Over : List ℕ → List ℕ → Type 0
Over symbols [] = Unit
Over symbols (a ∷ word) = (member a symbols ≡ true) × Over symbols word

module _ (symbols : List ℕ) (aut : Nfa) (h : IsNfa aut) (d' : Delta)
    (c : Completed symbols (num_of_states aut) aut.delta d') where
  abbrev s : ℕ
  s = num_of_states aut

  -- The sink is a trap.
  pub Leads-trap : (word : List ℕ) (f : ℕ) → Leads d' s word f → s ≡ f
  Leads-trap [] f e = e
  Leads-trap (a ∷ word) f (r, k, l) = elim (c.new s a r k) [
    | inl old ↦ elim (irreflexive (source_lt aut s a r old)) [ ]
    | inr (to, _, _, _) ↦ Leads-trap word f (subst (λ (q : ℕ). Leads d' q word f) (sym to) l)
  ]
    where
      irreflexive : s < s → ⊥
      irreflexive e = omega arith

  -- A word that ends elsewhere used old transitions alone.
  pub Leads-back : (word : List ℕ) (q f : ℕ) → f < s → Leads d' q word f → Leads aut.delta q word f
  Leads-back [] q f lt e = e
  Leads-back (a ∷ word) q f lt (r, k, l) = elim (c.new q a r k) [
    | inl old ↦ (r, old, Leads-back word r f lt l)
    | inr (to, _, _, _) ↦
        elim (caught (Leads-trap word f (subst (λ (q : ℕ). Leads d' q word f) (sym to) l))) [ ]
  ]
    where
      caught : s ≡ f → ⊥
      caught e = omega arith

  -- `make_complete` keeps the language from every state to every old state.
  pub Leads-iff : (word : List ℕ) (q f : ℕ) → f < s → Leads d' q word f ↔ Leads aut.delta q word f
  Leads-iff word q f lt = (Leads-back word q f lt, Leads-mono aut.delta d' c.keeps word q f)

  module _
      (one : (q a r t : ℕ) → has aut.delta q a r ≡ true → has aut.delta q a t ≡ true → r ≡ t) where
    completed_one : (q a r t : ℕ) → has d' q a r ≡ true → has d' q a t ≡ true → r ≡ t
    completed_one q a r t k l = elim (c.new q a r k) [
      | inl x ↦ elim (c.new q a t l) [
        | inl y ↦ one q a r t x y
        | inr (to, gap, _, _) ↦ cc (x, gap r)
      ]
      | inr (to, gap, _, _) ↦ elim (c.new q a t l) [
        | inl y ↦ cc (y, gap t)
        | inr (to', _, _, _) ↦ cc (to, to')
      ]
    ]

    pub Leads-unique : (word : List ℕ) (q f g : ℕ) → Leads d' q word f → Leads d' q word g → f ≡ g
    Leads-unique [] q f g e e' = sym e ∙ e'
    Leads-unique (a ∷ word) q f g (r, k, l) (t, k', l') =
        Leads-unique word t f g
          (subst (λ (p : ℕ). Leads d' p word f) (completed_one q a r t k k') l) l'

  -- `n` states are in use.
  module _ (n : ℕ) (fits : length d' ≤ n) where
    -- An old state, or the sink where it is in use.
    abbrev pub Live : ℕ → Type 0
    Live q =
        (q < s)
        ⊎ (s ≡ q) × (s < n) × ((b : ℕ) → member b symbols ≡ true → (t : ℕ) × (has d' s b t ≡ true))

    -- From a live state every word over the symbols leads on.
    pub Leads-total :
        (word : List ℕ) (q : ℕ) → Over symbols word → Live q → (f : ℕ) × Leads d' q word f × Live f
    Leads-total [] q o live = (q, refl, live)
    Leads-total (a ∷ word) q (m, o) live =
        let (r, k) = next q live in
        let (f, l, live') = Leads-total word r o (live_next q r k) in (f, (r, k, l), live')
      where
        next : (q : ℕ) → Live q → (r : ℕ) × (has d' q a r ≡ true)
        next q (inl lt) = c.total q a lt m
        next q (inr (to, room, all)) =
            let (r, k) = all a m in (r, subst (λ (p : ℕ). has d' p a r ≡ true) to k)

        live_next : (q r : ℕ) → has d' q a r ≡ true → Live r
        live_next q r k = elim (c.new q a r k) [
          | inl old ↦ inl (h.targets_lt q a r old)
          | inr (to, gap, room, all) ↦ inr (to, omega arith, all)
        ]
