-- ===== src/Nfa/Trim/Language.antt =====
-- src/nfa/nfa.cc: `trim` keeps the language if all states on accepting runs are marked as useful.
use mata.Common.{
  ℕ, ◌≡◌, refl, sym, ap, subst, ◌∙◌, ◌↔◌, ◌<◌, inl, inr, Bool, true, false, ◌&&◌, List, [], ◌∷◌,
  arith, leb, leb→le, length, get_or-ge, Bool-cases,
}
use mata.SparseSet.{SparseSet, contains, dense_at, truncate}
use mata.SparseSet
use mata.SparseSet.Invariant.{IsConsistent, contains-dense_at}
use mata.SparseSet.Filter.{filter_correct}
use mata.SparseSet.Rename.{rename-IsConsistent, contains-rename}
use mata.SparseSet.Elements.{contains-truncate, truncate-IsConsistent}
use mata.Delta.{Delta}
use mata.Delta.Relation.{has, IsDelta}
use mata.Delta.Defragment.{stays, renamed, defragment, make_renaming}
use mata.Delta.Defragment.Compact.{count_below, renamed-make_renaming, count_below_injective}
use mata.Delta.Defragment.Agree.{defragment-eq-defragmented}
use mata.Delta.Defragment.Transitions.{Named, has-defragment}
use mata.Nfa.{Nfa}
use mata.Nfa.Language.{Leads, Reads, Accepts, IsNfa}
use mata.Nfa.Trim.{is_state_useful, trim_states, trim, trimmed}

is_state_useful-eq-stays : (bs : List Bool) (q : ℕ) → is_state_useful bs q ≡ stays bs q
unfolding is_state_useful
is_state_useful-eq-stays bs q = elim (Bool-cases (leb (length bs) q)) [
  | inl out ↦ rw (get_or-ge bs q false (leb→le _ _ out)) (ground arith)
  | inr inside ↦ ground arith
]

module _ (bs : List Bool) where
  abbrev rn : List ℕ
  rn = make_renaming 0 bs

  module _ (s : SparseSet) (c : IsConsistent s) where
    abbrev useful : SparseSet
    useful = SparseSet.filter (is_state_useful bs) s

    useful-IsConsistent : IsConsistent useful
    useful-IsConsistent = (filter_correct (is_state_useful bs) s c).0

    contains-useful : (j : ℕ) → contains useful j ≡ (contains s j && stays bs j)
    contains-useful j =
        (filter_correct (is_state_useful bs) s c).1 j
        ∙ ap (λ (x : Bool). contains s j && x) (is_state_useful-eq-stays bs j)

    name_of : (j : ℕ) → contains useful j ≡ true → renamed rn j ≡ count_below bs j
    name_of j e = renamed-make_renaming bs j (ground (arith, contains-useful j))

    apart :
        (i j : ℕ)
        → i < useful.size
        → j < useful.size
        → renamed rn (dense_at useful i) ≡ renamed rn (dense_at useful j)
        → i ≡ j
    apart i j hi hj e =
        let ci = contains-dense_at useful-IsConsistent i hi in
        let cj = contains-dense_at useful-IsConsistent j hj in
        let same =
          count_below_injective bs (dense_at useful i) (dense_at useful j)
            (ground (arith, contains-useful (dense_at useful i)))
            (ground (arith, contains-useful (dense_at useful j)))
            (sym (name_of _ ci) ∙ e ∙ name_of _ cj) in
        sym (useful-IsConsistent.back i hi)
        ∙ ap (SparseSet.sparse_at useful) same
        ∙ useful-IsConsistent.back j hj

    pub contains-trim_states :
        (j' : ℕ)
        → (contains (trim_states bs rn s) j' ≡ true)
          ↔ ((j : ℕ) × Named bs j j' × (contains s j ≡ true))
    unfolding trim_states
    contains-trim_states j' =
        let kept = rename-IsConsistent (renamed rn) useful apart useful-IsConsistent in
        let (f, g) = contains-rename (renamed rn) useful apart useful-IsConsistent j' in
        rw (contains-truncate kept j') (
          λ e.
              let (v, h, n) = f e in
              (
                v,
                (ground (arith, contains-useful v), sym (name_of v h) ∙ n),
                ground (arith, contains-useful v),
              ),
          λ (j, (stay, n), h).
              g (j, ground (arith, contains-useful j), renamed-make_renaming bs j stay ∙ n),
        )

    pub trim_states-IsConsistent : IsConsistent (trim_states bs rn s)
    unfolding trim_states
    trim_states-IsConsistent =
        truncate-IsConsistent (rename-IsConsistent (renamed rn) useful apart useful-IsConsistent)

  module _ (delta : Delta) (d : IsDelta delta) where
    abbrev small : Delta
    small = defragment bs rn delta

    -- The trimmed relation leads only where the old one does.
    Leads-from_trimmed :
        (word : List ℕ) (q q' f' : ℕ)
        → Named bs q q'
        → Leads small q' word f'
        → (f : ℕ) × Named bs f f' × Leads delta q word f
    Leads-from_trimmed [] q q' f' n e = (q, (n.0, n.1 ∙ e), refl)
    Leads-from_trimmed (a ∷ word) q q' f' n (r', t', l') =
        let (p, r, np, nr, t) = (has-defragment bs delta q' a r' d).0 t' in
        let same = count_below_injective bs p q np.0 n.0 (np.1 ∙ sym n.1) in
        let (f, nf, l) = Leads-from_trimmed word r r' f' nr l' in
        (f, nf, (r, subst (λ (x : ℕ). has delta x a r ≡ true) same t, l))

    -- And along a run whose states all stay it leads where the old one does.
    Leads-to_trimmed :
        (f : ℕ) (word : List ℕ) (q : ℕ)
        → ((u v : List ℕ) (m : ℕ) → Leads delta q u m → Leads delta m v f → stays bs m ≡ true)
        → Leads delta q word f
        → Leads small (count_below bs q) word (count_below bs f)
    Leads-to_trimmed f [] q alive e = ap (count_below bs) e
    Leads-to_trimmed f (a ∷ word) q alive (r, t, l) =
        let stay = alive [] (a ∷ word) q refl (r, t, l) in
        let next = alive (a ∷ []) word r (r, t, refl) l in
        (
          count_below bs r,
          (has-defragment bs delta (count_below bs q) a (count_below bs r) d).1
              (q, r, (stay, refl), (next, refl), t),
          Leads-to_trimmed f word r (λ u v m k. alive (a ∷ u) v m (r, t, k)) l,
        )

module _ (bs : List Bool) (n : Nfa) (h : IsNfa n) where
  from_trim : (word : List ℕ) → Accepts (trim bs n) word → Accepts n word
  unfolding trim
  from_trim word (f', (i', ci', l'), cf') =
      let (i, ni, ci) = (contains-trim_states bs n.initial h.initial_lem i').0 ci' in
      let (e, ne, ce) = (contains-trim_states bs n.final h.final_lem f').0 cf' in
      let (f, nf, l) = Leads-from_trimmed bs n.delta h.delta_lem word i i' f' ni l' in
      let same = count_below_injective bs e f ne.0 nf.0 (ne.1 ∙ sym nf.1) in
      (f, (i, ci, l), subst (λ (x : ℕ). contains n.final x ≡ true) same ce)

  -- For a well-formed automaton, `trim` keeps the language, given that every state on a run from
  -- an initial to a final state is marked as useful.
  pub Accepts-trim :
      ((u v : List ℕ) (m f : ℕ)
        → Reads n u m
        → Leads n.delta m v f
        → contains n.final f ≡ true
        → stays bs m ≡ true)
      → (word : List ℕ) → Accepts (trim bs n) word ↔ Accepts n word
  unfolding trim
  Accepts-trim marked word = (
    from_trim word,
    λ (f, (i, ci, l), cf).
        let at_start = marked [] word i f (i, ci, refl) l cf in
        let at_end = marked word [] f f (i, ci, l) refl cf in
        (
          count_below bs f,
          (
            count_below bs i,
            (contains-trim_states bs n.initial h.initial_lem (count_below bs i)).1
                (i, (at_start, refl), ci),
            Leads-to_trimmed bs n.delta h.delta_lem f word i
                (λ u v m k k'. marked u v m f (i, ci, k) k' cf) l,
          ),
          (contains-trim_states bs n.final h.final_lem (count_below bs f)).1
              (f, (at_end, refl), cf),
        ),
  )

  -- On a well-formed automaton, `trim` in place makes the same automaton as the function `trim`
  -- that copies.
  pub trim-eq-trimmed : trim bs n ≡ trimmed bs n n.initial n.final
  unfolding trim trimmed
  trim-eq-trimmed =
      ap
        (λ (delta : Delta). record {
          delta = delta;
          initial = trim_states bs (make_renaming 0 bs) n.initial;
          final = trim_states bs (make_renaming 0 bs) n.final;
        })
        (defragment-eq-defragmented bs n.delta h.delta_lem)
