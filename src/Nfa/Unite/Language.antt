-- ===== src/Nfa/Unite/Language.antt =====
-- src/nfa/nfa.cc: `unite_nondet_with` makes the union of the languages.
use mata.Common.{
  ℕ, zero, suc, ◌+◌, ◌-◌, ◌≤◌, ◌<◌, ◌≡◌, refl, sym, ap, subst, ◌∙◌, ◌⊎◌, ◌↔◌, inl, inr, true, false,
  ◌&&◌, ◌||◌, List, [], ◌∷◌, ◌++◌, arith, leb, ltb, ltb→lt, ◌==◌, if◌then◌else◌, Bool-cases, length,
  get_or, resize, length-resize, get_or-resize,
}
use mata.OrdVector.{ℕ_ranked, member}
use mata.SparseSet.{SparseSet, contains, elements}
use mata.SparseSet.Invariant.{IsConsistent, reserve-IsConsistent, contains-reserve}
use mata.SparseSet.Insert.{insert_all_correct}
use mata.SparseSet.Elements.{member-elements}
use mata.Delta.{Delta, StatePost, SymbolPost_ranked}
use mata.Delta.Post.{targets_of}
use mata.Delta.Relation.{has}
use mata.Nfa.{Nfa, num_of_states}
use mata.Nfa.Language.{Leads, Accepts, IsNfa}
use mata.Nfa.Complete.Start.{contains-lt}
use mata.Nfa.Unite.{
  renumber, renumber_post, renumber_targets, append, allocate, insert_renumbered, unite_nondet_with,
}

pub get_or-append :
    (xs ys : Delta) (q : ℕ)
    → get_or (xs ++ ys) q []
      ≡ (if ltb q (length xs) then get_or xs q [] else get_or ys (q - length xs) [])
get_or-append [] ys q = ground arith
get_or-append (x ∷ xs) ys zero = ground arith
get_or-append (x ∷ xs) ys (suc q) = ground (arith, get_or-append xs ys q)

-- The renumbering moves all states up by `n`.
module _ (n : ℕ) where
  abbrev pub up : ℕ → ℕ
  up q = n + q

  member-renumber :
      (j : ℕ) (states : List ℕ) → member j (renumber up states) ≡ (leb n j && member (j - n) states)
  unfolding renumber
  member-renumber j [] = ground arith
  member-renumber j (q ∷ qs) = ground (arith, member-renumber j qs)

  targets_of-renumber_post :
      (a : ℕ) (post : StatePost)
      → targets_of a (renumber_post up post) ≡ renumber up (targets_of a post)
  unfolding renumber_post
  targets_of-renumber_post a [] = unfold renumber in refl
  targets_of-renumber_post a (p ∷ ps) = elim (Bool-cases (p.symbol == a)) [
    | inl here ↦ rw (here, targets_of) refl
    | inr there ↦ rw (there, targets_of) (targets_of-renumber_post a ps)
  ]

  pub get_or-renumber_targets :
      (q : ℕ) (delta : Delta)
      → get_or (renumber_targets up delta) q [] ≡ renumber_post up (get_or delta q [])
  unfolding renumber_targets
  get_or-renumber_targets q [] = unfold renumber_post in refl
  get_or-renumber_targets zero (post ∷ posts) = refl
  get_or-renumber_targets (suc q) (post ∷ posts) = get_or-renumber_targets q posts

module _ (this nfa : Nfa) (h : IsNfa this) (k : IsNfa nfa) where
  abbrev n : ℕ
  n = num_of_states this

  abbrev pub joined : Delta
  joined = append (allocate n this.delta) (renumber_targets (λ state. n + state) nfa.delta)

  pub has-joined :
      (q a r : ℕ)
      → has joined q a r
        ≡ (if ltb q n then has this.delta q a r else leb n r && has nfa.delta (q - n) a (r - n))
  unfolding append allocate
  has-joined q a r =
      ap (λ (p : StatePost). member r (targets_of a p))
        (get_or-append (resize n [] this.delta) (renumber_targets (up n) nfa.delta) q)
      ∙ elim (Bool-cases (ltb q n)) [
        | inl low ↦
            rw (length-resize {A = StatePost} n [] this.delta, low)
              (ap (λ (p : StatePost). member r (targets_of a p))
                (get_or-resize n [] this.delta q (ltb→lt q n low)))
        | inr high ↦
            rw (length-resize {A = StatePost} n [] this.delta, high)
              (ap (λ (p : StatePost). member r (targets_of a p))
                  (get_or-renumber_targets n (q - n) nfa.delta)
                ∙ ap (member r) (targets_of-renumber_post n a (get_or nfa.delta (q - n) []))
                ∙ member-renumber n r (targets_of a (get_or nfa.delta (q - n) [])))
      ]

  pub back_down : (r : ℕ) → (n + r) - n ≡ r
  back_down r = omega arith

  pub has-high : (q a r : ℕ) → has joined (n + q) a r ≡ (leb n r && has nfa.delta q a (r - n))
  has-high q a r =
      let above : ltb (n + q) n ≡ false = ground arith in
      has-joined (n + q) a r
      ∙ rw above (ap (λ (x : ℕ). leb n r && has nfa.delta x a (r - n)) (back_down q))

  pub contains-insert_renumbered :
      (states to : SparseSet) (j : ℕ)
      → IsConsistent states
      → IsConsistent to
      → contains (insert_renumbered n (n + num_of_states nfa) states to) j
        ≡ (leb n j && contains states (j - n) || contains to j)
  unfolding insert_renumbered
  contains-insert_renumbered states to j c d =
      let kept = reserve-IsConsistent d (n + num_of_states nfa) in
      let (_, e) = insert_all_correct (renumber (up n) (elements states)) _ kept in
      ground (
        arith,
        e j,
        member-renumber n j (elements states),
        member-elements c (j - n),
        contains-reserve d (n + num_of_states nfa) j,
      )

  -- In the joined relation the states of the first automaton lead as before.
  pub Leads-low :
      (word : List ℕ) (q f : ℕ) → q < n → Leads joined q word f ↔ Leads this.delta q word f
  Leads-low [] q f lt = (λ e. e, λ e. e)
  Leads-low (a ∷ word) q f lt = (
    λ (r, t, l).
        let t' : has this.delta q a r ≡ true = ground (arith, has-joined q a r) in
        (r, t', (Leads-low word r f (h.targets_lt q a r t')).0 l),
    λ (r, t, l).
        (r, ground (arith, has-joined q a r), (Leads-low word r f (h.targets_lt q a r t)).1 l),
  )

  -- The states of the second automaton lead as before, moved up.
  pub Leads-high :
      (word : List ℕ) (q f : ℕ)
      → Leads joined (n + q) word f ↔ (n ≤ f) × Leads nfa.delta q word (f - n)
  Leads-high [] q f = (λ e. (omega arith, omega arith), λ (l, e). omega arith)
  Leads-high (a ∷ word) q f = (
    λ (r, t, l).
        let (up_r, t') = down r t in
        let (up_f, l') =
          (Leads-high word (r - n) f).0
            (subst (λ (x : ℕ). Leads joined x word f) (omega arith) l) in
        (up_f, (r - n, t', l')),
    λ (up_f, (r, t, l)). (n + r, lift r t, (Leads-high word r f).1 (up_f, l)),
  )
    where
      down : (r : ℕ) → has joined (n + q) a r ≡ true → (n ≤ r) × (has nfa.delta q a (r - n) ≡ true)
      down r t = ground (arith, has-high q a r)

      lift : (r : ℕ) → has nfa.delta q a r ≡ true → has joined (n + q) a (n + r) ≡ true
      lift r t =
          has-high q a (n + r)
          ∙ ap (λ (x : ℕ). leb n (n + r) && has nfa.delta q a x) (back_down r)
          ∙ ground arith

  Leads-lt : (word : List ℕ) (q f : ℕ) → q < n → Leads this.delta q word f → f < n
  Leads-lt [] q f lt e = omega arith
  Leads-lt (a ∷ word) q f lt (r, t, l) = Leads-lt word r f (h.targets_lt q a r t) l

  pub initial_lt : (i : ℕ) → contains this.initial i ≡ true → i < n
  initial_lt i e = let lt = contains-lt this.initial i e in unfold num_of_states in omega arith

  pub final_lt : (f : ℕ) → contains this.final f ≡ true → f < n
  final_lt f e = let lt = contains-lt this.final f e in unfold num_of_states in omega arith

  abbrev united : Nfa
  united = record {
    delta = joined;
    initial = insert_renumbered n (n + num_of_states nfa) nfa.initial this.initial;
    final = insert_renumbered n (n + num_of_states nfa) nfa.final this.final;
  }

  contains-initial :
      (j : ℕ)
      → contains united.initial j
        ≡ (leb n j && contains nfa.initial (j - n) || contains this.initial j)
  contains-initial j =
      contains-insert_renumbered nfa.initial this.initial j k.initial_lem h.initial_lem

  contains-final :
      (j : ℕ)
      → contains united.final j ≡ (leb n j && contains nfa.final (j - n) || contains this.final j)
  contains-final j = contains-insert_renumbered nfa.final this.final j k.final_lem h.final_lem

  from_this : (word : List ℕ) → Accepts this word → Accepts united word
  from_this word (f, (i, ci, l), fin) = (
    f,
    (i, ground (arith, contains-initial i), (Leads-low word i f (initial_lt i ci)).1 l),
    ground (arith, contains-final f),
  )

  contains-up : (s : SparseSet) (j : ℕ) → contains s ((n + j) - n) ≡ contains s j
  contains-up s j = ap (contains s) (back_down j)

  from_nfa : (word : List ℕ) → Accepts nfa word → Accepts united word
  from_nfa word (f, (i, ci, l), fin) = (
    n + f,
    (
      n + i,
      ground (arith, contains-initial (n + i), contains-up nfa.initial i),
      (Leads-high word i (n + f)).1
          (omega arith, subst (λ (x : ℕ). Leads nfa.delta i word x) (sym (back_down f)) l),
    ),
    ground (arith, contains-final (n + f), contains-up nfa.final f),
  )

  to_either : (word : List ℕ) → Accepts united word → Accepts this word ⊎ Accepts nfa word
  to_either word (f, (i, ci, l), fin) = elim (Bool-cases (contains this.initial i)) [
    | inl low ↦
        let l' = (Leads-low word i f (initial_lt i low)).0 l in
        let lt = Leads-lt word i f (initial_lt i low) l' in
        inl (f, (i, low, l'), ground (arith, contains-final f))
    | inr high ↦
        let (up_i, ci') = started i ci high in
        let (up_f, l') =
          (Leads-high word (i - n) f).0
            (subst (λ (x : ℕ). Leads joined x word f) (omega arith) l) in
        inr (f - n, (i - n, ci', l'), ground (arith, contains-final f, final_lt f))
  ]
    where
      started :
          (i : ℕ)
          → contains united.initial i ≡ true
          → contains this.initial i ≡ false
          → (n ≤ i) × (contains nfa.initial (i - n) ≡ true)
      started i ci high = ground (arith, contains-initial i)

-- An automaton without initial or final states accepts nothing.
nothing :
    (aut : Nfa)
    → (aut.final.size == 0 || aut.initial.size == 0) ≡ true
    → (word : List ℕ) → Accepts aut word
    → ⊥
nothing aut e word (f, (i, ci, l), fin) = unfold contains in ground arith

-- For two well-formed automata, `unite_nondet_with` makes an automaton that accepts exactly the
-- words that one of the two accepts, also where one of them has no initial or no final states.
pub Accepts-unite_nondet_with :
    (this nfa : Nfa)
    → IsNfa this
    → IsNfa nfa
    → (word : List ℕ)
    → Accepts (unite_nondet_with this nfa) word ↔ (Accepts this word ⊎ Accepts nfa word)
unfolding unite_nondet_with
Accepts-unite_nondet_with this nfa h k word =
    elim (Bool-cases (this.final.size == 0 || this.initial.size == 0)) [
      | inl none_here ↦
          rw none_here
            (inr, λ o. elim o [ inl x ↦ elim (nothing this none_here word x) [ ] | inr y ↦ y ])
      | inr some_here ↦ elim (Bool-cases (nfa.final.size == 0 || nfa.initial.size == 0)) [
        | inl none_there ↦
            rw (some_here, none_there)
              (inl, λ o. elim o [ inl x ↦ x | inr y ↦ elim (nothing nfa none_there word y) [ ] ])
        | inr some_there ↦
            rw (some_here, some_there)
              (
                to_either this nfa h k word,
                λ o. elim o [
                  | inl x ↦ from_this this nfa h k word x
                  | inr y ↦ from_nfa this nfa h k word y
                ],
              )
      ]
    ]
