-- ===== src/Nfa/Concatenate/Power.antt =====
-- src/nfa/concatenation.cc: `concatenate_nth_power` makes the power of the language.
use mata.Common.{
  ℕ, zero, suc, ◌+◌, ◌/◌, ◌%◌, ◌<◌, ◌≤◌, ◌≡◌, refl, sym, ap, ◌∙◌, ◌↔◌, inl, inr, Bool, true, false,
  List, [], ◌∷◌, some, arith, ◌==◌, ==_iff, ltb, ltb→lt, Bool-cases, if◌then◌else◌, get_or,
  get_or-resize, get_or-ge, length, length-resize, resize,
}
use mata.SparseSet.{contains, empty_set}
use mata.SparseSet
use mata.SparseSet.Invariant.{IsConsistent-empty}
use mata.SparseSet.Insert.{insert-IsConsistent, contains-insert}
use mata.Delta.{StatePost}
use mata.Delta.Post.{targets_of, IsPost}
use mata.Delta.Relation.{has, IsPost-empty}
use mata.OrdVector.{ℕ_ranked, member}
use mata.Nfa.{Nfa, num_of_states}
use mata.Nfa.Language.{Accepts, IsNfa, Leads-mono}
use mata.Nfa.Unite.{allocate}
use mata.Nfa.Concatenate.{
  concatenate, concatenate_self, create_empty_string_nfa, power_loop, concatenate_nth_power,
}
use mata.Nfa.Concatenate.Language.{Accepts-concatenate}
use mata.Nfa.Concatenate.Invariant.{concatenate-IsNfa}
use mata.Nfa.Concatenate.Words.{
  Cat, Power, Cat_mono, Power_mono, Cat-assoc, assoc-Cat, Power-double, double-Power, Cat-empty,
  empty-Cat, Cat-empty_first, empty_first-Cat, add-Power, Power-add,
}

-- The automaton `*this` after `allocate`.
module _ (this : Nfa) (h : IsNfa this) where
  abbrev allocated : Nfa
  allocated = record this { delta = allocate (num_of_states this) this.delta }

  get_or-allocated : (q : ℕ) → get_or allocated.delta q [] ≡ get_or this.delta q []
  unfolding allocate
  get_or-allocated q = elim (Bool-cases (ltb q (num_of_states this))) [
    | inl low ↦ get_or-resize (num_of_states this) [] this.delta q (ltb→lt q _ low)
    | inr high ↦
        let room : length this.delta ≤ q = unfold num_of_states in ground arith in
        let room' = length-resize {A = StatePost} (num_of_states this) [] this.delta in
        get_or-ge (resize (num_of_states this) [] this.delta) q [] (ground arith)
        ∙ sym (get_or-ge this.delta q [] room)
  ]

  has-allocated : (q a r : ℕ) → has allocated.delta q a r ≡ has this.delta q a r
  has-allocated q a r = ap (λ (p : StatePost). member r (targets_of a p)) (get_or-allocated q)

  same_states : num_of_states allocated ≡ num_of_states this
  unfolding allocate num_of_states
  same_states =
      let room = length-resize {A = StatePost} (num_of_states this) [] this.delta in
      unfold num_of_states in ground arith

  allocated-IsNfa : IsNfa allocated
  allocated-IsNfa = record {
    delta_lem = record { posts = λ q. rw (get_or-allocated q) (h.delta_lem.posts q) };
    initial_lem = h.initial_lem;
    final_lem = h.final_lem;
    targets_lt = λ q a r t. rw same_states (h.targets_lt q a r (sym (has-allocated q a r) ∙ t));
  }

  Accepts-allocated : (word : List ℕ) → Accepts allocated word ↔ Accepts this word
  Accepts-allocated word = (
    λ (f, (i, ci, l), cf). (
      f,
      (
        i,
        ci,
        Leads-mono allocated.delta this.delta (λ q a r t. sym (has-allocated q a r) ∙ t) word i f l,
      ),
      cf,
    ),
    λ (f, (i, ci, l), cf). (
      f,
      (
        i,
        ci,
        Leads-mono this.delta allocated.delta (λ q a r t. has-allocated q a r ∙ t) word i f l,
      ),
      cf,
    ),
  )

  self-IsNfa : IsNfa (concatenate_self this)
  unfolding concatenate_self
  self-IsNfa = concatenate-IsNfa this allocated h allocated-IsNfa

  Accepts-self :
      (word : List ℕ)
      → Accepts (concatenate_self this) word ↔ Cat (Accepts this) (Accepts this) word
  unfolding concatenate_self
  Accepts-self word =
      let (f, g) = Accepts-concatenate this allocated h allocated-IsNfa word in
      (
        λ x. let (u, v, e, y, z) = f x in (u, v, e, y, (Accepts-allocated v).0 z),
        λ (u, v, e, y, z). g (u, v, e, y, (Accepts-allocated v).1 z),
      )

-- The automaton for the empty word.
empty_string-IsNfa : IsNfa create_empty_string_nfa
unfolding create_empty_string_nfa
empty_string-IsNfa =
    let c = insert-IsConsistent IsConsistent-empty 0 in
    record {
      delta_lem = record { posts = post };
      initial_lem = c;
      final_lem = c;
      targets_lt = λ q a r t. elim (missing q a r t) [ ];
    }
  where
    post : (q : ℕ) → IsPost (get_or ([] ∷ []) q [])
    post zero = IsPost-empty
    post (suc q) = IsPost-empty

    missing : (q a r : ℕ) → has ([] ∷ []) q a r ≡ true → ⊥
    missing zero a r t = cc
    missing (suc q) a r t = cc

Accepts-empty_string : (word : List ℕ) → Accepts create_empty_string_nfa word ↔ (word ≡ [])
unfolding create_empty_string_nfa
Accepts-empty_string [] = (λ x. refl, λ e. (0, (0, there, refl), there))
  where
    there : contains (SparseSet.insert 0 empty_set) 0 ≡ true
    there = ground (arith, contains-insert IsConsistent-empty 0 0)
Accepts-empty_string (a ∷ word) =
    (λ (f, (i, ci, (r, t, l)), cf). elim (missing i r t) [ ], λ e. cc e)
  where
    missing : (q r : ℕ) → has ([] ∷ []) q a r ≡ true → ⊥
    missing zero r t = cc
    missing (suc q) r t = cc

-- One round of the loop: the lowest bit of `power` and the square of the base.
module _ (base result : Nfa) (h : IsNfa base) (k : IsNfa result) where
  bit : Bool → ℕ
  bit b = if b then 1 else 0

  record Round (b : Bool) (result' : Nfa) : Type 0 where
    result-IsNfa : IsNfa result'
    result_lem :
        (w : List ℕ)
        → Accepts result' w ↔ Cat (Accepts result) (Power (Accepts base) (if b then 1 else 0)) w

  Round-result : (b : Bool) → Round b (if b then concatenate result base else result)
  Round-result false = record {
    result-IsNfa = k;
    result_lem = λ w. (empty-Cat (Accepts result) w, Cat-empty (Accepts result) w);
  }
  Round-result true = record {
    result-IsNfa = concatenate-IsNfa result base k h;
    result_lem = λ w.
        let (f, g) = Accepts-concatenate result base k h w in
        (
          λ x. Cat_mono {L = Accepts result} (λ u y. y) (empty-Cat (Accepts base)) w (f x),
          λ x. g (Cat_mono {L = Accepts result} (λ u y. y) (Cat-empty (Accepts base)) w x),
        );
  }

  record Squared (m : ℕ) (base' : Nfa) : Type 0 where
    base-IsNfa : IsNfa base'
    base_lem : (w : List ℕ) → Power (Accepts base') m w ↔ Power (Accepts base) (m + m) w

  Squared-base : (m : ℕ) → Squared m (if m == 0 then base else concatenate_self base)
  Squared-base m = elim (Bool-cases (m == 0)) [
    | inl last ↦
        rw ((==_iff m 0).0 last) (record { base-IsNfa = h; base_lem = λ w. (λ e. e, λ e. e) })
    | inr more ↦ rw more (record {
      base-IsNfa = self-IsNfa base h;
      base_lem = λ w. (
        λ p. double-Power (Accepts base) m w (Power_mono (λ u. (Accepts-self base h u).0) m w p),
        λ p. Power_mono (λ u. (Accepts-self base h u).1) m w (Power-double (Accepts base) m w p),
      );
    })
  ]

  -- The words of the next round's result and base are those of this round's.
  parts_iff :
      (b : Bool) (m : ℕ) (result' base' : Nfa)
      → Round b result'
      → Squared m base'
      → (w : List ℕ)
      → Cat (Accepts result') (Power (Accepts base') m) w
        ↔ Cat (Accepts result) (Power (Accepts base) ((if b then 1 else 0) + (m + m))) w
  parts_iff b m result' base' r s w =
      let L = Accepts base in
      let c : ℕ = if b then 1 else 0 in
      (
        λ x.
            Cat_mono {L = Accepts result} (λ u y. y) (add-Power L c (m + m)) w
              (Cat-assoc (Accepts result) (Power L c) (Power L (m + m)) w
                (Cat_mono (λ u. (r.result_lem u).0) (λ u. (s.base_lem u).0) w x)),
        λ x.
            Cat_mono (λ u. (r.result_lem u).1) (λ u. (s.base_lem u).1) w
              (assoc-Cat (Accepts result) (Power L c) (Power L (m + m)) w
                (Cat_mono {L = Accepts result} (λ u y. y) (Power-add L c (m + m)) w x)),
      )

power_loop_lem :
    (fuel power : ℕ) (base result : Nfa)
    → power < fuel
    → IsNfa base
    → IsNfa result
    → (product : Nfa) × (power_loop fuel power base result ≡ some product)
      × IsNfa product
      × ((w : List ℕ) → Accepts product w ↔ Cat (Accepts result) (Power (Accepts base) power) w)
unfolding power_loop
power_loop_lem zero power base result l h k = absurd (omega arith)
power_loop_lem (suc fuel) power base result l h k = elim (Bool-cases (power == 0)) [
  | inl done ↦
      rw ((==_iff power 0).0 done)
        (result, refl, k, λ w. (empty-Cat (Accepts result) w, Cat-empty (Accepts result) w))
  | inr more ↦
      let b = power % 2 == 1 in
      let m = power / 2 in
      let r = Round-result base result h k b in
      let s = Squared-base base result h k m in
      let (product, ends, kept, words) =
        power_loop_lem fuel m _ _ (ground arith) s.base-IsNfa r.result-IsNfa in
      let bits : (if b then 1 else 0) + (m + m) ≡ power = ground arith in
      rw more (
        product,
        ends,
        kept,
        λ w.
            let (f, g) = parts_iff base result h k b m _ _ r s w in
            (λ x. rw bits at (f ((words w).0 x)), λ x. (words w).1 (g (rw (← bits) at x))),
      )
]

module _ (nfa : Nfa) (h : IsNfa nfa) where
  -- For a well-formed automaton and every exponent, the loop of `concatenate_nth_power` comes to
  -- the exponent 0 within as many rounds as the exponent, and the automaton that is returned is
  -- well-formed and accepts exactly the words that are made of `power` words of the given one.
  pub Accepts-concatenate_nth_power :
      (power : ℕ)
      → (result : Nfa) × (concatenate_nth_power nfa power ≡ some result)
        × IsNfa result
        × ((w : List ℕ) → Accepts result w ↔ Power (Accepts nfa) power w)
  unfolding concatenate_nth_power
  Accepts-concatenate_nth_power power = elim (Bool-cases (power == 0)) [
    | inl none_left ↦
        rw ((==_iff power 0).0 none_left)
          (create_empty_string_nfa, refl, empty_string-IsNfa, λ w. Accepts-empty_string w)
    | inr some_left ↦
        let (product, ends, kept, words) =
          power_loop_lem (power + 1) power nfa create_empty_string_nfa (omega arith) h
            empty_string-IsNfa in
        rw some_left (
          product,
          ends,
          kept,
          λ w.
              let (f, g) = words w in
              (
                λ x. Cat-empty_first (Power (Accepts nfa) power) w (
                    Cat_mono {M = Power (Accepts nfa) power} (λ u. (Accepts-empty_string u).0)
                      (λ u y. y) w (f x)),
                λ p. g (
                    Cat_mono {M = Power (Accepts nfa) power} (λ u. (Accepts-empty_string u).1)
                      (λ u y. y) w (empty_first-Cat (Power (Accepts nfa) power) w p)),
              ),
        )
  ]
