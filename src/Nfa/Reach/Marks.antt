-- ===== src/Nfa/Reach/Marks.antt =====
-- src/nfa/nfa.cc: what one round of the worklist of `reachable_states` marks.
use mata.Common.{
  ℕ, zero, suc, ◌+◌, ◌<◌, ◌≡◌, refl, sym, ap, ◌∙◌, ◌⊎◌, ◌↔◌, inl, inr, Bool, true, false, not, ◌&&◌,
  ◌||◌, List, [], ◌∷◌, Option, arith, ◌==◌, ==_iff, ==_refl, if◌then◌else◌, Bool-cases, length, set,
  length-set, get_or-set,
}
use mata.OrdVector.{ℕ_ranked, member}
use mata.Delta.{StatePost}
use mata.Worklist.{Marks, Marks-none, Marks-ext, Marks-trans}
use mata.Nfa.Reach.{marked, considers, push, push_targets, push_moves}

abbrev pub ReachState : Type 0
ReachState = List ℕ × List Bool

abbrev pub unmarked : List Bool → ℕ
unmarked [] = 0
unmarked (b ∷ bs) = (if b then 0 else 1) + unmarked bs

-- A mark on an unmarked state of the array.
pub unmarked-set :
    (bs : List Bool) (q : ℕ)
    → q < length bs
    → marked bs q ≡ false
    → suc (unmarked (set bs q true)) ≡ unmarked bs
unmarked-set [] q l e = absurd (omega arith)
unmarked-set (b ∷ bs) zero l e = ground arith
unmarked-set (b ∷ bs) (suc q) l e = omega (arith, unmarked-set bs q (omega arith) e)

pub marked-set :
    (bs : List Bool) (q j : ℕ) → q < length bs → marked (set bs q true) j ≡ (q == j || marked bs j)
marked-set bs q j l = ground (arith, get_or-set bs q j true false l)

-- Some move of the post leads to `q`.
abbrev pub moves_to : StatePost → ℕ → Bool
moves_to [] q = false
moves_to (p ∷ ps) q = member q p.targets || moves_to ps q

-- The marks of a search over `size` states.
module _ (size : ℕ) (consider : Option (List Bool)) where
  abbrev pub ReachMarks : (ℕ → Type 0) → ReachState → ReachState → Type 0
  ReachMarks =
      Marks (λ (st : ReachState). st.0) (λ (st : ReachState). marked st.1)
        (λ (st : ReachState). unmarked st.1) (λ (st : ReachState). length st.1 ≡ size)

  module _ (t : ℕ) (st : ReachState) (room : length st.1 ≡ size) (inside : t < size) where
    -- A considered state that is not yet marked is marked and pushed.
    Marks-push :
        marked st.1 t ≡ false
        → considers consider t ≡ true
        → ReachMarks (λ q. (t ≡ q) × (considers consider q ≡ true)) st (push t st)
    Marks-push new c =
        let within : t < length st.1 = omega arith in
        record {
          good = length-set st.1 t true ∙ room;
          rounds = omega (arith, unmarked-set st.1 t within new);
          keeps = λ q m. ground (arith, marked-set st.1 t q within);
          sound = λ q m. elim (Bool-cases (t == q)) [
            | inl here ↦
                let same = (==_iff t q).0 here in inr (same, ap (considers consider) (sym same) ∙ c)
            | inr there ↦ inl (ground (arith, marked-set st.1 t q within))
          ];
          complete = λ q e. ground (arith, marked-set st.1 t q within);
          stays_in = λ q m. ground arith;
          work_marked = λ q m. elim (Bool-cases (t == q)) [
            | inl here ↦ inr (ground (arith, marked-set st.1 t q within))
            | inr there ↦ inl (ground arith)
          ];
          pushed = λ q m. elim (Bool-cases (t == q)) [
            | inl here ↦ inr (ground arith)
            | inr there ↦ inl (ground (arith, marked-set st.1 t q within))
          ];
        }

    -- Any other state is passed over.
    Marks-skip :
        not (marked st.1 t) && considers consider t ≡ false
        → ReachMarks (λ q. (t ≡ q) × (considers consider q ≡ true)) st st
    Marks-skip skip = record {
      good = room;
      rounds = refl;
      keeps = λ q m. m;
      sound = λ q m. inl m;
      complete = λ q (same, c).
          let mark = ap (marked st.1) same in
          let cons = ap (considers consider) same in ground arith;
      stays_in = λ q m. m;
      work_marked = λ q m. inl m;
      pushed = λ q m. inl m;
    }

  pub push_targets-Marks :
      (targets : List ℕ) (st : ReachState)
      → length st.1 ≡ size
      → ((t : ℕ) → member t targets ≡ true → t < size)
      → ReachMarks
          (λ q. (member q targets ≡ true) × (considers consider q ≡ true))
          st
          (push_targets consider targets st)
  unfolding push_targets
  push_targets-Marks [] st room inside =
      Marks-ext _ _ _ _ (λ q. (λ t. elim t [ ], λ (m, c). cc m)) (Marks-none _ _ _ _ st room)
  push_targets-Marks (t ∷ ts) st room inside =
      let low : t < size = inside t (ground (arith, ==_refl t)) in
      let later : (j : ℕ) → member j ts ≡ true → j < size = λ j m. inside j (ground arith) in
      elim (Bool-cases (not (marked st.1 t) && considers consider t)) [
        | inl new ↦
            let first = Marks-push t st room low (ground arith) (ground arith) in
            rw new (
              Marks-ext _ _ _ _ (first_or_later t ts)
                (Marks-trans _ _ _ _ first (push_targets-Marks ts (push t st) first.good later)))
        | inr old ↦ rw old (
            Marks-ext _ _ _ _ (first_or_later t ts) (
              Marks-trans _ _ _ _ (Marks-skip t st room low old)
                (push_targets-Marks ts st room later)))
      ]
    where
      first_or_later :
          (t : ℕ) (ts : List ℕ) (q : ℕ)
          → ((t ≡ q) × (considers consider q ≡ true)
              ⊎ (member q ts ≡ true) × (considers consider q ≡ true))
            ↔ (member q (t ∷ ts) ≡ true) × (considers consider q ≡ true)
      first_or_later t ts q = (
        λ o. elim o [ inl (e, c) ↦ (ground arith, c) | inr (m, c) ↦ (ground arith, c) ],
        λ (m, c). elim (Bool-cases (t == q)) [
          | inl here ↦ inl ((==_iff t q).0 here, c)
          | inr there ↦ inr (ground arith, c)
        ],
      )

  pub push_moves-Marks :
      (post : StatePost) (st : ReachState)
      → length st.1 ≡ size
      → ((t : ℕ) → moves_to post t ≡ true → t < size)
      → ReachMarks
          (λ q. (moves_to post q ≡ true) × (considers consider q ≡ true))
          st
          (push_moves consider post st)
  unfolding push_moves
  push_moves-Marks [] st room inside =
      Marks-ext _ _ _ _ (λ q. (λ t. elim t [ ], λ (m, c). cc m)) (Marks-none _ _ _ _ st room)
  push_moves-Marks (p ∷ ps) st room inside =
      let first = push_targets-Marks p.targets st room (λ t m. inside t (ground arith)) in
      Marks-ext _ _ _ _
        (λ q. (
          λ o. elim o [ inl (m, c) ↦ (ground arith, c) | inr (m, c) ↦ (ground arith, c) ],
          λ (m, c). elim (Bool-cases (member q p.targets)) [
            | inl here ↦ inl (here, c)
            | inr there ↦ inr (ground arith, c)
          ],
        ))
        (Marks-trans _ _ _ _ first (
          push_moves-Marks ps (push_targets consider p.targets st) first.good
            (λ t m. inside t (ground arith))))
