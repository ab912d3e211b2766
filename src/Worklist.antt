-- ===== src/Worklist.antt =====
-- The scheme that the searches over states share: a worklist and marks on the states that have
-- entered it (`reachable_states` and `mk_epsilon_closure` in src/nfa/nfa.cc).
use mata.Common.{
  ℕ, ◌+◌, ◌≡◌, refl, sym, subst, ◌∙◌, ◌⊎◌, ◌↔◌, inl, inr, Bool, true, false, List, [], ◌∷◌, arith,
  ◌==◌, ==_iff, ==_refl, Bool-cases, length,
}
use mata.OrdVector.{ℕ_ranked, member}

-- The states that edges lead to from the start.
pub data Reached (Start : ℕ → Type 0) (Edge : ℕ → ℕ → Type 0) : ℕ → Type 0 where
  start : {q : ℕ} → Start q → Reached Start Edge q
  step : {q r : ℕ} → Reached Start Edge q → Edge q r → Reached Start Edge r

-- A search state holds a worklist, marks, and a number of states that are left to be marked.
module _ {S : Type 0} (work : S → List ℕ) (marks : S → ℕ → Bool) (left : S → ℕ)
    (Good : S → Type 0) where
  -- From `st` to `st'` the states of `Target` have been marked, and the new ones among them pushed.
  pub record Marks (Target : ℕ → Type 0) (st st' : S) : Type 0 where
    pub good : Good st'
    pub rounds : length (work st') + left st' ≡ length (work st) + left st
    pub keeps : (q : ℕ) → marks st q ≡ true → marks st' q ≡ true
    pub sound : (q : ℕ) → marks st' q ≡ true → (marks st q ≡ true) ⊎ Target q
    pub complete : (q : ℕ) → Target q → marks st' q ≡ true
    pub stays_in : (q : ℕ) → member q (work st) ≡ true → member q (work st') ≡ true
    pub work_marked :
        (q : ℕ) → member q (work st') ≡ true → (member q (work st) ≡ true) ⊎ (marks st' q ≡ true)
    pub pushed : (q : ℕ) → marks st' q ≡ true → (marks st q ≡ true) ⊎ (member q (work st') ≡ true)

  pub Marks-none : (st : S) → Good st → Marks (λ q. ⊥) st st
  Marks-none st g = record {
    good = g;
    rounds = refl;
    keeps = λ q m. m;
    sound = λ q m. inl m;
    complete = λ q t. elim t [ ];
    stays_in = λ q m. m;
    work_marked = λ q m. inl m;
    pushed = λ q m. inl m;
  }

  pub Marks-ext :
      {T U : ℕ → Type 0} {st st' : S} → ((q : ℕ) → T q ↔ U q) → Marks T st st' → Marks U st st'
  Marks-ext h m = record {
    good = m.good;
    rounds = m.rounds;
    keeps = m.keeps;
    sound = λ q e. elim (m.sound q e) [ inl old ↦ inl old | inr t ↦ inr ((h q).0 t) ];
    complete = λ q u. m.complete q ((h q).1 u);
    stays_in = m.stays_in;
    work_marked = m.work_marked;
    pushed = m.pushed;
  }

  pub Marks-trans :
      {T U : ℕ → Type 0} {st mid st' : S}
      → Marks T st mid
      → Marks U mid st'
      → Marks (λ q. T q ⊎ U q) st st'
  Marks-trans f g = record {
    good = g.good;
    rounds = g.rounds ∙ f.rounds;
    keeps = λ q m. g.keeps q (f.keeps q m);
    sound = λ q m. elim (g.sound q m) [
      | inl early ↦ elim (f.sound q early) [ inl old ↦ inl old | inr t ↦ inr (inl t) ]
      | inr u ↦ inr (inr u)
    ];
    complete = λ q o. elim o [ inl t ↦ g.keeps q (f.complete q t) | inr u ↦ g.complete q u ];
    stays_in = λ q m. g.stays_in q (f.stays_in q m);
    work_marked = λ q m. elim (g.work_marked q m) [
      | inl early ↦ elim (f.work_marked q early) [
        | inl old ↦ inl old
        | inr new ↦ inr (g.keeps q new)
      ]
      | inr new ↦ inr new
    ];
    pushed = λ q m. elim (g.pushed q m) [
      | inl early ↦ elim (f.pushed q early) [ inl old ↦ inl old | inr new ↦ inr (g.stays_in q new) ]
      | inr new ↦ inr new
    ];
  }

  module _ (Start : ℕ → Type 0) (Edge : ℕ → ℕ → Type 0) where
    -- What holds whenever a search takes a state from the worklist.
    pub record Searching (st : S) : Type 0 where
      pub good : Good st
      pub reached : (q : ℕ) → marks st q ≡ true → Reached Start Edge q
      pub work_marked : (q : ℕ) → member q (work st) ≡ true → marks st q ≡ true
      pub starts : (q : ℕ) → Start q → marks st q ≡ true
      pub closed :
          (q : ℕ)
          → marks st q ≡ true
          → (member q (work st) ≡ true) ⊎ ((r : ℕ) → Edge q r → marks st r ≡ true)

    -- One round: the state `state` is taken from the worklist of `st`, which leaves `mid`, and what
    -- its edges lead to is marked.
    pub Searching-step :
        (state : ℕ) (st mid st' : S)
        → work st ≡ state ∷ work mid
        → ((q : ℕ) → marks mid q ≡ marks st q)
        → Marks (Edge state) mid st'
        → Searching st
        → Searching st'
    Searching-step state st mid st' taken same k g = record {
      good = k.good;
      reached = λ q m. elim (k.sound q m) [
        | inl old ↦ g.reached q (sym (same q) ∙ old)
        | inr e ↦ step (g.reached state state_marked) e
      ];
      work_marked = λ q m. elim (k.work_marked q m) [
        | inl old ↦ k.keeps q (same q ∙ g.work_marked q (waiting q old))
        | inr new ↦ new
      ];
      starts = λ q s. k.keeps q (same q ∙ g.starts q s);
      closed = λ q m. elim (k.pushed q m) [
        | inr new ↦ inl new
        | inl old ↦ elim (Bool-cases (state == q)) [
          | inl here ↦
              inr (λ r e.
                k.complete r (subst (λ (x : ℕ). Edge x r) (sym ((==_iff state q).0 here)) e))
          | inr there ↦ elim (g.closed q (sym (same q) ∙ old)) [
            | inl waits ↦ inl (k.stays_in q (still q there waits))
            | inr done ↦ inr (λ r e. k.keeps r (same r ∙ done r e))
          ]
        ]
      ];
    }
      where
        state_marked : marks st state ≡ true
        state_marked = g.work_marked state (rw taken (ground (arith, ==_refl state)))

        waiting : (q : ℕ) → member q (work mid) ≡ true → member q (work st) ≡ true
        waiting q m = rw taken (ground arith)

        still :
            (q : ℕ) → state == q ≡ false → member q (work st) ≡ true → member q (work mid) ≡ true
        still q there m = let m' = rw taken at m in ground arith

    -- When the worklist is empty, exactly the reached states are marked.
    pub Searching-end :
        (st : S)
        → work st ≡ []
        → Searching st
        → (q : ℕ) → (marks st q ≡ true) ↔ Reached Start Edge q
    Searching-end st done g q = (g.reached q, λ r. all q r)
      where
        all : (q : ℕ) → Reached Start Edge q → marks st q ≡ true
        all q (start s) = g.starts q s
        all q (step {q = p} r e) = elim (g.closed p (all p r)) [
          | inl waits ↦ cc (rw done at waits)
          | inr all_marked ↦ all_marked q e
        ]
