-- ===== src/Delta/Defragment/Compact.antt =====
-- src/nfa/nfa.cc: the renaming that `trim` makes is the compact one, which counts the states that
-- stay below a state.
use mata.Common.{
  ℕ, zero, suc, ◌+◌, ◌<◌, ◌≡◌, refl, Bool, true, false, List, [], ◌∷◌, arith, if◌then◌else◌,
}
use mata.Delta.Defragment.{stays, renamed, make_renaming}

-- How many states below `q` stay.
abbrev pub count_below : List Bool → ℕ → ℕ
count_below [] q = 0
count_below (b ∷ bs) zero = 0
count_below (b ∷ bs) (suc q) = (if b then 1 else 0) + count_below bs q

renamed-make_renaming_from :
    (n : ℕ) (bs : List Bool) (q : ℕ)
    → stays bs q ≡ true
    → renamed (make_renaming n bs) q ≡ n + count_below bs q
unfolding make_renaming
renamed-make_renaming_from n [] q s = cc s
renamed-make_renaming_from n (true ∷ bs) zero s = omega arith
renamed-make_renaming_from n (false ∷ bs) zero s = cc s
renamed-make_renaming_from n (true ∷ bs) (suc q) s =
    omega (arith, renamed-make_renaming_from (suc n) bs q s)
renamed-make_renaming_from n (false ∷ bs) (suc q) s =
    omega (arith, renamed-make_renaming_from n bs q s)

pub renamed-make_renaming :
    (bs : List Bool) (q : ℕ) → stays bs q ≡ true → renamed (make_renaming 0 bs) q ≡ count_below bs q
renamed-make_renaming bs q s = omega (arith, renamed-make_renaming_from 0 bs q s)

pub count_below-lt :
    (bs : List Bool) (q r : ℕ) → q < r → stays bs q ≡ true → count_below bs q < count_below bs r
count_below-lt [] q r lt s = cc s
count_below-lt (true ∷ bs) zero (suc r) lt s = omega arith
count_below-lt (false ∷ bs) zero (suc r) lt s = cc s
count_below-lt (b ∷ bs) (suc q) (suc r) lt s = omega (arith, count_below-lt bs q r (omega arith) s)
count_below-lt (b ∷ bs) q zero lt s = absurd (omega arith)

pub count_below_injective :
    (bs : List Bool) (q r : ℕ)
    → stays bs q ≡ true
    → stays bs r ≡ true
    → count_below bs q ≡ count_below bs r
    → q ≡ r
count_below_injective bs q r s t e = ground (arith, count_below-lt bs q r, count_below-lt bs r q)

-- With all states below `q` staying, the name of `q` stays.
pub count_below_all :
    (bs : List Bool) (q : ℕ) → ((k : ℕ) → k < q → stays bs k ≡ true) → count_below bs q ≡ q
count_below_all [] zero h = refl
count_below_all [] (suc q) h = cc (h 0 (omega arith))
count_below_all (b ∷ bs) zero h = refl
count_below_all (b ∷ bs) (suc q) h =
    ground (arith, h 0 (omega arith), count_below_all bs q (λ k l. h (suc k) (omega arith)))
