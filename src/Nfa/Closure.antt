-- ===== src/Nfa/Closure.antt =====
-- src/nfa/nfa.cc: `Nfa::post` with `EpsilonClosureOpt::BeforeAndAfter`.
use mata.Common.{ℕ, ◌≡◌, refl, ◌↔◌, true, false, List, ◌==◌}
use mata.OrdVector.{ℕ_ranked, IsSorted, member}
use mata.Nfa.{Nfa, epsilon, post, closure_none, closure_before_and_after}
use mata.Nfa.Language.{IsNfa}
use mata.Nfa.Read.{Step, post_correct}
pub mod Epsilons
pub mod Read

post_before_and_after :
    (n : Nfa) (states : List ℕ) (symbol : ℕ)
    → (symbol == epsilon) ≡ false
    → post n states symbol closure_before_and_after ≡ post n states symbol closure_none
unfolding post
post_before_and_after n states symbol e = rw e refl

-- For a well-formed automaton and a symbol other than `EPSILON`, `post` with the option
-- `BeforeAndAfter` returns a sorted set of exactly the targets of the transitions under the symbol
-- from the given states: no epsilon closure is made, neither before nor after.
pub post_before_and_after_correct :
    (n : Nfa) (states : List ℕ) (symbol : ℕ)
    → IsNfa n
    → (symbol == epsilon) ≡ false
    → IsSorted (post n states symbol closure_before_and_after)
      × ((r : ℕ)
          → (member r (post n states symbol closure_before_and_after) ≡ true)
            ↔ Step n.delta symbol states r)
post_before_and_after_correct n states symbol h e =
    rw (post_before_and_after n states symbol e) (post_correct n h states symbol)
