-- ===== src/Tests/Relations.antt =====
-- The theorems on the transition relation, at concrete inputs.
use mata.Common.{◌≡◌, false, ◌||◌}
use mata.Delta.{contains, add, remove}
use mata.Delta
use mata.OrdVector.{ℕ_ranked}
use mata.Delta.{SymbolPost_ranked, state_post}
use mata.Delta.Relation.{has}
use mata.Delta.Remove.{Removal}
use mata.Tests.{ping_pong, ping_pong-IsDelta}

contains-eq-has_example : contains ping_pong 0 97 1 ≡ has ping_pong 0 97 1
contains-eq-has_example = Delta.Relation.contains-eq-has ping_pong 0 97 1 ping_pong-IsDelta

has-add_example : has (add 1 97 1 ping_pong) 1 98 0 ≡ (false || has ping_pong 1 98 0)
has-add_example = Delta.Relation.has-add ping_pong 1 97 1 1 98 0 ping_pong-IsDelta

remove-Removal_example : Removal ping_pong 1 98 0 (remove 1 98 0 ping_pong)
remove-Removal_example = Delta.Remove.remove-Removal ping_pong 1 98 0 ping_pong-IsDelta
