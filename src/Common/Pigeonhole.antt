-- ===== src/Common/Pigeonhole.antt =====
-- The pigeonhole principle for functions on initial segments of the native numbers.
use Prim.Native.Nat.{ℕ, zero, suc, ◌≤◌, ◌<◌}
use mathlib.Core.Path.{◌≡◌}
use mathlib.Core.Logic.{◌≢◌}
use native.Mathlib.Omega.{arith}
use mata.Common.Tests.{◌==◌, if◌then◌else◌}

-- `f` is injective on the numbers below `n`.
abbrev pub InjectiveBelow : ℕ → (ℕ → ℕ) → Type 0
InjectiveBelow n f = (i j : ℕ) → i < n → j < n → f i ≡ f j → i ≡ j

-- `f` sends the numbers below `n` below `m`.
abbrev pub MapsBelow : ℕ → ℕ → (ℕ → ℕ) → Type 0
MapsBelow n m f = (i : ℕ) → i < n → f i < m

-- `f` with the value `v` at the places where it takes the value `m`.
redirect : ℕ → ℕ → (ℕ → ℕ) → ℕ → ℕ
redirect m v f i = if f i == m then v else f i

pub pigeonhole : (n m : ℕ) (f : ℕ → ℕ) → MapsBelow n m f → InjectiveBelow n f → n ≤ m
unfolding redirect
pigeonhole zero m f below inj = omega arith
pigeonhole (suc n) zero f below inj = absurd (omega (arith, below 0 (omega arith)))
pigeonhole (suc n) (suc m) f below inj = omega (
  arith,
  pigeonhole n m (redirect m (f n) f) (λ i h. ground (arith, below i, below n, inj i n))
      (λ i j hi hj e. ground (arith, inj i j, inj i n, inj j n)),
)

-- With a value below `m` that is never taken, there is one place left.
pub pigeonhole_missing :
    (n m : ℕ) (f : ℕ → ℕ) (v : ℕ)
    → MapsBelow n m f
    → InjectiveBelow n f
    → v < m
    → ((i : ℕ) → i < n → f i ≢ v)
    → n < m
pigeonhole_missing n m f v below inj h missing =
    pigeonhole (suc n) m (λ i. if i == n then v else f i) (λ i hi. ground (arith, below i))
      (λ i j hi hj e. ground (arith, inj i j, missing i, missing j))
