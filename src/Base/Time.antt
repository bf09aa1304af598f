-- ===== src/Base/Time.antt =====
-- Instants and durations of the crate embassy-time, as numbers of ticks: a parameter, with the
-- behaviour that its documentation gives.
use Prim.Native.Nat.{ℕ, ◌+◌, ◌-◌, ◌^◌, ◌≤◌, ◌<◌}
use mathlib.Core.Path.{◌≡◌}
use powersupply.Base.Panics.{Outcome, returns, Returns, Ensures, Always}

pub record Time : Type 0 where
  -- `Duration::from_secs`, `Duration::from_millis`, `as_secs`
  pub from_secs : ℕ → ℕ
  pub from_millis : ℕ → ℕ
  pub as_secs : ℕ → ℕ
  -- `Instant + Duration`, which panics when a u64 cannot hold the sum
  pub add : ℕ → ℕ → Outcome ℕ
  -- `since.elapsed()`, given what the clock reads and `since`; it panics when `since` is later
  pub elapsed : ℕ → ℕ → Outcome ℕ
  pub add_lem : (t d : ℕ) → Ensures (add t d) (λ u. u ≡ t + d)
  pub add-returns : (t d : ℕ) → t + d < 2 ^ 64 → Returns (add t d) Always
  pub elapsed_lem : (now since : ℕ) → since ≤ now → elapsed now since ≡ returns (now - since)
