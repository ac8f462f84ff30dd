-- ===== src/Floats.antt =====
-- `f64` and the `rand` crate, which are not part of the repository: interfaces.
use xfiles.Prelude.{ℕ, ◌<◌, ◌≡◌, Bool, Option, some, List, length}

-- The operations on floating-point numbers that the routing uses; nothing is assumed of them. `dec m k`
-- is the literal m / 10^k, `of_nat` is `as f64`.
pub record Floats : Type 1 where
  pub F64 : Type 0
  pub dec : ℕ → ℕ → F64
  pub of_nat : ℕ → F64
  pub pi : F64
  pub add : F64 → F64 → F64
  pub sub : F64 → F64 → F64
  pub mul : F64 → F64 → F64
  pub div : F64 → F64 → F64
  pub sqrt : F64 → F64
  pub sin : F64 → F64
  pub cos : F64 → F64
  pub atan2 : F64 → F64 → F64
  pub clamp : F64 → F64 → F64 → F64
  pub min : F64 → F64 → F64
  pub lt : F64 → F64 → Bool

-- The random choices. `gen` gives a number between 0 and 1. `choose n` gives the index of `choose` on a
-- slice of `n` elements, and `sample` an index into the weights that `WeightedIndex::new` took.
pub record Random (fl : Floats) : Type 1 where
  pub Rng : Type 0
  pub Dist : Type 0
  pub gen : Rng → fl.F64 × Rng
  pub choose : Rng → ℕ → ℕ × Rng
  pub weighted_index : List fl.F64 → Option Dist
  pub sample : Dist → Rng → ℕ × Rng
  pub choose_lt : (g : Rng) (n : ℕ) → 0 < n → (choose g n).0 < n
  pub sample_lt :
      (ws : List fl.F64) (d : Dist) (g : Rng)
      → weighted_index ws ≡ some d
      → (sample d g).0 < length ws
