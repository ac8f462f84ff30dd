-- ===== src/Tests/Floats.antt =====
-- Stand-ins for floating-point and random numbers.
use xfiles.Prelude.{
  ℕ, ◌+◌, ◌-◌, ◌*◌, ◌/◌, ◌<◌, ◌≡◌, Option, none, some, List, [], ◌∷◌, arith, length, ltb,
  if◌then◌else◌,
}
use xfiles.Floats.{Floats, Random}

-- Numbers counted in thousandths, with coarse functions.
abbrev pub thousandths : Floats
thousandths = record {
  F64 = ℕ;
  dec = λ m k. if ltb 0 k then m * 100 else m * 1000;
  of_nat = λ n. n * 1000;
  pi = 3141;
  add = λ a b. a + b;
  sub = λ a b. a - b;
  mul = λ a b. a * b / 1000;
  div = λ a b. a * 1000 / b;
  sqrt = λ a. a;
  sin = λ a. 0;
  cos = λ a. 1000;
  atan2 = λ a b. 0;
  clamp = λ a l h. a;
  min = λ a b. if ltb a b then a else b;
  lt = ltb;
}

abbrev pub weigh_all : List ℕ → Option ℕ
weigh_all [] = none
weigh_all (w ∷ ws) = some 0

pub weigh_all_lt : (ws : List ℕ) (d g : ℕ) → weigh_all ws ≡ some d → 0 < length ws
weigh_all_lt [] d g h = absurd (ground arith)
weigh_all_lt (w ∷ ws) d g h = omega arith

-- The first of everything.
abbrev pub steady : Random thousandths
steady = record {
  Rng = ℕ;
  Dist = ℕ;
  gen = λ g. (500, g);
  choose = λ g n. (0, g);
  weighted_index = weigh_all;
  sample = λ d g. (0, g);
  choose_lt = λ g n h. h;
  sample_lt = weigh_all_lt;
}
