-- ===== src/Prelude/Ints.antt =====
-- Signed machine integers that do not leave their range: `i64` of seconds, `i32` of priorities.
use Prim.Native.Nat.{ℕ, ◌-◌, ◌^◌}
use mathlib.Core.Path.{◌≡◌}
use mathlib.Core.Bool.{Bool, true, false}
use native.Mathlib.Omega.{arith}
use xfiles.Prelude.Tests.{ltb, nat_beq, if◌then◌else◌}

-- `negsuc n` is -(n + 1).
pub data ℤ : Type 0 where
  pos : ℕ → ℤ
  negsuc : ℕ → ℤ

-- -n
abbrev pub neg : ℕ → ℤ
neg n = if ltb 0 n then negsuc (n - 1) else pos 0

abbrev pub ltb_ℤ : ℤ → ℤ → Bool
ltb_ℤ (pos a) (pos b) = ltb a b
ltb_ℤ (pos a) (negsuc b) = false
ltb_ℤ (negsuc a) (pos b) = true
ltb_ℤ (negsuc a) (negsuc b) = ltb b a

abbrev pub beq_ℤ : ℤ → ℤ → Bool
beq_ℤ (pos a) (pos b) = nat_beq a b
beq_ℤ (pos a) (negsuc b) = false
beq_ℤ (negsuc a) (pos b) = false
beq_ℤ (negsuc a) (negsuc b) = nat_beq a b

-- `a ≥ b` and `b ≥ c` give `a ≥ c`.
pub ltb_ℤ-trans : (a b c : ℤ) → ltb_ℤ a b ≡ false → ltb_ℤ b c ≡ false → ltb_ℤ a c ≡ false
ltb_ℤ-trans (pos a) b c h k = ground arith
ltb_ℤ-trans (negsuc a) b c h k = ground arith

pub ltb_ℤ-asymm : (a b : ℤ) → ltb_ℤ a b ≡ true → ltb_ℤ b a ≡ false
ltb_ℤ-asymm (pos a) b h = ground arith
ltb_ℤ-asymm (negsuc a) b h = ground arith

pub beq_ℤ-ltb_ℤ : (a b : ℤ) → beq_ℤ a b ≡ true → ltb_ℤ a b ≡ false
beq_ℤ-ltb_ℤ (pos a) b h = ground arith
beq_ℤ-ltb_ℤ (negsuc a) b h = ground arith

pub ltb_ℤ_of_beq_ℤ : (a b k : ℤ) → beq_ℤ a k ≡ true → beq_ℤ b k ≡ true → ltb_ℤ a b ≡ false
ltb_ℤ_of_beq_ℤ (pos a) b (pos k) h l = ground arith
ltb_ℤ_of_beq_ℤ (negsuc a) b (negsuc k) h l = ground arith
ltb_ℤ_of_beq_ℤ (pos a) b (negsuc k) h l = cc
ltb_ℤ_of_beq_ℤ (negsuc a) b (pos k) h l = cc

pub ltb_ℤ-irrefl : (a : ℤ) → ltb_ℤ a a ≡ false
ltb_ℤ-irrefl (pos a) = ground arith
ltb_ℤ-irrefl (negsuc a) = ground arith

-- `as i64` of a `u64`: two's complement.
abbrev pub as_i64 : ℕ → ℤ
as_i64 n = if ltb n (2 ^ 63) then pos n else negsuc (2 ^ 64 - n - 1)
