-- ===== src/Prelude/Scores.antt =====
-- What the code does with a score besides computing it: `<` and `==` on floats that are not NaN.
use Prim.Native.Nat.{ℕ}
use mathlib.Core.Path.{◌≡◌}
use mathlib.Core.Bool.{Bool, true, false}
use native.Mathlib.Omega.{arith}
use conversational_memory_sy.Prelude.Tests.{ltb, ◌==◌}

-- A strict weak order whose incomparable values are the equal ones.
pub record Scores (W : Type 0) : Type 0 where
  pub lt : W → W → Bool
  pub eq : W → W → Bool
  pub lt_asymm : (a b : W) → lt a b ≡ true → lt b a ≡ false
  pub ge_trans : (a b c : W) → lt a b ≡ false → lt b c ≡ false → lt a c ≡ false
  pub eq→ge : (a b : W) → eq a b ≡ true → (lt a b ≡ false) × (lt b a ≡ false)
  pub ge→eq : (a b : W) → lt a b ≡ false → lt b a ≡ false → eq a b ≡ true

pub ltb_asymm : (a b : ℕ) → ltb a b ≡ true → ltb b a ≡ false
ltb_asymm a b h = ground arith

pub ltb_ge_trans : (a b c : ℕ) → ltb a b ≡ false → ltb b c ≡ false → ltb a c ≡ false
ltb_ge_trans a b c h k = ground arith

pub ==→ge : (a b : ℕ) → (a == b) ≡ true → (ltb a b ≡ false) × (ltb b a ≡ false)
==→ge a b h = ground arith

pub ge→== : (a b : ℕ) → ltb a b ≡ false → ltb b a ≡ false → (a == b) ≡ true
ge→== a b h k = ground arith

-- The laws can be met: by natural numbers.
abbrev pub number_scores : Scores ℕ
number_scores = record {
  lt = ltb;
  eq = ◌==◌;
  lt_asymm = ltb_asymm;
  ge_trans = ltb_ge_trans;
  eq→ge = ==→ge;
  ge→eq = ge→==;
}
