-- ===== src/Prelude/ByScore.antt =====
-- The order of `sorted(..., key=lambda c: (-score, id))`: by score, the highest first, then by id.
use Prim.Native.Nat.{ℕ}
use mathlib.Core.Bool.{Bool, ◌&&◌, ◌||◌}
use native.Mathlib.Omega.{arith}
use conversational_memory_sy.Prelude.Tests.{ltb}
use conversational_memory_sy.Prelude.Scores.{Scores}
use conversational_memory_sy.Prelude.Sorting.{IsWeakOrder}

module _ {A K : Type 0} (scores : Scores K) (score : A → K) (id : A → ℕ) where
  abbrev pub by_score : A → A → Bool
  by_score a b =
      scores.lt (score b) (score a) || (scores.eq (score a) (score b) && ltb (id a) (id b))

  pub by_score-IsWeakOrder : IsWeakOrder by_score
  by_score-IsWeakOrder = record {
    asymm = λ a b h.
        let x = score a in
        let y = score b in
        ground (
          arith,
          scores.lt_asymm y x,
          scores.eq→ge x y,
          scores.ge→eq x y,
          scores.eq→ge y x,
          scores.lt_asymm x y,
        );
    ge_trans = λ a b c h k.
        let x = score a in
        let y = score b in
        let z = score c in
        ground (
          arith,
          scores.ge_trans z y x,
          scores.ge_trans x y z,
          scores.ge_trans x z y,
          scores.ge_trans y z x,
          scores.ge_trans y x z,
          scores.eq→ge x y,
          scores.eq→ge y z,
          scores.eq→ge x z,
          scores.ge→eq x y,
          scores.ge→eq y z,
          scores.ge→eq x z,
        );
  }
