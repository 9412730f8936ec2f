-- ===== src/Retrieve/Examples.antt =====
-- retrieve/guarded.py, retrieve/features.py, retrieve/ranking.py: runs on concrete values. Floats
-- are stood for by hundredths, rounded down.
use conversational_memory_sy.Prelude.{
  ℕ, suc, ◌+◌, ◌*◌, ◌/◌, ◌≡◌, refl, false, Option, none, some, List, [], ◌∷◌, arith, ltb, leb,
}
use conversational_memory_sy.Prelude.Perms.{Permᴰ}
use conversational_memory_sy.Prelude.Scores.{number_scores, ltb_asymm}
use conversational_memory_sy.Context.Text.{codes}
use conversational_memory_sy.Breaker.{opened, healthy, stored, decode}
use conversational_memory_sy.Breaker.Cells.{Cells, cells}
use conversational_memory_sy.Breaker.Replica.{answered}
use conversational_memory_sy.Retrieve.{semantic, keyword, HybridResult}
use conversational_memory_sy.Retrieve.Guarded.{
  Outcome, returned, timed_out, raised, cancelled, unavailable, open_circuit, total_failure,
  guarded_hybrid_search,
}
use conversational_memory_sy.Retrieve.Guarded.Outage.{
  GuardedCall, after_calls, guarded_call, guarded_outage,
}
use conversational_memory_sy.Retrieve.Features.{
  Floats, null, convertible, inconvertible, Tuning, Signals,
}
use conversational_memory_sy.Retrieve.Ranking.{Weights, Candidate, RankedCandidate, rank}
use conversational_memory_sy.Retrieve.Ranking.Order.{rank_order_free}

abbrev pub fresh : Cells
fresh = record { raw = none; lock = none }

abbrev call : ℕ → Outcome ℕ ℕ → GuardedCall ℕ ℕ
call at outcome = record {
  asked_at = at;
  token = 8;
  now = at + 1;
  later = at + 2;
  outcome = outcome;
}

-- every path that was attempted is down
abbrev all_down : HybridResult ℕ ℕ
all_down = record {
  candidates = [];
  degraded = (semantic, 0) ∷ (keyword, 0) ∷ [];
  path_counts = (semantic, 0) ∷ (keyword, 0) ∷ [];
}

abbrev failing : List (GuardedCall ℕ ℕ)
failing = call 5 (returned all_down) ∷ call 15 cancelled ∷ call 25 raised ∷ []

abbrev any_search : Unit {0} → Outcome ℕ ℕ
any_search _ = raised

guarded_outage_example :
    (stored cells (after_calls cells 3 50 20 fresh failing) ≡ record healthy { failures = 2 })
    × (stored cells
          (guarded_call cells 3 50 20
            (after_calls cells 3 50 20 fresh failing)
            (call 35 timed_out)).0
        ≡ record { state = opened; failures = 3; opened_at = 36 })
    × (guarded_hybrid_search cells 3 50 20 answered answered answered
          (guarded_call cells 3 50 20
            (after_calls cells 3 50 20 fresh failing)
            (call 35 timed_out)).0
          60
          9
          61
          62
          any_search
        ≡ (
          (guarded_call cells 3 50 20
              (after_calls cells 3 50 20 fresh failing)
              (call 35 timed_out)).0,
          unavailable open_circuit opened,
        ))
unfolding stored decode total_failure
guarded_outage_example =
    guarded_outage cells 3 50 20 fresh failing (call 35 timed_out) 60 9 61 62 any_search refl
      (refl, (refl, (refl, tt))) refl refl (omega arith)

pub ltb_irrefl : (a : ℕ) → ltb a a ≡ false
ltb_irrefl a = ground arith

abbrev pub hundredths : Floats ℕ
hundredths = record {
  zero_ = 0;
  one_ = 100;
  nan = 0;
  lt = ltb;
  le = leb;
  is_nan = λ x. false;
  is_inf = λ x. false;
  add = ◌+◌;
  mul = λ x y. x * y / 100;
  div = λ x y. x / 7;
  half_pow = λ x. 100 / (suc x);
  days = λ t. t / 864;
  lt_asymm = ltb_asymm;
  lt_irrefl = ltb_irrefl;
  zero-lt-one = refl;
  zero_number = refl;
  one_number = refl;
}

abbrev pub tuning : Tuning ℕ
tuning = record {
  recency_default = 50;
  activation_default = 50;
  recency_half_life = 3000;
  activation_half_life = 700;
  frequency_reference = 500;
  importance_default = 50;
}

abbrev pub weights : Weights ℕ
weights = record { semantic = 35; recency = 25; activation = 10; frequency = 10; importance = 20 }

-- a score above 1 and a count that is no number
abbrev odd : Signals ℕ
odd = record {
  score = convertible 180;
  path_scores = [];
  created_at = some 9000;
  last_accessed_at = none;
  reinforcement_count = inconvertible;
  importance = null;
}

abbrev pub item : ℕ → ℕ → Candidate ℕ
item id score = record {
  memory_id = id;
  content = codes "likes tea";
  signals = record odd { score = convertible score };
}

abbrev items : List (Candidate ℕ)
items = item 3 40 ∷ item 1 90 ∷ item 2 40 ∷ []

abbrev select : List (Candidate ℕ) → ℕ → ℕ → Option (List (RankedCandidate ℕ))
select = rank hundredths tuning weights number_scores (λ x. x)

rank_order_free_example :
    select (item 3 40 ∷ item 1 90 ∷ []) 1 99000 ≡ select (item 1 90 ∷ item 3 40 ∷ []) 1 99000
rank_order_free_example =
    rank_order_free hundredths tuning weights number_scores (λ x. x) (item 3 40 ∷ item 1 90 ∷ [])
      (item 1 90 ∷ item 3 40 ∷ []) 1 99000 (Permᴰ.swap refl refl)
      ((λ e. absurd (omega (arith, e)), tt), (tt, tt))
