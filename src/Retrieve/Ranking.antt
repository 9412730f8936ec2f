-- ===== src/Retrieve/Ranking.antt =====
-- retrieve/ranking.py: the weighted score and the ranking node. The debug log is not modelled.
pub mod Order
use conversational_memory_sy.Prelude.{
  ℕ, ◌≡◌, refl, Bool, true, false, ◌||◌, ◌&&◌, List, [], ◌∷◌, map, arith, ltb, if◌then◌else◌, take,
  Option, none, some, All,
}
use conversational_memory_sy.Prelude.Options.{◌>>=◌, sequence}
use conversational_memory_sy.Prelude.ByScore.{by_score}
use conversational_memory_sy.Prelude.Scores.{Scores}
use conversational_memory_sy.Prelude.Sorting.{sort}
use conversational_memory_sy.Context.Text.{Text}
use conversational_memory_sy.Retrieve.Features.{
  Floats, Tuning, Signals, AllFit, semantic_score, recency_score, activation_score, frequency_score,
  importance_score,
}
use conversational_memory_sy.Retrieve.Features.Unit.{Within, InUnit, signals-InUnit}

-- `RANKING_WEIGHTS`
pub record Weights (W : Type 0) : Type 0 where
  pub semantic : W
  pub recency : W
  pub activation : W
  pub frequency : W
  pub importance : W

-- `ScoreBreakdown`
pub record ScoreBreakdown (W : Type 0) : Type 0 where
  pub semantic : W
  pub recency : W
  pub activation : W
  pub frequency : W
  pub importance : W
  pub total : W

-- `RetrievalCandidate`, as the ranker and the composer read it: the id, the text, and what the
-- signals read.
pub record Candidate (W : Type 0) : Type 0 where
  pub memory_id : ℕ
  pub content : Text
  pub signals : Signals W

-- `RankedCandidate`
pub record RankedCandidate (W : Type 0) : Type 0 where
  pub candidate : Candidate W
  pub score : W
  pub breakdown : ScoreBreakdown W

module _ {W : Type 0} (floats : Floats W) (tuning : Tuning W) (weights : Weights W) where
  open floats use {lt, is_nan, is_inf, add, mul, zero_, one_}

  -- the five products, added from the left
  abbrev pub weigh : (semantic recency activation frequency importance : W) → W
  weigh s r a f i =
      add
        (add (add (add (mul weights.semantic s) (mul weights.recency r)) (mul weights.activation a))
          (mul weights.frequency f))
        (mul weights.importance i)

  abbrev pub breakdown_of :
      (semantic recency activation frequency importance : W) → ScoreBreakdown W
  breakdown_of semantic recency activation frequency importance = record {
    semantic = semantic;
    recency = recency;
    activation = activation;
    frequency = frequency;
    importance = importance;
    total = weigh semantic recency activation frequency importance;
  }

  -- `score_breakdown`; `none` is an OverflowError of one of the signals
  unfoldable pub score_breakdown : Signals W → (now : ℕ) → Option (ScoreBreakdown W)
  score_breakdown c now = do
    semantic ← semantic_score floats c
    let recency = recency_score floats tuning c now
    let activation = activation_score floats tuning c now
    frequency ← frequency_score floats tuning c
    importance ← importance_score floats tuning c
    some (breakdown_of semantic recency activation frequency importance)

  pub breakdown-Returns :
      (c : Signals W) (now : ℕ)
      → AllFit c
      → (b : ScoreBreakdown W) × (score_breakdown c now ≡ some b)
  unfolding score_breakdown
  breakdown-Returns c now fit =
      let ((s, es, hs), hr, ha, (f, ef, hf), (i, ei, hi)) =
        signals-InUnit floats tuning c now fit in
      (
        breakdown_of s (recency_score floats tuning c now) (activation_score floats tuning c now) f
            i,
        rw (es, ef, ei) refl,
      )

  -- `score_candidate`
  unfoldable pub score_candidate : Signals W → (now : ℕ) → Option W
  unfolding score_breakdown
  score_candidate c now = do breakdown ← score_breakdown c now; some breakdown.total

  -- the body of the loop of `rank`
  abbrev pub ranked : (now : ℕ) → Candidate W → Option (RankedCandidate W)
  ranked now c = do
    breakdown ← score_breakdown c.signals now
    some (record { candidate = c; score = breakdown.total; breakdown = breakdown })

  -- `_sort_key`, compared as Python compares the pairs; `round12` is `round(score, 12)`, with
  -- its values in a type of floats without NaN
  module _ {K : Type 0} (scores : Scores K) (round12 : W → K) where
    unfoldable pub before : RankedCandidate W → RankedCandidate W → Bool
    before = by_score scores (λ a. round12 a.score) (λ a. a.candidate.memory_id)

    -- `rank`, with the clock read once and `top_k` resolved and cut off at 0
    unfoldable pub rank : List (Candidate W) → (top_k now : ℕ) → Option (List (RankedCandidate W))
    rank candidates top_k now = do
      all ← sequence (map (ranked now) candidates)
      some (take top_k (sort before all))

  -- What IEEE arithmetic gives of numbers that are not negative: a product with a factor up to 1 is
  -- at most the weight, a sum is at most that of the bounds.
  pub record IsMonotone : Type 0 where
    pub mul_within :
        (w x : W)
        → lt w zero_ ≡ false
        → is_nan w ≡ false
        → is_inf w ≡ false
        → Within floats one_ x
        → Within floats w (mul w x)
    pub add_within :
        (u v x y : W) → Within floats u x → Within floats v y → Within floats (add u v) (add x y)
    pub ge_trans : (a b c : W) → is_nan b ≡ false → lt a b ≡ false → lt b c ≡ false → lt a c ≡ false

  abbrev IsWeight : W → Type 0
  IsWeight w = (lt w zero_ ≡ false) × (is_nan w ≡ false) × (is_inf w ≡ false)

  -- The weights are finite and not negative, and add up, from the left, to at most 1.
  pub record AreWeights : Type 0 where
    pub semantic : IsWeight weights.semantic
    pub recency : IsWeight weights.recency
    pub activation : IsWeight weights.activation
    pub frequency : IsWeight weights.frequency
    pub importance : IsWeight weights.importance
    pub sum : InUnit floats (
        add
          (add (add (add weights.semantic weights.recency) weights.activation) weights.frequency)
          weights.importance)
