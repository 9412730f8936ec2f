-- ===== src/Retrieve/Features.antt =====
-- retrieve/features.py and the constants of retrieve/config.py: the five ranking signals. Floats
-- are a parameter; a timestamp is what `_as_datetime` made of it, in microseconds UTC.
pub mod Unit
use conversational_memory_sy.Prelude.{
  ℕ, ◌-◌, ◌≡◌, Bool, true, false, not, ◌||◌, Option, none, some, List, [], ◌∷◌, leb, if◌then◌else◌,
  All,
}
use conversational_memory_sy.Prelude.Options.{◌>>=◌}

-- The operations of Python's floats that the scoring uses, and its constants. `half_pow x` is
-- `0.5 ** x`, `days` turns a positive span of microseconds into days.
pub record Floats (W : Type 0) : Type 0 where
  pub zero_ : W
  pub one_ : W
  pub nan : W
  pub lt : W → W → Bool
  pub le : W → W → Bool
  pub is_nan : W → Bool
  pub is_inf : W → Bool
  pub add : W → W → W
  pub mul : W → W → W
  pub div : W → W → W
  pub half_pow : W → W
  pub days : ℕ → W
  -- what holds of `<` on all floats, NaN included
  pub lt_asymm : (a b : W) → lt a b ≡ true → lt b a ≡ false
  pub lt_irrefl : (a : W) → lt a a ≡ false
  pub zero-lt-one : lt zero_ one_ ≡ true
  pub zero_number : is_nan zero_ ≡ false
  pub one_number : is_nan one_ ≡ false

-- A value of a row or of metadata, as `float(value)` sees it: `inconvertible` is one on which it
-- raises TypeError or ValueError, `overflowing` an integer too large for a float, on which it raises
-- OverflowError.
pub data Value (W : Type 0) : Type 0 where
  null : Value W
  boolean : Bool → Value W
  convertible : W → Value W
  inconvertible : Value W
  overflowing : Value W

-- The constants of the scoring.
pub record Tuning (W : Type 0) : Type 0 where
  pub recency_default : W
  pub activation_default : W
  pub recency_half_life : W
  pub activation_half_life : W
  pub frequency_reference : W
  pub importance_default : W

-- What the signals read of a `RetrievalCandidate`.
pub record Signals (W : Type 0) : Type 0 where
  pub score : Value W
  pub path_scores : List (Value W)
  pub created_at : Option ℕ
  pub last_accessed_at : Option ℕ
  pub reinforcement_count : Value W
  pub importance : Value W

module _ {W : Type 0} where
  -- a value on which `float()` does not overflow
  abbrev pub Fits : Value W → Type 0
  Fits overflowing = ⊥
  Fits _ = Unit

  -- what the signals read of the candidate fits
  pub record AllFit (c : Signals W) : Type 0 where
    pub score : Fits c.score
    pub path_scores : All Fits c.path_scores
    pub reinforcement_count : Fits c.reinforcement_count
    pub importance : Fits c.importance

module _ {W : Type 0} (floats : Floats W) where
  open floats use {zero_, one_, nan, lt, le, is_nan, is_inf, add, mul, div, half_pow, days}

  -- Python's `min(a, b)` and `max(a, b)`
  abbrev pub min_of : W → W → W
  min_of a b = if lt b a then b else a

  abbrev pub max_of : W → W → W
  max_of a b = if lt a b then b else a

  -- `_clamp01`
  unfoldable pub clamp01 : W → W
  clamp01 value = if is_nan value then zero_ else max_of zero_ (min_of one_ value)

  -- `_as_float`; `none` is the OverflowError, which it does not catch
  unfoldable pub as_float : Value W → W → Option W
  as_float null default = some default
  as_float (boolean b) default = some default
  as_float inconvertible default = some default
  as_float (convertible x) default = some (if is_nan x || is_inf x then default else x)
  as_float overflowing default = none

  -- the list `usable`, `max` of it, and the best of the paths
  abbrev pub usable : List (Value W) → Option (List W)
  usable [] = some []
  usable (v ∷ vs) = do x ← as_float v zero_; rest ← usable vs; some (x ∷ rest)

  abbrev best_of : W → List W → W
  best_of best [] = best
  best_of best (x ∷ xs) = best_of (max_of best x) xs

  abbrev pub clamped_best : List W → W
  clamped_best [] = zero_
  clamped_best (x ∷ xs) = clamp01 (best_of x xs)

  abbrev pub best_path : List (Value W) → Option W
  best_path vs = do xs ← usable vs; some (clamped_best xs)

  -- `semantic_score`
  unfoldable pub semantic_score : Signals W → Option W
  unfolding clamp01 as_float
  semantic_score c = do
    merged ← as_float c.score nan
    if not (is_nan merged) then some (clamp01 merged) else best_path c.path_scores

  -- the decay that `recency_score` and `activation_score` share
  unfoldable pub decay_score : (stamp : Option ℕ) → (default half_life : W) → (now : ℕ) → W
  unfolding clamp01
  decay_score none default half_life now = clamp01 default
  decay_score (some stamp) default half_life now =
      if leb now stamp
      then one_
      else if le half_life zero_
      then zero_
      else clamp01 (half_pow (div (days (now - stamp)) half_life))

  -- `recency_score`, `activation_score`
  unfoldable pub recency_score : Tuning W → Signals W → (now : ℕ) → W
  unfolding decay_score
  recency_score t c now = decay_score c.created_at t.recency_default t.recency_half_life now

  unfoldable pub activation_score : Tuning W → Signals W → (now : ℕ) → W
  unfolding decay_score
  activation_score t c now =
      decay_score c.last_accessed_at t.activation_default t.activation_half_life now

  -- `frequency_score`
  unfoldable pub frequency_score : Tuning W → Signals W → Option W
  unfolding clamp01 as_float
  frequency_score t c = do
    count ← as_float c.reinforcement_count zero_
    some (
        if le count zero_
        then zero_
        else if le t.frequency_reference zero_
        then one_
        else clamp01 (div count (add count t.frequency_reference)))

  -- `importance_score`
  unfoldable pub importance_score : Tuning W → Signals W → Option W
  unfolding clamp01 as_float
  importance_score t c = do
    importance ← as_float c.importance t.importance_default
    some (clamp01 importance)
