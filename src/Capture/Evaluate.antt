-- ===== src/Capture/Evaluate.antt =====
-- capture/evaluate.py: the scores of the candidates and the confidence floor. Floats are a parameter;
-- what `parse_scores` makes of the model's text is one too, but for the length that it demands.
use conversational_memory_sy.Prelude.{
  ℕ, Bool, true, false, ◌||◌, ◌&&◌, Option, none, some, List, [], ◌∷◌, map, ◌==◌, length,
  if◌then◌else◌,
}
use conversational_memory_sy.Prelude.Options.{◌>>=◌}
use conversational_memory_sy.Context.Text.{Text, codes}
use conversational_memory_sy.Retrieve.Features.{
  Floats, Value, null, boolean, convertible, inconvertible, overflowing, min_of, max_of,
}
use conversational_memory_sy.Store.Memories.{Candidate, is_assistant}

-- An element of the scorer's array; one that is no object has neither score.
pub record Entry (W : Type 0) : Type 0 where
  pub importance : Value W
  pub confidence : Value W

-- The constants of `heuristic_scores`, `x - 0.1` and `round(x, 3)`.
pub record Heuristics (W : Type 0) : Type 0 where
  pub valued : W
  pub ordinary : W
  pub hedged : W
  pub plain : W
  pub lessened : W → W
  pub round : W → W

abbrev starts_with : Text → Text → Bool
starts_with [] text = true
starts_with (p ∷ ps) [] = false
starts_with (p ∷ ps) (c ∷ cs) = p == c && starts_with ps cs

-- `token in text`
abbrev contains : Text → Text → Bool
contains token [] = starts_with token []
contains token (c ∷ cs) = starts_with token (c ∷ cs) || contains token cs

abbrev contains_any : List Text → Text → Bool
contains_any [] text = false
contains_any (token ∷ tokens) text = contains token text || contains_any tokens text

-- `_HEDGES`
abbrev hedges : List Text
hedges =
    codes "maybe"
    ∷ codes "might"
    ∷ codes "possibly"
    ∷ codes "perhaps"
    ∷ codes "i think"
    ∷ codes "not sure"
    ∷ codes "probably"
    ∷ codes "seems"
    ∷ []

-- `_HIGH_VALUE`
abbrev high_value : List Text
high_value =
    codes "allerg"
    ∷ codes "diabet"
    ∷ codes "medic"
    ∷ codes "health"
    ∷ codes "safety"
    ∷ codes "disab"
    ∷ codes "name is"
    ∷ codes "lives in"
    ∷ codes "works as"
    ∷ codes "job"
    ∷ codes "birthday"
    ∷ codes "married"
    ∷ codes "child"
    ∷ codes "daughter"
    ∷ codes "son"
    ∷ codes "wife"
    ∷ codes "husband"
    ∷ codes "partner"
    ∷ codes "prefer"
    ∷ codes "favorite"
    ∷ codes "favourite"
    ∷ []

module _ {W : Type 0} where
  abbrev pub no_scores : Entry W
  no_scores = record { importance = null; confidence = null }

  -- the scores, if the model gave one for each candidate
  abbrev pub trusted : Option (List (Entry W)) → ℕ → List (Entry W)
  trusted none expected = []
  trusted (some entries) expected = if length entries == expected then entries else []

module _ {W : Type 0} (floats : Floats W) where
  open floats use {zero_, one_, le, is_nan}

  -- `_clamp01`; `float` of a Boolean is 0 or 1
  abbrev pub clamped : W → W → W
  clamped number default =
      if is_nan number then default else max_of floats zero_ (min_of floats one_ number)

  -- `none` is the OverflowError of an integer too large for a float, which is not caught
  unfoldable pub clamp_or : Value W → W → Option W
  clamp_or null default = some default
  clamp_or inconvertible default = some default
  clamp_or (boolean b) default = some (clamped (if b then one_ else zero_) default)
  clamp_or (convertible number) default = some (clamped number default)
  clamp_or overflowing default = none

  abbrev pub confidence_or_zero : Option W → W
  confidence_or_zero none = zero_
  confidence_or_zero (some confidence) = confidence

  -- `apply_confidence_floor`: the kept and the dropped
  unfoldable pub apply_confidence_floor :
      {E : Type 0}
      → (floor : W) → List (Candidate W E)
      → List (Candidate W E) × List (Candidate W E)
  apply_confidence_floor floor [] = ([], [])
  apply_confidence_floor floor (c ∷ cs) =
      let (kept, dropped) = apply_confidence_floor floor cs in
      if le floor (confidence_or_zero c.confidence)
      then (c ∷ kept, dropped)
      else (kept, c ∷ dropped)

module _ {W E : Type 0} (floats : Floats W) (heuristics : Heuristics W) (lower : Text → Text) where
  open floats use {zero_}
  open heuristics use {valued, ordinary, hedged, plain, lessened, round}

  abbrev pub guessed_confidence : Candidate W E → W
  guessed_confidence c =
      let base = if contains_any hedges (lower c.text) then hedged else plain in
      if is_assistant c.source then lessened base else base

  -- `heuristic_scores`
  unfoldable pub heuristic_scores : Candidate W E → W × W
  heuristic_scores c = (
    round (if contains_any high_value (lower c.text) then valued else ordinary),
    round (max_of floats zero_ (guessed_confidence c)),
  )

  -- the body of the loop of `score_candidates`
  abbrev pub score_one : Entry W → Candidate W E → Option (Candidate W E)
  score_one entry c = do
    let (fallback_importance, fallback_confidence) = heuristic_scores c
    importance ← clamp_or floats entry.importance fallback_importance
    confidence ← clamp_or floats entry.confidence fallback_confidence
    some (record c { importance = some importance; confidence = some confidence })

  abbrev pub score_all : List (Entry W) → List (Candidate W E) → Option (List (Candidate W E))
  score_all entries [] = some []
  score_all [] (c ∷ cs) = do
    first ← score_one no_scores c
    rest ← score_all [] cs
    some (first ∷ rest)
  score_all (entry ∷ entries) (c ∷ cs) = do
    first ← score_one entry c
    rest ← score_all entries cs
    some (first ∷ rest)

  -- `score_candidates`
  unfoldable pub score_candidates :
      (complete : List Text → Option (List (Entry W)))
      → List (Candidate W E)
      → Option (List (Candidate W E))
  unfolding clamp_or heuristic_scores
  score_candidates complete cs =
      score_all (trusted (complete (map (λ c. c.text) cs)) (length cs)) cs
