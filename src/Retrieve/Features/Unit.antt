-- ===== src/Retrieve/Features/Unit.antt =====
-- retrieve/features.py: each signal of a candidate whose values fit is a number between 0 and 1.
use conversational_memory_sy.Prelude.{
  ℕ, ◌≡◌, Bool, true, false, not, Option, none, some, List, [], ◌∷◌, leb, if◌then◌else◌, Bool-cases,
  inl, inr, sym, subst, ap, All, refl,
}
use conversational_memory_sy.Prelude.Options.{◌>>=◌}
use conversational_memory_sy.Retrieve.Features.{
  Floats, Value, null, boolean, convertible, inconvertible, overflowing, Tuning, Signals, Fits,
  AllFit, min_of, max_of, clamp01, as_float, usable, clamped_best, best_path, semantic_score,
  decay_score, recency_score, activation_score, frequency_score, importance_score,
}

module _ {W : Type 0} (floats : Floats W) where
  open floats use {zero_, one_, nan, lt, le, is_nan, add, div, half_pow, days}

  -- a number from 0 to `u`; NaN is none
  pub record Within (u x : W) : Type 0 where
    pub not_below : lt x zero_ ≡ false
    pub not_above : lt u x ≡ false
    pub number : is_nan x ≡ false

  abbrev pub InUnit : W → Type 0
  InUnit = Within one_

  zero-InUnit : InUnit zero_
  zero-InUnit = record {
    not_below = floats.lt_irrefl zero_;
    not_above = floats.lt_asymm zero_ one_ floats.zero-lt-one;
    number = floats.zero_number;
  }

  one-InUnit : InUnit one_
  one-InUnit = record {
    not_below = floats.lt_asymm zero_ one_ floats.zero-lt-one;
    not_above = floats.lt_irrefl one_;
    number = floats.one_number;
  }

  if-InUnit : (b : Bool) (x y : W) → InUnit x → InUnit y → InUnit (if b then x else y)
  if-InUnit true x y h k = h
  if-InUnit false x y h k = k

  min-InUnit :
      (x : W)
      → is_nan x ≡ false
      → lt zero_ (min_of floats one_ x) ≡ true
      → InUnit (min_of floats one_ x)
  min-InUnit x n h = elim (Bool-cases (lt x one_)) [
    | inl below ↦ rw below (record {
      not_below = floats.lt_asymm zero_ x (rw below at h);
      not_above = floats.lt_asymm x one_ below;
      number = n;
    })
    | inr above ↦ rw above one-InUnit
  ]

  max-InUnit : (x : W) → is_nan x ≡ false → InUnit (max_of floats zero_ (min_of floats one_ x))
  max-InUnit x n = elim (Bool-cases (lt zero_ (min_of floats one_ x))) [
    | inl above ↦
        subst InUnit (sym (ap (λ b. if b then min_of floats one_ x else zero_) above))
          (min-InUnit x n above)
    | inr below ↦
        subst InUnit (sym (ap (λ b. if b then min_of floats one_ x else zero_) below)) zero-InUnit
  ]

  clamp01-InUnit : (x : W) → InUnit (clamp01 floats x)
  unfolding clamp01
  clamp01-InUnit x = elim (Bool-cases (is_nan x)) [
    | inl nan ↦
        subst InUnit
          (sym (ap (λ b. if b then zero_ else max_of floats zero_ (min_of floats one_ x)) nan))
          zero-InUnit
    | inr number ↦
        subst InUnit
          (sym (ap (λ b. if b then zero_ else max_of floats zero_ (min_of floats one_ x)) number))
          (max-InUnit x number)
  ]

  -- a call that returns a number between 0 and 1
  abbrev pub ReturnsUnit : Option W → Type 0
  ReturnsUnit o = (x : W) × (o ≡ some x) × InUnit x

  as_float-Returns :
      (v : Value W) (default : W) → Fits v → (x : W) × (as_float floats v default ≡ some x)
  unfolding as_float
  as_float-Returns null default h = (_, refl)
  as_float-Returns (boolean b) default h = (_, refl)
  as_float-Returns inconvertible default h = (_, refl)
  as_float-Returns (convertible x) default h = (_, refl)
  as_float-Returns overflowing default h = absurd h

  usable-Returns :
      (vs : List (Value W)) → All Fits vs → (xs : List W) × (usable floats vs ≡ some xs)
  usable-Returns [] h = ([], refl)
  usable-Returns (v ∷ vs) (h, hs) =
      let (x, e) = as_float-Returns v zero_ h in
      let (rest, es) = usable-Returns vs hs in (x ∷ rest, rw (e, es) refl)

  clamped_best-InUnit : (xs : List W) → InUnit (clamped_best floats xs)
  clamped_best-InUnit [] = zero-InUnit
  clamped_best-InUnit (x ∷ xs) = clamp01-InUnit _

  best_path-ReturnsUnit : (vs : List (Value W)) → All Fits vs → ReturnsUnit (best_path floats vs)
  best_path-ReturnsUnit vs h =
      let (xs, e) = usable-Returns vs h in
      (clamped_best floats xs, rw e refl, clamped_best-InUnit xs)

  if-ReturnsUnit :
      (b : Bool) (o p : Option W) → ReturnsUnit o → ReturnsUnit p → ReturnsUnit (if b then o else p)
  if-ReturnsUnit true o p h k = h
  if-ReturnsUnit false o p h k = k

  -- a call that returns, and then a computation
  then-ReturnsUnit :
      (o : Option W) (f : W → Option W)
      → ((x : W) × (o ≡ some x))
      → ((x : W) → ReturnsUnit (f x))
      → ReturnsUnit (o >>= f)
  then-ReturnsUnit o f (x, e) h = subst (λ p. ReturnsUnit (p >>= f)) (sym e) (h x)

  semantic-ReturnsUnit : (c : Signals W) → AllFit c → ReturnsUnit (semantic_score floats c)
  unfolding semantic_score
  semantic-ReturnsUnit c fit =
      then-ReturnsUnit (as_float floats c.score nan)
        (λ merged.
          if not (is_nan merged)
          then some (clamp01 floats merged)
          else best_path floats c.path_scores)
        (as_float-Returns c.score nan fit.score)
        (λ merged.
          if-ReturnsUnit (not (is_nan merged)) (some (clamp01 floats merged))
            (best_path floats c.path_scores) (_, refl, clamp01-InUnit merged)
            (best_path-ReturnsUnit c.path_scores fit.path_scores))

  decay-InUnit :
      (stamp : Option ℕ) (default half_life : W) (now : ℕ)
      → InUnit (decay_score floats stamp default half_life now)
  unfolding decay_score
  decay-InUnit none default half_life now = clamp01-InUnit default
  decay-InUnit (some stamp) default half_life now =
      if-InUnit (leb now stamp) _ _ one-InUnit
        (if-InUnit (le half_life zero_) _ _ zero-InUnit (clamp01-InUnit _))

  frequency-ReturnsUnit :
      (t : Tuning W) (c : Signals W) → AllFit c → ReturnsUnit (frequency_score floats t c)
  unfolding frequency_score
  frequency-ReturnsUnit t c fit =
      then-ReturnsUnit (as_float floats c.reinforcement_count zero_)
        (λ count. some (
          if le count zero_
          then zero_
          else if le t.frequency_reference zero_
          then one_
          else clamp01 floats (div count (add count t.frequency_reference))))
        (as_float-Returns c.reinforcement_count zero_ fit.reinforcement_count)
        (λ count. (
          _,
          refl,
          if-InUnit (le count zero_) _ _ zero-InUnit
              (if-InUnit (le t.frequency_reference zero_) _ _ one-InUnit (clamp01-InUnit _)),
        ))

  importance-ReturnsUnit :
      (t : Tuning W) (c : Signals W) → AllFit c → ReturnsUnit (importance_score floats t c)
  unfolding importance_score
  importance-ReturnsUnit t c fit =
      then-ReturnsUnit (as_float floats c.importance t.importance_default)
        (λ x. some (clamp01 floats x))
        (as_float-Returns c.importance t.importance_default fit.importance)
        (λ importance. (_, refl, clamp01-InUnit importance))

  -- Of a candidate whose values fit, each of the five signals is a number between 0 and 1.
  pub signals-InUnit :
      (t : Tuning W) (c : Signals W) (now : ℕ)
      → AllFit c
      → ReturnsUnit (semantic_score floats c)
        × InUnit (recency_score floats t c now)
        × InUnit (activation_score floats t c now)
        × ReturnsUnit (frequency_score floats t c)
        × ReturnsUnit (importance_score floats t c)
  unfolding recency_score activation_score
  signals-InUnit t c now fit = (
    semantic-ReturnsUnit c fit,
    decay-InUnit c.created_at _ _ now,
    decay-InUnit c.last_accessed_at _ _ now,
    frequency-ReturnsUnit t c fit,
    importance-ReturnsUnit t c fit,
  )
