-- ===== src/Context/Composer.antt =====
-- context/composer.py: the token-bounded memory block. Scores are any floats that are not NaN, ids
-- are uuids as numbers (uuid texts of one length sort like these), `count` is `count_tokens`.
pub mod Victim
pub mod Fit
pub mod Block
use conversational_memory_sy.Prelude.{
  ℕ, zero, suc, ◌+◌, Bool, true, false, ◌&&◌, ◌||◌, not, Option, none, some, List, [], ◌∷◌, ◌++◌,
  map, ltb, ◌==◌, if◌then◌else◌, length, keep,
}
use conversational_memory_sy.Prelude.Scores.{Scores}
use conversational_memory_sy.Context.Text.{Text, codes, join, clean}

-- `RankedCandidate`, without the breakdown
pub record RankedCandidate (W : Type 0) : Type 0 where
  pub memory_id : ℕ
  pub content : Text
  pub score : W

-- `BLOCK_HEADER`
abbrev pub block_header : Text
block_header = codes "## What you know about the user"

-- `ComposedContext`
pub record ComposedContext (W : Type 0) : Type 0 where
  pub block : Text
  pub memory_ids : List ℕ
  pub dropped_ids : List ℕ
  pub token_count : ℕ
  pub budget : ℕ
  pub included : List (RankedCandidate W)

-- `_fit`'s result
pub record Fitted (W : Type 0) : Type 0 where
  pub selected : List (RankedCandidate W)
  pub dropped : List (RankedCandidate W)
  pub block : Text
  pub tokens : ℕ

-- `max` of pairs, the first of equal ones
abbrev pub pair_lt : ℕ × ℕ → ℕ × ℕ → Bool
pair_lt (a, b) (c, d) = ltb a c || (a == c && ltb b d)

abbrev pub max_pair : ℕ × ℕ → List (ℕ × ℕ) → ℕ × ℕ
max_pair best [] = best
max_pair best (p ∷ ps) = max_pair (if pair_lt best p then p else best) ps

-- `max(tied)[1]`; `none` is the exception of `max` on nothing
abbrev pub last_of : List (ℕ × ℕ) → Option ℕ
last_of [] = none
last_of (p ∷ ps) = some (max_pair p ps).1

-- `items.pop(index)`; `none` is the exception of an index out of range
abbrev pub pop {ℓ} : {A : Type ℓ} → ℕ → List A → Option (A × List A)
pop i [] = none
pop zero (x ∷ xs) = some (x, xs)
pop (suc i) (x ∷ xs) = elim (pop i xs) [ none ↦ none | some (v, rest) ↦ some (v, x ∷ rest) ]

module _ {W : Type 0} (scores : Scores W) where
  open scores use {lt, eq}

  -- `min(item.score for item in items)`, with the lowest seen so far
  abbrev pub lowest : W → List (RankedCandidate W) → W
  lowest low [] = low
  lowest low (item ∷ items) = lowest (if lt item.score low then item.score else low) items

  -- `[(item.memory_id, index) ... if item.score == lowest]`, counting from `i`
  abbrev pub tied : W → ℕ → List (RankedCandidate W) → List (ℕ × ℕ)
  tied low i [] = []
  tied low i (item ∷ items) =
      let rest = tied low (suc i) items in
      if eq item.score low then (item.memory_id, i) ∷ rest else rest

  -- `_lowest_scored_index`; `none` is the exception of `min` and `max` on nothing
  unfoldable pub lowest_scored_index : List (RankedCandidate W) → Option ℕ
  lowest_scored_index [] = none
  lowest_scored_index (item ∷ items) = last_of (tied (lowest item.score items) 0 (item ∷ items))

  -- `selected.pop(_lowest_scored_index(selected))`
  unfoldable pub pop_lowest :
      List (RankedCandidate W) → Option (RankedCandidate W × List (RankedCandidate W))
  unfolding lowest_scored_index
  pop_lowest items = elim (lowest_scored_index items) [ none ↦ none | some i ↦ pop i items ]

module _ {W : Type 0} where
  -- `render_line`
  unfoldable pub render_line : RankedCandidate W → Text
  render_line item = codes "- " ++ clean item.content

  -- `render_block`
  unfoldable pub render_block : List (RankedCandidate W) → Text
  unfolding render_line
  render_block [] = []
  render_block (item ∷ items) = join (codes "\n") (block_header ∷ map render_line (item ∷ items))

  abbrev pub says_something : RankedCandidate W → Bool
  says_something item = elim (clean item.content) [ [] ↦ false | _ ∷ _ ↦ true ]

module _ {W : Type 0} (scores : Scores W) (count : Text → ℕ) where
  abbrev pub fitted : List (RankedCandidate W) → List (RankedCandidate W) → Fitted W
  fitted selected dropped =
      let block = render_block selected in
      record { selected = selected; dropped = dropped; block = block; tokens = count block }

  -- The loop of `_fit`; on fuel, of which one for each item is enough.
  unfoldable pub fit_from :
      (fuel : ℕ)
      → List (RankedCandidate W)
      → List (RankedCandidate W)
      → (budget : ℕ) → Option (Fitted W)
  fit_from zero selected dropped budget = none
  fit_from (suc fuel) [] dropped budget = some (fitted [] dropped)
  fit_from (suc fuel) (item ∷ items) dropped budget =
      elim (ltb budget (count (render_block (item ∷ items)))) [
        | false ↦ some (fitted (item ∷ items) dropped)
        | true ↦ elim (pop_lowest scores (item ∷ items)) [
          | none ↦ none
          | some (victim, rest) ↦ fit_from fuel rest (dropped ++ victim ∷ []) budget
        ]
      ]

  -- `_fit`
  unfoldable pub fit : List (RankedCandidate W) → (budget : ℕ) → Option (Fitted W)
  unfolding fit_from
  fit ranked budget = fit_from (suc (length ranked)) ranked [] budget

  abbrev pub empty_context : (budget : ℕ) → ComposedContext W
  empty_context budget = record {
    block = [];
    memory_ids = [];
    dropped_ids = [];
    token_count = 0;
    budget = budget;
    included = [];
  }

  abbrev pub composed : (budget : ℕ) → Fitted W → ComposedContext W
  composed budget f = record {
    block = f.block;
    memory_ids = map (λ item. item.memory_id) f.selected;
    dropped_ids = map (λ item. item.memory_id) f.dropped;
    token_count = f.tokens;
    budget = budget;
    included = f.selected;
  }

  -- after the loop, with the check that raises `AssertionError`
  abbrev finish : (budget : ℕ) → Option (Fitted W) → Option (ComposedContext W)
  finish budget none = none
  finish budget (some f) = if ltb budget f.tokens then none else some (composed budget f)

  abbrev compose_kept : (budget : ℕ) → List (RankedCandidate W) → Option (ComposedContext W)
  compose_kept budget [] = some (empty_context budget)
  compose_kept budget (item ∷ items) = finish budget (fit (item ∷ items) budget)

  -- `compose_profile_block`, with the budget resolved and cut off at 0; `none` is an exception
  unfoldable pub compose_profile_block :
      List (RankedCandidate W) → (budget : ℕ) → Option (ComposedContext W)
  compose_profile_block ranked budget = compose_kept budget (keep says_something ranked)
