-- ===== src/Context/Compose.antt =====
-- context/composer.py: `compose`, which ranks what the search found and composes what was ranked.
use conversational_memory_sy.Prelude.{
  ℕ, ◌≡◌, Bool, true, false, Option, none, some, List, [], ◌∷◌, map, if◌then◌else◌, keep, ◌&&◌,
  ◌||◌, ap, refl, length, arith, ◌∙◌, All,
}
use conversational_memory_sy.Prelude.Options.{◌>>=◌}
use conversational_memory_sy.Prelude.Scores.{Scores}
use conversational_memory_sy.Context.Text.{Text}
use conversational_memory_sy.Context.Composer.{
  ComposedContext, says_something, compose_profile_block, empty_context,
}
use conversational_memory_sy.Context.Composer.Fit.{IsComposed, compose-IsComposed}
use conversational_memory_sy.Retrieve.Features.{Floats, Tuning, AllFit}
use conversational_memory_sy.Retrieve.Ranking.{Candidate, RankedCandidate, Weights, rank}
use conversational_memory_sy.Retrieve.Ranking.Order.{rank_selects}

abbrev ComposerItem : Type 0 → Type 0
ComposerItem = conversational_memory_sy.Context.Composer.RankedCandidate

length_zero : {A : Type 0} (xs : List A) → length xs ≡ 0 → xs ≡ []
length_zero [] h = refl
length_zero (x ∷ xs) h = absurd (omega (arith, h))

-- An element of the list that `compose` is given.
pub data Item (W : Type 0) : Type 0 where
  raw : Candidate W → Item W
  scored : RankedCandidate W → Item W

module _ {W : Type 0} where
  abbrev is_scored : Item W → Bool
  is_scored (raw c) = false
  is_scored (scored c) = true

  -- `all(isinstance(item, RankedCandidate) for item in items)`, and `any`
  abbrev all_scored : List (Item W) → Bool
  all_scored [] = true
  all_scored (item ∷ items) = is_scored item && all_scored items

  abbrev any_scored : List (Item W) → Bool
  any_scored [] = false
  any_scored (item ∷ items) = is_scored item || any_scored items

  abbrev scored_of : List (Item W) → List (RankedCandidate W)
  scored_of [] = []
  scored_of (raw c ∷ items) = scored_of items
  scored_of (scored c ∷ items) = c ∷ scored_of items

  abbrev raw_of : List (Item W) → List (Candidate W)
  raw_of [] = []
  raw_of (raw c ∷ items) = c ∷ raw_of items
  raw_of (scored c ∷ items) = raw_of items

-- `number` is the score as a number, which the composer compares; `top_k` and the budget are
-- resolved and cut off at 0.
module _ {W K V : Type 0} (floats : Floats W) (tuning : Tuning W) (weights : Weights W)
    (round_scores : Scores K) (round12 : W → K) (scores : Scores V) (number : W → V)
    (count : Text → ℕ) where
  abbrev pub composed_item : RankedCandidate W → ComposerItem V
  composed_item c = record {
    memory_id = c.candidate.memory_id;
    content = c.candidate.content;
    score = number c.score;
  }

  abbrev pub compose_ranked : List (RankedCandidate W) → (budget : ℕ) → Option (ComposedContext V)
  compose_ranked ranked budget =
      compose_profile_block scores count (map composed_item ranked) budget

  -- `compose`; `none` is its exception, or one of what it calls
  unfoldable pub compose : List (Item W) → (budget top_k now : ℕ) → Option (ComposedContext V)
  compose [] budget top_k now = some (empty_context scores count budget)
  compose (item ∷ items) budget top_k now =
      if all_scored (item ∷ items)
      then compose_ranked (scored_of (item ∷ items)) budget
      else (if any_scored (item ∷ items) then none else (do
        ranked ← rank floats tuning weights round_scores round12 (raw_of (item ∷ items)) top_k now
        compose_ranked ranked budget))

  any_scored-raw : (cs : List (Candidate W)) → any_scored (map raw cs) ≡ false
  any_scored-raw [] = refl
  any_scored-raw (c ∷ cs) = any_scored-raw cs

  raw_of-raw : (cs : List (Candidate W)) → raw_of (map raw cs) ≡ cs
  raw_of-raw [] = refl
  raw_of-raw (c ∷ cs) = ap (λ rest. c ∷ rest) (raw_of-raw cs)

  abbrev pub composed_items : List (RankedCandidate W) → List (ComposerItem V)
  composed_items ranked = map composed_item ranked

  -- Provided that the empty text counts 0 tokens, composing what a search found, with values that
  -- fit, never raises: the block is within the budget and is rendered from the memories listed,
  -- which with those left out for the budget are the ranked ones that say something.
  pub compose_raw-IsComposed :
      (cs : List (Candidate W)) (budget top_k now : ℕ)
      → count [] ≡ 0
      → All (λ c. AllFit c.signals) cs
      → (ranked : List (RankedCandidate W)) × (c : ComposedContext V) × (rank floats tuning weights
            round_scores round12 cs top_k now
          ≡ some ranked)
        × (compose (map raw cs) budget top_k now ≡ some c)
        × IsComposed scores count (keep says_something (composed_items ranked)) budget c
  unfolding compose compose_profile_block
  compose_raw-IsComposed [] budget top_k now z fit =
      let (selected, rest, e, perm, size, points, order) =
        rank_selects floats tuning weights round_scores round12 [] top_k now tt in
      let none_selected = length_zero selected (omega (arith, size)) in
      let (c, composed, good) = compose-IsComposed scores count [] budget z in
      ([], c, e ∙ ap some none_selected, composed, good)
  compose_raw-IsComposed (c ∷ cs) budget top_k now z fit =
      let (selected, rest, e, perm, size, points, order) =
        rank_selects floats tuning weights round_scores round12 (c ∷ cs) top_k now fit in
      let (composed, result, good) =
        compose-IsComposed scores count (composed_items selected) budget z in
      (selected, composed, e, rw (any_scored-raw cs, raw_of-raw cs, e) result, good)
