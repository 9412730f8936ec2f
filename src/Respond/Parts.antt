-- ===== src/Respond/Parts.antt =====
-- graphs/response_graph.py: what fills the interface Recall: retrieve/guarded.py with the breaker, and
-- context/composer.py with the ranking; and the laws of the two that the theorems use.
use conversational_memory_sy.Prelude.{ℕ, ◌≡◌, ◌≢◌, none, some, List, [], ◌∷◌, map, All, keep}
use conversational_memory_sy.Prelude.Scores.{Scores}
use conversational_memory_sy.Context.Text.{Text}
use conversational_memory_sy.Context.Composer.{ComposedContext, render_block, says_something}
use conversational_memory_sy.Context.Composer.Fit.{IsComposed}
use conversational_memory_sy.Context.Compose.{raw, compose, composed_items, compose_raw-IsComposed}
use conversational_memory_sy.Breaker.{Keyspace}
use conversational_memory_sy.Breaker.Replica.{Call, snapshot}
use conversational_memory_sy.Retrieve.Features.{Floats, Tuning, AllFit}
use conversational_memory_sy.Retrieve.Ranking.{Candidate, RankedCandidate, Weights, rank}
use conversational_memory_sy.Retrieve.Guarded.{Outcome, cancelled, guarded_hybrid_search}
use conversational_memory_sy.Retrieve.Guarded.Answers.{IsAnswer, guarded-IsAnswer}
use conversational_memory_sy.Respond.{RetrievalQuery, Recall}

-- What the turn relies on. The composed block is that of the memories it lists; the guarded search
-- ends in a result or in `RetrievalUnavailable`.
abbrev pub IsRendered : {V : Type 0} → ComposedContext V → Type 0
IsRendered c =
    (c.block ≡ render_block c.included) × (c.memory_ids ≡ map (λ item. item.memory_id) c.included)

pub record Composes {S C R V : Type 0} (recall : Recall S C R V) : Type 0 where
  pub composes :
      (cs : List C) → (c : ComposedContext V) × (recall.compose cs ≡ some c) × IsRendered c

pub record Answers {S C R V : Type 0} (recall : Recall S C R V) : Type 0 where
  pub answers : (query : RetrievalQuery) (s : S) → IsAnswer (recall.guarded_hybrid_search query s).1

-- A candidate that the search finds: a row of the store, whose numeric columns are floats and 32-bit
-- integers, so that `float()` does not overflow on them.
pub record Found (W : Type 0) : Type 0 where
  pub candidate : Candidate W
  pub fit : AllFit candidate.signals

abbrev pub found_candidates : {W : Type 0} → List (Found W) → List (Candidate W)
found_candidates found = map (λ f. f.candidate) found

found-fit :
    {W : Type 0} (found : List (Found W)) → All (λ c. AllFit c.signals) (found_candidates found)
found-fit [] = tt
found-fit (f ∷ found) = (f.fit, found-fit found)

-- One turn's calls of the clock, of Redis and of the random token.
pub record Moment : Type 0 where
  pub gate_call : Call
  pub record_call : Call
  pub again : Call
  pub asked_at : ℕ
  pub token : ℕ
  pub now : ℕ
  pub later : ℕ
  pub ranked_at : ℕ

module _ {S W K V R : Type 0} (redis : Keyspace S) (threshold cooldown ttl : ℕ) (floats : Floats W)
    (tuning : Tuning W) (weights : Weights W) (round_scores : Scores K) (round12 : W → K)
    (scores : Scores V) (number : W → V) (count : Text → ℕ) (budget top_k : ℕ)
    (search : RetrievalQuery → Unit {0} → Outcome (Found W) R) (moment : Moment) where
  open moment use {gate_call, record_call, again, asked_at, token, now, later, ranked_at}

  -- `guarded_hybrid_search` and `compose`, as the retrieval node calls them
  abbrev pub guarded_recall : Recall S (Found W) R V
  guarded_recall = record {
    guarded_hybrid_search = λ query s.
        guarded_hybrid_search redis threshold cooldown ttl gate_call record_call again s asked_at
          token now later (search query);
    compose = λ cs.
        compose floats tuning weights round_scores round12 scores number count
          (map raw (found_candidates cs)) budget top_k ranked_at;
  }

  -- what the composer makes of what was found: of the ranked candidates that say something, those
  -- that fit in the budget
  abbrev pub Made : List (Found W) → ComposedContext V → Type 0
  Made cs c =
      (ranked : List (RankedCandidate W)) × (rank floats tuning weights round_scores round12
          (found_candidates cs) top_k ranked_at
        ≡ some ranked)
      × IsComposed scores count
          (keep says_something
            (composed_items floats tuning weights round_scores round12 scores number count ranked))
          budget c

  pub guarded_recall-Made :
      (cs : List (Found W))
      → count [] ≡ 0
      → (c : ComposedContext V) × (guarded_recall.compose cs ≡ some c) × Made cs c
  guarded_recall-Made cs z =
      let (ranked, c, e, result, good) =
        compose_raw-IsComposed floats tuning weights round_scores round12 scores number count
          (found_candidates cs) budget top_k ranked_at z (found-fit cs) in
      (c, result, (ranked, e, good))

  pub Made-IsRendered : (cs : List (Found W)) (c : ComposedContext V) → Made cs c → IsRendered c
  Made-IsRendered cs c (ranked, e, good) = (good.rendered, good.listed)

  pub guarded_recall-Composes : count [] ≡ 0 → Composes guarded_recall
  guarded_recall-Composes z = record {
    composes = λ cs.
        let (c, result, made) = guarded_recall-Made cs z in (c, result, Made-IsRendered cs c made);
  }

  pub guarded_recall-Answers :
      ((query : RetrievalQuery) → search query tt ≢ cancelled)
      → ((s : S) → snapshot redis threshold cooldown ttl again s ≢ none)
      → Answers guarded_recall
  guarded_recall-Answers awaited readable = record {
    answers = λ query s.
        guarded-IsAnswer redis threshold cooldown ttl gate_call record_call again s asked_at token
          now later (search query) (awaited query) readable;
  }
