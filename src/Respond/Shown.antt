-- ===== src/Respond/Shown.antt =====
-- graphs/response_graph.py: what the model is shown, what the turn reports, and what the trail says.
use conversational_memory_sy.Prelude.{ℕ, ◌≡◌, true, some, List, [], ◌∷◌, map}
use conversational_memory_sy.Context.Text.{Text, codes}
use conversational_memory_sy.Context.Composer.{ComposedContext, RankedCandidate, render_block}
use conversational_memory_sy.Retrieve.Guarded.{Outcome}
use conversational_memory_sy.Retrieve.Features.{Floats, Tuning}
use conversational_memory_sy.Retrieve.Ranking.{Weights}
use conversational_memory_sy.Breaker.{Keyspace}
use conversational_memory_sy.Prelude.Scores.{Scores}
use conversational_memory_sy.Store.Attributes.{strip}
use conversational_memory_sy.Store.Audit.{AuditRow}
use conversational_memory_sy.Store.Audit.Reads.{committed}
use conversational_memory_sy.Respond.{
  Message, ResponseState, Sink, Completion, Recall, RetrievalQuery, system_of, latest_user_message,
  prompted,
}
use conversational_memory_sy.Respond.Graph.{is_blank, run_graph}
use conversational_memory_sy.Respond.Parts.{
  Found, Moment, guarded_recall, Made, guarded_recall-Made, Made-IsRendered,
}
use conversational_memory_sy.Respond.Degraded.{answer_to}
use conversational_memory_sy.Respond.Surface.{IsRecalled, ReadOnce, run_graph-IsShown}

module _ {Q S W K V R : Type 0} (sink : Sink Q) (lower : Text → Text) (redis : Keyspace S)
    (threshold cooldown ttl : ℕ) (floats : Floats W) (tuning : Tuning W) (weights : Weights W)
    (round_scores : Scores K) (round12 : W → K) (scores : Scores V) (number : W → V)
    (count : Text → ℕ) (budget top_k : ℕ) (search : RetrievalQuery → Unit {0} → Outcome (Found W) R)
    (moment : Moment) where
  abbrev the_recall : Recall S (Found W) R V
  the_recall =
      guarded_recall redis threshold cooldown ttl floats tuning weights round_scores round12 scores
        number count budget top_k search moment

  abbrev TheMade : List (Found W) → ComposedContext V → Type 0
  TheMade =
      Made redis threshold cooldown ttl floats tuning weights round_scores round12 scores number
        count budget top_k search moment

  -- With the program's own guarded search and composer, where the empty text counts 0 tokens and
  -- the audit commits with an id that can be read: a turn that ends reports the ids of some
  -- memories, showed its model, in the system message before the conversation, the block rendered
  -- from exactly these, and left one more `read` row for each of these and for no other memory.
  -- If the question was blank or the search was unavailable there are none; otherwise they are
  -- those that the composer included of what the search found: they and the ones it left out are
  -- the ranked candidates that say something, the block is within the budget, and none of those
  -- left out scores higher than an included one, nor the same with an earlier id.
  pub run_graph-surfaces :
      (stream_tokens : List Message → Completion) (state st : ResponseState) (s : S)
      (rows : List AuditRow) (q : Q)
      → (z : count [] ≡ 0)
      → (run_graph sink lower the_recall (committed true) stream_tokens state s rows q).result
        ≡ some st
      → (included : List (RankedCandidate V)) × IsRecalled TheMade
          (is_blank (latest_user_message lower state.messages))
          (answer_to sink lower the_recall (committed true) state s)
          included
        × (st.memory_ids ≡ map (λ item. item.memory_id) included)
        × (st.prompt
            ≡ record {
              role = some (codes "system");
              content = some (system_of (strip (render_block included)));
            }
              ∷ map (prompted lower) state.messages)
        × ReadOnce st.memory_ids rows
            (run_graph sink lower the_recall
              (committed true)
              stream_tokens
              state
              s
              rows
              q).audit_log
  run_graph-surfaces stream_tokens state st s rows q z e =
      run_graph-IsShown sink lower the_recall TheMade
        (λ cs.
          guarded_recall-Made redis threshold cooldown ttl floats tuning weights round_scores
            round12 scores number count budget top_k search moment cs z)
        (Made-IsRendered redis threshold cooldown ttl floats tuning weights round_scores round12
          scores number count budget top_k search moment)
        stream_tokens state st s rows q e
