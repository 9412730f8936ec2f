-- ===== src/Respond/Recollection.antt =====
-- graphs/response_graph.py: what a turn has to go on, by what it asks and what the search and the
-- composer say, without the events, the audit and the state that the nodes keep.
use conversational_memory_sy.Prelude.{Bool, true, false, Option, none, some, []}
use conversational_memory_sy.Context.Text.{Text}
use conversational_memory_sy.Context.Composer.{ComposedContext}
use conversational_memory_sy.Retrieve.Guarded.{Guarded, found, unavailable, interrupted, crashed}
use conversational_memory_sy.Respond.{
  ResponseState, ResponseMetadata, RetrievalQuery, Recall, latest_user_message, identity_of,
  nothing_recalled, without_memory, with_memories,
}
use conversational_memory_sy.Respond.Graph.{is_blank}

-- what is reported, and the block
abbrev pub Memory : Type 0
Memory = Option (ResponseMetadata × Text)

abbrev pub of_composed : {V : Type 0} → Option (ComposedContext V) → Memory
of_composed none = none
of_composed (some c) = some (with_memories c, c.block)

module _ {S C R V : Type 0} (recall : Recall S C R V) where
  abbrev pub of_answer : Guarded C R → Memory
  of_answer (found result) = of_composed (recall.compose result.candidates)
  of_answer (unavailable reason circuit) = some (without_memory reason, [])
  of_answer interrupted = none
  of_answer crashed = none

  abbrev pub of_query : (blank : Bool) → RetrievalQuery → S → Memory
  of_query true query s = some (nothing_recalled, [])
  of_query false query s = of_answer (recall.guarded_hybrid_search query s).1

  -- A blank question recalls nothing; any other recalls what the composer makes of what was found,
  -- or the reason why nothing was.
  unfoldable pub recollection : (lower : Text → Text) → ResponseState → S → Memory
  unfolding latest_user_message is_blank
  recollection lower state s =
      let query = latest_user_message lower state.messages in
      of_query (is_blank query) (record { text = query; identity = identity_of state }) s
