-- ===== src/Respond/Graph.antt =====
-- graphs/response_graph.py: the two nodes, the edges between them, and the run of the graph.
use conversational_memory_sy.Prelude.{
  Bool, true, false, Option, none, some, List, [], ◌∷◌, ◌++◌, length, if◌then◌else◌,
}
use conversational_memory_sy.Context.Text.{Text}
use conversational_memory_sy.Context.Composer.{ComposedContext}
use conversational_memory_sy.Retrieve.Guarded.{Guarded, found, unavailable, interrupted, crashed}
use conversational_memory_sy.Store.Attributes.{strip}
use conversational_memory_sy.Store.Audit.{AuditRow}
use conversational_memory_sy.Store.Audit.Reads.{Transaction, record_read_audit}
use conversational_memory_sy.Respond.{
  Message, ResponseState, ResponseMetadata, to_event, token, done, Sink, emit, Completion, ended,
  raised, yields, Recall, Run, latest_user_message, build_prompt, identity_of, recalled,
  nothing_recalled, without_memory, with_memories, joined,
}

-- `if not query_text.strip()`
unfoldable pub is_blank : Text → Bool
unfolding strip
is_blank text = elim (strip text) [ [] ↦ true | _ ∷ _ ↦ false ]

-- the keys of `RETRIEVAL_ROUTES`, and the nodes
pub data Route : Type 0 where
  ok degraded : Route

pub data Node : Type 0 where
  respond : Node

-- `RETRIEVAL_ROUTES`
abbrev pub retrieval_routes : Route → Node
retrieval_routes ok = respond
retrieval_routes degraded = respond

-- `_route_after_retrieval`
unfoldable pub route_after_retrieval : ResponseState → Route
route_after_retrieval state = if state.degraded then degraded else ok

module _ {Q : Type 0} (sink : Sink Q) where
  -- the end of the retrieval node
  abbrev pub announced :
      {S : Type 0}
      → ResponseMetadata
      → Text
      → ResponseState
      → S
      → List AuditRow
      → Q
      → Run S Q ResponseState
  announced m block state redis audit_log q = record {
    redis = redis;
    audit_log = audit_log;
    sink = emit sink (to_event m) q;
    result = some (recalled m block state);
  }

  abbrev pub stopped : {S R : Type 0} → S → List AuditRow → Q → Run S Q R
  stopped redis audit_log q = record {
    redis = redis;
    audit_log = audit_log;
    sink = q;
    result = none;
  }

  -- The loop of `respond_node`, with the parts so far; `none` is an exception of the model.
  unfoldable pub stream_parts : Completion → List Text → Q → Q × Option (List Text)
  stream_parts ended parts q = (q, some parts)
  stream_parts raised parts q = (q, none)
  stream_parts (yields text rest) parts q =
      stream_parts rest (parts ++ text ∷ []) (emit sink (token text) q)

  abbrev pub replied :
      List Message → ResponseState → Q × Option (List Text) → Q × Option ResponseState
  replied prompt state (q, none) = (q, none)
  replied prompt state (q, some parts) = (
    emit sink (done (length (joined parts))) q,
    some (record state { reply = joined parts; prompt = prompt }),
  )

  module _ (lower : Text → Text) where
    -- `respond_node`
    unfoldable pub respond_node :
        (List Message → Completion) → ResponseState → Q → Q × Option ResponseState
    unfolding stream_parts build_prompt
    respond_node stream_tokens state q =
        let prompt = build_prompt lower state in
        replied prompt state (stream_parts (stream_tokens prompt) [] q)

    module _ {S C R V : Type 0} (recall : Recall S C R V) (transaction : Transaction) where
      -- what follows the composition; `none` is its exception
      abbrev pub audited :
          Option (ComposedContext V) → ResponseState → S → List AuditRow → Q → Run S Q ResponseState
      audited none state redis audit_log q = stopped redis audit_log q
      audited (some c) state redis audit_log q =
          let (audit_log', written) =
            record_read_audit (identity_of state) c.memory_ids transaction audit_log in
          announced (with_memories c) c.block state redis audit_log' q

      -- what follows the search
      abbrev pub searched :
          Guarded C R → ResponseState → S → List AuditRow → Q → Run S Q ResponseState
      searched (found result) state redis audit_log q =
          audited (recall.compose result.candidates) state redis audit_log q
      searched (unavailable reason circuit) state redis audit_log q =
          announced (without_memory reason) [] state redis audit_log q
      searched interrupted state redis audit_log q = stopped redis audit_log q
      searched crashed state redis audit_log q = stopped redis audit_log q

      -- what follows the test of the query
      abbrev pub asked :
          (blank : Bool)
          → (query : Text) → ResponseState
          → S
          → List AuditRow
          → Q
          → Run S Q ResponseState
      asked true query state redis audit_log q =
          announced nothing_recalled [] state redis audit_log q
      asked false query state redis audit_log q =
          let (redis', answer) =
            recall.guarded_hybrid_search (record { text = query; identity = identity_of state })
              redis in
          searched answer state redis' audit_log q

      -- `retrieval_node`
      unfoldable pub retrieval_node : ResponseState → S → List AuditRow → Q → Run S Q ResponseState
      unfolding latest_user_message is_blank record_read_audit
      retrieval_node state redis audit_log q =
          let query = latest_user_message lower state.messages in
          asked (is_blank query) query state redis audit_log q

      abbrev pub run_node :
          Node
          → (List Message → Completion)
          → ResponseState
          → Run S Q ResponseState
          → Run S Q ResponseState
      run_node respond stream_tokens state run =
          let (q, result) = respond_node stream_tokens state run.sink in
          record run { sink = q; result = result }

      -- the edges of `build_response_graph`
      abbrev pub follow :
          (List Message → Completion)
          → Option ResponseState
          → Run S Q ResponseState
          → Run S Q ResponseState
      follow stream_tokens none run = run
      follow stream_tokens (some state) run =
          run_node (retrieval_routes (route_after_retrieval state)) stream_tokens state run

      -- `graph.ainvoke(state)`
      unfoldable pub run_graph :
          (List Message → Completion)
          → ResponseState
          → S
          → List AuditRow
          → Q
          → Run S Q ResponseState
      unfolding retrieval_node respond_node route_after_retrieval
      run_graph stream_tokens state redis audit_log q =
          let run = retrieval_node state redis audit_log q in follow stream_tokens run.result run
