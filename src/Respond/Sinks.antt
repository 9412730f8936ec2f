-- ===== src/Respond/Sinks.antt =====
-- graphs/response_graph.py: the consumer of the events does not matter to the turn.
use conversational_memory_sy.Prelude.{
  ◌≡◌, refl, ap, ◌∙◌, Bool, true, false, Option, none, some, List, [], ◌∷◌, ◌++◌,
}
use conversational_memory_sy.Context.Text.{Text}
use conversational_memory_sy.Context.Composer.{ComposedContext}
use conversational_memory_sy.Retrieve.Guarded.{Guarded, found, unavailable, interrupted, crashed}
use conversational_memory_sy.Store.Audit.{AuditRow}
use conversational_memory_sy.Store.Audit.Reads.{Transaction}
use conversational_memory_sy.Respond.{
  Message, ResponseState, Sink, emit, token, Completion, ended, raised, yields, Recall, Run,
  latest_user_message, build_prompt, identity_of,
}
use conversational_memory_sy.Respond.Graph.{
  is_blank, asked, Node, respond, run_node, retrieval_routes, route_after_retrieval, stream_parts,
  replied, respond_node, searched, audited, follow, retrieval_node, run_graph,
}

-- Two runs that differ at most in what their sinks hold.
pub record IsSame {S Q P R : Type 0} (a : Run S Q R) (b : Run S P R) : Type 0 where
  pub redis : a.redis ≡ b.redis
  pub audit_log : a.audit_log ≡ b.audit_log
  pub result : a.result ≡ b.result

module _ {Q P : Type 0} (sink : Sink Q) (other : Sink P) where
  stream_parts-same :
      (c : Completion) (parts : List Text) (q : Q) (p : P)
      → (stream_parts sink c parts q).1 ≡ (stream_parts other c parts p).1
  unfolding stream_parts
  stream_parts-same ended parts q p = refl
  stream_parts-same raised parts q p = refl
  stream_parts-same (yields text rest) parts q p =
      stream_parts-same rest (parts ++ text ∷ []) (emit sink (token text) q)
        (emit other (token text) p)

  replied-same :
      (prompt : List Message) (state : ResponseState) (q : Q) (p : P) (a b : Option (List Text))
      → a ≡ b
      → (replied sink prompt state (q, a)).1 ≡ (replied other prompt state (p, b)).1
  replied-same prompt state q p none none e = refl
  replied-same prompt state q p none (some b) e = cc
  replied-same prompt state q p (some a) none e = cc
  replied-same prompt state q p (some a) (some b) e = cc

  module _ (lower : Text → Text) where
    respond_node-same :
        (stream_tokens : List Message → Completion) (state : ResponseState) (q : Q) (p : P)
        → (respond_node sink lower stream_tokens state q).1
          ≡ (respond_node other lower stream_tokens state p).1
    unfolding respond_node
    respond_node-same stream_tokens state q p =
        let prompt = build_prompt lower state in
        let c = stream_tokens prompt in
        let (q', a) = stream_parts sink c [] q in
        let (p', b) = stream_parts other c [] p in
        replied-same prompt state q' p' a b (stream_parts-same c [] q p)

    module _ {S C R V : Type 0} (recall : Recall S C R V) (transaction : Transaction) where
      audited-IsSame :
          (c : Option (ComposedContext V)) (state : ResponseState) (s : S) (rows : List AuditRow)
          (q : Q) (p : P)
          → IsSame
              (audited sink lower recall transaction c state s rows q)
              (audited other lower recall transaction c state s rows p)
      audited-IsSame none state s rows q p = record {
        redis = refl;
        audit_log = refl;
        result = refl;
      }
      audited-IsSame (some c) state s rows q p = record {
        redis = refl;
        audit_log = refl;
        result = refl;
      }

      searched-IsSame :
          (answer : Guarded C R) (state : ResponseState) (s : S) (rows : List AuditRow) (q : Q)
          (p : P)
          → IsSame
              (searched sink lower recall transaction answer state s rows q)
              (searched other lower recall transaction answer state s rows p)
      searched-IsSame (found result) state s rows q p =
          audited-IsSame (recall.compose result.candidates) state s rows q p
      searched-IsSame (unavailable reason circuit) state s rows q p = record {
        redis = refl;
        audit_log = refl;
        result = refl;
      }
      searched-IsSame interrupted state s rows q p = record {
        redis = refl;
        audit_log = refl;
        result = refl;
      }
      searched-IsSame crashed state s rows q p = record {
        redis = refl;
        audit_log = refl;
        result = refl;
      }

      asked-IsSame :
          (blank : Bool) (query : Text) (state : ResponseState) (s : S) (rows : List AuditRow)
          (q : Q) (p : P)
          → IsSame
              (asked sink lower recall transaction blank query state s rows q)
              (asked other lower recall transaction blank query state s rows p)
      asked-IsSame true query state s rows q p = record {
        redis = refl;
        audit_log = refl;
        result = refl;
      }
      asked-IsSame false query state s rows q p =
          let (s', answer) =
            recall.guarded_hybrid_search (record { text = query; identity = identity_of state })
              s in
          searched-IsSame answer state s' rows q p

      retrieval_node-IsSame :
          (state : ResponseState) (s : S) (rows : List AuditRow) (q : Q) (p : P)
          → IsSame
              (retrieval_node sink lower recall transaction state s rows q)
              (retrieval_node other lower recall transaction state s rows p)
      unfolding retrieval_node
      retrieval_node-IsSame state s rows q p =
          let query = latest_user_message lower state.messages in
          asked-IsSame (is_blank query) query state s rows q p

      run_node-IsSame :
          (n k : Node) (stream_tokens : List Message → Completion) (x y : ResponseState)
          (a : Run S Q ResponseState) (b : Run S P ResponseState)
          → x ≡ y
          → IsSame a b
          → IsSame
              (run_node sink lower recall transaction n stream_tokens x a)
              (run_node other lower recall transaction k stream_tokens y b)
      run_node-IsSame respond respond stream_tokens x y a b e same = record {
        redis = same.redis;
        audit_log = same.audit_log;
        result =
            respond_node-same stream_tokens x a.sink b.sink
            ∙ ap (λ z. (respond_node other lower stream_tokens z b.sink).1) e;
      }

      follow-IsSame :
          (stream_tokens : List Message → Completion) (x y : Option ResponseState)
          (a : Run S Q ResponseState) (b : Run S P ResponseState)
          → x ≡ y
          → IsSame a b
          → IsSame
              (follow sink lower recall transaction stream_tokens x a)
              (follow other lower recall transaction stream_tokens y b)
      follow-IsSame stream_tokens none none a b e same = same
      follow-IsSame stream_tokens none (some y) a b e same = cc
      follow-IsSame stream_tokens (some x) none a b e same = cc
      follow-IsSame stream_tokens (some x) (some y) a b e same =
          run_node-IsSame (retrieval_routes (route_after_retrieval x))
            (retrieval_routes (route_after_retrieval y)) stream_tokens x y a b (cc) same

      -- Whatever the consumer of the events does, also if it raises or if there is none, a turn
      -- comes to the same: the same final state or exception, the same rows of the audit trail,
      -- and the same circuit.
      pub run_graph-IsSame :
          (stream_tokens : List Message → Completion) (state : ResponseState) (s : S)
          (rows : List AuditRow) (q : Q) (p : P)
          → IsSame
              (run_graph sink lower recall transaction stream_tokens state s rows q)
              (run_graph other lower recall transaction stream_tokens state s rows p)
      unfolding run_graph
      run_graph-IsSame stream_tokens state s rows q p =
          let a = retrieval_node sink lower recall transaction state s rows q in
          let b = retrieval_node other lower recall transaction state s rows p in
          let same = retrieval_node-IsSame state s rows q p in
          follow-IsSame stream_tokens a.result b.result a b same.result same
