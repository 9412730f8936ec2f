-- ===== src/Respond/Ends.antt =====
-- graphs/response_graph.py: where the final state of a run comes from.
use conversational_memory_sy.Prelude.{◌≡◌, refl, subst, Option, none, some, List, []}
use conversational_memory_sy.Context.Text.{Text}
use conversational_memory_sy.Store.Audit.{AuditRow}
use conversational_memory_sy.Store.Audit.Reads.{Transaction}
use conversational_memory_sy.Respond.{
  Message, ResponseState, Sink, Completion, Recall, Run, build_prompt,
}
use conversational_memory_sy.Respond.Graph.{
  run_node, retrieval_routes, route_after_retrieval, replied, stream_parts, Node, respond,
  respond_node, follow, retrieval_node, run_graph,
}

pub some_inj : {A : Type 0} (a b : A) → some a ≡ some b → a ≡ b
some_inj a b e = cc

module _ {Q : Type 0} (sink : Sink Q) (lower : Text → Text)
    (stream_tokens : List Message → Completion) where
  -- A final state is the recalled one, with the reply and with the prompt that was built from it.
  abbrev pub IsFinal : ResponseState → ResponseState → Type 0
  IsFinal shown st = st ≡ record shown { reply = st.reply; prompt = build_prompt lower shown }

  replied-IsFinal :
      (shown st : ResponseState) (q : Q) (parts : Option (List Text))
      → (replied sink (build_prompt lower shown) shown (q, parts)).1 ≡ some st
      → IsFinal shown st
  replied-IsFinal shown st q none e = cc
  replied-IsFinal shown st q (some parts) e = subst (IsFinal shown) (some_inj _ _ e) refl

  module _ {S C R V : Type 0} (recall : Recall S C R V) (transaction : Transaction) where
    run_node-IsFinal :
        (n : Node) (shown st : ResponseState) (run : Run S Q ResponseState)
        → (run_node sink lower recall transaction n stream_tokens shown run).result ≡ some st
        → IsFinal shown st
    unfolding respond_node
    run_node-IsFinal respond shown st run e =
        let (q, parts) = stream_parts sink (stream_tokens (build_prompt lower shown)) [] run.sink in
        replied-IsFinal shown st q parts e

    run_node-audit :
        (n : Node) (shown : ResponseState) (run : Run S Q ResponseState)
        → (run_node sink lower recall transaction n stream_tokens shown run).audit_log
          ≡ run.audit_log
    run_node-audit respond shown run = refl

    -- what the graph ends with, from what the retrieval node ended with
    abbrev pub Came : Run S Q ResponseState → ResponseState → List AuditRow → Type 0
    Came run st rows' =
        (shown : ResponseState) × (run.result ≡ some shown)
        × IsFinal shown st
        × (rows' ≡ run.audit_log)

    follow-Came :
        (o : Option ResponseState) (st : ResponseState) (run : Run S Q ResponseState)
        → run.result ≡ o
        → (follow sink lower recall transaction stream_tokens o run).result ≡ some st
        → Came run st (follow sink lower recall transaction stream_tokens o run).audit_log
    follow-Came none st run h e = cc
    follow-Came (some shown) st run h e =
        let n = retrieval_routes (route_after_retrieval shown) in
        (shown, h, run_node-IsFinal n shown st run e, run_node-audit n shown run)

    -- A run that ends with a state got it from the retrieval node: the state has the reply and the
    -- prompt besides, and the trail is the retrieval node's.
    pub run_graph-Came :
        (state st : ResponseState) (s : S) (rows : List AuditRow) (q : Q)
        → (run_graph sink lower recall transaction stream_tokens state s rows q).result ≡ some st
        → Came
            (retrieval_node sink lower recall transaction state s rows q)
            st
            (run_graph sink lower recall transaction stream_tokens state s rows q).audit_log
    unfolding run_graph
    run_graph-Came state st s rows q e =
        let run = retrieval_node sink lower recall transaction state s rows q in
        follow-Came run.result st run refl e
