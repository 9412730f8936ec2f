-- ===== src/Respond/Transcript.antt =====
-- graphs/response_graph.py: the reply of a turn, and the events that it sends.
use conversational_memory_sy.Prelude.{
  ◌≡◌, refl, sym, ap, ◌∙◌, Bool, true, false, Option, none, some, List, [], ◌∷◌, ◌++◌, map,
  append_assoc, append-nil, length, if◌then◌else◌, subst,
}
use conversational_memory_sy.Context.Text.{Text}
use conversational_memory_sy.Retrieve.Guarded.{Guarded, found, unavailable, interrupted, crashed}
use conversational_memory_sy.Store.Audit.{AuditRow}
use conversational_memory_sy.Store.Audit.Reads.{Transaction, record_read_audit}
use conversational_memory_sy.Respond.{
  Message, ResponseState, ResponseMetadata, to_event, Event, token, done, Sink, emit, Completion,
  ended, raised, yields, RetrievalQuery, Recall, Run, latest_user_message, build_prompt,
  identity_of, recalled, nothing_recalled, without_memory, with_memories, joined,
}
use conversational_memory_sy.Respond.Graph.{
  is_blank, announced, asked, run_node, retrieval_routes, route_after_retrieval, stream_parts,
  replied, Node, respond, respond_node, searched, audited, follow, retrieval_node, run_graph,
}
use conversational_memory_sy.Respond.Recollection.{
  Memory, of_composed, of_answer, of_query, recollection,
}
use conversational_memory_sy.Respond.Parts.{Composes, Answers}
use conversational_memory_sy.Retrieve.Guarded.Answers.{IsAnswer}

-- a sink that is given events one after the other
abbrev pub emit_all : {Q : Type 0} → Sink Q → List Event → Q → Q
emit_all sink [] q = q
emit_all sink (event ∷ events) q = emit_all sink events (emit sink event q)

emit_all-append :
    {Q : Type 0} (sink : Sink Q) (xs ys : List Event) (q : Q)
    → emit_all sink (xs ++ ys) q ≡ emit_all sink ys (emit_all sink xs q)
emit_all-append sink [] ys q = refl
emit_all-append sink (x ∷ xs) ys q = emit_all-append sink xs ys (emit sink x q)

-- What a completion says, and whether it comes to its end.
abbrev pub texts : Completion → List Text
texts ended = []
texts raised = []
texts (yields text rest) = text ∷ texts rest

abbrev pub closes : Completion → Bool
closes ended = true
closes raised = false
closes (yields text rest) = closes rest

abbrev pub closing : Completion → List Event
closing c = if closes c then done (length (joined (texts c))) ∷ [] else []

-- What a turn is to send: what was recalled, the tokens, and the end if there is one.
abbrev pub transcript : ResponseMetadata → Completion → List Event
transcript m c = to_event m ∷ (map token (texts c) ++ closing c)

abbrev pub final_state : (lower : Text → Text) → Completion → ResponseState → Option ResponseState
final_state lower c shown =
    if closes c
    then some (record shown { reply = joined (texts c); prompt = build_prompt lower shown })
    else none

stream_parts-result :
    {Q : Type 0} (sink : Sink Q) (c : Completion) (parts : List Text) (q : Q)
    → (stream_parts sink c parts q).1 ≡ (if closes c then some (parts ++ texts c) else none)
unfolding stream_parts
stream_parts-result sink ended parts q = ap some (sym (append-nil parts))
stream_parts-result sink raised parts q = refl
stream_parts-result sink (yields text rest) parts q =
    stream_parts-result sink rest (parts ++ text ∷ []) (emit sink (token text) q)
    ∙ ap (λ xs. if closes rest then some xs else none) (append_assoc parts (text ∷ []) (texts rest))

stream_parts-events :
    {Q : Type 0} (sink : Sink Q) (c : Completion) (parts : List Text) (q : Q)
    → (stream_parts sink c parts q).0 ≡ emit_all sink (map token (texts c)) q
unfolding stream_parts
stream_parts-events sink ended parts q = refl
stream_parts-events sink raised parts q = refl
stream_parts-events sink (yields text rest) parts q =
    stream_parts-events sink rest (parts ++ text ∷ []) (emit sink (token text) q)

module _ {Q : Type 0} (sink : Sink Q) (lower : Text → Text)
    (stream_tokens : List Message → Completion) where
  abbrev RepliesWith : Bool → List Text → ResponseState → Q → Option (List Text) → Type 0
  RepliesWith whole xs shown q parts =
      let (q', result) = replied sink (build_prompt lower shown) shown (q, parts) in
      (q' ≡ emit_all sink (if whole then done (length (joined xs)) ∷ [] else []) q)
      × (result ≡ (
          if whole
          then some (record shown { reply = joined xs; prompt = build_prompt lower shown })
          else none))

  replied-final :
      (whole : Bool) (xs : List Text) (shown : ResponseState) (q : Q) (parts : Option (List Text))
      → parts ≡ (if whole then some xs else none)
      → RepliesWith whole xs shown q parts
  replied-final true xs shown q parts e = subst (RepliesWith true xs shown q) (sym e) (refl, refl)
  replied-final false xs shown q parts e = subst (RepliesWith false xs shown q) (sym e) (refl, refl)

  respond_node-final :
      (shown : ResponseState) (q : Q)
      → let c = stream_tokens (build_prompt lower shown) in
        let (q', result) = respond_node sink lower stream_tokens shown q in
        (q' ≡ emit_all sink (map token (texts c) ++ closing c) q)
        × (result ≡ final_state lower c shown)
  unfolding respond_node
  respond_node-final shown q =
      let c = stream_tokens (build_prompt lower shown) in
      let (q', parts) = stream_parts sink c [] q in
      let (sent, result) =
        replied-final (closes c) (texts c) shown q' parts (stream_parts-result sink c [] q) in
      (
        sent
            ∙ (ap (emit_all sink (closing c)) (stream_parts-events sink c [] q)
                ∙ sym (emit_all-append sink (map token (texts c)) (closing c) q)),
        result,
      )

  module _ {S C R V : Type 0} (recall : Recall S C R V) (transaction : Transaction) where
    -- a retrieval node that has come to its end with what was recalled
    abbrev pub IsAnnounced : Memory → ResponseState → Q → Run S Q ResponseState → Type 0
    IsAnnounced memory state q run =
        (m : ResponseMetadata) × (block : Text) × (s : S) × (rows : List AuditRow) × (memory
          ≡ some (m, block))
        × (run ≡ announced sink m block state s rows q)

    searched-IsAnnounced :
        (answer : Guarded C R) (state : ResponseState) (s : S) (rows : List AuditRow) (q : Q)
        → Composes recall
        → IsAnswer answer
        → IsAnnounced
            (of_answer recall answer)
            state
            q
            (searched sink lower recall transaction answer state s rows q)
    searched-IsAnnounced (found result) state s rows q k a =
        let (c, composed, rendered) = k.composes result.candidates in
        (
          with_memories c,
          c.block,
          s,
          (record_read_audit (identity_of state) c.memory_ids transaction rows).0,
          ap of_composed composed,
          ap (λ o. audited sink lower recall transaction o state s rows q) composed,
        )
    searched-IsAnnounced (unavailable reason circuit) state s rows q k a =
        (without_memory reason, [], s, rows, refl, refl)
    searched-IsAnnounced interrupted state s rows q k a = absurd (a.0 refl)
    searched-IsAnnounced crashed state s rows q k a = absurd (a.1 refl)

    asked-IsAnnounced :
        (blank : Bool) (query : Text) (state : ResponseState) (s : S) (rows : List AuditRow) (q : Q)
        → Composes recall
        → Answers recall
        → IsAnnounced
            (of_query recall blank (record { text = query; identity = identity_of state }) s)
            state
            q
            (asked sink lower recall transaction blank query state s rows q)
    asked-IsAnnounced true query state s rows q k a = (nothing_recalled, [], s, rows, refl, refl)
    asked-IsAnnounced false query state s rows q k a =
        let request : RetrievalQuery = record { text = query; identity = identity_of state } in
        let (s', answer) = recall.guarded_hybrid_search request s in
        searched-IsAnnounced answer state s' rows q k (a.answers request s)

    -- What a turn comes to: the sink is given the transcript of what was recalled and of what the
    -- model said, and the state is what was recalled with the reply, if the model finished.
    abbrev pub IsReplied : Memory → ResponseState → Q → Run S Q ResponseState → Type 0
    IsReplied memory state q run =
        (m : ResponseMetadata) × (block : Text) × (memory ≡ some (m, block))
        × (let shown = recalled m block state in
            let c = stream_tokens (build_prompt lower shown) in
            (run.sink ≡ emit_all sink (transcript m c) q)
            × (run.result ≡ final_state lower c shown))

    run_node-IsReplied :
        (n : Node) (memory : Memory) (m : ResponseMetadata) (block : Text) (state : ResponseState)
        (q : Q) (run : Run S Q ResponseState)
        → memory ≡ some (m, block)
        → run.sink ≡ emit sink (to_event m) q
        → IsReplied memory state q
            (run_node sink lower recall transaction n stream_tokens (recalled m block state) run)
    run_node-IsReplied respond memory m block state q run f e =
        let shown = recalled m block state in
        let c = stream_tokens (build_prompt lower shown) in
        let (sent, result) = respond_node-final shown run.sink in
        (m, block, f, (sent ∙ ap (emit_all sink (map token (texts c) ++ closing c)) e, result))

    follow-IsReplied :
        (memory : Memory) (state : ResponseState) (q : Q) (run : Run S Q ResponseState)
        → IsAnnounced memory state q run
        → IsReplied memory state q
            (follow sink lower recall transaction stream_tokens run.result run)
    follow-IsReplied memory state q run (m, block, s, rows, f, e) =
        let given = announced sink m block state s rows q in
        subst
          (λ r.
            IsReplied memory state q
              (follow sink lower recall transaction stream_tokens r.result r))
          (sym e)
          (run_node-IsReplied (retrieval_routes (route_after_retrieval (recalled m block state)))
            memory m block state q given f refl)

    -- With a composer that returns and a guarded search that ends in a result or in
    -- `RetrievalUnavailable`, every turn whose model finishes ends with the model's whole text as
    -- its reply, whether there are memories or not; only a model that raises leaves it without.
    -- Whatever the consumer does, it is given what was recalled, then each token, then, if the
    -- model finished, the length of the reply. What was recalled is nothing for a blank question,
    -- else what the composer makes of what the search found, or the reason why the search was
    -- unavailable.
    pub run_graph-replies :
        (state : ResponseState) (s : S) (rows : List AuditRow) (q : Q)
        → Composes recall
        → Answers recall
        → IsReplied
            (recollection recall lower state s)
            state
            q
            (run_graph sink lower recall transaction stream_tokens state s rows q)
    unfolding run_graph retrieval_node recollection
    run_graph-replies state s rows q k a =
        let query = latest_user_message lower state.messages in
        follow-IsReplied (recollection recall lower state s) state q
          (retrieval_node sink lower recall transaction state s rows q)
          (asked-IsAnnounced (is_blank query) query state s rows q k a)
