-- ===== src/Respond/Degraded.antt =====
-- graphs/response_graph.py: a turn without memory.
use conversational_memory_sy.Prelude.{
  ◌≡◌, refl, sym, ap, ◌∙◌, subst, Bool, true, false, Option, none, some, List, [], ◌∷◌, map,
}
use conversational_memory_sy.Context.Text.{Text, codes}
use conversational_memory_sy.Context.Composer.{ComposedContext}
use conversational_memory_sy.Breaker.{Circuit}
use conversational_memory_sy.Retrieve.Guarded.{
  Guarded, found, unavailable, interrupted, crashed, Reason,
}
use conversational_memory_sy.Store.Attributes.{strip}
use conversational_memory_sy.Store.Audit.{AuditRow}
use conversational_memory_sy.Store.Audit.Reads.{Transaction}
use conversational_memory_sy.Respond.{
  Message, ResponseState, Sink, Completion, Recall, system_of, latest_user_message, build_prompt,
  prompted, system_prompt, identity_of, recalled, without_memory,
}
use conversational_memory_sy.Respond.Graph.{
  is_blank, asked, searched, audited, retrieval_node, run_graph,
}
use conversational_memory_sy.Respond.Ends.{some_inj, run_graph-Came}

module _ {Q : Type 0} (sink : Sink Q) (lower : Text → Text) {S C R V : Type 0}
    (recall : Recall S C R V) (transaction : Transaction) where
  -- the search that a turn asks for, and what it comes to
  abbrev pub answer_to : ResponseState → S → Guarded C R
  answer_to state s =
      (recall.guarded_hybrid_search
        (record { text = latest_user_message lower state.messages; identity = identity_of state })
        s).1

  audited-degraded :
      (c : Option (ComposedContext V)) (state shown : ResponseState) (s : S) (rows : List AuditRow)
      (q : Q)
      → (audited sink lower recall transaction c state s rows q).result ≡ some shown
      → shown.degraded ≡ false
  audited-degraded none state shown s rows q e = cc
  audited-degraded (some c) state shown s rows q e =
      subst (λ st. st.degraded ≡ false) (some_inj _ _ e) refl

  -- what a degraded retrieval leaves
  abbrev IsDegraded :
      Guarded C R → ResponseState → ResponseState → List AuditRow → List AuditRow → Type 0
  IsDegraded answer state shown rows final =
      (reason : Reason) × (circuit : Circuit) × (answer ≡ unavailable reason circuit)
      × (shown ≡ recalled (without_memory reason) [] state)
      × (final ≡ rows)

  searched-degraded :
      (answer : Guarded C R) (state shown : ResponseState) (s : S) (rows : List AuditRow) (q : Q)
      → (searched sink lower recall transaction answer state s rows q).result ≡ some shown
      → shown.degraded ≡ true
      → IsDegraded answer state shown rows
          (searched sink lower recall transaction answer state s rows q).audit_log
  searched-degraded (found result) state shown s rows q e d =
      cc (audited-degraded (recall.compose result.candidates) state shown s rows q e)
  searched-degraded (unavailable reason circuit) state shown s rows q e d =
      (reason, circuit, refl, sym (some_inj _ _ e), refl)
  searched-degraded interrupted state shown s rows q e d = cc
  searched-degraded crashed state shown s rows q e d = cc

  asked-degraded :
      (blank : Bool) (state shown : ResponseState) (s : S) (rows : List AuditRow) (q : Q)
      → let query = latest_user_message lower state.messages in
        (asked sink lower recall transaction blank query state s rows q).result ≡ some shown
        → shown.degraded ≡ true
        → (blank ≡ false)
          × IsDegraded
              (answer_to state s)
              state
              shown
              rows
              (asked sink lower recall transaction blank
                (latest_user_message lower state.messages)
                state
                s
                rows
                q).audit_log
  asked-degraded true state shown s rows q e d =
      cc (subst (λ st. st.degraded ≡ false) (some_inj _ _ e) refl)
  asked-degraded false state shown s rows q e d =
      let (s', answer) =
        recall.guarded_hybrid_search
          (record { text = latest_user_message lower state.messages; identity = identity_of state })
          s in
      (refl, searched-degraded answer state shown s' rows q e d)

  module _ (stream_tokens : List Message → Completion) where
    -- A turn that ends degraded had a question that is not blank, and its search was unavailable:
    -- the state names the reason, no memory is listed, the prompt is the bare system prompt and
    -- the conversation, and no `read` is audited.
    pub run_graph-degraded :
        (state st : ResponseState) (s : S) (rows : List AuditRow) (q : Q)
        → (run_graph sink lower recall transaction stream_tokens state s rows q).result ≡ some st
        → st.degraded ≡ true
        → (is_blank (latest_user_message lower state.messages) ≡ false)
          × ((reason : Reason) × (circuit : Circuit) × (answer_to state s
                ≡ unavailable reason circuit)
              × (st.degraded_reason ≡ some reason))
          × (st.memory_ids ≡ [])
          × (st.prompt
              ≡ record { role = some (codes "system"); content = some system_prompt }
                ∷ map (prompted lower) state.messages)
          × ((run_graph sink lower recall transaction stream_tokens state s rows q).audit_log
              ≡ rows)
    unfolding retrieval_node build_prompt strip system_of
    run_graph-degraded state st s rows q e d =
        let query = latest_user_message lower state.messages in
        let (shown, retrieved, final, audit) =
          run_graph-Came sink lower stream_tokens recall transaction state st s rows q e in
        let d' = ap (λ t. t.degraded) (sym final) ∙ d in
        let (asks, (reason, circuit, answer, left, same)) =
          asked-degraded (is_blank query) state shown s rows q retrieved d' in
        (
          asks,
          (
            reason,
            circuit,
            answer,
            ap (λ t. t.degraded_reason) final ∙ ap (λ t. t.degraded_reason) left,
          ),
          ap (λ t. t.memory_ids) final ∙ ap (λ t. t.memory_ids) left,
          ap (λ t. t.prompt) final ∙ ap (λ t. build_prompt lower t) left,
          audit ∙ same,
        )
