-- ===== src/Respond/Surface.antt =====
-- graphs/response_graph.py: what a turn shows, reports and audits with any guarded search and composer.
use conversational_memory_sy.Prelude.{
  ℕ, ◌+◌, ◌≡◌, refl, sym, ap, ◌∙◌, subst, Bool, true, false, some, List, [], ◌∷◌, map, arith,
  if◌then◌else◌,
}
use conversational_memory_sy.Context.Text.{Text, codes}
use conversational_memory_sy.Context.Composer.{ComposedContext, RankedCandidate, render_block}
use conversational_memory_sy.Retrieve.Guarded.{Guarded, found, unavailable, interrupted, crashed}
use conversational_memory_sy.Retrieve.{HybridResult}
use conversational_memory_sy.Store.Attributes.{strip}
use conversational_memory_sy.Store.Audit.{AuditRow, read, rows_of}
use conversational_memory_sy.Store.Audit.Once.{among}
use conversational_memory_sy.Store.Audit.Reads.{committed, record_read_audit, reads_once}
use conversational_memory_sy.Respond.{
  Message, ResponseState, Sink, Completion, Recall, system_of, latest_user_message, build_prompt,
  prompted, identity_of,
}
use conversational_memory_sy.Respond.Graph.{
  is_blank, asked, searched, audited, retrieval_node, run_graph,
}
use conversational_memory_sy.Respond.Parts.{IsRendered}
use conversational_memory_sy.Respond.Degraded.{answer_to}
use conversational_memory_sy.Respond.Ends.{some_inj, run_graph-Came}

-- What was recalled and audited: the block is that of the memories listed, and each of these, and no
-- other, has one more `read` row.
abbrev IsSurfaced : {V : Type 0} → Text → List ℕ → List (RankedCandidate V) → Type 0
IsSurfaced block ids included =
    (block ≡ render_block included) × (ids ≡ map (λ item. item.memory_id) included)

abbrev pub ReadOnce : List ℕ → List AuditRow → List AuditRow → Type 0
ReadOnce ids rows final =
    (m : ℕ)
    → rows_of read (some m) final ≡ rows_of read (some m) rows + (if among m ids then 1 else 0)

read_none : (rows : List AuditRow) → ReadOnce [] rows rows
read_none rows m = omega arith

-- `Made cs c` says what the composer makes of the candidates `cs`.
module _ {C R V : Type 0} (Made : List C → ComposedContext V → Type 0) where
  -- where the memories come from: from the composer, if the search found something to compose
  abbrev pub IsRecalled : (blank : Bool) → Guarded C R → List (RankedCandidate V) → Type 0
  IsRecalled true answer included = included ≡ []
  IsRecalled false (found result) included =
      (c : ComposedContext V) × Made result.candidates c × (c.included ≡ included)
  IsRecalled false (unavailable reason circuit) included = included ≡ []
  IsRecalled false interrupted included = ⊥
  IsRecalled false crashed included = ⊥

module _ {Q : Type 0} (sink : Sink Q) (lower : Text → Text) {S C R V : Type 0}
    (recall : Recall S C R V) (Made : List C → ComposedContext V → Type 0)
    (makes : (cs : List C) → (c : ComposedContext V) × (recall.compose cs ≡ some c) × Made cs c)
    (renders : (cs : List C) (c : ComposedContext V) → Made cs c → IsRendered c) where
  abbrev Retrieved :
      Bool → Guarded C R → ResponseState → ResponseState → List AuditRow → List AuditRow → Type 0
  Retrieved blank answer state shown rows final =
      (included : List (RankedCandidate V)) × IsSurfaced shown.memory_block shown.memory_ids
        included
      × IsRecalled Made blank answer included
      × ReadOnce shown.memory_ids rows final
      × (shown.messages ≡ state.messages)

  found-Retrieved :
      (result : HybridResult C R) (state shown : ResponseState) (s : S) (rows : List AuditRow)
      (q : Q)
      → (audited sink lower recall
          (committed true)
          (recall.compose result.candidates)
          state
          s
          rows
          q).result
        ≡ some shown
      → Retrieved false
          (found result)
          state
          shown
          rows
          (audited sink lower recall
            (committed true)
            (recall.compose result.candidates)
            state
            s
            rows
            q).audit_log
  found-Retrieved result state shown s rows q =
      let (c, composed, made) = makes result.candidates in
      subst
        (λ o.
          (audited sink lower recall (committed true) o state s rows q).result ≡ some shown
          → Retrieved false (found result) state shown rows
              (audited sink lower recall (committed true) o state s rows q).audit_log)
        (sym composed)
        (λ e.
          let final =
            (record_read_audit (identity_of state) c.memory_ids (committed true) rows).0 in
          subst (λ st. Retrieved false (found result) state st rows final) (some_inj _ _ e)
            (
              c.included,
              renders result.candidates c made,
              (c, made, refl),
              λ m. reads_once (identity_of state) m c.memory_ids rows,
              refl,
            ))

  searched-Retrieved :
      (answer : Guarded C R) (state shown : ResponseState) (s : S) (rows : List AuditRow) (q : Q)
      → (searched sink lower recall (committed true) answer state s rows q).result ≡ some shown
      → Retrieved false answer state shown rows
          (searched sink lower recall (committed true) answer state s rows q).audit_log
  unfolding render_block
  searched-Retrieved (found result) state shown s rows q e =
      found-Retrieved result state shown s rows q e
  searched-Retrieved (unavailable reason circuit) state shown s rows q e =
      subst (λ st. Retrieved false (unavailable reason circuit) state st rows rows) (some_inj _ _ e)
        ([], (refl, refl), refl, read_none rows, refl)
  searched-Retrieved interrupted state shown s rows q e = cc
  searched-Retrieved crashed state shown s rows q e = cc

  asked-Retrieved :
      (blank : Bool) (query : Text) (state shown : ResponseState) (s : S) (rows : List AuditRow)
      (q : Q)
      → (asked sink lower recall (committed true) blank query state s rows q).result ≡ some shown
      → Retrieved blank
          (recall.guarded_hybrid_search (record { text = query; identity = identity_of state }) s).1
          state
          shown
          rows
          (asked sink lower recall (committed true) blank query state s rows q).audit_log
  unfolding render_block
  asked-Retrieved true query state shown s rows q e =
      let answer =
        (recall.guarded_hybrid_search (record { text = query; identity = identity_of state })
          s).1 in
      subst (λ st. Retrieved true answer state st rows rows) (some_inj _ _ e)
        ([], (refl, refl), refl, read_none rows, refl)
  asked-Retrieved false query state shown s rows q e =
      let (s', answer) =
        recall.guarded_hybrid_search (record { text = query; identity = identity_of state }) s in
      searched-Retrieved answer state shown s' rows q e

  -- what a turn that ended has shown its model, has reported and has audited
  abbrev pub IsShown : (state st : ResponseState) (s : S) (rows final : List AuditRow) → Type 0
  IsShown state st s rows final =
      (included : List (RankedCandidate V)) × IsRecalled Made
        (is_blank (latest_user_message lower state.messages))
        (answer_to sink lower recall (committed true) state s) included
      × (st.memory_ids ≡ map (λ item. item.memory_id) included)
      × (st.prompt
          ≡ record {
            role = some (codes "system");
            content = some (system_of (strip (render_block included)));
          }
            ∷ map (prompted lower) state.messages)
      × ReadOnce st.memory_ids rows final

  pub run_graph-IsShown :
      (stream_tokens : List Message → Completion) (state st : ResponseState) (s : S)
      (rows : List AuditRow) (q : Q)
      → (run_graph sink lower recall (committed true) stream_tokens state s rows q).result ≡ some st
      → IsShown state st s rows
          (run_graph sink lower recall (committed true) stream_tokens state s rows q).audit_log
  unfolding retrieval_node build_prompt
  run_graph-IsShown stream_tokens state st s rows q e =
      let query = latest_user_message lower state.messages in
      let (shown, retrieved, final, audit) =
        run_graph-Came sink lower stream_tokens recall (committed true) state st s rows q e in
      let (included, surfaced, origin, once, talk) =
        asked-Retrieved (is_blank query) query state shown s rows q retrieved in
      let listed = ap (λ t. t.memory_ids) final in
      (
        included,
        origin,
        listed ∙ surfaced.1,
        ap (λ t. t.prompt) final ∙ rw (surfaced.0, talk) refl,
        λ m. rw (listed, audit) (once m),
      )
