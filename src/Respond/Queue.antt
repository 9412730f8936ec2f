-- ===== src/Respond/Queue.antt =====
-- graphs/response_graph.py: `stream_response`, which runs the graph in a task of its own and hands its
-- events on through an unbounded queue. A put of the task and a get of the consumer are steps.
use conversational_memory_sy.Prelude.{
  ◌≡◌, ◌≢◌, ◌⊎◌, inl, inr, refl, sym, ap, ◌∙◌, subst, Bool, true, false, some, List, [], ◌∷◌, ◌++◌,
  map, append_assoc, append-nil,
}
use conversational_memory_sy.Context.Text.{Text}
use conversational_memory_sy.Store.Audit.{AuditRow}
use conversational_memory_sy.Store.Audit.Reads.{Transaction}
use conversational_memory_sy.Respond.{
  Message, ResponseState, Event, Sink, Completion, Recall, Run, ResponseMetadata, build_prompt,
  recalled,
}
use conversational_memory_sy.Respond.Graph.{run_graph}
use conversational_memory_sy.Respond.Transcript.{
  emit_all, transcript, final_state, run_graph-replies,
}
use conversational_memory_sy.Respond.Recollection.{Memory, recollection}
use conversational_memory_sy.Respond.Parts.{Composes, Answers}

-- An element of the queue.
pub data QueueItem : Type 0 where
  event : Event → QueueItem
  end_of_stream : QueueItem

-- `queue.put(event)`
abbrev pub put : Sink (List QueueItem)
put = some (λ e queue. (queue ++ event e ∷ [], false))

-- the events up to the sentinel
unfoldable pub drain : List QueueItem → List Event
drain [] = []
drain (event e ∷ items) = e ∷ drain items
drain (end_of_stream ∷ items) = []

-- How far the task and the consumer have come with the items that the task puts: those that it is
-- still to put, the queue, what was yielded, and whether the consumer still waits.
pub data Streaming (items : List QueueItem)
    : (todo queue : List QueueItem) → (yielded : List Event) → (waits : Bool) → Type 0 where
  opened : Streaming items items [] [] true
  puts :
      {item : QueueItem} {todo queue : List QueueItem} {yielded : List Event} {waits : Bool}
      → Streaming items (item ∷ todo) queue yielded waits
      → Streaming items todo (queue ++ item ∷ []) yielded waits
  gets :
      {e : Event} {todo queue : List QueueItem} {yielded : List Event}
      → Streaming items todo (event e ∷ queue) yielded true
      → Streaming items todo queue (yielded ++ e ∷ []) true
  released :
      {todo queue : List QueueItem} {yielded : List Event}
      → Streaming items todo (end_of_stream ∷ queue) yielded true
      → Streaming items todo queue yielded false

module _ (lower : Text → Text) {S C R V : Type 0} (recall : Recall S C R V)
    (transaction : Transaction) (stream_tokens : List Message → Completion) where
  -- what the task of `stream_response` puts, its sentinel included, and how it ends
  unfoldable pub stream_response :
      ResponseState → S → List AuditRow → Run S (List QueueItem) ResponseState
  unfolding run_graph
  stream_response state redis audit_log =
      let run = run_graph put lower recall transaction stream_tokens state redis audit_log [] in
      record run { sink = run.sink ++ end_of_stream ∷ [] }

-- what is yielded and what is still to be, of a consumer that waits, or of one that is released
abbrev Seen : (items todo queue : List QueueItem) → List Event → Bool → Type 0
Seen items todo queue yielded true = yielded ++ drain (queue ++ todo) ≡ drain items
Seen items todo queue yielded false = yielded ≡ drain items

Streaming-Seen :
    {items todo queue : List QueueItem} {yielded : List Event} {waits : Bool}
    → Streaming items todo queue yielded waits
    → Seen items todo queue yielded waits
unfolding drain
Streaming-Seen opened = refl
Streaming-Seen
      (puts {item = item} {todo = todo} {queue = queue} {yielded = ys} {waits = true} run) =
    ap (λ q. ys ++ drain q) (append_assoc queue (item ∷ []) todo) ∙ Streaming-Seen run
Streaming-Seen (puts {waits = false} run) = Streaming-Seen run
Streaming-Seen (gets {e = e} {todo = todo} {queue = queue} {yielded = ys} run) =
    append_assoc ys (e ∷ []) (drain (queue ++ todo)) ∙ Streaming-Seen run
Streaming-Seen (released {yielded = ys} run) = sym (append-nil ys) ∙ Streaming-Seen run

-- However the puts and the gets interleave, a consumer that is released has yielded exactly the
-- events before the sentinel, in the order in which they were put.
pub Streaming-drains :
    {items todo queue : List QueueItem} {yielded : List Event}
    → Streaming items todo queue yielded false
    → yielded ≡ drain items
Streaming-drains run = Streaming-Seen run

abbrev Ends : List QueueItem → Type 0
Ends [] = ⊥
Ends (event e ∷ items) = Ends items
Ends (end_of_stream ∷ items) = Unit

Ends-snoc : (items : List QueueItem) → Ends (items ++ end_of_stream ∷ [])
Ends-snoc [] = tt
Ends-snoc (event e ∷ items) = Ends-snoc items
Ends-snoc (end_of_stream ∷ items) = tt

Streaming-Ends :
    {items todo queue : List QueueItem} {yielded : List Event}
    → Ends items
    → Streaming items todo queue yielded true
    → Ends (queue ++ todo)
Streaming-Ends h opened = h
Streaming-Ends h (puts {item = item} {todo = todo} {queue = queue} run) =
    subst Ends (sym (append_assoc queue (item ∷ []) todo)) (Streaming-Ends h run)
Streaming-Ends h (gets run) = Streaming-Ends h run

-- A consumer that waits for a stream that ends with the sentinel is never stuck: the task still
-- has an item to put, or there is one to get.
pub Streaming-goes_on :
    (items : List QueueItem) {todo queue : List QueueItem} {yielded : List Event}
    → Streaming (items ++ end_of_stream ∷ []) todo queue yielded true
    → (todo ≢ []) ⊎ (queue ≢ [])
Streaming-goes_on items {todo = []} {queue = []} run = absurd (Streaming-Ends (Ends-snoc items) run)
Streaming-goes_on items {todo = item ∷ todo} run = inl (λ e. cc)
Streaming-goes_on items {todo = []} {queue = item ∷ queue} run = inr (λ e. cc)

emit_all-put :
    (events : List Event) (queue : List QueueItem)
    → emit_all put events queue ≡ queue ++ map event events
emit_all-put [] queue = sym (append-nil queue)
emit_all-put (e ∷ events) queue =
    emit_all-put events (queue ++ event e ∷ [])
    ∙ append_assoc queue (event e ∷ []) (map event events)

drain-sent : (events : List Event) → drain (map event events ++ end_of_stream ∷ []) ≡ events
unfolding drain
drain-sent [] = refl
drain-sent (e ∷ events) = ap (λ es. e ∷ es) (drain-sent events)

module _ (lower : Text → Text) {S C R V : Type 0} (recall : Recall S C R V)
    (transaction : Transaction) (stream_tokens : List Message → Completion) where
  abbrev pub IsStreamed :
      Memory → ResponseState → List Event → Run S (List QueueItem) ResponseState → Type 0
  IsStreamed memory state yielded run =
      (m : ResponseMetadata) × (block : Text) × (memory ≡ some (m, block))
      × (let shown = recalled m block state in
          let c = stream_tokens (build_prompt lower shown) in
          (yielded ≡ transcript m c) × (run.result ≡ final_state lower c shown))

  -- what the task puts before the sentinel
  pub stream_response-drained :
      (state : ResponseState) (s : S) (rows : List AuditRow)
      → Composes recall
      → Answers recall
      → let run = stream_response lower recall transaction stream_tokens state s rows in
        IsStreamed (recollection recall lower state s) state (drain run.sink) run
  unfolding stream_response
  stream_response-drained state s rows k a =
      let (m, block, recalls, (sent, result)) =
        run_graph-replies put lower stream_tokens recall transaction state s rows [] k a in
      let c = stream_tokens (build_prompt lower (recalled m block state)) in
      let items = sent ∙ emit_all-put (transcript m c) [] in
      (
        m,
        block,
        recalls,
        (ap (λ q. drain (q ++ end_of_stream ∷ [])) items ∙ drain-sent (transcript m c), result),
      )

  -- With a composer that returns and a guarded search that ends in a result or in
  -- `RetrievalUnavailable`: however the task of the graph and the consumer interleave, a consumer
  -- that is released has yielded what was recalled first, then every token of the model in order,
  -- then, if the model finished, the length of the reply, and the final state has the joined
  -- tokens as its reply.
  pub stream_response-yields :
      (state : ResponseState) (s : S) (rows : List AuditRow)
      → Composes recall
      → Answers recall
      → {todo queue : List QueueItem} {yielded : List Event}
      → Streaming
          (stream_response lower recall transaction stream_tokens state s rows).sink
          todo
          queue
          yielded
          false
      → IsStreamed
          (recollection recall lower state s)
          state
          yielded
          (stream_response lower recall transaction stream_tokens state s rows)
  stream_response-yields state s rows k a run =
      let (m, block, recalls, (sent, result)) = stream_response-drained state s rows k a in
      (m, block, recalls, (Streaming-drains run ∙ sent, result))
