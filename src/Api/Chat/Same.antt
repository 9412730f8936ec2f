-- ===== src/Api/Chat/Same.antt =====
-- api/chat.py: the two transports answer alike.
use conversational_memory_sy.Prelude.{
  ℕ, ◌≡◌, refl, sym, ◌∙◌, Bool, true, false, Option, none, some, List, [], ◌∷◌, ◌++◌, map,
  if◌then◌else◌,
}
use conversational_memory_sy.Context.Text.{Text}
use conversational_memory_sy.Store.Audit.{AuditRow}
use conversational_memory_sy.Store.Audit.Reads.{Transaction}
use conversational_memory_sy.Capture.Worker.{CaptureWorker}
use conversational_memory_sy.Respond.{
  Message, ResponseState, ResponseMetadata, to_event, Event, token, done, Completion, Recall,
  new_state, joined, build_prompt, recalled,
}
use conversational_memory_sy.Respond.Graph.{run_graph}
use conversational_memory_sy.Respond.Parts.{Composes, Answers}
use conversational_memory_sy.Respond.Sinks.{run_graph-IsSame}
use conversational_memory_sy.Respond.Transcript.{texts, closes, closing, transcript, final_state}
use conversational_memory_sy.Respond.Queue.{
  end_of_stream, put, drain, stream_response, stream_response-drained,
}
use conversational_memory_sy.Api.Chat.{
  ChatRequest, identity, Response, server_error, json, streaming, stays, body, is_some, captured,
  asked_state, answer_json, answer_stream, chat_in, chat,
}

-- A JSON reply and a stream that was read to its end say the same: the stream is whole, its texts
-- join to the reply, and the headers are the same; or both failed.
abbrev pub SaysTheSame : Response → Response → Type 0
SaysTheSame (json reply headers) (streaming others parts whole) =
    (whole ≡ true) × (joined parts ≡ reply) × (others ≡ headers)
SaysTheSame server_error (streaming others parts whole) = whole ≡ false
SaysTheSame _ _ = ⊥

body-closing : (whole : Bool) (n : ℕ) → body stays (if whole then done n ∷ [] else []) ≡ ([], true)
unfolding body
body-closing true n = refl
body-closing false n = refl

body-tokens :
    (ts : List Text) (tail : List Event)
    → body stays tail ≡ ([], true)
    → body stays (map token ts ++ tail) ≡ (ts, true)
unfolding body
body-tokens [] tail h = h
body-tokens (t ∷ ts) tail h = rw (body-tokens ts tail h) refl

body-transcript : (c : Completion) → body stays (map token (texts c) ++ closing c) ≡ (texts c, true)
body-transcript c = body-tokens (texts c) (closing c) (body-closing (closes c) _)

module _ {W : Type 0} (maxsize job_id : ℕ) (who : ℕ × ℕ) (request : ChatRequest)
    (worker : CaptureWorker W) where
  abbrev IsSameAnswer : CaptureWorker W × Response → CaptureWorker W × Response → Type 0
  IsSameAnswer (w, r) (w', r') = (w' ≡ w) × SaysTheSame r r'

  answers-same :
      (whole : Bool) (m : ResponseMetadata) (block : Text) (state : ResponseState)
      (prompt : List Message) (parts : List Text) (events : List Event)
      → body stays events ≡ (parts, true)
      → let shown = recalled m block state in
        let final : Option ResponseState =
          if whole then some (record shown { reply = joined parts; prompt = prompt }) else none in
        IsSameAnswer (answer_json maxsize job_id who request final worker) (
          answer_stream maxsize job_id stays who request
            (to_event m ∷ events)
            (is_some final)
            worker)
  answers-same true m block state prompt parts events e = rw (e) (refl, (refl, refl, refl))
  answers-same false m block state prompt parts events e = rw (e) (refl, refl)

  answers-from :
      (lower : Text → Text) (c : Completion) (m : ResponseMetadata) (block : Text)
      (state : ResponseState) (events : List Event) (a b : Option ResponseState)
      → events ≡ transcript m c
      → a ≡ final_state lower c (recalled m block state)
      → b ≡ final_state lower c (recalled m block state)
      → IsSameAnswer
          (answer_json maxsize job_id who request a worker)
          (answer_stream maxsize job_id stays who request events (is_some b) worker)
  answers-from lower c m block state events a b e f g =
      rw (e, f, g)
        (answers-same (closes c) m block state (build_prompt lower (recalled m block state))
          (texts c) (map token (texts c) ++ closing c) (body-transcript c))

module _ (lower : Text → Text) {S C R V W : Type 0} (recall : Recall S C R V)
    (transaction : Transaction) (stream_tokens : List Message → Completion)
    (maxsize job_id fresh : ℕ) where
  chat_in-same :
      (request : ChatRequest) (s : S) (rows : List AuditRow) (worker : CaptureWorker W)
      → Composes recall
      → Answers recall
      → let a =
          chat_in lower recall transaction stream_tokens maxsize job_id fresh false stays request s
            rows worker in
        let b =
          chat_in lower recall transaction stream_tokens maxsize job_id fresh true stays request s
            rows worker in
        (b.redis ≡ a.redis)
        × (b.audit_log ≡ a.audit_log)
        × (b.worker ≡ a.worker)
        × SaysTheSame a.response b.response
  unfolding stream_response
  chat_in-same request s rows worker k a =
      let state = asked_state fresh request in
      let same =
        run_graph-IsSame none put lower recall transaction stream_tokens state s rows tt [] in
      let (m, block, recalls, (sent, result)) =
        stream_response-drained lower recall transaction stream_tokens state s rows k a in
      let c = stream_tokens (build_prompt lower (recalled m block state)) in
      let run = run_graph put lower recall transaction stream_tokens state s rows [] in
      let alone =
        run_graph {Q = Unit {0}} none lower recall transaction stream_tokens state s rows tt in
      let (worker_same, says_same) =
        answers-from maxsize job_id (identity fresh request) request worker lower c m block state
          (drain (run.sink ++ end_of_stream ∷ [])) alone.result run.result sent
          (same.result ∙ result) result in
      (sym same.redis, sym same.audit_log, worker_same, says_same)

  -- With a composer that returns and a guarded search that ends in a result or in
  -- `RetrievalUnavailable`, the two ways to answer a message agree: if the model finishes, a
  -- client that reads the stream to its end has the text of the JSON reply, under the same
  -- headers, and if the model raises, neither reply is whole. The capture worker, the audit trail
  -- and the circuit are left the same.
  pub chat_same :
      (request : ChatRequest) (s : S) (rows : List AuditRow) (worker : CaptureWorker W)
      → Composes recall
      → Answers recall
      → let a =
          chat lower recall transaction stream_tokens maxsize job_id fresh stays
            (record request { stream = false })
            s
            rows
            worker in
        let b =
          chat lower recall transaction stream_tokens maxsize job_id fresh stays
            (record request { stream = true })
            s
            rows
            worker in
        (b.redis ≡ a.redis)
        × (b.audit_log ≡ a.audit_log)
        × (b.worker ≡ a.worker)
        × SaysTheSame a.response b.response
  unfolding chat identity new_state captured
  chat_same request s rows worker k a = chat_in-same request s rows worker k a
