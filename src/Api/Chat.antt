-- ===== src/Api/Chat.antt =====
-- api/chat.py: POST /chat over the response graph, and the hand-over of the finished turn to the capture
-- worker. The texts of the headers and the encoding of the body are left out; the client of a stream is
-- how many texts it reads before it goes away.
pub mod Same
pub mod Captures
mod Examples
use conversational_memory_sy.Prelude.{
  ℕ, zero, suc, Bool, true, false, ◌&&◌, Option, none, some, List, [], ◌∷◌, ◌++◌, length,
  if◌then◌else◌,
}
use conversational_memory_sy.Context.Text.{Text, codes}
use conversational_memory_sy.Retrieve.Guarded.{Reason}
use conversational_memory_sy.Store.Audit.{AuditRow}
use conversational_memory_sy.Store.Audit.Reads.{Transaction}
use conversational_memory_sy.Capture.Extract.{Turn}
use conversational_memory_sy.Capture.Worker.{CaptureJob, CaptureWorker, enqueue}
use conversational_memory_sy.Respond.{
  Message, ResponseState, new_state, Event, metadata, token, done, Completion, Recall, Run, joined,
}
use conversational_memory_sy.Respond.Graph.{run_graph}
use conversational_memory_sy.Respond.Queue.{QueueItem, drain, stream_response}

-- `ChatRequest`; an id of `none` is absent or empty
pub record ChatRequest : Type 0 where
  pub message : Text
  pub subject_id : Option ℕ
  pub actor_id : Option ℕ
  pub stream : Bool
  pub capture : Bool

abbrev pub or_new : Option ℕ → ℕ → ℕ
or_new none other = other
or_new (some id) other = id

-- `_identity`, the subject and the actor; `fresh` is the new uuid
unfoldable pub identity : (fresh : ℕ) → ChatRequest → ℕ × ℕ
identity fresh request =
    let subject_id = or_new request.subject_id fresh in
    (subject_id, or_new request.actor_id subject_id)

-- The headers of a reply.
pub record Headers : Type 0 where
  pub subject_id : ℕ
  pub actor_id : ℕ
  pub memory_degraded : Bool
  pub memory_count : ℕ
  pub memory_ids : List ℕ
  pub degraded_reason : Option Reason

-- `headers` with those of `_metadata_headers`
abbrev pub metadata_headers :
    ℕ × ℕ → (degraded : Bool) → (memory_ids : List ℕ) → (reason : Option Reason) → Headers
metadata_headers (subject_id, actor_id) degraded memory_ids reason = record {
  subject_id = subject_id;
  actor_id = actor_id;
  memory_degraded = degraded;
  memory_count = length memory_ids;
  memory_ids = memory_ids;
  degraded_reason = reason;
}

-- of the event that the stream begins with, whichever that is
abbrev pub event_headers : ℕ × ℕ → Event → Headers
event_headers who (metadata degraded memory_ids memory_count reason memory_tokens) =
    metadata_headers who degraded memory_ids reason
event_headers who (token text) = metadata_headers who false [] none
event_headers who (done reply_chars) = metadata_headers who false [] none

-- What the client gets: a server error, the JSON of the reply, or a stream of texts, which is whole
-- or ends early.
pub data Response : Type 0 where
  server_error : Response
  json : (reply : Text) → Headers → Response
  streaming : Headers → (body : List Text) → (whole : Bool) → Response

pub record Served (S R : Type 0) : Type 0 where
  pub redis : S
  pub audit_log : List AuditRow
  pub worker : CaptureWorker R
  pub response : Response

-- `_enqueue_capture`
abbrev pub job_of : (job_id : ℕ) → ℕ × ℕ → (message reply : Text) → CaptureJob
job_of job_id (subject_id, actor_id) message reply = record {
  job_id = job_id;
  subject_id = subject_id;
  actor_id = actor_id;
  turn = record { user = some message; assistant = some reply };
}

-- The client of a stream: it reads on, or it is gone after so many texts.
pub data Client : Type 0 where
  stays : Client
  leaves_after : ℕ → Client

-- The loop of `body`: the texts that it yields, and whether it comes to its end. A client that is gone
-- ends it at the `yield`.
unfoldable pub body : Client → List Event → List Text × Bool
body client [] = ([], true)
body stays (token text ∷ events) = let (texts, whole) = body stays events in (text ∷ texts, whole)
body (leaves_after zero) (token text ∷ events) = (text ∷ [], false)
body (leaves_after (suc n)) (token text ∷ events) =
    let (texts, whole) = body (leaves_after n) events in (text ∷ texts, whole)
body client (metadata degraded memory_ids memory_count reason memory_tokens ∷ events) =
    body client events
body client (done reply_chars ∷ events) = body client events

abbrev pub is_some : {A : Type 0} → Option A → Bool
is_some none = false
is_some (some a) = true

module _ {W : Type 0} (maxsize job_id : ℕ) where
  -- `if request.capture: _enqueue_capture(...)`
  unfoldable pub captured : ℕ × ℕ → ChatRequest → (reply : Text) → CaptureWorker W → CaptureWorker W
  unfolding enqueue
  captured who request reply worker =
      if request.capture
      then (enqueue maxsize (job_of job_id who request.message reply) worker).0
      else worker

-- the state that the graph starts with
abbrev pub asked_state : (fresh : ℕ) → ChatRequest → ResponseState
unfolding identity new_state
asked_state fresh request =
    let (subject_id, actor_id) = identity fresh request in
    new_state subject_id (some actor_id)
      (record { role = some (codes "user"); content = some request.message } ∷ [])

module _ {W : Type 0} (maxsize job_id : ℕ) where
  -- the reply as JSON; capture is a background task, run after it
  abbrev pub answer_json :
      ℕ × ℕ → ChatRequest → Option ResponseState → CaptureWorker W → CaptureWorker W × Response
  answer_json who request none worker = (worker, server_error)
  answer_json who request (some state) worker = (
    captured maxsize job_id who request state.reply worker,
    json state.reply (metadata_headers who state.degraded state.memory_ids state.degraded_reason),
  )

  -- the stream, from its events and from whether the graph ended
  abbrev pub answer_stream :
      Client
      → ℕ × ℕ
      → ChatRequest
      → List Event
      → (ended : Bool) → CaptureWorker W
      → CaptureWorker W × Response
  answer_stream client who request [] ended worker = (worker, server_error)
  answer_stream client who request (first ∷ events) ended worker =
      let (texts, read) = body client events in
      let whole = read && ended in
      (
        if whole then captured maxsize job_id who request (joined texts) worker else worker,
        streaming (event_headers who first) texts whole,
      )

  abbrev pub served :
      {S Q : Type 0} → Run S Q ResponseState → CaptureWorker W × Response → Served S W
  served run (worker, response) = record {
    redis = run.redis;
    audit_log = run.audit_log;
    worker = worker;
    response = response;
  }

module _ (lower : Text → Text) {S C R V W : Type 0} (recall : Recall S C R V)
    (transaction : Transaction) (stream_tokens : List Message → Completion)
    (maxsize job_id fresh : ℕ) where
  abbrev pub chat_in :
      (stream : Bool) → Client → ChatRequest → S → List AuditRow → CaptureWorker W → Served S W
  chat_in false client request redis audit_log worker =
      let run =
        run_graph {Q = Unit {0}} none lower recall transaction stream_tokens
          (asked_state fresh request) redis audit_log tt in
      served maxsize job_id run
        (answer_json maxsize job_id (identity fresh request) request run.result worker)
  chat_in true client request redis audit_log worker =
      let run =
        stream_response lower recall transaction stream_tokens (asked_state fresh request) redis
          audit_log in
      served maxsize job_id run (
        answer_stream maxsize job_id client (identity fresh request) request (drain run.sink)
          (is_some run.result) worker)

  -- `chat`
  unfoldable pub chat : Client → ChatRequest → S → List AuditRow → CaptureWorker W → Served S W
  unfolding identity captured body run_graph stream_response drain
  chat client request redis audit_log worker =
      chat_in request.stream client request redis audit_log worker
