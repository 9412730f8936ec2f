-- ===== src/Api/Chat/Captures.antt =====
-- api/chat.py: which turns are handed to the capture worker.
use conversational_memory_sy.Prelude.{
  some, ℕ, zero, suc, ◌≡◌, refl, ap, ◌∙◌, Bool, true, false, ◌&&◌, none, List, [], ◌∷◌, ◌++◌, map,
  if◌then◌else◌, length, leb, arith, Bool-cases, inl, inr,
}
use conversational_memory_sy.Context.Text.{Text}
use conversational_memory_sy.Store.Audit.{AuditRow}
use conversational_memory_sy.Store.Audit.Reads.{Transaction}
use conversational_memory_sy.Capture.Worker.{CaptureWorker, enqueue}
use conversational_memory_sy.Respond.{
  Message, ResponseState, ResponseMetadata, to_event, Event, token, done, Completion, Recall,
  joined, build_prompt, recalled,
}
use conversational_memory_sy.Respond.Recollection.{Memory, recollection}
use conversational_memory_sy.Respond.Parts.{Composes, Answers}
use conversational_memory_sy.Respond.Transcript.{
  texts, closes, closing, final_state, run_graph-replies,
}
use conversational_memory_sy.Respond.Queue.{stream_response-drained}
use conversational_memory_sy.Api.Chat.{
  ChatRequest, identity, Client, stays, leaves_after, body, is_some, job_of, captured, asked_state,
  answer_json, answer_stream, chat_in, chat,
}

-- whether a client reads a stream of so many texts to its end
abbrev pub reads_all : Client → ℕ → Bool
reads_all stays n = true
reads_all (leaves_after k) n = leb n k

abbrev Tail : List Event → Type 0
Tail events = (client : Client) → body client events ≡ ([], true)

closing-Tail : (whole : Bool) (n : ℕ) → Tail (if whole then done n ∷ [] else [])
unfolding body
closing-Tail true n client = refl
closing-Tail false n client = refl

-- a body is the texts and whole, or it is not whole
abbrev Read : List Text × Bool → List Text → Bool → Type 0
Read (parts, whole) ts true = (parts ≡ ts) × (whole ≡ true)
Read (parts, whole) ts false = whole ≡ false

Read-cons :
    (t : Text) (pair : List Text × Bool) (ts : List Text) (whole : Bool)
    → Read pair ts whole
    → Read (t ∷ pair.0, pair.1) (t ∷ ts) whole
Read-cons t (parts, whole') ts true (e, f) = (ap (λ xs. t ∷ xs) e, f)
Read-cons t (parts, whole') ts false e = e

leb_zero : (k : ℕ) → leb 0 k ≡ true
leb_zero k = ground arith

leb_less : (n : ℕ) → leb (suc n) 0 ≡ false
leb_less n = ground arith

leb_both : (n k : ℕ) → leb (suc n) (suc k) ≡ leb n k
leb_both n k = ground arith

body-Read :
    (ts : List Text) (tail : List Event) (client : Client)
    → Tail tail
    → Read (body client (map token ts ++ tail)) ts (reads_all client (length ts))
unfolding body
body-Read [] tail stays h = rw (h stays) (refl, refl)
body-Read [] tail (leaves_after k) h = rw (h (leaves_after k), leb_zero k) (refl, refl)
body-Read (t ∷ ts) tail stays h =
    Read-cons t (body stays (map token ts ++ tail)) ts true (body-Read ts tail stays h)
body-Read (t ∷ ts) tail (leaves_after zero) h = rw (leb_less (length ts)) refl
body-Read (t ∷ ts) tail (leaves_after (suc k)) h = rw (leb_both (length ts) k) (
    Read-cons t (body (leaves_after k) (map token ts ++ tail)) ts (leb (length ts) k)
      (body-Read ts tail (leaves_after k) h))

module _ {W : Type 0} (maxsize job_id : ℕ) (who : ℕ × ℕ) (request : ChatRequest)
    (worker : CaptureWorker W) where
  -- the worker with the turn, if there is one to capture
  abbrev pub with_turn : (whole : Bool) → (reply : Text) → CaptureWorker W
  with_turn whole reply =
      if whole && request.capture
      then (enqueue maxsize (job_of job_id who request.message reply) worker).0
      else worker

  answer_json-captures :
      (lower : Text → Text) (c : Completion) (shown : ResponseState)
      → (answer_json maxsize job_id who request (final_state lower c shown) worker).0
        ≡ with_turn (closes c) (joined (texts c))
  unfolding captured
  answer_json-captures lower c shown = elim (Bool-cases (closes c)) [
    | inl whole ↦ rw (whole) refl
    | inr cut ↦ rw (cut) refl
  ]

  streamed-captures :
      (client : Client) (first : Event) (events : List Event) (ts : List Text) (reads ended : Bool)
      → Read (body client events) ts reads
      → (answer_stream maxsize job_id client who request (first ∷ events) ended worker).0
        ≡ with_turn (reads && ended) (joined ts)
  unfolding captured
  streamed-captures client first events ts true true (e, f) = rw (e, f) refl
  streamed-captures client first events ts true false (e, f) = rw (e, f) refl
  streamed-captures client first events ts false ended e = rw (e) refl

final_state-closes :
    (lower : Text → Text) (c : Completion) (shown : ResponseState)
    → is_some (final_state lower c shown) ≡ closes c
final_state-closes lower c shown = ground arith

-- whether the client of a turn gets the whole of what the model says
abbrev pub is_whole : (stream : Bool) → Client → Completion → Bool
is_whole true client c = reads_all client (length (texts c)) && closes c
is_whole false client c = closes c

module _ (lower : Text → Text) {S C R V W : Type 0} (recall : Recall S C R V)
    (transaction : Transaction) (stream_tokens : List Message → Completion)
    (maxsize job_id fresh : ℕ) where
  -- what the model is asked, and whether its whole answer is handed to the worker
  abbrev pub IsCaptured :
      Memory → (stream : Bool) → Client → ChatRequest → CaptureWorker W → CaptureWorker W → Type 0
  IsCaptured memory stream client request worker worker' =
      (m : ResponseMetadata) × (block : Text) × (memory ≡ some (m, block))
      × (let c =
            stream_tokens (build_prompt lower (recalled m block (asked_state fresh request))) in
          worker'
          ≡ with_turn maxsize job_id (identity fresh request) request worker
              (is_whole stream client c) (joined (texts c)))

  chat_in-captures :
      (stream : Bool) (client : Client) (request : ChatRequest) (s : S) (rows : List AuditRow)
      (worker : CaptureWorker W)
      → Composes recall
      → Answers recall
      → IsCaptured
          (recollection recall lower (asked_state fresh request) s)
          stream
          client
          request
          worker
          (chat_in lower recall transaction stream_tokens maxsize job_id fresh stream client request
            s rows worker).worker
  chat_in-captures false client request s rows worker k a =
      let state = asked_state fresh request in
      let who = identity fresh request in
      let (m, block, recalls, (sent, result)) =
        run_graph-replies {Q = Unit {0}} none lower stream_tokens recall transaction state s rows tt
          k a in
      let shown = recalled m block state in
      let c = stream_tokens (build_prompt lower shown) in
      (
        m,
        block,
        recalls,
        ap (λ r. (answer_json maxsize job_id who request r worker).0) result
            ∙ answer_json-captures maxsize job_id who request worker lower c shown,
      )
  chat_in-captures true client request s rows worker k a =
      let state = asked_state fresh request in
      let who = identity fresh request in
      let (m, block, recalls, (sent, result)) =
        stream_response-drained lower recall transaction stream_tokens state s rows k a in
      let shown = recalled m block state in
      let c = stream_tokens (build_prompt lower shown) in
      let tail = closing-Tail (closes c) (length (joined (texts c))) in
      (
        m,
        block,
        recalls,
        rw (sent, result, final_state-closes lower c shown)
            (streamed-captures maxsize job_id who request worker client (to_event m)
              (map token (texts c) ++ closing c) (texts c) (reads_all client (length (texts c)))
              (closes c) (body-Read (texts c) (closing c) client tail)),
      )

  -- With a composer that returns and a guarded search that ends in a result or in
  -- `RetrievalUnavailable`, a request that asks for capture offers the turn to the capture
  -- worker, with the message, the whole reply and the identity of the request, exactly if the
  -- model finishes and, in a stream, the client reads all of its texts; in every other case the
  -- worker is left as it was.
  pub chat_captures :
      (client : Client) (request : ChatRequest) (s : S) (rows : List AuditRow)
      (worker : CaptureWorker W)
      → Composes recall
      → Answers recall
      → IsCaptured
          (recollection recall lower (asked_state fresh request) s)
          request.stream
          client
          request
          worker
          (chat lower recall transaction stream_tokens maxsize job_id fresh client request s rows
            worker).worker
  unfolding chat
  chat_captures client request s rows worker k a =
      chat_in-captures request.stream client request s rows worker k a
