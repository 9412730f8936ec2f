-- ===== src/Api/Chat/Examples.antt =====
-- api/chat.py: a question about tea, whose client goes away after one of two texts, and the same question
-- to both transports.
use conversational_memory_sy.Prelude.{ℕ, ◌≡◌, true, false, none, some, []}
use conversational_memory_sy.Context.Text.{codes}
use conversational_memory_sy.Retrieve.Examples.{fresh}
use conversational_memory_sy.Store.Audit.Reads.{committed, failed}
use conversational_memory_sy.Capture.Worker.{CaptureWorker}
use conversational_memory_sy.Respond.Recollection.{recollection}
use conversational_memory_sy.Respond.Examples.{
  same_case, recall, recall-Composes, recall-Answers, model,
}
use conversational_memory_sy.Api.Chat.{ChatRequest, stays, leaves_after, asked_state, chat}
use conversational_memory_sy.Api.Chat.Same.{SaysTheSame, chat_same}
use conversational_memory_sy.Api.Chat.Captures.{IsCaptured, chat_captures}

abbrev request : ChatRequest
request = record {
  message = codes "tea?";
  subject_id = some 1;
  actor_id = none;
  stream = true;
  capture = true;
}

abbrev worker : CaptureWorker ℕ
worker = record { queue = []; running = []; completed = [] }

chat_same_example :
    let a =
      chat same_case recall
        (committed true)
        model
        8
        3
        4
        stays
        (record request { stream = false })
        fresh
        []
        worker in
    let b =
      chat same_case recall
        (committed true)
        model
        8
        3
        4
        stays
        (record request { stream = true })
        fresh
        []
        worker in
    (b.redis ≡ a.redis)
    × (b.audit_log ≡ a.audit_log)
    × (b.worker ≡ a.worker)
    × SaysTheSame a.response b.response
chat_same_example =
    chat_same same_case recall (committed true) model 8 3 4 request fresh [] worker recall-Composes
      recall-Answers

chat_captures_example :
    IsCaptured same_case recall failed model 8 3 4
      (recollection recall same_case (asked_state 4 request) fresh)
      true
      (leaves_after 1)
      request
      worker
      (chat same_case recall failed model 8 3 4 (leaves_after 1) request fresh [] worker).worker
chat_captures_example =
    chat_captures same_case recall failed model 8 3 4 (leaves_after 1) request fresh [] worker
      recall-Composes recall-Answers
