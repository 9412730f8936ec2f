-- ===== src/Capture/Examples.antt =====
-- capture/: a turn with a phone number, and a worker with one consumer. Floats are stood for by
-- hundredths; Presidio finds the fact that is told with a number, and the embedder is throttled once.
use conversational_memory_sy.Prelude.{
  ℕ, zero, suc, ◌+◌, ◌≤◌, ◌≡◌, refl, none, some, List, [], ◌∷◌, ◌++◌, arith, drop, last, length,
  All, if◌then◌else◌,
}
use conversational_memory_sy.Prelude.Perms.{Permᴰ}
use conversational_memory_sy.Context.Text.{Text, codes}
use conversational_memory_sy.Context.Tokens.{same_text}
use conversational_memory_sy.Retrieve.Examples.{hundredths}
use conversational_memory_sy.Retrieve.Features.{convertible, null}
use conversational_memory_sy.Store.Audit.{write_audit, has_key}
use conversational_memory_sy.Store.Attributes.{strip, normalise_attribute, is_single_valued}
use conversational_memory_sy.Store.Examples.{backend, ann}
use conversational_memory_sy.Store.Memories.{Tables}
use conversational_memory_sy.Store.Persist.{persist_candidates}
use conversational_memory_sy.Capture.Extract.{
  Turn, string, plain, object, proposed, extract_candidates, turn_text,
}
use conversational_memory_sy.Capture.Pii.{Presidio, redact, pii_node}
use conversational_memory_sy.Capture.Evaluate.{score_candidates, apply_confidence_floor}
use conversational_memory_sy.Capture.Embed.{
  Attempt, vectors, throttled, attempt_from, embed_candidates, dedup_candidates,
}
use conversational_memory_sy.Capture.Graph.{Services, Settings, run_capture}
use conversational_memory_sy.Capture.Stages.{IsClean}
use conversational_memory_sy.Capture.Clean.{run_capture-IsClean}
use conversational_memory_sy.Capture.Worker.{
  CaptureJob, CaptureWorker, JobRecord, completed, max_completed, enqueue, end_job, Run, idle,
  enqueued, taken, finished,
}
use conversational_memory_sy.Capture.Worker.Fate.{jobs_of, worker_accounts}

abbrev phone : Text
phone = codes "call 555-0199"

abbrev presidio : Presidio ℕ
presidio = record {
  analyze = λ text. if same_text text phone then some (5 ∷ []) else some [];
  anonymize = λ text found. some (codes "call [REDACTED_PHONE_NUMBER]");
}

abbrev once_busy : List Text → ℕ → Attempt ℕ
once_busy texts zero = throttled
once_busy texts (suc n) = vectors (some 3 ∷ some 4 ∷ [])

abbrev services : Services ℕ ℕ ℕ
services = record {
  complete = λ text. proposed (
      plain phone
      ∷ object (some (string (codes " likes tea "))) none none none (some (string (codes "hobby")))
      ∷ []);
  score = λ texts. some (
      record { importance = null; confidence = convertible 90 }
      ∷ record { importance = convertible 140; confidence = convertible 80 }
      ∷ []);
  embed = once_busy;
  width = λ e. 2;
  presidio = presidio;
  lower = λ text. text;
}

abbrev settings : Settings ℕ
settings = record {
  max_candidates = 8;
  confidence_floor = 50;
  dedup_limit = 82;
  embedding_dim = 2;
  heuristics = record {
    valued = 75;
    ordinary = 50;
    hedged = 50;
    plain = 70;
    lessened = λ x. x;
    round = λ x. x;
  };
}

abbrev turn : Turn
turn = record { user = some (codes "call 555-0199, I like tea"); assistant = none }

abbrev empty : Tables ℕ ℕ
empty = record { rows = []; trail = record { rows = []; seen = some [] } }

run_stores : length (run_capture services settings hundredths backend ann turn [] empty).0.rows ≡ 1
unfolding run_capture extract_candidates turn_text strip normalise_attribute pii_node redact
    score_candidates apply_confidence_floor embed_candidates attempt_from dedup_candidates
    persist_candidates write_audit has_key is_single_valued
run_stores = refl

run_capture-IsClean_example :
    (length (empty.rows)
      ≤ length (run_capture services settings hundredths backend ann turn [] empty).0.rows)
    × (length (run_capture services settings hundredths backend ann turn [] empty).0.rows
        ≤ length (empty.rows) + 8)
    × All
        (λ r. IsClean services settings hundredths r.content r.embedding r.confidence)
        (drop
          (length (empty.rows))
          (run_capture services settings hundredths backend ann turn [] empty).0.rows)
run_capture-IsClean_example =
    run_capture-IsClean services settings hundredths backend ann empty turn []

abbrev job : CaptureJob
job = record { job_id = 1; subject_id = 1; actor_id = 1; turn = turn }

abbrev start : CaptureWorker ℕ
start = record { queue = []; running = []; completed = [] }

abbrev waiting_job : CaptureWorker ℕ
waiting_job = record start { queue = job ∷ [] }

abbrev running_job : CaptureWorker ℕ
running_job = record start { running = job ∷ [] }

abbrev ended_job : List (JobRecord ℕ)
ended_job = record { job = job; ending = completed 1 } ∷ []

-- one job from the queue to its end
one_job : Run 1 1 (job ∷ []) (job ∷ []) ended_job (record start { completed = ended_job })
unfolding enqueue end_job
one_job =
    finished (taken (enqueued idle job) job [] refl (omega arith)) job (completed 1) [] [] refl

worker_accounts_example :
    ((job ∷ []) ++ [] ≡ job ∷ [])
    × Permᴰ (jobs_of ended_job ++ []) (job ∷ [])
    × (ended_job ≡ last max_completed ended_job)
worker_accounts_example = worker_accounts 1 1 one_job
