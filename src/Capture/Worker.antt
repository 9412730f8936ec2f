-- ===== src/Capture/Worker.antt =====
-- capture/worker.py: the queue and its consumers, on one event loop. A consumer's next job and the end
-- of a job are steps; `stop`, which cancels the consumers, is left out.
pub mod Fate
use conversational_memory_sy.Prelude.{
  ℕ, zero, suc, ◌<◌, ◌≡◌, Bool, true, false, List, [], ◌∷◌, ◌++◌, leb, length, last, if◌then◌else◌,
}
use conversational_memory_sy.Capture.Extract.{Turn}

pub record CaptureJob : Type 0 where
  pub job_id : ℕ
  pub subject_id : ℕ
  pub actor_id : ℕ
  pub turn : Turn

-- What `run_capture` comes to: its results, an `asyncio.TimeoutError`, or another exception.
pub data Ending (R : Type 0) : Type 0 where
  completed : R → Ending R
  timeout failed : Ending R

-- A record of `completed`.
pub record JobRecord (R : Type 0) : Type 0 where
  pub job : CaptureJob
  pub ending : Ending R

-- `CaptureWorker`; `running` are the jobs that a consumer has taken.
pub record CaptureWorker (R : Type 0) : Type 0 where
  pub queue : List CaptureJob
  pub running : List CaptureJob
  pub completed : List (JobRecord R)

-- `_max_completed`
abbrev pub max_completed : ℕ
max_completed = 128

-- `asyncio.Queue.full`; a size of 0 is no bound
abbrev pub is_full : (maxsize : ℕ) → List CaptureJob → Bool
is_full zero queue = false
is_full (suc m) queue = leb (suc m) (length queue)

module _ {R : Type 0} where
  -- `enqueue`; the flag says whether the job was taken or dropped
  unfoldable pub enqueue : (maxsize : ℕ) → CaptureJob → CaptureWorker R → CaptureWorker R × Bool
  enqueue maxsize job w =
      if is_full maxsize w.queue
      then (w, false)
      else (record w { queue = w.queue ++ job ∷ [] }, true)

  -- `self._queue.get()`, by a consumer that is free
  abbrev pub get : (job : CaptureJob) → (rest : List CaptureJob) → CaptureWorker R → CaptureWorker R
  get job rest w = record w { queue = rest; running = w.running ++ job ∷ [] }

  -- the end of `_run_job`
  unfoldable pub remember : JobRecord R → List (JobRecord R) → List (JobRecord R)
  remember entry done =
      let longer = done ++ entry ∷ [] in
      if leb (length longer) max_completed then longer else last max_completed longer

  unfoldable pub end_job :
      CaptureJob → Ending R → (others : List CaptureJob) → CaptureWorker R → CaptureWorker R
  unfolding remember
  end_job job ending others w = record w {
    running = others;
    completed = remember (record { job = job; ending = ending }) w.completed;
  }

  -- What a worker can have come to, with the jobs it accepted, those it started and those it ended.
  pub data Run (maxsize consumers : ℕ)
      : (accepted started : List CaptureJob)
        → (ended : List (JobRecord R)) → CaptureWorker R
        → Type 0 where
    idle : Run maxsize consumers [] [] [] (record { queue = []; running = []; completed = [] })
    enqueued :
        {accepted started : List CaptureJob} {ended : List (JobRecord R)} {w : CaptureWorker R}
        → Run maxsize consumers accepted started ended w
        → (job : CaptureJob)
        → Run maxsize consumers
            (if (enqueue maxsize job w).1 then accepted ++ job ∷ [] else accepted)
            started
            ended
            (enqueue maxsize job w).0
    taken :
        {accepted started : List CaptureJob} {ended : List (JobRecord R)} {w : CaptureWorker R}
        → Run maxsize consumers accepted started ended w
        → (job : CaptureJob) (rest : List CaptureJob) → w.queue ≡ job ∷ rest
        → length w.running < consumers
        → Run maxsize consumers accepted (started ++ job ∷ []) ended (get job rest w)
    finished :
        {accepted started : List CaptureJob} {ended : List (JobRecord R)} {w : CaptureWorker R}
        → Run maxsize consumers accepted started ended w
        → (job : CaptureJob) (ending : Ending R) (before after : List CaptureJob)
        → w.running ≡ before ++ job ∷ after
        → Run maxsize consumers accepted started
            (ended ++ record { job = job; ending = ending } ∷ [])
            (end_job job ending (before ++ after) w)
