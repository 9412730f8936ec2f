-- ===== src/Capture/Worker/Fate.antt =====
-- capture/worker.py: what becomes of the jobs.
use conversational_memory_sy.Prelude.{
  ℕ, zero, suc, ◌-◌, ◌<◌, ◌≤◌, ◌≡◌, refl, sym, ap, ◌∙◌, subst, false, List, [], ◌∷◌, ◌++◌, map,
  append_assoc, leb, length, last, drop, arith, Bool-cases, inl, inr, length-append, length-drop,
  last-last,
}
use conversational_memory_sy.Prelude.Perms.{
  Permᴰ, perm_refl, perm_sym, perm_middle, perm-append_left,
}
use conversational_memory_sy.Capture.Worker.{
  CaptureJob, JobRecord, CaptureWorker, max_completed, is_full, enqueue, remember, end_job, Run,
  idle, enqueued, taken, finished,
}

abbrev pub jobs_of : {R : Type 0} → List (JobRecord R) → List CaptureJob
jobs_of = map (λ r. r.job)

jobs-snoc :
    {R : Type 0} (ended : List (JobRecord R)) (entry : JobRecord R)
    → jobs_of (ended ++ entry ∷ []) ≡ jobs_of ended ++ entry.job ∷ []
jobs-snoc [] entry = refl
jobs-snoc (r ∷ ended) entry = ap (λ js. r.job ∷ js) (jobs-snoc ended entry)

perm_snoc :
    {A : Type 0} (x : A) {xs ys : List A} → Permᴰ xs ys → Permᴰ (xs ++ x ∷ []) (ys ++ x ∷ [])
perm_snoc x Permᴰ.nil = perm_refl (x ∷ [])
perm_snoc x (Permᴰ.cons e p) = Permᴰ.cons e (perm_snoc x p)
perm_snoc x (Permᴰ.swap e f) = Permᴰ.swap e f
perm_snoc x (Permᴰ.trans p q) = Permᴰ.trans (perm_snoc x p) (perm_snoc x q)

not_full :
    (maxsize : ℕ) (queue : List CaptureJob)
    → 1 ≤ maxsize
    → is_full maxsize queue ≡ false
    → length queue < maxsize
not_full zero queue bounded room = omega (arith, bounded)
not_full (suc m) queue bounded room = ground (arith, room)

module _ {R : Type 0} (maxsize consumers : ℕ) where
  -- jobs start in the order in which they were accepted
  fifo :
      {accepted started : List CaptureJob} {ended : List (JobRecord R)} {w : CaptureWorker R}
      → Run maxsize consumers accepted started ended w
      → started ++ w.queue ≡ accepted
  unfolding enqueue end_job
  fifo idle = refl
  fifo (enqueued {accepted = accepted} {started = started} {w = w} run job) =
      elim (Bool-cases (is_full maxsize w.queue)) [
        | inl full ↦ rw (full) (fifo run)
        | inr room ↦
            rw (room)
              (sym (append_assoc started w.queue (job ∷ [])) ∙ ap (λ xs. xs ++ job ∷ []) (fifo run))
      ]
  fifo (taken {started = started} run job rest head free) =
      append_assoc started (job ∷ []) rest ∙ (ap (λ xs. started ++ xs) (sym head) ∙ fifo run)
  fifo (finished run job ending before after e) = fifo run

  -- a job that was started has ended or is running, and is neither lost nor run twice
  accounted :
      {accepted started : List CaptureJob} {ended : List (JobRecord R)} {w : CaptureWorker R}
      → Run maxsize consumers accepted started ended w
      → Permᴰ (jobs_of ended ++ w.running) started
  unfolding enqueue end_job
  accounted idle = Permᴰ.nil
  accounted (enqueued {w = w} run job) = elim (Bool-cases (is_full maxsize w.queue)) [
    | inl full ↦ rw (full) (accounted run)
    | inr room ↦ rw (room) (accounted run)
  ]
  accounted (taken {started = started} {ended = ended} {w = w} run job rest head free) =
      subst (λ xs. Permᴰ xs (started ++ job ∷ []))
        (append_assoc (jobs_of ended) w.running (job ∷ [])) (perm_snoc job (accounted run))
  accounted (finished {started = started} {ended = ended} {w = w} run job ending before after e) =
      let js = jobs_of ended in
      let moved = perm-append_left js (perm_sym (perm_middle job before after)) in
      let was = subst (λ xs. Permᴰ (js ++ xs) started) e (accounted run) in
      subst (λ xs. Permᴰ xs started)
        (sym (
          ap (λ xs. xs ++ (before ++ after))
            (jobs-snoc ended (record { job = job; ending = ending }))
          ∙ append_assoc js (job ∷ []) (before ++ after)))
        (Permᴰ.trans moved was)

  remember-last :
      (entry : JobRecord R) (done : List (JobRecord R))
      → remember entry done ≡ last max_completed (done ++ entry ∷ [])
  unfolding remember
  remember-last entry done = elim (Bool-cases (leb (length (done ++ entry ∷ [])) max_completed)) [
    | inr long ↦ rw (long) refl
    | inl short ↦
        let none_over : length (done ++ entry ∷ []) - max_completed ≡ 0 = ground (arith, short) in
        rw (short) (ap (λ k. drop k (done ++ entry ∷ [])) (sym none_over))
  ]

  -- the records that are kept are the latest
  recorded :
      {accepted started : List CaptureJob} {ended : List (JobRecord R)} {w : CaptureWorker R}
      → Run maxsize consumers accepted started ended w
      → w.completed ≡ last max_completed ended
  unfolding enqueue end_job
  recorded idle = refl
  recorded (enqueued {w = w} run job) = elim (Bool-cases (is_full maxsize w.queue)) [
    | inl full ↦ rw (full) (recorded run)
    | inr room ↦ rw (room) (recorded run)
  ]
  recorded (taken run job rest head free) = recorded run
  recorded (finished {ended = ended} {w = w} run job ending before after e) =
      let entry : JobRecord R = record { job = job; ending = ending } in
      ap (remember entry) (recorded run)
      ∙ (remember-last entry (last max_completed ended) ∙ last-last max_completed ended entry)

  -- Whatever jobs are offered to a capture worker, taken by its consumers and ended, in any
  -- order: the started jobs and then the queue are the accepted jobs in the order of their
  -- acceptance, the ended and the running jobs are a rearrangement of the started ones, and the
  -- records that are kept are the latest 128 of all, in order.
  pub worker_accounts :
      {accepted started : List CaptureJob} {ended : List (JobRecord R)} {w : CaptureWorker R}
      → Run maxsize consumers accepted started ended w
      → (started ++ w.queue ≡ accepted)
        × Permᴰ (jobs_of ended ++ w.running) started
        × (w.completed ≡ last max_completed ended)
  worker_accounts run = (fifo run, accounted run, recorded run)

  busy :
      {accepted started : List CaptureJob} {ended : List (JobRecord R)} {w : CaptureWorker R}
      → Run maxsize consumers accepted started ended w
      → length w.running ≤ consumers
  unfolding enqueue end_job
  busy idle = omega arith
  busy (enqueued {w = w} run job) = elim (Bool-cases (is_full maxsize w.queue)) [
    | inl full ↦ rw (full) (busy run)
    | inr room ↦ rw (room) (busy run)
  ]
  busy (taken {w = w} run job rest head free) =
      omega (arith, free, length-append w.running (job ∷ []))
  busy (finished run job ending before after e) =
      let size = ap length e ∙ length-append before (job ∷ after) in
      omega (arith, busy run, size, length-append before after)

  waiting :
      {accepted started : List CaptureJob} {ended : List (JobRecord R)} {w : CaptureWorker R}
      → Run maxsize consumers accepted started ended w
      → 1 ≤ maxsize
      → length w.queue ≤ maxsize
  unfolding enqueue end_job
  waiting idle bounded = omega arith
  waiting (enqueued {w = w} run job) bounded = elim (Bool-cases (is_full maxsize w.queue)) [
    | inl full ↦ rw (full) (waiting run bounded)
    | inr room ↦
        rw (room)
          (omega (arith, not_full maxsize w.queue bounded room, length-append w.queue (job ∷ [])))
  ]
  waiting (taken run job rest head free) bounded =
      let size = ap length head in omega (arith, waiting run bounded, size)
  waiting (finished run job ending before after e) bounded = waiting run bounded

  -- If the queue has a bound, a capture worker never has more jobs waiting than that, nor more
  -- running than it has consumers, nor more than 128 records.
  pub worker_bounded :
      {accepted started : List CaptureJob} {ended : List (JobRecord R)} {w : CaptureWorker R}
      → Run maxsize consumers accepted started ended w
      → 1 ≤ maxsize
      → (length w.queue ≤ maxsize)
        × (length w.running ≤ consumers)
        × (length w.completed ≤ max_completed)
  worker_bounded {ended = ended} run bounded =
      let kept = ap length (recorded run) ∙ length-drop (length ended - max_completed) ended in
      (waiting run bounded, busy run, omega (arith, kept))
