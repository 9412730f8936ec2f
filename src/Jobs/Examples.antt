-- ===== src/Jobs/Examples.antt =====
-- jobs/decay.py: a run over three rows, one of them erased; jobs/reflection.py: a stale summary of
-- two rows, one of them erased. Floats are stood for by hundredths.
use conversational_memory_sy.Prelude.{
  ℕ, ◌+◌, ◌*◌, ◌≡◌, ◌≤◌, refl, false, Option, none, some, List, [], ◌∷◌, ◌==◌, count_if, arith, All,
  keep,
}
use conversational_memory_sy.Retrieve.Examples.{hundredths}
use conversational_memory_sy.Prelude.Sorting.{sort}
use conversational_memory_sy.Store.{Row, Session, reflection, stated}
use conversational_memory_sy.Store.Memories.{Tables}
use conversational_memory_sy.Jobs.Reflection.{
  is_stale, is_folded, rebuild_all, rebuild_stale_summaries,
}
use conversational_memory_sy.Jobs.Reflection.Cleared.{rebuild-clears}
use conversational_memory_sy.Jobs.Decay.{DecaySettings, Batch, run_decay, run_decay_worker}
use conversational_memory_sy.Jobs.Decay.Sweep.{rows_left, run-processes_once}
use conversational_memory_sy.Jobs.Decay.Ending.{left, worker_drains}
use conversational_memory_sy.Jobs.Decay.Erased.{is_erased, run-keeps_erased}

abbrev settings : DecaySettings ℕ
settings = record {
  weight_increment = 10;
  weight_max = 200;
  half_life_days = 3000;
  damping_reference = 300;
  decay_floor = 5;
  archive_threshold = 10;
  of_int = λ n. n * 100;
}

abbrev row : ℕ → Option ℕ → Row ℕ ℕ
row id deleted_at = record {
  id = id;
  subject_id = 1;
  actor_id = 1;
  content = [];
  embedding = none;
  source = stated none;
  importance = none;
  confidence = none;
  attribute = none;
  weight = 100;
  reinforcement_count = 1;
  created_at = 0;
  updated_at = 0;
  last_accessed_at = 0;
  deleted_at = deleted_at;
  superseded_at = none;
  superseded_by = none;
  stale_at = none;
  consolidated_at = none;
  consolidated_into = none;
  archived_at = none;
  decay_run_id = none;
}

abbrev table : List (Row ℕ ℕ)
table = row 1 none ∷ row 2 (some 40) ∷ row 3 none ∷ []

-- two workers: while the first is in its batch, row 1 is locked for the second
abbrev batches : List (Batch ℕ ℕ)
batches =
    record { batch_size = 1; now = 900; locked = λ r. r.id == 1 }
    ∷ record { batch_size = 5; now = 901; locked = λ r. false }
    ∷ []

run-processes_once_example :
    count_if (λ r. r.id == 3) (run_decay hundredths settings 7 batches table).0
      + rows_left 7 (λ id. id == 3) (run_decay hundredths settings 7 batches table).1
    ≤ 1
run-processes_once_example = run-processes_once 7 (λ id. id == 3) hundredths settings batches table

worker_drains_example :
    left hundredths settings 7 2 900 (run_decay_worker hundredths settings 3 7 2 900 table).1 ≡ 0
worker_drains_example =
    worker_drains hundredths settings 7 2 900 3 table (omega arith) (omega arith)

run-keeps_erased_example :
    keep is_erased (run_decay hundredths settings 7 batches table).1 ≡ keep is_erased table
run-keeps_erased_example = run-keeps_erased 7 hundredths settings batches table (
  (λ e. absurd (omega (arith, e)), (λ e. absurd (omega (arith, e)), tt)),
  ((λ e. absurd (omega (arith, e)), tt), (tt, tt)),
)

abbrev ann : Session
ann = record { subject_id = 1; actor_id = 1 }

abbrev folded : Option ℕ → Row ℕ ℕ
folded deleted_at = record (row 4 deleted_at) {
  consolidated_at = some 50;
  consolidated_into = some 9;
}

abbrev stale_summary : Row ℕ ℕ
stale_summary = record (row 9 none) { source = reflection; stale_at = some 60 }

abbrev summarised : Tables ℕ ℕ
summarised = record {
  rows = folded none ∷ folded (some 60) ∷ stale_summary ∷ [];
  trail = record { rows = []; seen = some [] };
}

frees_one : (rebuild_stale_summaries 70 ann 25 summarised).1 ≡ 9 ∷ []
unfolding rebuild_stale_summaries rebuild_all sort
frees_one = refl

rebuild-clears_example :
    All (λ r. is_stale ann r ≡ false) (rebuild_stale_summaries 70 ann 25 summarised).0.rows
    × All
        (λ id.
          count_if (is_folded ann id) (rebuild_stale_summaries 70 ann 25 summarised).0.rows ≡ 0)
        (rebuild_stale_summaries 70 ann 25 summarised).1
rebuild-clears_example = rebuild-clears 70 ann 25 summarised (omega arith)
