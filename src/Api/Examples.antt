-- ===== src/Api/Examples.antt =====
-- api/memories.py: requests on a table of two memories, a summary of the first and another's memory.
use conversational_memory_sy.Prelude.{
  ℕ, ◌+◌, ◌≡◌, ◌≤◌, refl, none, some, List, [], ◌∷◌, arith, keep, count_if,
}
use conversational_memory_sy.Prelude.Perms.{Permᴰ}
use conversational_memory_sy.Prelude.Sorting.{IsSorted}
use conversational_memory_sy.Context.Text.{codes}
use conversational_memory_sy.Store.{Row, Session, reflection, stated}
use conversational_memory_sy.Store.Attributes.{strip}
use conversational_memory_sy.Store.Audit.{delete, has_key, rows_of}
use conversational_memory_sy.Store.Memories.{Tables}
use conversational_memory_sy.Store.Invalidate.{invalidate_summaries_for, folded_into_any}
use conversational_memory_sy.Api.Memories.{
  vector, ensure_owned, erase, edit, delete_memory, is_listed, newer, list_my_memories,
}
use conversational_memory_sy.Api.Memories.Requests.{
  Call, arrived, to_delete, to_patch, Arrival, transact, step, run, acknowledged, is_live,
  serve_all,
}
use conversational_memory_sy.Api.Memories.Runs.{run-deletes_once}
use conversational_memory_sy.Api.Memories.Listing.{pages, pages_all}
use conversational_memory_sy.Api.Memories.Cascade.{IsGone, IsWithdrawn, delete_memory-forgets}
use conversational_memory_sy.Api.Memories.Shelf.{shelf, promised_all}
use conversational_memory_sy.Api.Memories.Shelf.Refines.{serve_all-refines}

abbrev ann : Session
ann = record { subject_id = 1; actor_id = 1 }

abbrev tea : Row ℕ ℕ
tea = record {
  id = 1;
  subject_id = 1;
  actor_id = 1;
  content = codes "likes tea";
  embedding = some 3;
  source = stated none;
  importance = none;
  confidence = some 80;
  attribute = none;
  weight = 100;
  reinforcement_count = 1;
  created_at = 10;
  updated_at = 10;
  last_accessed_at = 10;
  deleted_at = none;
  superseded_at = none;
  superseded_by = none;
  stale_at = none;
  consolidated_at = some 20;
  consolidated_into = some 3;
  archived_at = none;
  decay_run_id = none;
}

abbrev cat : Row ℕ ℕ
cat = record tea { id = 2; content = codes "has a cat"; created_at = 12; consolidated_into = none }

-- a summary of both, of another actor
abbrev summary : Row ℕ ℕ
summary = record cat { id = 3; actor_id = 2; content = codes "tea and a cat"; source = reflection }

-- of another subject
abbrev foreign_row : Row ℕ ℕ
foreign_row = record tea { id = 4; subject_id = 5 }

abbrev db : Tables ℕ ℕ
db = record {
  rows = tea ∷ cat ∷ summary ∷ foreign_row ∷ [];
  trail = record { rows = []; seen = some [] };
}

abbrev removal : Call ℕ
removal = record { session = ann; id = 1; request = to_delete; stage = arrived }

abbrev correction : Call ℕ
correction = record removal { request = to_patch (codes "likes coffee") (vector 4) }

-- two DELETEs and a PATCH of the same memory; both DELETEs pass the check
abbrev race : List (ℕ × ℕ)
race = (30, 0) ∷ (31, 1) ∷ (32, 2) ∷ (33, 1) ∷ (34, 0) ∷ (35, 1) ∷ (36, 2) ∷ (37, 0) ∷ (38, 2) ∷ []

abbrev calls : List (Call ℕ)
calls = removal ∷ removal ∷ correction ∷ []

race_ends : acknowledged 1 (run race db calls).1 ≡ 1
unfolding run step transact ensure_owned erase edit strip invalidate_summaries_for has_key
race_ends = refl

run-deletes_once_example :
    (acknowledged 1 (run race db calls).1 ≤ 1)
    × (count_if (is_live 1) (run race db calls).0.rows + acknowledged 1 (run race db calls).1
        ≡ count_if (is_live 1) db.rows)
    × (rows_of delete (some 1) (run race db calls).0.trail.rows
        ≡ rows_of delete (some 1) db.trail.rows + acknowledged 1 (run race db calls).1)
run-deletes_once_example = run-deletes_once 1 race db calls (omega arith) refl

delete_memory-forgets_example :
    IsGone ann 1 (delete_memory 30 ann 1 db).0.rows
    × IsWithdrawn ann (folded_into_any ann 1 db.rows) (delete_memory 30 ann 1 db).0.rows
unfolding delete_memory
delete_memory-forgets_example = delete_memory-forgets 30 ann 1 db refl

pages_all_example :
    IsSorted newer (pages ann 1 2 0 db.rows)
    × Permᴰ (pages ann 1 2 0 db.rows) (keep (is_listed ann) db.rows)
unfolding list_my_memories
pages_all_example = pages_all ann 1 2 db.rows (omega arith)

abbrev arrivals : List (Arrival ℕ)
arrivals =
    record {
      time = 30;
      session = ann;
      id = 1;
      request = to_patch (codes "likes coffee") (vector 4);
    }
    ∷ record { time = 31; session = ann; id = 1; request = to_delete }
    ∷ record { time = 32; session = ann; id = 1; request = to_delete }
    ∷ []

serve_all-refines_example :
    (shelf (serve_all arrivals db).0.rows, (serve_all arrivals db).1)
    ≡ promised_all arrivals (shelf db.rows)
serve_all-refines_example = serve_all-refines arrivals db
