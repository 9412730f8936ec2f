-- ===== src/Store/Invalidate.antt =====
-- store/memories.py: `invalidate_summaries_for`, which runs on the owner's connection, where row level
-- security hides nothing.
use conversational_memory_sy.Prelude.{
  ℕ, Bool, ◌&&◌, Option, none, some, List, [], ◌∷◌, ◌++◌, map, ◌==◌, if◌then◌else◌, keep,
}
use conversational_memory_sy.Store.{Row, Session, is_null, update_where}
use conversational_memory_sy.Store.Audit.{update, Outcome, AuditRow}
use conversational_memory_sy.Store.Memories.{Tables, points_at}

module _ {W E : Type 0} (s : Session) where
  -- `src.consolidated_into`, of the subject's row of this id
  abbrev pub folded_into_any : ℕ → List (Row W E) → Option ℕ
  folded_into_any source [] = none
  folded_into_any source (r ∷ rows) =
      let rest = folded_into_any source rows in
      if r.id == source && r.subject_id == s.subject_id then r.consolidated_into else rest

  -- the WHERE clause of `_STALE_ANY_ACTOR_SQL` on the summary
  abbrev pub goes_stale_any : Option ℕ → Row W E → Bool
  goes_stale_any summary r =
      points_at summary r.id
      && r.subject_id == s.subject_id
      && is_null r.deleted_at
      && is_null r.stale_at

  -- the INSERT INTO audit_log of each; it does not pass the guard of `write_audit`
  abbrev pub stale_audit : Row W E → AuditRow
  stale_audit r = record {
    subject_id = s.subject_id;
    actor_id = s.actor_id;
    memory_id = some r.id;
    action = update;
    outcome = Outcome.stale;
  }

module _ {W E : Type 0} (now : ℕ) where
  abbrev pub stale_any_row : Row W E → Row W E
  stale_any_row r = record r { stale_at = some now; updated_at = now }

  -- `invalidate_summaries_for`
  unfoldable pub invalidate_summaries_for : Session → (source : ℕ) → Tables W E → Tables W E
  invalidate_summaries_for s source db =
      let test = goes_stale_any s (folded_into_any s source db.rows) in
      record {
        rows = update_where test stale_any_row db.rows;
        trail = record db.trail { rows = db.trail.rows ++ map (stale_audit s) (keep test db.rows) };
      }
