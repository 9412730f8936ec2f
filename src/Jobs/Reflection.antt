-- ===== src/Jobs/Reflection.antt =====
-- jobs/reflection.py: what a reflection run does to the tables, apart from the clustering.
pub mod Rebuilt
pub mod Cleared
use conversational_memory_sy.Prelude.{
  ℕ, ◌+◌, Bool, true, false, not, ◌&&◌, Option, none, some, List, [], ◌∷◌, ◌++◌, map, ltb, ◌==◌,
  if◌then◌else◌, keep, take, length,
}
use conversational_memory_sy.Prelude.Sorting.{sort}
use conversational_memory_sy.Context.Text.{Text}
use conversational_memory_sy.Store.{
  Origin, reflection, Row, Session, is_null, visible, update_where,
}
use conversational_memory_sy.Store.Audit.{
  Action, write, update, delete, Outcome, AuditRow, Trail, write_audit,
}
use conversational_memory_sy.Store.Memories.{Backend, Candidate, Tables, points_at, insert_memory}
use conversational_memory_sy.Api.Memories.{own_audit, is_any}

-- one audit row of the job for each id
abbrev pub audit_ids : Session → Action → Outcome → (allow_repeat : Bool) → List ℕ → Trail → Trail
audit_ids s action outcome repeat [] trail = trail
audit_ids s action outcome repeat (id ∷ ids) trail =
    audit_ids s action outcome repeat ids
      ((write_audit trail (own_audit s id action outcome) repeat).0)

abbrev among : ℕ → List ℕ → Bool
among m [] = false
among m (x ∷ xs) = if x == m then true else among m xs

abbrev pub or_zero : Option ℕ → ℕ
or_zero none = 0
or_zero (some n) = n

module _ {W E : Type 0} (s : Session) where
  -- the WHERE clause of `_CONSOLIDATE_SQL`
  abbrev pub is_claimable : List ℕ → Row W E → Bool
  is_claimable sources r =
      visible s r && among r.id sources && is_null r.deleted_at && is_null r.consolidated_at

  -- the WHERE clause of `_STALE_SUMMARIES_SQL`
  abbrev pub is_stale : Row W E → Bool
  is_stale r = visible s r && not (is_null r.stale_at) && is_null r.deleted_at

  -- the WHERE clause of `_RETIRE_STALE_SQL`
  abbrev pub is_retirable : ℕ → Row W E → Bool
  is_retirable id r = visible s r && r.id == id && is_null r.deleted_at

  -- the WHERE clause of `_FREE_SOURCES_SQL`
  abbrev pub is_folded : ℕ → Row W E → Bool
  is_folded id r =
      visible s r
      && points_at r.consolidated_into id
      && is_null r.deleted_at
      && is_null r.superseded_at

module _ {W E : Type 0} where
  -- ORDER BY stale_at
  abbrev pub stale_first : Row W E → Row W E → Bool
  stale_first a b = ltb (or_zero a.stale_at) (or_zero b.stale_at)

  abbrev pub summary_of : (content : Text) → Option E → (importance confidence : W) → Candidate W E
  summary_of content embedding importance confidence = record {
    text = content;
    source = reflection;
    attribute = none;
    embedding = embedding;
    importance = some importance;
    confidence = some confidence;
    similarity = none;
  }

module _ {W E : Type 0} (now : ℕ) where
  abbrev pub consolidated_row : ℕ → Row W E → Row W E
  consolidated_row summary r = record r {
    consolidated_at = some now;
    consolidated_into = some summary;
  }

  abbrev pub retired_row : Row W E → Row W E
  retired_row r = record r { deleted_at = some now; updated_at = now }

  abbrev pub freed_row : Row W E → Row W E
  freed_row r = record r { consolidated_at = none; consolidated_into = none; updated_at = now }

module _ {W E : Type 0} (now : ℕ) (s : Session) where
  -- `write_summary`: the id of the summary and the sources that it claimed
  unfoldable pub write_summary :
      Backend W E
      → (content : Text) → Option E
      → (sources : List ℕ) → (importance confidence : W) → Tables W E
      → Tables W E × ℕ × List ℕ
  write_summary backend content embedding sources importance confidence db =
      let id = backend.new_id db.rows in
      let inserted =
        insert_memory backend s id (summary_of content embedding importance confidence) none
          db.rows in
      let trail = (write_audit db.trail (own_audit s id write Outcome.insert) false).0 in
      let claimed = map (λ r. r.id) (keep (is_claimable s sources) inserted) in
      (
        record {
          rows = update_where (is_claimable s sources) (consolidated_row now id) inserted;
          trail = audit_ids s update Outcome.consolidated false claimed trail;
        },
        id,
        claimed,
      )

  -- the body of the loop, on a summary that the UPDATE retired
  abbrev pub retire : ℕ → Tables W E → Tables W E × List ℕ × ℕ
  retire id db =
      let rows = update_where (is_retirable s id) (retired_row now) db.rows in
      let trail = (write_audit db.trail (own_audit s id delete Outcome.soft_deleted) true).0 in
      let released = map (λ r. r.id) (keep (is_folded s id) rows) in
      (
        record {
          rows = update_where (is_folded s id) (freed_row now) rows;
          trail = audit_ids s update Outcome.freed true released trail;
        },
        id ∷ [],
        length released,
      )

  abbrev pub rebuild_one : ℕ → Tables W E → Tables W E × List ℕ × ℕ
  rebuild_one id db =
      if is_any (keep (is_retirable s id) db.rows) then retire id db else (db, [], 0)

  -- the loop: the retired summaries and the number of freed sources
  unfoldable pub rebuild_all : List (Row W E) → Tables W E → Tables W E × List ℕ × ℕ
  rebuild_all [] db = (db, [], 0)
  rebuild_all (summary ∷ stale) db =
      let (db', retired, freed) = rebuild_one summary.id db in
      let (final, others, more) = rebuild_all stale db' in (final, retired ++ others, freed + more)

  -- `rebuild_stale_summaries`
  unfoldable pub rebuild_stale_summaries : (limit : ℕ) → Tables W E → Tables W E × List ℕ × ℕ
  unfolding rebuild_all
  rebuild_stale_summaries limit db =
      rebuild_all (take limit (sort stale_first (keep (is_stale s) db.rows))) db
