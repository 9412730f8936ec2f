-- ===== src/Api/Memories.antt =====
-- api/memories.py: the endpoints that list, erase and edit a memory. A transaction is one step, as the
-- advisory lock makes it; the ids are validated uuids, the identity is resolved.
pub mod Requests
pub mod Changes
pub mod Deletes
pub mod Runs
pub mod Listing
pub mod Cascade
pub mod Shelf
use conversational_memory_sy.Prelude.{
  ℕ, ◌≡◌, Bool, true, false, not, ◌&&◌, ◌||◌, Option, none, some, List, [], ◌∷◌, ◌++◌, map, ltb,
  ◌==◌, if◌then◌else◌, keep, take, drop, length,
}
use conversational_memory_sy.Prelude.Sorting.{sort}
use conversational_memory_sy.Context.Text.{Text}
use conversational_memory_sy.Store.{Row, Session, is_null, visible, update_where}
use conversational_memory_sy.Store.Attributes.{strip}
use conversational_memory_sy.Store.Audit.{
  Action, delete, update, Outcome, AuditRow, Trail, write_audit,
}
use conversational_memory_sy.Store.Memories.{Tables}
use conversational_memory_sy.Store.Invalidate.{invalidate_summaries_for}

-- How a request ends: done, or the status that `HTTPException` carries; `crashed` is the exception
-- of a provider.
pub data Answer : Type 0 where
  done not_found forbidden unprocessable bad_gateway crashed : Answer

-- What `ensure_owned` comes to.
pub data Checked (A : Type 0) : Type 0 where
  owned : A → Checked A
  denied : Answer → Checked A

-- What awaiting `embed([content])` comes to; `no_vector` is an empty answer.
pub data Embedded (E : Type 0) : Type 0 where
  vector : E → Embedded E
  no_vector embed_raised : Embedded E

module _ {W E : Type 0} where
  -- SELECT ... WHERE id = %s, on what the connection sees
  abbrev pub find_row : (Row W E → Bool) → ℕ → List (Row W E) → Option (Row W E)
  find_row sees id [] = none
  find_row sees id (r ∷ rows) =
      let rest = find_row sees id rows in if sees r && r.id == id then some r else rest

  abbrev pub check_row : ℕ → Option (Row W E) → Checked (Row W E)
  check_row subject_id none = denied not_found
  check_row subject_id (some r) =
      if not (r.subject_id == subject_id)
      then denied forbidden
      else if is_null r.deleted_at
      then owned r
      else denied not_found

  -- `ensure_owned`, which requires a live row
  unfoldable pub ensure_owned :
      (Row W E → Bool) → ℕ → (subject_id : ℕ) → List (Row W E) → Checked (Row W E)
  ensure_owned sees id subject_id rows = check_row subject_id (find_row sees id rows)

  -- a new transaction has audited nothing yet
  abbrev pub begin : Tables W E → Tables W E
  begin db = record db { trail = record db.trail { seen = some [] } }

  abbrev pub is_any : List (Row W E) → Bool
  is_any [] = false
  is_any (_ ∷ _) = true

  -- the order of the list: the newest first, then by id
  abbrev pub newer : Row W E → Row W E → Bool
  newer a b = ltb b.created_at a.created_at || (a.created_at == b.created_at && ltb a.id b.id)

  -- the WHERE clause of the list
  abbrev pub is_listed : Session → Row W E → Bool
  is_listed s r = visible s r && r.subject_id == s.subject_id && is_null r.deleted_at

  abbrev pub listing : Session → List (Row W E) → List (Row W E)
  listing s rows = sort newer (keep (is_listed s) rows)

  -- `list_my_memories`: the page, and `X-Total-Count`
  unfoldable pub list_my_memories :
      Session → (limit offset : ℕ) → List (Row W E) → List (Row W E) × ℕ
  list_my_memories s limit offset rows =
      (take limit (drop offset (listing s rows)), length (keep (is_listed s) rows))

-- the audit row of a change that the owner makes
abbrev pub own_audit : Session → ℕ → Action → Outcome → AuditRow
own_audit s id action outcome = record {
  subject_id = s.subject_id;
  actor_id = s.actor_id;
  memory_id = some id;
  action = action;
  outcome = outcome;
}

module _ {W E : Type 0} (now : ℕ) where
  abbrev pub erased_row : Row W E → Row W E
  erased_row r = record r { deleted_at = some now; updated_at = now }

  abbrev pub edited_row : Text → E → Row W E → Row W E
  edited_row content e r = record r { content = content; embedding = some e; updated_at = now }

module _ {W E : Type 0} (s : Session) (id : ℕ) where
  -- the WHERE clause of both UPDATEs, with the row level security
  abbrev pub is_target : Row W E → Bool
  is_target r = visible s r && r.id == id && r.subject_id == s.subject_id && is_null r.deleted_at

  -- an UPDATE of the target and its audit row
  abbrev pub changed : (Row W E → Row W E) → AuditRow → Tables W E → Tables W E
  changed change audit db = record {
    rows = update_where is_target change db.rows;
    trail = (write_audit (begin db).trail audit false).0;
  }

  -- 404 if it matched no row
  abbrev pub change_target : (Row W E → Row W E) → AuditRow → Tables W E → Tables W E × Answer
  change_target change audit db =
      if is_any (keep is_target db.rows) then (changed change audit db, done) else (db, not_found)

module _ {W E : Type 0} (now : ℕ) (s : Session) (id : ℕ) where
  -- the last transaction of `delete_memory`
  unfoldable pub erase : Tables W E → Tables W E × Answer
  erase = change_target s id (erased_row now) (own_audit s id delete Outcome.soft_deleted)

  abbrev pub edit_owned : Text → E → Checked (Row W E) → Tables W E → Tables W E × Answer
  edit_owned content e (denied answer) db = (db, answer)
  edit_owned content e (owned _) db =
      change_target s id (edited_row now content e) (own_audit s id update Outcome.edited) db

  -- the last transaction of `patch_memory`
  unfoldable pub edit : Text → E → Tables W E → Tables W E × Answer
  unfolding ensure_owned
  edit content e db = edit_owned content e (ensure_owned (visible s) id s.subject_id db.rows) db

  abbrev pub erase_owned : Checked (Row W E) → Tables W E → Tables W E × Answer
  erase_owned (denied answer) db = (db, answer)
  erase_owned (owned _) db = erase (invalidate_summaries_for now s id db)

  -- `delete_memory`, undisturbed
  unfoldable pub delete_memory : Tables W E → Tables W E × Answer
  unfolding erase ensure_owned invalidate_summaries_for
  delete_memory db = erase_owned (ensure_owned (visible s) id s.subject_id db.rows) db

  abbrev pub edit_checked : Text → Embedded E → Checked (Row W E) → Tables W E → Tables W E × Answer
  edit_checked content answer (denied refusal) db = (db, refusal)
  edit_checked content (vector e) (owned _) db =
      edit content e (invalidate_summaries_for now s id db)
  edit_checked content no_vector (owned _) db = (db, bad_gateway)
  edit_checked content embed_raised (owned _) db = (db, crashed)

  abbrev pub edit_stripped : Text → Embedded E → Tables W E → Tables W E × Answer
  edit_stripped [] answer db = (db, unprocessable)
  edit_stripped (c ∷ cs) answer db =
      edit_checked (c ∷ cs) answer (ensure_owned (visible s) id s.subject_id db.rows) db

  -- `patch_memory`, undisturbed; `embedded` is the provider's answer for the stripped content
  unfoldable pub patch_memory :
      (content : Text) → (embedded : Embedded E) → Tables W E → Tables W E × Answer
  unfolding edit ensure_owned strip invalidate_summaries_for
  patch_memory content embedded db = edit_stripped (strip content) embedded db
