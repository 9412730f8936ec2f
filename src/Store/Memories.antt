-- ===== src/Store/Memories.antt =====
-- store/memories.py: the guarded write path. A function that takes the connection takes the
-- tables and returns them; the transaction and the advisory lock make it one step.
use conversational_memory_sy.Prelude.{
  ℕ, ◌+◌, ◌≡◌, Bool, true, false, not, ◌&&◌, Option, none, some, List, [], ◌∷◌, ◌++◌, ◌==◌,
  if◌then◌else◌, keep,
}
use conversational_memory_sy.Context.Text.{Text}
use conversational_memory_sy.Context.Tokens.{same_text}
use conversational_memory_sy.Store.{
  Origin, assistant_note, Row, Session, is_null, visible, update_where,
}
use conversational_memory_sy.Store.Audit.{Action, update, Outcome, AuditRow, Trail, write_audit}

-- What the write path asks of Postgres, of the clock and of capture/config.py; `nearest` is
-- `ORDER BY embedding <=> e LIMIT 1` with the similarity, `strengthen` is
-- `LEAST(weight + increment, maximum)`, `new_id` is `gen_random_uuid()` on a table.
pub record Backend (W E : Type 0) : Type 0 where
  pub nearest : E → List (Row W E) → Option (Row W E × W)
  pub at_least : W → W → Bool
  pub strengthen : W → W
  pub initial_weight : W
  pub new_id : List (Row W E) → ℕ
  pub new_id-IsFresh : (rows : List (Row W E)) → keep (λ r. r.id == new_id rows) rows ≡ []
  pub now : ℕ

-- What the write path reads of a `MemoryCandidate`; an embedding is not empty.
pub record Candidate (W E : Type 0) : Type 0 where
  pub text : Text
  pub source : Origin
  pub attribute : Option Text
  pub embedding : Option E
  pub importance : Option W
  pub confidence : Option W
  pub similarity : Option W

pub data Persisted : Type 0 where
  inserted reinforced ignored blocked : Persisted

-- A result of `persist_candidates`.
pub record Written (W : Type 0) : Type 0 where
  pub text : Text
  pub action : Persisted
  pub memory_id : Option ℕ
  pub attribute : Option Text
  pub superseded : List ℕ
  pub similarity : Option W

-- The two tables.
pub record Tables (W E : Type 0) : Type 0 where
  pub rows : List (Row W E)
  pub trail : Trail

abbrev pub is_assistant : Origin → Bool
is_assistant assistant_note = true
is_assistant _ = false

abbrev pub same_slot : Option Text → Option Text → Bool
same_slot (some a) (some b) = same_text a b
same_slot none none = true
same_slot _ _ = false

-- SQL's `attribute = a`
abbrev pub fills : Text → Option Text → Bool
fills a none = false
fills a (some b) = same_text a b

abbrev pub points_at : Option ℕ → ℕ → Bool
points_at none id = false
points_at (some other) id = other == id

module _ {W E : Type 0} (backend : Backend W E) (s : Session) where
  open backend use {nearest, at_least, strengthen, initial_weight, new_id, now}

  abbrev pub is_live : Row W E → Bool
  is_live r = is_null r.deleted_at && is_null r.superseded_at

  -- the WHERE clause of `find_similar`, with the row level security
  abbrev pub is_current : Row W E → Bool
  is_current r =
      visible s r && r.subject_id == s.subject_id && is_live r && not (is_null r.embedding)

  -- the WHERE clause of `_TOMBSTONE_SQL`
  abbrev pub is_retired : Row W E → Bool
  is_retired r =
      visible s r && r.subject_id == s.subject_id && not (is_null r.embedding) && not (is_live r)

  -- `find_similar`
  abbrev pub find_similar : E → List (Row W E) → Option (Row W E × W)
  find_similar e rows = nearest e (keep is_current rows)

  -- `find_similar_tombstones`
  abbrev pub find_similar_tombstones : E → List (Row W E) → Option (Row W E × W)
  find_similar_tombstones e rows = nearest e (keep is_retired rows)

  abbrev pub new_row : ℕ → Candidate W E → Option Text → Row W E
  new_row id c attribute = record {
    id = id;
    subject_id = s.subject_id;
    actor_id = s.actor_id;
    content = c.text;
    embedding = c.embedding;
    source = c.source;
    importance = c.importance;
    confidence = c.confidence;
    attribute = attribute;
    weight = initial_weight;
    reinforcement_count = 0;
    created_at = now;
    updated_at = now;
    last_accessed_at = now;
    deleted_at = none;
    superseded_at = none;
    superseded_by = none;
    stale_at = none;
    consolidated_at = none;
    consolidated_into = none;
    archived_at = none;
    decay_run_id = none;
  }

  -- `insert_memory`
  abbrev pub insert_memory : ℕ → Candidate W E → Option Text → List (Row W E) → List (Row W E)
  insert_memory id c attribute rows = rows ++ new_row id c attribute ∷ []

  abbrev pub is_reinforced : ℕ → Row W E → Bool
  is_reinforced id r = visible s r && r.id == id && is_null r.deleted_at

  abbrev pub reinforced_row : Row W E → Row W E
  reinforced_row r = record r {
    reinforcement_count = r.reinforcement_count + 1;
    weight = strengthen r.weight;
    updated_at = now;
    last_accessed_at = now;
  }

  -- `reinforce`
  abbrev pub reinforce : ℕ → List (Row W E) → List (Row W E)
  reinforce id = update_where (is_reinforced id) reinforced_row

  abbrev pub is_source : ℕ → Row W E → Bool
  is_source source r = visible s r && r.id == source

  -- `src.consolidated_into` of the row of this id; NULL where there is none
  abbrev pub folded_into : ℕ → List (Row W E) → Option ℕ
  folded_into source [] = none
  folded_into source (r ∷ rows) =
      let rest = folded_into source rows in if is_source source r then r.consolidated_into else rest

  -- the WHERE clause of `_STALE_SQL` on the summary
  abbrev pub goes_stale : Option ℕ → Row W E → Bool
  goes_stale summary r =
      visible s r
      && points_at summary r.id
      && r.subject_id == s.subject_id
      && is_null r.deleted_at
      && is_null r.stale_at

  abbrev pub stale_row : Row W E → Row W E
  stale_row r = record r { stale_at = some now; updated_at = now }

  abbrev pub audit_row : Action → Outcome → ℕ → AuditRow
  audit_row action outcome id = record {
    subject_id = s.subject_id;
    actor_id = s.actor_id;
    memory_id = some id;
    action = action;
    outcome = outcome;
  }

  -- the loops that audit the rows an UPDATE returned, `allow_repeat=True`
  abbrev pub audit_all : Outcome → List (Row W E) → Trail → Trail
  audit_all outcome [] trail = trail
  audit_all outcome (r ∷ rows) trail =
      audit_all outcome rows ((write_audit trail (audit_row update outcome r.id) true).0)

  -- `mark_summary_stale`
  unfoldable pub mark_summary_stale : ℕ → Tables W E → Tables W E
  mark_summary_stale source db =
      let summary = folded_into source db.rows in
      record {
        rows = update_where (goes_stale summary) stale_row db.rows;
        trail = audit_all Outcome.stale (keep (goes_stale summary) db.rows) db.trail;
      }

  -- the WHERE clause of `_SUPERSEDE_SQL`
  abbrev pub is_superseded : Text → ℕ → Row W E → Bool
  is_superseded attribute new_id r =
      visible s r
      && r.subject_id == s.subject_id
      && fills attribute r.attribute
      && not (r.id == new_id)
      && is_live r

  abbrev pub superseded_row : ℕ → Row W E → Row W E
  superseded_row new_id r = record r {
    superseded_by = some new_id;
    superseded_at = some now;
    updated_at = now;
  }

  -- the loop of `supersede_slot` over the rows it retired
  abbrev pub retire_all : List (Row W E) → Tables W E → Tables W E
  retire_all [] db = db
  retire_all (r ∷ retired) db =
      let db' = mark_summary_stale r.id db in
      retire_all retired (record {
        rows = db'.rows;
        trail = (write_audit db'.trail (audit_row update Outcome.superseded r.id) true).0;
      })

  -- `supersede_slot`, with the rows it retired
  unfoldable pub supersede_slot : Text → ℕ → Tables W E → Tables W E × List (Row W E)
  unfolding mark_summary_stale
  supersede_slot attribute new_id db =
      let retired = keep (is_superseded attribute new_id) db.rows in
      (
        retire_all retired (record {
          rows = update_where (is_superseded attribute new_id) (superseded_row new_id) db.rows;
          trail = db.trail;
        }),
        retired,
      )
