-- ===== src/Store/Persist.antt =====
-- store/memories.py: `persist_candidates`, the insert-or-reinforce of a batch of candidates under
-- the advisory lock. The verdict of the dedup node and the log lines are left out.
pub mod Isolation
pub mod Slots
pub mod Uniqueness
pub mod Assistant
pub mod Trails
pub mod Growth
use conversational_memory_sy.Prelude.{
  ℕ, zero, suc, ◌+◌, ◌≡◌, refl, Bool, true, false, not, ◌&&◌, ◌||◌, Option, none, some, List, [],
  ◌∷◌, ◌++◌, map, ◌==◌, if◌then◌else◌, keep,
}
use conversational_memory_sy.Context.Text.{Text}
use conversational_memory_sy.Context.Tokens.{same_text}
use conversational_memory_sy.Store.{Row, Session}
use conversational_memory_sy.Store.Attributes.{strip, is_single_valued}
use conversational_memory_sy.Store.Audit.{Action, write, Outcome, write_audit}
use conversational_memory_sy.Store.Memories.{
  Backend, Candidate, Persisted, inserted, reinforced, ignored, blocked, Written, Tables,
  is_assistant, same_slot, find_similar, find_similar_tombstones, insert_memory, reinforce,
  audit_row, supersede_slot,
}

module _ {W E : Type 0} (backend : Backend W E) (s : Session) (limit : W) where
  open backend use {at_least, new_id}

  -- the match, if it is similar enough
  abbrev pub over_limit : Option (Row W E × W) → Option (Row W E × W)
  over_limit none = none
  over_limit (some (r, similarity)) =
      if at_least similarity limit then some (r, similarity) else none

  abbrev pub tombstone : Option E → List (Row W E) → Option (Row W E × W)
  tombstone none rows = none
  tombstone (some e) rows = over_limit (find_similar_tombstones backend s e rows)

  abbrev pub near_match : Option E → List (Row W E) → Option (Row W E × W)
  near_match none rows = none
  near_match (some e) rows = over_limit (find_similar backend s e rows)

  -- the same single-valued slot with another value
  abbrev pub contradicts : Option Text → Text → Row W E → Bool
  contradicts attribute text r =
      is_single_valued attribute
      && same_slot r.attribute attribute
      && not (same_text (strip r.content) (strip text))

  abbrev pub duplicate : Option Text → Text → Option (Row W E × W) → Option (Row W E × W)
  duplicate attribute text none = none
  duplicate attribute text (some (r, similarity)) =
      if contradicts attribute text r then none else some (r, similarity)

  -- the attribute that the candidate may set
  abbrev pub granted_slot : Candidate W E → Option Text
  granted_slot c = if is_assistant c.source then none else c.attribute

  abbrev pub retire_slot : Option Text → ℕ → Tables W E → Tables W E × List (Row W E)
  retire_slot none id db = (db, [])
  retire_slot (some attribute) id db =
      if is_single_valued (some attribute)
      then supersede_slot backend s attribute id db
      else (db, [])

  -- the branch that inserts
  unfoldable pub persist_new : Candidate W E → Option Text → Tables W E → Tables W E × Written W
  unfolding is_single_valued supersede_slot
  persist_new c attribute db =
      let id = new_id db.rows in
      let (db', retired) =
        retire_slot attribute id
          (record { rows = insert_memory backend s id c attribute db.rows; trail = db.trail }) in
      (
        record {
          rows = db'.rows;
          trail = (write_audit db'.trail (audit_row backend s write Outcome.insert id) true).0;
        },
        record {
          text = c.text;
          action = inserted;
          memory_id = some id;
          attribute = attribute;
          superseded = map (λ r. r.id) retired;
          similarity = c.similarity;
        },
      )

  abbrev pub found : Candidate W E → Row W E → W → Persisted → Written W
  found c r similarity action = record {
    text = c.text;
    action = action;
    memory_id = some r.id;
    attribute = none;
    superseded = [];
    similarity = some similarity;
  }

  -- the branches that find a duplicate
  abbrev pub persist_duplicate : Candidate W E → Row W E → W → Tables W E → Tables W E × Written W
  persist_duplicate c r similarity db =
      if is_assistant c.source then (db, found c r similarity ignored) else (
        record {
          rows = reinforce backend s r.id db.rows;
          trail = (write_audit db.trail (audit_row backend s write Outcome.reinforce r.id) true).0;
        },
        found c r similarity reinforced,
      )

  abbrev pub persist_match :
      Candidate W E → Option Text → Option (Row W E × W) → Tables W E → Tables W E × Written W
  persist_match c attribute none db = persist_new c attribute db
  persist_match c attribute (some (r, similarity)) db = persist_duplicate c r similarity db

  abbrev pub persist_unless :
      Candidate W E → Option (Row W E × W) → Tables W E → Tables W E × Written W
  persist_unless c (some (grave, similarity)) db = (
    db,
    record {
      text = c.text;
      action = blocked;
      memory_id = none;
      attribute = none;
      superseded = [];
      similarity = some similarity;
    },
  )
  persist_unless c none db =
      let attribute = granted_slot c in
      persist_match c attribute (duplicate attribute c.text (near_match c.embedding db.rows)) db

  -- one round of the loop
  unfoldable pub persist_one : Candidate W E → Tables W E → Tables W E × Written W
  unfolding persist_new is_single_valued strip
  persist_one c db =
      persist_unless c (if is_assistant c.source then tombstone c.embedding db.rows else none) db

  -- `persist_candidates`
  unfoldable pub persist_candidates :
      List (Candidate W E) → Tables W E → Tables W E × List (Written W)
  unfolding persist_one
  persist_candidates [] db = (db, [])
  persist_candidates (c ∷ items) db =
      let (db', result) = persist_one c db in
      let (final, results) = persist_candidates items db' in (final, result ∷ results)
