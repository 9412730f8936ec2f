-- ===== src/Store/Persist/Isolation.antt =====
-- Rows that a capture write must not touch: other owners' rows and erased rows.
use conversational_memory_sy.Prelude.{
  ℕ, ◌≡◌, refl, Bool, true, false, not, ◌||◌, List, [], ◌∷◌, keep, Bool-cases, inl, inr, arith,
  if◌then◌else◌, ◌∙◌, Option, none, some,
}
use conversational_memory_sy.Context.Text.{Text}
use conversational_memory_sy.Store.{Row, Session, is_null, visible, update_where}
use conversational_memory_sy.Store.Updates.{keep-update_where, keep-drop}
use conversational_memory_sy.Store.Memories.{
  Backend, Candidate, Tables, is_assistant, goes_stale, stale_row, mark_summary_stale, folded_into,
  is_superseded, superseded_row, retire_all, supersede_slot, new_row, is_reinforced, reinforced_row,
  insert_memory,
}
use conversational_memory_sy.Store.Persist.{
  persist_one, persist_candidates, persist_new, persist_duplicate, persist_match, persist_unless,
  retire_slot, granted_slot, duplicate, near_match, tombstone,
}
use conversational_memory_sy.Store.Attributes.{is_single_valued}

-- another owner's row, or one that the user has erased
abbrev pub is_frozen : {W E : Type 0} → Session → Row W E → Bool
is_frozen s r = not (visible s r) || not (is_null r.deleted_at)

module _ {W E : Type 0} (backend : Backend W E) (s : Session) where
  stale-apart :
      (summary : Option ℕ) (r : Row W E)
      → goes_stale backend s summary r ≡ true
      → is_frozen s r ≡ false
  stale-apart summary r h = ground arith

  superseded-apart :
      (attribute : Text) (id : ℕ) (r : Row W E)
      → is_superseded backend s attribute id r ≡ true
      → is_frozen s r ≡ false
  superseded-apart attribute id r h = ground arith

  reinforced-apart :
      (id : ℕ) (r : Row W E) → is_reinforced backend s id r ≡ true → is_frozen s r ≡ false
  reinforced-apart id r h = ground arith

  retire_all-frozen :
      (retired : List (Row W E)) (db : Tables W E)
      → keep (is_frozen s) (retire_all backend s retired db).rows ≡ keep (is_frozen s) db.rows
  unfolding mark_summary_stale
  retire_all-frozen [] db = refl
  retire_all-frozen (r ∷ retired) db =
      let summary = folded_into backend s r.id db.rows in
      retire_all-frozen retired _
      ∙ keep-update_where (is_frozen s) (goes_stale backend s summary) (stale_row backend s)
          (stale-apart summary) (λ x. refl) db.rows

  supersede-frozen :
      (attribute : Text) (id : ℕ) (db : Tables W E)
      → keep (is_frozen s) (supersede_slot backend s attribute id db).0.rows
        ≡ keep (is_frozen s) db.rows
  unfolding supersede_slot
  supersede-frozen attribute id db =
      retire_all-frozen (keep (is_superseded backend s attribute id) db.rows) (record {
        rows =
            update_where (is_superseded backend s attribute id) (superseded_row backend s id)
              db.rows;
        trail = db.trail;
      })
      ∙ keep-update_where (is_frozen s) (is_superseded backend s attribute id)
          (superseded_row backend s id) (superseded-apart attribute id) (λ x. refl) db.rows

  insert-frozen :
      (id : ℕ) (c : Candidate W E) (attribute : Option Text) (rows : List (Row W E))
      → keep (is_frozen s) (insert_memory backend s id c attribute rows) ≡ keep (is_frozen s) rows
  insert-frozen id c attribute rows =
      keep-drop (is_frozen s) rows (new_row backend s id c attribute) (ground arith)

  module _ (limit : W) where
    retire_slot-frozen :
        (attribute : Option Text) (id : ℕ) (db : Tables W E)
        → keep (is_frozen s) (retire_slot backend s limit attribute id db).0.rows
          ≡ keep (is_frozen s) db.rows
    retire_slot-frozen none id db = refl
    retire_slot-frozen (some attribute) id db =
        elim (Bool-cases (is_single_valued (some attribute))) [
          | inl single ↦ rw (single) (supersede-frozen attribute id db)
          | inr plural ↦ rw (plural)
        ]

    persist_new-frozen :
        (c : Candidate W E) (attribute : Option Text) (db : Tables W E)
        → keep (is_frozen s) (persist_new backend s limit c attribute db).0.rows
          ≡ keep (is_frozen s) db.rows
    unfolding persist_new
    persist_new-frozen c attribute db =
        retire_slot-frozen attribute (backend.new_id db.rows) (record {
          rows = insert_memory backend s (backend.new_id db.rows) c attribute db.rows;
          trail = db.trail;
        })
        ∙ insert-frozen (backend.new_id db.rows) c attribute db.rows

    persist_duplicate-frozen :
        (c : Candidate W E) (r : Row W E) (w : W) (db : Tables W E)
        → keep (is_frozen s) (persist_duplicate backend s limit c r w db).0.rows
          ≡ keep (is_frozen s) db.rows
    persist_duplicate-frozen c r w db = elim (Bool-cases (is_assistant c.source)) [
      | inl assistant ↦ rw (assistant)
      | inr user ↦ rw (user) (
          keep-update_where (is_frozen s) (is_reinforced backend s r.id) (reinforced_row backend s)
            (reinforced-apart r.id) (λ x. refl) db.rows)
    ]

    persist_match-frozen :
        (c : Candidate W E) (attribute : Option Text) (match : Option (Row W E × W))
        (db : Tables W E)
        → keep (is_frozen s) (persist_match backend s limit c attribute match db).0.rows
          ≡ keep (is_frozen s) db.rows
    persist_match-frozen c attribute none db = persist_new-frozen c attribute db
    persist_match-frozen c attribute (some (r, w)) db = persist_duplicate-frozen c r w db

    persist_unless-frozen :
        (c : Candidate W E) (grave : Option (Row W E × W)) (db : Tables W E)
        → keep (is_frozen s) (persist_unless backend s limit c grave db).0.rows
          ≡ keep (is_frozen s) db.rows
    persist_unless-frozen c (some grave) db = refl
    persist_unless-frozen c none db =
        persist_match-frozen c (granted_slot backend s limit c)
          (duplicate backend s limit (granted_slot backend s limit c) c.text
            (near_match backend s limit c.embedding db.rows))
          db

    persist_one-frozen :
        (c : Candidate W E) (db : Tables W E)
        → keep (is_frozen s) (persist_one backend s limit c db).0.rows ≡ keep (is_frozen s) db.rows
    unfolding persist_one
    persist_one-frozen c db =
        persist_unless-frozen c
          (if is_assistant c.source then tombstone backend s limit c.embedding db.rows else none) db

    -- A batch of candidates leaves every row of another owner and every row that was erased
    -- exactly as it was, and adds no such row.
    pub persist-frozen :
        (items : List (Candidate W E)) (db : Tables W E)
        → keep (is_frozen s) (persist_candidates backend s limit items db).0.rows
          ≡ keep (is_frozen s) db.rows
    unfolding persist_candidates
    persist-frozen [] db = refl
    persist-frozen (c ∷ items) db =
        persist-frozen items (persist_one backend s limit c db).0 ∙ persist_one-frozen c db
