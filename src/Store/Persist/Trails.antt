-- ===== src/Store/Persist/Trails.antt =====
-- The `write` rows that a batch of candidates leaves in the audit trail.
use conversational_memory_sy.Prelude.{
  ℕ, ◌+◌, ◌≡◌, refl, ap, ◌∙◌, Bool, true, false, List, [], ◌∷◌, ◌++◌, count_if, Bool-cases, inl,
  inr, arith, if◌then◌else◌, Option, none, some, keep,
}
use conversational_memory_sy.Context.Text.{Text}
use conversational_memory_sy.Store.{Row, Session, update_where}
use conversational_memory_sy.Store.Updates.{count-append}
use conversational_memory_sy.Store.Audit.{
  write, update, Outcome, AuditRow, Trail, same_action, write_audit,
}
use conversational_memory_sy.Store.Memories.{
  Backend, Candidate, inserted, reinforced, Written, Tables, is_assistant, audit_all, audit_row,
  goes_stale, folded_into, mark_summary_stale, is_superseded, superseded_row, retire_all,
  supersede_slot, insert_memory,
}
use conversational_memory_sy.Store.Persist.{
  persist_one, persist_candidates, persist_new, persist_duplicate, persist_match, persist_unless,
  granted_slot, duplicate, near_match, tombstone, retire_slot,
}
use conversational_memory_sy.Store.Attributes.{is_single_valued}

abbrev pub writes : Trail → ℕ
writes trail = count_if (λ r. same_action r.action write) trail.rows

abbrev pub changed : {W : Type 0} → Written W → Bool
changed result = elim result.action [ inserted ↦ true | reinforced ↦ true | _ ↦ false ]

-- a row written with `allow_repeat` is written whatever was seen
write_audit-repeat :
    (trail : Trail) (row : AuditRow) → (write_audit trail row true).0.rows ≡ trail.rows ++ row ∷ []
unfolding write_audit
write_audit-repeat trail row = ground arith

writes-write :
    (trail : Trail) (row : AuditRow)
    → row.action ≡ write
    → writes (write_audit trail row true).0 ≡ writes trail + 1
writes-write trail row h =
    ap (count_if (λ r. same_action r.action write)) (write_audit-repeat trail row)
    ∙ (count-append (λ r. same_action r.action write) trail.rows (row ∷ []) ∙ rw (h) refl)

writes-update :
    (trail : Trail) (row : AuditRow)
    → row.action ≡ update
    → writes (write_audit trail row true).0 ≡ writes trail
writes-update trail row h =
    ap (count_if (λ r. same_action r.action write)) (write_audit-repeat trail row)
    ∙ (count-append (λ r. same_action r.action write) trail.rows (row ∷ []) ∙ rw (h) (omega arith))

module _ {W E : Type 0} (backend : Backend W E) (s : Session) where
  audit_all-writes :
      (outcome : Outcome) (rows : List (Row W E)) (trail : Trail)
      → writes (audit_all backend s outcome rows trail) ≡ writes trail
  audit_all-writes outcome [] trail = refl
  audit_all-writes outcome (r ∷ rows) trail =
      audit_all-writes outcome rows
        (write_audit trail (audit_row backend s update outcome r.id) true).0
      ∙ writes-update trail (audit_row backend s update outcome r.id) refl

  mark_stale-writes :
      (source : ℕ) (db : Tables W E)
      → writes (mark_summary_stale backend s source db).trail ≡ writes db.trail
  unfolding mark_summary_stale
  mark_stale-writes source db =
      audit_all-writes Outcome.stale
        (keep (goes_stale backend s (folded_into backend s source db.rows)) db.rows) db.trail

  retire_all-writes :
      (retired : List (Row W E)) (db : Tables W E)
      → writes (retire_all backend s retired db).trail ≡ writes db.trail
  retire_all-writes [] db = refl
  retire_all-writes (r ∷ retired) db =
      let db' = mark_summary_stale backend s r.id db in
      let row = audit_row backend s update Outcome.superseded r.id in
      retire_all-writes retired
        (record { rows = db'.rows; trail = (write_audit db'.trail row true).0 })
      ∙ (writes-update db'.trail row refl ∙ mark_stale-writes r.id db)

  supersede-writes :
      (attribute : Text) (id : ℕ) (db : Tables W E)
      → writes (supersede_slot backend s attribute id db).0.trail ≡ writes db.trail
  unfolding supersede_slot
  supersede-writes attribute id db =
      retire_all-writes (keep (is_superseded backend s attribute id) db.rows) (record {
        rows =
            update_where (is_superseded backend s attribute id) (superseded_row backend s id)
              db.rows;
        trail = db.trail;
      })

  module _ (limit : W) where
    -- the `write` rows grew by one exactly if the result says that something was written
    abbrev Counts : Tables W E → Tables W E × Written W → Type 0
    Counts db (db', result) = writes db'.trail ≡ writes db.trail + (if changed result then 1 else 0)

    retire_slot-writes :
        (attribute : Option Text) (id : ℕ) (db : Tables W E)
        → writes (retire_slot backend s limit attribute id db).0.trail ≡ writes db.trail
    retire_slot-writes none id db = refl
    retire_slot-writes (some attribute) id db =
        elim (Bool-cases (is_single_valued (some attribute))) [
          | inl single ↦ rw (single) (supersede-writes attribute id db)
          | inr plural ↦ rw (plural)
        ]

    persist_new-Counts :
        (c : Candidate W E) (attribute : Option Text) (db : Tables W E)
        → Counts db (persist_new backend s limit c attribute db)
    unfolding persist_new
    persist_new-Counts c attribute db =
        let id = backend.new_id db.rows in
        let start : Tables W E = record {
          rows = insert_memory backend s id c attribute db.rows;
          trail = db.trail;
        } in
        let after = (retire_slot backend s limit attribute id start).0 in
        let row = audit_row backend s write Outcome.insert id in
        writes-write after.trail row refl ∙ ap (λ n. n + 1) (retire_slot-writes attribute id start)

    persist_duplicate-Counts :
        (c : Candidate W E) (r : Row W E) (w : W) (db : Tables W E)
        → Counts db (persist_duplicate backend s limit c r w db)
    persist_duplicate-Counts c r w db = elim (Bool-cases (is_assistant c.source)) [
      | inl assistant ↦ rw (assistant) (omega arith)
      | inr user ↦
          rw (user) (writes-write db.trail (audit_row backend s write Outcome.reinforce r.id) refl)
    ]

    persist_match-Counts :
        (c : Candidate W E) (attribute : Option Text) (match : Option (Row W E × W))
        (db : Tables W E)
        → Counts db (persist_match backend s limit c attribute match db)
    persist_match-Counts c attribute none db = persist_new-Counts c attribute db
    persist_match-Counts c attribute (some (r, w)) db = persist_duplicate-Counts c r w db

    persist_unless-Counts :
        (c : Candidate W E) (grave : Option (Row W E × W)) (db : Tables W E)
        → Counts db (persist_unless backend s limit c grave db)
    persist_unless-Counts c (some grave) db = omega arith
    persist_unless-Counts c none db =
        let slot = granted_slot backend s limit c in
        persist_match-Counts c slot
          (duplicate backend s limit slot c.text (near_match backend s limit c.embedding db.rows))
          db

    persist_one-Counts :
        (c : Candidate W E) (db : Tables W E) → Counts db (persist_one backend s limit c db)
    unfolding persist_one
    persist_one-Counts c db =
        persist_unless-Counts c
          (if is_assistant c.source then tombstone backend s limit c.embedding db.rows else none) db

    -- A batch of candidates adds to the trail as many `write` rows as it has results that say
    -- insert or reinforce.
    pub persist-audited :
        (items : List (Candidate W E)) (db : Tables W E)
        → writes (persist_candidates backend s limit items db).0.trail
          ≡ writes db.trail + count_if changed (persist_candidates backend s limit items db).1
    unfolding persist_candidates
    persist-audited [] db = omega arith
    persist-audited (c ∷ items) db =
        let one = persist_one-Counts c db in
        let rest = persist-audited items (persist_one backend s limit c db).0 in
        ground (arith, one, rest)
