-- ===== src/Api/Memories/Deletes.antt =====
-- api/memories.py: erasures under any interleaving of requests.
use conversational_memory_sy.Prelude.{
  ℕ, suc, ◌+◌, ◌≤◌, ◌≡◌, refl, ◌∙◌, true, false, ◌&&◌, some, List, [], ◌∷◌, ◌++◌, map, ◌==◌,
  if◌then◌else◌, keep, count_if, arith, Bool-cases, inl, inr,
}
use conversational_memory_sy.Context.Text.{Text}
use conversational_memory_sy.Store.{Row, Session, update_where, visible}
use conversational_memory_sy.Store.Updates.{count-append, count-update_where}
use conversational_memory_sy.Store.Audit.{
  delete, update, same_action, same_id, AuditRow, write_audit, rows_of, Outcome,
}
use conversational_memory_sy.Store.Memories.{Tables}
use conversational_memory_sy.Store.Invalidate.{
  invalidate_summaries_for, stale_audit, stale_any_row, goes_stale_any, folded_into_any,
}
use conversational_memory_sy.Api.Memories.{
  ensure_owned, erase, edit, is_any, is_target, erased_row, edited_row, own_audit,
}
use conversational_memory_sy.Api.Memories.Changes.{
  is_done, count-leave, count_mono, count_any, target-is_live, target-has_id, change_target-by,
  edit_owned-by,
}
use conversational_memory_sy.Api.Memories.Requests.{has_id, is_live}

pub rows_of-append :
    (m : ℕ) (rows : List AuditRow) (row : AuditRow)
    → rows_of delete (some m) (rows ++ row ∷ [])
      ≡ rows_of delete (some m) rows
        + (if same_action row.action delete && same_id row.memory_id (some m) then 1 else 0)
rows_of-append m rows row =
    count-append (λ r. same_action r.action delete && same_id r.memory_id (some m)) rows (row ∷ [])
    ∙ ground arith

module _ {W E : Type 0} where
  -- what a step owes: audit rows and acknowledgements grow together, live rows shrink with them
  abbrev pub Ledger : (m : ℕ) → (before after : Tables W E) → (had has : ℕ) → Type 0
  Ledger m before after had has =
      (rows_of delete (some m) after.trail.rows + had
        ≡ rows_of delete (some m) before.trail.rows + has)
      × (count_if (is_live m) after.rows + has ≡ count_if (is_live m) before.rows + had)
      × (count_if (has_id m) after.rows ≡ count_if (has_id m) before.rows)

  rows_of-stale :
      (m : ℕ) (s : Session) (rows : List (Row W E))
      → rows_of delete (some m) (map (stale_audit s) rows) ≡ 0
  rows_of-stale m s [] = refl
  rows_of-stale m s (r ∷ rows) = rows_of-stale m s rows

  pub invalidate-Ledger :
      (now m : ℕ) (s : Session) (source : ℕ) (db : Tables W E)
      → (a : ℕ) → Ledger m db (invalidate_summaries_for now s source db) a a
  unfolding invalidate_summaries_for
  invalidate-Ledger now m s source db a =
      let test = goes_stale_any s (folded_into_any s source db.rows) in
      let audits =
        count-append (λ r. same_action r.action delete && same_id r.memory_id (some m))
          db.trail.rows (map (stale_audit s) (keep test db.rows)) in
      (
        omega (arith, audits, rows_of-stale m s (keep test db.rows)),
        omega
            (arith, count-update_where (is_live m) test (stale_any_row now) (λ r _. refl) db.rows),
        count-update_where (has_id m) test (stale_any_row now) (λ r _. refl) db.rows,
      )

  pub edit-Ledger :
      (now : ℕ) (s : Session) (id : ℕ) (content : Text) (e : E) (m : ℕ) (db : Tables W E) (a : ℕ)
      → Ledger m db (edit now s id content e db).0 a a
  unfolding edit write_audit
  edit-Ledger now s id content e m db a =
      let audit = own_audit s id update Outcome.edited in
      let change = edited_row now content e in
      edit_owned-by (λ r. Ledger m db r.0 a a) now s id content e
        (ensure_owned (visible s) id s.subject_id db.rows) db (λ _. (refl, refl, refl))
        (change_target-by (λ r. Ledger m db r.0 a a) s id change audit db
          (λ _. (
            omega (arith, rows_of-append m db.trail.rows audit),
            omega (
              arith,
              count-update_where (is_live m) (is_target s id) change (λ r _. refl) db.rows,
            ),
            count-update_where (has_id m) (is_target s id) change (λ r _. refl) db.rows,
          ))
          (λ _. (refl, refl, refl)))

  -- an erasure of a target takes the one live row of its id
  erase-one :
      (now : ℕ) (s : Session) (id m : ℕ) (rows : List (Row W E))
      → (id == m) ≡ true
      → count_if (has_id m) rows ≤ 1
      → is_any (keep (is_target s id) rows) ≡ true
      → suc (count_if (is_live m) (update_where (is_target s id) (erased_row now) rows))
        ≡ count_if (is_live m) rows
  erase-one now s id m rows same key hit =
      let leave =
        count-leave (is_live m) (is_target s id) (erased_row now) (target-is_live s id m same)
          (λ r _. ground arith) rows in
      let within = count_mono (is_target s id) (has_id m) (target-has_id s id m same) rows in
      omega (arith, leave, within, count_any (is_target s id) rows hit, key)

  -- and no row of another id
  erase-others :
      (now : ℕ) (s : Session) (id m : ℕ) (rows : List (Row W E))
      → (id == m) ≡ false
      → count_if (is_live m) (update_where (is_target s id) (erased_row now) rows)
        ≡ count_if (is_live m) rows
  erase-others now s id m rows other =
      count-update_where (is_live m) (is_target s id) (erased_row now)
        (λ r hit. ground (arith, hit, other)) rows

  pub erase-Ledger :
      (now : ℕ) (s : Session) (id m : ℕ) (db : Tables W E)
      → count_if (has_id m) db.rows ≤ 1
      → (a : ℕ)
      → Ledger m db
          (erase now s id db).0
          a
          (if is_done (erase now s id db).1 && id == m then suc a else a)
  unfolding erase write_audit
  erase-Ledger now s id m db key a =
      let audit = own_audit s id delete Outcome.soft_deleted in
      let change = erased_row now in
      let ids = count-update_where (has_id m) (is_target s id) change (λ r _. refl) db.rows in
      let audits = rows_of-append m db.trail.rows audit in
      change_target-by (λ r. Ledger m db r.0 a (if is_done r.1 && id == m then suc a else a)) s id
        change audit db
        (λ hit. elim (Bool-cases (id == m)) [
          | inl same ↦
              let live = erase-one now s id m db.rows same key hit in
              (ground (arith, same, audits), ground (arith, same, live), ids)
          | inr other ↦
              let live = erase-others now s id m db.rows other in
              (ground (arith, other, audits), ground (arith, other, live), ids)
        ])
        (λ _. (refl, refl, refl))
