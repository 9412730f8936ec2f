-- ===== src/Api/Memories/Changes.antt =====
-- api/memories.py: what an UPDATE of one memory may come to, and what it counts.
use conversational_memory_sy.Prelude.{
  ℕ, ◌+◌, ◌≤◌, ◌≡◌, refl, Bool, true, false, Option, none, some, List, [], ◌∷◌, ◌==◌, keep,
  count_if, arith, Bool-cases, inl, inr,
}
use conversational_memory_sy.Context.Text.{Text}
use conversational_memory_sy.Store.{Row, Session, is_null, update_where}
use conversational_memory_sy.Store.Audit.{update, AuditRow, Outcome}
use conversational_memory_sy.Store.Memories.{Tables}
use conversational_memory_sy.Api.Memories.{
  Answer, done, not_found, forbidden, Checked, owned, denied, check_row, is_any, is_target, changed,
  change_target, edited_row, own_audit, edit_owned,
}
use conversational_memory_sy.Api.Memories.Requests.{has_id, is_live}

abbrev pub is_done : Answer → Bool
is_done done = true
is_done _ = false

module _ {W E : Type 0} where
  -- an UPDATE that takes what it matches out of a count
  pub count-leave :
      (p test : Row W E → Bool) (change : Row W E → Row W E)
      → ((r : Row W E) → test r ≡ true → p r ≡ true)
      → ((r : Row W E) → test r ≡ true → p (change r) ≡ false)
      → (rows : List (Row W E))
      → count_if p (update_where test change rows) + count_if test rows ≡ count_if p rows
  count-leave p test change was left [] = refl
  count-leave p test change was left (r ∷ rows) = elim (Bool-cases (test r)) [
    | inl hit ↦ ground (arith, hit, was r hit, left r hit, count-leave p test change was left rows)
    | inr miss ↦ ground (arith, miss, count-leave p test change was left rows)
  ]

  pub count_mono :
      (p q : Row W E → Bool)
      → ((r : Row W E) → p r ≡ true → q r ≡ true)
      → (rows : List (Row W E)) → count_if p rows ≤ count_if q rows
  count_mono p q within [] = omega arith
  count_mono p q within (r ∷ rows) = elim (Bool-cases (p r)) [
    | inl hit ↦ ground (arith, hit, within r hit, count_mono p q within rows)
    | inr miss ↦ ground (arith, miss, count_mono p q within rows)
  ]

  -- an UPDATE that matched a row
  pub count_any :
      (p : Row W E → Bool) (rows : List (Row W E))
      → is_any (keep p rows) ≡ true
      → 1 ≤ count_if p rows
  count_any p [] h = ground (arith, h)
  count_any p (r ∷ rows) h = elim (Bool-cases (p r)) [
    | inl hit ↦ ground (arith, hit)
    | inr miss ↦ ground (arith, miss, count_any p rows (ground (arith, h, miss)))
  ]

  -- the target of an UPDATE is a live row of its id
  pub target-is_live :
      (s : Session) (id m : ℕ)
      → (id == m) ≡ true
      → (r : Row W E) → is_target s id r ≡ true
      → is_live m r ≡ true
  target-is_live s id m same r h = ground (arith, same, h)

  pub target-has_id :
      (s : Session) (id m : ℕ)
      → (id == m) ≡ true
      → (r : Row W E) → is_target s id r ≡ true
      → has_id m r ≡ true
  target-has_id s id m same r h = ground (arith, same, h)

  -- an UPDATE of a target matches a row or it does not
  pub change_target-by :
      (P : Tables W E × Answer → Type 0) (s : Session) (id : ℕ) (change : Row W E → Row W E)
      (audit : AuditRow) (db : Tables W E)
      → (is_any (keep (is_target s id) db.rows) ≡ true → P (changed s id change audit db, done))
      → (is_any (keep (is_target s id) db.rows) ≡ false → P (db, not_found))
      → P (change_target s id change audit db)
  change_target-by P s id change audit db hit miss =
      elim (Bool-cases (is_any (keep (is_target s id) db.rows))) [
        | inl some_row ↦ rw (some_row) (hit some_row)
        | inr no_row ↦ rw (no_row) (miss no_row)
      ]

  pub edit_owned-by :
      (P : Tables W E × Answer → Type 0) (now : ℕ) (s : Session) (id : ℕ) (content : Text) (e : E)
      (found : Checked (Row W E)) (db : Tables W E)
      → ((answer : Answer) → P (db, answer))
      → P (change_target s id (edited_row now content e) (own_audit s id update Outcome.edited) db)
      → P (edit_owned now s id content e found db)
  edit_owned-by P now s id content e (denied answer) db refused allowed = refused answer
  edit_owned-by P now s id content e (owned _) db refused allowed = allowed

  -- a check is refused without a 200, or it is passed
  pub check_row-by :
      (P : Checked (Row W E) → Type 0) (subject_id : ℕ) (found : Option (Row W E))
      → ((answer : Answer) → is_done answer ≡ false → P (denied answer))
      → ((r : Row W E)
          → found ≡ some r
          → (r.subject_id == subject_id) ≡ true
          → is_null r.deleted_at ≡ true
          → P (owned r))
      → P (check_row subject_id found)
  check_row-by P subject_id none refused passed = refused not_found refl
  check_row-by P subject_id (some r) refused passed =
      elim (Bool-cases (r.subject_id == subject_id)) [
        | inr other ↦ rw (other) (refused forbidden refl)
        | inl own ↦ elim (Bool-cases (is_null r.deleted_at)) [
          | inl live ↦ rw (own, live) (passed r refl own live)
          | inr dead ↦ rw (own, dead) (refused not_found refl)
        ]
      ]
