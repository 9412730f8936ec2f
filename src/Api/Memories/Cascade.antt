-- ===== src/Api/Memories/Cascade.antt =====
-- api/memories.py: what is left of a memory, and of a summary that was built on it, once its owner has
-- erased it.
use conversational_memory_sy.Prelude.{
  ℕ, ◌≡◌, ap, true, false, ◌&&◌, Option, List, [], ◌∷◌, ◌==◌, arith, Bool-cases, inl, inr, All,
}
use conversational_memory_sy.Store.{Row, Session, is_null, visible, update_where}
use conversational_memory_sy.Store.Audit.{delete, Outcome}
use conversational_memory_sy.Store.Memories.{Tables}
use conversational_memory_sy.Store.Invalidate.{
  invalidate_summaries_for, goes_stale_any, folded_into_any, stale_any_row,
}
use conversational_memory_sy.Api.Memories.{
  done, ensure_owned, erase, erased_row, erase_owned, delete_memory, find_row, is_target, own_audit,
}
use conversational_memory_sy.Api.Memories.Changes.{change_target-by, check_row-by, is_done}

module _ {W E : Type 0} where
  -- nothing that the session could still read of a memory
  abbrev pub IsGone : Session → ℕ → List (Row W E) → Type 0
  IsGone s id rows = All (λ r. (visible s r && r.id == id && is_null r.deleted_at) ≡ false) rows

  -- no row of the subject, of any actor, that `summary` names is retrievable
  abbrev pub IsWithdrawn : Session → Option ℕ → List (Row W E) → Type 0
  IsWithdrawn s summary rows = All (λ r. goes_stale_any s summary r ≡ false) rows

  IsGone-update :
      (now : ℕ) (s : Session) (id : ℕ) (rows : List (Row W E))
      → IsGone s id (update_where (is_target s id) (erased_row now) rows)
  IsGone-update now s id [] = tt
  IsGone-update now s id (r ∷ rows) = (
    elim (Bool-cases (is_target s id r)) [
      | inl hit ↦ ground (arith, hit)
      | inr miss ↦ ground (arith, miss)
    ],
    IsGone-update now s id rows,
  )

  IsWithdrawn-stale :
      (now : ℕ) (s : Session) (summary : Option ℕ) (rows : List (Row W E))
      → IsWithdrawn s summary (update_where (goes_stale_any s summary) (stale_any_row now) rows)
  IsWithdrawn-stale now s summary [] = tt
  IsWithdrawn-stale now s summary (r ∷ rows) = (
    elim (Bool-cases (goes_stale_any s summary r)) [
      | inl hit ↦ ground (arith, hit)
      | inr miss ↦ ground (arith, miss)
    ],
    IsWithdrawn-stale now s summary rows,
  )

  IsWithdrawn-erase :
      (now : ℕ) (s : Session) (id : ℕ) (summary : Option ℕ) (rows : List (Row W E))
      → IsWithdrawn s summary rows
      → IsWithdrawn s summary (update_where (is_target s id) (erased_row now) rows)
  IsWithdrawn-erase now s id summary [] h = tt
  IsWithdrawn-erase now s id summary (r ∷ rows) (h, hs) = (
    elim (Bool-cases (is_target s id r)) [
      | inl hit ↦ ground (arith, hit)
      | inr miss ↦ ground (arith, miss, h)
    ],
    IsWithdrawn-erase now s id summary rows hs,
  )

  erase-forgets :
      (now : ℕ) (s : Session) (id : ℕ) (db : Tables W E)
      → is_done (erase now s id (invalidate_summaries_for now s id db)).1 ≡ true
      → let rows = (erase now s id (invalidate_summaries_for now s id db)).0.rows in
        IsGone s id rows × IsWithdrawn s (folded_into_any s id db.rows) rows
  unfolding erase invalidate_summaries_for
  erase-forgets now s id db =
      let summary = folded_into_any s id db.rows in
      let stale = update_where (goes_stale_any s summary) (stale_any_row now) db.rows in
      change_target-by
        (λ r. is_done r.1 ≡ true → IsGone s id r.0.rows × IsWithdrawn s summary r.0.rows) s id
        (erased_row now) (own_audit s id delete Outcome.soft_deleted)
        (invalidate_summaries_for now s id db)
        (λ _ _. (
          IsGone-update now s id stale,
          IsWithdrawn-erase now s id summary stale (IsWithdrawn-stale now s summary db.rows),
        ))
        (λ _ h. ground (arith, h))

  -- After a DELETE that answered 200, no live row with the id is visible to its owner, and no
  -- live row of the subject, of whatever actor, that is the summary the memory was folded into is
  -- left without the stale mark.
  pub delete_memory-forgets :
      (now : ℕ) (s : Session) (id : ℕ) (db : Tables W E)
      → (delete_memory now s id db).1 ≡ done
      → let rows = (delete_memory now s id db).0.rows in
        IsGone s id rows × IsWithdrawn s (folded_into_any s id db.rows) rows
  unfolding delete_memory ensure_owned
  delete_memory-forgets now s id db answered =
      let summary = folded_into_any s id db.rows in
      check_row-by
        (λ found.
          is_done (erase_owned now s id found db).1 ≡ true
          → IsGone s id (erase_owned now s id found db).0.rows
            × IsWithdrawn s summary (erase_owned now s id found db).0.rows)
        s.subject_id (find_row (visible s) id db.rows)
        (λ answer refused h. ground (arith, refused, h)) (λ r _ _ _. erase-forgets now s id db)
        (ap is_done answered)
