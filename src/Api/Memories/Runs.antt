-- ===== src/Api/Memories/Runs.antt =====
-- api/memories.py: what a schedule of requests in flight has erased, acknowledged and audited.
use conversational_memory_sy.Prelude.{
  ℕ, zero, suc, ◌+◌, ◌≤◌, ◌≡◌, refl, ◌&&◌, Option, none, some, List, [], ◌∷◌, ◌==◌, if◌then◌else◌,
  count_if, arith, subst, Bool-cases, inl, inr,
}
use conversational_memory_sy.Store.{Row, Session, is_null, visible}
use conversational_memory_sy.Store.Attributes.{strip}
use conversational_memory_sy.Store.Audit.{delete, rows_of}
use conversational_memory_sy.Store.Memories.{Tables}
use conversational_memory_sy.Api.Memories.{
  Answer, done, not_found, forbidden, unprocessable, bad_gateway, crashed, vector, no_vector,
  embed_raised, ensure_owned, check_row, find_row, erase,
}
use conversational_memory_sy.Api.Memories.Changes.{count_mono, is_done}
use conversational_memory_sy.Api.Memories.Deletes.{
  Ledger, invalidate-Ledger, edit-Ledger, erase-Ledger,
}
use conversational_memory_sy.Api.Memories.Requests.{
  Request, to_delete, to_patch, Stage, arrived, checked, invalidated, replied, Call, after_check,
  transact, step, run, is_acknowledged, acknowledged, has_id, is_live,
}

-- 1 if the call is a DELETE of the memory that was answered with 200
abbrev pub acks : {E : Type 0} → ℕ → Session → ℕ → Request E → Stage E → ℕ
acks m s id request stage =
    if is_acknowledged m (record { session = s; id = id; request = request; stage = stage })
    then 1
    else 0

-- a reply to a DELETE counts if it is a 200 for this memory
acks-reply :
    (E : Type 0) (m : ℕ) (s : Session) (id : ℕ) (answer : Answer)
    → (if is_done answer && id == m then 1 else 0) ≡ acks {E = E} m s id to_delete (replied answer)
acks-reply E m s id done = refl
acks-reply E m s id not_found = refl
acks-reply E m s id forbidden = refl
acks-reply E m s id unprocessable = refl
acks-reply E m s id bad_gateway = refl
acks-reply E m s id crashed = refl

module _ {W E : Type 0} where
  -- a refusal acknowledges nothing
  refused-acks :
      (m : ℕ) (s : Session) (id subject_id : ℕ) (found : Option (Row W E))
      → acks m s id to_delete (after_check (check_row subject_id found)) ≡ 0
  refused-acks m s id subject_id none = refl
  refused-acks m s id subject_id (some r) = elim (Bool-cases (r.subject_id == subject_id)) [
    | inr other ↦ rw (other) refl
    | inl own ↦ elim (Bool-cases (is_null r.deleted_at)) [
      | inl live ↦ rw (own, live) refl
      | inr dead ↦ rw (own, dead) refl
    ]
  ]

  transact-Ledger :
      (now m : ℕ) (s : Session) (id : ℕ) (request : Request E) (stage : Stage E) (db : Tables W E)
      → count_if (has_id m) db.rows ≤ 1
      → Ledger m db
          (transact now s id request stage db).0
          (acks m s id request stage)
          (acks m s id request (transact now s id request stage db).1)
  unfolding transact ensure_owned
  transact-Ledger now m s id to_delete arrived db key =
      let refused = refused-acks m s id s.subject_id (find_row (visible s) id db.rows) in
      (omega (arith, refused), omega (arith, refused), refl)
  transact-Ledger now m s id (to_patch content _) arrived db key = (refl, refl, refl)
  transact-Ledger now m s id to_delete checked db key = invalidate-Ledger now m s id db 0
  transact-Ledger now m s id (to_patch _ (vector _)) checked db key =
      invalidate-Ledger now m s id db 0
  transact-Ledger now m s id (to_patch _ no_vector) checked db key = (refl, refl, refl)
  transact-Ledger now m s id (to_patch _ embed_raised) checked db key = (refl, refl, refl)
  transact-Ledger now m s id to_delete invalidated db key =
      let wrote = erase now s id db in
      subst (λ a. Ledger m db wrote.0 0 a) (acks-reply E m s id wrote.1)
        (erase-Ledger now s id m db key 0)
  transact-Ledger now m s id (to_patch content (vector e)) invalidated db key =
      edit-Ledger now s id (strip content) e m db 0
  transact-Ledger now m s id (to_patch _ no_vector) invalidated db key = (refl, refl, refl)
  transact-Ledger now m s id (to_patch _ embed_raised) invalidated db key = (refl, refl, refl)
  transact-Ledger now m s id request (replied answer) db key = (refl, refl, refl)

  -- the calls before and after the one that moves count alike
  step-Ledger :
      (now m number : ℕ) (db : Tables W E) (calls : List (Call E))
      → count_if (has_id m) db.rows ≤ 1
      → Ledger m db
          (step now number db calls).0
          (acknowledged m calls)
          (acknowledged m (step now number db calls).1)
  unfolding step
  step-Ledger now m number db [] key = (refl, refl, refl)
  step-Ledger now m zero db (c ∷ calls) key =
      let (audits, live, ids) = transact-Ledger now m c.session c.id c.request c.stage db key in
      (ground (arith, audits), ground (arith, live), ids)
  step-Ledger now m (suc n) db (c ∷ calls) key =
      let (audits, live, ids) = step-Ledger now m n db calls key in
      (ground (arith, audits), ground (arith, live), ids)

  run-Ledger :
      (m : ℕ) (schedule : List (ℕ × ℕ)) (db : Tables W E) (calls : List (Call E))
      → count_if (has_id m) db.rows ≤ 1
      → Ledger m db
          (run schedule db calls).0
          (acknowledged m calls)
          (acknowledged m (run schedule db calls).1)
  unfolding run
  run-Ledger m [] db calls key = (refl, refl, refl)
  run-Ledger m ((now, number) ∷ schedule) db calls key =
      let (audits, live, ids) = step-Ledger now m number db calls key in
      let (db', calls') = step now number db calls in
      let (audits', live', ids') = run-Ledger m schedule db' calls' (omega (arith, ids, key)) in
      (omega (arith, audits, audits'), omega (arith, live, live'), omega (arith, ids, ids'))

  -- However the transactions of any number of requests interleave, from a table in which the id
  -- occurs at most once and calls none of which has been answered yet with a 200 for it, at most
  -- one DELETE of the memory answers 200, the live rows of its id go down by exactly the DELETEs
  -- that did, and the trail has exactly that many more `delete` rows for it.
  pub run-deletes_once :
      (m : ℕ) (schedule : List (ℕ × ℕ)) (db : Tables W E) (calls : List (Call E))
      → count_if (has_id m) db.rows ≤ 1
      → acknowledged m calls ≡ 0
      → let (db', calls') = run schedule db calls in
        (acknowledged m calls' ≤ 1)
        × (count_if (is_live m) db'.rows + acknowledged m calls' ≡ count_if (is_live m) db.rows)
        × (rows_of delete (some m) db'.trail.rows
            ≡ rows_of delete (some m) db.trail.rows + acknowledged m calls')
  run-deletes_once m schedule db calls key fresh =
      let (audits, live, ids) = run-Ledger m schedule db calls key in
      let alive = count_mono (is_live m) (has_id m) (λ r h. ground (arith, h)) db.rows in
      (
        omega (arith, fresh, live, alive, key),
        omega (arith, fresh, live),
        omega (arith, fresh, audits),
      )
