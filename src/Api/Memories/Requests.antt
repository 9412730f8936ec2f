-- ===== src/Api/Memories/Requests.antt =====
-- api/memories.py, with requests in flight: between the transactions of one request those of the
-- others run. A call takes the next of its transactions whenever the schedule picks it.
use conversational_memory_sy.Prelude.{
  ℕ, zero, suc, Bool, false, ◌&&◌, List, [], ◌∷◌, ◌==◌, count_if,
}
use conversational_memory_sy.Context.Text.{Text}
use conversational_memory_sy.Store.{Row, Session, is_null, visible}
use conversational_memory_sy.Store.Attributes.{strip}
use conversational_memory_sy.Store.Memories.{Tables}
use conversational_memory_sy.Store.Invalidate.{invalidate_summaries_for}
use conversational_memory_sy.Api.Memories.{
  Answer, done, unprocessable, bad_gateway, crashed, Checked, owned, denied, Embedded, vector,
  no_vector, embed_raised, ensure_owned, erase, edit, delete_memory, patch_memory,
}

pub data Request (E : Type 0) : Type 0 where
  to_delete : Request E
  to_patch : (content : Text) → (embedded : Embedded E) → Request E

-- How far a call has come: the transactions that it has committed.
pub data Stage (E : Type 0) : Type 0 where
  arrived checked : Stage E
  invalidated : Stage E
  replied : Answer → Stage E

pub record Call (E : Type 0) : Type 0 where
  pub session : Session
  pub id : ℕ
  pub request : Request E
  pub stage : Stage E

module _ {W E : Type 0} where
  abbrev pub after_check : Checked (Row W E) → Stage E
  after_check (denied answer) = replied answer
  after_check (owned _) = checked

  -- a blank edit is refused before its first transaction
  abbrev pub check_content : Text → Checked (Row W E) → Stage E
  check_content [] found = replied unprocessable
  check_content (_ ∷ _) found = after_check found

  -- the first transaction
  abbrev pub check_call : Session → ℕ → Request E → Tables W E → Stage E
  check_call s id to_delete db = after_check (ensure_owned (visible s) id s.subject_id db.rows)
  check_call s id (to_patch content _) db =
      check_content (strip content) (ensure_owned (visible s) id s.subject_id db.rows)

  -- the embedding call and the owner's transaction
  abbrev pub invalidate_call : ℕ → Session → ℕ → Request E → Tables W E → Tables W E × Stage E
  invalidate_call now s id to_delete db = (invalidate_summaries_for now s id db, invalidated)
  invalidate_call now s id (to_patch _ (vector _)) db =
      (invalidate_summaries_for now s id db, invalidated)
  invalidate_call now s id (to_patch _ no_vector) db = (db, replied bad_gateway)
  invalidate_call now s id (to_patch _ embed_raised) db = (db, replied crashed)

  abbrev pub reply : Tables W E × Answer → Tables W E × Stage E
  reply (db, answer) = (db, replied answer)

  -- the last transaction
  abbrev pub write_call : ℕ → Session → ℕ → Request E → Tables W E → Tables W E × Stage E
  write_call now s id to_delete db = reply (erase now s id db)
  write_call now s id (to_patch content (vector e)) db = reply (edit now s id (strip content) e db)
  write_call now s id (to_patch content no_vector) db = (db, replied bad_gateway)
  write_call now s id (to_patch content embed_raised) db = (db, replied crashed)

  -- the next transaction of a call
  unfoldable pub transact :
      ℕ → Session → ℕ → Request E → Stage E → Tables W E → Tables W E × Stage E
  unfolding ensure_owned erase edit strip invalidate_summaries_for
  transact now s id request arrived db = (db, check_call s id request db)
  transact now s id request checked db = invalidate_call now s id request db
  transact now s id request invalidated db = write_call now s id request db
  transact now s id request (replied answer) db = (db, replied answer)

  -- the call of this number takes its next transaction
  unfoldable pub step : ℕ → (number : ℕ) → Tables W E → List (Call E) → Tables W E × List (Call E)
  unfolding transact
  step now number db [] = (db, [])
  step now zero db (c ∷ calls) =
      let (db', stage) = transact now c.session c.id c.request c.stage db in
      (db', record c { stage = stage } ∷ calls)
  step now (suc n) db (c ∷ calls) = let (db', calls') = step now n db calls in (db', c ∷ calls')

  -- a schedule: the time and the call of each step
  unfoldable pub run : List (ℕ × ℕ) → Tables W E → List (Call E) → Tables W E × List (Call E)
  unfolding step
  run [] db calls = (db, calls)
  run ((now, number) ∷ schedule) db calls =
      let (db', calls') = step now number db calls in run schedule db' calls'

-- Requests that do not overlap: each is served to its end before the next.
pub record Arrival (E : Type 0) : Type 0 where
  pub time : ℕ
  pub session : Session
  pub id : ℕ
  pub request : Request E

module _ {W E : Type 0} where
  unfoldable pub serve : ℕ → Session → ℕ → Request E → Tables W E → Tables W E × Answer
  unfolding delete_memory patch_memory
  serve now s id to_delete db = delete_memory now s id db
  serve now s id (to_patch content embedded) db = patch_memory now s id content embedded db

  unfoldable pub serve_all : List (Arrival E) → Tables W E → Tables W E × List Answer
  unfolding serve
  serve_all [] db = (db, [])
  serve_all (a ∷ arrivals) db =
      let (db', answer) = serve a.time a.session a.id a.request db in
      let (final, answers) = serve_all arrivals db' in (final, answer ∷ answers)

-- a DELETE of the memory that was answered with 200
abbrev pub is_acknowledged : {E : Type 0} → ℕ → Call E → Bool
is_acknowledged m c = elim c.request [
  | to_patch _ _ ↦ false
  | to_delete ↦ elim c.stage [
    | replied done ↦ c.id == m
    | replied _ ↦ false
    | arrived ↦ false
    | checked ↦ false
    | invalidated ↦ false
  ]
]

abbrev pub acknowledged : {E : Type 0} → ℕ → List (Call E) → ℕ
acknowledged m = count_if (is_acknowledged m)

abbrev pub has_id : {W E : Type 0} → ℕ → Row W E → Bool
has_id m r = r.id == m

abbrev pub is_live : {W E : Type 0} → ℕ → Row W E → Bool
is_live m r = r.id == m && is_null r.deleted_at
