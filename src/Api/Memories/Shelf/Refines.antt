-- ===== src/Api/Memories/Shelf/Refines.antt =====
-- api/memories.py: the endpoints keep what the shelf promises.
use conversational_memory_sy.Prelude.{
  ℕ, ◌≡◌, refl, ap, sym, ◌∙◌, true, false, Option, none, some, List, [], ◌∷◌, arith,
}
use conversational_memory_sy.Context.Text.{Text}
use conversational_memory_sy.Store.{Row, Session, is_null, visible}
use conversational_memory_sy.Store.Attributes.{strip}
use conversational_memory_sy.Store.Audit.{delete, update, Outcome, AuditRow}
use conversational_memory_sy.Store.Memories.{Tables}
use conversational_memory_sy.Store.Invalidate.{invalidate_summaries_for}
use conversational_memory_sy.Api.Memories.{
  Answer, done, owned, Embedded, vector, no_vector, embed_raised, ensure_owned, is_target, erase,
  erased_row, erase_owned, delete_memory, edit, edited_row, edit_owned, edit_checked, edit_stripped,
  patch_memory, own_audit, change_target,
}
use conversational_memory_sy.Api.Memories.Requests.{
  Request, to_delete, to_patch, Arrival, serve, serve_all,
}
use conversational_memory_sy.Api.Memories.Shelf.Updates.{
  ensure_owned-by, target-shelf, shelf-put, shelf-invalidate,
}
use conversational_memory_sy.Api.Memories.Shelf.{
  Shelf, put, promised_delete, promised_patch, promised, promised_all, live_content, shelf, Keeps,
}

module _ {W E : Type 0} where
  -- what a client sees of an outcome
  abbrev pub seen : Tables W E × Answer → Shelf × Answer
  seen (db, answer) = (shelf db.rows, answer)

  -- the UPDATE of a memory on the shelf
  change_target-seen :
      (s : Session) (id : ℕ) (change : Row W E → Row W E) (audit : AuditRow) (value : Option Text)
      → Keeps change
      → ((r : Row W E) → is_target s id r ≡ true → live_content (some (change r)) ≡ value)
      → (db : Tables W E) → is_null (shelf db.rows s id) ≡ false
      → seen (change_target s id change audit db) ≡ (put s id value (shelf db.rows), done)
  change_target-seen s id change audit value keeps gives db found =
      rw (target-shelf s id db.rows found)
        (ap (λ x. (x, done)) (shelf-put s id change value keeps gives db.rows found))

  erase-seen :
      (now : ℕ) (s : Session) (id : ℕ) (db : Tables W E)
      → is_null (shelf db.rows s id) ≡ false
      → seen (erase now s id db) ≡ (put s id none (shelf db.rows), done)
  unfolding erase
  erase-seen now s id db found =
      change_target-seen s id (erased_row now) (own_audit s id delete Outcome.soft_deleted) none
        (λ r s' j. refl) (λ r hit. refl) db found

  edit-seen :
      (now : ℕ) (s : Session) (id : ℕ) (content : Text) (e : E) (db : Tables W E)
      → is_null (shelf db.rows s id) ≡ false
      → seen (edit now s id content e db) ≡ (put s id (some content) (shelf db.rows), done)
  unfolding edit
  edit-seen now s id content e db there =
      ensure_owned-by
        (λ found text.
          is_null text ≡ false
          → seen (edit_owned now s id content e found db)
            ≡ (put s id (some content) (shelf db.rows), done))
        s id db.rows (λ h. ground (arith, h))
        (λ r _.
          change_target-seen s id (edited_row now content e) (own_audit s id update Outcome.edited)
            (some content) (λ r s' j. refl) (λ r hit. ground (arith, hit)) db there)
        there

  delete_memory-seen :
      (now : ℕ) (s : Session) (id : ℕ) (db : Tables W E)
      → seen (delete_memory now s id db) ≡ promised_delete s id (shelf db.rows s id) (shelf db.rows)
  unfolding delete_memory
  delete_memory-seen now s id db =
      let invalidated = invalidate_summaries_for now s id db in
      let same = shelf-invalidate now s id db in
      ensure_owned-by
        (λ found text.
          shelf db.rows s id ≡ text
          → seen (erase_owned now s id found db) ≡ promised_delete s id text (shelf db.rows))
        s id db.rows (λ _. refl)
        (λ r there.
          let found : is_null (shelf invalidated.rows s id) ≡ false =
            ap (λ x. is_null (x s id)) same ∙ ap is_null there in
          erase-seen now s id invalidated found ∙ ap (λ x. (put s id none x, done)) same)
        refl

  edit_owned-seen :
      (now : ℕ) (s : Session) (id c : ℕ) (cs : Text) (embedded : Embedded E) (db : Tables W E)
      (r : Row W E)
      → is_null (shelf db.rows s id) ≡ false
      → seen (edit_checked now s id (c ∷ cs) embedded (owned r) db)
        ≡ promised_patch s id (c ∷ cs) embedded (some r.content) (shelf db.rows)
  edit_owned-seen now s id c cs no_vector db r there = refl
  edit_owned-seen now s id c cs embed_raised db r there = refl
  edit_owned-seen now s id c cs (vector e) db r there =
      let same = shelf-invalidate now s id db in
      let found = ap (λ x. is_null (x s id)) same ∙ there in
      edit-seen now s id (c ∷ cs) e (invalidate_summaries_for now s id db) found
      ∙ ap (λ x. (put s id (some (c ∷ cs)) x, done)) same

  -- the checked part of a PATCH
  edit_checked-seen :
      (now : ℕ) (s : Session) (id c : ℕ) (cs : Text) (embedded : Embedded E) (db : Tables W E)
      → seen (
          edit_checked now s id
            (c ∷ cs)
            embedded
            (ensure_owned (visible s) id s.subject_id db.rows)
            db)
        ≡ promised_patch s id (c ∷ cs) embedded (shelf db.rows s id) (shelf db.rows)
  edit_checked-seen now s id c cs embedded db =
      ensure_owned-by
        (λ found text.
          is_null text ≡ is_null (shelf db.rows s id)
          → seen (edit_checked now s id (c ∷ cs) embedded found db)
            ≡ promised_patch s id (c ∷ cs) embedded text (shelf db.rows))
        s id db.rows (λ _. refl)
        (λ r there. edit_owned-seen now s id c cs embedded db r (sym there)) refl

  edit_stripped-seen :
      (now : ℕ) (s : Session) (id : ℕ) (content : Text) (embedded : Embedded E) (db : Tables W E)
      → seen (edit_stripped now s id content embedded db)
        ≡ promised_patch s id content embedded (shelf db.rows s id) (shelf db.rows)
  edit_stripped-seen now s id [] embedded db = refl
  edit_stripped-seen now s id (c ∷ cs) embedded db = edit_checked-seen now s id c cs embedded db

  serve-seen :
      (now : ℕ) (s : Session) (id : ℕ) (request : Request E) (db : Tables W E)
      → seen (serve now s id request db) ≡ promised s id request (shelf db.rows)
  unfolding serve promised patch_memory
  serve-seen now s id to_delete db = delete_memory-seen now s id db
  serve-seen now s id (to_patch content embedded) db =
      edit_stripped-seen now s id (strip content) embedded db

  -- Whatever DELETE and PATCH requests of whichever identities are served one after the other,
  -- they give the answers, and leave the live contents, that the shelf promises: a memory that is
  -- not the caller's, or is erased, answers 404, a blank text 422, an embedder without a vector
  -- 502, one that raises an error; an erased memory is gone, an edited one has the stripped new
  -- text, and no other memory of any identity moves.
  pub serve_all-refines :
      (arrivals : List (Arrival E)) (db : Tables W E)
      → (shelf (serve_all arrivals db).0.rows, (serve_all arrivals db).1)
        ≡ promised_all arrivals (shelf db.rows)
  unfolding serve_all promised_all
  serve_all-refines [] db = refl
  serve_all-refines (a ∷ arrivals) db =
      let (db', answer) = serve a.time a.session a.id a.request db in
      ap (λ x. (x.0, answer ∷ x.1)) (serve_all-refines arrivals db')
      ∙ ap (λ x. let rest = promised_all arrivals x.0 in (rest.0, x.1 ∷ rest.1))
          (serve-seen a.time a.session a.id a.request db)
