-- ===== src/Store/Persist/Assistant.antt =====
-- Strict provenance: what the candidates that come from the assistant's own words can do.
use conversational_memory_sy.Prelude.{
  ◌≡◌, refl, ap, ◌∙◌, true, List, [], ◌∷◌, ◌++◌, append_assoc, append-nil, All, if◌then◌else◌,
  Option, none, some, sym,
}
use conversational_memory_sy.Prelude.Perms.{All-append}
use conversational_memory_sy.Store.{Row, Session}
use conversational_memory_sy.Store.Memories.{Backend, Candidate, Tables, is_assistant}
use conversational_memory_sy.Store.Persist.{
  persist_one, persist_candidates, persist_new, persist_match, persist_unless, duplicate,
  near_match, tombstone,
}

module _ {W E : Type 0} (backend : Backend W E) (s : Session) (limit : W) where
  -- a row that fills no slot and was never reinforced
  abbrev pub IsNote : Row W E → Type 0
  IsNote r = (r.attribute ≡ none) × ((r.reinforcement_count ≡ 0) × (is_assistant r.source ≡ true))

  -- the rows of before, and notes behind them
  abbrev pub OnlyNotes : Tables W E → Tables W E → Type 0
  OnlyNotes db db' = (notes : List (Row W E)) × (db'.rows ≡ db.rows ++ notes) × All IsNote notes

  nothing_new : (db : Tables W E) → OnlyNotes db db
  nothing_new db = ([], sym (append-nil db.rows), tt)

  and_then : (db db' db'' : Tables W E) → OnlyNotes db db' → OnlyNotes db' db'' → OnlyNotes db db''
  and_then db db' db'' (xs, e, h) (ys, f, k) = (
    xs ++ ys,
    f ∙ (ap (λ rows. rows ++ ys) e ∙ append_assoc db.rows xs ys),
    All-append IsNote xs ys h k,
  )

  persist_new-OnlyNotes :
      (c : Candidate W E) (db : Tables W E)
      → is_assistant c.source ≡ true
      → OnlyNotes db (persist_new backend s limit c none db).0
  unfolding persist_new
  persist_new-OnlyNotes c db h = (_, refl, ((refl, (refl, h)), tt))

  persist_match-OnlyNotes :
      (c : Candidate W E) (match : Option (Row W E × W)) (db : Tables W E)
      → is_assistant c.source ≡ true
      → OnlyNotes db (persist_match backend s limit c none match db).0
  persist_match-OnlyNotes c none db h = persist_new-OnlyNotes c db h
  persist_match-OnlyNotes c (some (r, w)) db h = rw (h) (nothing_new db)

  persist_unless-OnlyNotes :
      (c : Candidate W E) (grave : Option (Row W E × W)) (db : Tables W E)
      → is_assistant c.source ≡ true
      → OnlyNotes db (persist_unless backend s limit c grave db).0
  persist_unless-OnlyNotes c (some grave) db h = nothing_new db
  persist_unless-OnlyNotes c none db h = rw (h) (
      persist_match-OnlyNotes c
        (duplicate backend s limit none c.text (near_match backend s limit c.embedding db.rows)) db
        h)

  persist_one-OnlyNotes :
      (c : Candidate W E) (db : Tables W E)
      → is_assistant c.source ≡ true
      → OnlyNotes db (persist_one backend s limit c db).0
  unfolding persist_one
  persist_one-OnlyNotes c db h =
      persist_unless-OnlyNotes c
        (if is_assistant c.source then tombstone backend s limit c.embedding db.rows else none) db h

  -- A batch of candidates that all come from the assistant changes no row that was there: it only
  -- appends rows that come from the assistant, fill no slot and have reinforcement count 0.
  pub assistant_only_adds_notes :
      (items : List (Candidate W E)) (db : Tables W E)
      → All (λ c. is_assistant c.source ≡ true) items
      → OnlyNotes db (persist_candidates backend s limit items db).0
  unfolding persist_candidates
  assistant_only_adds_notes [] db h = nothing_new db
  assistant_only_adds_notes (c ∷ items) db (h, hs) =
      let db' = (persist_one backend s limit c db).0 in
      and_then db db' (persist_candidates backend s limit items db').0
        (persist_one-OnlyNotes c db h) (assistant_only_adds_notes items db' hs)
