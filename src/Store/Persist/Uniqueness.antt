-- ===== src/Store/Persist/Uniqueness.antt =====
-- One live value for each single-valued slot, through a batch of candidates.
use conversational_memory_sy.Prelude.{
  ◌≡◌, ◌≤◌, refl, true, List, [], ◌∷◌, Bool-cases, inl, inr, arith, if◌then◌else◌, Option, none,
  some,
}
use conversational_memory_sy.Context.Text.{Text}
use conversational_memory_sy.Store.{Row, Session}
use conversational_memory_sy.Store.Updates.{count-update_where}
use conversational_memory_sy.Store.Memories.{
  Backend, Candidate, Tables, is_assistant, is_reinforced, reinforced_row,
}
use conversational_memory_sy.Store.Persist.{
  persist_one, persist_candidates, persist_new, persist_duplicate, persist_match, persist_unless,
  granted_slot, duplicate, near_match, tombstone,
}
use conversational_memory_sy.Store.Persist.Slots.{holds_slot, values, retire_slot-values}
use conversational_memory_sy.Store.Attributes.{is_single_valued}

module _ {W E : Type 0} (backend : Backend W E) (s : Session) (limit : W) (a : Text)
    (single : is_single_valued (some a) ≡ true) where
  abbrev AtMostOne : Tables W E → Type 0
  AtMostOne db = values backend s a db.rows ≤ 1

  persist_new-AtMostOne :
      (c : Candidate W E) (attribute : Option Text) (db : Tables W E)
      → AtMostOne db
      → AtMostOne (persist_new backend s limit c attribute db).0
  unfolding persist_new
  persist_new-AtMostOne c attribute db h =
      retire_slot-values backend s a limit c attribute db single h

  persist_duplicate-AtMostOne :
      (c : Candidate W E) (r : Row W E) (w : W) (db : Tables W E)
      → AtMostOne db
      → AtMostOne (persist_duplicate backend s limit c r w db).0
  persist_duplicate-AtMostOne c r w db h = elim (Bool-cases (is_assistant c.source)) [
    | inl assistant ↦ rw (assistant) h
    | inr user ↦ rw (user) (
        omega (
          arith,
          count-update_where (holds_slot backend s a) (is_reinforced backend s r.id)
              (reinforced_row backend s) (λ x hit. refl) db.rows,
          h,
        ))
  ]

  persist_match-AtMostOne :
      (c : Candidate W E) (attribute : Option Text) (match : Option (Row W E × W)) (db : Tables W E)
      → AtMostOne db
      → AtMostOne (persist_match backend s limit c attribute match db).0
  persist_match-AtMostOne c attribute none db h = persist_new-AtMostOne c attribute db h
  persist_match-AtMostOne c attribute (some (r, w)) db h = persist_duplicate-AtMostOne c r w db h

  persist_unless-AtMostOne :
      (c : Candidate W E) (grave : Option (Row W E × W)) (db : Tables W E)
      → AtMostOne db
      → AtMostOne (persist_unless backend s limit c grave db).0
  persist_unless-AtMostOne c (some grave) db h = h
  persist_unless-AtMostOne c none db h =
      let slot = granted_slot backend s limit c in
      persist_match-AtMostOne c slot
        (duplicate backend s limit slot c.text (near_match backend s limit c.embedding db.rows)) db
        h

  persist_one-AtMostOne :
      (c : Candidate W E) (db : Tables W E)
      → AtMostOne db
      → AtMostOne (persist_one backend s limit c db).0
  unfolding persist_one
  persist_one-AtMostOne c db h =
      persist_unless-AtMostOne c
        (if is_assistant c.source then tombstone backend s limit c.embedding db.rows else none) db h

  -- Where the session sees at most one live value of a single-valued slot, it sees at most one
  -- after a batch of candidates too.
  pub persist-slot_unique :
      (items : List (Candidate W E)) (db : Tables W E)
      → values backend s a db.rows ≤ 1
      → values backend s a (persist_candidates backend s limit items db).0.rows ≤ 1
  unfolding persist_candidates
  persist-slot_unique [] db h = h
  persist-slot_unique (c ∷ items) db h =
      persist-slot_unique items (persist_one backend s limit c db).0 (persist_one-AtMostOne c db h)
