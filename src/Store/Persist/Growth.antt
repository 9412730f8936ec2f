-- ===== src/Store/Persist/Growth.antt =====
-- store/memories.py: the rows that `persist_candidates` adds, by the candidates that it is given.
use conversational_memory_sy.Prelude.{
  ℕ, zero, suc, ◌+◌, ◌≤◌, ◌≡◌, refl, sym, subst, Bool, Option, none, some, List, [], ◌∷◌, ◌++◌,
  drop, keep, length, All, arith, Bool-cases, inl, inr, if◌then◌else◌, length-append,
}
use conversational_memory_sy.Context.Text.{Text}
use conversational_memory_sy.Store.{Row, Session, update_where}
use conversational_memory_sy.Store.Attributes.{is_single_valued}
use conversational_memory_sy.Store.Memories.{
  Backend, Candidate, Tables, is_assistant, new_row, insert_memory, reinforced_row, is_reinforced,
  superseded_row, is_superseded, supersede_slot, goes_stale, stale_row, folded_into,
  mark_summary_stale, retire_all,
}
use conversational_memory_sy.Store.Persist.{
  granted_slot, retire_slot, persist_new, persist_duplicate, persist_match, persist_unless,
  persist_one, persist_candidates, tombstone, near_match, duplicate,
}

more-zero : (k : ℕ) → k + 0 ≡ k
more-zero k = omega arith

more-suc : (k l : ℕ) → suc k + l ≡ k + suc l
more-suc k l = omega arith

-- what a row holds that no UPDATE of the write path touches
abbrev pub Holds : {W E : Type 0} → (Text → Option E → Option W → Type 0) → Row W E → Type 0
Holds Q r = Q r.content r.embedding r.confidence

module _ {W E : Type 0} (Q : Text → Option E → Option W → Type 0) (n : ℕ) where
  -- at most `k` rows were added to the `n` first ones, and they all meet `Q`
  abbrev pub Grown : ℕ → List (Row W E) → Type 0
  Grown k rows = (n ≤ length rows) × (length rows ≤ n + k) × All (Holds Q) (drop n rows)

  All-update_where :
      (test : Row W E → Bool) (change : Row W E → Row W E)
      → ((r : Row W E) → Holds Q r → Holds Q (change r))
      → (m : ℕ) (rows : List (Row W E)) → All (Holds Q) (drop m rows)
      → All (Holds Q) (drop m (update_where test change rows))
  All-update_where test change keeps zero [] h = tt
  All-update_where test change keeps zero (r ∷ rows) (h, hs) = (
    elim (Bool-cases (test r)) [ inl hit ↦ rw (hit) (keeps r h) | inr miss ↦ rw (miss) h ],
    All-update_where test change keeps zero rows hs,
  )
  All-update_where test change keeps (suc m) [] h = tt
  All-update_where test change keeps (suc m) (r ∷ rows) h =
      All-update_where test change keeps m rows h

  length-update_where :
      (test : Row W E → Bool) (change : Row W E → Row W E) (rows : List (Row W E))
      → length (update_where test change rows) ≡ length rows
  length-update_where test change [] = refl
  length-update_where test change (r ∷ rows) = omega (arith, length-update_where test change rows)

  Grown-update_where :
      (test : Row W E → Bool) (change : Row W E → Row W E)
      → ((r : Row W E) → Holds Q r → Holds Q (change r))
      → (k : ℕ) (rows : List (Row W E)) → Grown k rows
      → Grown k (update_where test change rows)
  Grown-update_where test change keeps k rows (low, high, all) = (
    omega (arith, low, length-update_where test change rows),
    omega (arith, high, length-update_where test change rows),
    All-update_where test change keeps n rows all,
  )

  All-insert :
      (m : ℕ) (rows : List (Row W E)) (r : Row W E)
      → m ≤ length rows
      → All (Holds Q) (drop m rows)
      → Holds Q r
      → All (Holds Q) (drop m (rows ++ r ∷ []))
  All-insert zero [] r h all new = (new, tt)
  All-insert zero (x ∷ rows) r h (p, all) new = (p, All-insert zero rows r (omega arith) all new)
  All-insert (suc m) [] r h all new = absurd (omega (arith, h))
  All-insert (suc m) (x ∷ rows) r h all new = All-insert m rows r (omega (arith, h)) all new

  Grown-insert :
      (k : ℕ) (rows : List (Row W E)) (r : Row W E)
      → Holds Q r
      → Grown k rows
      → Grown (suc k) (rows ++ r ∷ [])
  Grown-insert k rows r new (low, high, all) = (
    omega (arith, low, length-append rows (r ∷ [])),
    omega (arith, high, length-append rows (r ∷ [])),
    All-insert n rows r low all new,
  )

  Grown-more : (k : ℕ) (rows : List (Row W E)) → Grown k rows → Grown (suc k) rows
  Grown-more k rows (low, high, all) = (low, omega (arith, high), all)

  module _ (backend : Backend W E) (s : Session) where
    Grown-retire_all :
        (k : ℕ) (retired : List (Row W E)) (db : Tables W E)
        → Grown k db.rows
        → Grown k (retire_all backend s retired db).rows
    unfolding mark_summary_stale
    Grown-retire_all k [] db h = h
    Grown-retire_all k (r ∷ retired) db h =
        let summary = folded_into backend s r.id db.rows in
        Grown-retire_all k retired _ (
          Grown-update_where (goes_stale backend s summary) (stale_row backend s) (λ x p. p) k
            db.rows h)

    Grown-supersede_slot :
        (k : ℕ) (attribute : Text) (id : ℕ) (db : Tables W E)
        → Grown k db.rows
        → Grown k (supersede_slot backend s attribute id db).0.rows
    unfolding supersede_slot
    Grown-supersede_slot k attribute id db h =
        let test = is_superseded backend s attribute id in
        let change = superseded_row backend s id in
        Grown-retire_all k (keep test db.rows)
          (record { rows = update_where test change db.rows; trail = db.trail })
          (Grown-update_where test change (λ x p. p) k db.rows h)

    module _ (limit : W) where
      Grown-retire_slot :
          (k : ℕ) (attribute : Option Text) (id : ℕ) (db : Tables W E)
          → Grown k db.rows
          → Grown k (retire_slot backend s limit attribute id db).0.rows
      Grown-retire_slot k none id db h = h
      Grown-retire_slot k (some attribute) id db h =
          elim (Bool-cases (is_single_valued (some attribute))) [
            | inl single ↦ rw (single) (Grown-supersede_slot k attribute id db h)
            | inr plural ↦ rw (plural) h
          ]

      Grown-persist_new :
          (k : ℕ) (c : Candidate W E) (attribute : Option Text) (db : Tables W E)
          → Q c.text c.embedding c.confidence
          → Grown k db.rows
          → Grown (suc k) (persist_new backend s limit c attribute db).0.rows
      unfolding persist_new
      Grown-persist_new k c attribute db new h =
          let id = backend.new_id db.rows in
          Grown-retire_slot (suc k) attribute id
            (record { rows = insert_memory backend s id c attribute db.rows; trail = db.trail })
            (Grown-insert k db.rows (new_row backend s id c attribute) new h)

      Grown-persist_duplicate :
          (k : ℕ) (c : Candidate W E) (r : Row W E) (w : W) (db : Tables W E)
          → Grown k db.rows
          → Grown (suc k) (persist_duplicate backend s limit c r w db).0.rows
      Grown-persist_duplicate k c r w db h = elim (Bool-cases (is_assistant c.source)) [
        | inl assistant ↦ rw (assistant) (Grown-more k db.rows h)
        | inr user ↦ rw (user) (
            Grown-more k _ (
              Grown-update_where (is_reinforced backend s r.id) (reinforced_row backend s)
                (λ x p. p) k db.rows h))
      ]

      Grown-persist_match :
          (k : ℕ) (c : Candidate W E) (attribute : Option Text) (match : Option (Row W E × W))
          (db : Tables W E)
          → Q c.text c.embedding c.confidence
          → Grown k db.rows
          → Grown (suc k) (persist_match backend s limit c attribute match db).0.rows
      Grown-persist_match k c attribute none db new h = Grown-persist_new k c attribute db new h
      Grown-persist_match k c attribute (some (r, w)) db new h =
          Grown-persist_duplicate k c r w db h

      Grown-persist_unless :
          (k : ℕ) (c : Candidate W E) (grave : Option (Row W E × W)) (db : Tables W E)
          → Q c.text c.embedding c.confidence
          → Grown k db.rows
          → Grown (suc k) (persist_unless backend s limit c grave db).0.rows
      Grown-persist_unless k c (some grave) db new h = Grown-more k db.rows h
      Grown-persist_unless k c none db new h =
          Grown-persist_match k c (granted_slot backend s limit c)
            (duplicate backend s limit (granted_slot backend s limit c) c.text
              (near_match backend s limit c.embedding db.rows))
            db new h

      pub Grown-persist_candidates :
          (items : List (Candidate W E)) (k : ℕ) (db : Tables W E)
          → All (λ c. Q c.text c.embedding c.confidence) items
          → Grown k db.rows
          → Grown (k + length items) (persist_candidates backend s limit items db).0.rows
      unfolding persist_candidates persist_one
      Grown-persist_candidates [] k db all h = subst (λ x. Grown x db.rows) (sym (more-zero k)) h
      Grown-persist_candidates (c ∷ items) k db (new, all) h =
          let grave =
            if is_assistant c.source then tombstone backend s limit c.embedding db.rows else none in
          let one = Grown-persist_unless k c grave db new h in
          let rest =
            Grown-persist_candidates items (suc k) (persist_unless backend s limit c grave db).0 all
              one in
          subst (λ x. Grown x (persist_candidates backend s limit (c ∷ items) db).0.rows)
            (more-suc k (length items)) rest
