-- ===== src/Capture/Clean.antt =====
-- graphs/capture_graph.py: what a run may add to the table.
use conversational_memory_sy.Prelude.{
  ◌+◌, ◌≤◌, ◌≡◌, refl, sym, subst, Option, none, some, List, [], ◌∷◌, map, drop, length, All, arith,
  length-take,
}
use conversational_memory_sy.Prelude.Perms.{length-map}
use conversational_memory_sy.Context.Text.{Text}
use conversational_memory_sy.Retrieve.Features.{Floats}
use conversational_memory_sy.Store.{Row, Session}
use conversational_memory_sy.Store.Memories.{Backend, Candidate, Tables, Written}
use conversational_memory_sy.Store.Persist.Growth.{Grown, Grown-persist_candidates}
use conversational_memory_sy.Capture.Extract.{
  Turn, ask, candidates_of, turn_text, extract_candidates,
}
use conversational_memory_sy.Capture.Pii.{pii_node, redact_candidate}
use conversational_memory_sy.Capture.Evaluate.{
  score_candidates, score_all, trusted, apply_confidence_floor,
}
use conversational_memory_sy.Capture.Embed.{
  retries, attempt_from, attach_all, embedded_with, embed_candidates, dedup_candidates, annotate,
}
use conversational_memory_sy.Capture.Stages.{
  IsClean, Scrubbed, Kept, Clean, pii-Scrubbed, score_all-AllScored, AllScored, floor-Kept,
  attach_all-Clean, annotate-Clean,
}
use conversational_memory_sy.Capture.Graph.{
  Services, Settings, gate, write_node, dedup_node, after_embedding, embed_node, evaluate_node,
  after_scoring, run_capture,
}

gate-by :
    {A R : Type 0} (G : R → Type 0) (xs : List A) (stop : R) (onward : List A → R)
    → G stop
    → G (onward xs)
    → G (gate xs stop onward)
gate-by G [] stop onward stopped passed = stopped
gate-by G (x ∷ xs) stop onward stopped passed = passed

drop_whole : {A : Type 0} (xs : List A) → drop (length xs) xs ≡ []
drop_whole [] = refl
drop_whole (x ∷ xs) = drop_whole xs

module _ {W E F : Type 0} (services : Services W E F) (settings : Settings W) (floats : Floats W)
    (backend : Backend W E) (s : Session) (db : Tables W E) where
  open services use {complete, score, embed, width, presidio, lower}
  open settings use {max_candidates, confidence_floor, dedup_limit, embedding_dim, heuristics}

  extract_few :
      (turn : Turn)
      → length (extract_candidates {W = W} {E = E} lower complete max_candidates turn)
        ≤ max_candidates
  unfolding extract_candidates
  extract_few turn = few (turn_text turn)
    where
      few :
          (text : Text)
          → length (ask {W = W} {E = E} lower complete max_candidates text) ≤ max_candidates
      few [] = omega arith
      few (c ∷ cs) =
          omega (arith, length-take max_candidates (candidates_of lower (complete (c ∷ cs))))

  -- the rows after a run, against those before it
  abbrev Fine : Tables W E × Option (List (Written W)) → Type 0
  Fine r = Grown (IsClean services settings floats) (length db.rows) max_candidates r.0.rows

  none_added : Grown (IsClean services settings floats) (length db.rows) 0 db.rows
  none_added = (
    omega arith,
    omega arith,
    subst (λ xs. All (λ r. IsClean services settings floats r.content r.embedding r.confidence) xs)
        (sym (drop_whole db.rows)) tt,
  )

  stopped-Fine : (results : Option (List (Written W))) → Fine (db, results)
  stopped-Fine results = let (low, high, all) = none_added in (low, omega (arith, high), all)

  write-Fine :
      (cs : List (Candidate W E))
      → All (Clean services settings floats) cs
      → length cs ≤ max_candidates
      → Fine (write_node services settings floats backend s cs db)
  write-Fine cs clean few =
      let (low, high, all) =
        Grown-persist_candidates (IsClean services settings floats) (length db.rows) backend s
          dedup_limit cs 0 db clean none_added in
      (low, omega (arith, high, few), all)

  dedup-Fine :
      (rows : List (Row W E)) (cs : List (Candidate W E))
      → All (Clean services settings floats) cs
      → length cs ≤ max_candidates
      → Fine (dedup_node services settings floats backend s rows cs db)
  unfolding dedup_candidates
  dedup-Fine rows cs clean few =
      gate-by Fine (dedup_candidates backend s rows cs) (db, some [])
        (λ xs. write_node services settings floats backend s xs db) (stopped-Fine (some []))
        (write-Fine (dedup_candidates backend s rows cs)
          (annotate-Clean services settings floats backend s rows cs clean)
          (omega (arith, few, length-map (λ c. annotate backend s rows c.embedding c) cs)))

  attached-Fine :
      (rows : List (Row W E)) (answer : Option (List (Option E))) (cs : List (Candidate W E))
      → All (Kept services settings floats) cs
      → length cs ≤ max_candidates
      → Fine (
          after_embedding services settings floats backend s rows
            (embedded_with width embedding_dim answer cs)
            db)
  attached-Fine rows none cs kept few = stopped-Fine none
  attached-Fine rows (some answers) cs kept few =
      let (clean, short) = attach_all-Clean services settings floats answers cs kept in
      let embedded = attach_all width embedding_dim answers cs in
      gate-by Fine embedded (db, some [])
        (λ xs. dedup_node services settings floats backend s rows xs db) (stopped-Fine (some []))
        (dedup-Fine rows embedded clean (omega (arith, short, few)))

  embed-Fine :
      (rows : List (Row W E)) (cs : List (Candidate W E))
      → All (Kept services settings floats) cs
      → length cs ≤ max_candidates
      → Fine (embed_node services settings floats backend s rows cs db)
  unfolding embed_candidates
  embed-Fine rows [] kept few = stopped-Fine (some [])
  embed-Fine rows (c ∷ cs) kept few =
      attached-Fine rows (attempt_from retries 0 (embed (map (λ x. x.text) (c ∷ cs)))) (c ∷ cs) kept
        few

  scored-Fine :
      (rows : List (Row W E)) (cs : List (Candidate W E)) (scored : Option (List (Candidate W E)))
      → AllScored services settings floats (length cs) scored
      → length cs ≤ max_candidates
      → Fine (after_scoring services settings floats backend s rows scored db)
  scored-Fine rows cs none fine few = stopped-Fine none
  scored-Fine rows cs (some scored) (fine, size) few =
      let (kept, short) = floor-Kept services settings floats scored fine in
      let over = (apply_confidence_floor floats confidence_floor scored).0 in
      gate-by Fine over (db, some [])
        (λ xs. embed_node services settings floats backend s rows xs db) (stopped-Fine (some []))
        (embed-Fine rows over kept (omega (arith, short, few, size)))

  evaluate-Fine :
      (rows : List (Row W E)) (cs : List (Candidate W E))
      → All (Scrubbed services settings floats) cs
      → length cs ≤ max_candidates
      → Fine (evaluate_node services settings floats backend s rows cs db)
  unfolding score_candidates
  evaluate-Fine rows cs scrubbed few =
      let entries = trusted (score (map (λ c. c.text) cs)) (length cs) in
      scored-Fine rows cs (score_all floats heuristics lower entries cs)
        (score_all-AllScored services settings floats entries cs scrubbed) few

  -- A run of the capture graph keeps the number of rows or raises it by at most the cap on
  -- candidates per turn, whatever the models, Presidio and the embedder answer or fail with. Each
  -- row it adds has as content a text that is blank, one in which Presidio found nothing, what
  -- Presidio made of a text in which it found something, or the marker of an unscannable text; it
  -- has an embedding of the configured width, and a confidence that is at least the floor.
  pub run_capture-IsClean :
      (turn : Turn) (rows : List (Row W E))
      → let after = (run_capture services settings floats backend s turn rows db).0.rows in
        (length db.rows ≤ length after)
        × (length after ≤ length db.rows + max_candidates)
        × All
            (λ r. IsClean services settings floats r.content r.embedding r.confidence)
            (drop (length db.rows) after)
  unfolding run_capture pii_node
  run_capture-IsClean turn rows =
      let candidates = extract_candidates lower complete max_candidates turn in
      let redacted = pii_node presidio candidates in
      gate-by Fine candidates (db, some [])
        (λ cs.
          gate (pii_node presidio cs) (db, some [])
            (λ xs. evaluate_node services settings floats backend s rows xs db))
        (stopped-Fine (some []))
        (gate-by Fine redacted (db, some [])
          (λ xs. evaluate_node services settings floats backend s rows xs db)
          (stopped-Fine (some []))
          (evaluate-Fine rows redacted (pii-Scrubbed services settings floats candidates)
            (omega (arith, length-map (redact_candidate presidio) candidates, extract_few turn))))
