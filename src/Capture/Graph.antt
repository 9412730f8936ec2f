-- ===== src/Capture/Graph.antt =====
-- graphs/capture_graph.py: the six nodes in their order, each behind its gate. The rows that the dedup
-- node reads are those of its own time; the write node has the tables as they are under its lock.
use conversational_memory_sy.Prelude.{ℕ, Option, none, some, List, [], ◌∷◌}
use conversational_memory_sy.Context.Text.{Text}
use conversational_memory_sy.Retrieve.Features.{Floats}
use conversational_memory_sy.Store.{Row, Session}
use conversational_memory_sy.Store.Memories.{Backend, Candidate, Tables, Written}
use conversational_memory_sy.Store.Persist.{persist_candidates}
use conversational_memory_sy.Capture.Extract.{Turn, Reply, extract_candidates}
use conversational_memory_sy.Capture.Pii.{Presidio, pii_node}
use conversational_memory_sy.Capture.Evaluate.{
  Entry, Heuristics, score_candidates, apply_confidence_floor,
}
use conversational_memory_sy.Capture.Embed.{Attempt, embed_candidates, dedup_candidates}

-- The models behind llm/config.py, Presidio, and `str.lower`.
pub record Services (W E F : Type 0) : Type 0 where
  pub complete : Text → Reply
  pub score : List Text → Option (List (Entry W))
  pub embed : List Text → ℕ → Attempt E
  pub width : E → ℕ
  pub presidio : Presidio F
  pub lower : Text → Text

-- capture/config.py, and the width of the configured embedding.
pub record Settings (W : Type 0) : Type 0 where
  pub max_candidates : ℕ
  pub confidence_floor : W
  pub dedup_limit : W
  pub embedding_dim : ℕ
  pub heuristics : Heuristics W

-- `_gate`: straight to the end if the node left nothing
abbrev pub gate : {A R : Type 0} → List A → R → (List A → R) → R
gate [] stop onward = stop
gate (x ∷ xs) stop onward = onward (x ∷ xs)

module _ {W E F : Type 0} (services : Services W E F) (settings : Settings W) (floats : Floats W)
    (backend : Backend W E) (s : Session) where
  open services use {complete, score, embed, width, presidio, lower}
  open settings use {max_candidates, confidence_floor, dedup_limit, embedding_dim, heuristics}

  -- the write node; the results are those of `write_results`
  abbrev pub write_node : List (Candidate W E) → Tables W E → Tables W E × Option (List (Written W))
  write_node cs db =
      let (db', results) = persist_candidates backend s dedup_limit cs db in (db', some results)

  abbrev pub dedup_node :
      List (Row W E) → List (Candidate W E) → Tables W E → Tables W E × Option (List (Written W))
  dedup_node rows embedded db =
      gate (dedup_candidates backend s rows embedded) (db, some []) (λ cs. write_node cs db)

  abbrev pub after_embedding :
      List (Row W E)
      → Option (List (Candidate W E))
      → Tables W E
      → Tables W E × Option (List (Written W))
  after_embedding rows none db = (db, none)
  after_embedding rows (some embedded) db =
      gate embedded (db, some []) (λ cs. dedup_node rows cs db)

  abbrev pub embed_node :
      List (Row W E) → List (Candidate W E) → Tables W E → Tables W E × Option (List (Written W))
  embed_node rows scored db =
      after_embedding rows (embed_candidates embed width embedding_dim scored) db

  abbrev pub after_scoring :
      List (Row W E)
      → Option (List (Candidate W E))
      → Tables W E
      → Tables W E × Option (List (Written W))
  after_scoring rows none db = (db, none)
  after_scoring rows (some scored) db =
      gate (apply_confidence_floor floats confidence_floor scored).0 (db, some [])
        (λ cs. embed_node rows cs db)

  abbrev pub evaluate_node :
      List (Row W E) → List (Candidate W E) → Tables W E → Tables W E × Option (List (Written W))
  evaluate_node rows redacted db =
      after_scoring rows (score_candidates floats heuristics lower score redacted) db

  -- `run_capture`; `none` is an exception: `EmbeddingUnavailable`, or the OverflowError of a score
  unfoldable pub run_capture :
      Turn → (rows_at_dedup : List (Row W E)) → Tables W E → Tables W E × Option (List (Written W))
  unfolding extract_candidates pii_node score_candidates apply_confidence_floor embed_candidates
      dedup_candidates persist_candidates
  run_capture turn rows db =
      gate (extract_candidates lower complete max_candidates turn) (db, some [])
        (λ candidates.
          gate (pii_node presidio candidates) (db, some [])
            (λ redacted. evaluate_node rows redacted db))
