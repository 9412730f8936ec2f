-- ===== src/Capture/Embed.antt =====
-- capture/embed.py and capture/dedup.py: the embedding of the candidates, with its retries, and the
-- similarity of the nearest row. The embedder and the width of a vector are parameters.
use conversational_memory_sy.Prelude.{
  ℕ, zero, suc, Option, none, some, List, [], ◌∷◌, ◌++◌, map, ◌==◌, if◌then◌else◌,
}
use conversational_memory_sy.Context.Text.{Text}
use conversational_memory_sy.Store.{Row, Session}
use conversational_memory_sy.Store.Memories.{Backend, Candidate, find_similar}

-- What an attempt comes to: the vectors, an exception that `is_retryable` recognises, or another.
pub data Attempt (E : Type 0) : Type 0 where
  vectors : List (Option E) → Attempt E
  throttled refused : Attempt E

-- `len(EMBED_RETRY_DELAYS)`
abbrev pub retries : ℕ
retries = 7

module _ {E : Type 0} where
  -- what an attempt leaves to the later ones
  abbrev pub settle : Attempt E → Option (List (Option E)) → Option (List (Option E))
  settle (vectors answer) later = some answer
  settle throttled later = later
  settle refused later = none

  -- the loop of `embed_candidates`, with the retries that are left; `none` is `EmbeddingUnavailable`
  unfoldable pub attempt_from :
      (left : ℕ) → (number : ℕ) → (ℕ → Attempt E) → Option (List (Option E))
  attempt_from zero number embed = settle (embed number) none
  attempt_from (suc left) number embed =
      settle (embed number) (attempt_from left (suc number) embed)

module _ {W E : Type 0} where
  -- a vector that is there and of the expected width; an empty one is not
  abbrev pub attach : (width : E → ℕ) → (dim : ℕ) → Option E → Candidate W E → List (Candidate W E)
  attach width dim none c = []
  attach width dim (some e) c =
      if width e == 0
      then []
      else if width e == dim
      then record c { embedding = some e } ∷ []
      else []

  abbrev pub attach_all :
      (width : E → ℕ) → (dim : ℕ) → List (Option E) → List (Candidate W E) → List (Candidate W E)
  attach_all width dim answers [] = []
  attach_all width dim [] (c ∷ cs) = []
  attach_all width dim (answer ∷ answers) (c ∷ cs) =
      attach width dim answer c ++ attach_all width dim answers cs

  abbrev pub embedded_with :
      (width : E → ℕ)
      → (dim : ℕ) → Option (List (Option E))
      → List (Candidate W E)
      → Option (List (Candidate W E))
  embedded_with width dim none cs = none
  embedded_with width dim (some answers) cs = some (attach_all width dim answers cs)

  -- `embed_candidates`
  unfoldable pub embed_candidates :
      (embed : List Text → ℕ → Attempt E)
      → (width : E → ℕ) → (dim : ℕ) → List (Candidate W E)
      → Option (List (Candidate W E))
  unfolding attempt_from
  embed_candidates embed width dim [] = some []
  embed_candidates embed width dim (c ∷ cs) =
      embedded_with width dim (attempt_from retries 0 (embed (map (λ x. x.text) (c ∷ cs)))) (c ∷ cs)

  module _ (backend : Backend W E) (s : Session) where
    abbrev pub similarity_of : Option (Row W E × W) → Option W
    similarity_of none = none
    similarity_of (some (r, similarity)) = some similarity

    abbrev pub annotate : List (Row W E) → Option E → Candidate W E → Candidate W E
    annotate rows none c = record c { similarity = none }
    annotate rows (some e) c = record c {
      similarity = similarity_of (find_similar backend s e rows);
    }

    -- `dedup_candidates`; the verdict that it logs is left out
    unfoldable pub dedup_candidates : List (Row W E) → List (Candidate W E) → List (Candidate W E)
    dedup_candidates rows = map (λ c. annotate rows c.embedding c)
