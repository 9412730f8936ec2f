-- ===== src/Store/Examples.antt =====
-- store/: a batch of candidates on a small table. An embedding is a number; the nearest row is the
-- first one, and the similarity is 90.
use conversational_memory_sy.Prelude.{
  ℕ, suc, ◌+◌, max, ◌≡◌, ◌≤◌, refl, Option, none, some, List, [], ◌∷◌, ◌++◌, leb, ◌==◌, keep,
  count_if, arith, All, min,
}
use conversational_memory_sy.Context.Text.{Text, codes}
use conversational_memory_sy.Store.{assistant_note, stated, Row, Session}
use conversational_memory_sy.Store.Attributes.{is_single_valued}
use conversational_memory_sy.Store.Memories.{Backend, Candidate, Tables}
use conversational_memory_sy.Store.Persist.{persist_candidates}
use conversational_memory_sy.Store.Persist.Isolation.{is_frozen, persist-frozen}
use conversational_memory_sy.Store.Persist.Slots.{values}
use conversational_memory_sy.Store.Persist.Uniqueness.{persist-slot_unique}
use conversational_memory_sy.Store.Persist.Assistant.{IsNote, assistant_only_adds_notes}
use conversational_memory_sy.Store.Persist.Trails.{writes, changed, persist-audited}

abbrev pub first_of : ℕ → List (Row ℕ ℕ) → Option (Row ℕ ℕ × ℕ)
first_of e [] = none
first_of e (r ∷ rows) = some (r, 90)

-- an id above all others
abbrev pub above : List (Row ℕ ℕ) → ℕ
above [] = 1
above (r ∷ rows) = max (suc r.id) (above rows)

nothing_at : (n : ℕ) (rows : List (Row ℕ ℕ)) → above rows ≤ n → keep (λ r. r.id == n) rows ≡ []
nothing_at n [] h = refl
nothing_at n (r ∷ rows) h = ground (arith, nothing_at n rows (omega (arith, h)))

pub above-IsFresh : (rows : List (Row ℕ ℕ)) → keep (λ r. r.id == above rows) rows ≡ []
above-IsFresh rows = nothing_at (above rows) rows (omega arith)

abbrev pub backend : Backend ℕ ℕ
backend = record {
  nearest = first_of;
  at_least = λ a b. leb b a;
  strengthen = λ w. min (w + 10) 200;
  initial_weight = 100;
  new_id = above;
  new_id-IsFresh = above-IsFresh;
  now = 1000;
}

abbrev pub ann : Session
ann = record { subject_id = 1; actor_id = 1 }

abbrev language : Text
language = codes "default_programming_language"

abbrev said : Text → Option Text → Candidate ℕ ℕ
said text attribute = record {
  text = text;
  source = stated none;
  attribute = attribute;
  embedding = some 3;
  importance = none;
  confidence = some 80;
  similarity = none;
}

abbrev overheard : Text → Candidate ℕ ℕ
overheard text = record (said text (some language)) { source = assistant_note; embedding = none }

abbrev batch : List (Candidate ℕ ℕ)
batch =
    said (codes "The user prefers Java.") (some language)
    ∷ said (codes "The user prefers C++.") (some language)
    ∷ said (codes "The user prefers C++. ") (some language)
    ∷ overheard (codes "The user prefers Java.")
    ∷ []

abbrev empty : Tables ℕ ℕ
empty = record { rows = []; trail = record { rows = []; seen = some [] } }

persist-frozen_example :
    keep (is_frozen ann) (persist_candidates backend ann 82 batch empty).0.rows ≡ []
persist-frozen_example = persist-frozen backend ann 82 batch empty

persist-slot_unique_example :
    values backend ann language (persist_candidates backend ann 82 batch empty).0.rows ≤ 1
unfolding is_single_valued
persist-slot_unique_example =
    persist-slot_unique backend ann 82 language refl batch empty (omega arith)

assistant_only_adds_notes_example :
    (notes : List (Row ℕ ℕ)) × ((persist_candidates backend ann 82
        (overheard language ∷ [])
        empty).0.rows
      ≡ [] ++ notes)
    × All (IsNote backend ann 82) notes
assistant_only_adds_notes_example =
    assistant_only_adds_notes backend ann 82 (overheard language ∷ []) empty (refl, tt)

persist-audited_example :
    writes (persist_candidates backend ann 82 batch empty).0.trail
    ≡ 0 + count_if changed (persist_candidates backend ann 82 batch empty).1
persist-audited_example = persist-audited backend ann 82 batch empty
