-- ===== src/Retrieve/Hybrid/Examples.antt =====
-- retrieve/hybrid.py: a memory that both paths find, and a path that fails. Floats are stood for by
-- hundredths, rounded down.
use conversational_memory_sy.Prelude.{
  ℕ, ◌+◌, ◌≡◌, not, ◌&&◌, ◌||◌, false, [], ◌∷◌, refl, if◌then◌else◌,
}
use conversational_memory_sy.Prelude.Scores.{number_scores}
use conversational_memory_sy.Prelude.Sorting.{IsSorted}
use conversational_memory_sy.Breaker.{allow_script, success_script}
use conversational_memory_sy.Breaker.Cells.{cells}
use conversational_memory_sy.Breaker.Replica.{answered, lost, allow, record_success}
use conversational_memory_sy.Context.Text.{Text, codes}
use conversational_memory_sy.Retrieve.{semantic, keyword, Source, HybridResult}
use conversational_memory_sy.Retrieve.Examples.{hundredths, fresh}
use conversational_memory_sy.Retrieve.Guarded.{guarded_hybrid_search}
use conversational_memory_sy.Retrieve.Hybrid.{
  RetrievalCandidate, Attempt, Failure, is_blank, hybrid_search,
}
use conversational_memory_sy.Retrieve.Hybrid.Ids.{copies, appears, earlier}
use conversational_memory_sy.Retrieve.Hybrid.Degraded.{
  failed, results, search, hybrid-once-IsSorted, guarded-hybrid_found,
}

abbrev found_by : Source → ℕ → ℕ → RetrievalCandidate ℕ ℕ
found_by p id raw = record {
  memory_id = id;
  content = codes "likes tea";
  score = 0;
  path = p;
  paths = p ∷ [];
  path_scores = [];
  raw_path_scores = (p, raw) ∷ [];
  metadata = 0;
}

abbrev near : Attempt (RetrievalCandidate ℕ ℕ)
near = Attempt.returned (found_by semantic 1 90 ∷ found_by semantic 2 130 ∷ [])

abbrev matching : Attempt (RetrievalCandidate ℕ ℕ)
matching = Attempt.returned (found_by keyword 1 5 ∷ [])

abbrev query : Text
query = codes "tea"

abbrev ask :
    Attempt (RetrievalCandidate ℕ ℕ)
    → Attempt (RetrievalCandidate ℕ ℕ)
    → HybridResult (RetrievalCandidate ℕ ℕ) Failure
ask = search hundredths 10 (λ a b. a + b) number_scores (λ x. x) (λ n. n) query

abbrev late : Attempt (RetrievalCandidate ℕ ℕ)
late = Attempt.timed_out

abbrev down : Attempt (RetrievalCandidate ℕ ℕ)
down = Attempt.raised

hybrid-once-IsSorted_example :
    (copies 1 (ask near matching).candidates
      ≡ (if appears 1 (results near) || appears 1 (results matching) then 1 else 0))
    × IsSorted
        (earlier hundredths 10 (λ a b. a + b) number_scores (λ x. x) (λ n. n))
        (ask near matching).candidates
hybrid-once-IsSorted_example =
    hybrid-once-IsSorted hundredths 10 (λ a b. a + b) number_scores (λ x. x) (λ n. n) query near
      matching 1 refl

guarded-hybrid_found_example :
    (ask near late ≡ ask near late)
    × ((not (is_blank query) && (failed near && failed late)) ≡ false)
unfolding guarded_hybrid_search allow allow_script record_success success_script hybrid_search
guarded-hybrid_found_example =
    guarded-hybrid_found hundredths 10 (λ a b. a + b) number_scores (λ x. x) (λ n. n) cells 1 50 20
      answered answered lost fresh 5 8 9 10 query near late (ask near late) refl
