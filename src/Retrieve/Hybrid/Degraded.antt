-- ===== src/Retrieve/Hybrid/Degraded.antt =====
-- retrieve/hybrid.py behind retrieve/guarded.py: what a path that fails does to the search.
use conversational_memory_sy.Prelude.{
  ℕ, ◌≡◌, refl, ap, sym, subst, ◌∙◌, Bool, true, false, not, ◌&&◌, ◌||◌, List, [], if◌then◌else◌,
  arith,
}
use conversational_memory_sy.Prelude.Scores.{Scores}
use conversational_memory_sy.Prelude.Sorting.{IsSorted}
use conversational_memory_sy.Breaker.{Keyspace}
use conversational_memory_sy.Breaker.Replica.{Call}
use conversational_memory_sy.Context.Text.{Text}
use conversational_memory_sy.Retrieve.{Source, semantic, keyword, HybridResult}
use conversational_memory_sy.Retrieve.Features.{Floats}
use conversational_memory_sy.Retrieve.Guarded.{Outcome, found, total_failure, guarded_hybrid_search}
use conversational_memory_sy.Retrieve.Guarded.Effects.{guarded_found}
use conversational_memory_sy.Retrieve.Hybrid.{
  RetrievalCandidate, Attempt, Failure, is_blank, run_path, hybrid_search, merge, normalize,
}
use conversational_memory_sy.Retrieve.Hybrid.Ids.{
  copies, appears, earlier, merge-once-IsSorted, appears-normalize,
}

abbrev pub failed : {C : Type 0} → Attempt C → Bool
failed (Attempt.returned _) = false
failed _ = true

-- what a path contributes
abbrev pub results : {C : Type 0} → Attempt C → List C
results (Attempt.returned cs) = cs
results _ = []

results-run_path : {C : Type 0} (p : Source) (a : Attempt C) → (run_path p a).0 ≡ results a
results-run_path p (Attempt.returned cs) = refl
results-run_path p Attempt.timed_out = refl
results-run_path p Attempt.raised = refl

module _ {W M K : Type 0} (floats : Floats W) (ts_rank_reference : W) (merge_metadata : M → M → M)
    (scores : Scores K) (as_key : W → K) (of_int : ℕ → W) where
  abbrev pub search :
      Text
      → (s k : Attempt (RetrievalCandidate W M)) → HybridResult (RetrievalCandidate W M) Failure
  search = hybrid_search floats ts_rank_reference merge_metadata scores as_key of_int

  candidates-search :
      (text : Text) (s k : Attempt (RetrievalCandidate W M))
      → is_blank text ≡ false
      → (search text s k).candidates
        ≡ merge floats ts_rank_reference merge_metadata scores as_key of_int
            (normalize floats ts_rank_reference merge_metadata semantic (results s))
            (normalize floats ts_rank_reference merge_metadata keyword (results k))
  unfolding hybrid_search
  candidates-search text s k h = rw (h, results-run_path semantic s, results-run_path keyword k)

  -- For a text that is not blank, the hybrid search returns every memory that a path found
  -- exactly once, whether one or both paths found it and however often, and no other; what it
  -- returns is sorted by score, the highest first, then by id. A path that timed out or raised
  -- found nothing.
  pub hybrid-once-IsSorted :
      (text : Text) (s k : Attempt (RetrievalCandidate W M)) (m : ℕ)
      → is_blank text ≡ false
      → (copies m (search text s k).candidates
          ≡ (if appears m (results s) || appears m (results k) then 1 else 0))
        × IsSorted
            (earlier floats ts_rank_reference merge_metadata scores as_key of_int)
            (search text s k).candidates
  hybrid-once-IsSorted text s k m h =
      let (once, sorted) =
        merge-once-IsSorted floats ts_rank_reference merge_metadata scores as_key of_int m
          (normalize floats ts_rank_reference merge_metadata semantic (results s))
          (normalize floats ts_rank_reference merge_metadata keyword (results k)) in
      let e = candidates-search text s k h in
      (
        ap (copies m) e
            ∙ (once
                ∙ rw (
                  appears-normalize floats ts_rank_reference merge_metadata m semantic (results s),
                  appears-normalize floats ts_rank_reference merge_metadata m keyword (results k),
                )),
        subst (IsSorted (earlier floats ts_rank_reference merge_metadata scores as_key of_int))
            (sym e) sorted,
      )

  -- A hybrid search counts as a total failure exactly if its text is not blank and both of its
  -- paths timed out or raised.
  pub total_failure-hybrid :
      (text : Text) (s k : Attempt (RetrievalCandidate W M))
      → total_failure (search text s k) ≡ (not (is_blank text) && (failed s && failed k))
  unfolding hybrid_search total_failure
  total_failure-hybrid text s k = ground arith

  -- What the guarded search hands out is what the hybrid search returns, and it is not a search
  -- with a text that is not blank in which both paths failed.
  pub guarded-hybrid_found :
      {S : Type 0} (redis : Keyspace S) (threshold cooldown ttl : ℕ) (c1 c2 c3 : Call) (t : S)
      (asked_at token now later : ℕ) (text : Text) (s k : Attempt (RetrievalCandidate W M))
      (result : HybridResult (RetrievalCandidate W M) Failure)
      → (guarded_hybrid_search redis threshold cooldown ttl c1 c2 c3 t asked_at token now later
          (λ _. Outcome.returned (search text s k))).1
        ≡ found result
      → (result ≡ search text s k) × ((not (is_blank text) && (failed s && failed k)) ≡ false)
  guarded-hybrid_found redis threshold cooldown ttl c1 c2 c3 t asked_at token now later text s k
        result h =
      let (go, same, fine) =
        guarded_found redis threshold cooldown ttl c1 c2 c3 t asked_at token now later
          (λ _. Outcome.returned (search text s k)) result h in
      let e : search text s k ≡ result = cc in
      (sym e, sym (total_failure-hybrid text s k) ∙ (ap total_failure e ∙ fine))
