-- ===== src/Evals/Examples.antt =====
-- evals/metrics.py: a query that expects documents 3 and 4, and finds 4 at the second place, or neither
-- within its cutoff.
use conversational_memory_sy.Prelude.{ℕ, ◌≡◌, refl, some, List, [], ◌∷◌}
use conversational_memory_sy.Evals.{as_set, recall, score_query, aggregate}
use conversational_memory_sy.Evals.Agree.{score_query-agrees}
use conversational_memory_sy.Evals.Bounds.{IsShare}
use conversational_memory_sy.Evals.Pooled.{run_of, aggregate-IsShare}

-- document 4 stands behind the cutoff
score_query-agrees_example :
    let s = score_query (8 ∷ 9 ∷ 4 ∷ []) (3 ∷ 4 ∷ []) (some 2) in
    (s.hits ≡ [])
    × (s.precision.num ≡ 0)
    × (s.f1.num ≡ 0)
    × (s.reciprocal_rank.num ≡ 0)
    × (s.precision_at_r.num ≡ 0)
unfolding score_query recall as_set
score_query-agrees_example = score_query-agrees (8 ∷ 9 ∷ 4 ∷ []) (3 ∷ 4 ∷ []) (some 2) refl

-- one query, and one that expects nothing
abbrev queries : List (List ℕ × List ℕ)
queries = ((8 ∷ 4 ∷ 8 ∷ []), (3 ∷ 4 ∷ [])) ∷ ([], []) ∷ []

aggregate-IsShare_example :
    let a = aggregate (run_of (some 5) queries) in
    IsShare a.macro_precision
    × IsShare a.macro_recall
    × IsShare a.macro_f1
    × IsShare a.micro_precision
    × IsShare a.micro_recall
    × IsShare a.micro_f1
    × IsShare a.mrr
    × IsShare a.mean_precision_at_r
aggregate-IsShare_example = aggregate-IsShare (some 5) queries
