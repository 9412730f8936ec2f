-- ===== src/Evals/Pooled.antt =====
-- evals/metrics.py: the means and the pooled metrics are numbers between 0 and 1.
use native.Mathlib.Nat.{mul-le-mul_left}
use conversational_memory_sy.Prelude.{
  ℕ, suc, ◌*◌, ◌≤◌, Option, List, [], ◌∷◌, length, map, All, arith,
}
use conversational_memory_sy.Evals.{
  as_set, common, Fraction, whole, plus, sum, total, total_hits, total_retrieved, total_expected,
  mean, micro_of, QueryScore, score_query, aggregate,
}
use conversational_memory_sy.Evals.Sets.{common-le, common-le_other}
use conversational_memory_sy.Evals.Bounds.{
  IsShare, zero-IsShare, one-IsShare, share-IsShare, product_pos, f1-IsShare, score_query-IsShare,
}

-- a sum of so many shares
abbrev AtMost : ℕ → Fraction → Type 0
AtMost n p = (1 ≤ p.den) × (p.num ≤ n * p.den)

plus-AtMost : (n : ℕ) (p q : Fraction) → IsShare p → AtMost n q → AtMost (suc n) (plus p q)
plus-AtMost n p q (h, k) (i, j) =
    let left : q.den * p.num ≤ q.den * p.den = mul-le-mul_left q.den k in
    let right : p.den * q.num ≤ p.den * (n * q.den) = mul-le-mul_left p.den j in
    (product_pos p.den q.den h i, omega (arith, left, right))

module _ {A : Type 0} (metric : A → Fraction) where
  sum-AtMost :
      (xs : List A) → All (λ x. IsShare (metric x)) xs → AtMost (length xs) (sum (map metric xs))
  sum-AtMost [] h = (omega arith, omega arith)
  sum-AtMost (x ∷ xs) (h, hs) =
      plus-AtMost (length xs) (metric x) (sum (map metric xs)) h (sum-AtMost xs hs)

mean-IsShare :
    (metric : QueryScore → Fraction) (scores : List QueryScore)
    → All (λ s. IsShare (metric s)) scores
    → IsShare (mean metric scores)
mean-IsShare metric [] h = zero-IsShare
mean-IsShare metric (s ∷ scores) h =
    let n = length (s ∷ scores) in
    let (positive, bounded) = sum-AtMost metric (s ∷ scores) h in
    (
      product_pos (sum (map metric (s ∷ scores))).den n positive (omega arith),
      omega (arith, bounded),
    )

total-le :
    {A : Type 0} (f g : A → ℕ) (xs : List A)
    → ((x : A) → f x ≤ g x)
    → total (map f xs) ≤ total (map g xs)
total-le f g [] h = omega arith
total-le f g (x ∷ xs) h = omega (arith, h x, total-le f g xs h)

micro_of-IsShare :
    (hits size : ℕ) (otherwise : Fraction) (scores : List QueryScore)
    → hits ≤ size
    → IsShare otherwise
    → IsShare (micro_of hits size otherwise scores)
micro_of-IsShare hits size otherwise [] h o = zero-IsShare
micro_of-IsShare hits size otherwise (s ∷ scores) h o = share-IsShare hits size otherwise h o

-- The five metrics of a query.
abbrev pub IsScored : QueryScore → Type 0
IsScored s =
    IsShare s.precision
    × IsShare s.recall
    × IsShare s.f1
    × IsShare s.reciprocal_rank
    × IsShare s.precision_at_r

-- a run: what was retrieved and what was expected for each query, at one cutoff
abbrev pub run_of : Option ℕ → List (List ℕ × List ℕ) → List QueryScore
run_of k = map (λ q. score_query q.0 q.1 k)

run_of-IsScored :
    (k : Option ℕ) (queries : List (List ℕ × List ℕ)) → All IsScored (run_of k queries)
run_of-IsScored k [] = tt
run_of-IsScored k ((retrieved, expected) ∷ queries) =
    (score_query-IsShare retrieved expected k, run_of-IsScored k queries)

All-weaken :
    {A : Type 0} {P Q : A → Type 0} (xs : List A) → ((x : A) → P x → Q x) → All P xs → All Q xs
All-weaken [] f h = tt
All-weaken (x ∷ xs) f (h, hs) = (f x h, All-weaken xs f hs)

-- Every metric that a run of queries is aggregated to, the means and the pooled ones, is a
-- fraction between 0 and 1 that does not divide by 0, also for no queries.
pub aggregate-IsShare :
    (k : Option ℕ) (queries : List (List ℕ × List ℕ))
    → let a = aggregate (run_of k queries) in
      IsShare a.macro_precision
      × IsShare a.macro_recall
      × IsShare a.macro_f1
      × IsShare a.micro_precision
      × IsShare a.micro_recall
      × IsShare a.micro_f1
      × IsShare a.mrr
      × IsShare a.mean_precision_at_r
unfolding aggregate total_hits total_retrieved total_expected
aggregate-IsShare k queries =
    let scores = run_of k queries in
    let all = run_of-IsScored k queries in
    let hits = total_hits scores in
    let micro_p =
      micro_of-IsShare hits (total_retrieved scores) (whole 0) scores
        (total-le (λ s. common (as_set s.retrieved) (as_set s.expected))
          (λ s. length (as_set s.retrieved)) scores
          (λ s. common-le (as_set s.retrieved) (as_set s.expected)))
        zero-IsShare in
    let micro_r =
      micro_of-IsShare hits (total_expected scores) (whole 1) scores
        (total-le (λ s. common (as_set s.retrieved) (as_set s.expected))
          (λ s. length (as_set s.expected)) scores (λ s. common-le_other s.retrieved s.expected))
        one-IsShare in
    (
      mean-IsShare (λ s. s.precision) scores (All-weaken scores (λ s h. h.0) all),
      mean-IsShare (λ s. s.recall) scores (All-weaken scores (λ s h. h.1) all),
      mean-IsShare (λ s. s.f1) scores (All-weaken scores (λ s h. h.2) all),
      micro_p,
      micro_r,
      f1-IsShare (micro_of hits (total_retrieved scores) (whole 0) scores)
          (micro_of hits (total_expected scores) (whole 1) scores) micro_p micro_r,
      mean-IsShare (λ s. s.reciprocal_rank) scores (All-weaken scores (λ s h. h.3) all),
      mean-IsShare (λ s. s.precision_at_r) scores (All-weaken scores (λ s h. h.4) all),
    )
