-- ===== src/Evals.antt =====
-- evals/metrics.py: the scores of a retrieval run. Ids are numbers, a float is a fraction that is not
-- rounded, and a set is a list without repetitions.
pub mod Sets
pub mod Agree
pub mod Bounds
pub mod Pooled
mod Examples
use conversational_memory_sy.Prelude.{
  ℕ, zero, suc, ◌+◌, ◌*◌, Bool, true, false, ◌||◌, Option, none, some, List, [], ◌∷◌, ◌==◌, ltb,
  take, keep, count_if, length, map, if◌then◌else◌,
}

abbrev pub is_in : List ℕ → ℕ → Bool
is_in [] x = false
is_in (y ∷ ys) x = y == x || is_in ys x

-- `_as_set`
unfoldable pub as_set : List ℕ → List ℕ
as_set [] = []
as_set (x ∷ xs) = let rest = as_set xs in if is_in rest x then rest else x ∷ rest

-- `len(a & b)`
abbrev pub common : List ℕ → List ℕ → ℕ
common a b = count_if (is_in b) a

pub record Fraction : Type 0 where
  pub num : ℕ
  pub den : ℕ

abbrev pub whole : ℕ → Fraction
whole n = record { num = n; den = 1 }

abbrev pub plus : Fraction → Fraction → Fraction
plus p q = record { num = p.num * q.den + q.num * p.den; den = p.den * q.den }

abbrev pub times : Fraction → Fraction → Fraction
times p q = record { num = p.num * q.num; den = p.den * q.den }

abbrev pub over : Fraction → Fraction → Fraction
over p q = record { num = p.num * q.den; den = p.den * q.num }

-- a quotient of counts, where there is nothing to divide by
abbrev pub share : (count size : ℕ) → (otherwise : Fraction) → Fraction
share count zero otherwise = otherwise
share count (suc n) otherwise = record { num = count; den = suc n }

-- `precision`
unfoldable pub precision : (retrieved expected : List ℕ) → Fraction
unfolding as_set
precision retrieved expected =
    share (common (as_set retrieved) (as_set expected)) (length (as_set retrieved)) (whole 0)

-- `recall`
unfoldable pub recall : (retrieved expected : List ℕ) → Fraction
unfolding as_set
recall retrieved expected =
    share (common (as_set retrieved) (as_set expected)) (length (as_set expected)) (whole 1)

-- `f1`
unfoldable pub f1 : Fraction → Fraction → Fraction
f1 p r = if ltb 0 (plus p r).num then over (times (times (whole 2) p) r) (plus p r) else whole 0

-- the loop of `reciprocal_rank`, from a position on
abbrev pub rank_from : (expected : List ℕ) → (position : ℕ) → (ranked : List ℕ) → Fraction
rank_from expected position [] = whole 0
rank_from expected position (x ∷ xs) =
    let rest = rank_from expected (suc position) xs in
    if is_in expected x then record { num = 1; den = position } else rest

abbrev unless_empty : List ℕ → Fraction → Fraction
unless_empty [] score = whole 0
unless_empty (x ∷ xs) score = score

-- `reciprocal_rank`
unfoldable pub reciprocal_rank : (ranked expected : List ℕ) → Fraction
unfolding as_set
reciprocal_rank ranked expected =
    unless_empty (as_set expected) (rank_from (as_set expected) 1 ranked)

-- `precision_at_r`
unfoldable pub precision_at_r : (ranked expected : List ℕ) → Fraction
unfolding as_set
precision_at_r ranked expected =
    let r = length (as_set expected) in
    share (common (as_set (take r ranked)) (as_set expected)) r (whole 0)

-- `QueryScore`, without the id of the query
pub record QueryScore : Type 0 where
  pub retrieved : List ℕ
  pub expected : List ℕ
  pub hits : List ℕ
  pub precision : Fraction
  pub recall : Fraction
  pub f1 : Fraction
  pub reciprocal_rank : Fraction
  pub precision_at_r : Fraction

-- `ranked[:k] if k else ranked`, for a cutoff that is not negative
abbrev pub cut : Option ℕ → List ℕ → List ℕ
cut none ranked = ranked
cut (some zero) ranked = ranked
cut (some (suc n)) ranked = take (suc n) ranked

-- `score_query`
unfoldable pub score_query : (retrieved expected : List ℕ) → (k : Option ℕ) → QueryScore
unfolding precision recall f1 reciprocal_rank precision_at_r
score_query retrieved expected k =
    let truncated = cut k retrieved in
    let p = precision truncated expected in
    let r = recall truncated expected in
    record {
      retrieved = truncated;
      expected = expected;
      hits = keep (is_in (as_set expected)) truncated;
      precision = p;
      recall = r;
      f1 = f1 p r;
      reciprocal_rank = reciprocal_rank truncated expected;
      precision_at_r = precision_at_r truncated expected;
    }

abbrev pub total : List ℕ → ℕ
total [] = 0
total (n ∷ ns) = n + total ns

abbrev pub sum : List Fraction → Fraction
sum [] = whole 0
sum (p ∷ ps) = plus p (sum ps)

-- `aggregate`, without the rounding
pub record Aggregate : Type 0 where
  pub queries : ℕ
  pub macro_precision : Fraction
  pub macro_recall : Fraction
  pub macro_f1 : Fraction
  pub micro_precision : Fraction
  pub micro_recall : Fraction
  pub micro_f1 : Fraction
  pub mrr : Fraction
  pub mean_precision_at_r : Fraction
  pub mean_expected_size : Option Fraction

abbrev pub total_hits : List QueryScore → ℕ
unfolding as_set
total_hits scores = total (map (λ s. common (as_set s.retrieved) (as_set s.expected)) scores)

abbrev pub total_retrieved : List QueryScore → ℕ
unfolding as_set
total_retrieved scores = total (map (λ s. length (as_set s.retrieved)) scores)

abbrev pub total_expected : List QueryScore → ℕ
unfolding as_set
total_expected scores = total (map (λ s. length (as_set s.expected)) scores)

-- the mean of a metric; of no scores it is 0
abbrev pub mean : (QueryScore → Fraction) → List QueryScore → Fraction
mean metric [] = whole 0
mean metric (s ∷ scores) = over (sum (map metric (s ∷ scores))) (whole (length (s ∷ scores)))

-- pooled over all queries; of no scores it is 0
abbrev pub micro_of : (hits size : ℕ) → (otherwise : Fraction) → List QueryScore → Fraction
micro_of hits size otherwise [] = whole 0
micro_of hits size otherwise (s ∷ scores) = share hits size otherwise

-- a key that is absent for no scores
abbrev mean_size : ℕ → List QueryScore → Option Fraction
mean_size expected [] = none
mean_size expected (s ∷ scores) = some (over (whole expected) (whole (length (s ∷ scores))))

unfoldable pub aggregate : List QueryScore → Aggregate
unfolding f1 total_hits total_retrieved total_expected
aggregate scores =
    let hits = total_hits scores in
    let p = micro_of hits (total_retrieved scores) (whole 0) scores in
    let r = micro_of hits (total_expected scores) (whole 1) scores in
    record {
      queries = length scores;
      macro_precision = mean (λ s. s.precision) scores;
      macro_recall = mean (λ s. s.recall) scores;
      macro_f1 = mean (λ s. s.f1) scores;
      micro_precision = p;
      micro_recall = r;
      micro_f1 = f1 p r;
      mrr = mean (λ s. s.reciprocal_rank) scores;
      mean_precision_at_r = mean (λ s. s.precision_at_r) scores;
      mean_expected_size = mean_size (total_expected scores) scores;
    }
