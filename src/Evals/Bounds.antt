-- ===== src/Evals/Bounds.antt =====
-- evals/metrics.py: every metric is a number between 0 and 1.
use native.Mathlib.Nat.{mul-le-mul_left}
use conversational_memory_sy.Prelude.{
  ℕ, zero, suc, ◌+◌, ◌*◌, ◌≤◌, Option, List, [], ◌∷◌, ltb, take, length, arith, Bool-cases, inl,
  inr,
}
use conversational_memory_sy.Evals.{
  is_in, as_set, common, Fraction, whole, plus, share, precision, recall, f1, rank_from,
  unless_empty, reciprocal_rank, precision_at_r, cut, score_query,
}
use conversational_memory_sy.Evals.Sets.{common-le, common-le_other}

-- between 0 and 1, and not over 0
abbrev pub IsShare : Fraction → Type 0
IsShare p = (1 ≤ p.den) × (p.num ≤ p.den)

pub zero-IsShare : IsShare (whole 0)
zero-IsShare = (omega arith, omega arith)

pub one-IsShare : IsShare (whole 1)
one-IsShare = (omega arith, omega arith)

pub share-IsShare :
    (count size : ℕ) (otherwise : Fraction)
    → count ≤ size
    → IsShare otherwise
    → IsShare (share count size otherwise)
share-IsShare count zero otherwise h s = s
share-IsShare count (suc n) otherwise h s = (omega arith, h)

pub product_pos : (a b : ℕ) → 1 ≤ a → 1 ≤ b → 1 ≤ a * b
product_pos a b h k = let m : a * 1 ≤ a * b = mul-le-mul_left a k in omega (arith, m, h)

-- the harmonic mean of a / b and c / d, over the common denominators
harmonic-le :
    (a b c d : ℕ) → a ≤ b → c ≤ d → ((2 * a) * c) * (b * d) ≤ ((1 * b) * d) * (a * d + c * b)
harmonic-le a b c d h k =
    let left : a * c ≤ a * d = mul-le-mul_left a k in
    let right : c * a ≤ c * b = mul-le-mul_left c h in
    let both : (2 * a) * c ≤ a * d + c * b = omega (arith, left, right) in
    let scaled : (b * d) * ((2 * a) * c) ≤ (b * d) * (a * d + c * b) =
      mul-le-mul_left (b * d) both in
    omega (arith, scaled)

pub f1-IsShare : (p r : Fraction) → IsShare p → IsShare r → IsShare (f1 p r)
unfolding f1
f1-IsShare p r (hp, kp) (hr, kr) = elim (Bool-cases (ltb 0 (plus p r).num)) [
  | inl some_left ↦
      let positive : 1 ≤ (plus p r).num = (let s = some_left in ground arith) in
      rw (some_left) (
        product_pos ((1 * p.den) * r.den) (plus p r).num
            (product_pos (1 * p.den) r.den (omega (arith, hp)) hr) positive,
        harmonic-le p.num p.den r.num r.den kp kr,
      )
  | inr none_left ↦ rw (none_left) zero-IsShare
]

precision-IsShare : (t e : List ℕ) → IsShare (precision t e)
unfolding precision
precision-IsShare t e =
    share-IsShare (common (as_set t) (as_set e)) (length (as_set t)) (whole 0)
      (common-le (as_set t) (as_set e)) zero-IsShare

recall-IsShare : (t e : List ℕ) → IsShare (recall t e)
unfolding recall
recall-IsShare t e =
    share-IsShare (common (as_set t) (as_set e)) (length (as_set e)) (whole 1) (common-le_other t e)
      one-IsShare

precision_at_r-IsShare : (t e : List ℕ) → IsShare (precision_at_r t e)
unfolding precision_at_r
precision_at_r-IsShare t e =
    let top = take (length (as_set e)) t in
    share-IsShare (common (as_set top) (as_set e)) (length (as_set e)) (whole 0)
      (common-le_other top e) zero-IsShare

rank_from-IsShare : (e : List ℕ) (i : ℕ) (xs : List ℕ) → 1 ≤ i → IsShare (rank_from e i xs)
rank_from-IsShare e i [] h = zero-IsShare
rank_from-IsShare e i (x ∷ xs) h = elim (Bool-cases (is_in e x)) [
  | inl hit ↦ rw (hit) (h, h)
  | inr miss ↦ rw (miss) (rank_from-IsShare e (suc i) xs (omega (arith, h)))
]

unless_empty-IsShare : (e : List ℕ) (p : Fraction) → IsShare p → IsShare (unless_empty e p)
unless_empty-IsShare [] p h = zero-IsShare
unless_empty-IsShare (x ∷ e) p h = h

reciprocal_rank-IsShare : (t e : List ℕ) → IsShare (reciprocal_rank t e)
unfolding reciprocal_rank
reciprocal_rank-IsShare t e =
    unless_empty-IsShare (as_set e) (rank_from (as_set e) 1 t)
      (rank_from-IsShare (as_set e) 1 t (omega arith))

-- Each metric of a query, at whatever cutoff, is a fraction between 0 and 1 that does not divide by 0.
pub score_query-IsShare :
    (retrieved expected : List ℕ) (k : Option ℕ)
    → let s = score_query retrieved expected k in
      IsShare s.precision
      × IsShare s.recall
      × IsShare s.f1
      × IsShare s.reciprocal_rank
      × IsShare s.precision_at_r
unfolding score_query
score_query-IsShare retrieved expected k =
    let t = cut k retrieved in
    let p = precision-IsShare t expected in
    let r = recall-IsShare t expected in
    (
      p,
      r,
      f1-IsShare (precision t expected) (recall t expected) p r,
      reciprocal_rank-IsShare t expected,
      precision_at_r-IsShare t expected,
    )
