-- ===== src/Evals/Agree.antt =====
-- evals/metrics.py: the metrics of a query agree on what is a miss, and the rank of the first hit.
use conversational_memory_sy.Prelude.{
  ℕ, zero, suc, ◌+◌, ◌≡◌, refl, ap, ◌∙◌, Bool, true, false, Option, List, [], ◌∷◌, ◌++◌, ◌==◌, ltb,
  take, keep, count_if, length, All, if◌then◌else◌, arith, Bool-cases, inl, inr, subst, ==→eq,
}
use conversational_memory_sy.Evals.{
  is_in, as_set, common, unless_empty, Fraction, whole, plus, share, precision, recall, f1,
  rank_from, reciprocal_rank, precision_at_r, cut, score_query,
}
use conversational_memory_sy.Evals.Sets.{is_in-as_set}

-- No element of a list is in a set.
abbrev pub Misses : List ℕ → List ℕ → Type 0
Misses e xs = All (λ x. is_in e x ≡ false) xs

Misses-member : (e xs : List ℕ) (x : ℕ) → Misses e xs → is_in xs x ≡ true → is_in e x ≡ false
Misses-member e [] x h k = cc
Misses-member e (y ∷ ys) x (h, hs) k = elim (Bool-cases (y == x)) [
  | inl same ↦ subst (λ n. is_in e n ≡ false) (==→eq y x same) h
  | inr other ↦ Misses-member e ys x hs (let fact = other in ground (arith, fact))
]

count_zero : (p : ℕ → Bool) (xs : List ℕ) → count_if p xs ≡ 0 → All (λ x. p x ≡ false) xs
count_zero p [] h = tt
count_zero p (x ∷ xs) h = elim (Bool-cases (p x)) [
  | inl hit ↦ absurd (ground (arith, hit, h))
  | inr miss ↦ (miss, count_zero p xs (ground (arith, miss, h)))
]

zero_count : (p : ℕ → Bool) (xs : List ℕ) → All (λ x. p x ≡ false) xs → count_if p xs ≡ 0
zero_count p [] h = refl
zero_count p (x ∷ xs) (h, hs) = ground (arith, h, zero_count p xs hs)

tail-Misses :
    (e : List ℕ) (b : Bool) (x : ℕ) (rest : List ℕ)
    → Misses e (if b then rest else x ∷ rest)
    → Misses e rest
tail-Misses e true x rest h = h
tail-Misses e false x rest (h, hs) = hs

head_miss :
    (e : List ℕ) (b : Bool) (x : ℕ) (rest : List ℕ)
    → b ≡ false
    → Misses e (if b then rest else x ∷ rest)
    → is_in e x ≡ false
head_miss e true x rest k h = cc
head_miss e false x rest k (h, hs) = h

as_set-Misses : (e xs : List ℕ) → Misses e (as_set xs) → Misses e xs
unfolding as_set
as_set-Misses e [] h = tt
as_set-Misses e (x ∷ xs) h =
    let seen = is_in (as_set xs) x in
    let rest = tail-Misses e seen x (as_set xs) h in
    elim (Bool-cases seen) [
      | inl known ↦ (Misses-member e (as_set xs) x rest known, as_set-Misses e xs rest)
      | inr new ↦ (head_miss e seen x (as_set xs) new h, as_set-Misses e xs rest)
    ]

Misses-as_set : (e xs : List ℕ) → Misses e xs → Misses e (as_set xs)
unfolding as_set
Misses-as_set e [] h = tt
Misses-as_set e (x ∷ xs) (h, hs) = elim (Bool-cases (is_in (as_set xs) x)) [
  | inl known ↦ rw (known) (Misses-as_set e xs hs)
  | inr new ↦ rw (new) (h, Misses-as_set e xs hs)
]

Misses-take : (e : List ℕ) (n : ℕ) (xs : List ℕ) → Misses e xs → Misses e (take n xs)
Misses-take e zero xs h = tt
Misses-take e (suc n) [] h = tt
Misses-take e (suc n) (x ∷ xs) (h, hs) = (h, Misses-take e n xs hs)

Misses-keep : (e xs : List ℕ) → Misses e xs → keep (is_in e) xs ≡ []
Misses-keep e [] h = refl
Misses-keep e (x ∷ xs) (h, hs) = rw (h, keep) (Misses-keep e xs hs)

Misses-rank : (e : List ℕ) (i : ℕ) (xs : List ℕ) → Misses e xs → rank_from e i xs ≡ whole 0
Misses-rank e i [] h = refl
Misses-rank e i (x ∷ xs) (h, hs) = rw (h) (Misses-rank e (suc i) xs hs)

share_zero :
    (count size : ℕ) (otherwise : Fraction)
    → count ≡ 0
    → otherwise.num ≡ 0
    → (share count size otherwise).num ≡ 0
share_zero count zero otherwise h k = k
share_zero count (suc n) otherwise h k = h

-- a share of nothing is 1 if there is nothing to find
zero_share : (count size : ℕ) → (share count size (whole 1)).num ≡ 0 → count ≡ 0
zero_share count zero h = absurd (omega (arith, h))
zero_share count (suc n) h = h

recall_zero : (t e : List ℕ) → (recall t e).num ≡ 0 → Misses (as_set e) t
unfolding recall
recall_zero t e h = as_set-Misses (as_set e) t (
    count_zero (is_in (as_set e)) (as_set t)
      (zero_share (common (as_set t) (as_set e)) (length (as_set e)) h))

precision-Misses : (t e : List ℕ) → Misses (as_set e) t → (precision t e).num ≡ 0
unfolding precision
precision-Misses t e h =
    share_zero (common (as_set t) (as_set e)) (length (as_set t)) (whole 0)
      (zero_count (is_in (as_set e)) (as_set t) (Misses-as_set (as_set e) t h)) refl

precision_at_r-Misses : (t e : List ℕ) → Misses (as_set e) t → (precision_at_r t e).num ≡ 0
unfolding precision_at_r
precision_at_r-Misses t e h =
    let top = take (length (as_set e)) t in
    share_zero (common (as_set top) (as_set e)) (length (as_set e)) (whole 0)
      (zero_count (is_in (as_set e)) (as_set top)
        (Misses-as_set (as_set e) top (Misses-take (as_set e) (length (as_set e)) t h)))
      refl

unless_empty_zero :
    (e : List ℕ) (score : Fraction) → score ≡ whole 0 → (unless_empty e score).num ≡ 0
unless_empty_zero [] score h = refl
unless_empty_zero (x ∷ e) score h = ap (λ p. p.num) h

reciprocal_rank-Misses : (t e : List ℕ) → Misses (as_set e) t → (reciprocal_rank t e).num ≡ 0
unfolding reciprocal_rank
reciprocal_rank-Misses t e h =
    unless_empty_zero (as_set e) (rank_from (as_set e) 1 t) (Misses-rank (as_set e) 1 t h)

f1_zero : (p r : Fraction) → p.num ≡ 0 → r.num ≡ 0 → (f1 p r).num ≡ 0
unfolding f1
f1_zero p r h k =
    let none_left : (plus p r).num ≡ 0 = rw (h, k) (omega arith) in
    let idle : ltb 0 (plus p r).num ≡ false = ground arith in rw (idle) refl

-- A query whose recall is 0, at whatever cutoff, has no hits, and its precision, its F1, its
-- reciprocal rank and its R-precision are 0 too.
pub score_query-agrees :
    (retrieved expected : List ℕ) (k : Option ℕ)
    → (score_query retrieved expected k).recall.num ≡ 0
    → let s = score_query retrieved expected k in
      (s.hits ≡ [])
      × (s.precision.num ≡ 0)
      × (s.f1.num ≡ 0)
      × (s.reciprocal_rank.num ≡ 0)
      × (s.precision_at_r.num ≡ 0)
unfolding score_query
score_query-agrees retrieved expected k h =
    let t = cut k retrieved in
    let misses = recall_zero t expected h in
    let p = precision-Misses t expected misses in
    (
      Misses-keep (as_set expected) t misses,
      p,
      f1_zero (precision t expected) (recall t expected) p h,
      reciprocal_rank-Misses t expected misses,
      precision_at_r-Misses t expected misses,
    )

Misses-set : (expected xs : List ℕ) → Misses expected xs → Misses (as_set expected) xs
Misses-set expected [] h = tt
Misses-set expected (x ∷ xs) (h, hs) = (is_in-as_set expected x ∙ h, Misses-set expected xs hs)

-- what is said of a rank: no hit before it, and one at it
abbrev pub IsFirst : List ℕ → (before : List ℕ) → (hit : ℕ) → Type 0
IsFirst e before hit = Misses e before × (is_in e hit ≡ true)

rank_from-first :
    (e : List ℕ) (i : ℕ) (before : List ℕ) (hit : ℕ) (after : List ℕ)
    → IsFirst e before hit
    → rank_from e i (before ++ hit ∷ after) ≡ record { num = 1; den = i + length before }
rank_from-first e i [] hit after (m, h) =
    let n : i ≡ i + 0 = omega arith in rw (h) (ap (λ d. record { num = 1; den = d }) n)
rank_from-first e i (x ∷ before) hit after ((miss, m), h) =
    let n : suc i + length before ≡ i + suc (length before) = omega arith in
    rw (miss)
      (rank_from-first e (suc i) before hit after (m, h) ∙ ap (λ d. record { num = 1; den = d }) n)

unless_empty-some :
    (e : List ℕ) (hit : ℕ) (score : Fraction) → is_in e hit ≡ true → unless_empty e score ≡ score
unless_empty-some [] hit score h = cc
unless_empty-some (x ∷ e) hit score h = refl

-- The reciprocal rank is 1 over the place of the first document that was expected.
pub reciprocal_rank-first :
    (before : List ℕ) (hit : ℕ) (after expected : List ℕ)
    → Misses expected before
    → is_in expected hit ≡ true
    → reciprocal_rank (before ++ hit ∷ after) expected
      ≡ record { num = 1; den = suc (length before) }
unfolding reciprocal_rank
reciprocal_rank-first before hit after expected m h =
    let e = as_set expected in
    let found = is_in-as_set expected hit ∙ h in
    let n : 1 + length before ≡ suc (length before) = omega arith in
    unless_empty-some e hit (rank_from e 1 (before ++ hit ∷ after)) found
    ∙ (rank_from-first e 1 before hit after (Misses-set expected before m, found)
        ∙ ap (λ d. record { num = 1; den = d }) n)
