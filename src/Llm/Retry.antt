-- ===== src/Llm/Retry.antt =====
-- llm/config.py: what `_with_rate_limit_retry` comes to, how often it calls, and how long it sleeps.
use conversational_memory_sy.Prelude.{
  ℕ, zero, suc, ◌+◌, ◌*◌, ◌^◌, ◌/◌, ◌≤◌, ◌≡◌, min, refl, sym, subst, Bool, true, false, Option,
  none, some, List, [], ◌∷◌, ◌==◌, length, All, arith, Bool-cases, inl, inr,
}
use conversational_memory_sy.Context.Text.{Text}
use conversational_memory_sy.Llm.{
  Failure, Attempt, Retried, is_rate_limit, Delays, backoff, delay_of, Outcome, ending, after,
  settle, retry_from, with_rate_limit_retry,
}

-- the longest sleep
abbrev pub longest : Delays → ℕ
longest d = d.ceiling + d.second

sum-le : (b r s q c : ℕ) → b ≤ c → b + min r (min s q) ≤ c + s
sum-le b r s q c h = omega (arith, h)

backoff-le : (d : Delays) (attempt : ℕ) (o : Option ℕ) → backoff d attempt o ≤ d.ceiling
backoff-le d attempt none =
    let wait = d.base * 2 ^ attempt in let h : min wait d.ceiling ≤ d.ceiling = omega arith in h
backoff-le d attempt (some requested) = omega arith

delay_of-le :
    (d : Delays) (random : ℕ → ℕ) (attempt : ℕ) (e : Failure)
    → delay_of d random attempt e ≤ longest d
delay_of-le d random attempt e =
    let delay = backoff d attempt e.retry_after in
    sum-le delay (random attempt) d.second (delay / 4) d.ceiling
      (backoff-le d attempt e.retry_after)

-- `k` numbers from `i` on
abbrev pub upto : (i k : ℕ) → List ℕ
upto i zero = []
upto i (suc k) = i ∷ upto (suc i) k

-- the number of retries that so many attempts leave
abbrev pub retries_of : ℕ → ℕ
retries_of zero = 0
retries_of (suc remaining) = remaining

module _ (lower : Text → Text) (d : Delays) (random : ℕ → ℕ) {A : Type 0}
    (operation : (attempt : ℕ) → Attempt A) where
  -- An attempt that met an error that `_is_rate_limit` accepts.
  abbrev pub IsLimited : ℕ → Type 0
  IsLimited i = (e : Failure) × (operation i ≡ Attempt.failed e) × (is_rate_limit lower e ≡ true)

  -- What the last attempt made of the run; `final` is whether no other was left.
  abbrev pub Decides : Attempt A → (final : Bool) → Retried A → Type 0
  Decides (Attempt.returned a) final (Retried.returned b) = a ≡ b
  Decides (Attempt.failed e) final (Retried.reraised other) =
      (e ≡ other) × (is_rate_limit lower e ≡ false)
  Decides (Attempt.failed e) true Retried.exhausted = is_rate_limit lower e ≡ true
  Decides _ _ _ = ⊥

  -- After `k` retries: each attempt before the last met a rate limit, the last one decides, and
  -- there was one sleep for each retry, none of them too long.
  pub record IsRetried (remaining attempt : ℕ) (o : Outcome A) : Type 0 where
    pub retries : ℕ
    pub bounded : retries ≤ remaining
    pub limited : All IsLimited (upto attempt retries)
    pub decided : Decides (operation (attempt + retries)) (retries == remaining) o.result
    pub slept : length o.slept ≡ retries
    pub short : All (λ t. t ≤ longest d) o.slept

  ended-IsRetried :
      (remaining attempt : ℕ) (result : Retried A)
      → Decides (operation attempt) (0 == remaining) result
      → IsRetried remaining attempt (ending result)
  ended-IsRetried remaining attempt result h = record {
    retries = 0;
    bounded = omega arith;
    limited = tt;
    decided =
        let e : attempt ≡ attempt + 0 = omega arith in
        subst (λ n. Decides (operation n) (0 == remaining) result) e h;
    slept = refl;
    short = tt;
  }

  same_count : (k n : ℕ) → (k == n) ≡ (suc k == suc n)
  same_count k n = ground arith

  after-IsRetried :
      (remaining attempt : ℕ) (e : Failure) (o : Outcome A)
      → operation attempt ≡ Attempt.failed e
      → is_rate_limit lower e ≡ true
      → IsRetried remaining (suc attempt) o
      → IsRetried (suc remaining) attempt (after (delay_of d random attempt e) o)
  after-IsRetried remaining attempt e o h limit r = record {
    retries = suc r.retries;
    bounded = (let b = r.bounded in omega (arith, b));
    limited = ((e, h, limit), r.limited);
    decided =
        let n : suc attempt + r.retries ≡ attempt + suc r.retries = omega arith in
        subst (λ i. Decides (operation i) (suc r.retries == suc remaining) o.result) n
          (subst (λ b. Decides (operation (suc attempt + r.retries)) b o.result)
            (same_count r.retries remaining) r.decided);
    slept = (let s = r.slept in omega (arith, s));
    short = (delay_of-le d random attempt e, r.short);
  }

  last-IsRetried :
      (a : Attempt A) (attempt : ℕ) (later : Outcome A)
      → operation attempt ≡ a
      → IsRetried zero attempt (settle lower d random operation a attempt zero later)
  last-IsRetried (Attempt.returned v) attempt later h =
      ended-IsRetried zero attempt (Retried.returned v)
        (subst (λ a. Decides a true (Retried.returned v)) (sym h) refl)
  last-IsRetried (Attempt.failed e) attempt later h = elim (Bool-cases (is_rate_limit lower e)) [
    | inl limit ↦ rw (limit) (
        ended-IsRetried zero attempt Retried.exhausted
          (subst (λ a. Decides a true Retried.exhausted) (sym h) limit))
    | inr other ↦ rw (other) (
        ended-IsRetried zero attempt (Retried.reraised e)
          (subst (λ a. Decides a true (Retried.reraised e)) (sym h) (refl, other)))
  ]

  next-IsRetried :
      (a : Attempt A) (remaining attempt : ℕ) (later : Outcome A)
      → operation attempt ≡ a
      → IsRetried remaining (suc attempt) later
      → IsRetried
          (suc remaining)
          attempt
          (settle lower d random operation a attempt (suc remaining) later)
  next-IsRetried (Attempt.returned v) remaining attempt later h r =
      ended-IsRetried (suc remaining) attempt (Retried.returned v)
        (subst (λ a. Decides a (0 == suc remaining) (Retried.returned v)) (sym h) refl)
  next-IsRetried (Attempt.failed e) remaining attempt later h r =
      elim (Bool-cases (is_rate_limit lower e)) [
        | inl limit ↦ rw (limit) (after-IsRetried remaining attempt e later h limit r)
        | inr other ↦ rw (other) (
            ended-IsRetried (suc remaining) attempt (Retried.reraised e) (
              subst (λ a. Decides a (0 == suc remaining) (Retried.reraised e)) (sym h)
                (refl, other)))
      ]

  retry_from-IsRetried :
      (remaining attempt : ℕ)
      → IsRetried remaining attempt (retry_from lower d random operation remaining attempt)
  unfolding retry_from
  retry_from-IsRetried zero attempt =
      last-IsRetried (operation attempt) attempt (ending Retried.exhausted) refl
  retry_from-IsRetried (suc remaining) attempt =
      next-IsRetried (operation attempt) remaining attempt
        (retry_from lower d random operation remaining (suc attempt)) refl
        (retry_from-IsRetried remaining (suc attempt))

  -- A retried call makes at most as many attempts as it is allowed, and at least one; each
  -- attempt before the last met an error that `_is_rate_limit` takes for a rate limit, and the
  -- last one decides: its value is the result, an error that `_is_rate_limit` rejects is raised
  -- at once, and one that it accepts only ends the run if no attempt is left. There is one sleep
  -- for each retry, and none is longer than the ceiling and a second of jitter. `_is_rate_limit`
  -- accepts more than rate limits: every error whose class is named APIStatusError, a 400 or a
  -- 401 too, and every text with 429 in it.
  pub with_rate_limit_retry-IsRetried :
      (attempts : ℕ)
      → IsRetried (retries_of attempts) 0 (with_rate_limit_retry lower d random operation attempts)
  unfolding with_rate_limit_retry
  with_rate_limit_retry-IsRetried zero = retry_from-IsRetried 0 0
  with_rate_limit_retry-IsRetried (suc remaining) = retry_from-IsRetried remaining 0

  -- a value that is reached within the attempts is the result
  retry_from-returns :
      (k remaining attempt : ℕ) (a : A)
      → k ≤ remaining
      → All IsLimited (upto attempt k)
      → operation (attempt + k) ≡ Attempt.returned a
      → (retry_from lower d random operation remaining attempt).result ≡ Retried.returned a
  unfolding retry_from
  retry_from-returns zero zero attempt a h l r =
      let e : attempt + 0 ≡ attempt = omega arith in
      let here = subst (λ n. operation n ≡ Attempt.returned a) e r in rw (here) refl
  retry_from-returns zero (suc remaining) attempt a h l r =
      let e : attempt + 0 ≡ attempt = omega arith in
      let here = subst (λ n. operation n ≡ Attempt.returned a) e r in rw (here) refl
  retry_from-returns (suc k) zero attempt a h l r = absurd (omega (arith, h))
  retry_from-returns (suc k) (suc remaining) attempt a h ((e, failed, limit), l) r =
      let n : attempt + suc k ≡ suc attempt + k = omega arith in
      rw (failed, limit)
        (retry_from-returns k remaining (suc attempt) a (omega (arith, h)) l
          (subst (λ i. operation i ≡ Attempt.returned a) n r))

  pub with_rate_limit_retry-returns :
      (attempts k : ℕ) (a : A)
      → k ≤ retries_of attempts
      → All IsLimited (upto 0 k)
      → operation k ≡ Attempt.returned a
      → (with_rate_limit_retry lower d random operation attempts).result ≡ Retried.returned a
  unfolding with_rate_limit_retry
  with_rate_limit_retry-returns zero k a h l r =
      let n : k ≡ 0 + k = omega arith in
      retry_from-returns k 0 0 a h l (subst (λ i. operation i ≡ Attempt.returned a) n r)
  with_rate_limit_retry-returns (suc remaining) k a h l r =
      let n : k ≡ 0 + k = omega arith in
      retry_from-returns k remaining 0 a h l (subst (λ i. operation i ≡ Attempt.returned a) n r)
