-- ===== src/Retrieve/Guarded/Outage.antt =====
-- retrieve/guarded.py and retrieve/breaker.py: a row of guarded calls whose searches fail.
use conversational_memory_sy.Prelude.{
  ℕ, ◌+◌, ◌<◌, ◌≡◌, refl, ap, ◌∙◌, Bool, true, false, not, List, [], ◌∷◌, All, count_if, arith,
  Bool-cases, inl, inr, if◌then◌else◌,
}
use conversational_memory_sy.Breaker.{
  closed, opened, blocked, allowed, BreakerState, Keyspace, stored, healthy, failed, allow_script,
}
use conversational_memory_sy.Breaker.Events.{report_failure, step, stored-step}
use conversational_memory_sy.Breaker.Replica.{
  answered, BreakerDecision, decision, allow, record_failure,
}
use conversational_memory_sy.Retrieve.Guarded.{
  Outcome, Guarded, conclude, returned, timed_out, raised, cancelled, unavailable, open_circuit,
  total_failure, guarded_hybrid_search,
}

-- One call of the guarded search: its clock readings, its token, and what its search comes to.
pub record GuardedCall (C R : Type 0) : Type 0 where
  pub asked_at : ℕ
  pub token : ℕ
  pub now : ℕ
  pub later : ℕ
  pub outcome : Outcome C R

module _ {C R : Type 0} where
  -- what counts against the circuit: no answer in time, an exception, or nothing but failed paths
  abbrev pub is_failure : Outcome C R → Bool
  is_failure timed_out = true
  is_failure raised = true
  is_failure cancelled = false
  is_failure (returned result) = total_failure result

  -- what counts for it
  abbrev pub is_success : Outcome C R → Bool
  is_success timed_out = false
  is_success raised = false
  is_success cancelled = false
  is_success (returned result) = not (total_failure result)

  abbrev pub failures : List (GuardedCall C R) → ℕ
  failures = count_if (λ c. is_failure c.outcome)

-- a closed record with a number of failures
abbrev count_of : ℕ → BreakerState
count_of n = record healthy { failures = n }

failed-count_of :
    (n now threshold : ℕ)
    → n + 1 < threshold
    → failed (count_of n) now threshold false ≡ count_of (n + 1)
failed-count_of n now threshold h = ground (arith, h)

failed-opens :
    (n now threshold : ℕ)
    → n + 1 ≡ threshold
    → failed (count_of n) now threshold false
      ≡ record { state = opened; failures = threshold; opened_at = now }
failed-opens n now threshold h = ground (arith, h)

module _ {S : Type 0} (redis : Keyspace S) (threshold cooldown ttl : ℕ) where
  recorded :
      (s : S) (now later : ℕ)
      → stored redis (record_failure redis threshold cooldown ttl answered s now later false).0
        ≡ failed (stored redis s) now threshold false
  unfolding record_failure step
  recorded s now later = stored-step redis threshold cooldown ttl s (report_failure now false)

  allow-closed :
      (s : S) (now token n : ℕ)
      → stored redis s ≡ count_of n
      → allow redis threshold cooldown ttl answered s now token ≡ (s, decision allowed closed)
  unfolding allow allow_script
  allow-closed s now token n e = ground (arith, e)

  allow-opened :
      (s : S) (now token : ℕ)
      → (stored redis s).state ≡ opened
      → now < (stored redis s).opened_at + cooldown
      → allow redis threshold cooldown ttl answered s now token ≡ (s, decision blocked opened)
  unfolding allow allow_script
  allow-opened s now token e h = ground (arith, e, h)

module _ {C R S : Type 0} (redis : Keyspace S) (threshold cooldown ttl : ℕ) where
  -- a call while Redis answers, and a row of calls, one after the other
  abbrev pub guarded_call : S → GuardedCall C R → S × Guarded C R
  guarded_call s c =
      guarded_hybrid_search redis threshold cooldown ttl answered answered answered s c.asked_at
        c.token c.now c.later (λ _. c.outcome)

  abbrev pub after_calls : S → List (GuardedCall C R) → S
  after_calls s [] = s
  after_calls s (c ∷ cs) = after_calls (guarded_call s c).0 cs

  -- what is recorded of a search that does not succeed
  concluded :
      (s : S) (now later : ℕ) (outcome : Outcome C R)
      → is_success outcome ≡ false
      → stored redis
          (conclude redis threshold cooldown ttl answered answered s now later false outcome).0
        ≡ (if is_failure outcome
            then failed (stored redis s) now threshold false
            else stored redis s)
  unfolding conclude
  concluded s now later timed_out h = recorded redis threshold cooldown ttl s now later
  concluded s now later raised h = recorded redis threshold cooldown ttl s now later
  concluded s now later cancelled h = refl
  concluded s now later (returned result) h =
      ground (arith, h, recorded redis threshold cooldown ttl s now later)

  gated : S → (now later : ℕ) → (Unit {0} → Outcome C R) → S × BreakerDecision → S × Guarded C R
  gated s now later search (s', d) =
      if d.allowed
      then conclude redis threshold cooldown ttl answered answered s' now later d.probe (search tt)
      else (s', unavailable open_circuit d.state)

  -- what a call whose search does not succeed does to a closed circuit
  closed-call :
      (s : S) (c : GuardedCall C R) (n : ℕ)
      → stored redis s ≡ count_of n
      → is_success c.outcome ≡ false
      → stored redis (guarded_call s c).0
        ≡ (if is_failure c.outcome then failed (count_of n) c.now threshold false else count_of n)
  unfolding guarded_hybrid_search gated
  closed-call s c n e h =
      ap (λ d. stored redis (gated s c.now c.later (λ _. c.outcome) d).0)
        (allow-closed redis threshold cooldown ttl s c.asked_at c.token n e)
      ∙ (concluded s c.now c.later c.outcome h
          ∙ ap (λ r. if is_failure c.outcome then failed r c.now threshold false else r) e)

  counted :
      (s : S) (cs : List (GuardedCall C R)) (n : ℕ)
      → stored redis s ≡ count_of n
      → All (λ c. is_success c.outcome ≡ false) cs
      → n + failures cs < threshold
      → stored redis (after_calls s cs) ≡ count_of (n + failures cs)
  counted s [] n e h k = e ∙ ap count_of (omega arith)
  counted s (c ∷ cs) n e (h, hs) k = elim (Bool-cases (is_failure c.outcome)) [
    | inl failing ↦
        let one_more : failures (c ∷ cs) ≡ failures cs + 1 = ground (arith, failing) in
        let e' : stored redis (guarded_call s c).0 ≡ count_of (n + 1) =
          closed-call s c n e h
          ∙ (ap (λ b. if b then failed (count_of n) c.now threshold false else count_of n) failing
              ∙ failed-count_of n c.now threshold (omega (arith, one_more, k))) in
        counted (guarded_call s c).0 cs (n + 1) e' hs (omega (arith, one_more, k))
        ∙ ap count_of (omega (arith, one_more))
    | inr waived ↦
        let same : failures (c ∷ cs) ≡ failures cs = ground (arith, waived) in
        let e' : stored redis (guarded_call s c).0 ≡ count_of n =
          closed-call s c n e h
          ∙ ap (λ b. if b then failed (count_of n) c.now threshold false else count_of n) waived in
        counted (guarded_call s c).0 cs n e' hs (omega (arith, same, k))
        ∙ ap count_of (omega (arith, same))
  ]

  failure-IsNoSuccess : (o : Outcome C R) → is_failure o ≡ true → is_success o ≡ false
  failure-IsNoSuccess timed_out h = refl
  failure-IsNoSuccess raised h = refl
  failure-IsNoSuccess cancelled h = refl
  failure-IsNoSuccess (returned result) h = ap not h

  -- From a healthy record and while Redis answers, guarded calls none of which succeeds, one
  -- fewer of them failures than the threshold, leave the circuit closed with exactly the failures
  -- counted; the next failure opens it with the threshold as count and its own time; a guarded
  -- call before the cooldown is over then changes nothing, and is answered `RetrievalUnavailable`
  -- for an open circuit, whatever its search would come to. A failure is a time-out, an exception
  -- of the search or a total failure; a cancelled call is none and is not counted.
  pub guarded_outage :
      (s : S) (cs : List (GuardedCall C R)) (c : GuardedCall C R) (asked_at token now later : ℕ)
      (search : Unit {0} → Outcome C R)
      → stored redis s ≡ healthy
      → All (λ x. is_success x.outcome ≡ false) cs
      → failures cs + 1 ≡ threshold
      → is_failure c.outcome ≡ true
      → asked_at < c.now + cooldown
      → let before = after_calls s cs in
        let after = (guarded_call before c).0 in
        (stored redis before ≡ record healthy { failures = failures cs })
        × (stored redis after ≡ record { state = opened; failures = threshold; opened_at = c.now })
        × (guarded_hybrid_search redis threshold cooldown ttl answered answered answered after
              asked_at token now later search
            ≡ (after, unavailable open_circuit opened))
  unfolding guarded_hybrid_search gated
  guarded_outage s cs c asked_at token now later search e hs k h r =
      let before = after_calls s cs in
      let after = (guarded_call before c).0 in
      let count : stored redis before ≡ count_of (failures cs) =
        counted s cs 0 e hs (omega (arith, k)) ∙ ap count_of (omega arith) in
      let open_now : stored redis after
          ≡ record { state = opened; failures = threshold; opened_at = c.now } =
        closed-call before c (failures cs) count (failure-IsNoSuccess c.outcome h)
        ∙ (ap
              (λ b.
                if b
                then failed (count_of (failures cs)) c.now threshold false
                else count_of (failures cs))
              h
            ∙ failed-opens (failures cs) c.now threshold k) in
      (
        count,
        open_now,
        ap (gated after now later search) (
            allow-opened redis threshold cooldown ttl after asked_at token (rw open_now refl)
              (rw open_now r)),
      )
