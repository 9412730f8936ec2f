-- ===== src/Retrieve/Guarded.antt =====
-- retrieve/guarded.py: hybrid retrieval behind the breaker and a wall-clock budget. The metrics
-- and the log lines are not modelled.
pub mod Effects
pub mod Outage
pub mod Answers
use conversational_memory_sy.Prelude.{
  ℕ, ◌≡◌, ◌≢◌, refl, Bool, true, false, not, ◌&&◌, ◌||◌, ◌⊎◌, Option, none, some, List, [], ◌∷◌,
  map, arith, if◌then◌else◌,
}
use conversational_memory_sy.Breaker.{
  Circuit, BreakerState, Keyspace, blocked, allow_script, success_script, failure_script,
}
use conversational_memory_sy.Breaker.Replica.{
  Call, answered, BreakerDecision, decision, allow, record_success, record_failure,
}
use conversational_memory_sy.Retrieve.{Source, semantic, keyword, same_source, HybridResult}

-- What awaiting the search under the budget comes to.
pub data Outcome (C R : Type 0) : Type 0 where
  returned : HybridResult C R → Outcome C R
  timed_out raised cancelled : Outcome C R

-- The `reason` of `RetrievalUnavailable`.
pub data Reason : Type 0 where
  open_circuit timeout error all_paths_degraded : Reason

-- What the guarded call comes to: a result, `RetrievalUnavailable`, the caller's cancellation, or
-- another exception (of the breaker's own bookkeeping).
pub data Guarded (C R : Type 0) : Type 0 where
  found : HybridResult C R → Guarded C R
  unavailable : Reason → Circuit → Guarded C R
  interrupted : Guarded C R
  crashed : Guarded C R

-- `set(keys)`, as membership
abbrev has_key {ℓ} : {A : Type ℓ} → Source → List (Source × A) → Bool
has_key p [] = false
has_key p ((q, _) ∷ rest) = same_source p q || has_key p rest

abbrev all_degraded {ℓ κ} : {A : Type ℓ} {B : Type κ} → List (Source × A) → List (Source × B) → Bool
all_degraded [] degraded = true
all_degraded ((p, _) ∷ rest) degraded = has_key p degraded && all_degraded rest degraded

abbrev is_empty {ℓ} : {A : Type ℓ} → List A → Bool
is_empty [] = true
is_empty (_ ∷ _) = false

module _ {C R : Type 0} where
  -- `_total_failure`
  unfoldable pub total_failure : HybridResult C R → Bool
  total_failure result =
      if is_empty result.path_counts || is_empty result.degraded
      then false
      else all_degraded result.path_counts result.degraded

  -- After the search: what is recorded, and what the caller gets. `now` and `later` are the clock
  -- before and after the record is written, `again` the second read of a straggler's success.
  module _ {S : Type 0} (redis : Keyspace S) (threshold cooldown ttl : ℕ) where
    abbrev failing : Reason → S × BreakerState → S × Guarded C R
    failing why (s, r) = (s, unavailable why r.state)

    abbrev succeeding : HybridResult C R → S × Option BreakerState → S × Guarded C R
    succeeding result (s, none) = (s, crashed)
    succeeding result (s, some _) = (s, found result)

    conclude : Call → Call → S → (now later : ℕ) → Bool → Outcome C R → S × Guarded C R
    unfolding total_failure
    conclude call again s now later was_probe timed_out =
        failing timeout (record_failure redis threshold cooldown ttl call s now later was_probe)
    conclude call again s now later was_probe cancelled = (s, interrupted)
    conclude call again s now later was_probe raised =
        failing error (record_failure redis threshold cooldown ttl call s now later was_probe)
    conclude call again s now later was_probe (returned result) =
        if total_failure result
        then failing Reason.all_paths_degraded
            (record_failure redis threshold cooldown ttl call s now later was_probe)
        else succeeding result (record_success redis threshold cooldown ttl call again s was_probe)

    -- `guarded_hybrid_search`; `search` is run only if the breaker lets the call through
    unfoldable pub guarded_hybrid_search :
        (gate_call record_call again : Call)
        → S
        → (asked_at token now later : ℕ) → (Unit {0} → Outcome C R)
        → S × Guarded C R
    unfolding conclude
    guarded_hybrid_search gate_call record_call again s asked_at token now later search =
        let (s', d) = allow redis threshold cooldown ttl gate_call s asked_at token in
        if d.allowed
        then conclude record_call again s' now later d.probe (search tt)
        else (s', unavailable open_circuit d.state)
