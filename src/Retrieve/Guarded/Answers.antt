-- ===== src/Retrieve/Guarded/Answers.antt =====
-- retrieve/guarded.py: the guarded call ends in a result or in `RetrievalUnavailable`.
use conversational_memory_sy.Prelude.{
  ℕ, ◌≢◌, refl, Bool, Option, none, some, Bool-cases, Option-cases, inl, inr,
}
use conversational_memory_sy.Breaker.{Keyspace, BreakerState, success_script}
use conversational_memory_sy.Breaker.Replica.{
  Call, answered, lost, refused, snapshot, allow, record_success, record_failure,
}
use conversational_memory_sy.Retrieve.{HybridResult}
use conversational_memory_sy.Retrieve.Guarded.{
  Outcome, returned, timed_out, raised, cancelled, Guarded, interrupted, crashed, total_failure,
  failing, succeeding, conclude, guarded_hybrid_search, Reason, timeout, error,
}

abbrev pub IsAnswer : {C R : Type 0} → Guarded C R → Type 0
IsAnswer g = (g ≢ interrupted) × (g ≢ crashed)

module _ {S : Type 0} (redis : Keyspace S) (threshold cooldown ttl : ℕ) where
  record_success-read :
      (call again : Call) (s : S) (was_probe : Bool)
      → ((s : S) → snapshot redis threshold cooldown ttl again s ≢ none)
      → (record_success redis threshold cooldown ttl call again s was_probe).1 ≢ none
  unfolding record_success
  record_success-read lost again s was_probe h = λ e. cc
  record_success-read refused again s was_probe h = λ e. cc
  record_success-read answered again s was_probe h =
      let (s', r, applied) = success_script redis s was_probe in
      elim (Bool-cases applied) [
        | inl applies ↦ rw (applies) (λ e. cc)
        | inr straggler ↦ elim (Option-cases (snapshot redis threshold cooldown ttl again s')) [
          | inl e ↦ absurd (h s' e)
          | inr (seen, e) ↦ rw (straggler, e) (λ e. cc)
        ]
      ]

module _ {C R S : Type 0} (redis : Keyspace S) (threshold cooldown ttl : ℕ) where
  failing-IsAnswer :
      (why : Reason) (pair : S × BreakerState)
      → IsAnswer (failing {C = C} {R = R} redis threshold cooldown ttl why pair).1
  failing-IsAnswer why (s, r) = (λ e. cc, λ e. cc)

  succeeding-IsAnswer :
      (result : HybridResult C R) (pair : S × Option BreakerState)
      → pair.1 ≢ none
      → IsAnswer (succeeding redis threshold cooldown ttl result pair).1
  succeeding-IsAnswer result (s, none) h = absurd (h refl)
  succeeding-IsAnswer result (s, some r) h = (λ e. cc, λ e. cc)

  conclude-IsAnswer :
      (call again : Call) (s : S) (now later : ℕ) (was_probe : Bool) (outcome : Outcome C R)
      → outcome ≢ cancelled
      → ((s : S) → snapshot redis threshold cooldown ttl again s ≢ none)
      → IsAnswer (conclude redis threshold cooldown ttl call again s now later was_probe outcome).1
  unfolding conclude
  conclude-IsAnswer call again s now later was_probe timed_out c h =
      failing-IsAnswer timeout
        (record_failure redis threshold cooldown ttl call s now later was_probe)
  conclude-IsAnswer call again s now later was_probe raised c h =
      failing-IsAnswer error
        (record_failure redis threshold cooldown ttl call s now later was_probe)
  conclude-IsAnswer call again s now later was_probe cancelled c h = absurd (c refl)
  conclude-IsAnswer call again s now later was_probe (returned result) c h =
      elim (Bool-cases (total_failure result)) [
        | inl total ↦ rw (total) (
            failing-IsAnswer Reason.all_paths_degraded
              (record_failure redis threshold cooldown ttl call s now later was_probe))
        | inr some_path ↦ rw (some_path) (
            succeeding-IsAnswer result
              (record_success redis threshold cooldown ttl call again s was_probe)
              (record_success-read redis threshold cooldown ttl call again s was_probe h))
      ]

  -- Unless the caller is cancelled, and provided that the record can be read back, a guarded call
  -- ends in a result or in `RetrievalUnavailable`, whatever the search and the calls of Redis do.
  pub guarded-IsAnswer :
      (c1 c2 c3 : Call) (s : S) (asked_at token now later : ℕ) (search : Unit {0} → Outcome C R)
      → search tt ≢ cancelled
      → ((s : S) → snapshot redis threshold cooldown ttl c3 s ≢ none)
      → IsAnswer
          (guarded_hybrid_search redis threshold cooldown ttl c1 c2 c3 s asked_at token now later
            search).1
  unfolding guarded_hybrid_search
  guarded-IsAnswer c1 c2 c3 s asked_at token now later search c h =
      let (s', d) = allow redis threshold cooldown ttl c1 s asked_at token in
      elim (Bool-cases d.allowed) [
        | inl go ↦ rw (go) (conclude-IsAnswer c2 c3 s' now later d.probe (search tt) c h)
        | inr stop ↦ rw (stop) (λ e. cc, λ e. cc)
      ]
