-- ===== src/Breaker/Recovery.antt =====
-- retrieve/breaker.py: how the circuit opens, how it is probed, and what decides its recovery.
use conversational_memory_sy.Prelude.{
  ℕ, ◌+◌, ◌≡◌, ◌≤◌, ◌<◌, refl, true, false, none, List, [], ◌∷◌, ◌++◌, map, arith, ◌∙◌, length,
}
use conversational_memory_sy.Breaker.{
  closed, half_open, opened, Keyspace, probe, healthy, stored, encode, gate, failed, allow_script,
  success_script, failure_script,
}
use conversational_memory_sy.Breaker.Laws.{stored-del-set}
use conversational_memory_sy.Breaker.Events.{Event, ask, report_failure, step, run, stored-step}

-- failures of calls that are no probe, at the given times
abbrev pub strikes : List ℕ → List Event
strikes = map (λ now. report_failure now false)

module _ {S : Type 0} (redis : Keyspace S) (threshold cooldown ttl : ℕ) where
  open redis use {holder}

  -- From a closed circuit, fewer failures in a row than are missing to the threshold keep it
  -- closed and are counted.
  pub failures_count :
      (s : S) (times : List ℕ)
      → (stored redis s).state ≡ closed
      → (stored redis s).failures + length times < threshold
      → ((stored redis (run redis threshold cooldown ttl s (strikes times))).state ≡ closed)
        × ((stored redis (run redis threshold cooldown ttl s (strikes times))).failures
            ≡ (stored redis s).failures + length times)
  unfolding run
  failures_count s [] c h = (c, omega arith)
  failures_count s (now ∷ times) c h =
      let e = stored-step redis threshold cooldown ttl s (report_failure now false) in
      let c' : (stored redis (step redis threshold cooldown ttl s (report_failure now false))).state
          ≡ closed =
        ground (arith, e) in
      let f' : (stored redis
            (step redis threshold cooldown ttl s (report_failure now false))).failures
          ≡ (stored redis s).failures + 1 =
        ground (arith, e) in
      let rest =
        failures_count (step redis threshold cooldown ttl s (report_failure now false)) times c'
          (omega arith) in
      (rest.0, omega (arith, rest.1))

  run-append :
      (s : S) (es fs : List Event)
      → run redis threshold cooldown ttl s (es ++ fs)
        ≡ run redis threshold cooldown ttl (run redis threshold cooldown ttl s es) fs
  unfolding run
  run-append s [] fs = refl
  run-append s (e ∷ es) fs = run-append (step redis threshold cooldown ttl s e) es fs

  -- From a closed circuit, the failure that makes the count reach the threshold opens it at its
  -- own time; up to the one before it the circuit was closed.
  pub consecutive_failures_open :
      (s : S) (times : List ℕ) (now : ℕ)
      → (stored redis s).state ≡ closed
      → (stored redis s).failures + length times + 1 ≡ threshold
      → ((stored redis (run redis threshold cooldown ttl s (strikes times))).state ≡ closed)
        × (stored redis
              (run redis threshold cooldown ttl s (strikes times ++ report_failure now false ∷ []))
            ≡ record { state = opened; failures = threshold; opened_at = now })
  unfolding run
  consecutive_failures_open s times now c h =
      let (still, count) = failures_count s times c (omega arith) in
      let before = run redis threshold cooldown ttl s (strikes times) in
      (
        still,
        rw (run-append s (strikes times) (report_failure now false ∷ [])) (
            ground
              (arith, stored-step redis threshold cooldown ttl before (report_failure now false))),
      )

  elected :
      (s : S) (now token : ℕ)
      → (stored redis s).state ≡ opened
      → (stored redis s).opened_at + cooldown ≤ now
      → holder s ≡ none
      → (allow_script redis s now cooldown ttl token).1.verdict ≡ probe
  unfolding allow_script gate
  elected s now token o c free =
      ground (arith, redis.holder-set s (encode (record (stored redis s) { state = half_open })))

  asked_failures :
      (s : S) (now token : ℕ)
      → (stored redis s).state ≡ opened
      → (stored redis s).opened_at + cooldown ≤ now
      → (stored redis (allow_script redis s now cooldown ttl token).0).failures
        ≡ (stored redis s).failures
  unfolding step
  asked_failures s now token o c =
      ground (arith, stored-step redis threshold cooldown ttl s (ask now token))

  -- Once the cooldown of an open circuit whose count has reached the threshold is over and no
  -- lock is held, the next caller is elected probe. Its success closes the circuit and clears the
  -- count; its failure opens it again, with the cooldown running from that failure; either gives
  -- the lock back.
  pub probe_decides :
      (s : S) (now token later : ℕ)
      → (stored redis s).state ≡ opened
      → (stored redis s).opened_at + cooldown ≤ now
      → holder s ≡ none
      → threshold ≤ (stored redis s).failures
      → let (asked, reply) = allow_script redis s now cooldown ttl token in
        let cured = (success_script redis asked true).0 in
        let sick = (failure_script redis asked later threshold true).0 in
        (reply.verdict ≡ probe)
        × (stored redis cured ≡ healthy)
        × (holder cured ≡ none)
        × (stored redis sick ≡ record {
          state = opened;
          failures = (stored redis s).failures + 1;
          opened_at = later;
        })
        × (holder sick ≡ none)
  probe_decides s now token later o c free t =
      let asked = (allow_script redis s now cooldown ttl token).0 in
      (
        elected s now token o c free,
        unfold success_script in stored-del-set redis asked healthy,
        unfold success_script in redis.holder-del (redis.set asked (encode healthy)),
        unfold failure_script in
            (stored-del-set redis asked (failed (stored redis asked) later threshold true)
              ∙ ground (arith, asked_failures s now token o c)),
        unfold failure_script in redis.holder-del _,
      )
