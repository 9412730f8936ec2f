-- ===== src/Breaker/Probes.antt =====
-- retrieve/breaker.py: the half-open probe is elected by one lock.
use conversational_memory_sy.Prelude.{
  ℕ, suc, ◌+◌, ◌≡◌, ◌≤◌, Bool, true, false, Option, none, some, List, [], ◌∷◌, arith,
}
use conversational_memory_sy.Breaker.{
  Circuit, half_open, opened, BreakerState, Keyspace, Verdict, probe, stored, encode, gate,
  allow_script, success_script,
}
use conversational_memory_sy.Breaker.Events.{
  Event, ask, report_failure, report_success, lapse, step,
}

abbrev pub is_probe : Verdict → ℕ
is_probe probe = 1
is_probe _ = 0

abbrev pub held : Option ℕ → ℕ
held none = 0
held (some _) = 1

abbrev pub applied : Bool → ℕ
applied true = 1
applied false = 0

module _ {S : Type 0} (redis : Keyspace S) (threshold cooldown ttl : ℕ) where
  open redis use {holder}

  -- How many calls to the gate were elected probe.
  unfoldable pub probes : S → List Event → ℕ
  probes s [] = 0
  probes s (ask now token ∷ es) =
      let rest = probes (step redis threshold cooldown ttl s (ask now token)) es in
      is_probe (allow_script redis s now cooldown ttl token).1.verdict + rest
  probes s (e ∷ es) = probes (step redis threshold cooldown ttl s e) es

  -- How often the lock was given back: by a recorded outcome, or by the end of its time.
  unfoldable pub releases : S → List Event → ℕ
  releases s [] = 0
  releases s (ask now token ∷ es) =
      releases (step redis threshold cooldown ttl s (ask now token)) es
  releases s (report_success was_probe ∷ es) =
      let rest = releases (step redis threshold cooldown ttl s (report_success was_probe)) es in
      applied (success_script redis s was_probe).2 + rest
  releases s (e ∷ es) = suc (releases (step redis threshold cooldown ttl s e) es)

  held-gate :
      (c : Circuit) (s : S) (r : BreakerState) (now token : ℕ)
      → let (t, reply) = gate redis c s r now cooldown ttl token in
        held (holder t) ≡ held (holder s) + is_probe reply.verdict
  unfolding gate
  held-gate opened s r now token =
      let half = encode (record r { state = half_open }) in
      ground (arith, redis.holder-set s half, redis.holder-set_nx (redis.set s half) token ttl)
  held-gate half_open s r now token = ground (arith, redis.holder-set_nx s token ttl)
  held-gate _ s r now token = omega arith

  held-ask :
      (s : S) (now token : ℕ)
      → held (holder (step redis threshold cooldown ttl s (ask now token)))
        ≡ held (holder s) + is_probe (allow_script redis s now cooldown ttl token).1.verdict
  unfolding step allow_script
  held-ask s now token = held-gate (stored redis s).state s (stored redis s) now token

  held-success :
      (s : S) (was_probe : Bool)
      → held (holder s)
        ≤ held (holder (step redis threshold cooldown ttl s (report_success was_probe)))
          + applied (success_script redis s was_probe).2
  unfolding step success_script
  held-success s was_probe = ground arith

  held-le-one : (o : Option ℕ) → held o ≤ 1
  held-le-one none = omega arith
  held-le-one (some _) = omega arith

  -- Over every history of a fleet, the calls elected probe are at most the releases of the lock,
  -- and one more if the lock was free at the start.
  pub single_flight : (s : S) (es : List Event) → held (holder s) + probes s es ≤ 1 + releases s es
  unfolding probes releases
  single_flight s [] = omega (arith, held-le-one (holder s))
  single_flight s (ask now token ∷ es) = omega (
    arith,
    held-ask s now token,
    single_flight (step redis threshold cooldown ttl s (ask now token)) es,
  )
  single_flight s (report_success was_probe ∷ es) = omega (
    arith,
    held-success s was_probe,
    single_flight (step redis threshold cooldown ttl s (report_success was_probe)) es,
  )
  single_flight s (report_failure now was_probe ∷ es) = omega (
    arith,
    held-le-one (holder s),
    single_flight (step redis threshold cooldown ttl s (report_failure now was_probe)) es,
  )
  single_flight s (lapse ∷ es) =
      omega (
        arith,
        held-le-one (holder s),
        single_flight (step redis threshold cooldown ttl s lapse) es,
      )
