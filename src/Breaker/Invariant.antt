-- ===== src/Breaker/Invariant.antt =====
-- retrieve/breaker.py: the invariant of the shared record over every history of a fleet.
use conversational_memory_sy.Prelude.{
  ℕ, ◌+◌, ◌≡◌, ◌≤◌, ◌<◌, Bool, false, List, [], ◌∷◌, arith, sym, subst, All, refl, ◌∙◌, ap,
}
use conversational_memory_sy.Breaker.{
  Circuit, closed, half_open, opened, other, BreakerState, Keyspace, Verdict, blocked, stored,
  allow_script, failed,
}
use conversational_memory_sy.Breaker.Events.{
  Event, ask, report_failure, report_success, lapse, next, step, run, stored-step,
}

-- What the failure count says of the circuit.
abbrev pub Sound : (threshold : ℕ) → Circuit → ℕ → Type 0
Sound threshold closed failures = failures < threshold
Sound threshold half_open failures = threshold ≤ failures
Sound threshold opened failures = threshold ≤ failures
Sound threshold (other _) failures = ⊥

abbrev pub IsSound : (threshold : ℕ) → BreakerState → Type 0
IsSound threshold r = Sound threshold r.state r.failures

next-IsSound :
    (threshold cooldown : ℕ) (r : BreakerState) (e : Event)
    → 0 < threshold
    → IsSound threshold r
    → IsSound threshold (next threshold cooldown r e)
next-IsSound threshold cooldown r (ask now token) t h = ground arith
next-IsSound threshold cooldown r (report_failure now was_probe) t h = ground arith
next-IsSound threshold cooldown r (report_success was_probe) t h = ground arith
next-IsSound threshold cooldown r lapse t h = h

-- The events of an outage: calls to the gate before the cooldown of the opening is over, failures
-- whose clock is not behind the opening, successes of calls that are no probe, and the end of a lock.
abbrev pub Early : (opening cooldown : ℕ) → Event → Type 0
Early opening cooldown (ask now token) = now < opening + cooldown
Early opening cooldown (report_failure now was_probe) = opening ≤ now
Early opening cooldown (report_success was_probe) = was_probe ≡ false
Early opening cooldown lapse = Unit

-- the record when nothing but the failures among the events has been recorded
abbrev pub after_failures : (threshold : ℕ) → BreakerState → List Event → BreakerState
after_failures threshold r [] = r
after_failures threshold r (report_failure now was_probe ∷ es) =
    after_failures threshold (failed r now threshold was_probe) es
after_failures threshold r (e ∷ es) = after_failures threshold r es

-- open, for a count that has reached the threshold, and not opened before `opening`
abbrev OpenSince : (threshold opening : ℕ) → BreakerState → Type 0
OpenSince threshold opening r =
    (r.state ≡ opened) × (threshold ≤ r.failures) × (opening ≤ r.opened_at)

failed-OpenSince :
    (threshold opening : ℕ) (r : BreakerState) (now : ℕ) (was_probe : Bool)
    → OpenSince threshold opening r
    → opening ≤ now
    → OpenSince threshold opening (failed r now threshold was_probe)
failed-OpenSince threshold opening r now was_probe (o, n, k) h =
    (ground (arith, o), ground (arith, o), ground (arith, o))

abbrev pub weigh : Verdict → ℕ
weigh blocked = 0
weigh _ = 1

module _ {S : Type 0} (redis : Keyspace S) (threshold cooldown ttl : ℕ) where
  pub step-IsSound :
      (s : S) (e : Event)
      → 0 < threshold
      → IsSound threshold (stored redis s)
      → IsSound threshold (stored redis (step redis threshold cooldown ttl s e))
  step-IsSound s e t h =
      subst (λ r. IsSound threshold r) (sym (stored-step redis threshold cooldown ttl s e))
        (next-IsSound threshold cooldown (stored redis s) e t h)

  -- From a sound record and with a positive threshold, whatever the replicas do and in whatever
  -- order, the circuit is closed only while the failure count is below the threshold, it is open
  -- or half open only once the count has reached it, and no state but the three is stored.
  pub run-IsSound :
      (s : S) (es : List Event)
      → 0 < threshold
      → IsSound threshold (stored redis s)
      → IsSound threshold (stored redis (run redis threshold cooldown ttl s es))
  unfolding run
  run-IsSound s [] t h = h
  run-IsSound s (e ∷ es) t h =
      run-IsSound (step redis threshold cooldown ttl s e) es t (step-IsSound s e t h)

  -- How many of the calls to the gate were let through.
  unfoldable pub admitted : S → List Event → ℕ
  admitted s [] = 0
  admitted s (ask now token ∷ es) =
      let rest = admitted (step redis threshold cooldown ttl s (ask now token)) es in
      weigh (allow_script redis s now cooldown ttl token).1.verdict + rest
  admitted s (e ∷ es) = admitted (step redis threshold cooldown ttl s e) es

  quiet-step :
      (s : S) (e : Event) (opening : ℕ)
      → OpenSince threshold opening (stored redis s)
      → Early opening cooldown e
      → stored redis (step redis threshold cooldown ttl s e)
        ≡ after_failures threshold (stored redis s) (e ∷ [])
  quiet-step s (ask now token) opening (o, n, k) h =
      ground (arith, stored-step redis threshold cooldown ttl s (ask now token))
  quiet-step s (report_success was_probe) opening (o, n, k) h =
      ground (arith, stored-step redis threshold cooldown ttl s (report_success was_probe))
  quiet-step s (report_failure now was_probe) opening since h =
      stored-step redis threshold cooldown ttl s (report_failure now was_probe)
  quiet-step s lapse opening since h = stored-step redis threshold cooldown ttl s lapse

  early_blocked :
      (s : S) (now token : ℕ)
      → (stored redis s).state ≡ opened
      → now < (stored redis s).opened_at + cooldown
      → (allow_script redis s now cooldown ttl token).1.verdict ≡ blocked
  unfolding allow_script
  early_blocked s now token o h = ground arith

  holds :
      (r : BreakerState) (opening : ℕ) (s : S) (es : List Event)
      → stored redis s ≡ r
      → OpenSince threshold opening r
      → All (Early opening cooldown) es
      → (admitted s es ≡ 0)
        × (stored redis (run redis threshold cooldown ttl s es) ≡ after_failures threshold r es)
        × ((stored redis (run redis threshold cooldown ttl s es)).state ≡ opened)
  unfolding admitted run
  holds r opening s [] e since h = (refl, e, rw e since.0)
  holds r opening s (ask now token ∷ es) e since (h, hs) =
      let here : OpenSince threshold opening (stored redis s) = rw e since in
      let shut = early_blocked s now token here.0 (omega (arith, h, here.2)) in
      let rest =
        holds r opening (step redis threshold cooldown ttl s (ask now token)) es
          (quiet-step s (ask now token) opening here h ∙ e) since hs in
      (rw shut (omega (arith, rest.0)), rest.1, rest.2)
  holds r opening s (report_failure now was_probe ∷ es) e since (h, hs) =
      holds (failed r now threshold was_probe) opening
        (step redis threshold cooldown ttl s (report_failure now was_probe)) es
        (quiet-step s (report_failure now was_probe) opening (rw e since) h
          ∙ ap (λ x. failed x now threshold was_probe) e)
        (failed-OpenSince threshold opening r now was_probe since h) hs
  holds r opening s (report_success was_probe ∷ es) e since (h, hs) =
      holds r opening (step redis threshold cooldown ttl s (report_success was_probe)) es
        (quiet-step s (report_success was_probe) opening (rw e since) h ∙ e) since hs
  holds r opening s (lapse ∷ es) e since (h, hs) =
      holds r opening (step redis threshold cooldown ttl s lapse) es
        (quiet-step s lapse opening (rw e since) tt ∙ e) since hs

  -- From a sound open record, as long as the gate's script is only asked before the cooldown of
  -- that opening is over, failures are only reported with a time that is not before the opening,
  -- successes only come from calls that are no probe, and locks may end: the script lets none of
  -- the calls through, the circuit stays open, and the record is what the reported failures alone
  -- make of it, so it does not change if there are none. Calls whose reply is lost or that do not
  -- reach Redis are outside of this: the client lets them through.
  pub open_circuit_holds :
      (s : S) (es : List Event)
      → IsSound threshold (stored redis s)
      → (stored redis s).state ≡ opened
      → All (Early (stored redis s).opened_at cooldown) es
      → (admitted s es ≡ 0)
        × (stored redis (run redis threshold cooldown ttl s es)
            ≡ after_failures threshold (stored redis s) es)
        × ((stored redis (run redis threshold cooldown ttl s es)).state ≡ opened)
  open_circuit_holds s es sound o h =
      let reached : threshold ≤ (stored redis s).failures =
        subst (λ c. Sound threshold c (stored redis s).failures) o sound in
      holds (stored redis s) (stored redis s).opened_at s es refl (o, reached, omega arith) h
