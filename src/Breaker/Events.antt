-- ===== src/Breaker/Events.antt =====
-- retrieve/breaker.py: what any number of replicas do to the shared record, one script at a time.
-- Redis runs the scripts one after another, so a fleet's history is a list of events.
use conversational_memory_sy.Prelude.{
  ℕ, ◌+◌, ◌≡◌, refl, Bool, ◌||◌, List, [], ◌∷◌, arith, leb, if◌then◌else◌,
}
use conversational_memory_sy.Breaker.{
  Circuit, half_open, opened, BreakerState, Keyspace, stored, failed, healthy, is_closed,
  allow_script, failure_script, success_script, gate,
}
use conversational_memory_sy.Breaker.Laws.{
  stored-del-set, stored-set_nx, stored-set_nx-set, stored-expire,
}

-- `ask now token` runs ALLOW, `report_failure now probe` FAILURE, `report_success probe` SUCCESS;
-- `lapse` is the end of the probe lock's time.
pub data Event : Type 0 where
  ask : ℕ → ℕ → Event
  report_failure : ℕ → Bool → Event
  report_success : Bool → Event
  lapse : Event

-- The record after ALLOW, after SUCCESS, and after any event.
abbrev pub cooled : Circuit → (cooldown : ℕ) → BreakerState → ℕ → BreakerState
cooled opened cooldown r now =
    if leb (r.opened_at + cooldown) now then record r { state = half_open } else r
cooled _ cooldown r now = r

abbrev pub succeeded : BreakerState → Bool → BreakerState
succeeded r probe = if probe || is_closed r.state then healthy else r

abbrev pub next : (threshold cooldown : ℕ) → BreakerState → Event → BreakerState
next threshold cooldown r (ask now token) = cooled r.state cooldown r now
next threshold cooldown r (report_failure now probe) = failed r now threshold probe
next threshold cooldown r (report_success probe) = succeeded r probe
next threshold cooldown r lapse = r

module _ {S : Type 0} (redis : Keyspace S) (threshold cooldown ttl : ℕ) where
  unfoldable pub step : S → Event → S
  step s (ask now token) = (allow_script redis s now cooldown ttl token).0
  step s (report_failure now probe) = (failure_script redis s now threshold probe).0
  step s (report_success probe) = (success_script redis s probe).0
  step s lapse = redis.expire s

  unfoldable pub run : S → List Event → S
  run s [] = s
  run s (e ∷ es) = run (step s e) es

  stored-gate :
      (c : Circuit) (s : S) (now token : ℕ)
      → stored redis (gate redis c s (stored redis s) now cooldown ttl token).0
        ≡ cooled c cooldown (stored redis s) now
  unfolding gate
  stored-gate opened s now token =
      ground
        (arith, stored-set_nx-set redis s (record (stored redis s) { state = half_open }) token ttl)
  stored-gate half_open s now token = stored-set_nx redis s token ttl
  stored-gate _ s now token = refl

  pub stored-step :
      (s : S) (e : Event) → stored redis (step s e) ≡ next threshold cooldown (stored redis s) e
  unfolding step failure_script success_script
  stored-step s (ask now token) =
      unfold allow_script in stored-gate (stored redis s).state s now token
  stored-step s (report_failure now probe) = stored-del-set redis s _
  stored-step s (report_success probe) = ground (arith, stored-del-set redis s healthy)
  stored-step s lapse = stored-expire redis s
