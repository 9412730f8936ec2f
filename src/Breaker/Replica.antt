-- ===== src/Breaker/Replica.antt =====
-- retrieve/breaker.py: `CircuitBreaker`, one replica's methods, and `_eval`. The gauge and the log
-- lines are not modelled.
use conversational_memory_sy.Prelude.{
  ℕ, ◌+◌, ◌≡◌, ◌≢◌, refl, Bool, true, false, Option, none, some, arith, if◌then◌else◌, All, List,
}
use conversational_memory_sy.Breaker.Laws.{stored-del-set}
use conversational_memory_sy.Breaker.Events.{Event}
use conversational_memory_sy.Breaker.Invariant.{Early, admitted, open_circuit_holds}
use conversational_memory_sy.Breaker.{
  Circuit, closed, opened, BreakerState, Raw, scalar, table, Keyspace, Verdict, blocked, allowed,
  probe, healthy, decode, encode, allow_script, success_script, failure_script,
}

-- One script in the cache of Redis: whether this replica keeps its sha, whether the server has it,
-- and how many round trips were made.
pub record ScriptCache : Type 0 where
  pub sha : Bool
  pub loaded : Bool
  pub trips : ℕ

-- `script_load`, when there is no sha
load : ScriptCache → ScriptCache
load c = if c.sha then c else record { sha = true; loaded = true; trips = c.trips + 1 }

-- `evalsha`, and on `NoScriptError` the sha is forgotten and `eval` sends the body, which the
-- server caches
run_loaded : {S R : Type 0} → (S → S × R) → S → ScriptCache → S × R × ScriptCache
run_loaded script s c =
    let (s', r) = script s in
    if c.loaded
    then (s', r, record c { trips = c.trips + 1 })
    else (s', r, record { sha = false; loaded = true; trips = c.trips + 2 })

-- `_eval`
unfoldable pub eval : {S R : Type 0} → (S → S × R) → S → ScriptCache → S × R × ScriptCache
unfolding load run_loaded
eval script s c = run_loaded script s (load c)

-- Whatever the caches hold, the script runs once, its reply is returned, and its body is on the
-- server afterwards.
pub eval_runs_once :
    {S R : Type 0} (script : S → S × R) (s : S) (c : ScriptCache)
    → ((eval script s c).0 ≡ (script s).0)
      × ((eval script s c).1 ≡ (script s).1)
      × ((eval script s c).2.loaded ≡ true)
unfolding eval
eval_runs_once script s c = (ground arith, ground arith, ground arith)

abbrev pub flush : ScriptCache → ScriptCache
flush c = record c { loaded = false }

-- After the server lost its scripts, the next two calls of a replica that kept the sha take two
-- round trips each, and the third takes one.
pub flush_costs_two_calls :
    {S R : Type 0} (script : S → S × R) (s : S) (c : ScriptCache)
    → c.sha ≡ true
    → let (s1, _, c1) = eval script s (flush c) in
      let (s2, _, c2) = eval script s1 c1 in
      let c3 = (eval script s2 c2).2 in
      (c1.trips ≡ c.trips + 2) × (c2.trips ≡ c1.trips + 2) × (c3.trips ≡ c2.trips + 1)
unfolding eval
flush_costs_two_calls script s c h = (ground arith, ground arith, ground arith)

-- What becomes of one call: the reply arrives, the script ran but its reply is lost, or Redis was
-- not reached.
pub data Call : Type 0 where
  answered lost refused : Call

pub record BreakerDecision : Type 0 where
  pub allowed : Bool
  pub probe : Bool
  pub state : Circuit
  pub blind : Bool

abbrev blind_decision : BreakerDecision
blind_decision = record { allowed = true; probe = false; state = closed; blind = true }

-- `verdict != "0"` and `verdict == "2"`
abbrev pub decision : Verdict → Circuit → BreakerDecision
decision blocked c = record { allowed = false; probe = false; state = c; blind = false }
decision allowed c = record { allowed = true; probe = false; state = c; blind = false }
decision probe c = record { allowed = true; probe = true; state = c; blind = false }

-- What `snapshot` makes of the state key; `none` is the exception of `.get` on JSON that is no
-- object.
abbrev pub read : Option Raw → Option BreakerState
read (some scalar) = none
read (some (table c f o)) = some (decode (some (table c f o)))
read _ = some healthy

abbrev reread : BreakerState → Option BreakerState → Option BreakerState
reread r none = none
reread r (some seen) = some (record r { opened_at = seen.opened_at })

abbrev stamp : Circuit → ℕ → ℕ
stamp opened later = later
stamp _ later = 0

module _ {S : Type 0} (redis : Keyspace S) (threshold cooldown ttl : ℕ) where
  open redis use {get, holder, set, del}

  -- `snapshot`
  unfoldable pub snapshot : Call → S → Option BreakerState
  snapshot answered s = read (get s)
  snapshot _ s = some healthy

  -- `allow`
  unfoldable pub allow : Call → S → (now token : ℕ) → S × BreakerDecision
  allow answered s now token =
      let (s', reply) = allow_script redis s now cooldown ttl token in
      (s', decision reply.verdict reply.state)
  allow lost s now token = ((allow_script redis s now cooldown ttl token).0, blind_decision)
  allow refused s now token = (s, blind_decision)

  -- `record_success`; a straggler's reply reads the record once more, by the second call
  unfoldable pub record_success : Call → Call → S → Bool → S × Option BreakerState
  record_success answered again s was_probe =
      let (s', r, applied) = success_script redis s was_probe in
      (s', if applied then some (record r { opened_at = 0 }) else reread r (snapshot again s'))
  record_success lost again s was_probe = ((success_script redis s was_probe).0, some healthy)
  record_success refused again s was_probe = (s, some healthy)

  -- `record_failure`; `later` is the clock when the reply has come
  unfoldable pub record_failure : Call → S → (now later : ℕ) → Bool → S × BreakerState
  record_failure answered s now later was_probe =
      let (s', r) = failure_script redis s now threshold was_probe in
      (s', record r { opened_at = stamp r.state later })
  record_failure lost s now later was_probe =
      ((failure_script redis s now threshold was_probe).0, healthy)
  record_failure refused s now later was_probe = (s, healthy)

  -- `force_open`, with Redis at hand
  unfoldable pub force_open : S → ℕ → S
  force_open s now =
      del (set s (encode (record { state = opened; failures = threshold; opened_at = now })))

  -- A call to the gate whose reply does not arrive, whether or not the script ran, is let
  -- through, is no probe, and says that it is blind.
  pub allow_fails_open :
      (call : Call) (s : S) (now token : ℕ)
      → call ≢ answered
      → ((allow call s now token).1.allowed ≡ true)
        × ((allow call s now token).1.probe ≡ false)
        × ((allow call s now token).1.blind ≡ true)
  unfolding allow
  allow_fails_open answered s now token h = absurd (h refl)
  allow_fails_open lost s now token h = (refl, refl, refl)
  allow_fails_open refused s now token h = (refl, refl, refl)

  -- After `force_open`, no call that the script answers before the cooldown is over is let through,
  -- whatever failures, successes of calls that are no probe, and ends of a lock come between.
  pub force_open_sheds :
      (s : S) (now : ℕ) (es : List Event)
      → All (Early now cooldown) es
      → admitted redis threshold cooldown ttl (force_open s now) es ≡ 0
  unfolding force_open
  force_open_sheds s now es h =
      let r : BreakerState = record { state = opened; failures = threshold; opened_at = now } in
      let e = stored-del-set redis s r in
      (open_circuit_holds redis threshold cooldown ttl (del (set s (encode r))) es
        (rw e (omega arith)) (rw e refl) (rw e h)).0
