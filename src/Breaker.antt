-- ===== src/Breaker.antt =====
-- retrieve/breaker.py: the shared record, the three Lua scripts, each one atomic step on Redis.
-- Redis is a parameter, `Keyspace`: the two keys and the commands that the scripts call.
-- Times are whole ticks of 0.1 ms, the precision at which cjson writes an epoch time.
mod Laws
pub mod Cells
mod Examples
pub mod Events
pub mod Invariant
pub mod Probes
pub mod Recovery
pub mod Replica
use Prim.Native.String.{String}
use conversational_memory_sy.Prelude.{
  ℕ, ◌+◌, max, ◌≡◌, Bool, true, false, ◌||◌, Option, none, some, leb, if◌then◌else◌,
}

-- `state` of the record; the scripts write the first three, a foreign writer may leave any text.
pub data Circuit : Type 0 where
  closed half_open opened : Circuit
  other : String → Circuit

pub record BreakerState : Type 0 where
  pub state : Circuit
  pub failures : ℕ
  pub opened_at : ℕ

-- What the state key can hold: text that is no JSON, JSON that is no object, or an object with
-- its three fields present or not.
pub data Raw : Type 0 where
  junk : Raw
  scalar : Raw
  table : Option Circuit → Option ℕ → Option ℕ → Raw

abbrev pub healthy : BreakerState
healthy = record { state = closed; failures = 0; opened_at = 0 }

abbrev pub or_default {ℓ} : {A : Type ℓ} → A → Option A → A
or_default d none = d
or_default d (some a) = a

-- `_DECODE`
unfoldable pub decode : Option Raw → BreakerState
decode (some (table s f o)) = record {
  state = or_default closed s;
  failures = or_default 0 f;
  opened_at = or_default 0 o;
}
decode _ = healthy

-- `_ENCODE`
abbrev pub encode : BreakerState → Raw
encode r = table (some r.state) (some r.failures) (some r.opened_at)

-- The Redis commands on the state key and on the probe lock. `holder` is the token of the lock
-- while it lives; `expire` is what Redis does when the lock's time is over.
pub record Keyspace (S : Type 0) : Type 0 where
  pub get : S → Option Raw
  pub holder : S → Option ℕ
  pub set : S → Raw → S
  pub del : S → S
  pub set_nx : S → ℕ → ℕ → S
  pub expire : S → S
  pub get-set : (s : S) (r : Raw) → get (set s r) ≡ some r
  pub holder-set : (s : S) (r : Raw) → holder (set s r) ≡ holder s
  pub get-del : (s : S) → get (del s) ≡ get s
  pub holder-del : (s : S) → holder (del s) ≡ none
  pub get-set_nx : (s : S) (token ttl : ℕ) → get (set_nx s token ttl) ≡ get s
  pub holder-set_nx :
      (s : S) (token ttl : ℕ) → holder (set_nx s token ttl) ≡ some (or_default token (holder s))
  pub get-expire : (s : S) → get (expire s) ≡ get s
  pub holder-expire : (s : S) → holder (expire s) ≡ none

pub data Verdict : Type 0 where
  blocked allowed probe : Verdict

-- The reply of `_ALLOW_LUA`.
pub record Reply : Type 0 where
  pub state : Circuit
  pub failures : ℕ
  pub verdict : Verdict

abbrev pub is_half_open : Circuit → Bool
is_half_open half_open = true
is_half_open _ = false

abbrev pub is_closed : Circuit → Bool
is_closed closed = true
is_closed _ = false

-- The record that `_FAILURE_LUA` persists.
abbrev pub failed : BreakerState → (now threshold : ℕ) → Bool → BreakerState
failed r now threshold was_probe =
    let n = r.failures + 1 in
    if is_half_open r.state || was_probe
    then record { state = opened; failures = max n threshold; opened_at = now }
    else if leb threshold n
    then record { state = opened; failures = n; opened_at = now }
    else record r { failures = n }

abbrev granted : Option ℕ → Verdict
granted none = probe
granted (some _) = blocked

module _ {S : Type 0} (redis : Keyspace S) where
  open redis use {get, holder, set, del, set_nx}

  -- the shared prologue
  unfoldable pub stored : S → BreakerState
  unfolding decode
  stored s = decode (get s)

  -- `SET KEYS[2] token NX PX ttl` answers OK exactly if there was no live lock
  try_probe : S → BreakerState → ℕ → ℕ → S × Reply
  try_probe s r ttl token = (
    set_nx s token ttl,
    record { state = r.state; failures = r.failures; verdict = granted (holder s) },
  )

  gate : Circuit → S → BreakerState → (now cooldown ttl token : ℕ) → S × Reply
  unfolding try_probe
  gate opened s r now cooldown ttl token =
      let half = record r { state = half_open } in
      if leb (r.opened_at + cooldown) now
      then try_probe (set s (encode half)) half ttl token
      else (s, record { state = opened; failures = r.failures; verdict = blocked })
  gate half_open s r now cooldown ttl token = try_probe s r ttl token
  gate c s r now cooldown ttl token =
      (s, record { state = c; failures = r.failures; verdict = allowed })

  -- `_ALLOW_LUA`; `now - opened_at >= cooldown` is written without the subtraction
  unfoldable pub allow_script : S → (now cooldown ttl token : ℕ) → S × Reply
  unfolding gate stored
  allow_script s now cooldown ttl token =
      let r = stored s in gate r.state s r now cooldown ttl token

  -- `_FAILURE_LUA`
  unfoldable pub failure_script : S → (now threshold : ℕ) → Bool → S × BreakerState
  unfolding stored
  failure_script s now threshold was_probe =
      let r = failed (stored s) now threshold was_probe in (del (set s (encode r)), r)

  -- `_SUCCESS_LUA`; the last part of the reply is `applied`
  unfoldable pub success_script : S → Bool → S × BreakerState × Bool
  unfolding stored
  success_script s was_probe =
      let r = stored s in
      if was_probe || is_closed r.state
      then (del (set s (encode healthy)), healthy, true)
      else (s, r, false)
