-- ===== src/Breaker/Examples.antt =====
-- retrieve/breaker.py: runs of the breaker on a concrete Redis, which is two cells.
use conversational_memory_sy.Prelude.{
  ◌≡◌, ◌≤◌, ◌+◌, refl, true, false, none, some, List, [], ◌∷◌, ◌++◌, arith,
}
use conversational_memory_sy.Breaker.{
  closed, opened, probe, healthy, encode, stored, decode, allow_script, success_script,
  failure_script,
}
use conversational_memory_sy.Breaker.Cells.{Cells, cells}
use conversational_memory_sy.Breaker.Events.{Event, ask, report_failure, report_success, lapse, run}
use conversational_memory_sy.Breaker.Invariant.{IsSound, run-IsSound, admitted, open_circuit_holds}
use conversational_memory_sy.Breaker.Probes.{held, probes, releases, single_flight}
use conversational_memory_sy.Breaker.Recovery.{strikes, consecutive_failures_open, probe_decides}

-- nothing stored yet, and a circuit that opened at time 100 after 3 failures
abbrev fresh : Cells
fresh = record { raw = none; lock = none }

abbrev tripped : Cells
tripped = record {
  raw = some (encode (record { state = opened; failures = 3; opened_at = 100 }));
  lock = none;
}

abbrev history : List Event
history =
    report_failure 1 false
    ∷ report_failure 2 false
    ∷ report_failure 3 false
    ∷ ask 60 9
    ∷ lapse
    ∷ report_success true
    ∷ []

abbrev stragglers : List Event
stragglers = ask 110 1 ∷ report_success false ∷ report_failure 120 false ∷ lapse ∷ ask 149 2 ∷ []

run-IsSound_example : IsSound 3 (stored cells (run cells 3 50 20 fresh history))
unfolding stored decode
run-IsSound_example = run-IsSound cells 3 50 20 fresh history (omega arith) (omega arith)

open_circuit_holds_example :
    (admitted cells 3 50 20 tripped stragglers ≡ 0)
    × (stored cells (run cells 3 50 20 tripped stragglers)
        ≡ record { state = opened; failures = 4; opened_at = 120 })
    × ((stored cells (run cells 3 50 20 tripped stragglers)).state ≡ opened)
unfolding stored decode
open_circuit_holds_example =
    open_circuit_holds cells 3 50 20 tripped stragglers (omega arith) refl
      (omega arith, (refl, (omega arith, (tt, (omega arith, tt)))))

single_flight_example :
    held (cells.holder fresh) + probes cells 3 50 20 fresh history
    ≤ 1 + releases cells 3 50 20 fresh history
single_flight_example = single_flight cells 3 50 20 fresh history

consecutive_failures_open_example :
    ((stored cells (run cells 3 50 20 fresh (strikes (1 ∷ 2 ∷ [])))).state ≡ closed)
    × (stored cells (run cells 3 50 20 fresh (strikes (1 ∷ 2 ∷ []) ++ report_failure 5 false ∷ []))
        ≡ record { state = opened; failures = 3; opened_at = 5 })
unfolding stored decode
consecutive_failures_open_example =
    consecutive_failures_open cells 3 50 20 fresh (1 ∷ 2 ∷ []) 5 refl refl

probe_decides_example :
    ((allow_script cells tripped 150 50 20 8).1.verdict ≡ probe)
    × (stored cells (success_script cells (allow_script cells tripped 150 50 20 8).0 true).0
        ≡ healthy)
    × ((success_script cells (allow_script cells tripped 150 50 20 8).0 true).0.lock ≡ none)
    × (stored cells (failure_script cells (allow_script cells tripped 150 50 20 8).0 160 3 true).0
        ≡ record { state = opened; failures = 4; opened_at = 160 })
    × ((failure_script cells (allow_script cells tripped 150 50 20 8).0 160 3 true).0.lock ≡ none)
unfolding stored decode
probe_decides_example =
    probe_decides cells 3 50 20 tripped 150 8 160 refl (omega arith) refl (omega arith)
