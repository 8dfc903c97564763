-- ===== src/Circuit/Tests.antt =====
-- Runs of a breaker with the settings of the pre-configured CSP breakers, at concrete times.
use costpilot.Prelude.{◌≡◌, refl, some, [], ◌∷◌, ◌++◌, arith}
use costpilot.Circuit.{
  Breaker, open_circuit, half_open, rejected, returned, expected_error, init, call, calls,
  should_attempt_reset, time_until_reset,
}
use costpilot.Circuit.Invariant.{Inv, begin, end, run, run-Inv, init-Inv}
use costpilot.Circuit.Recovery.{calls-unexpected_wedge, failing, unexpected}

abbrev aws : Breaker
unfolding init
aws = init "aws-api" 5 60 3 2

abbrev five_failures : Breaker
five_failures = record aws { state = open_circuit; failure_count = 5; last_failure_time = some 14 }

aws_opens : calls aws (failing (10 ∷ 11 ∷ 12 ∷ 13 ∷ 14 ∷ [])) ≡ five_failures
unfolding init calls call
aws_opens = refl

run-Inv_example :
    Inv
      (run
        (record { breaker = init "aws-api" 5 60 3 2; in_flight = 0 })
        (begin 1 ∷ begin 2 ∷ end (expected_error 3) ∷ end returned ∷ [])).breaker
run-Inv_example =
    run-Inv (record { breaker = init "aws-api" 5 60 3 2; in_flight = 0 })
      (begin 1 ∷ begin 2 ∷ end (expected_error 3) ∷ end returned ∷ [])
      (init-Inv "aws-api" 5 60 3 2 (omega arith) (omega arith))

calls-unexpected_wedge_example :
    let w = calls five_failures (unexpected (74 ∷ 75 ∷ 76 ∷ [])) in
    (w.state ≡ half_open)
    × (calls five_failures (unexpected (74 ∷ 75 ∷ 76 ∷ []) ++ (1000, returned) ∷ []) ≡ w)
    × (call
          (calls five_failures (unexpected (74 ∷ 75 ∷ 76 ∷ []) ++ (1000, returned) ∷ []))
          9999
          returned
        ≡ (w, rejected (time_until_reset w 9999)))
unfolding should_attempt_reset aws
calls-unexpected_wedge_example =
    calls-unexpected_wedge five_failures 74 (75 ∷ 76 ∷ []) ((1000, returned) ∷ []) 9999 returned
      refl refl (omega arith) (omega arith)
