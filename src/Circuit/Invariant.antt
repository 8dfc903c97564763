-- ===== src/Circuit/Invariant.antt =====
-- What holds of a breaker of circuit_breaker.py however its calls interleave: any number of
-- calls may be between the two locked parts of `call`.
use costpilot.Prelude.{ℕ, zero, suc, ◌+◌, ◌≤◌, ◌<◌, ◌≡◌, ◌≢◌, none, List, [], ◌∷◌, arith, String}
use costpilot.Circuit.{
  closed, half_open, Breaker, Admission, admitted, rejected, Outcome, returned, expected_error,
  other_error, admit, on_success, on_failure, finish, init,
}

-- A breaker and the calls that have been admitted and have not finished.
pub record System : Type 0 where
  pub breaker : Breaker
  pub in_flight : ℕ

pub data Event : Type 0 where
  begin : ℕ → Event
  end : Outcome → Event

begin_with : ℕ → Breaker × Admission → System
begin_with n (b, admitted) = record { breaker = b; in_flight = n + 1 }
begin_with n (b, rejected _) = record { breaker = b; in_flight = n }

-- No call ends where none is in flight.
end_with : ℕ → Breaker → Outcome → System
end_with zero b o = record { breaker = b; in_flight = 0 }
end_with (suc n) b o = record { breaker = finish b o; in_flight = n }

unfoldable pub step : System → Event → System
unfolding begin_with end_with
step s (begin now) = begin_with s.in_flight (admit s.breaker now)
step s (end o) = end_with s.in_flight s.breaker o

unfoldable pub run : System → List Event → System
unfolding step
run s [] = s
run s (e ∷ es) = run (step s e) es

pub record Inv (b : Breaker) : Type 0 where
  pub thresholds : (0 < b.failure_threshold) × (0 < b.success_threshold)
  pub slots : b.half_open_calls ≤ b.half_open_max_calls
  pub below_failure : b.state ≡ closed → b.failure_count < b.failure_threshold
  pub below_success : b.state ≡ half_open → b.success_count < b.success_threshold
  pub quiet_closed : b.state ≡ closed → (b.success_count ≡ 0) × (b.half_open_calls ≡ 0)
  pub stamped : b.state ≢ closed → b.last_failure_time ≢ none

admit-Inv : (b : Breaker) (now : ℕ) → Inv b → Inv (admit b now).0
unfolding admit
admit-Inv b now h = ground arith

on_success-Inv : (b : Breaker) → Inv b → Inv (on_success b)
unfolding on_success
on_success-Inv b h = ground arith

on_failure-Inv : (b : Breaker) (now : ℕ) → Inv b → Inv (on_failure b now)
unfolding on_failure
on_failure-Inv b now h = ground arith

finish-Inv : (b : Breaker) (o : Outcome) → Inv b → Inv (finish b o)
unfolding finish
finish-Inv b returned h = on_success-Inv b h
finish-Inv b (expected_error now) h = on_failure-Inv b now h
finish-Inv b other_error h = h

begin_with-Inv : (n : ℕ) (r : Breaker × Admission) → Inv r.0 → Inv (begin_with n r).breaker
unfolding begin_with
begin_with-Inv n (b, admitted) h = h
begin_with-Inv n (b, rejected _) h = h

end_with-Inv : (n : ℕ) (b : Breaker) (o : Outcome) → Inv b → Inv (end_with n b o).breaker
unfolding end_with
end_with-Inv zero b o h = h
end_with-Inv (suc n) b o h = finish-Inv b o h

step-Inv : (s : System) (e : Event) → Inv s.breaker → Inv (step s e).breaker
unfolding step
step-Inv s (begin now) h = begin_with-Inv s.in_flight _ (admit-Inv s.breaker now h)
step-Inv s (end o) h = end_with-Inv s.in_flight s.breaker o h

-- A breaker that satisfies the invariant satisfies it after every sequence of calls that begin and
-- end in any order, with any outcomes and at any times. The invariant: the slots taken are at most
-- those allowed; a closed breaker has counted fewer failures than its threshold, and has no slots
-- taken and no successes counted; a half-open one has counted fewer successes than its threshold;
-- and one that is not closed knows when it last failed.
pub run-Inv : (s : System) (es : List Event) → Inv s.breaker → Inv (run s es).breaker
unfolding run
run-Inv s [] h = h
run-Inv s (e ∷ es) h = run-Inv (step s e) es (step-Inv s e h)

-- A breaker with positive thresholds starts in the invariant.
pub init-Inv :
    (name : String) (failures timeout slots successes : ℕ)
    → 0 < failures
    → 0 < successes
    → Inv (init name failures timeout slots successes)
unfolding init
init-Inv name failures timeout slots successes h k = ground arith
