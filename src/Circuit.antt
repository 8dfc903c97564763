-- ===== src/Circuit.antt =====
-- The circuit breaker of backend/app/shared/circuit_breaker.py: `CircuitBreaker`.
-- `time.time()` is an argument, in the least unit of the clock. A method returns the new object.
mod Invariant
mod Recovery
mod Tests
use costpilot.Prelude.{
  ℕ, ◌+◌, ◌-◌, Bool, true, Option, none, some, List, [], ◌∷◌, String, leb, if◌then◌else◌,
}

pub data CircuitState : Type 0 where
  closed open_circuit half_open : CircuitState

pub record Breaker : Type 0 where
  pub name : String
  pub failure_threshold : ℕ
  pub recovery_timeout : ℕ
  pub half_open_max_calls : ℕ
  pub success_threshold : ℕ
  pub state : CircuitState
  pub failure_count : ℕ
  pub success_count : ℕ
  pub last_failure_time : Option ℕ
  pub half_open_calls : ℕ

-- `CircuitBreaker(name, failure_threshold, recovery_timeout, half_open_max_calls, success_threshold)`
unfoldable pub init : String → ℕ → ℕ → ℕ → ℕ → Breaker
init name failure_threshold recovery_timeout half_open_max_calls success_threshold = record {
  name = name;
  failure_threshold = failure_threshold;
  recovery_timeout = recovery_timeout;
  half_open_max_calls = half_open_max_calls;
  success_threshold = success_threshold;
  state = closed;
  failure_count = 0;
  success_count = 0;
  last_failure_time = none;
  half_open_calls = 0;
}

abbrev elapsed : Option ℕ → ℕ → ℕ → Bool
elapsed none timeout now = true
elapsed (some t) timeout now = leb (t + timeout) now

-- `now - last >= timeout`, with the subtraction carried over
unfoldable pub should_attempt_reset : Breaker → ℕ → Bool
should_attempt_reset b now = elapsed b.last_failure_time b.recovery_timeout now

abbrev remaining : Option ℕ → ℕ → ℕ → ℕ
remaining none timeout now = 0
remaining (some t) timeout now = t + timeout - now

-- `max(0, timeout - (now - last))`: the truncated subtraction is the maximum with 0
unfoldable pub time_until_reset : Breaker → ℕ → ℕ
time_until_reset b now = remaining b.last_failure_time b.recovery_timeout now

unfoldable pub reset : Breaker → Breaker
reset b = record b {
  state = closed;
  failure_count = 0;
  success_count = 0;
  half_open_calls = 0;
  last_failure_time = none;
}

-- What the locked first part of `call` decides: the call goes on, or `CircuitBreakerOpenError`
-- with its `retry_after`.
pub data Admission : Type 0 where
  admitted : Admission
  rejected : ℕ → Admission

-- the second `if` of the locked part
take_slot : Breaker → ℕ → Breaker × Admission
unfolding time_until_reset
take_slot b now =
    if leb b.half_open_max_calls b.half_open_calls
    then (b, rejected (time_until_reset b now))
    else (record b { half_open_calls = b.half_open_calls + 1 }, admitted)

admit_in : CircuitState → Breaker → ℕ → Breaker × Admission
unfolding take_slot should_attempt_reset time_until_reset
admit_in closed b now = (b, admitted)
admit_in half_open b now = take_slot b now
admit_in open_circuit b now =
    if should_attempt_reset b now
    then take_slot (record b { state = half_open; half_open_calls = 0; success_count = 0 }) now
    else (b, rejected (time_until_reset b now))

unfoldable pub admit : Breaker → ℕ → Breaker × Admission
unfolding admit_in
admit b now = admit_in b.state b now

success_in : CircuitState → Breaker → Breaker
unfolding reset
success_in half_open b =
    let b' = record b { success_count = b.success_count + 1 } in
    if leb b.success_threshold b'.success_count then reset b' else b'
success_in _ b = record b { failure_count = b.failure_count - 1 }

-- `max(0, failure_count - 1)` is the truncated subtraction
unfoldable pub on_success : Breaker → Breaker
unfolding success_in
on_success b = success_in b.state b

failure_in : CircuitState → Breaker → Breaker
failure_in half_open b = record b { state = open_circuit }
failure_in _ b =
    if leb b.failure_threshold b.failure_count then record b { state = open_circuit } else b

unfoldable pub on_failure : Breaker → ℕ → Breaker
unfolding failure_in
on_failure b now =
    failure_in b.state
      (record b { failure_count = b.failure_count + 1; last_failure_time = some now })

-- What the protected function does: it returns, it raises one of `expected_exceptions` at a time,
-- or it raises anything else.
pub data Outcome : Type 0 where
  returned : Outcome
  expected_error : ℕ → Outcome
  other_error : Outcome

unfoldable pub finish : Breaker → Outcome → Breaker
unfolding on_success on_failure
finish b returned = on_success b
finish b (expected_error now) = on_failure b now
finish b other_error = b

finish_admitted : Breaker × Admission → Outcome → Breaker × Admission
unfolding finish
finish_admitted (b, admitted) o = (finish b o, admitted)
finish_admitted (b, rejected n) o = (b, rejected n)

-- `call`, when no other call runs between its two locked parts
unfoldable pub call : Breaker → ℕ → Outcome → Breaker × Admission
unfolding admit finish_admitted
call b now o = finish_admitted (admit b now) o

-- calls one after the other
unfoldable pub calls : Breaker → List (ℕ × Outcome) → Breaker
unfolding call
calls b [] = b
calls b ((now, o) ∷ rest) = calls (call b now o).0 rest

pub record Status : Type 0 where
  pub name : String
  pub state : CircuitState
  pub failure_count : ℕ
  pub success_count : ℕ
  pub last_failure : Option ℕ
  pub time_until_reset : ℕ

unfoldable pub get_status : Breaker → ℕ → Status
unfolding time_until_reset
get_status b now = record {
  name = b.name;
  state = b.state;
  failure_count = b.failure_count;
  success_count = b.success_count;
  last_failure = b.last_failure_time;
  time_until_reset = time_until_reset b now;
}
