-- ===== src/Circuit/Recovery.antt =====
-- How a breaker of circuit_breaker.py opens, recovers and gets stuck, over calls made one at a time.
use costpilot.Prelude.{
  ℕ, suc, ◌+◌, ◌≤◌, ◌<◌, ◌≡◌, refl, ◌∙◌, true, List, [], ◌∷◌, ◌++◌, map, arith, leb, length,
  Bool-cases, if◌then◌else◌, inl, inr,
}
use costpilot.Circuit.{
  closed, open_circuit, half_open, Breaker, rejected, Outcome, returned, expected_error,
  other_error, call, calls, reset, should_attempt_reset, time_until_reset,
}

abbrev pub failing : List ℕ → List (ℕ × Outcome)
failing = map (λ t. (t, expected_error t))

abbrev pub succeeding : List ℕ → List (ℕ × Outcome)
succeeding = map (λ t. (t, returned))

abbrev pub unexpected : List ℕ → List (ℕ × Outcome)
unexpected = map (λ t. (t, other_error))

call_open_failing :
    (b : Breaker) (t : ℕ)
    → b.state ≡ open_circuit
    → 0 < b.half_open_max_calls
    → ((call b t (expected_error t)).0.state ≡ open_circuit)
      × ((call b t (expected_error t)).0.half_open_max_calls ≡ b.half_open_max_calls)
unfolding call
call_open_failing b t s m = (ground arith, ground arith)

calls_open_failing :
    (b : Breaker) (ts : List ℕ)
    → b.state ≡ open_circuit
    → 0 < b.half_open_max_calls
    → (calls b (failing ts)).state ≡ open_circuit
unfolding calls
calls_open_failing b [] s m = s
calls_open_failing b (t ∷ ts) s m =
    let (s', m') = call_open_failing b t s m in
    calls_open_failing (call b t (expected_error t)).0 ts s' (omega arith)

call_closed_failing :
    (b : Breaker) (t : ℕ)
    → b.state ≡ closed
    → ((call b t (expected_error t)).0.state
        ≡ (if leb b.failure_threshold (b.failure_count + 1) then open_circuit else closed))
      × ((call b t (expected_error t)).0.failure_count ≡ b.failure_count + 1)
      × ((call b t (expected_error t)).0.failure_threshold ≡ b.failure_threshold)
      × ((call b t (expected_error t)).0.half_open_max_calls ≡ b.half_open_max_calls)
unfolding call
call_closed_failing b t s = (ground arith, ground arith, ground arith, ground arith)

-- A closed breaker opens at the call whose failure brings the count to the threshold, not
-- earlier, and then stays open however many more calls fail, at any times.
pub calls-failing :
    (b : Breaker) (ts : List ℕ)
    → b.state ≡ closed
    → b.failure_count < b.failure_threshold
    → 0 < b.half_open_max_calls
    → (calls b (failing ts)).state
      ≡ (if leb b.failure_threshold (b.failure_count + length ts) then open_circuit else closed)
unfolding calls
calls-failing b [] s h m = ground arith
calls-failing b (t ∷ ts) s h m =
    let b' = (call b t (expected_error t)).0 in
    let (state, count, threshold, slots) = call_closed_failing b t s in
    elim (Bool-cases (leb b.failure_threshold (b.failure_count + 1))) [
      | inl e ↦ calls_open_failing b' ts (rw e at state) (omega arith) ∙ ground arith
      | inr e ↦ calls-failing b' ts (rw e at state) (ground arith) (omega arith) ∙ ground arith
    ]

-- A half-open breaker after some admitted calls and some successes of them.
record IsProbing (b b' : Breaker) (slots successes : ℕ) : Type 0 where
  state : b'.state ≡ half_open
  taken : b'.half_open_calls ≡ slots
  counted : b'.success_count ≡ successes
  same_slots : b'.half_open_max_calls ≡ b.half_open_max_calls
  same_threshold : b'.success_threshold ≡ b.success_threshold
  same_reset : reset b' ≡ reset b

call_half_open_success :
    (b : Breaker) (t : ℕ)
    → b.state ≡ half_open
    → b.half_open_calls < b.half_open_max_calls
    → b.success_count + 1 < b.success_threshold
    → IsProbing b (call b t returned).0 (b.half_open_calls + 1) (b.success_count + 1)
unfolding call reset
call_half_open_success b t s h k = ground arith

calls_half_open_success :
    (b : Breaker) (t : ℕ) (ts : List ℕ)
    → b.state ≡ half_open
    → b.half_open_calls + length ts < b.half_open_max_calls
    → b.success_count + length ts + 1 ≡ b.success_threshold
    → calls b (succeeding (t ∷ ts)) ≡ reset b
unfolding calls
calls_half_open_success b t [] s h e = unfold call reset in (ground arith)
calls_half_open_success b t (u ∷ ts) s h e =
    let p = call_half_open_success b t s (omega arith) (omega arith) in
    calls_half_open_success (call b t returned).0 u ts p.state (omega arith) (omega arith)
    ∙ p.same_reset

call_wedged :
    (b : Breaker) (now : ℕ) (o : Outcome)
    → b.state ≡ half_open
    → b.half_open_max_calls ≤ b.half_open_calls
    → call b now o ≡ (b, rejected (time_until_reset b now))
unfolding call
call_wedged b now o s h = ground arith

calls_wedged :
    (b : Breaker) (cs : List (ℕ × Outcome))
    → b.state ≡ half_open
    → b.half_open_max_calls ≤ b.half_open_calls
    → calls b cs ≡ b
unfolding calls
calls_wedged b [] s h = refl
calls_wedged b ((now, o) ∷ cs) s h = rw (call_wedged b now o s h) (calls_wedged b cs s h)

-- Half open with every slot taken.
abbrev pub IsWedged : Breaker → Type 0
IsWedged b = (b.state ≡ half_open) × (b.half_open_max_calls ≤ b.half_open_calls)

call_half_open_unexpected :
    (b : Breaker) (t n : ℕ)
    → b.state ≡ half_open
    → b.half_open_max_calls ≤ b.half_open_calls + suc n
    → ((call b t other_error).0.state ≡ half_open)
      × ((call b t other_error).0.half_open_max_calls
          ≤ (call b t other_error).0.half_open_calls + n)
unfolding call
call_half_open_unexpected b t n s h = (ground arith, ground arith)

calls_half_open_unexpected :
    (b : Breaker) (ts : List ℕ)
    → b.state ≡ half_open
    → b.half_open_max_calls ≤ b.half_open_calls + length ts
    → IsWedged (calls b (unexpected ts))
unfolding calls
calls_half_open_unexpected b [] s h = (s, omega arith)
calls_half_open_unexpected b (t ∷ ts) s h =
    let (s', h') = call_half_open_unexpected b t (length ts) s h in
    calls_half_open_unexpected (call b t other_error).0 ts s' h'

call_open_unexpected :
    (b : Breaker) (t : ℕ)
    → b.state ≡ open_circuit
    → should_attempt_reset b t ≡ true
    → 0 < b.half_open_max_calls
    → ((call b t other_error).0.state ≡ half_open)
      × ((call b t other_error).0.half_open_max_calls ≡ b.half_open_max_calls)
      × ((call b t other_error).0.half_open_calls ≡ 1)
unfolding call
call_open_unexpected b t s d m = (ground arith, ground arith, ground arith)

call_open_success :
    (b : Breaker) (t : ℕ)
    → b.state ≡ open_circuit
    → should_attempt_reset b t ≡ true
    → 0 < b.half_open_max_calls
    → 1 < b.success_threshold
    → IsProbing b (call b t returned).0 1 1
unfolding call reset
call_open_success b t s d m k = ground arith

calls-append :
    (b : Breaker) (xs ys : List (ℕ × Outcome)) → calls b (xs ++ ys) ≡ calls (calls b xs) ys
unfolding calls
calls-append b [] ys = refl
calls-append b ((now, o) ∷ xs) ys = calls-append (call b now o).0 xs ys

-- Once an open breaker's timeout has passed, as many calls as it has half-open slots that all raise
-- errors outside `expected_exceptions` leave it half open for good: whatever calls are tried
-- afterwards, at any times, none changes it and the next one is rejected.
pub calls-unexpected_wedge :
    (b : Breaker) (t : ℕ) (ts : List ℕ) (cs : List (ℕ × Outcome)) (now : ℕ) (o : Outcome)
    → b.state ≡ open_circuit
    → should_attempt_reset b t ≡ true
    → 0 < b.half_open_max_calls
    → b.half_open_max_calls ≤ length ts + 1
    → let w = calls b (unexpected (t ∷ ts)) in
      (w.state ≡ half_open)
      × (calls b (unexpected (t ∷ ts) ++ cs) ≡ w)
      × (call (calls b (unexpected (t ∷ ts) ++ cs)) now o ≡ (w, rejected (time_until_reset w now)))
calls-unexpected_wedge b t ts cs now o s d m h =
    let w = calls b (unexpected (t ∷ ts)) in
    let stuck : IsWedged w =
      unfold calls in
      (let (s', m', c) = call_open_unexpected b t s d m in
        calls_half_open_unexpected (call b t other_error).0 ts s' (omega arith)) in
    let same : calls b (unexpected (t ∷ ts) ++ cs) ≡ w =
      calls-append b (unexpected (t ∷ ts)) cs ∙ calls_wedged w cs stuck.0 stuck.1 in
    (stuck.0, same, rw same (call_wedged w now o stuck.0 stuck.1))

-- Once an open breaker's timeout has passed, `success_threshold` successful calls, no more than
-- there are half-open slots, bring it back to the closed state with every counter cleared.
pub calls-recovery :
    (b : Breaker) (t : ℕ) (ts : List ℕ)
    → b.state ≡ open_circuit
    → should_attempt_reset b t ≡ true
    → length ts + 1 ≡ b.success_threshold
    → length ts < b.half_open_max_calls
    → calls b (succeeding (t ∷ ts)) ≡ reset b
unfolding calls reset
calls-recovery b t [] s d e m = unfold call in (ground arith)
calls-recovery b t (u ∷ ts) s d e m =
    let p = call_open_success b t s d (omega arith) (omega arith) in
    calls_half_open_success (call b t returned).0 u ts p.state (omega arith) (omega arith)
    ∙ p.same_reset
