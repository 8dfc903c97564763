-- ===== src/RateLimit/History.antt =====
-- The in-memory limiter of rate_limiter.py against the history of all requests.
use mathlib.Core.List.{append-nil}
use native.Mathlib.Nat.{add-zero}
use costpilot.Prelude.{
  ℕ, ◌+◌, ◌*◌, ◌≤◌, ◌≡◌, refl, ap, ◌∙◌, Bool, List, [], ◌∷◌, ◌++◌, ltb, if◌then◌else◌, length,
  select, select-append, arith, Bool-cases, inl, inr, ◌==◌,
}
use costpilot.Text.{Text}
use costpilot.Text.Laws.{text_instance, text_eq_iff, text_eq_refl}
use costpilot.Dict
use costpilot.Dict.{IsDict}
use costpilot.Dict.Laws.{get-set, set-IsDict}
use costpilot.RateLimit.{
  RateLimitTier, Limiter, tier_window, tier_requests, within, second, stored, cleanup_old_entries,
  is_allowed, init,
}
use costpilot.RateLimit.Cleanup.{tier_window_hour, cleanup-IsDict, stored-cleanup, select-within}

-- Every request so far, allowed or not: its key and its time.
abbrev pub History : Type 0
History = List (Text × ℕ)

-- The times of the requests for a key.
abbrev pub times : Text → History → List ℕ
times k [] = []
times k ((j, t) ∷ h) = let rest = times k h in if j == k then t ∷ rest else rest

times-append :
    (k j : Text) (t : ℕ) (h : History)
    → times k (h ++ (j, t) ∷ []) ≡ times k h ++ (if j == k then t ∷ [] else [])
times-append k j t [] = ground arith
times-append k j t ((i, u) ∷ h) = ground (arith, times-append k j t h)

-- A request's tier is a function of its key, and the limiter and the history agree, from the time
-- `last` on, about the requests of every key that are in its window.
pub record Represents (tier_of : Text → RateLimitTier) (l : Limiter) (h : History) (last : ℕ)
    : Type 0 where
  pub unique : IsDict l.requests
  pub agree :
      (k : Text) (now : ℕ)
      → last ≤ now
      → select (within (tier_window (tier_of k) * second) now) (stored k l.requests)
        ≡ select (within (tier_window (tier_of k) * second) now) (times k h)

module _ (tier_of : Text → RateLimitTier) where
  -- the requests for a key that its window still holds at a time
  abbrev pub in_window : Text → ℕ → List ℕ → List ℕ
  in_window k now = select (within (tier_window (tier_of k) * second) now)

  cleanup-Represents :
      (l : Limiter) (h : History) (last now : ℕ)
      → last ≤ now
      → Represents tier_of l h last
      → Represents tier_of (cleanup_old_entries l now) h now
  unfolding cleanup_old_entries
  cleanup-Represents l h last now le r =
      elim (Bool-cases (ltb now (l.last_cleanup + 300 * second))) [
        | inl early ↦
            rw early (record { unique = r.unique; agree = λ k t p. r.agree k t (omega arith) })
        | inr due ↦ rw due (record {
          unique = cleanup-IsDict now l.requests r.unique;
          agree = λ k t p.
              stored-cleanup k now (tier_window (tier_of k) * second) t l.requests
                (omega (arith, tier_window_hour (tier_of k))) p r.unique
              ∙ r.agree k t (omega arith);
        })
      ]

  stored-set :
      (k key : Text) (ts : List ℕ) (d : List (Text × List ℕ))
      → stored k (Dict.set key ts d) ≡ (if key == k then ts else stored k d)
  unfolding stored
  stored-set k key ts d = ground (arith, get-set key k ts d)

  record_same :
      (l : Limiter) (h : History) (k : Text) (now t : ℕ)
      → now ≤ t
      → in_window k t (stored k l.requests) ≡ in_window k t (times k h)
      → in_window k t
          (stored k (Dict.set k (in_window k now (stored k l.requests) ++ now ∷ []) l.requests))
        ≡ in_window k t (times k (h ++ (k, now) ∷ []))
  record_same l h k now t p agree =
      let w = tier_window (tier_of k) * second in
      rw
        (
          stored-set k k (in_window k now (stored k l.requests) ++ now ∷ []) l.requests,
          times-append k k now h,
          text_eq_refl k,
        )
        (rw (
          select-append (within w t) (in_window k now (stored k l.requests)) (now ∷ []),
          select-append (within w t) (times k h) (now ∷ []),
          select-within w w now t (stored k l.requests) (omega arith) p,
          agree,
        ))

  record_request :
      (l : Limiter) (h : History) (key : Text) (now : ℕ)
      → Represents tier_of l h now
      → Represents tier_of
          (record l {
            requests =
                Dict.set key (in_window key now (stored key l.requests) ++ now ∷ []) l.requests;
          })
          (h ++ (key, now) ∷ [])
          now
  record_request l h key now r = record {
    unique =
        set-IsDict key (in_window key now (stored key l.requests) ++ now ∷ []) l.requests r.unique;
    agree = λ k t p. elim (Bool-cases (key == k)) [
      | inl same ↦ rw ((text_eq_iff key k).0 same) (record_same l h k now t p (r.agree k t p))
      | inr other ↦
          rw
            (
              stored-set k key (in_window key now (stored key l.requests) ++ now ∷ []) l.requests,
              times-append k key now h,
              other,
              append-nil,
            )
            (r.agree k t p)
    ];
  }

  -- The limiter allows a request exactly when fewer requests with its key than the tier's limit and
  -- the burst, allowed or not, lie in the window before it; and it goes on to agree with the history
  -- in which the request is recorded, whether it was allowed or not.
  pub is_allowed-history :
      (l : Limiter) (h : History) (last now burst : ℕ) (key : Text)
      → last ≤ now
      → Represents tier_of l h last
      → ((is_allowed l key (tier_of key) burst now).1.0
          ≡ ltb (length (in_window key now (times key h))) (tier_requests (tier_of key) + burst))
        × Represents tier_of (is_allowed l key (tier_of key) burst now).0 (h ++ (key, now) ∷ []) now
  unfolding is_allowed
  is_allowed-history l h last now burst key le r =
      let r' = cleanup-Represents l h last now le r in
      (rw (r'.agree key now (omega arith)), record_request (cleanup_old_entries l now) h key now r')

  -- a run of requests, each with its key and its time
  unfoldable pub serve : Limiter → History → List Bool
  unfolding is_allowed
  serve l [] = []
  serve l ((key, now) ∷ rest) =
      let (l', (allowed, _)) = is_allowed l key (tier_of key) 0 now in allowed ∷ serve l' rest

  -- The specification keeps every request and counts those in the window.
  unfoldable pub decide_from : History → History → List Bool
  decide_from h [] = []
  decide_from h ((key, now) ∷ rest) =
      ltb (length (in_window key now (times key h))) (tier_requests (tier_of key))
      ∷ decide_from (h ++ (key, now) ∷ []) rest

  -- The clock does not go back, from a time on.
  abbrev pub IsOrdered : ℕ → History → Type 0
  IsOrdered last [] = Unit
  IsOrdered last ((key, now) ∷ rest) = (last ≤ now) × IsOrdered now rest

  serve-decide_from :
      (l : Limiter) (h rest : History) (last : ℕ)
      → Represents tier_of l h last
      → IsOrdered last rest
      → serve l rest ≡ decide_from h rest
  unfolding serve decide_from
  serve-decide_from l h [] last r o = refl
  serve-decide_from l h ((key, now) ∷ rest) last r o =
      let (allowed, r') = is_allowed-history l h last now 0 key o.0 r in
      rw
        (serve-decide_from (is_allowed l key (tier_of key) 0 now).0 (h ++ (key, now) ∷ []) rest now
          r' o.1)
        (ap (λ b. b ∷ decide_from (h ++ (key, now) ∷ []) rest)
          (allowed ∙ ap (ltb (length (in_window key now (times key h)))) (add-zero _)))

  pub init-Represents : (start : ℕ) → Represents tier_of (init start) [] start
  unfolding init stored Dict.get
  init-Represents start = record { unique = tt; agree = λ k t p. refl }

  -- Over any run of requests with a clock that does not go back, a fresh limiter, which forgets old
  -- requests in each call and in its cleanups, decides each request as the full history would: it is
  -- allowed when fewer requests with its key than the limit lie in the window before it.
  pub serve-history :
      (start : ℕ) (requests : History)
      → IsOrdered start requests
      → serve (init start) requests ≡ decide_from [] requests
  serve-history start requests o =
      serve-decide_from (init start) [] requests start (init-Represents start) o
