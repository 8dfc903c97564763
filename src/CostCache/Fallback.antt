-- ===== src/CostCache/Fallback.antt =====
-- `get_expenses_with_fallback` of backend/app/shared/degradation.py for a request without dates, and the
-- endpoint `expense_summary` of backend/app/expenses/router.py that reads its result. The live totals are
-- an argument, none where fetching them raises. Rows are not collected in the future.
use costpilot.Prelude.{
  ℕ, ◌-◌, ◌/◌, ◌&&◌, Bool, false, Option, none, some, List, ltb, if◌then◌else◌, ◌==◌, Result, ok,
  raise,
}
use costpilot.Text.{Text, codes}
use costpilot.Text.Laws.{text_instance}
use costpilot.RateLimit.{second}
use costpilot.CostCache.{Totals, Row, Summary, get_cached_summary}

-- The result with its source and its freshness in seconds, where none stands for -1. The degraded
-- response is an `ExpenseBreakdown` of zeros.
pub data Answer (M : Type 0) : Type 0 where
  live : Totals M → Answer M
  cached : Summary M → Text → Option ℕ → Answer M
  unavailable : Answer M

unfoldable pub compute_freshness_seconds : Option ℕ → ℕ → Option ℕ
compute_freshness_seconds none now = none
compute_freshness_seconds (some t) now = some ((now - t) / second)

abbrev pub is_positive : Option ℕ → Bool
is_positive none = false
is_positive (some n) = ltb 0 n

module _ {M : Type 0} where
  abbrev pub source_of : Summary M → Option ℕ → Text
  source_of s freshness =
      if is_positive freshness && s.data_source == codes "cache"
      then codes "stale"
      else codes "cached"

  unfoldable pub from_cache : Result (Summary M × Bool) → ℕ → Answer M
  unfolding compute_freshness_seconds
  from_cache (raise e) now = unavailable
  from_cache (ok (s, refresh)) now =
      let freshness = compute_freshness_seconds s.cached_at now in
      cached s (source_of s freshness) freshness

  unfoldable pub fallback : Option (Totals M) → M → Text → Bool → ℕ → List (Row M) → Answer M
  unfolding from_cache
  fallback (some totals) no_money org allow_stale now rows = live totals
  fallback none no_money org allow_stale now rows =
      from_cache (get_cached_summary no_money org allow_stale now rows) now

  unfoldable pub get_expenses_with_fallback :
      Option (Totals M) → M → Text → Bool → ℕ → List (Row M) → Answer M
  unfolding fallback
  get_expenses_with_fallback live_totals no_money org allow_stale now rows =
      fallback live_totals no_money org allow_stale now rows

  -- The endpoint reads `this_month_total`, which an `ExpenseBreakdown` does not have: none is the
  -- AttributeError.
  unfoldable pub reply : Answer M → Option (Summary M)
  reply (live totals) =
      some (record {
        totals = totals;
        data_source = codes "live";
        cached_at = none;
        expires_at = none;
      })
  reply (cached s source freshness) = some s
  reply unavailable = none

  unfoldable pub expense_summary :
      Option (Totals M) → M → Text → Bool → ℕ → List (Row M) → Option (Summary M)
  unfolding reply
  expense_summary live_totals no_money org allow_stale now rows =
      reply (get_expenses_with_fallback live_totals no_money org allow_stale now rows)
