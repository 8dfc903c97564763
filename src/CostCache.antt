-- ===== src/CostCache.antt =====
-- The cost cache of backend/app/cost_cache/service.py over models.py: saving and reading the summary of
-- an organization, and `get_expenses_with_fallback` of backend/app/shared/degradation.py behind the
-- endpoint of summaries in backend/app/expenses/router.py. Sums of money are a parameter, and so is what
-- PostgreSQL keeps of them in DECIMAL columns, rounded, or an error where they do not fit. Columns that
-- no query reads are left out. Times are in microseconds, in columns with time zones as models.py has them.
pub mod Fallback
mod Saved
mod Doubled
mod Tests
use costpilot.Prelude.{
  ℕ, ◌+◌, ◌-◌, ◌/◌, Bool, true, false, ◌&&◌, Option, none, some, List, [], ◌∷◌, ◌++◌, ltb, nat_beq,
  select, any, update_where, if◌then◌else◌, ◌==◌, Result, ok, raise, scalar_one_or_none, ◌>>=◌,
}
use costpilot.Text.{Text, codes}
use costpilot.Text.Laws.{text_instance}

pub record Totals (M : Type 0) : Type 0 where
  pub this_month_total : M
  pub last_month_total : M
  pub forecast_total : M
  pub change_percent : M

pub record Row (M : Type 0) : Type 0 where
  pub organization_id : Text
  pub cloud_account_id : Option Text
  pub cache_type : Text
  pub period_start : ℕ
  pub period_end : ℕ
  pub totals : Totals M
  pub data_source : Text
  pub collected_at : ℕ
  pub expires_at : ℕ

-- `CachedExpenseSummary`, without its age
pub record Summary (M : Type 0) : Type 0 where
  pub totals : Totals M
  pub data_source : Text
  pub cached_at : Option ℕ
  pub expires_at : Option ℕ

-- Two accounts in a unique constraint: null is unlike everything, null too.
abbrev pub clashes : Option Text → Option Text → Bool
clashes none b = false
clashes (some a) none = false
clashes (some a) (some b) = a == b

abbrev pub is_org_wide : Option Text → Bool
is_org_wide none = true
is_org_wide (some a) = false

module _ {M : Type 0} where
  -- the constraint `uix_cost_cache_lookup`
  abbrev pub conflicts : Row M → Row M → Bool
  conflicts r x =
      clashes r.cloud_account_id x.cloud_account_id
      && x.organization_id == r.organization_id
      && x.cache_type == r.cache_type
      && nat_beq x.period_start r.period_start
      && nat_beq x.period_end r.period_end

  -- `on_conflict_do_update`
  unfoldable pub upsert : Row M → List (Row M) → List (Row M)
  upsert r rows =
      if any (conflicts r) rows
      then update_where (conflicts r)
          (λ x. record x {
            totals = r.totals;
            data_source = r.data_source;
            collected_at = r.collected_at;
            expires_at = r.expires_at;
          })
          rows
      else rows ++ r ∷ []

  -- `month` is `now.replace(day=1)`; `ttl` is the configured time to live
  abbrev pub summary_row : Text → Totals M → ℕ → ℕ → ℕ → Row M
  summary_row org totals ttl month now = record {
    organization_id = org;
    cloud_account_id = none;
    cache_type = codes "summary";
    period_start = month;
    period_end = now;
    totals = totals;
    data_source = codes "live";
    collected_at = now;
    expires_at = now + ttl;
  }

  -- `column` gives what the columns keep of the totals.
  unfoldable pub save_summary_cache :
      (Totals M → Result (Totals M))
      → Text
      → Totals M
      → ℕ
      → ℕ
      → ℕ
      → List (Row M)
      → Result (List (Row M))
  unfolding upsert
  save_summary_cache column org totals ttl month now rows = do
    kept ← column totals
    ok (upsert (summary_row org kept ttl month now) rows)

  abbrev pub is_summary : Text → Row M → Bool
  is_summary org x =
      x.organization_id == org && x.cache_type == codes "summary" && is_org_wide x.cloud_account_id

  abbrev pub is_fresh : Text → ℕ → Row M → Bool
  is_fresh org now x = is_summary org x && ltb now x.expires_at

  abbrev pub cache_to_summary_response : Row M → Bool → Summary M
  cache_to_summary_response x is_stale = record {
    totals = x.totals;
    data_source = if is_stale then codes "stale" else x.data_source;
    cached_at = some x.collected_at;
    expires_at = some x.expires_at;
  }

  module _ (no_money : M) where
    abbrev pub uninitialized : Summary M
    uninitialized = record {
      totals = record {
        this_month_total = no_money;
        last_month_total = no_money;
        forecast_total = no_money;
        change_percent = no_money;
      };
      data_source = codes "uninitialized";
      cached_at = none;
      expires_at = none;
    }

    stale_or_none : Option (Row M) → Summary M × Bool
    stale_or_none none = (uninitialized, true)
    stale_or_none (some x) = (cache_to_summary_response x true, false)

    read_stale : Text → Bool → Option (Row M) → List (Row M) → Result (Summary M × Bool)
    unfolding stale_or_none
    read_stale org allow_stale (some x) rows = ok (cache_to_summary_response x false, false)
    read_stale org false none rows = ok (uninitialized, true)
    read_stale org true none rows = do
      x ← scalar_one_or_none (select (is_summary org) rows)
      ok (stale_or_none x)

    -- the summary, and whether a refresh in the background is asked for
    unfoldable pub get_cached_summary : Text → Bool → ℕ → List (Row M) → Result (Summary M × Bool)
    unfolding read_stale
    get_cached_summary org allow_stale now rows = do
      x ← scalar_one_or_none (select (is_fresh org now) rows)
      read_stale org allow_stale x rows
