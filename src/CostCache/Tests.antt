-- ===== src/CostCache/Tests.antt =====
-- An organization whose costs are saved every hour, in cents.
use costpilot.Prelude.{
  ℕ, ◌+◌, ◌-◌, ◌/◌, ◌≡◌, true, none, some, List, [], ltb, if◌then◌else◌, arith, refl, Result, ok,
  raise, integrity_error, ◌>>=◌,
}
use costpilot.Text.{codes}
use costpilot.RateLimit.{second}
use costpilot.CostCache.{Totals, Row, save_summary_cache}
use costpilot.CostCache.Fallback.{get_expenses_with_fallback, cached, expense_summary}
use costpilot.CostCache.Saved.{get_expenses-save, as_saved, all_zero}
use costpilot.CostCache.Doubled.{expense_summary-save_twice}

abbrev totals : Totals ℕ
totals = record {
  this_month_total = 500;
  last_month_total = 400;
  forecast_total = 800;
  change_percent = 100;
}

abbrev no_rows : List (Row ℕ)
no_rows = []

-- the columns keep totals of at most a million
abbrev column : Totals ℕ → Result (Totals ℕ)
column totals = if ltb 1_000_000 totals.this_month_total then raise integrity_error else ok totals

expense_summary-save_twice_example :
    (saved : List (Row ℕ)) × ((save_summary_cache column (codes "o") totals 100 1 10 no_rows
        >>= λ first. save_summary_cache column (codes "o") totals 100 1 20 first)
      ≡ ok saved)
    × (expense_summary none 0 (codes "o") true 50 saved ≡ none)
    × (expense_summary none 0 (codes "o") true 200 saved ≡ none)
expense_summary-save_twice_example =
    expense_summary-save_twice column 0 true (codes "o") totals totals totals totals 100 1 1 10 20
      50 200 no_rows refl refl (omega arith) (omega arith) (omega arith) refl

get_expenses-save_example :
    (saved : List (Row ℕ)) × (save_summary_cache column (codes "o") totals 100 1 10 no_rows
      ≡ ok saved)
    × (get_expenses_with_fallback none 0 (codes "o") true 200 saved ≡ (
        if ltb 200 (10 + 100)
        then cached
            (as_saved totals 10 100 (codes "live"))
            (codes "cached")
            (some ((200 - 10) / second))
        else if true
        then cached
            (as_saved totals 10 100 (codes "stale"))
            (codes "cached")
            (some ((200 - 10) / second))
        else cached (all_zero 0) (codes "cached") none))
get_expenses-save_example =
    get_expenses-save column 0 true (codes "o") totals totals 100 1 10 200 no_rows refl refl
      (omega arith)
