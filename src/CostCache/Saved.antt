-- ===== src/CostCache/Saved.antt =====
-- What a summary that was saved is read as.
use costpilot.Prelude.{
  ℕ, ◌+◌, ◌-◌, ◌/◌, ◌≤◌, ◌≡◌, refl, Bool, true, false, none, some, List, [], ◌∷◌, ◌++◌, any, select,
  select-append, ltb, if◌then◌else◌, arith, Result, ok, ◌>>=◌, scalar_one_or_none,
}
use costpilot.Text.{Text, codes, text_eq}
use costpilot.Text.Laws.{text_instance}
use costpilot.RateLimit.{second}
use costpilot.CostCache.{
  Totals, Row, Summary, conflicts, upsert, summary_row, save_summary_cache, is_summary, is_fresh,
  cache_to_summary_response, uninitialized, stale_or_none, read_stale, get_cached_summary,
}
use costpilot.CostCache.Fallback.{
  get_expenses_with_fallback, fallback, from_cache, compute_freshness_seconds, cached,
}

module _ {M : Type 0} where
  conflicts-none :
      (org : Text) (totals : Totals M) (ttl month now : ℕ) (rows : List (Row M))
      → any (conflicts (summary_row org totals ttl month now)) rows ≡ false
  conflicts-none org totals ttl month now [] = refl
  conflicts-none org totals ttl month now (x ∷ rows) = conflicts-none org totals ttl month now rows

  -- An organization's summary has no account, so that saving it never finds a row to update.
  pub save-append :
      (column : Totals M → Result (Totals M)) (org : Text) (totals kept : Totals M)
      (ttl month now : ℕ) (rows : List (Row M))
      → column totals ≡ ok kept
      → save_summary_cache column org totals ttl month now rows
        ≡ ok (rows ++ summary_row org kept ttl month now ∷ [])
  unfolding save_summary_cache upsert
  save-append column org totals kept ttl month now rows fits =
      rw (fits, conflicts-none org kept ttl month now rows) refl

  pub is_summary-save :
      (org : Text) (totals : Totals M) (ttl month now : ℕ)
      → is_summary org (summary_row org totals ttl month now) ≡ true
  unfolding text_eq
  is_summary-save org totals ttl month now = rw ((text_instance.same_iff org org).1 refl) refl

  pub is_fresh-save :
      (org : Text) (totals : Totals M) (ttl month t now : ℕ)
      → is_fresh org now (summary_row org totals ttl month t) ≡ ltb now (t + ttl)
  unfolding text_eq
  is_fresh-save org totals ttl month t now = rw ((text_instance.same_iff org org).1 refl) refl

  select-is_fresh :
      (org : Text) (now : ℕ) (rows : List (Row M))
      → select (is_summary org) rows ≡ []
      → select (is_fresh org now) rows ≡ []
  select-is_fresh org now [] h = refl
  select-is_fresh org now (x ∷ rows) h = ground (arith, select-is_fresh org now rows)

  -- The reading of the only row of an organization.
  read_only_row :
      (no_money : M) (fresh allow_stale : Bool) (org : Text) (x : Row M) (rows : List (Row M))
      → select (is_summary org) rows ≡ x ∷ []
      → (scalar_one_or_none (if fresh then x ∷ [] else []) >>= λ r.
          read_stale no_money org allow_stale r rows)
        ≡ ok (
            if fresh
            then (cache_to_summary_response x false, false)
            else if allow_stale
            then (cache_to_summary_response x true, false)
            else (uninitialized no_money, true))
  unfolding read_stale stale_or_none
  read_only_row no_money true allow_stale org x rows only = refl
  read_only_row no_money false false org x rows only = refl
  read_only_row no_money false true org x rows only = rw only refl

  -- a reading of a summary that is the only one of its organization
  get-save :
      (no_money : M) (allow_stale : Bool) (org : Text) (totals : Totals M) (ttl month t now : ℕ)
      (rows : List (Row M))
      → select (is_summary org) rows ≡ []
      → let row = summary_row org totals ttl month t in
        get_cached_summary no_money org allow_stale now (rows ++ row ∷ [])
        ≡ ok (
            if ltb now (t + ttl)
            then (cache_to_summary_response row false, false)
            else if allow_stale
            then (cache_to_summary_response row true, false)
            else (uninitialized no_money, true))
  unfolding get_cached_summary
  get-save no_money allow_stale org totals ttl month t now rows no_summary =
      let row = summary_row org totals ttl month t in
      let only : select (is_summary org) (rows ++ row ∷ []) ≡ row ∷ [] =
        rw
          (
            select-append (is_summary org) rows (row ∷ []),
            no_summary,
            is_summary-save org totals ttl month t,
          )
          refl in
      rw
        (
          select-append (is_fresh org now) rows (row ∷ []),
          select-is_fresh org now rows no_summary,
          is_fresh-save org totals ttl month t now,
        )
        (read_only_row no_money (ltb now (t + ttl)) allow_stale org row (rows ++ row ∷ []) only)

  from_cache-if :
      (no_money : M) (fresh allow_stale : Bool) (org : Text) (totals : Totals M)
      (ttl month t now : ℕ)
      → let row = summary_row org totals ttl month t in
        let age = some ((now - t) / second) in
        from_cache
          (ok (
            if fresh
            then (cache_to_summary_response row false, false)
            else if allow_stale
            then (cache_to_summary_response row true, false)
            else (uninitialized no_money, true)))
          now
        ≡ (if fresh
            then cached (cache_to_summary_response row false) (codes "cached") age
            else if allow_stale
            then cached (cache_to_summary_response row true) (codes "cached") age
            else cached (uninitialized no_money) (codes "cached") none)
  unfolding from_cache compute_freshness_seconds text_eq
  from_cache-if no_money true allow_stale org totals ttl month t now = ground arith
  from_cache-if no_money false true org totals ttl month t now = ground arith
  from_cache-if no_money false false org totals ttl month t now = refl

  -- the answer's summary: the totals kept, the times of the saving, and the source
  abbrev pub as_saved : Totals M → ℕ → ℕ → Text → Summary M
  as_saved kept t ttl source = record {
    totals = kept;
    data_source = source;
    cached_at = some t;
    expires_at = some (t + ttl);
  }

  abbrev pub all_zero : M → Summary M
  all_zero no_money = record {
    totals = record {
      this_month_total = no_money;
      last_month_total = no_money;
      forecast_total = no_money;
      change_percent = no_money;
    };
    data_source = codes "uninitialized";
    cached_at = none;
    expires_at = none;
  }

  -- A summary is saved at a time t where its organization has none, its totals fit the columns, and it
  -- is read at t or later where live totals cannot be had. While fresh it is read with the totals as the
  -- columns keep them and its own source, "live"; after that with the source "stale", where stale ones
  -- are allowed, and as zeros where not. The source that goes to the response's header is "cached" in
  -- all cases, also for the stale summary.
  pub get_expenses-save :
      (column : Totals M → Result (Totals M)) (no_money : M) (allow_stale : Bool) (org : Text)
      (totals kept : Totals M) (ttl month t now : ℕ) (rows : List (Row M))
      → column totals ≡ ok kept
      → select (is_summary org) rows ≡ []
      → t ≤ now
      → (saved : List (Row M)) × (save_summary_cache column org totals ttl month t rows ≡ ok saved)
        × (get_expenses_with_fallback none no_money org allow_stale now saved ≡ (
            if ltb now (t + ttl)
            then cached
                (as_saved kept t ttl (codes "live"))
                (codes "cached")
                (some ((now - t) / second))
            else if allow_stale
            then cached
                (as_saved kept t ttl (codes "stale"))
                (codes "cached")
                (some ((now - t) / second))
            else cached (all_zero no_money) (codes "cached") none))
  unfolding get_expenses_with_fallback fallback
  get_expenses-save column no_money allow_stale org totals kept ttl month t now rows fits no_summary
        past =
      (
        rows ++ summary_row org kept ttl month t ∷ [],
        save-append column org totals kept ttl month t rows fits,
        rw (get-save no_money allow_stale org kept ttl month t now rows no_summary)
            (from_cache-if no_money (ltb now (t + ttl)) allow_stale org kept ttl month t now),
      )
