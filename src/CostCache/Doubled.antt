-- ===== src/CostCache/Doubled.antt =====
-- What is read after a summary was saved twice.
use costpilot.Prelude.{
  ℕ, ◌+◌, ◌<◌, ◌≤◌, ◌≡◌, refl, Bool, true, false, none, List, [], ◌∷◌, ◌++◌, select, arith, raise,
  ◌∙◌, ◌>>=◌, Result, ok, multiple_results, scalar_one_or_none,
}
use costpilot.Text.{Text}
use costpilot.Text.Laws.{text_instance}
use costpilot.CostCache.{
  Totals, Row, summary_row, save_summary_cache, is_summary, is_fresh, read_stale,
  get_cached_summary,
}
use costpilot.CostCache.Saved.{save-append, is_summary-save, is_fresh-save}
use costpilot.CostCache.Fallback.{
  get_expenses_with_fallback, fallback, from_cache, expense_summary, reply,
}

scalar_of_two :
    {A : Type 0} (xs : List A) (a b : A)
    → scalar_one_or_none (xs ++ a ∷ b ∷ []) ≡ raise multiple_results
scalar_of_two [] a b = refl
scalar_of_two (x ∷ []) a b = refl
scalar_of_two (x ∷ y ∷ xs) a b = refl

module _ {M : Type 0} where
  select_after_two :
      (p : Row M → Bool) (a b : Row M) (rows : List (Row M))
      → p a ≡ true
      → p b ≡ true
      → select p ((rows ++ a ∷ []) ++ b ∷ []) ≡ select p rows ++ a ∷ b ∷ []
  select_after_two p a b [] h k = rw (h, k) refl
  select_after_two p a b (x ∷ rows) h k = ground (arith, select_after_two p a b rows h k)

  select_after_none :
      (p : Row M → Bool) (a b : Row M) (rows : List (Row M))
      → p a ≡ false
      → p b ≡ false
      → select p ((rows ++ a ∷ []) ++ b ∷ []) ≡ select p rows
  select_after_none p a b [] h k = rw (h, k) refl
  select_after_none p a b (x ∷ rows) h k = ground (arith, select_after_none p a b rows h k)

  -- a reading while both rows are fresh
  get-save_twice :
      (no_money : M) (allow_stale : Bool) (org : Text) (now : ℕ) (a b : Row M) (rows : List (Row M))
      → is_fresh org now a ≡ true
      → is_fresh org now b ≡ true
      → get_cached_summary no_money org allow_stale now ((rows ++ a ∷ []) ++ b ∷ [])
        ≡ raise multiple_results
  unfolding get_cached_summary
  get-save_twice no_money allow_stale org now a b rows h k =
      rw
        (
          select_after_two (is_fresh org now) a b rows h k,
          scalar_of_two (select (is_fresh org now) rows) a b,
        )
        refl

  -- a reading when no row is fresh
  get-two_stale :
      (no_money : M) (org : Text) (now : ℕ) (a b : Row M) (rows : List (Row M))
      → is_summary org a ≡ true
      → is_summary org b ≡ true
      → select (is_fresh org now) ((rows ++ a ∷ []) ++ b ∷ []) ≡ []
      → get_cached_summary no_money org true now ((rows ++ a ∷ []) ++ b ∷ [])
        ≡ raise multiple_results
  unfolding get_cached_summary read_stale
  get-two_stale no_money org now a b rows h k none_fresh =
      rw
        (
          none_fresh,
          select_after_two (is_summary org) a b rows h k,
          scalar_of_two (select (is_summary org) rows) a b,
        )
        refl

  expense_summary-raise :
      (no_money : M) (org : Text) (allow_stale : Bool) (now : ℕ) (rows : List (Row M))
      → get_cached_summary no_money org allow_stale now rows ≡ raise multiple_results
      → expense_summary none no_money org allow_stale now rows ≡ none
  unfolding expense_summary get_expenses_with_fallback fallback from_cache reply
  expense_summary-raise no_money org allow_stale now rows h = rw h refl

  -- Two summaries of an organization, with totals that fit the columns, saved one after the other are
  -- two rows. Where live totals cannot be had, the endpoint of summaries then fails, with an attribute
  -- error, while both are fresh; and where stale ones are allowed it fails also after both, and any
  -- earlier ones, have expired.
  pub expense_summary-save_twice :
      (column : Totals M → Result (Totals M)) (no_money : M) (allow_stale : Bool) (org : Text)
      (totals kept totals2 kept2 : Totals M) (ttl month month2 t t2 now late : ℕ)
      (rows : List (Row M))
      → column totals ≡ ok kept
      → column totals2 ≡ ok kept2
      → t ≤ t2
      → now < t + ttl
      → t2 + ttl ≤ late
      → select (is_fresh org late) rows ≡ []
      → (saved : List (Row M)) × ((save_summary_cache column org totals ttl month t rows
            >>= λ first. save_summary_cache column org totals2 ttl month2 t2 first)
          ≡ ok saved)
        × (expense_summary none no_money org allow_stale now saved ≡ none)
        × (expense_summary none no_money org true late saved ≡ none)
  expense_summary-save_twice column no_money allow_stale org totals kept totals2 kept2 ttl month
        month2 t t2 now late rows fits fits2 order early after expired =
      let a = summary_row org kept ttl month t in
      let b = summary_row org kept2 ttl month2 t2 in
      let of_a = is_summary-save org kept ttl month t in
      let of_b = is_summary-save org kept2 ttl month2 t2 in
      (
        (rows ++ a ∷ []) ++ b ∷ [],
        rw (save-append column org totals kept ttl month t rows fits)
            (save-append column org totals2 kept2 ttl month2 t2 (rows ++ a ∷ []) fits2),
        expense_summary-raise no_money org allow_stale now ((rows ++ a ∷ []) ++ b ∷ []) (
            get-save_twice no_money allow_stale org now a b rows
              (ground (arith, is_fresh-save org kept ttl month t now, early))
              (ground (arith, is_fresh-save org kept2 ttl month2 t2 now, early, order))),
        expense_summary-raise no_money org true late ((rows ++ a ∷ []) ++ b ∷ []) (
            get-two_stale no_money org late a b rows of_a of_b (
              select_after_none (is_fresh org late) a b rows
                (ground (arith, is_fresh-save org kept ttl month t late, after, order))
                (ground (arith, is_fresh-save org kept2 ttl month2 t2 late, after))
              ∙ expired)),
      )
