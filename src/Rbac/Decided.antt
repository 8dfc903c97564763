-- ===== src/Rbac/Decided.antt =====
-- An access review is decided once.
use costpilot.Prelude.{
  ◌≡◌, refl, sym, ap, map, ◌∙◌, true, false, not, Option, List, [], ◌∷◌, select, select-head,
  select-update_where_all, update_where, ◌==◌, arith, ok, bind-ok, raise_if-ok, or_raise-ok,
  scalar_one_or_none, scalar_one_or_none-some, not_found,
}
use costpilot.Prelude
use costpilot.Text.{Text}
use costpilot.Text.Laws.{text_instance}
use costpilot.Rbac.{pending, AccessReview, AccessReviewStatus}
use costpilot.Rbac.Reviews.{is_review, decided, decide_access_review, status_instance}

-- the row of a decision that returns
pub record IsDecision (org_id review_id : Text) (status : AccessReviewStatus) (notes : Option Text)
    (table : List AccessReview) (after : List AccessReview × AccessReview) : Type 0 where
  pub review : AccessReview
  pub found : select (is_review org_id review_id) table ≡ review ∷ []
  pub open_review : (review.status == pending) ≡ true
  pub result : after ≡ (
    update_where (λ x. x.id == review.id) (decided status notes) table,
    decided status notes review,
  )

decide_access_review-IsDecision :
    (org_id review_id : Text) (status : AccessReviewStatus) (notes : Option Text)
    (table : List AccessReview) {after : List AccessReview × AccessReview}
    → decide_access_review org_id review_id status notes table ≡ ok after
    → IsDecision org_id review_id status notes table after
unfolding decide_access_review
decide_access_review-IsDecision org_id review_id status notes table h =
    let (f, e, h1) = bind-ok _ (scalar_one_or_none (select (is_review org_id review_id) table)) h in
    let (review, e1, h2) =
      bind-ok _ (Prelude.or_raise f (not_found (Prelude.text "Access review not found"))) h1 in
    let (p, h3) = raise_if-ok (not (review.status == pending)) _ _ h2 in
    record {
      review = review;
      found =
          scalar_one_or_none-some (select (is_review org_id review_id) table)
            (rw (or_raise-ok f _ e1) at e);
      open_review = ground arith;
      result = ground arith;
    }

-- the row afterwards
decided_row :
    (org_id review_id : Text) (status : AccessReviewStatus) (notes : Option Text)
    (table : List AccessReview) (after : List AccessReview × AccessReview)
    (d : IsDecision org_id review_id status notes table after)
    → select (is_review org_id review_id) after.0 ≡ decided status notes d.review ∷ []
decided_row org_id review_id status notes table after d =
    let p = select-head (is_review org_id review_id) table d.found in
    rw (d.result) (
      select-update_where_all (is_review org_id review_id) (λ x. x.id == d.review.id)
        (decided status notes) (λ x. refl)
        (λ x q. ground (
          arith,
          p,
          q,
          text_instance.same_iff x.id review_id,
          text_instance.same_iff d.review.id review_id,
          text_instance.same_iff x.id d.review.id,
        ))
        table
      ∙ ap (map (decided status notes)) d.found)

decide_access_review-ok :
    (org_id review_id : Text) (status : AccessReviewStatus) (notes : Option Text)
    (table : List AccessReview) (review : AccessReview)
    → select (is_review org_id review_id) table ≡ review ∷ []
    → (review.status == pending) ≡ true
    → decide_access_review org_id review_id status notes table
      ≡ ok (
        update_where (λ x. x.id == review.id) (decided status notes) table,
        decided status notes review,
      )
unfolding decide_access_review
decide_access_review-ok org_id review_id status notes table review found p = rw (found, p) refl

-- Where there is one review with the identifier and it is pending, a decision about it returns; and
-- if its status is not "pending", then every later decision about the same review raises.
pub decide_access_review-once :
    (org_id review_id : Text) (status : AccessReviewStatus) (notes : Option Text)
    (table : List AccessReview) (review : AccessReview)
    → select (is_review org_id review_id) table ≡ review ∷ []
    → (review.status == pending) ≡ true
    → (status == pending) ≡ false
    → (after : List AccessReview × AccessReview) × (decide_access_review org_id review_id status
          notes table
        ≡ ok after)
      × ((status' : AccessReviewStatus) (notes' : Option Text)
            (again : List AccessReview × AccessReview)
          → ¬ (decide_access_review org_id review_id status' notes' after.0 ≡ ok again))
decide_access_review-once org_id review_id status notes table review found p final =
    let after : List AccessReview × AccessReview = (
      update_where (λ x. x.id == review.id) (decided status notes) table,
      decided status notes review,
    ) in
    let h = decide_access_review-ok org_id review_id status notes table review found p in
    (
      after,
      h,
      λ status' notes' again h'.
          let d = decide_access_review-IsDecision org_id review_id status notes table h in
          let d' = decide_access_review-IsDecision org_id review_id status' notes' after.0 h' in
          let e = sym (decided_row org_id review_id status notes table after d) ∙ d'.found in
          let q : (d'.review.status == pending) ≡ true = d'.open_review in ground arith,
    )
