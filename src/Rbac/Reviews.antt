-- ===== src/Rbac/Reviews.antt =====
-- Access reviews: `create_access_review`, `list_access_reviews` and `decide_access_review` of
-- backend/app/enterprise/modules/rbac/service.py.
use costpilot.Prelude.{
  Bool, not, ◌&&◌, Option, none, some, List, [], ◌∷◌, ◌++◌, select, update_where, is_none, ◌==◌, Eq,
  eq_of_discrete, bad_request, not_found, Result, ok, raise_if, or_raise, scalar_one_or_none, ◌>>=◌,
  ◌>>◌,
}
use costpilot.Prelude
use costpilot.Text.{Text}
use costpilot.Text.Laws.{text_instance}
use costpilot.Rbac.{pending, Role, AccessReview, AccessReviewStatus}
use costpilot.Rbac.Roles.{get_role}

unfoldable pub AccessReviewStatus-discrete : Discrete AccessReviewStatus
AccessReviewStatus-discrete = hlevel

instance abbrev pub status_instance : Eq AccessReviewStatus
status_instance = eq_of_discrete AccessReviewStatus-discrete

unfoldable pub create_access_review :
    Text
    → Text
    → Text
    → Text
    → Text
    → Text
    → List Role
    → List AccessReview
    → Result (List AccessReview × AccessReview)
unfolding get_role
create_access_review fresh_id org_id reviewer_id user_id role_id notes roles table = do
  _ ← get_role org_id role_id roles
  let review : AccessReview = record {
    id = fresh_id;
    organization_id = org_id;
    user_id = user_id;
    reviewer_id = reviewer_id;
    role_id = role_id;
    status = pending;
    notes = notes;
    deleted_at = none;
  }
  ok (table ++ review ∷ [], review)

abbrev pub is_review : Text → Text → AccessReview → Bool
is_review org_id review_id r =
    (r.id == review_id && r.organization_id == org_id) && is_none r.deleted_at

abbrev or_keep : Option Text → Text → Text
or_keep none old = old
or_keep (some notes) old = notes

abbrev pub decided : AccessReviewStatus → Option Text → AccessReview → AccessReview
decided status notes r = record r { status = status; notes = or_keep notes r.notes }

unfoldable pub decide_access_review :
    Text
    → Text
    → AccessReviewStatus
    → Option Text
    → List AccessReview
    → Result (List AccessReview × AccessReview)
decide_access_review org_id review_id status notes table = do
  found ← scalar_one_or_none (select (is_review org_id review_id) table)
  review ← or_raise found (not_found (Prelude.text "Access review not found"))
  raise_if (not (review.status == pending)) (bad_request (Prelude.text "Review already decided"))
  ok (
    update_where (λ x. x.id == review.id) (decided status notes) table,
    decided status notes review,
  )
