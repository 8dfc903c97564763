-- ===== src/RateLimit/Tests.antt =====
-- Requests at concrete times.
use costpilot.Prelude.{◌+◌, ◌≡◌, refl, true, false, none, some, [], ◌∷◌, ◌++◌, arith, length, ltb}
use costpilot.Text.{Text, codes, text_eq}
use costpilot.Text.Laws.{text_instance}
use costpilot.Dict
use costpilot.RateLimit.{RateLimitTier, export, init, is_allowed, tier_requests, tier_window}
use costpilot.RateLimit.History.{
  History, Represents, is_allowed-history, serve-history, init-Represents, serve, decide_from,
  in_window, times,
}
use costpilot.RateLimit.Middleware.{Request, generate_key}

abbrev export_key : Text
export_key = codes "k"

abbrev tier_of : Text → RateLimitTier
tier_of k = export

-- six exports at once: the sixth is over the limit
abbrev burst_of_six : History
burst_of_six =
    (export_key, 10)
    ∷ (export_key, 10)
    ∷ (export_key, 11)
    ∷ (export_key, 11)
    ∷ (export_key, 12)
    ∷ (export_key, 12)
    ∷ []

sixth_refused : serve tier_of (init 0) burst_of_six ≡ true ∷ true ∷ true ∷ true ∷ true ∷ false ∷ []
unfolding serve init Dict.get Dict.set tier_requests tier_window text_eq
sixth_refused = refl

serve-history_example : serve tier_of (init 0) burst_of_six ≡ decide_from tier_of [] burst_of_six
serve-history_example = serve-history tier_of 0 burst_of_six (omega arith)

is_allowed-history_example :
    ((is_allowed (init 0) export_key export 0 20).1.0
      ≡ ltb
          (length (in_window tier_of export_key 20 (times export_key [])))
          (tier_requests export + 0))
    × Represents tier_of
        (is_allowed (init 0) export_key export 0 20).0
        ([] ++ (export_key, 20) ∷ [])
        20
is_allowed-history_example =
    is_allowed-history tier_of (init 0) [] 0 20 0 export_key (omega arith)
      (init-Represents tier_of 0)

abbrev post_export : Request
post_export = record {
  path = codes "/api/v1/export/jobs/";
  method = codes "post";
  user_id = none;
  session_id = none;
  host = some (codes "10.0.0.7");
}

key_of_post :
    generate_key (λ s. s) post_export export
    ≡ codes "ratelimit:EXPORT:ip:10.0.0.7:POST:/api/v1/export/jobs"
unfolding generate_key
key_of_post = refl
