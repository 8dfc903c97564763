-- ===== src/Idempotency/Tests.antt =====
-- Runs of the idempotency middleware in front of an application that counts the orders it takes.
use costpilot.Prelude.{ℕ, ◌+◌, ◌≡◌, refl, Option, none, some, List, [], ◌∷◌, Result, ok, All}
use costpilot.Text.{Text, codes, elem, starts_with, text_eq}
use costpilot.Idempotency.{Request, Response, key_of, too_long, dict_of, serve, serve_bare}
use costpilot.Idempotency.Transparent.{Fits, serve-serve_bare}

-- the response sets two cookies
abbrev count_order : Request → ℕ → ℕ × Result Response
count_order r orders = (
  orders + 1,
  ok (record {
    status_code = 201;
    content = codes "ok";
    headers =
        (codes "set-cookie", codes "a=1")
        ∷ (codes "content-length", codes "2")
        ∷ (codes "set-cookie", codes "b=2")
        ∷ [];
  }),
)

abbrev digest : Text → Text
digest body = body

abbrev decode : Text → Option Text
decode bytes = some bytes

abbrev order : ℕ → Text → Request
order now id = record {
  method = codes "POST";
  path = codes "/api/orders";
  key = some (codes "k1");
  user_id = none;
  body = codes "3 units";
  now = now;
  fresh_id = id;
}

abbrev orders : List Request
orders = order 10 (codes "a") ∷ order 20 (codes "b") ∷ []

orders_fit : All (Fits ℕ count_order digest digest decode []) orders
unfolding key_of elem starts_with text_eq too_long
orders_fit = (refl, (refl, tt))

-- the second cookie is lost
one_cookie :
    dict_of (
      (codes "set-cookie", codes "a=1")
      ∷ (codes "content-length", codes "2")
      ∷ (codes "set-cookie", codes "b=2")
      ∷ [])
    ≡ (codes "set-cookie", codes "a=1") ∷ (codes "content-length", codes "2") ∷ []
unfolding dict_of text_eq
one_cookie = refl

-- the repeated order is taken twice
orders_twice : (serve ℕ count_order digest digest decode [] orders ([], 0)).0.1 ≡ 2
unfolding serve_bare
orders_twice = rw (serve-serve_bare ℕ count_order digest digest decode [] orders 0 orders_fit) refl
