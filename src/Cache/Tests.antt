-- ===== src/Cache/Tests.antt =====
-- A cache of two entries, at concrete keys and times.
use costpilot.Prelude.{
  ℕ, ◌+◌, ◌-◌, ◌≤◌, ◌≡◌, refl, none, [], ◌∷◌, arith, if◌then◌else◌, length, text_of_python, eq_iff,
  String,
}
use costpilot.Dict
use costpilot.Cache.{Cache, set, ttl_or}
use costpilot.Cache.Validity.{IsValid, run, run-IsValid, get_op, set_op, cleanup_op}
use costpilot.Cache.Recency.{touch, drop, set-recency, set-room}

abbrev full : Cache ℕ
full = record {
  max_size = 2;
  ttl_seconds = 300;
  name = "summary";
  entries = ("a", (1, 50)) ∷ ("b", (2, 400)) ∷ [];
  hits = 0;
  misses = 0;
}

-- the least recently used entry goes
evicts_oldest : (set full "c" 3 none 100).entries ≡ ("b", (2, 400)) ∷ ("c", (3, 400)) ∷ []
unfolding set Dict.contains Dict.set
evicts_oldest = refl

full-IsValid : IsValid full
unfolding Dict.contains
full-IsValid = record { unique = (refl, (refl, tt)); bounded = omega arith }

run-IsValid_example :
    IsValid (run full (get_op "b" 20 ∷ set_op "c" 3 none 100 ∷ cleanup_op 60 ∷ []))
run-IsValid_example =
    run-IsValid full (get_op "b" 20 ∷ set_op "c" 3 none 100 ∷ cleanup_op 60 ∷ []) full-IsValid

set-recency_example : set full "a" 3 none 100 ≡ record full {
  entries =
      (let d = touch "a" (3, 100 + ttl_or full none) full.entries in
        drop (length d - full.max_size) d);
}
set-recency_example = set-recency full "a" 3 none 100 full-IsValid.unique

set-room_example : Dict.get "b" (set full "a" 3 none 100).entries ≡ Dict.get "b" full.entries
set-room_example = set-room full "a" "b" 3 none 100 full-IsValid.unique a_ne_b room
  where
    a_ne_b : ◌≡◌ {A = String} "a" "b" → ⊥
    a_ne_b = λ e. cc ((eq_iff "a" "b").1 e)

    room : length full.entries + (if Dict.contains "a" full.entries then 0 else 1) ≤ full.max_size
    room = unfold Dict.contains in (omega arith)
