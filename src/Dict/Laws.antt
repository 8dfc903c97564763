-- ===== src/Dict/Laws.antt =====
-- The laws of a dict's operations.
use costpilot.Prelude.{
  ◌≡◌, ◌+◌, refl, true, false, none, some, List, [], ◌∷◌, ◌++◌, Eq, ◌==◌, if◌then◌else◌, arith,
  length, is_some,
}
use costpilot.Dict.{get, contains, set, delete, move_to_end, IsDict}

module _ {ℓ κ} {K : Type ℓ} {V : Type κ} ⦃eq : Eq K⦄ where
  pub get-set :
      (k j : K) (v : V) (d : List (K × V))
      → get j (set k v d) ≡ (if k == j then some v else get j d)
  unfolding get set
  get-set k j v [] = refl
  get-set k j v ((i, w) ∷ d) =
      ground (arith, eq.same_iff k j, eq.same_iff i k, eq.same_iff i j, get-set k j v d)

  pub contains-get : (k : K) (d : List (K × V)) → contains k d ≡ is_some (get k d)
  unfolding get contains
  contains-get k [] = refl
  contains-get k ((i, w) ∷ d) = ground (arith, contains-get k d)

  pub contains-set :
      (k j : K) (v : V) (d : List (K × V))
      → contains j (set k v d) ≡ (if k == j then true else contains j d)
  contains-set k j v d =
      ground (arith, contains-get j (set k v d), contains-get j d, get-set k j v d)

  pub set-IsDict : (k : K) (v : V) (d : List (K × V)) → IsDict d → IsDict (set k v d)
  unfolding set contains
  set-IsDict k v [] h = ground arith
  set-IsDict k v ((i, w) ∷ d) h =
      ground (arith, eq.same_iff i k, eq.same_iff k i, contains-set k i v d, set-IsDict k v d)

  contains-delete_of_absent :
      (k j : K) (d : List (K × V)) → contains j d ≡ false → contains j (delete k d) ≡ false
  unfolding delete contains
  contains-delete_of_absent k j [] h = refl
  contains-delete_of_absent k j ((i, w) ∷ d) h = ground (arith, contains-delete_of_absent k j d)

  pub delete-IsDict : (k : K) (d : List (K × V)) → IsDict d → IsDict (delete k d)
  unfolding delete
  delete-IsDict k [] h = h
  delete-IsDict k ((i, w) ∷ d) h =
      ground (arith, contains-delete_of_absent k i d, delete-IsDict k d)

  pub get-delete :
      (k j : K) (d : List (K × V))
      → IsDict d
      → get j (delete k d) ≡ (if k == j then none else get j d)
  unfolding delete get
  get-delete k j [] h = ground arith
  get-delete k j ((i, w) ∷ d) h =
      ground (
        arith,
        eq.same_iff k j,
        eq.same_iff i k,
        eq.same_iff i j,
        contains-get i d,
        get-delete k j d,
      )

  pub length-delete :
      (k : K) (d : List (K × V)) → length (delete k d) + (if contains k d then 1 else 0) ≡ length d
  unfolding delete contains
  length-delete k [] = refl
  length-delete k ((i, w) ∷ d) = ground (arith, length-delete k d)

  pub length-set :
      (k : K) (v : V) (d : List (K × V))
      → length (set k v d) ≡ (if contains k d then length d else length d + 1)
  unfolding set contains
  length-set k v [] = refl
  length-set k v ((i, w) ∷ d) = ground (arith, length-set k v d)

  pub delete_absent : (k : K) (d : List (K × V)) → contains k d ≡ false → delete k d ≡ d
  unfolding delete contains
  delete_absent k [] h = refl
  delete_absent k ((i, w) ∷ d) h = ground (arith, delete_absent k d)

  pub contains-delete_self : (k : K) (d : List (K × V)) → IsDict d → contains k (delete k d) ≡ false
  contains-delete_self k d h =
      ground (arith, eq.same_iff k k, contains-get k (delete k d), get-delete k k d)

  contains-append_one :
      (k j : K) (v : V) (d : List (K × V))
      → contains j (d ++ (k, v) ∷ []) ≡ (if contains j d then true else k == j)
  unfolding contains
  contains-append_one k j v [] = ground arith
  contains-append_one k j v ((i, w) ∷ d) = ground (arith, contains-append_one k j v d)

  pub append-IsDict :
      (k : K) (v : V) (d : List (K × V))
      → IsDict d
      → contains k d ≡ false
      → IsDict (d ++ (k, v) ∷ [])
  unfolding contains
  append-IsDict k v [] h e = ground arith
  append-IsDict k v ((i, w) ∷ d) h e = ground (
    arith,
    eq.same_iff i k,
    eq.same_iff k i,
    contains-append_one k i v d,
    append-IsDict k v d h.1,
  )

  -- a key that is moved to the end stands there with its value, and leaves the rest in order
  pub move_to_end-delete :
      (k : K) (v : V) (d : List (K × V))
      → get k d ≡ some v
      → move_to_end k d ≡ delete k d ++ (k, v) ∷ []
  unfolding move_to_end delete get
  move_to_end-delete k v [] h = cc
  move_to_end-delete k v ((i, w) ∷ d) h = ground (arith, eq.same_iff i k, move_to_end-delete k v d)

  pub set_last :
      (k : K) (v w : V) (d : List (K × V))
      → contains k d ≡ false
      → set k v (d ++ (k, w) ∷ []) ≡ d ++ (k, v) ∷ []
  unfolding set contains
  set_last k v w [] h = ground (arith, eq.same_iff k k)
  set_last k v w ((i, u) ∷ d) h = ground (arith, set_last k v w d)

  pub set_absent :
      (k : K) (v : V) (d : List (K × V)) → contains k d ≡ false → set k v d ≡ d ++ (k, v) ∷ []
  unfolding set contains
  set_absent k v [] h = refl
  set_absent k v ((i, u) ∷ d) h = ground (arith, set_absent k v d)

  pub get-append_last :
      (k j : K) (v : V) (d : List (K × V))
      → contains k d ≡ false
      → get j (d ++ (k, v) ∷ []) ≡ (if k == j then some v else get j d)
  unfolding get contains
  get-append_last k j v [] h = refl
  get-append_last k j v ((i, u) ∷ d) h =
      ground (arith, eq.same_iff k j, eq.same_iff i k, eq.same_iff i j, get-append_last k j v d)
