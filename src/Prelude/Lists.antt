-- ===== src/Prelude/Lists.antt =====
-- Lists measured by native numbers, and the queries and updates of a table as a list of rows.
use Prim.Native.Nat.{ℕ, zero, suc, ◌+◌, ◌≤◌}
use mathlib.Core.Path.{◌≡◌, refl, ap}
use mathlib.Core.Bool.{Bool, true, false, ◌||◌}
use mathlib.Core.List.{List, [], ◌∷◌, ◌++◌, map}
use native.Mathlib.Omega.{arith}
use costpilot.Prelude.Tests.{if◌then◌else◌}

module _ {ℓ} {A : Type ℓ} where
  abbrev pub length : List A → ℕ
  length [] = 0
  length (x ∷ xs) = suc (length xs)

  pub length-append : (xs ys : List A) → length (xs ++ ys) ≡ length xs + length ys
  length-append [] ys = omega arith
  length-append (x ∷ xs) ys = omega (arith, length-append xs ys)

  -- `select(...).where(p)` over rows; `[x for x in xs if p(x)]`
  abbrev pub select : (A → Bool) → List A → List A
  select p [] = []
  select p (x ∷ xs) = let rest = select p xs in if p x then x ∷ rest else rest

  pub length-select-le : (p : A → Bool) (xs : List A) → length (select p xs) ≤ length xs
  length-select-le p [] = omega arith
  length-select-le p (x ∷ xs) = ground (arith, length-select-le p xs)

  -- what a query finds has the property
  pub select-head :
      (p : A → Bool) (xs : List A) {y : A} {ys : List A} → select p xs ≡ y ∷ ys → p y ≡ true
  select-head p [] h = cc
  select-head p (x ∷ xs) {y = y} {ys = ys} h = ground (arith, select-head p xs {y = y} {ys = ys})

  pub select-append :
      (p : A → Bool) (xs ys : List A) → select p (xs ++ ys) ≡ select p xs ++ select p ys
  select-append p [] ys = refl
  select-append p (x ∷ xs) ys = ground (arith, select-append p xs ys)

  -- `.limit(n)`
  abbrev pub take : ℕ → List A → List A
  take zero xs = []
  take (suc n) [] = []
  take (suc n) (x ∷ xs) = x ∷ take n xs

  -- `.offset(n)`
  abbrev pub drop : ℕ → List A → List A
  drop zero xs = xs
  drop (suc n) [] = []
  drop (suc n) (x ∷ xs) = drop n xs

  -- `any(p(x) for x in xs)`
  abbrev pub any : (A → Bool) → List A → Bool
  any p [] = false
  any p (x ∷ xs) = p x || any p xs

  pub any-append : (p : A → Bool) (xs ys : List A) → any p (xs ++ ys) ≡ (any p xs || any p ys)
  any-append p [] ys = refl
  any-append p (x ∷ xs) ys = ground (arith, any-append p xs ys)

  -- Every row with the property `p` is changed by `f`.
  abbrev pub update_where : (A → Bool) → (A → A) → List A → List A
  update_where p f [] = []
  update_where p f (x ∷ xs) = (if p x then f x else x) ∷ update_where p f xs

  pub length-update_where :
      (p : A → Bool) (f : A → A) (xs : List A) → length (update_where p f xs) ≡ length xs
  length-update_where p f [] = refl
  length-update_where p f (x ∷ xs) = ap suc (length-update_where p f xs)

module _ {ℓ} {A : Type ℓ} where
  -- an update that leaves the test alone changes just the rows that the test selects
  pub select-update_where :
      (p : A → Bool) (f : A → A)
      → ((x : A) → p (f x) ≡ p x)
      → (xs : List A) → select p (update_where p f xs) ≡ map f (select p xs)
  select-update_where p f h [] = refl
  select-update_where p f h (x ∷ xs) = ground (arith, h x, select-update_where p f h xs)

  -- an update of at least the rows that a query finds
  pub select-update_where_all :
      (p q : A → Bool) (f : A → A)
      → ((x : A) → p (f x) ≡ p x)
      → ((x : A) → p x ≡ true → q x ≡ true)
      → (xs : List A) → select p (update_where q f xs) ≡ map f (select p xs)
  select-update_where_all p q f h k [] = refl
  select-update_where_all p q f h k (x ∷ xs) =
      ground (arith, h x, k x, select-update_where_all p q f h k xs)

  -- an update of the one row that a query finds, and of others that it does not
  select-update_where_nil :
      (p q : A → Bool) (f : A → A)
      → ((x : A) → p (f x) ≡ p x)
      → (xs : List A) → select p xs ≡ []
      → select p (update_where q f xs) ≡ []
  select-update_where_nil p q f h [] e = refl
  select-update_where_nil p q f h (x ∷ xs) e =
      ground (arith, h x, select-update_where_nil p q f h xs)

  pub select-update_where_one :
      (p q : A → Bool) (f : A → A)
      → ((x : A) → p (f x) ≡ p x)
      → (xs : List A) (y : A) → select p xs ≡ y ∷ []
      → q y ≡ true
      → select p (update_where q f xs) ≡ f y ∷ []
  select-update_where_one p q f h [] y e k = cc
  select-update_where_one p q f h (x ∷ xs) y e k =
      ground (arith, h x, select-update_where_one p q f h xs y, select-update_where_nil p q f h xs)

  pub any-update_where :
      (p q : A → Bool) (f : A → A)
      → ((x : A) → p (f x) ≡ p x)
      → (xs : List A) → any p (update_where q f xs) ≡ any p xs
  any-update_where p q f h [] = refl
  any-update_where p q f h (x ∷ xs) = ground (arith, h x, any-update_where p q f h xs)

-- The predicate holds of every element.
abbrev pub All {κ ℓ} : {Row : Type κ} → (Row → Type ℓ) → List Row → Type ℓ
All Holds [] = Unit
All Holds (row ∷ rows) = Holds row × All Holds rows

pub length-map {ℓ κ} :
    {A : Type ℓ} {B : Type κ} (f : A → B) (xs : List A) → length (map f xs) ≡ length xs
length-map f [] = refl
length-map f (x ∷ xs) = ap suc (length-map f xs)

pub take_all {ℓ} : {A : Type ℓ} (n : ℕ) (xs : List A) → length xs ≤ n → take n xs ≡ xs
take_all zero [] h = refl
take_all zero (x ∷ xs) h = absurd (omega arith)
take_all (suc n) [] h = refl
take_all (suc n) (x ∷ xs) h = ap (λ t. x ∷ t) (take_all n xs (omega arith))

pub drop_all {ℓ} : {A : Type ℓ} (n : ℕ) (xs : List A) → length xs ≤ n → drop n xs ≡ []
drop_all zero [] h = refl
drop_all zero (x ∷ xs) h = absurd (omega arith)
drop_all (suc n) [] h = refl
drop_all (suc n) (x ∷ xs) h = drop_all n xs (omega arith)
