-- ===== src/Prelude/Failure.antt =====
-- The exceptions of app/shared/exceptions.py that the services raise, and results that may be one.
-- An exception carries its detail message; a message that formats a value keeps that value.
use Prim.Native.Nat.{ℕ}
use Prim.Native.String.{String}
use mathlib.Core.Path.{◌≡◌, refl}
use mathlib.Core.Bool.{Bool, true, false}
use mathlib.Core.Option.{Option, none, some}
use mathlib.Core.List.{List, [], ◌∷◌}

pub data Message : Type 0 where
  text : String → Message
  -- f"<text>{value}"
  about : String → String → Message
  numbered : String → ℕ → Message

pub data Error : Type 0 where
  not_found : Message → Error
  conflict : Message → Error
  forbidden : Message → Error
  bad_request : Message → Error
  unauthorized : Message → Error
  -- SQLAlchemy's MultipleResultsFound, raised by `scalar_one_or_none`
  multiple_results : Error
  -- its IntegrityError, raised by a flush that breaks a constraint
  integrity_error : Error
  -- its DataError, for a text that is longer than its column
  data_error : Error
  -- Python's TypeError
  type_error : Error

pub data Result {ℓ} (A : Type ℓ) : Type ℓ where
  ok : A → Result A
  raise : Error → Result A

-- A step that raises ends the chain, and its exception is the result.
infixl 5 ◌>>=◌ ◌>>◌
abbrev pub ◌>>=◌ {κ ℓ} : {X : Type κ} {Y : Type ℓ} → Result X → (X → Result Y) → Result Y
raise problem >>= next = raise problem
ok x >>= next = next x

abbrev pub ◌>>◌ {κ} : {Y : Type κ} → Result (Unit {0}) → Result Y → Result Y
step >> rest = step >>= λ _. rest

-- `if b: raise e`
abbrev pub raise_if : Bool → Error → Result (Unit {0})
raise_if true e = raise e
raise_if false e = ok tt

-- `result.scalar_one_or_none()`
abbrev pub scalar_one_or_none {ℓ} : {A : Type ℓ} → List A → Result (Option A)
scalar_one_or_none [] = ok none
scalar_one_or_none (x ∷ []) = ok (some x)
scalar_one_or_none (x ∷ y ∷ xs) = raise multiple_results

-- A missing row raises.
abbrev pub or_raise {ℓ} : {A : Type ℓ} → Option A → Error → Result A
or_raise none e = raise e
or_raise (some a) e = ok a

-- A chain that returns has a first step that returned, and the rest returns from its value.
pub bind-ok {κ ℓ} :
    {X : Type κ} {Y : Type ℓ} {y : Y} (next : X → Result Y) (step : Result X)
    → (step >>= next) ≡ ok y
    → (x : X) × (step ≡ ok x) × (next x ≡ ok y)
bind-ok next (raise problem) returned = cc
bind-ok next (ok x) returned = (x, refl, returned)

pub ok-injective {κ} : {X : Type κ} {x y : X} → Result.ok x ≡ ok y → x ≡ y
ok-injective h = cc

-- A chain with a test that has returned did not raise there.
pub raise_if-ok {κ} :
    {Y : Type κ} {y : Y} (test : Bool) (problem : Error) (rest : Result Y)
    → (raise_if test problem >> rest) ≡ ok y
    → (test ≡ false) × (rest ≡ ok y)
raise_if-ok true problem rest returned = cc
raise_if-ok false problem rest returned = (refl, returned)

pub raise_if-done : (test : Bool) (problem : Error) → raise_if test problem ≡ ok tt → test ≡ false
raise_if-done true problem returned = cc
raise_if-done false problem returned = refl

pub or_raise-ok {κ} :
    {Y : Type κ} {y : Y} (found : Option Y) (problem : Error)
    → or_raise found problem ≡ ok y
    → found ≡ some y
or_raise-ok none problem returned = cc
or_raise-ok (some x) problem returned = cc

-- The query found one row.
pub scalar_one_or_none-some {κ} :
    {Row : Type κ} {row : Row} (rows : List Row)
    → scalar_one_or_none rows ≡ ok (some row)
    → rows ≡ row ∷ []
scalar_one_or_none-some [] found = cc
scalar_one_or_none-some (x ∷ []) found = cc
scalar_one_or_none-some (x ∷ y ∷ rows) found = cc

pub scalar_one_or_none-none {κ} :
    {Row : Type κ} (rows : List Row) → scalar_one_or_none rows ≡ ok none → rows ≡ []
scalar_one_or_none-none [] found = refl
scalar_one_or_none-none (x ∷ []) found = cc
scalar_one_or_none-none (x ∷ y ∷ rows) found = cc
