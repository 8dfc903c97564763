-- ===== src/Auth/Password.antt =====
-- `hash_password` and `verify_password` of auth/service.py. PBKDF2 with its 100,000 rounds is a
-- function of the password and the salt; the fresh salt is an argument.
use costpilot.Prelude.{
  ℕ, ◌≡◌, ◌≢◌, refl, Bool, true, false, Option, none, some, [], ◌∷◌, ◌++◌, nat_beq, if◌then◌else◌,
  arith, All, ◌↔◌,
}
use costpilot.Text.{Text, text_eq}
use costpilot.Text.Laws.{text_eq-eq, text_eq_refl}

-- `hashed.split("$", 1)`: the parts before and after the first separator
cons_before : ℕ → Option (Text × Text) → Option (Text × Text)
cons_before c none = none
cons_before c (some (a, b)) = some (c ∷ a, b)

unfoldable pub partition : ℕ → Text → Option (Text × Text)
unfolding cons_before
partition sep [] = none
partition sep (c ∷ s) =
    let rest = cons_before c (partition sep s) in if nat_beq c sep then some ([], s) else rest

-- 36 is "$"
abbrev pub dollar : ℕ
dollar = 36

module _ (pbkdf2 : Text → Text → Text) where
  unfoldable pub hash_password : Text → Text → Text
  hash_password salt password = salt ++ (dollar ∷ pbkdf2 password salt)

  -- a stored value with no separator makes the tuple assignment raise `ValueError`
  verify_parts : Text → Option (Text × Text) → Bool
  verify_parts plain none = false
  verify_parts plain (some (salt, stored_hash)) = text_eq (pbkdf2 plain salt) stored_hash

  unfoldable pub verify_password : Text → Text → Bool
  unfolding verify_parts
  verify_password plain hashed = verify_parts plain (partition dollar hashed)

  partition_salt :
      (salt rest : Text)
      → All (λ c. c ≢ dollar) salt
      → partition dollar (salt ++ (dollar ∷ rest)) ≡ some (salt, rest)
  unfolding partition
  partition_salt [] rest h = refl
  partition_salt (c ∷ salt) rest h = ground (arith, partition_salt salt rest h.1)

  -- A password is accepted against the hash of another, made with a salt without "$", exactly when
  -- the two have the same digest under that salt; so a password is accepted against its own hash.
  pub verify_password-hash_password :
      (plain password salt : Text)
      → All (λ c. c ≢ dollar) salt
      → (verify_password plain (hash_password salt password) ≡ true)
        ↔ (pbkdf2 plain salt ≡ pbkdf2 password salt)
  unfolding verify_password hash_password
  verify_password-hash_password plain password salt h =
      rw (partition_salt salt (pbkdf2 password salt) h) (
        text_eq-eq (pbkdf2 plain salt) (pbkdf2 password salt),
        λ e. rw e (text_eq_refl (pbkdf2 password salt)),
      )
