-- ===== src/Auth.antt =====
-- Accounts of backend/app/auth: the tables, passwords, login, sessions and password resets of
-- auth/service.py. Times are in microseconds, and each function reads the clock once.
pub mod Password
pub mod Login
pub mod Lockout
pub mod Sessions
pub mod Reset
pub mod Access
pub mod Fingerprint
pub mod Rotation
mod Tests
use costpilot.Prelude.{ℕ, ◌*◌, Bool, Option}
use costpilot.Text.{Text}

pub data UserStatus : Type 0 where
  pending active suspended deactivated locked : UserStatus

-- The columns of `User` that the service reads or writes.
pub record User : Type 0 where
  pub id : Text
  pub email : Text
  pub display_name : Text
  pub hashed_password : Text
  pub is_active : Bool
  pub verified : Bool
  pub status : UserStatus
  pub failed_login_attempts : ℕ
  pub locked_until : Option ℕ
  pub last_login : Option ℕ
  pub deleted_at : Option ℕ

abbrev pub minute : ℕ
minute = 60 * 1_000_000
