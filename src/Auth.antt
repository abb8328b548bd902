-- ===== src/Auth.antt =====
-- Users, refresh tokens and the state of modules/auth/auth.service.ts: the tables `users` and
-- `refresh_tokens` (modules/users/entities), the map of Google exchange codes in memory, and the
-- mails handed to the email provider. Identifiers are numbers, times milliseconds.
pub mod Sessions
pub mod Logins
pub mod Exchange
pub mod Steps
pub mod Machine
pub mod Once
pub mod Families
pub mod Reset
pub mod RoundTrip
use text.Mathlib.Text.{◌==◌ as ◌≟◌}
use property_os.Common.{ℕ, String, Bool, false, Option, none, some, List}

pub data UserRole : Type 0 where
  owner manager staff : UserRole

pub record User : Type 0 where
  pub id : ℕ
  pub email : String
  pub password_hash : Option String
  pub google_id : Option String
  pub first_name : String
  pub last_name : String
  pub phone : Option String
  pub avatar_url : Option String
  pub is_active : Bool
  pub email_verified : Bool
  pub role : UserRole
  pub last_login_at : Option ℕ
  pub password_reset_token : Option String
  pub password_reset_expires : Option ℕ
  pub invite_token : Option String
  pub invite_expires : Option ℕ

-- One row for each refresh token; its `id` is the `jti` of the token.
pub record RefreshToken : Type 0 where
  pub id : ℕ
  pub user_id : ℕ
  pub family_id : ℕ
  pub token_hash : String
  pub expires_at : ℕ
  pub revoked_at : Option ℕ
  pub replaced_by : Option ℕ

pub record Tokens : Type 0 where
  pub access_token : String
  pub refresh_token : String
  pub expires_in : ℕ

-- an entry of `googleCodes`
pub record GoogleCode : Type 0 where
  pub code : String
  pub tokens : Tokens
  pub expires : ℕ

-- the reset mail, with the token of its link
pub record ResetMail : Type 0 where
  pub to : String
  pub first_name : String
  pub token : String

pub record Accounts : Type 0 where
  pub users : List User
  pub refresh_tokens : List RefreshToken
  pub google_codes : List GoogleCode
  pub mails : List ResetMail

-- What a verified refresh token carries, as far as it is read.
pub record Payload : Type 0 where
  pub jti : Option ℕ
  pub sub : Option ℕ

-- The libraries that the service calls: JWT with the refresh secret (verified at a time), SHA-256,
-- bcrypt with its salt, and `trim().toLowerCase()`.
pub record Security : Type 0 where
  pub verify_refresh : ℕ → String → Option Payload
  pub sign_access : ℕ → String → ℕ → UserRole → String
  pub sign_refresh : ℕ → ℕ → ℕ → ℕ → String
  pub sha256 : String → String
  pub bcrypt_hash : String → String → String
  pub bcrypt_compare : String → String → Bool
  pub trimmed_lower : String → String

abbrev pub user_key : User → ℕ
user_key u = u.id

abbrev pub token_key : RefreshToken → ℕ
token_key r = r.id

-- a nullable column is equal to a text
abbrev pub is_text : Option String → String → Bool
is_text none t = false
is_text (some s) t = s ≟ t
