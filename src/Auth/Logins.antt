-- ===== src/Auth/Logins.antt =====
-- The operations on users of modules/auth/auth.service.ts: `validateUser`, `login`, `getUser`,
-- `register`, `findOrCreateGoogleUser`, `forgotPassword`, `resetPassword` and `acceptInvite`.
-- What a call draws at random, identifiers, salts and tokens, is an argument.
use text.Mathlib.Text.{◌==◌ as ◌≟◌}
use property_os.Common.{
  ℕ, ◌+◌, String, Bool, true, false, not, ◌&&◌, Option, none, some, is_some, find_one, save, ltb,
  ◌==◌, push, if◌then◌else◌, or_else, update_where,
}
use property_os.Service.{
  Exec, pure, or_throw, throw_if, gets, modify, ◌>>=◌, ◌>>◌, unauthorized, conflict, bad_request,
  is_truthy_text,
}
use property_os.Auth.{User, Tokens, Accounts, Security, staff, user_key, is_text}
use property_os.Auth.Sessions.{issue_tokens, revoke_all_for_user}

-- one hour in milliseconds
abbrev pub reset_ttl : ℕ
reset_ttl = 3_600_000

-- a nullable time that is missing or past
abbrev pub past : ℕ → Option ℕ → Bool
past now none = true
past now (some t) = ltb t now

abbrev pub save_user : User → Accounts → Accounts
save_user u a = record a { users = save user_key u a.users }

abbrev find_user : (User → Bool) → Accounts → Option User
find_user p a = find_one p a.users

pub record Profile : Type 0 where
  pub google_id : String
  pub email : String
  pub first_name : String
  pub last_name : String
  pub avatar : Option String

pub record RegisterDto : Type 0 where
  pub email : String
  pub password : String
  pub first_name : String
  pub last_name : String
  pub phone : Option String

-- what leaves the service of a user
abbrev pub without_secrets : User → User
without_secrets u = record u {
  password_hash = none;
  password_reset_token = none;
  password_reset_expires = none;
  invite_token = none;
  invite_expires = none;
}

module _ (sec : Security) where
  unfoldable pub password_matches : String → User → Bool
  password_matches pass u = matches u.password_hash
    where
      matches : Option String → Bool
      matches none = false
      matches (some h) = is_truthy_text (some h) && sec.bcrypt_compare pass h

  -- the user with the address, if the password is theirs
  unfoldable pub validate_user : String → String → Exec Accounts (Option User)
  unfolding password_matches
  validate_user email pass =
      gets λ a. checked (find_user (λ u. u.email ≟ sec.trimmed_lower email) a)
    where
      checked : Option User → Option User
      checked none = none
      checked (some u) = if password_matches pass u then some (without_secrets u) else none

  unfoldable pub login : ℕ → ℕ → ℕ → User → Exec Accounts Tokens
  login now jti family user = do
    tokens ← issue_tokens sec now jti family user
    modify (λ a. record a {
      users =
          update_where (λ u. u.id == user.id) (λ u. record u { last_login_at = some now }) a.users;
    })
    pure tokens

  unfoldable pub get_user : ℕ → Exec Accounts User
  get_user id = do
    found ← gets (find_user (λ u. u.id == id))
    user ← or_throw found (unauthorized "User not found")
    pure (without_secrets user)

  abbrev new_user : ℕ → String → User
  new_user id email = record {
    id = id;
    email = email;
    password_hash = none;
    google_id = none;
    first_name = "";
    last_name = "";
    phone = none;
    avatar_url = none;
    is_active = true;
    email_verified = false;
    role = staff;
    last_login_at = none;
    password_reset_token = none;
    password_reset_expires = none;
    invite_token = none;
    invite_expires = none;
  }

  unfoldable pub register : ℕ → ℕ → ℕ → ℕ → String → RegisterDto → Exec Accounts Tokens
  register now id jti family salt dto = do
    existing ← gets (find_user (λ u. u.email ≟ sec.trimmed_lower dto.email))
    throw_if (is_some existing) (conflict "Email already registered")
    let user = record (new_user id (sec.trimmed_lower dto.email)) {
      password_hash = some (sec.bcrypt_hash salt dto.password);
      first_name = dto.first_name;
      last_name = dto.last_name;
      phone = dto.phone;
    }
    modify (save_user user)
    issue_tokens sec now jti family user

  -- the user with the Google account, else the one with the address, else a new one; with whether
  -- the row changes
  pub google_user : ℕ → Profile → Accounts → User × Bool
  google_user id p a =
      by_google (find_user (λ u. is_text u.google_id p.google_id) a)
        (find_user (λ u. u.email ≟ sec.trimmed_lower p.email) a)
    where
      by_google : Option User → Option User → User × Bool
      by_google (some u) _ = (u, false)
      by_google none (some u) = (
        record u {
          google_id = some p.google_id;
          avatar_url =
              if not (is_truthy_text u.avatar_url) && is_truthy_text p.avatar
              then p.avatar
              else u.avatar_url;
        },
        true,
      )
      by_google none none = (
        record (new_user id (sec.trimmed_lower p.email)) {
          first_name = p.first_name;
          last_name = p.last_name;
          google_id = some p.google_id;
          avatar_url = p.avatar;
          email_verified = true;
        },
        true,
      )

  unfoldable pub find_or_create_google_user : ℕ → ℕ → ℕ → ℕ → Profile → Exec Accounts Tokens
  unfolding google_user
  find_or_create_google_user now id jti family p = do
    chosen ← gets (google_user id p)
    modify (λ a. if chosen.1 then save_user chosen.0 a else a)
    login now jti family chosen.0

  -- Nothing tells whether the address is registered.
  unfoldable pub forgot_password : ℕ → String → String → Exec Accounts (Unit {0})
  forgot_password now token email =
      modify λ a. remember a (find_user (λ u. u.email ≟ sec.trimmed_lower email) a)
    where
      remember : Accounts → Option User → Accounts
      remember a none = a
      remember a (some u) =
          let saved =
            save_user
              (record u {
                password_reset_token = some (sec.sha256 token);
                password_reset_expires = some (now + reset_ttl);
              })
              a in
          record saved {
            mails =
                push saved.mails
                  (record { to = u.email; first_name = u.first_name; token = token });
          }

  unfoldable pub reset_password : ℕ → String → Option String → String → Exec Accounts (Unit {0})
  reset_password now salt token new_password = do
    found ← gets (find_user (λ u. is_text u.password_reset_token (sec.sha256 (or_else token ""))))
    user ← or_throw found (bad_request "Invalid or expired reset token")
    throw_if (past now user.password_reset_expires) (bad_request "Invalid or expired reset token")
    modify (
        save_user (record user {
          password_hash = some (sec.bcrypt_hash salt new_password);
          password_reset_token = none;
          password_reset_expires = none;
        }))
    modify (revoke_all_for_user now user.id)

  unfoldable pub accept_invite : ℕ → ℕ → ℕ → String → Option String → String → Exec Accounts Tokens
  accept_invite now jti family salt token password = do
    found ← gets (find_user (λ u. is_text u.invite_token (sec.sha256 (or_else token ""))))
    user ← or_throw found (bad_request "Invalid or expired invite token")
    throw_if (past now user.invite_expires) (bad_request "Invalid or expired invite token")
    let accepted = record user {
      password_hash = some (sec.bcrypt_hash salt password);
      invite_token = none;
      invite_expires = none;
      email_verified = true;
      is_active = true;
    }
    modify (save_user accepted)
    login now jti family accepted
