-- ===== src/Auth/RoundTrip.antt =====
-- A forgotten password, from the mail to the next login.
use text.Mathlib.Text.{◌==◌ as ◌≟◌}
use text.Mathlib.TextEquality.{eq_iff}
use property_os.Common.{
  ℕ, ◌+◌, ◌≤◌, ◌≡◌, refl, String, Bool, true, false, none, some, All, arith, find_one, save,
  Distinct, Distinct-save, find_one-save, find_one-save_only, find_one-In, ltb, push,
}
use property_os.Service.{ok, is_truthy_text}
use property_os.Auth.{User, Accounts, ResetMail, Security, user_key, is_text}
use property_os.Auth.Logins.{
  forgot_password, reset_password, validate_user, reset_ttl, past, without_secrets,
  password_matches,
}

-- bcrypt: a password matches its own hash, which is not empty
pub record IsBcrypt (sec : Security) : Type 0 where
  pub matches : (salt pass : String) → sec.bcrypt_compare pass (sec.bcrypt_hash salt pass) ≡ true
  pub not_empty : (salt pass : String) → is_truthy_text (some (sec.bcrypt_hash salt pass)) ≡ true

module _ (sec : Security) where
  abbrev pub by_email : String → User → Bool
  by_email email u = u.email ≟ sec.trimmed_lower email

  -- the user with the reset token, and with the new password
  abbrev pub remembering : ℕ → String → User → User
  remembering now token u = record u {
    password_reset_token = some (sec.sha256 token);
    password_reset_expires = some (now + reset_ttl);
  }

  abbrev pub renewed : String → String → User → User
  renewed salt pass u = record u {
    password_hash = some (sec.bcrypt_hash salt pass);
    password_reset_token = none;
    password_reset_expires = none;
  }

  forgot_users :
      (now : ℕ) (token email : String) (a : Accounts) (user : User)
      → find_one (by_email email) a.users ≡ some user
      → (forgot_password sec now token email a).1.users
        ≡ save user_key (remembering now token user) a.users
  unfolding forgot_password
  forgot_users now token email a user e = simp e

  forgot_mails :
      (now : ℕ) (token email : String) (a : Accounts) (user : User)
      → find_one (by_email email) a.users ≡ some user
      → (forgot_password sec now token email a).1.mails
        ≡ push a.mails (record { to = user.email; first_name = user.first_name; token = token })
  unfolding forgot_password
  forgot_mails now token email a user e = simp e

  reset_users :
      (later : ℕ) (salt token pass : String) (b : Accounts) (owner : User)
      → find_one (λ (u : User). is_text u.password_reset_token (sec.sha256 token)) b.users
        ≡ some owner
      → past later owner.password_reset_expires ≡ false
      → ((reset_password sec later salt (some token) pass b).0 ≡ ok tt)
        × ((reset_password sec later salt (some token) pass b).1.users
            ≡ save user_key (renewed salt pass owner) b.users)
  unfolding reset_password
  reset_users later salt token pass b owner e l = simp (e, l) (refl, refl)

  validated :
      (email pass : String) (b : Accounts) (u : User)
      → find_one (by_email email) b.users ≡ some u
      → password_matches sec pass u ≡ true
      → (validate_user sec email pass b).0 ≡ ok (some (without_secrets u))
  unfolding validate_user
  validated email pass b u e m = simp (e, m)

  -- Who forgot a password gets back in: `forgotPassword` for the address of a user sends one mail, to
  -- the user; the token in that mail resets the password at any time within the hour, and the address
  -- with the new password is then accepted, as the same user. The users have distinct keys, and the
  -- hash of the drawn token is new.
  pub forgotten_password_lem :
      (law : IsBcrypt sec) (now later : ℕ) (salt token email pass : String) (a : Accounts)
      (user : User)
      → find_one (by_email email) a.users ≡ some user
      → Distinct user_key a.users
      → All (λ u. is_text u.password_reset_token (sec.sha256 token) ≡ false) a.users
      → later ≤ now + reset_ttl
      → let mailed = (forgot_password sec now token email a).1 in
        (mail : ResetMail) × (mailed.mails ≡ push a.mails mail)
        × (mail.to ≡ user.email)
        × let out = reset_password sec later salt (some mail.token) pass mailed in
          (out.0 ≡ ok tt)
          × (u : User) × ((validate_user sec email pass out.1).0 ≡ ok (some u))
          × (u.id ≡ user.id)
  unfolding password_matches
  forgotten_password_lem law now later salt token email pass a user e d fresh time =
      let b = (forgot_password sec now token email a).1 in
      let changed = forgot_users now token email a user e in
      let owner = remembering now token user in
      let matched = (find_one-In (by_email email) a.users e).1 in
      let found : find_one (λ (u : User). is_text u.password_reset_token (sec.sha256 token)) b.users
          ≡ some owner =
        rw changed (
          find_one-save_only user_key _ owner a.users fresh
            ((eq_iff (sec.sha256 token) (sec.sha256 token)).1 refl)) in
      let in_time : ltb (now + reset_ttl) later ≡ false = ground (arith, time) in
      let reset = reset_users later salt token pass b owner found in_time in
      let mailed : find_one (by_email email) b.users ≡ some owner =
        rw changed (find_one-save user_key _ owner user a.users d e refl matched) in
      let distinct : Distinct user_key b.users =
        rw changed (Distinct-save user_key owner a.users d) in
      let last : find_one (by_email email)
            (reset_password sec later salt (some token) pass b).1.users
          ≡ some (renewed salt pass owner) =
        rw reset.1 (
          find_one-save user_key _ (renewed salt pass owner) owner b.users distinct mailed refl
            matched) in
      (
        record { to = user.email; first_name = user.first_name; token = token },
        forgot_mails now token email a user e,
        refl,
        (
          reset.0,
          without_secrets (renewed salt pass owner),
          validated email pass _ _ last (rw (law.not_empty salt pass, law.matches salt pass) refl),
          refl,
        ),
      )
