-- ===== src/Tests/Sessions.antt =====
-- Sessions of one user: a toy of JSON Web Tokens that spells the two numbers in unary, and calls on it.
use text.Mathlib.Text.{◌==◌ as ◌≟◌}
use Prim.Native.Char.{Char, char, code}
use property_os.Common.{
  push, ℕ, zero, suc, ◌≡◌, refl, ap, String, true, none, some, [], ◌∷◌, ◌==◌, if◌then◌else◌, arith,
}
use property_os.Service.{thrown, ok, unauthorized, bad_request}
use property_os.Auth.{ResetMail, User, owner, RefreshToken, Accounts, Security, Tokens}
use property_os.Auth.Sessions.{refresh_tokens, new_tokens}
use property_os.Auth.Logins.{reset_password, forgot_password, validate_user}
use property_os.Auth.Exchange.{exchange_google_code}
use property_os.Auth.Steps.{Change, here, next, act, refreshes, logs_out, purges}
use property_os.Auth.Machine.{act-Change}
use property_os.Auth.Once.{IsJwt, Refused, used_once, reuse_revokes}
use property_os.Auth.Families.{IsSound, one_live_token}
use property_os.Auth.RoundTrip.{IsBcrypt, forgotten_password_lem}
use property_os.Auth.Reset.{refreshed_again, reset_ends_sessions}
use property_os.Auth.Exchange.{code_once}

abbrev unary : ℕ → Char → String → String
unary zero c s = s
unary (suc n) c s = String.◌∷◌ c (unary n c s)

abbrev letter_s : Char
letter_s = char 115 tt

abbrev letter_j : Char
letter_j = char 106 tt

abbrev count_code : ℕ → String → ℕ
count_code n String.[] = 0
count_code n (String.◌∷◌ c s) = let rest = count_code n s in if code c == n then suc rest else rest

abbrev toy : Security
toy = record {
  verify_refresh = λ now token.
      some (record { jti = some (count_code 106 token); sub = some (count_code 115 token) });
  sign_access = λ now email id role. email;
  sign_refresh = λ now sub jti family. unary sub letter_s (unary jti letter_j String.[]);
  sha256 = λ s. s;
  bcrypt_hash = λ salt s. "hash";
  bcrypt_compare = λ s hash. hash ≟ "hash";
  trimmed_lower = λ s. s;
}

count_jti : (sub jti : ℕ) → count_code 106 (unary sub letter_s (unary jti letter_j String.[])) ≡ jti
count_jti zero zero = refl
count_jti zero (suc jti) = ap suc (count_jti 0 jti)
count_jti (suc sub) jti = count_jti sub jti

count_sub : (sub jti : ℕ) → count_code 115 (unary sub letter_s (unary jti letter_j String.[])) ≡ sub
count_sub zero zero = refl
count_sub zero (suc jti) = count_sub 0 jti
count_sub (suc sub) jti = ap suc (count_sub sub jti)

toy-IsJwt : IsJwt toy
toy-IsJwt = record {
  stable = λ now later token p q e f. cc (e, f);
  signed = λ now later sub jti family t. rw (count_jti sub jti, count_sub sub jti) refl;
}

abbrev thandi : User
thandi = record {
  id = 2;
  email = "thandi@example.com";
  password_hash = some "secret";
  google_id = none;
  first_name = "Thandi";
  last_name = "Nkosi";
  phone = none;
  avatar_url = none;
  is_active = true;
  email_verified = true;
  role = owner;
  last_login_at = none;
  password_reset_token = some "reset";
  password_reset_expires = some 5000;
  invite_token = none;
  invite_expires = none;
}

abbrev session : RefreshToken
session = record {
  id = 1;
  user_id = 2;
  family_id = 1;
  token_hash = "ssj";
  expires_at = 9000;
  revoked_at = none;
  replaced_by = none;
}

abbrev site : Accounts
site = record {
  users = thandi ∷ [];
  refresh_tokens = session ∷ [];
  google_codes =
      record {
        code = "c0de";
        tokens = record { access_token = "a"; refresh_token = "ssj"; expires_in = 900 };
        expires = 2000;
      }
      ∷ [];
  mails = [];
}

abbrev ended : RefreshToken
ended = record session { revoked_at = some 100; replaced_by = some 4 }

site-IsSound : IsSound site.refresh_tokens
site-IsSound = record { distinct = (tt, tt); single = λ f. ground arith }

act-Change_example : Change 1 (session ∷ []) (act toy (refreshes 100 4 "ssj") site).refresh_tokens
act-Change_example =
    act-Change toy 1 (refreshes 100 4 "ssj") site
      (record { unused = ((λ e. cc e), tt); other = λ e. cc e })

used_once_example :
    Refused
      (refresh_tokens toy 300 5 "ssj"
        (act toy (logs_out 200 (some "ssjjjj")) (refresh_tokens toy 100 4 "ssj" site).1)).0
unfolding refresh_tokens
used_once_example =
    used_once toy toy-IsJwt 100 300 4 5 1 "ssj" site _ _ _ ((tt, tt)) refl refl refl
      (next (logs_out 200 (some "ssjjjj")) here tt)

reuse_revokes_example :
    (refresh_tokens toy 200 5 "ssj" (record site { refresh_tokens = ended ∷ [] })).0
    ≡ thrown (unauthorized "Refresh token reuse detected")
reuse_revokes_example =
    (reuse_revokes toy 200 5 1 2 "ssj" (record { jti = some 1; sub = some 2 }) ended
      (record site { refresh_tokens = ended ∷ [] }) refl refl refl refl refl).0

one_live_token_example :
    IsSound (act toy (purges 300) (act toy (logs_out 200 (some "ssj")) site)).refresh_tokens
one_live_token_example =
    one_live_token toy 7 site-IsSound
      (next (purges 300) (next (logs_out 200 (some "ssj")) here tt) tt)

refreshed_again_example :
    (again : Tokens) × ((refresh_tokens toy 5000 6 "ssjjjj"
        (refresh_tokens toy 100 4 "ssj" site).1).0
      ≡ ok again)
unfolding refresh_tokens
refreshed_again_example =
    refreshed_again toy toy-IsJwt 100 5000 4 6 "ssj" site (new_tokens toy 100 4 1 thandi) (tt, tt)
      ((λ e. cc e), tt) refl (omega arith)

reset_ends_sessions_example :
    (reset_password toy 700 "salt"
      (some "reset")
      "other"
      (reset_password toy 600 "salt" (some "reset") "new" site).1).0
    ≡ thrown (bad_request "Invalid or expired reset token")
unfolding reset_password
reset_ends_sessions_example =
    (reset_ends_sessions toy 600 700 "salt" "reset" "new" "salt" "other" site thandi refl (tt, tt)
      ((λ e. refl), tt) refl).1

code_once_example :
    (exchange_google_code 1100 "c0de" (exchange_google_code 1000 "c0de" site).1).0
    ≡ thrown (bad_request "Invalid or expired code")
unfolding exchange_google_code
code_once_example =
    (code_once 1000 1100 "c0de" site
      (record { access_token = "a"; refresh_token = "ssj"; expires_in = 900 }) refl).1

toy-IsBcrypt : IsBcrypt toy
toy-IsBcrypt = record { matches = λ salt pass. refl; not_empty = λ salt pass. refl }

forgotten_password_lem_example :
    let mailed = (forgot_password toy 100 "fresh" "thandi@example.com" site).1 in
    (mail : ResetMail) × (mailed.mails ≡ push site.mails mail)
    × (mail.to ≡ "thandi@example.com")
    × let out = reset_password toy 200 "salt" (some mail.token) "new" mailed in
      (out.0 ≡ ok tt)
      × (u : User) × ((validate_user toy "thandi@example.com" "new" out.1).0 ≡ ok (some u))
      × (u.id ≡ 2)
forgotten_password_lem_example =
    forgotten_password_lem toy toy-IsBcrypt 100 200 "salt" "fresh" "thandi@example.com" "new" site
      thandi refl (tt, tt) (refl, tt) (omega arith)
