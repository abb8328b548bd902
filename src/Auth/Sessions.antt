-- ===== src/Auth/Sessions.antt =====
-- The sessions of modules/auth/auth.service.ts: `issueTokens`, `createSession`, `refreshTokens`,
-- `logout`, `revokeFamily`, `revokeAllForUser` and `purgeExpiredRefreshTokens`.
use text.Mathlib.Text.{◌==◌ as ◌≟◌}
use property_os.Common.{
  ℕ, ◌+◌, String, Bool, not, ◌&&◌, Option, none, some, is_some, find_one, save, update_where,
  filter, ltb, ◌==◌, if◌then◌else◌,
}
use property_os.Service.{
  Exec, pure, throw, or_throw, throw_if, gets, modify, ◌>>=◌, ◌>>◌, unauthorized, is_truthy_text,
}
use property_os.Auth.{User, RefreshToken, Tokens, Accounts, Payload, Security, token_key}

-- seven days in milliseconds
abbrev pub refresh_ttl : ℕ
refresh_ttl = 604_800_000

abbrev pub is_live : RefreshToken → Bool
is_live r = not (is_some r.revoked_at)

abbrev pub revoked : ℕ → RefreshToken → RefreshToken
revoked now r = record r { revoked_at = some now }

abbrev pub revoke_family : ℕ → ℕ → Accounts → Accounts
revoke_family now family a = record a {
  refresh_tokens =
      update_where (λ r. r.family_id == family && is_live r) (revoked now) a.refresh_tokens;
}

abbrev pub revoke_all_for_user : ℕ → ℕ → Accounts → Accounts
revoke_all_for_user now user a = record a {
  refresh_tokens =
      update_where (λ r. r.user_id == user && is_live r) (revoked now) a.refresh_tokens;
}

abbrev pub save_token : RefreshToken → Accounts → Accounts
save_token r a = record a { refresh_tokens = save token_key r a.refresh_tokens }

-- Rows that expired more than seven days ago are dropped.
unfoldable pub purge_expired_refresh_tokens : ℕ → Exec Accounts (Unit {0})
purge_expired_refresh_tokens now = modify (λ a. record a {
  refresh_tokens = filter (λ r. not (ltb (r.expires_at + refresh_ttl) now)) a.refresh_tokens;
})

module _ (sec : Security) where
  -- the refresh token of a new session
  abbrev pub new_refresh : ℕ → ℕ → ℕ → User → String
  new_refresh now jti family user = sec.sign_refresh now user.id jti family

  abbrev pub new_row : ℕ → ℕ → ℕ → User → RefreshToken
  new_row now jti family user = record {
    id = jti;
    user_id = user.id;
    family_id = family;
    token_hash = sec.sha256 (new_refresh now jti family user);
    expires_at = now + refresh_ttl;
    revoked_at = none;
    replaced_by = none;
  }

  abbrev pub new_tokens : ℕ → ℕ → ℕ → User → Tokens
  new_tokens now jti family user = record {
    access_token = sec.sign_access now user.email user.id user.role;
    refresh_token = new_refresh now jti family user;
    expires_in = 900;
  }

  -- `jti` is the random identifier that the call draws.
  unfoldable pub create_session : ℕ → ℕ → User → ℕ → Exec Accounts Tokens
  create_session now jti user family = do
    modify (save_token (new_row now jti family user))
    pure (new_tokens now jti family user)

  -- `jti` and `family` are random.
  unfoldable pub issue_tokens : ℕ → ℕ → ℕ → User → Exec Accounts Tokens
  unfolding create_session
  issue_tokens now jti family user = create_session now jti user family

  -- A revoked token that is presented again, or one whose text is not the stored one, gives its
  -- family away.
  abbrev reject_reuse : ℕ → RefreshToken → Exec Accounts (Unit {0})
  reject_reuse now row =
      if is_some row.revoked_at
      then modify (revoke_family now row.family_id)
        >> throw (unauthorized "Refresh token reuse detected")
      else pure tt

  abbrev reject_forged : ℕ → String → RefreshToken → Exec Accounts (Unit {0})
  reject_forged now refresh_token row =
      if row.token_hash ≟ sec.sha256 refresh_token
      then pure tt
      else modify (revoke_family now row.family_id) >> throw (unauthorized "Invalid refresh token")

  -- The checks of `refreshTokens` on the stored row, and the rotation within its family.
  unfoldable pub refresh_row : ℕ → ℕ → String → ℕ → RefreshToken → Exec Accounts Tokens
  unfolding create_session
  refresh_row now jti refresh_token sub row = do
    reject_reuse now row
    throw_if (ltb row.expires_at now) (unauthorized "Refresh token expired")
    reject_forged now refresh_token row
    account ← gets (λ a. find_one (λ u. u.id == sub) a.users)
    user ← or_throw account (unauthorized "Invalid refresh token")
    throw_if (not user.is_active) (unauthorized "Invalid refresh token")
    tokens ← create_session now jti user row.family_id
    modify (save_token (record row { revoked_at = some now; replaced_by = some jti }))
    pure tokens

  -- `jti` is the random identifier of the session that follows.
  unfoldable pub refresh_tokens : ℕ → ℕ → String → Exec Accounts Tokens
  unfolding refresh_row
  refresh_tokens now jti refresh_token = do
    payload ←
        or_throw (sec.verify_refresh now refresh_token)
          (unauthorized "Invalid or expired refresh token")
    presented ← or_throw payload.jti (unauthorized "Invalid refresh token")
    sub ← or_throw payload.sub (unauthorized "Invalid refresh token")
    found ← gets (λ a. find_one (λ r. r.id == presented) a.refresh_tokens)
    row ← or_throw found (unauthorized "Invalid refresh token")
    refresh_row now jti refresh_token sub row

  unfoldable pub live_row : Option RefreshToken → ℕ → Accounts → Accounts
  live_row none now a = a
  live_row (some row) now a = if is_live row then revoke_family now row.family_id a else a

  unfoldable pub revoke_presented : ℕ → Option Payload → Accounts → Accounts
  unfolding live_row
  revoke_presented now none a = a
  revoke_presented now (some p) a = by_jti p.jti
    where
      by_jti : Option ℕ → Accounts
      by_jti none = a
      by_jti (some k) = live_row (find_one (λ r. r.id == k) a.refresh_tokens) now a

  -- An invalid token is ignored.
  unfoldable pub logout : ℕ → Option String → Exec Accounts (Unit {0})
  unfolding revoke_presented
  logout now none = pure tt
  logout now (some refresh_token) =
      if is_truthy_text (some refresh_token)
      then modify (revoke_presented now (sec.verify_refresh now refresh_token))
      else pure tt
