-- ===== src/Auth/Steps.antt =====
-- The calls of modules/auth/auth.service.ts as actions on its state, and what they do to the table of
-- refresh tokens, as a machine of sessions.
use property_os.Common.{
  ℕ, String, ◌≡◌, ◌≢◌, Bool, true, Option, some, List, In, All, save, update_where, filter, Unused,
}
use property_os.Auth.{User, RefreshToken, Tokens, Accounts, Security, token_key}
use property_os.Auth.Sessions.{
  is_live, revoked, refresh_tokens, logout, purge_expired_refresh_tokens,
}
use property_os.Auth.Logins.{
  Profile, RegisterDto, login, register, find_or_create_google_user, forgot_password,
  reset_password, accept_invite,
}
use property_os.Auth.Exchange.{create_google_exchange_code, exchange_google_code}

pub data Action : Type 0 where
  logs_in : (now jti family : ℕ) → User → Action
  refreshes : (now jti : ℕ) → String → Action
  logs_out : (now : ℕ) → Option String → Action
  registers : (now id jti family : ℕ) → String → RegisterDto → Action
  comes_from_google : (now id jti family : ℕ) → Profile → Action
  forgets : (now : ℕ) → String → String → Action
  resets : (now : ℕ) → String → Option String → String → Action
  accepts : (now jti family : ℕ) → String → Option String → String → Action
  opens_code : (now : ℕ) → String → Tokens → Action
  trades_code : (now : ℕ) → String → Action
  purges : (now : ℕ) → Action

-- A random identifier is one that no row has, and is not `k` again.
pub record NewId (k jti : ℕ) (rows : List RefreshToken) : Type 0 where
  pub unused : Unused token_key jti rows
  pub other : jti ≢ k

pub record NewSession (k jti family : ℕ) (rows : List RefreshToken) : Type 0 where
  pub id : NewId k jti rows
  pub alone : All (λ r. r.family_id ≢ family) rows

-- The machine of sessions: one call leaves the table, revokes rows, drops rows, opens a session in a
-- family of its own, or replaces a live row by a new one of its family.
pub data Change (k : ℕ) (rows : List RefreshToken) : List RefreshToken → Type 0 where
  stay : Change k rows rows
  revoke : (p : RefreshToken → Bool) (now : ℕ) → Change k rows (update_where p (revoked now) rows)
  drop : (p : RefreshToken → Bool) → Change k rows (filter p rows)
  start :
      (row : RefreshToken)
      → NewSession k row.id row.family_id rows
      → Change k rows (save token_key row rows)
  rotate :
      (now : ℕ) (old row : RefreshToken)
      → In old rows
      → is_live old ≡ true
      → row.family_id ≡ old.family_id
      → NewId k row.id rows
      → Change k rows (
          save token_key
            (record old { revoked_at = some now; replaced_by = some row.id })
            (save token_key row rows))

module _ (sec : Security) where
  unfoldable pub act : Action → Accounts → Accounts
  act (logs_in now jti family user) a = (login sec now jti family user a).1
  act (refreshes now jti token) a = (refresh_tokens sec now jti token a).1
  act (logs_out now token) a = (logout sec now token a).1
  act (registers now id jti family salt dto) a = (register sec now id jti family salt dto a).1
  act (comes_from_google now id jti family p) a =
      (find_or_create_google_user sec now id jti family p a).1
  act (forgets now token email) a = (forgot_password sec now token email a).1
  act (resets now salt token pass) a = (reset_password sec now salt token pass a).1
  act (accepts now jti family salt token pass) a =
      (accept_invite sec now jti family salt token pass a).1
  act (opens_code now code tokens) a = (create_google_exchange_code now code tokens a).1
  act (trades_code now code) a = (exchange_google_code now code a).1
  act (purges now) a = (purge_expired_refresh_tokens now a).1

-- what the random draws of a call are
abbrev pub Draws : ℕ → Action → Accounts → Type 0
Draws k (logs_in now jti family user) a = NewSession k jti family a.refresh_tokens
Draws k (refreshes now jti token) a = NewId k jti a.refresh_tokens
Draws k (registers now id jti family salt dto) a = NewSession k jti family a.refresh_tokens
Draws k (comes_from_google now id jti family p) a = NewSession k jti family a.refresh_tokens
Draws k (accepts now jti family salt token pass) a = NewSession k jti family a.refresh_tokens
Draws k _ a = Unit

-- The states that calls reach, in any order.
pub data Reach (sec : Security) (k : ℕ) (a : Accounts) : Accounts → Type 0 where
  here : Reach sec k a a
  next : {b : Accounts} (x : Action) → Reach sec k a b → Draws k x b → Reach sec k a (act sec x b)
