-- ===== src/Auth/Machine.antt =====
-- The calls of modules/auth/auth.service.ts against the machine of sessions.
use text.Mathlib.Text.{◌==◌ as ◌≟◌}
use property_os.Common.{
  ℕ, String, refl, Option, none, some, In, find_one, find_one-In, ltb, inl, inr, Bool-cases,
  Option-cases, ◌==◌, or_else, if◌then◌else◌,
}
use property_os.Service.{is_truthy_text}
use property_os.Auth.{User, RefreshToken, Accounts, Security, Payload, is_text}
use property_os.Auth.Sessions.{
  is_live, create_session, issue_tokens, refresh_row, refresh_tokens, logout,
  purge_expired_refresh_tokens, live_row, revoke_presented,
}
use property_os.Auth.Logins.{
  Profile, RegisterDto, login, register, find_or_create_google_user, google_user, forgot_password,
  reset_password, accept_invite, past,
}
use property_os.Auth.Exchange.{
  create_google_exchange_code, exchange_google_code, entry_of, prune_google_codes,
}
use property_os.Auth.Steps.{
  Action, logs_in, refreshes, logs_out, registers, comes_from_google, forgets, resets, accepts,
  opens_code, trades_code, purges, Draws, act, NewId, NewSession, Change, stay, revoke, drop, start,
  rotate,
}

module _ (sec : Security) (k : ℕ) where
  abbrev After : Accounts → Accounts → Type 0
  After a b = Change k a.refresh_tokens b.refresh_tokens

  login-Change :
      (now jti family : ℕ) (user : User) (a : Accounts)
      → NewSession k jti family a.refresh_tokens
      → After a (login sec now jti family user a).1
  unfolding login issue_tokens create_session
  login-Change now jti family user a h = start _ h

  register-Change :
      (now id jti family : ℕ) (salt : String) (dto : RegisterDto) (a : Accounts)
      → NewSession k jti family a.refresh_tokens
      → After a (register sec now id jti family salt dto a).1
  unfolding register issue_tokens create_session
  register-Change now id jti family salt dto a h =
      elim (Option-cases (find_one (λ (u : User). u.email ≟ sec.trimmed_lower dto.email) a.users)) [
        | inl e ↦ rw e (start _ h)
        | inr (u, e) ↦ rw e stay
      ]

  google-Change :
      (now id jti family : ℕ) (p : Profile) (a : Accounts)
      → NewSession k jti family a.refresh_tokens
      → After a (find_or_create_google_user sec now id jti family p a).1
  unfolding find_or_create_google_user login issue_tokens create_session
  google-Change now id jti family p a h = elim (Bool-cases (google_user sec id p a).1) [
    | inl e ↦ rw e (start _ h)
    | inr e ↦ rw e (start _ h)
  ]

  forgot-Change :
      (now : ℕ) (token email : String) (a : Accounts)
      → After a (forgot_password sec now token email a).1
  unfolding forgot_password
  forgot-Change now token email a =
      elim (Option-cases (find_one (λ (u : User). u.email ≟ sec.trimmed_lower email) a.users)) [
        | inl e ↦ rw e stay
        | inr (u, e) ↦ rw e stay
      ]

  reset-Change :
      (now : ℕ) (salt : String) (token : Option String) (pass : String) (a : Accounts)
      → After a (reset_password sec now salt token pass a).1
  unfolding reset_password
  reset-Change now salt token pass a =
      elim (Option-cases (
        find_one (λ (u : User). is_text u.password_reset_token (sec.sha256 (or_else token "")))
          a.users)) [
            | inl e ↦ rw e stay
            | inr (u, e) ↦ elim (Bool-cases (past now u.password_reset_expires)) [
              | inl l ↦ rw (e, l) stay
              | inr l ↦ rw (e, l) (revoke _ now)
            ]
          ]

  accept-Change :
      (now jti family : ℕ) (salt : String) (token : Option String) (pass : String) (a : Accounts)
      → NewSession k jti family a.refresh_tokens
      → After a (accept_invite sec now jti family salt token pass a).1
  unfolding accept_invite login issue_tokens create_session
  accept-Change now jti family salt token pass a h =
      elim (Option-cases
        (find_one (λ (u : User). is_text u.invite_token (sec.sha256 (or_else token ""))) a.users)) [
          | inl e ↦ rw e stay
          | inr (u, e) ↦ elim (Bool-cases (past now u.invite_expires)) [
            | inl l ↦ rw (e, l) stay
            | inr l ↦ rw (e, l) (start _ h)
          ]
        ]

  live_row-Change :
      (row : Option RefreshToken) (now : ℕ) (a : Accounts) → After a (live_row sec row now a)
  unfolding live_row
  live_row-Change none now a = stay
  live_row-Change (some row) now a = elim (Bool-cases (is_live row)) [
    | inl e ↦ rw e (revoke _ now)
    | inr e ↦ rw e stay
  ]

  presented-Change :
      (now : ℕ) (p : Option Payload) (a : Accounts) → After a (revoke_presented sec now p a)
  unfolding revoke_presented
  presented-Change now none a = stay
  presented-Change now (some p) a = elim (Option-cases p.jti) [
    | inl e ↦ rw e stay
    | inr (j, e) ↦ rw e (live_row-Change (find_one (λ r. r.id == j) a.refresh_tokens) now a)
  ]

  logout-Change :
      (now : ℕ) (token : Option String) (a : Accounts) → After a (logout sec now token a).1
  unfolding logout
  logout-Change now none a = stay
  logout-Change now (some t) a = elim (Bool-cases (is_truthy_text (some t))) [
    | inl e ↦ rw (e, if◌then◌else◌) (presented-Change now (sec.verify_refresh now t) a)
    | inr e ↦ rw e stay
  ]

  refresh_row-Change :
      (now jti : ℕ) (token : String) (sub : ℕ) (row : RefreshToken) (a : Accounts)
      → NewId k jti a.refresh_tokens
      → In row a.refresh_tokens
      → After a (refresh_row sec now jti token sub row a).1
  unfolding refresh_row create_session
  refresh_row-Change now jti token sub row a h i = elim (Option-cases row.revoked_at) [
    | inr (t, e) ↦ rw e (revoke _ now)
    | inl e ↦ rw e (elim (Bool-cases (ltb row.expires_at now)) [
      | inl l ↦ rw l stay
      | inr l ↦ rw l (elim (Bool-cases (row.token_hash ≟ sec.sha256 token)) [
        | inr m ↦ rw m (revoke _ now)
        | inl m ↦ rw m (elim (Option-cases (find_one (λ (u : User). u.id == sub) a.users)) [
          | inl n ↦ rw n stay
          | inr (user, n) ↦ rw n (elim (Bool-cases user.is_active) [
            | inl o ↦ rw o (rotate now row _ i (rw e refl) refl h)
            | inr o ↦ rw o stay
          ])
        ])
      ])
    ])
  ]

  refresh-Change :
      (now jti : ℕ) (token : String) (a : Accounts)
      → NewId k jti a.refresh_tokens
      → After a (refresh_tokens sec now jti token a).1
  unfolding refresh_tokens
  refresh-Change now jti token a h = elim (Option-cases (sec.verify_refresh now token)) [
    | inl e ↦ rw e stay
    | inr (p, e) ↦ rw e (elim (Option-cases p.jti) [
      | inl l ↦ rw l stay
      | inr (j, l) ↦ rw l (elim (Option-cases p.sub) [
        | inl m ↦ rw m stay
        | inr (sub, m) ↦
            rw m
              (elim (Option-cases (find_one (λ (r : RefreshToken). r.id == j) a.refresh_tokens)) [
                | inl n ↦ rw n stay
                | inr (row, n) ↦ rw n (
                    refresh_row-Change now jti token sub row a h
                      (find_one-In _ a.refresh_tokens n).0)
              ])
      ])
    ])
  ]

  exchange-Change :
      (now : ℕ) (code : String) (a : Accounts) → After a (exchange_google_code now code a).1
  unfolding exchange_google_code
  exchange-Change now code a = elim (Option-cases (entry_of code (prune_google_codes now a))) [
    | inl e ↦ rw e stay
    | inr (x, e) ↦
        rw e (elim (Bool-cases (ltb x.expires now)) [ inl l ↦ rw l stay | inr l ↦ rw l stay ])
  ]

  -- Whatever a call of the service does to the table of refresh tokens is one move of the machine of
  -- sessions, when what it draws at random is new: it leaves the table, revokes rows, drops rows,
  -- starts a family of its own, or replaces one live row by a new one of its family.
  pub act-Change : (x : Action) (a : Accounts) → Draws k x a → After a (act sec x a)
  unfolding act create_google_exchange_code purge_expired_refresh_tokens
  act-Change (logs_in now jti family user) a h = login-Change now jti family user a h
  act-Change (refreshes now jti token) a h = refresh-Change now jti token a h
  act-Change (logs_out now token) a h = logout-Change now token a
  act-Change (registers now id jti family salt dto) a h =
      register-Change now id jti family salt dto a h
  act-Change (comes_from_google now id jti family p) a h = google-Change now id jti family p a h
  act-Change (forgets now token email) a h = forgot-Change now token email a
  act-Change (resets now salt token pass) a h = reset-Change now salt token pass a
  act-Change (accepts now jti family salt token pass) a h =
      accept-Change now jti family salt token pass a h
  act-Change (opens_code now code tokens) a h = stay
  act-Change (trades_code now code) a h = exchange-Change now code a
  act-Change (purges now) a h = drop _
