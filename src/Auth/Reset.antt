-- ===== src/Auth/Reset.antt =====
-- What follows a password reset, and what follows a refresh.
use text.Mathlib.TextEquality.{eq_iff}
use property_os.Common.{
  ℕ, ◌+◌, ◌≤◌, String, ◌≡◌, ◌≢◌, refl, sym, ap, Bool, true, false, ◌&&◌, Option, none, some, List,
  [], ◌∷◌, In, All, save, inl, inr, Bool-cases, arith, ◌==◌, ==_iff, Distinct, Distinct-save,
  Unused, In-save, In-save_other, find_one-Distinct, find_one, find_one-In, ltb, All-In, All-weaken,
  All-save_over,
}
use property_os.Service.{Result, ok, thrown, bad_request}
use property_os.Auth.{
  RefreshToken, User, Payload, Tokens, Accounts, Security, token_key, user_key, is_text,
}
use property_os.Auth.Sessions.{
  is_live, new_row, new_tokens, refresh_ttl, refresh_tokens, refresh_row, create_session,
}
use property_os.Auth.Logins.{reset_password, past}
use property_os.Auth.Once.{Accepted, IsJwt, revoked-All, refresh_tokens-cases}

module _ (sec : Security) where
  new_row-In :
      (now jti : ℕ) (token : String) (a : Accounts) (x : Accepted sec now jti token a)
      → Unused token_key jti a.refresh_tokens
      → In
          (new_row sec now jti x.row.family_id x.user)
          (refresh_tokens sec now jti token a).1.refresh_tokens
  new_row-In now jti token a x u =
      let row = new_row sec now jti x.row.family_id x.user in
      let found =
        find_one-In (λ (r : RefreshToken). r.id == x.presented) a.refresh_tokens x.stored in
      let other = All-In (λ r. token_key r ≢ jti) a.refresh_tokens u found.0 in
      rw x.result (
        In-save_other token_key _ row _ (λ e. other (sym e))
          (In-save token_key row a.refresh_tokens))

  new_row-found :
      (now jti : ℕ) (token : String) (a : Accounts) (x : Accepted sec now jti token a)
      → Distinct token_key a.refresh_tokens
      → Unused token_key jti a.refresh_tokens
      → find_one
          (λ (r : RefreshToken). r.id == jti)
          (refresh_tokens sec now jti token a).1.refresh_tokens
        ≡ some (new_row sec now jti x.row.family_id x.user)
  new_row-found now jti token a x d u =
      let distinct : Distinct token_key (refresh_tokens sec now jti token a).1.refresh_tokens =
        rw x.result (Distinct-save token_key _ _ (Distinct-save token_key _ a.refresh_tokens d)) in
      find_one-Distinct token_key (new_row sec now jti x.row.family_id x.user) _ distinct
        (new_row-In now jti token a x u)

  -- When every check of a refresh passes, it returns.
  refresh_tokens_ok :
      (now jti k sub : ℕ) (token : String) (p : Payload) (row : RefreshToken) (user : User)
      (b : Accounts)
      → sec.verify_refresh now token ≡ some p
      → p.jti ≡ some k
      → p.sub ≡ some sub
      → find_one (λ (r : RefreshToken). r.id == k) b.refresh_tokens ≡ some row
      → row.revoked_at ≡ none
      → now ≤ row.expires_at
      → row.token_hash ≡ sec.sha256 token
      → find_one (λ (u : User). u.id == sub) b.users ≡ some user
      → user.is_active ≡ true
      → (refresh_tokens sec now jti token b).0 ≡ ok (new_tokens sec now jti row.family_id user)
  unfolding refresh_tokens refresh_row create_session
  refresh_tokens_ok now jti k sub token p row user b v e f g live time hash account active =
      let fresh : ltb row.expires_at now ≡ false = ground arith in
      let genuine = (eq_iff row.token_hash (sec.sha256 token)).1 hash in
      simp (v, e, f, g, live, fresh, genuine, account, active)

  -- The refresh token that a refresh returns can itself be refreshed, at any time within its seven
  -- days, less the second that the rounding of tokens to seconds can cost: the chain of sessions
  -- does not break off by itself. The stored identifiers have to be distinct and the drawn one new.
  pub refreshed_again :
      (jwt : IsJwt sec) (now later jti next_jti : ℕ) (token : String) (a : Accounts)
      (tokens : Tokens)
      → Distinct token_key a.refresh_tokens
      → Unused token_key jti a.refresh_tokens
      → (refresh_tokens sec now jti token a).0 ≡ ok tokens
      → later + 1000 ≤ now + refresh_ttl
      → (again : Tokens) × ((refresh_tokens sec later next_jti tokens.refresh_token
            (refresh_tokens sec now jti token a).1).0
          ≡ ok again)
  refreshed_again jwt now later jti next_jti token a tokens d u h t =
      elim (refresh_tokens-cases sec now jti token a) [
        | inl (m, f) ↦ absurd (cc (f, h))
        | inr x ↦
            let same : tokens ≡ new_tokens sec now jti x.row.family_id x.user =
              cc (h, ap (λ (o : Result Tokens × Accounts). o.0) x.result) in
            let owner = find_one-In (λ (u : User). u.id == x.sub) a.users x.account in
            let named : x.user.id ≡ x.sub = (==_iff _ _).0 owner.1 in
            (
              _,
              refresh_tokens_ok later next_jti jti x.user.id tokens.refresh_token _ _ x.user _
                  (rw same (jwt.signed now later x.user.id jti x.row.family_id t)) refl refl
                  (new_row-found now jti token a x d u) refl (omega (arith, t)) (rw same refl)
                  (rw x.result (simp named x.account)) x.active,
            )
      ]

  -- the user whom a reset token belongs to
  abbrev pub reset_owner : String → Accounts → Option User
  reset_owner token a =
      find_one (λ (u : User). is_text u.password_reset_token (sec.sha256 token)) a.users

  none_matches :
      (p : User → Bool) (users : List User) → All (λ u. p u ≡ false) users → find_one p users ≡ none
  none_matches p [] h = refl
  none_matches p (u ∷ users) h = ground (arith, h.0, none_matches p users h.1)

  no_owner :
      (hash : String) (changed : User) (users : List User)
      → is_text changed.password_reset_token hash ≡ false
      → All (λ u. is_text u.password_reset_token hash ≡ true → u.id ≡ changed.id) users
      → Distinct user_key users
      → find_one (λ (u : User). is_text u.password_reset_token hash) (save user_key changed users)
        ≡ none
  no_owner hash changed users n h d = none_matches _ (save user_key changed users) (
      All-save_over user_key (λ u. is_text u.password_reset_token hash ≡ false) changed users d n
        (All-weaken
          (λ u one other. elim (Bool-cases (is_text u.password_reset_token hash)) [
            | inl e ↦ absurd (other (one e))
            | inr e ↦ e
          ])
          users h))

  -- A password reset that returns ends every session of the user whom the token belongs to, whatever
  -- the sessions are, and uses the token up: the same token is refused afterwards, at any time. The
  -- users have distinct keys, and no other user may hold the same token.
  pub reset_ends_sessions :
      (now later : ℕ) (salt token pass next_salt next : String) (a : Accounts) (user : User)
      → reset_owner token a ≡ some user
      → Distinct user_key a.users
      → All (λ u. is_text u.password_reset_token (sec.sha256 token) ≡ true → u.id ≡ user.id) a.users
      → (reset_password sec now salt (some token) pass a).0 ≡ ok tt
      → All
          (λ r. (r.user_id == user.id && is_live r) ≡ false)
          (reset_password sec now salt (some token) pass a).1.refresh_tokens
        × ((reset_password sec later next_salt
              (some token)
              next
              (reset_password sec now salt (some token) pass a).1).0
            ≡ thrown (bad_request "Invalid or expired reset token"))
  unfolding reset_password
  reset_ends_sessions now later salt token pass next_salt next a user e d alone h =
      elim (Bool-cases (past now user.password_reset_expires)) [
        | inl l ↦ absurd (cc (rw (e, l) at h))
        | inr l ↦
            simp (e, l)
              (
                revoked-All (λ r. r.user_id == user.id) now a.refresh_tokens,
                simp
                    (no_owner (sec.sha256 token)
                      (record user {
                        password_hash = some (sec.bcrypt_hash salt pass);
                        password_reset_token = none;
                        password_reset_expires = none;
                      })
                      a.users refl alone d)
                    refl,
              )
      ]
