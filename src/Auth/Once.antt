-- ===== src/Auth/Once.antt =====
-- A refresh token that was used.
use text.Mathlib.Text.{◌==◌ as ◌≟◌}
use property_os.Common.{
  ℕ, ◌+◌, ◌≤◌, sym, ◌∙◌, ap, ◌&&◌, Distinct, Distinct-save, All-save_over, All-of_In, String, ◌≡◌,
  ◌⊎◌, refl, Bool, true, false, none, some, List, [], ◌∷◌, All, find_one, find_one-In, save,
  update_where, filter, ltb, inl, inr, Bool-cases, Option-cases, arith, ◌==◌, ==_iff, All-save,
  All-update_where, All-In,
}
use property_os.Service.{Result, ok, thrown, unauthorized}
use property_os.Auth.{User, RefreshToken, Tokens, Accounts, Security, Payload, token_key}
use property_os.Auth.Sessions.{
  is_live, revoked, refresh_ttl, refresh_row, refresh_tokens, create_session, new_row, new_tokens,
  save_token,
}
use property_os.Auth.Steps.{Reach, here, next, Change, stay, revoke, drop, start, rotate}
use property_os.Auth.Machine.{act-Change}

-- every stored row with the identifier is revoked
abbrev pub IsSpent : ℕ → RefreshToken → Type 0
IsSpent k r = r.id ≡ k → is_live r ≡ false

All-filter :
    (P : RefreshToken → Type 0) (p : RefreshToken → Bool) (rows : List RefreshToken)
    → All P rows
    → All P (filter p rows)
All-filter P p [] h = tt
All-filter P p (r ∷ rows) h = elim (Bool-cases (p r)) [
  | inl e ↦ rw e (h.0, All-filter P p rows h.1)
  | inr e ↦ rw e (All-filter P p rows h.1)
]

Change-IsSpent :
    {k : ℕ} {rows after : List RefreshToken}
    → Change k rows after
    → All (IsSpent k) rows
    → All (IsSpent k) after
Change-IsSpent stay h = h
Change-IsSpent {rows = rows} (revoke p now) h =
    All-update_where _ p (revoked now) rows (λ r e spent same. refl) h
Change-IsSpent {rows = rows} (drop p) h = All-filter _ p rows h
Change-IsSpent {rows = rows} (start row new) h =
    All-save token_key _ row rows (λ same. absurd (new.id.other same)) h
Change-IsSpent {rows = rows} (rotate now old row i live same new) h =
    All-save token_key _ _ (save token_key row rows) (λ e. refl)
      (All-save token_key _ row rows (λ e. absurd (new.other e)) h)

pub Reach-IsSpent :
    {sec : Security} {k : ℕ} {a b : Accounts}
    → All (IsSpent k) a.refresh_tokens
    → Reach sec k a b
    → All (IsSpent k) b.refresh_tokens
Reach-IsSpent h here = h
Reach-IsSpent {sec} {k} h (next {b} x r new) =
    Change-IsSpent (act-Change sec k x b new) (Reach-IsSpent h r)

-- What a refresh that returns has found and does.
pub record Accepted (sec : Security) (now jti : ℕ) (token : String) (a : Accounts) : Type 0 where
  pub payload : Payload
  pub presented : ℕ
  pub sub : ℕ
  pub row : RefreshToken
  pub user : User
  pub verified : sec.verify_refresh now token ≡ some payload
  pub by_jti : payload.jti ≡ some presented
  pub by_sub : payload.sub ≡ some sub
  pub stored : find_one (λ (r : RefreshToken). r.id == presented) a.refresh_tokens ≡ some row
  pub live : row.revoked_at ≡ none
  pub genuine : (row.token_hash ≟ sec.sha256 token) ≡ true
  pub account : find_one (λ (u : User). u.id == sub) a.users ≡ some user
  pub active : user.is_active ≡ true
  pub result : refresh_tokens sec now jti token a ≡ (
    ok (new_tokens sec now jti row.family_id user),
    save_token
        (record row { revoked_at = some now; replaced_by = some jti })
        (save_token (new_row sec now jti row.family_id user) a),
  )

-- the answer 401
abbrev pub Refused : Result Tokens → Type 0
Refused out = (message : String) × (out ≡ thrown (unauthorized message))

module _ (sec : Security) where
  refresh_row-cases :
      (now jti : ℕ) (token : String) (sub : ℕ) (row : RefreshToken) (a : Accounts)
      → Refused (refresh_row sec now jti token sub row a).0
        ⊎ ((user : User) × (row.revoked_at ≡ none)
            × ((row.token_hash ≟ sec.sha256 token) ≡ true)
            × (find_one (λ (u : User). u.id == sub) a.users ≡ some user)
            × (user.is_active ≡ true)
            × (refresh_row sec now jti token sub row a ≡ (
              ok (new_tokens sec now jti row.family_id user),
              save_token
                  (record row { revoked_at = some now; replaced_by = some jti })
                  (save_token (new_row sec now jti row.family_id user) a),
            )))
  unfolding refresh_row create_session
  refresh_row-cases now jti token sub row a = elim (Option-cases row.revoked_at) [
    | inr (t, e) ↦ rw e (inl (_, refl))
    | inl e ↦ rw e (elim (Bool-cases (ltb row.expires_at now)) [
      | inl l ↦ rw l (inl (_, refl))
      | inr l ↦ rw l (elim (Bool-cases (row.token_hash ≟ sec.sha256 token)) [
        | inr m ↦ rw m (inl (_, refl))
        | inl m ↦ rw m (elim (Option-cases (find_one (λ (u : User). u.id == sub) a.users)) [
          | inl n ↦ rw n (inl (_, refl))
          | inr (user, n) ↦ rw n (elim (Bool-cases user.is_active) [
            | inl o ↦ inr (user, refl, refl, refl, o, simp o)
            | inr o ↦ rw o (inl (_, refl))
          ])
        ])
      ])
    ])
  ]

  -- A refresh answers 401, or it found a live row and an active user and rotates the row.
  pub refresh_tokens-cases :
      (now jti : ℕ) (token : String) (a : Accounts)
      → Refused (refresh_tokens sec now jti token a).0 ⊎ Accepted sec now jti token a
  unfolding refresh_tokens
  refresh_tokens-cases now jti token a = elim (Option-cases (sec.verify_refresh now token)) [
    | inl e ↦ rw e (inl (_, refl))
    | inr (p, e) ↦ elim (Option-cases p.jti) [
      | inl l ↦ inl (simp (e, l) (_, refl))
      | inr (j, l) ↦ elim (Option-cases p.sub) [
        | inl m ↦ inl (simp (e, l, m) (_, refl))
        | inr (sub, m) ↦
            elim (Option-cases (find_one (λ (r : RefreshToken). r.id == j) a.refresh_tokens)) [
              | inl n ↦ inl (simp (e, l, m, n) (_, refl))
              | inr (row, n) ↦ elim (refresh_row-cases now jti token sub row a) [
                | inl (message, o) ↦ inl (message, simp (e, l, m, n) o)
                | inr (user, f, g, h, i, o) ↦ inr (record {
                  payload = p;
                  presented = j;
                  sub = sub;
                  row = row;
                  user = user;
                  verified = e;
                  by_jti = l;
                  by_sub = m;
                  stored = n;
                  live = f;
                  genuine = g;
                  account = h;
                  active = i;
                  result = simp (e, l, m, n) o;
                })
              ]
            ]
      ]
    ]
  ]

-- JSON Web Tokens: what a token carries does not depend on when it is read, and a refresh token that
-- was signed is accepted for its seven days, counted in whole seconds.
pub record IsJwt (sec : Security) : Type 0 where
  pub stable :
      (now later : ℕ) (token : String) (p q : Payload)
      → sec.verify_refresh now token ≡ some p
      → sec.verify_refresh later token ≡ some q
      → p ≡ q
  pub signed :
      (now later sub jti family : ℕ)
      → later + 1000 ≤ now + refresh_ttl
      → sec.verify_refresh later (sec.sign_refresh now sub jti family)
        ≡ some (record { jti = some jti; sub = some sub })

same_jti : (p q : Payload) (j k : ℕ) → p ≡ q → p.jti ≡ some j → q.jti ≡ some k → j ≡ k
same_jti p q j k e f g = cc (ap (λ (r : Payload). r.jti) e)

-- No row of the chosen ones is live once they are revoked.
pub revoked-All :
    (p : RefreshToken → Bool) (now : ℕ) (rows : List RefreshToken)
    → All
        (λ r. (p r && is_live r) ≡ false)
        (update_where (λ r. p r && is_live r) (revoked now) rows)
revoked-All p now [] = tt
revoked-All p now (r ∷ rows) =
    let rest = revoked-All p now rows in
    elim (Bool-cases (p r && is_live r)) [
      | inl e ↦ rw e (ground arith, rest)
      | inr e ↦ rw e (e, rest)
    ]

module _ (sec : Security) where
  -- After a refresh its row is the only one with its identifier, and revoked.
  refreshed-IsSpent :
      (now jti k : ℕ) (token : String) (a : Accounts) (x : Accepted sec now jti token a)
      → Distinct token_key a.refresh_tokens
      → k ≡ x.presented
      → All (IsSpent k) (refresh_tokens sec now jti token a).1.refresh_tokens
  refreshed-IsSpent now jti k token a x d e =
      let found =
        find_one-In (λ (r : RefreshToken). r.id == x.presented) a.refresh_tokens x.stored in
      let same : x.row.id ≡ x.presented = (==_iff _ _).0 found.1 in
      rw x.result (
        All-save_over token_key (IsSpent k) _
          (save token_key (new_row sec now jti x.row.family_id x.user) a.refresh_tokens)
          (Distinct-save token_key _ a.refresh_tokens d) (λ _. refl)
          (All-of_In _ _ λ r i n s. absurd (n (s ∙ e ∙ sym same))))

  Accepted-live :
      (k later jti : ℕ) (token : String) (b : Accounts) (y : Accepted sec later jti token b)
      → k ≡ y.presented
      → All (IsSpent k) b.refresh_tokens
      → ⊥
  Accepted-live k later jti token b y e h =
      let found =
        find_one-In (λ (r : RefreshToken). r.id == y.presented) b.refresh_tokens y.stored in
      let same : y.row.id ≡ y.presented = (==_iff _ _).0 found.1 in
      let dead = All-In (IsSpent k) b.refresh_tokens h found.0 (same ∙ sym e) in cc (dead, y.live)

  -- A refresh token works once: when a refresh returned, the same token is refused in every state
  -- that calls of the service reach from there, whatever they are, as long as no new session draws
  -- the token's identifier again; the identifiers of the stored rows have to be distinct.
  pub used_once :
      (jwt : IsJwt sec) (now later jti next_jti k : ℕ) (token : String) (a b : Accounts)
      (tokens : Tokens) (p : Payload)
      → Distinct token_key a.refresh_tokens
      → sec.verify_refresh now token ≡ some p
      → p.jti ≡ some k
      → (refresh_tokens sec now jti token a).0 ≡ ok tokens
      → Reach sec k (refresh_tokens sec now jti token a).1 b
      → Refused (refresh_tokens sec later next_jti token b).0
  used_once jwt now later jti next_jti k token a b tokens p d v e h r =
      elim (refresh_tokens-cases sec now jti token a) [
        | inl (m, f) ↦ absurd (cc (f, h))
        | inr x ↦ elim (refresh_tokens-cases sec later next_jti token b) [
          | inl refused ↦ refused
          | inr y ↦
              let same = jwt.stable now later token p y.payload v y.verified in
              absurd (
                Accepted-live k later next_jti token b y
                  (same_jti p y.payload k y.presented same e y.by_jti)
                  (Reach-IsSpent
                    (refreshed-IsSpent now jti k token a x d (
                      same_jti p x.payload k x.presented
                        (jwt.stable now now token p x.payload v x.verified) e x.by_jti))
                    r))
        ]
      ]

  -- Presenting the token of a stored, revoked row is detected as reuse, and leaves no live row in
  -- the family of that row.
  pub reuse_revokes :
      (now jti k sub : ℕ) (token : String) (p : Payload) (row : RefreshToken) (a : Accounts)
      → sec.verify_refresh now token ≡ some p
      → p.jti ≡ some k
      → p.sub ≡ some sub
      → find_one (λ (r : RefreshToken). r.id == k) a.refresh_tokens ≡ some row
      → is_live row ≡ false
      → ((refresh_tokens sec now jti token a).0
          ≡ thrown (unauthorized "Refresh token reuse detected"))
        × All
            (λ r. (r.family_id == row.family_id && is_live r) ≡ false)
            (refresh_tokens sec now jti token a).1.refresh_tokens
  unfolding refresh_tokens refresh_row
  reuse_revokes now jti k sub token p row a v e f g dead = elim (Option-cases row.revoked_at) [
    | inl none_yet ↦ absurd (cc (none_yet, dead))
    | inr (t, before) ↦
        simp (v, e, f, g, before)
          (refl, revoked-All (λ r. r.family_id == row.family_id) now a.refresh_tokens)
  ]
