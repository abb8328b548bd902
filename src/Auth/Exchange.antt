-- ===== src/Auth/Exchange.antt =====
-- `createGoogleExchangeCode`, `exchangeGoogleCode` and `pruneGoogleCodes` of
-- modules/auth/auth.service.ts. The map in memory is a list of entries with distinct codes.
use text.Mathlib.Text.{◌==◌ as ◌≟◌}
use property_os.Common.{
  ◌≡◌, refl, Bool, List, [], ◌∷◌, In, ◌≤◌, arith, Option-cases, Bool-cases, inl, inr, find_one-In,
  In-filter, true, ℕ, ◌+◌, String, not, none, some, Option, find_one, push, filter, ltb,
  if◌then◌else◌,
}
use property_os.Service.{
  Exec, ok, thrown, pure, or_throw, throw_if, gets, modify, ◌>>=◌, ◌>>◌, bad_request,
  is_truthy_text,
}
use property_os.Auth.{Tokens, GoogleCode, Accounts}

-- two minutes in milliseconds
abbrev google_code_ttl : ℕ
google_code_ttl = 120_000

abbrev pub prune_google_codes : ℕ → Accounts → Accounts
prune_google_codes now a = record a {
  google_codes = filter (λ e. not (ltb e.expires now)) a.google_codes;
}

abbrev delete_code : String → Accounts → Accounts
delete_code code a = record a { google_codes = filter (λ e. not (e.code ≟ code)) a.google_codes }

-- `googleCodes.set` with the random `code`
unfoldable pub create_google_exchange_code : ℕ → String → Tokens → Exec Accounts String
create_google_exchange_code now code tokens = do
  modify (prune_google_codes now)
  modify (delete_code code)
  modify (λ a. record a {
    google_codes =
        push a.google_codes
          (record { code = code; tokens = tokens; expires = now + google_code_ttl });
  })
  pure code

abbrev pub entry_of : String → Accounts → Option GoogleCode
entry_of code a =
    if is_truthy_text (some code) then find_one (λ e. e.code ≟ code) a.google_codes else none

unfoldable pub exchange_google_code : ℕ → String → Exec Accounts Tokens
exchange_google_code now code = do
  modify (prune_google_codes now)
  found ← gets (entry_of code)
  entry ← or_throw found (bad_request "Invalid or expired code")
  throw_if (ltb entry.expires now) (bad_request "Invalid or expired code")
  modify (delete_code code)
  pure entry.tokens

deleted_none :
    (code : String) (entries : List GoogleCode)
    → find_one (λ e. e.code ≟ code) (filter (λ e. not (e.code ≟ code)) entries) ≡ none
deleted_none code [] = refl
deleted_none code (e ∷ entries) = ground (arith, deleted_none code entries)

find_one-filter :
    (code : String) (p : GoogleCode → Bool) (entries : List GoogleCode)
    → find_one (λ e. e.code ≟ code) entries ≡ none
    → find_one (λ e. e.code ≟ code) (filter p entries) ≡ none
find_one-filter code p [] h = refl
find_one-filter code p (e ∷ entries) h = ground (arith, h, find_one-filter code p entries)

entry_of-deleted :
    (later : ℕ) (code : String) (b : Accounts)
    → entry_of code (prune_google_codes later (delete_code code b)) ≡ none
entry_of-deleted later code b =
    let gone =
      find_one-filter code (λ e. not (ltb e.expires later)) _ (deleted_none code b.google_codes) in
    ground (arith, gone)

entry_of-stored :
    (now : ℕ) (code : String) (a : Accounts) (x : GoogleCode)
    → entry_of code (prune_google_codes now a) ≡ some x
    → In x a.google_codes × ((x.code ≟ code) ≡ true)
entry_of-stored now code a x h = elim (Bool-cases (is_truthy_text (some code))) [
  | inl e ↦
      let found = find_one-In (λ (e : GoogleCode). e.code ≟ code) _ (rw (e, if◌then◌else◌) at h) in
      ((In-filter _ x a.google_codes found.0).0, found.1)
  | inr e ↦ absurd (cc (rw (e, if◌then◌else◌) at h))
]

-- A Google code is exchanged once: when the exchange returned tokens they are those of the stored
-- entry, which had not expired, and the same code is refused right afterwards, at any time.
pub code_once :
    (now later : ℕ) (code : String) (a : Accounts) (tokens : Tokens)
    → (exchange_google_code now code a).0 ≡ ok tokens
    → ((e : GoogleCode) × In e a.google_codes
        × ((e.code ≟ code) ≡ true)
        × (now ≤ e.expires)
        × (e.tokens ≡ tokens))
      × ((exchange_google_code later code (exchange_google_code now code a).1).0
          ≡ thrown (bad_request "Invalid or expired code"))
unfolding exchange_google_code
code_once now later code a tokens h =
    elim (Option-cases (entry_of code (prune_google_codes now a))) [
      | inl e ↦ absurd (cc (rw e at h))
      | inr (x, e) ↦ elim (Bool-cases (ltb x.expires now)) [
        | inl l ↦ absurd (cc (rw (e, l) at h))
        | inr l ↦
            let kept = entry_of-stored now code a x e in
            (
              (x, kept.0, kept.1, ground (arith, l), cc (rw (e, l) at h)),
              simp (e, l, entry_of-deleted later code (prune_google_codes now a)) refl,
            )
      ]
    ]
