-- ===== src/SafeFetch/Checks.antt =====
-- What the checks of `assertSafeUrl` let through.
use text.Mathlib.Text.{◌==◌ as ◌≟◌}
use property_os.Common.{
  ◌≡◌, inl, inr, ◌⊎◌, String, true, false, ◌&&◌, ◌||◌, some, List, any, Bool-cases, Option-cases,
}
use property_os.Service.{Exception, bad_request, ok, thrown, is_truthy_text}
use property_os.SafeFetch.{
  Runtime, Url, is_blocked_address, assert_safe_url, assert_safe_url_static, check_addresses,
  is_nil, is_literal, static_host,
}

module _ (rt : Runtime) where
  -- A URL that may be requested: it parses, its protocol is https, its host is neither a local name
  -- nor a blocked address, and if its host is a name then DNS gives addresses for it, none of which
  -- is blocked.
  pub record Vetted (made : List String) (url : String) : Type 0 where
    pub parsed : Url
    pub parses : rt.parse_url url ≡ some parsed
    pub https : (parsed.protocol ≟ "https:") ≡ true
    pub not_local :
        (static_host rt parsed ≟ "localhost" || rt.ends_with (static_host rt parsed) ".localhost")
        ≡ false
    pub not_blocked :
        (is_literal rt (static_host rt parsed) && is_blocked_address rt (static_host rt parsed))
        ≡ false
    pub resolves :
        is_literal rt (rt.unbracket parsed.hostname) ≡ false
        → (addresses : List String) × (rt.lookup made (rt.unbracket parsed.hostname)
            ≡ some addresses)
          × (is_nil rt addresses ≡ false)
          × (any (is_blocked_address rt) addresses ≡ false)

  Passes : List String → String → Url → Type 0
  Passes made url u =
      (rt.parse_url url ≡ some u)
      × ((u.protocol ≟ "https:") ≡ true)
      × ((static_host rt u ≟ "localhost" || rt.ends_with (static_host rt u) ".localhost") ≡ false)
      × ((is_literal rt (static_host rt u) && is_blocked_address rt (static_host rt u)) ≡ false)
      × (assert_safe_url_static rt url made ≡ (ok u, made))

  assert_safe_url_static-cases :
      (url : String) (made : List String)
      → ((u : Url) × Passes made url u)
        ⊎ ((e : Exception) × (assert_safe_url_static rt url made ≡ (thrown e, made)))
  unfolding assert_safe_url_static Passes
  assert_safe_url_static-cases url made = elim (Option-cases (rt.parse_url url)) [
    | inl e ↦ inr (bad_request "Invalid URL", simp e)
    | inr (u, e) ↦ elim (Bool-cases (u.protocol ≟ "https:")) [
      | inr f ↦ inr (bad_request "Only https URLs are allowed", simp (e, f))
      | inl f ↦
          elim (Bool-cases (is_truthy_text (some u.username) || is_truthy_text (some u.password))) [
            | inl g ↦ inr (bad_request "URLs with credentials are not allowed", simp (e, f, g))
            | inr g ↦
                elim (Bool-cases (
                  static_host rt u ≟ "localhost" || rt.ends_with (static_host rt u) ".localhost")) [
                    | inl h ↦ inr (bad_request "URL host is not allowed", simp (e, f, g, h))
                    | inr h ↦
                        elim (Bool-cases (
                          is_literal rt (static_host rt u)
                          && is_blocked_address rt (static_host rt u))) [
                            | inl k ↦ inr (
                              bad_request "URL resolves to a disallowed address",
                              simp (e, f, g, h, k),
                            )
                            | inr k ↦ inl (u, (e, f, h, k, simp (e, f, g, h, k)))
                          ]
                  ]
          ]
    ]
  ]

  addresses-cases :
      (host : String) (made : List String)
      → ((addresses : List String) × (rt.lookup made host ≡ some addresses)
          × (is_nil rt addresses ≡ false)
          × (any (is_blocked_address rt) addresses ≡ false)
          × (check_addresses rt host made ≡ (ok tt, made)))
        ⊎ ((e : Exception) × (check_addresses rt host made ≡ (thrown e, made)))
  addresses-cases host made = elim (Option-cases (rt.lookup made host)) [
    | inl e ↦ inr (bad_request "Could not resolve URL host", simp e)
    | inr (addresses, e) ↦ elim (Bool-cases (is_nil rt addresses)) [
      | inl f ↦ inr (bad_request "Could not resolve URL host", simp (e, f))
      | inr f ↦ elim (Bool-cases (any (is_blocked_address rt) addresses)) [
        | inl g ↦ inr (bad_request "URL resolves to a disallowed address", simp (e, f, g))
        | inr g ↦ inl (addresses, e, f, g, simp (e, f, g))
      ]
    ]
  ]

  pub assert_safe_url-cases :
      (url : String) (made : List String)
      → ((u : Url) × (assert_safe_url rt url made ≡ (ok u, made)) × Vetted made url)
        ⊎ ((e : Exception) × (assert_safe_url rt url made ≡ (thrown e, made)))
  unfolding assert_safe_url Passes
  assert_safe_url-cases url made = elim (assert_safe_url_static-cases url made) [
    | inr (x, e) ↦ inr (x, simp e)
    | inl (u, (parses, https, not_local, allowed, e)) ↦
        elim (Bool-cases (is_literal rt (rt.unbracket u.hostname))) [
          | inl f ↦ inl (
            u,
            simp (e, f),
            record {
              parsed = u;
              parses = parses;
              https = https;
              not_local = not_local;
              not_blocked = allowed;
              resolves = λ g. absurd (cc (f, g));
            },
          )
          | inr f ↦ elim (addresses-cases (rt.unbracket u.hostname) made) [
            | inr (x, g) ↦ inr (x, simp (e, f, g))
            | inl (addresses, found, some_found, clear, g) ↦ inl (
              u,
              simp (e, f, g),
              record {
                parsed = u;
                parses = parses;
                https = https;
                not_local = not_local;
                not_blocked = allowed;
                resolves = λ _. (addresses, found, some_found, clear);
              },
            )
          ]
        ]
  ]
