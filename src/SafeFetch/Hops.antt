-- ===== src/SafeFetch/Hops.antt =====
-- The requests that `safeFetch` makes.
use property_os.Common.{
  ℕ, zero, suc, ◌+◌, ◌≤◌, ◌≡◌, refl, inl, inr, ◌⊎◌, String, Option, some, List, [], ◌∷◌, push,
  length, ltb, Bool-cases, Option-cases, arith, length-append,
}
use property_os.Service.{Result, Exception, bad_request, failed, ok, thrown}
use property_os.SafeFetch.{
  Runtime, Response, Fetched, responded, aborted, broken, request, redirect_of, safe_fetch_loop,
  safe_fetch, max_redirects,
}
use property_os.SafeFetch.Checks.{Vetted, assert_safe_url-cases}

Fetched-cases :
    (f : Fetched)
    → ((res : Response) × (f ≡ responded res))
      ⊎ ((f ≡ aborted) ⊎ ((message : String) × (f ≡ broken message)))
Fetched-cases (responded res) = inl (res, refl)
Fetched-cases aborted = inr (inl refl)
Fetched-cases (broken message) = inr (inr (message, refl))

module _ (rt : Runtime) where
  -- The answer of a fetch: a response, or an exception; not a loop that goes on.
  abbrev pub Answered : Result (Option Response) → Type 0
  Answered out = ((res : Response) × (out ≡ ok (some res))) ⊎ ((e : Exception) × (out ≡ thrown e))

  request-cases :
      (url : String) (made : List String)
      → ((res : Response) × (request rt url made ≡ (ok res, push made url)))
        ⊎ ((e : Exception) × (request rt url made ≡ (thrown e, push made url)))
  unfolding request
  request-cases url made = elim (Fetched-cases (rt.fetch made url)) [
    | inl (res, e) ↦ inl (res, simp e)
    | inr (inl e) ↦ inr (bad_request "Request to URL timed out", simp e)
    | inr (inr (message, e)) ↦ inr (failed message, simp e)
  ]

  loop-Answered :
      (fuel redirects most : ℕ) (url : String) (made : List String)
      → most + 1 ≤ redirects + fuel
      → redirects ≤ most
      → let out = safe_fetch_loop rt fuel redirects most url made in
        Answered out.0 × (length out.1 ≤ length made + fuel)
  unfolding safe_fetch_loop
  loop-Answered zero redirects most url made enough within = absurd (omega (arith, enough, within))
  loop-Answered (suc fuel) redirects most url made enough within =
      elim (assert_safe_url-cases rt url made) [
        | inr (x, e) ↦ simp e (inr (x, refl), omega arith)
        | inl (u, e, _) ↦ elim (request-cases url made) [
          | inr (x, f) ↦ simp (e, f) (inr (x, refl), omega (arith, length-append made (url ∷ [])))
          | inl (res, f) ↦
              simp (e, f)
                (elim (Option-cases (redirect_of rt res)) [
                  | inl g ↦ simp g (inl (res, refl), omega (arith, length-append made (url ∷ [])))
                  | inr (location, g) ↦ simp g (elim (Bool-cases (ltb most (redirects + 1))) [
                    | inl k ↦ simp k (inr (_, refl), omega (arith, length-append made (url ∷ [])))
                    | inr k ↦ simp k (elim (Option-cases (rt.resolve location url)) [
                      | inl l ↦ simp l (inr (_, refl), omega (arith, length-append made (url ∷ [])))
                      | inr (next, l) ↦ simp l (
                          let rest =
                            loop-Answered fuel (redirects + 1) most next (push made url)
                              (omega (arith, enough)) (ground (arith, k)) in
                          (rest.0, omega (arith, rest.1, length-append made (url ∷ []))))
                    ])
                  ])
                ])
        ]
      ]

  -- The requests of a fetch, in order, each of a URL that was vetted right before.
  pub data Trail : List String → List String → Type 0 where
    none_more : {made : List String} → Trail made made
    one_more :
        {made after : List String} (url : String)
        → Vetted rt made url
        → Trail (push made url) after
        → Trail made after

  safe_fetch_loop-Trail :
      (fuel redirects most : ℕ) (url : String) (made : List String)
      → Trail made (safe_fetch_loop rt fuel redirects most url made).1
  unfolding safe_fetch_loop
  safe_fetch_loop-Trail zero redirects most url made = none_more
  safe_fetch_loop-Trail (suc fuel) redirects most url made =
      elim (assert_safe_url-cases rt url made) [
        | inr (x, e) ↦ simp e none_more
        | inl (u, e, vetted) ↦ elim (request-cases url made) [
          | inr (x, f) ↦ simp (e, f) (one_more url vetted none_more)
          | inl (res, f) ↦
              simp (e, f)
                (one_more url vetted (elim (Option-cases (redirect_of rt res)) [
                  | inl g ↦ simp g none_more
                  | inr (location, g) ↦ simp g (elim (Bool-cases (ltb most (redirects + 1))) [
                    | inl k ↦ simp k none_more
                    | inr k ↦ simp k (elim (Option-cases (rt.resolve location url)) [
                      | inl l ↦ simp l none_more
                      | inr (next, l) ↦
                          simp l
                            (safe_fetch_loop-Trail fuel (redirects + 1) most next (push made url))
                    ])
                  ])
                ]))
        ]
      ]

  -- `safeFetch` ends, whatever the network answers: it returns a response or throws, after at most one
  -- request more than the redirects allowed.
  pub safe_fetch_ends :
      (url : String) (options : Option ℕ) (made : List String)
      → let out = safe_fetch rt url options made in
        Answered out.0 × (length out.1 ≤ length made + (max_redirects rt options + 1))
  unfolding safe_fetch
  safe_fetch_ends url options made =
      loop-Answered (max_redirects rt options + 1) 0 (max_redirects rt options) url made
        (omega arith) (omega arith)

  -- Every request that `safeFetch` makes, the first and each redirect, is of a URL that was checked
  -- right before it: https, no local name and no blocked address, and for a host name the addresses
  -- that DNS gives at that moment are there and none of them is blocked.
  pub safe_fetch-Trail :
      (url : String) (options : Option ℕ) (made : List String)
      → Trail made (safe_fetch rt url options made).1
  unfolding safe_fetch
  safe_fetch-Trail url options made =
      safe_fetch_loop-Trail (max_redirects rt options + 1) 0 (max_redirects rt options) url made
