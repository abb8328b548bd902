-- ===== src/SafeFetch.antt =====
-- common/security/safe-fetch.ts: the addresses that are blocked, the checks on a URL, and the fetch that
-- follows redirects by hand. Time-outs and network errors are answers of the network here, and the
-- response body is left out.
pub mod Addresses
pub mod Blocks
pub mod Checks
pub mod Hops
use text.Mathlib.Text.{◌==◌ as ◌≟◌}
use property_os.Common.{
  ℕ, zero, suc, ◌+◌, String, Bool, true, false, not, ◌&&◌, ◌||◌, Option, none, some, List, [], ◌∷◌,
  any, push, length, ltb, leb, ◌==◌, or_else, is_some, if◌then◌else◌,
}
use property_os.Service.{
  Exec, Exception, bad_request, failed, pure, throw, or_throw, throw_if, gets, modify, ◌>>=◌, ◌>>◌,
  is_truthy_text,
}
use Addresses.{Ipv4, is_private_ipv4, is_private_ipv6, Ipv6Text}

-- what `new URL` parses
pub record Url : Type 0 where
  pub protocol : String
  pub username : String
  pub password : String
  pub hostname : String

pub record Response : Type 0 where
  pub status : ℕ
  pub location : Option String

-- What `fetch` settles with: a response, the `AbortError` of the deadline, or another error.
pub data Fetched : Type 0 where
  responded : Response → Fetched
  aborted : Fetched
  broken : String → Fetched

-- The runtime: URL parsing, the kind of an IP literal (4, 6, or 0), its parts, DNS and the network.
-- What DNS and the network answer may depend on the requests already made.
pub record Runtime : Type 0 where
  pub parse_url : String → Option Url
  pub unbracket : String → String
  pub lower : String → String
  pub ends_with : String → String → Bool
  pub is_ip : String → ℕ
  pub octets : String → Ipv4
  pub ipv6_text : String → Ipv6Text
  pub lookup : List String → String → Option (List String)
  pub fetch : List String → String → Fetched
  pub resolve : String → String → Option String

module _ (rt : Runtime) where
  unfoldable pub is_blocked_address : String → Bool
  is_blocked_address ip =
      if rt.is_ip ip == 4
      then is_private_ipv4 (rt.octets ip)
      else if rt.is_ip ip == 6
      then is_private_ipv6 rt.octets (rt.ipv6_text ip)
      else true

  abbrev pub is_literal : String → Bool
  is_literal host = not (rt.is_ip host == 0)

  abbrev pub static_host : Url → String
  static_host url = rt.lower (rt.unbracket url.hostname)

  unfoldable pub assert_safe_url_static : String → Exec (List String) Url
  assert_safe_url_static url_str = do
    url ← or_throw (rt.parse_url url_str) (bad_request "Invalid URL")
    throw_if (not (url.protocol ≟ "https:")) (bad_request "Only https URLs are allowed")
    throw_if (is_truthy_text (some url.username) || is_truthy_text (some url.password))
        (bad_request "URLs with credentials are not allowed")
    throw_if (static_host url ≟ "localhost" || rt.ends_with (static_host url) ".localhost")
        (bad_request "URL host is not allowed")
    throw_if (is_literal (static_host url) && is_blocked_address (static_host url))
        (bad_request "URL resolves to a disallowed address")
    pure url

  abbrev pub is_nil : List String → Bool
  is_nil [] = true
  is_nil (a ∷ rest) = false

  -- the addresses of a name
  abbrev pub check_addresses : String → Exec (List String) (Unit {0})
  check_addresses host = do
    answer ← gets (λ made. rt.lookup made host)
    addresses ← or_throw answer (bad_request "Could not resolve URL host")
    throw_if (is_nil addresses) (bad_request "Could not resolve URL host")
    throw_if (any is_blocked_address addresses) (bad_request "URL resolves to a disallowed address")

  unfoldable pub assert_safe_url : String → Exec (List String) Url
  unfolding assert_safe_url_static
  assert_safe_url url_str = do
    url ← assert_safe_url_static url_str
    if is_literal (rt.unbracket url.hostname)
        then pure tt
        else check_addresses (rt.unbracket url.hostname)
    pure url

  -- `AbortError` becomes an exception of the framework; any other error is thrown again.
  abbrev settled : Fetched → Exec (List String) Response
  settled (responded res) = pure res
  settled aborted = throw (bad_request "Request to URL timed out")
  settled (broken message) = throw (failed message)

  -- one request: the URL is put down, and the network answers or the deadline passes
  unfoldable pub request : String → Exec (List String) Response
  request url = do
    answer ← gets (λ made. rt.fetch made url)
    modify (λ made. push made url)
    settled answer

  -- the redirect that an answer asks for
  abbrev pub redirect_of : Response → Option String
  redirect_of res = if leb 300 res.status && ltb res.status 400 then to res.location else none
    where
      to : Option String → Option String
      to none = none
      to (some l) = if is_truthy_text (some l) then some l else none

  -- what follows an answer: the loop goes on with a redirect; `new URL` throws a `TypeError`
  abbrev pub hop :
      ℕ
      → ℕ
      → String
      → (String → Exec (List String) (Option Response))
      → Response
      → Option String
      → Exec (List String) (Option Response)
  hop redirects most url again res none = pure (some res)
  hop redirects most url again res (some location) = do
    throw_if (ltb most (redirects + 1)) (bad_request "Too many redirects")
    next ← or_throw (rt.resolve location url) (failed "Invalid URL")
    again next

  -- The loop. `none` is a loop that runs out of fuel.
  unfoldable pub safe_fetch_loop : ℕ → ℕ → ℕ → String → Exec (List String) (Option Response)
  unfolding assert_safe_url request
  safe_fetch_loop zero redirects most url = pure none
  safe_fetch_loop (suc fuel) redirects most url = do
    checked ← assert_safe_url url
    res ← request url
    hop redirects most url (safe_fetch_loop fuel (redirects + 1) most) res (redirect_of res)

  -- `DEFAULT_MAX_REDIRECTS`
  abbrev pub max_redirects : Option ℕ → ℕ
  max_redirects options = or_else options 5

  -- `safeFetch`, with fuel for the first request and each redirect
  unfoldable pub safe_fetch : String → Option ℕ → Exec (List String) (Option Response)
  unfolding safe_fetch_loop
  safe_fetch url options = safe_fetch_loop (max_redirects options + 1) 0 (max_redirects options) url
