-- ===== src/Tests/Network.antt =====
-- A network of two sites, the first of which redirects to the second.
use text.Mathlib.Text.{◌==◌ as ◌≟◌}
use property_os.Common.{◌≤◌, ◌≡◌, String, false, none, some, [], ◌∷◌, length, arith, if◌then◌else◌}
use property_os.SafeFetch.{Runtime, Url, responded, safe_fetch}
use property_os.SafeFetch.Addresses.{ip_of, is_private_ipv4}
use property_os.SafeFetch.Blocks.{is_reserved, is_private_ipv4-is_reserved}
use property_os.SafeFetch.Hops.{Answered, Trail, safe_fetch_ends, safe_fetch-Trail}

abbrev site_of : String → Url
site_of host = record { protocol = "https:"; username = ""; password = ""; hostname = host }

abbrev network : Runtime
network = record {
  parse_url = λ url.
      if url ≟ "https://one.example/"
      then some (site_of "one.example")
      else some (site_of "two.example");
  unbracket = λ host. host;
  lower = λ host. host;
  ends_with = λ s t. false;
  is_ip = λ s. if s ≟ "93.184.216.34" then 4 else 0;
  octets = λ s. ip_of 93 184 216 34;
  ipv6_text = λ s. record { loopback = false; mapped = none; head = none };
  lookup = λ made host. some ("93.184.216.34" ∷ []);
  fetch = λ made url.
      if url ≟ "https://one.example/"
      then responded (record { status = 302; location = some "https://two.example/" })
      else responded (record { status = 200; location = none });
  resolve = λ location url. some location;
}

safe_fetch_ends_example :
    Answered network (safe_fetch network "https://one.example/" none []).0
    × (length (safe_fetch network "https://one.example/" none []).1 ≤ 6)
safe_fetch_ends_example = safe_fetch_ends network "https://one.example/" none []

safe_fetch-Trail_example : Trail network [] (safe_fetch network "https://one.example/" none []).1
safe_fetch-Trail_example = safe_fetch-Trail network "https://one.example/" none []

is_private_ipv4-is_reserved_example :
    is_private_ipv4 (ip_of 169 254 169 254) ≡ is_reserved (ip_of 169 254 169 254)
is_private_ipv4-is_reserved_example =
    is_private_ipv4-is_reserved (ip_of 169 254 169 254)
      (omega arith, omega arith, omega arith, omega arith)
