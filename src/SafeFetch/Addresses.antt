-- ===== src/SafeFetch/Addresses.antt =====
-- `ipv4ToLong`, `inV4Cidr`, `isPrivateIPv4` and `isPrivateIPv6` of common/security/safe-fetch.ts, on the
-- parts that the runtime's `split`, `parseInt` and regular expressions take out of a text.
use Prim.Native.Nat.{◌^◌}
use property_os.Common.{
  ℕ, ◌+◌, ◌-◌, ◌*◌, ◌/◌, ◌%◌, String, Bool, true, ◌&&◌, ◌||◌, Option, none, some, ◌==◌,
  if◌then◌else◌,
}

pub record Ipv4 : Type 0 where
  pub a : ℕ
  pub b : ℕ
  pub c : ℕ
  pub d : ℕ

unfoldable pub ipv4_to_long : Ipv4 → ℕ
ipv4_to_long ip = ip.a * 16_777_216 + ip.b * 65_536 + ip.c * 256 + ip.d

-- `x & mask` on 32 bits, for the mask that keeps the first `bits`
abbrev masked : ℕ → ℕ → ℕ
masked x bits = x - x % 2 ^ (32 - bits)

unfoldable pub in_v4_cidr : Ipv4 → Ipv4 → ℕ → Bool
unfolding ipv4_to_long
in_v4_cidr ip base bits = masked (ipv4_to_long ip) bits == masked (ipv4_to_long base) bits

abbrev pub ip_of : ℕ → ℕ → ℕ → ℕ → Ipv4
ip_of a b c d = record { a = a; b = b; c = c; d = d }

unfoldable pub is_private_ipv4 : Ipv4 → Bool
unfolding in_v4_cidr
is_private_ipv4 ip =
    in_v4_cidr ip (ip_of 0 0 0 0) 8
    || in_v4_cidr ip (ip_of 10 0 0 0) 8
    || in_v4_cidr ip (ip_of 100 64 0 0) 10
    || in_v4_cidr ip (ip_of 127 0 0 0) 8
    || in_v4_cidr ip (ip_of 169 254 0 0) 16
    || in_v4_cidr ip (ip_of 172 16 0 0) 12
    || in_v4_cidr ip (ip_of 192 0 0 0) 24
    || in_v4_cidr ip (ip_of 192 0 2 0) 24
    || in_v4_cidr ip (ip_of 192 168 0 0) 16
    || in_v4_cidr ip (ip_of 198 18 0 0) 15
    || in_v4_cidr ip (ip_of 198 51 100 0) 24
    || in_v4_cidr ip (ip_of 203 0 113 0) 24
    || in_v4_cidr ip (ip_of 224 0 0 0) 4
    || in_v4_cidr ip (ip_of 240 0 0 0) 4
    || (ip.a == 255 && ip.b == 255 && ip.c == 255 && ip.d == 255)

-- What is read of an IPv6 text without its zone: whether it is `::1` or `::`, the dotted address of the
-- mapped form, and the number of the first group, if it is one.
pub record Ipv6Text : Type 0 where
  pub loopback : Bool
  pub mapped : Option String
  pub head : Option ℕ

-- `head & mask` where the mask keeps some bits above a power of two
abbrev bits_above : ℕ → ℕ → ℕ → ℕ
bits_above head size kinds = head / size % kinds * size

abbrev private_head : Option ℕ → Bool
private_head none = true
private_head (some head) =
    bits_above head 512 128 == 64_512
    || bits_above head 64 1024 == 65_152
    || bits_above head 256 256 == 65_280

abbrev mapped_or_head : (String → Ipv4) → Option String → Option ℕ → Bool
mapped_or_head octets none head = private_head head
mapped_or_head octets (some ip) head = is_private_ipv4 (octets ip)

unfoldable pub is_private_ipv6 : (String → Ipv4) → Ipv6Text → Bool
unfolding is_private_ipv4
is_private_ipv6 octets ip = if ip.loopback then true else mapped_or_head octets ip.mapped ip.head
