-- ===== src/SafeFetch/Blocks.antt =====
-- The blocks of `isPrivateIPv4`, octet by octet.
use property_os.Common.{ℕ, ◌<◌, ◌≡◌, Bool, ◌&&◌, ◌||◌, ◌==◌, leb, arith}
use property_os.SafeFetch.Addresses.{Ipv4, ip_of, in_v4_cidr, is_private_ipv4}

-- The address lies in a private or reserved block, by its octets.
pub is_reserved : Ipv4 → Bool
is_reserved ip =
    ip.a == 0
    || ip.a == 10
    || (ip.a == 100 && leb 64 ip.b && leb ip.b 127)
    || ip.a == 127
    || (ip.a == 169 && ip.b == 254)
    || (ip.a == 172 && leb 16 ip.b && leb ip.b 31)
    || (ip.a == 192 && ip.b == 0 && ip.c == 0)
    || (ip.a == 192 && ip.b == 0 && ip.c == 2)
    || (ip.a == 192 && ip.b == 168)
    || (ip.a == 198 && leb 18 ip.b && leb ip.b 19)
    || (ip.a == 198 && ip.b == 51 && ip.c == 100)
    || (ip.a == 203 && ip.b == 0 && ip.c == 113)
    || leb 224 ip.a

-- four octets
abbrev pub IsIpv4 : Ipv4 → Type 0
IsIpv4 ip = (ip.a < 256) × (ip.b < 256) × (ip.c < 256) × (ip.d < 256)

module _ (ip : Ipv4) (v : IsIpv4 ip) where
  block_8 : (k : ℕ) → in_v4_cidr ip (ip_of k 0 0 0) 8 ≡ (ip.a == k)
  unfolding in_v4_cidr
  block_8 k = ground (arith, v)

  block_16 : (k l : ℕ) → l < 256 → in_v4_cidr ip (ip_of k l 0 0) 16 ≡ (ip.a == k && ip.b == l)
  unfolding in_v4_cidr
  block_16 k l h = ground (arith, v, h)

  block_24 :
      (k l m : ℕ)
      → l < 256
      → m < 256
      → in_v4_cidr ip (ip_of k l m 0) 24 ≡ (ip.a == k && ip.b == l && ip.c == m)
  unfolding in_v4_cidr
  block_24 k l m h i = ground (arith, v, h, i)

  carrier_block : in_v4_cidr ip (ip_of 100 64 0 0) 10 ≡ (ip.a == 100 && leb 64 ip.b && leb ip.b 127)
  unfolding in_v4_cidr
  carrier_block = ground (arith, v)

  private_block : in_v4_cidr ip (ip_of 172 16 0 0) 12 ≡ (ip.a == 172 && leb 16 ip.b && leb ip.b 31)
  unfolding in_v4_cidr
  private_block = ground (arith, v)

  benchmark_block :
      in_v4_cidr ip (ip_of 198 18 0 0) 15 ≡ (ip.a == 198 && leb 18 ip.b && leb ip.b 19)
  unfolding in_v4_cidr
  benchmark_block = ground (arith, v)

  multicast_block : in_v4_cidr ip (ip_of 224 0 0 0) 4 ≡ (leb 224 ip.a && leb ip.a 239)
  unfolding in_v4_cidr
  multicast_block = ground (arith, v)

  reserved_block : in_v4_cidr ip (ip_of 240 0 0 0) 4 ≡ leb 240 ip.a
  unfolding in_v4_cidr
  reserved_block = ground (arith, v)

  from_224 :
      (rest : Bool)
      → (rest
          || (leb 224 ip.a && leb ip.a 239)
          || leb 240 ip.a
          || (ip.a == 255 && ip.b == 255 && ip.c == 255 && ip.d == 255))
        ≡ (rest || leb 224 ip.a)
  from_224 rest = ground arith

  -- `isPrivateIPv4`, which compares masked 32-bit numbers, is true of just the addresses whose octets
  -- lie in the private and reserved blocks: 0, 10, 100.64 to 100.127, 127, 169.254, 172.16 to 172.31,
  -- 192.0.0, 192.0.2, 192.168, 198.18 and 198.19, 198.51.100, 203.0.113, and 224 and above. The four
  -- octets have to be below 256.
  pub is_private_ipv4-is_reserved : is_private_ipv4 ip ≡ is_reserved ip
  unfolding is_private_ipv4 is_reserved
  is_private_ipv4-is_reserved =
      rw
        (
          block_8 0,
          block_8 10,
          carrier_block,
          block_8 127,
          block_16 169 254 (omega arith),
          private_block,
          block_24 192 0 0 (omega arith) (omega arith),
          block_24 192 0 2 (omega arith) (omega arith),
          block_16 192 168 (omega arith),
          benchmark_block,
          block_24 198 51 100 (omega arith) (omega arith),
          block_24 203 0 113 (omega arith) (omega arith),
          multicast_block,
          reserved_block,
        )
        (from_224 _)
