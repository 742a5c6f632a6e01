-- ===== src/Notify/Ip.antt =====
-- internal/netutil/ip.go. An address is its bytes, four or sixteen; a range is its bytes and the
-- length of its prefix in bits, as net.ParseCIDR reads it from the text beside it.
use cron_mon.Base.{
  ℕ, ◌-◌, ◌/◌, ◌^◌, ◌≡◌, ◌<◌, Bool, true, false, ◌&&◌, ◌||◌, Option, none, some, List, [], ◌∷◌,
  ◌++◌, arith, length, replicate, leb, ◌==◌, if◌then◌else◌,
}

abbrev pub Ip : Type 0
Ip = List ℕ

abbrev pub Network : Type 0
Network = List ℕ × ℕ

abbrev pub private_ranges : List Network
private_ranges =
    (10 ∷ 0 ∷ 0 ∷ 0 ∷ [], 8)
    ∷ (172 ∷ 16 ∷ 0 ∷ 0 ∷ [], 12)
    ∷ (192 ∷ 168 ∷ 0 ∷ 0 ∷ [], 16)
    ∷ (127 ∷ 0 ∷ 0 ∷ 0 ∷ [], 8)
    ∷ (169 ∷ 254 ∷ 0 ∷ 0 ∷ [], 16)
    ∷ (replicate 15 0 ++ 1 ∷ [], 128)
    ∷ (0xfe ∷ 0x80 ∷ replicate 14 0, 10)
    ∷ (0xfc ∷ replicate 15 0, 7)
    ∷ []

-- The prefix of ::ffff:0:0/96.
abbrev pub mapped_prefix : List ℕ
mapped_prefix = replicate 10 0 ++ 0xff ∷ 0xff ∷ []

-- What follows a prefix, if it is one.
unfoldable pub after_prefix : List ℕ → Ip → Option Ip
after_prefix [] ip = some ip
after_prefix (p ∷ ps) [] = none
after_prefix (p ∷ ps) (b ∷ bs) = if b == p then after_prefix ps bs else none

-- ip.To4(); `none` is nil.
unfoldable pub to4 : Ip → Option Ip
unfolding after_prefix
to4 ip =
    if length ip == 4
    then some ip
    else if length ip == 16
    then after_prefix mapped_prefix ip
    else none

-- Whether two rows of bytes agree in their first `bits` bits.
unfoldable pub same_prefix : ℕ → List ℕ → List ℕ → Bool
same_prefix bits [] [] = true
same_prefix bits [] (b ∷ bs) = false
same_prefix bits (n ∷ ns) [] = false
same_prefix bits (n ∷ ns) (b ∷ bs) =
    let rest = same_prefix (bits - 8) ns bs in
    if leb 8 bits then n == b && rest else n / 2 ^ (8 - bits) == b / 2 ^ (8 - bits) && rest

unfoldable pub or_same : Option Ip → Ip → Ip
or_same none ip = ip
or_same (some v4) ip = v4

-- r.Contains(ip), for a range that is not IPv4-mapped: the lengths must agree.
unfoldable pub range_contains : Network → Ip → Bool
unfolding to4 or_same same_prefix
range_contains (net, bits) ip =
    let ip' = or_same (to4 ip) ip in length ip' == length net && same_prefix bits net ip'

unfoldable pub in_some_range : List Network → Ip → Bool
unfolding range_contains
in_some_range [] ip = false
in_some_range (r ∷ rs) ip = range_contains r ip || in_some_range rs ip

-- IsPrivateIP
unfoldable pub is_private_ip : Ip → Bool
unfolding in_some_range to4 or_same
is_private_ip ip = in_some_range private_ranges (or_same (to4 ip) ip)

-- The ranges that the comments of PrivateRanges name, by their bytes.
abbrev pub private_v4 : ℕ → ℕ → Bool
private_v4 a b =
    a == 10
    || (a == 172 && leb 16 b && leb b 31)
    || (a == 192 && b == 168)
    || a == 127
    || (a == 169 && b == 254)

-- An IPv4 address is private exactly in the ranges that the comments name: 10/8, 172.16/12,
-- 192.168/16, 127/8 and 169.254/16; and so is the IPv6 address that it is mapped to.
pub is_private_ip-v4 :
    (a b c d : ℕ)
    → a < 256
    → b < 256
    → c < 256
    → d < 256
    → (is_private_ip (a ∷ b ∷ c ∷ d ∷ []) ≡ private_v4 a b)
      × (is_private_ip (mapped_prefix ++ a ∷ b ∷ c ∷ d ∷ []) ≡ private_v4 a b)
unfolding is_private_ip in_some_range range_contains to4 or_same same_prefix after_prefix
is_private_ip-v4 a b c d ha hb hc hd = (ground arith, ground arith)
