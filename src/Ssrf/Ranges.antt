-- ===== src/Ssrf/Ranges.antt =====
-- src/ssrf.rs: the blocked IPv4 addresses as ranges of numbers.
use codasaurus.Ssrf.{
  V4, is_blocked_v4, is_blocked_v6, octets, is_mapped, is_unique_local, is_unicast_link_local,
}
use codasaurus.Prelude.{
  ℕ, ◌+◌, ◌-◌, ◌*◌, ◌/◌, ◌%◌, ◌^◌, ◌<◌, List, [], ◌∷◌, map, Bool, true, false, not, ◌&&◌, ◌||◌, ltb,
  leb, ◌==◌, any, ◌≡◌, ap, ◌∙◌, arith,
}

pub record IsV4 (ip : V4) : Type 0 where
  pub a : ip.a < 256
  pub b : ip.b < 256
  pub c : ip.c < 256
  pub d : ip.d < 256

-- The number of an address in network order.
abbrev pub number : V4 → ℕ
number ip = ip.a * 2 ^ 24 + ip.b * 2 ^ 16 + ip.c * 2 ^ 8 + ip.d

-- A network, as its first address and how many it has.
abbrev pub Net : Type 0
Net = ℕ × ℕ

abbrev pub in_net : ℕ → Net → Bool
in_net n net = leb net.0 n && ltb n (net.0 + net.1)

-- 0/8, 10/8, 100.64/10, 169.254/16, 172.16/12, 192.168/16, 198.18/15 and 255.255.255.255.
abbrev pub blocked_nets : List Net
blocked_nets =
    (0, 2 ^ 24)
    ∷ (10 * 2 ^ 24, 2 ^ 24)
    ∷ (100 * 2 ^ 24 + 64 * 2 ^ 16, 2 ^ 22)
    ∷ (169 * 2 ^ 24 + 254 * 2 ^ 16, 2 ^ 16)
    ∷ (172 * 2 ^ 24 + 16 * 2 ^ 16, 2 ^ 20)
    ∷ (192 * 2 ^ 24 + 168 * 2 ^ 16, 2 ^ 16)
    ∷ (198 * 2 ^ 24 + 18 * 2 ^ 16, 2 ^ 17)
    ∷ (2 ^ 32 - 1, 1)
    ∷ []

abbrev pub loopback_net : Net
loopback_net = (127 * 2 ^ 24, 2 ^ 24)

module _ (ip : V4) (is : IsV4 ip) where
  net_0 : (ip.a == 0) ≡ in_net (number ip) (0, 2 ^ 24)
  net_0 = let a = is.a in let b = is.b in let c = is.c in let d = is.d in ground arith

  net_10 : (ip.a == 10) ≡ in_net (number ip) (10 * 2 ^ 24, 2 ^ 24)
  net_10 = let a = is.a in let b = is.b in let c = is.c in let d = is.d in ground arith

  net_100 :
      (ip.a == 100 && ip.b / 64 * 64 == 64)
      ≡ in_net (number ip) (100 * 2 ^ 24 + 64 * 2 ^ 16, 2 ^ 22)
  net_100 = let a = is.a in let b = is.b in let c = is.c in let d = is.d in ground arith

  net_127 : (ip.a == 127) ≡ in_net (number ip) loopback_net
  net_127 = let a = is.a in let b = is.b in let c = is.c in let d = is.d in ground arith

  net_169 : (ip.a == 169 && ip.b == 254) ≡ in_net (number ip) (169 * 2 ^ 24 + 254 * 2 ^ 16, 2 ^ 16)
  net_169 = let a = is.a in let b = is.b in let c = is.c in let d = is.d in ground arith

  net_172 :
      (ip.a == 172 && (leb 16 ip.b && leb ip.b 31))
      ≡ in_net (number ip) (172 * 2 ^ 24 + 16 * 2 ^ 16, 2 ^ 20)
  net_172 = let a = is.a in let b = is.b in let c = is.c in let d = is.d in ground arith

  net_192 : (ip.a == 192 && ip.b == 168) ≡ in_net (number ip) (192 * 2 ^ 24 + 168 * 2 ^ 16, 2 ^ 16)
  net_192 = let a = is.a in let b = is.b in let c = is.c in let d = is.d in ground arith

  net_198 :
      (ip.a == 198 && (ip.b == 18 || ip.b == 19))
      ≡ in_net (number ip) (198 * 2 ^ 24 + 18 * 2 ^ 16, 2 ^ 17)
  net_198 = let a = is.a in let b = is.b in let c = is.c in let d = is.d in ground arith

  net_255 :
      (ip.a == 255 && (ip.b == 255 && (ip.c == 255 && ip.d == 255)))
      ≡ in_net (number ip) (2 ^ 32 - 1, 1)
  net_255 = let a = is.a in let b = is.b in let c = is.c in let d = is.d in ground arith

octet_tests :
    (ip : V4) (allow : Bool)
    → is_blocked_v4 ip allow ≡ (
        (ip.a == 0)
        || ((ip.a == 10)
            || ((ip.a == 100 && ip.b / 64 * 64 == 64)
                || ((ip.a == 169 && ip.b == 254)
                    || ((ip.a == 172 && (leb 16 ip.b && leb ip.b 31))
                        || ((ip.a == 192 && ip.b == 168)
                            || ((ip.a == 198 && (ip.b == 18 || ip.b == 19))
                                || ((ip.a == 255 && (ip.b == 255 && (ip.c == 255 && ip.d == 255)))
                                    || false)))))))
        || (not allow && ip.a == 127))
unfolding is_blocked_v4
octet_tests ip true = ground arith
octet_tests ip false = ground arith

-- Of the IPv4 addresses exactly those of eight networks are blocked, and those of the loopback network
-- if it is not allowed.
pub is_blocked_v4-nets :
    (ip : V4) (allow : Bool)
    → IsV4 ip
    → is_blocked_v4 ip allow
      ≡ (any (in_net (number ip)) blocked_nets || (not allow && in_net (number ip) loopback_net))
is_blocked_v4-nets ip allow is =
    rw
      (
        ← net_0 ip is,
        ← net_10 ip is,
        ← net_100 ip is,
        ← net_169 ip is,
        ← net_172 ip is,
        ← net_192 ip is,
        ← net_198 ip is,
        ← net_255 ip is,
        ← net_127 ip is,
      )
      (octet_tests ip allow)

-- `::ffff:a.b.c.d`.
unfoldable pub mapped : V4 → ℕ
mapped ip = 65535 * 2 ^ 32 + number ip

octets-mapped : (ip : V4) → IsV4 ip → octets (mapped ip) ≡ ip
unfolding mapped
octets-mapped ip is =
    let a = is.a in
    let b = is.b in let c = is.c in let d = is.d in rw (first, second, third, fourth)
  where
    first : mapped ip / 2 ^ 24 % 256 ≡ ip.a
    first = let a = is.a in let b = is.b in let c = is.c in let d = is.d in omega arith

    second : mapped ip / 2 ^ 16 % 256 ≡ ip.b
    second = let a = is.a in let b = is.b in let c = is.c in let d = is.d in omega arith

    third : mapped ip / 2 ^ 8 % 256 ≡ ip.c
    third = let a = is.a in let b = is.b in let c = is.c in let d = is.d in omega arith

    fourth : mapped ip % 256 ≡ ip.d
    fourth = let a = is.a in let b = is.b in let c = is.c in let d = is.d in omega arith

v6_as_v4 :
    (n : ℕ) (allow : Bool)
    → (n == 1) ≡ false
    → (n == 0) ≡ false
    → is_unique_local n ≡ false
    → is_unicast_link_local n ≡ false
    → is_mapped n ≡ true
    → is_blocked_v6 n allow ≡ is_blocked_v4 (octets n) allow
unfolding is_blocked_v6
v6_as_v4 n true one nil unique link map = rw (one, nil, unique, link, map)
v6_as_v4 n false one nil unique link map = rw (one, nil, unique, link, map)

-- An IPv4 address, written as the IPv6 address that it is mapped to, is blocked exactly when it is
-- blocked as it is.
pub is_blocked_v6-mapped :
    (ip : V4) (allow : Bool) → IsV4 ip → is_blocked_v6 (mapped ip) allow ≡ is_blocked_v4 ip allow
unfolding mapped
is_blocked_v6-mapped ip allow is =
    v6_as_v4 (mapped ip) allow (not_one is) (not_zero is) (unique is) (link is) (range is)
    ∙ ap (λ v. is_blocked_v4 v allow) (octets-mapped ip is)
  where
    not_one : IsV4 ip → (mapped ip == 1) ≡ false
    not_one is = ground arith

    not_zero : IsV4 ip → (mapped ip == 0) ≡ false
    not_zero is = ground arith

    unique : IsV4 ip → is_unique_local (mapped ip) ≡ false
    unique is = let a = is.a in let b = is.b in let c = is.c in let d = is.d in ground arith

    link : IsV4 ip → is_unicast_link_local (mapped ip) ≡ false
    link is = let a = is.a in let b = is.b in let c = is.c in let d = is.d in ground arith

    range : IsV4 ip → is_mapped (mapped ip) ≡ true
    range is = let a = is.a in let b = is.b in let c = is.c in let d = is.d in ground arith
