-- ===== src/Examples/Selector.antt =====
-- The theorems on `src/client_proxy_selector.rs` and `src/address.rs` at concrete inputs.
use mathlib.Core.Logic.{◌↔◌}
use Prim.Native.Nat.{bit_and}
use shoes_on_shuttle.Common.{
  ℕ, List, [], ◌∷◌, ◌≡◌, ◌==◌, ◌/◌, ◌^◌, ◌-◌, ◌≤◌, refl, arith, none, some, true,
}
use shoes_on_shuttle.Net.Types.{Ipv4Addr, Ipv6Addr, ipv6_number, IsIpv4, IsIpv6}
use shoes_on_shuttle.Address.{
  ipv4, ipv6, hostname, NetLocation, NetLocationMask, SocketAddr, v4, keep_bits, netmask_of,
}
use shoes_on_shuttle.Stream.{success}
use shoes_on_shuttle.OptionUtil.{OneOrSome}
use shoes_on_shuttle.Common.Text.{bytes_of}
use shoes_on_shuttle.Selector.Decision.{ConnectRule, ConnectAction, ConnectDecision}
use shoes_on_shuttle.Selector.Mask.{
  Resolver, resolve_single_address, matches_domain, ip_to_u128, ipv4_to_u128,
}
use shoes_on_shuttle.Selector.Rules.{match_rule, ClientProxySelector, new, judge}
use shoes_on_shuttle.Selector.Netmask.{ipv4_mask_iff, ipv6_mask_iff, ipv4_bits}
use shoes_on_shuttle.Selector.FirstMatch.{match_rule-first_match, first_match}
use shoes_on_shuttle.Selector.Judge.{judge-DecidedBy, DecidedBy}
use shoes_on_shuttle.Selector.Rotation.{select_many-round, select_many}

abbrev home : Ipv4Addr
home = record { a = 10; b = 0; c = 3; d = 7 }

abbrev neighbour : Ipv4Addr
neighbour = record { a = 10; b = 0; c = 200; d = 1 }

abbrev address : SocketAddr
address = record { ip = v4 home; port = 443 }

abbrev target : NetLocation
target = record { address = hostname (bytes_of "www.example.com"); port = 443 }

-- A resolver that finds every location at home.
abbrev resolver : Resolver
resolver call location = success (address ∷ [])

resolver-home : (n : ℕ) → resolve_single_address resolver n target ≡ success address
unfolding resolve_single_address
resolver-home n = refl

abbrev local_mask : NetLocationMask
local_mask = record {
  address_mask = record { address = ipv4 neighbour; netmask = netmask_of 16 };
  port = 0;
}

abbrev every_mask : NetLocationMask
every_mask = record { address_mask = record { address = ipv4 neighbour; netmask = 0 }; port = 0 }

-- The local network through two proxies in turn, and all else blocked.
abbrev rules : List (ConnectRule ℕ)
rules =
    record {
      masks = local_mask ∷ [];
      action = ConnectAction.allow none (OneOrSome.several (5 ∷ 6 ∷ [])) 0;
    }
    ∷ record { masks = every_mask ∷ []; action = ConnectAction.block }
    ∷ []

abbrev proxies : List ℕ
proxies = 5 ∷ 6 ∷ 7 ∷ []

match_rule-first_match_example :
    let (result, st) =
      match_rule resolver target rules 0 (record { resolved_ip = none; calls = 0 }) in
    (result ≡ success (first_match rules target (ip_to_u128 (v4 home)) 0)) × (st.calls ≤ 1)
match_rule-first_match_example =
    match_rule-first_match resolver target address rules 0 resolver-home

judge-DecidedBy_example :
    (d : ConnectDecision ℕ) × (selector' : ClientProxySelector ℕ) × (judge resolver 0
        (new rules)
        target
      ≡ success (some (d, selector')))
    × DecidedBy rules target (first_match rules target (ip_to_u128 (v4 home)) 0) d
unfolding new
judge-DecidedBy_example =
    judge-DecidedBy resolver 0 (new rules) target address (omega arith, (tt, tt)) resolver-home

matches : matches_domain (bytes_of "example.com") (bytes_of "www.example.com") ≡ true
unfolding matches_domain
matches = refl

home-IsIpv4 : IsIpv4 home
home-IsIpv4 = record {
  a_byte = omega arith;
  b_byte = omega arith;
  c_byte = omega arith;
  d_byte = omega arith;
}

neighbour-IsIpv4 : IsIpv4 neighbour
neighbour-IsIpv4 = record {
  a_byte = omega arith;
  b_byte = omega arith;
  c_byte = omega arith;
  d_byte = omega arith;
}

kept_16 : keep_bits (ipv4 home) (some 16) ≡ success 112
unfolding keep_bits
kept_16 = refl

ipv4_mask_iff_example :
    ((bit_and (ipv4_to_u128 home) (netmask_of (128 - 112))
        == bit_and (ipv4_to_u128 neighbour) (netmask_of (128 - 112)))
      ≡ true)
    ↔ (ipv4_bits home / 2 ^ (32 - 16) ≡ ipv4_bits neighbour / 2 ^ (32 - 16))
ipv4_mask_iff_example =
    ipv4_mask_iff home neighbour 16 112 home-IsIpv4 neighbour-IsIpv4 (omega arith) kept_16

abbrev documentation : Ipv6Addr
documentation = record {
  s0 = 0x2001;
  s1 = 0xdb8;
  s2 = 0;
  s3 = 0;
  s4 = 0;
  s5 = 0xff00;
  s6 = 0x42;
  s7 = 0x8329;
}

documentation-IsIpv6 : IsIpv6 documentation
documentation-IsIpv6 = record {
  u0 = omega arith;
  u1 = omega arith;
  u2 = omega arith;
  u3 = omega arith;
  u4 = omega arith;
  u5 = omega arith;
  u6 = omega arith;
  u7 = omega arith;
}

kept_32 : keep_bits (ipv6 documentation) (some 32) ≡ success 32
unfolding keep_bits
kept_32 = refl

ipv6_mask_iff_example :
    ((bit_and (ipv6_number documentation) (netmask_of (128 - 32))
        == bit_and (ipv6_number documentation) (netmask_of (128 - 32)))
      ≡ true)
    ↔ (ipv6_number documentation / 2 ^ (128 - 32) ≡ ipv6_number documentation / 2 ^ (128 - 32))
ipv6_mask_iff_example =
    ipv6_mask_iff documentation documentation 32 32 documentation-IsIpv6 documentation-IsIpv6
      kept_32

last_rule : (new rules).default_rule_index ≡ some 1
unfolding new netmask_of
last_rule = refl

select_many-round_example : select_many 3 proxies 6 ≡ some (proxies, 9)
select_many-round_example = select_many-round 2 proxies (omega arith) (omega arith)
