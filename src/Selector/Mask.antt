-- ===== src/Selector/Mask.antt =====
-- `match_mask` of `src/client_proxy_selector.rs`, and what it calls.
use Prim.Native.Nat.{bit_and}
use shoes_on_shuttle.Common.{
  ℕ, ◌+◌, ◌-◌, Bytes, List, [], ◌∷◌, Bool, true, false, ◌&&◌, not, ◌==◌, ltb, leb, Option, none,
  some, if◌then◌else◌, length, drop, get_or, bytes_eq,
}
use shoes_on_shuttle.Net.Types.{ipv6_number, to_ipv6_mapped, Ipv4Addr}
use shoes_on_shuttle.Stream.{Result, success, failure, IoError, other}
use shoes_on_shuttle.Address.{
  Address, ipv4, ipv6, hostname, NetLocation, NetLocationMask, SocketAddr, IpAddr, v4, v6,
  hostname_of,
}

-- `Resolver::resolve_location`, by the number of the call: the answers may change over time.
abbrev pub Resolver : Type 0
Resolver = ℕ → NetLocation → Result (List SocketAddr)

abbrev pub ipv4_to_u128 : Ipv4Addr → ℕ
ipv4_to_u128 i = ipv6_number (to_ipv6_mapped i)

abbrev pub ip_to_u128 : IpAddr → ℕ
ip_to_u128 (v4 i) = ipv4_to_u128 i
ip_to_u128 (v6 i) = ipv6_number i

-- `str::ends_with`.
abbrev pub ends_with : Bytes → Bytes → Bool
ends_with text suffix =
    leb (length suffix) (length text) && bytes_eq (drop (length text - length suffix) text) suffix

-- `matches_domain(base_domain, hostname)`.
unfoldable pub matches_domain : Bytes → Bytes → Bool
matches_domain base_domain name =
    if ends_with name base_domain
    then if length name == length base_domain
      then true
      else get_or name (length name - length base_domain - 1) 0 == b'.'
    else false

pub data MatchMaskError : Type 0 where
  non_fatal : IoError → MatchMaskError
  fatal : IoError → MatchMaskError

pub data MaskResult : Type 0 where
  ok : Bool → MaskResult
  err : MatchMaskError → MaskResult

-- What `match_rule` keeps over its loops: the address found for the location, and the calls of the
-- resolver so far.
pub record MatchState : Type 0 where
  pub resolved_ip : Option ℕ
  pub calls : ℕ

abbrev first_of_results : Result (List SocketAddr) → Result SocketAddr
first_of_results (success []) =
    failure (record { kind = other; message = "could not resolve location" })
first_of_results (success (a ∷ rest)) = success a
first_of_results (failure e) = failure e

-- `resolve_single_address`.
unfoldable pub resolve_single_address : Resolver → ℕ → NetLocation → Result SocketAddr
resolve_single_address resolver call location = first_of_results (resolver call location)

abbrev pub any_masked : List SocketAddr → ℕ → ℕ → Bool
any_masked [] netmask masked_ip = false
any_masked (a ∷ rest) netmask masked_ip =
    if bit_and (ip_to_u128 a.ip) netmask == masked_ip
    then true
    else any_masked rest netmask masked_ip

abbrev rule_addresses : Result (List SocketAddr) → ℕ → ℕ → MaskResult
rule_addresses (failure e) netmask masked_ip = err (non_fatal e)
rule_addresses (success found) netmask masked_ip = ok (any_masked found netmask masked_ip)

abbrev count_call : MatchState → MatchState
count_call st = record st { calls = st.calls + 1 }

-- The `match address` at the end, on the masked address of the location.
abbrev compare_address : Resolver → Address → ℕ → ℕ → ℕ → MatchState → MaskResult × MatchState
compare_address resolver (ipv4 i) netmask port masked_ip st =
    (ok (bit_and (ipv4_to_u128 i) netmask == masked_ip), st)
compare_address resolver (ipv6 i) netmask port masked_ip st =
    (ok (bit_and (ipv6_number i) netmask == masked_ip), st)
compare_address resolver (hostname h) netmask port masked_ip st = (
  rule_addresses (resolver st.calls (record { address = hostname h; port = port })) netmask
      masked_ip,
  count_call st,
)

-- The address of the location, resolved at the first use.
abbrev with_ip :
    Resolver
    → NetLocation
    → MatchState
    → (ℕ → MatchState → MaskResult × MatchState)
    → Option ℕ
    → MaskResult × MatchState
with_ip resolver location st next (some ip) = next ip st
with_ip resolver location st next none = elim (resolve_single_address resolver st.calls location) [
  | failure e ↦ (err (fatal e), count_call st)
  | success a ↦
      next (ip_to_u128 a.ip) (record { resolved_ip = some (ip_to_u128 a.ip); calls = st.calls + 1 })
]

abbrev match_ip : Resolver → NetLocationMask → NetLocation → MatchState → MaskResult × MatchState
match_ip resolver m location st =
    with_ip resolver location st
      (λ ip st'.
        compare_address resolver m.address_mask.address m.address_mask.netmask m.port
          (bit_and ip m.address_mask.netmask) st')
      st.resolved_ip

-- `DONT_RESOLVE_RULE_HOSTNAMES`.
abbrev pub dont_resolve_rule_hostnames : Bool
dont_resolve_rule_hostnames = true

-- The test on hostnames: an answer, or none where the addresses have to be compared.
abbrev pub match_hostnames : Option Bytes → Option Bytes → Option Bool
match_hostnames (some rule_name) (some remote_name) = some (matches_domain rule_name remote_name)
match_hostnames (some rule_name) none = if dont_resolve_rule_hostnames then some false else none
match_hostnames none remote = none

unfoldable pub match_mask :
    Resolver → NetLocationMask → NetLocation → MatchState → MaskResult × MatchState
unfolding resolve_single_address
match_mask resolver m location st =
    let by_ip = match_ip resolver m location st in
    if ltb 0 m.port && not (m.port == location.port)
    then (ok false, st)
    else if m.address_mask.netmask == 0
    then (ok true, st)
    else elim (match_hostnames (hostname_of m.address_mask.address)
        (hostname_of location.address)) [ some answer ↦ (ok answer, st) | none ↦ by_ip ]
