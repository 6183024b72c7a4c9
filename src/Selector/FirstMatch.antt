-- ===== src/Selector/FirstMatch.antt =====
-- The first rule that fits a location, and `match_rule` of `src/client_proxy_selector.rs`.
use shoes_on_shuttle.Selector.Rules.{not_found, found, match_masks, match_rule}
use Prim.Native.Nat.{bit_and}
use shoes_on_shuttle.Common.{
  inl, ◌≤◌, refl, ℕ, suc, ◌+◌, ◌≡◌, arith, List, [], ◌∷◌, Bool, false, ◌&&◌, ◌||◌, ◌==◌, Option,
  none, some, if◌then◌else◌, ◌⊎◌, Bytes,
}
use shoes_on_shuttle.Net.Types.{ipv6_number}
use shoes_on_shuttle.Stream.{success}
use shoes_on_shuttle.Address.{
  Address, ipv4, ipv6, hostname, NetLocation, NetLocationMask, SocketAddr, hostname_of,
}
use shoes_on_shuttle.Selector.Decision.{ConnectRule}
use shoes_on_shuttle.Selector.Mask.{
  Resolver, MatchState, ok, ip_to_u128, ipv4_to_u128, matches_domain, resolve_single_address,
  match_mask,
}

-- Whether a rule's address covers a location whose own address is `ip`. A hostname covers hostnames
-- alone, by their domain, whatever they resolve to.
abbrev pub covers : Address → Option Bytes → ℕ → ℕ → Bool
covers (ipv4 i) remote netmask ip = bit_and (ipv4_to_u128 i) netmask == bit_and ip netmask
covers (ipv6 i) remote netmask ip = bit_and (ipv6_number i) netmask == bit_and ip netmask
covers (hostname h) (some name) netmask ip = matches_domain h name
covers (hostname h) none netmask ip = false

abbrev pub fits : NetLocationMask → NetLocation → ℕ → Bool
fits m location ip =
    (m.port == 0 || m.port == location.port)
    && (m.address_mask.netmask == 0
        || covers m.address_mask.address (hostname_of location.address) m.address_mask.netmask ip)

abbrev pub any_fits : List NetLocationMask → NetLocation → ℕ → Bool
any_fits [] location ip = false
any_fits (m ∷ masks) location ip = fits m location ip || any_fits masks location ip

-- The index of the first rule that has a mask that fits, counting from `i`.
abbrev pub first_match {ℓ} : {T : Type ℓ} → List (ConnectRule T) → NetLocation → ℕ → ℕ → Option ℕ
first_match [] location ip i = none
first_match (rule ∷ rules) location ip i =
    if any_fits rule.masks location ip then some i else first_match rules location ip (suc i)

-- The calls made, and the one that may still come.
abbrev budget : MatchState → ℕ
budget st = st.calls + elim st.resolved_ip [ none ↦ 1 | some ip ↦ 0 ]

module _ (resolver : Resolver) (location : NetLocation) (a : SocketAddr)
    (answers : (n : ℕ) → resolve_single_address resolver n location ≡ success a) where
  abbrev IsKnown : MatchState → Type 0
  IsKnown st = (st.resolved_ip ≡ none) ⊎ (st.resolved_ip ≡ some (ip_to_u128 a.ip))

  record Decides (m : NetLocationMask) (st : MatchState) : Type 0 where
    answer : (match_mask resolver m location st).0 ≡ ok (fits m location (ip_to_u128 a.ip))
    known : IsKnown (match_mask resolver m location st).1
    same_budget : budget (match_mask resolver m location st).1 ≡ budget st

  mask_of : Address → ℕ → ℕ → NetLocationMask
  mask_of address netmask port = record {
    address_mask = record { address = address; netmask = netmask };
    port = port;
  }

  by_address :
      (rule_address : Address) (netmask port : ℕ) (st : MatchState)
      → IsKnown st
      → Decides (mask_of rule_address netmask port) st
  unfolding match_mask mask_of
  by_address (ipv4 i) netmask port st k = ground (arith, answers st.calls)
  by_address (ipv6 i) netmask port st k = ground (arith, answers st.calls)
  by_address (hostname h) netmask port st k = ground (arith, answers st.calls)

  match_mask-Decides : (m : NetLocationMask) (st : MatchState) → IsKnown st → Decides m st
  unfolding mask_of
  match_mask-Decides m st k = by_address m.address_mask.address m.address_mask.netmask m.port st k

  record DecidesAll (masks : List NetLocationMask) (st : MatchState) : Type 0 where
    answer :
        (match_masks resolver location masks st).0
        ≡ (if any_fits masks location (ip_to_u128 a.ip) then found else not_found)
    known : IsKnown (match_masks resolver location masks st).1
    same_budget : budget (match_masks resolver location masks st).1 ≡ budget st

  match_masks-DecidesAll :
      (masks : List NetLocationMask) (st : MatchState) → IsKnown st → DecidesAll masks st
  unfolding match_masks
  match_masks-DecidesAll [] st k = record { answer = refl; known = k; same_budget = refl }
  match_masks-DecidesAll (m ∷ masks) st k =
      let first = match_mask-Decides m st k in
      ground (
        arith,
        first,
        match_masks-DecidesAll masks (match_mask resolver m location st).1 first.known,
      )

  record DecidesRules {ℓ} {T : Type ℓ} (rules : List (ConnectRule T)) (i : ℕ) (st : MatchState)
      : Type 0 where
    answer :
        (match_rule resolver location rules i st).0
        ≡ success (first_match rules location (ip_to_u128 a.ip) i)
    same_budget : budget (match_rule resolver location rules i st).1 ≡ budget st

  match_rule-DecidesRules {ℓ} :
      {T : Type ℓ} (rules : List (ConnectRule T)) (i : ℕ) (st : MatchState)
      → IsKnown st
      → DecidesRules rules i st
  unfolding match_rule
  match_rule-DecidesRules [] i st k = record { answer = refl; same_budget = refl }
  match_rule-DecidesRules (rule ∷ rules) i st k =
      let first = match_masks-DecidesAll rule.masks st k in
      let st' = (match_masks resolver location rule.masks st).1 in
      ground (arith, first, match_rule-DecidesRules rules (suc i) st' first.known)

-- Where the resolver answers for the location, always with the same address: `match_rule` returns the
-- first rule that has a fitting mask, or none, and it asks the resolver for the location once at most.
pub match_rule-first_match {ℓ} :
    {T : Type ℓ} (resolver : Resolver) (location : NetLocation) (a : SocketAddr)
    (rules : List (ConnectRule T)) (calls : ℕ)
    → ((n : ℕ) → resolve_single_address resolver n location ≡ success a)
    → let (result, st) =
        match_rule resolver location rules 0 (record { resolved_ip = none; calls = calls }) in
      (result ≡ success (first_match rules location (ip_to_u128 a.ip) 0)) × (st.calls ≤ calls + 1)
match_rule-first_match resolver location a rules calls answers =
    let start : MatchState = record { resolved_ip = none; calls = calls } in
    let all = match_rule-DecidesRules resolver location a answers rules 0 start (inl refl) in
    (all.answer, ground (arith, all.same_budget))
