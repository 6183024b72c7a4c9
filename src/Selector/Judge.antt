-- ===== src/Selector/Judge.antt =====
-- `judge` of `src/client_proxy_selector.rs`.
use shoes_on_shuttle.Common.{
  ℕ, zero, suc, ◌-◌, ◌≤◌, ◌≡◌, arith, List, [], ◌∷◌, Option, none, some, get_elem?, All, inl, inr,
  Option-cases, Bool-cases,
}
use shoes_on_shuttle.Stream.{success}
use shoes_on_shuttle.Address.{NetLocation, SocketAddr}
use shoes_on_shuttle.Selector.Decision.{ConnectRule, ConnectAction, ConnectDecision, to_decision}
use shoes_on_shuttle.Selector.Mask.{Resolver, resolve_single_address, ip_to_u128}
use shoes_on_shuttle.Selector.Rules.{ClientProxySelector, judge, decide, set_action}
use shoes_on_shuttle.Selector.FirstMatch.{first_match, any_fits, match_rule-first_match}
use shoes_on_shuttle.Selector.Default.{HasProxy, to_decision_total}

module _ {ℓ} {T : Type ℓ} where
  get_elem?-All :
      (rules : List (ConnectRule T)) (k : ℕ) (rule : ConnectRule T)
      → All (λ (r : ConnectRule T). HasProxy r.action) rules
      → get_elem? rules k ≡ some rule
      → HasProxy rule.action
  get_elem?-All [] k rule h e = cc
  get_elem?-All (r ∷ rules) zero rule (h, hs) e = let same : r ≡ rule = cc in rw (← same) h
  get_elem?-All (r ∷ rules) (suc k) rule (h, hs) e = get_elem?-All rules k rule hs e

  first_match-get_elem? :
      (rules : List (ConnectRule T)) (location : NetLocation) (ip i k : ℕ)
      → first_match rules location ip i ≡ some k
      → (rule : ConnectRule T) × (i ≤ k) × (get_elem? rules (k - i) ≡ some rule)
  first_match-get_elem? [] location ip i k e = cc
  first_match-get_elem? (r ∷ rules) location ip i k e =
      elim (Bool-cases (any_fits r.masks location ip)) [
        | inl fit ↦ let same : i ≡ k = ground arith in (r, omega arith, rw (here same))
        | inr no_fit ↦
            let (rule, le, found) =
              first_match-get_elem? rules location ip (suc i) k (rw no_fit at e) in
            let next : k - i ≡ suc (k - suc i) = omega arith in (rule, omega arith, rw next found)
      ]
    where
      here : i ≡ k → k - i ≡ 0
      here h = omega arith

  -- The decision that the rule at an index stands for; no rule stands for a block.
  abbrev pub DecidedBy : List (ConnectRule T) → NetLocation → Option ℕ → ConnectDecision T → Type ℓ
  DecidedBy rules location none d = d ≡ ConnectDecision.block
  DecidedBy rules location (some i) d =
      (rule : ConnectRule T) × (action : ConnectAction T) × (get_elem? rules i ≡ some rule)
      × (to_decision rule.action location ≡ some (d, action))

  decide-DecidedBy :
      (selector : ClientProxySelector T) (location : NetLocation) (i : ℕ) (rule : ConnectRule T)
      → get_elem? selector.rules i ≡ some rule
      → HasProxy rule.action
      → (d : ConnectDecision T) × (selector' : ClientProxySelector T) × (decide selector i location
          ≡ some (d, selector'))
        × DecidedBy selector.rules location (some i) d
  unfolding decide
  decide-DecidedBy selector location i rule found h =
      let (d, action, e, kept) = to_decision_total rule.action location h in
      (
        d,
        record selector { rules = set_action selector.rules i action },
        ground (arith, found, e),
        (rule, action, found, e),
      )

  -- Where every rule has a proxy and the resolver answers for the location, always with the same
  -- address: `judge` succeeds without a panic, with what the first rule that has a fitting mask
  -- decides, and it blocks where no rule has one.
  pub judge-DecidedBy :
      (resolver : Resolver) (calls : ℕ) (selector : ClientProxySelector T) (location : NetLocation)
      (a : SocketAddr)
      → All (λ (r : ConnectRule T). HasProxy r.action) selector.rules
      → ((n : ℕ) → resolve_single_address resolver n location ≡ success a)
      → (d : ConnectDecision T) × (selector' : ClientProxySelector T) × (judge resolver calls
            selector location
          ≡ success (some (d, selector')))
        × DecidedBy selector.rules location
            (first_match selector.rules location (ip_to_u128 a.ip) 0)
            d
  unfolding judge
  judge-DecidedBy resolver calls selector location a h answers =
      let (matched, once) =
        match_rule-first_match resolver location a selector.rules calls answers in
      elim (Option-cases (first_match selector.rules location (ip_to_u128 a.ip) 0)) [
        | inl e ↦ (ConnectDecision.block, selector, ground (arith, matched, e), rw e)
        | inr (i, e) ↦
            let (rule, le, found) =
              first_match-get_elem? selector.rules location (ip_to_u128 a.ip) 0 i e in
            let at : i - 0 ≡ i = omega arith in
            let found' = rw at at found in
            let (d, selector', decided, by) =
              decide-DecidedBy selector location i rule found'
                (get_elem?-All selector.rules i rule h found') in
            (d, selector', ground (arith, matched, e, decided), rw e by)
      ]
