-- ===== src/Selector/Rules.antt =====
-- `match_rule` and `ClientProxySelector` of `src/client_proxy_selector.rs`.
use shoes_on_shuttle.Common.{
  ℕ, zero, suc, List, [], ◌∷◌, Bool, true, false, ◌||◌, ◌==◌, Option, none, some, if◌then◌else◌,
  get_elem?,
}
use shoes_on_shuttle.Stream.{Result, success, failure, IoError, other}
use shoes_on_shuttle.Address.{NetLocation, NetLocationMask, unspecified}
use shoes_on_shuttle.Selector.Decision.{ConnectRule, ConnectAction, ConnectDecision, to_decision}
use shoes_on_shuttle.Selector.Mask.{Resolver, MatchState, ok, err, non_fatal, fatal, match_mask}

-- What the loop over the masks of one rule ends in.
pub data MasksResult : Type 0 where
  found not_found : MasksResult
  stopped : IoError → MasksResult

module _ (resolver : Resolver) (location : NetLocation) where
  unfoldable pub match_masks : List NetLocationMask → MatchState → MasksResult × MatchState
  match_masks [] st = (not_found, st)
  match_masks (m ∷ masks) st =
      let (result, st') = match_mask resolver m location st in
      elim result [
        | ok is_match ↦ elim is_match [ true ↦ (found, st') | false ↦ match_masks masks st' ]
        | err error ↦ elim error [
          | fatal e ↦
              (stopped (record { kind = other; message = "fatal error while matching mask" }), st')
          | non_fatal e ↦ match_masks masks st'
        ]
      ]

  -- `match_rule`: the index of the rule that matches, from index `i` on.
  unfoldable pub match_rule {ℓ} :
      {T : Type ℓ} → List (ConnectRule T) → ℕ → MatchState → Result (Option ℕ) × MatchState
  unfolding match_masks
  match_rule [] i st = (success none, st)
  match_rule (rule ∷ rules) i st =
      let (result, st') = match_masks rule.masks st in
      elim result [
        | found ↦ (success (some i), st')
        | stopped e ↦ (failure e, st')
        | not_found ↦ match_rule rules (suc i) st'
      ]

pub record ClientProxySelector {ℓ} (T : Type ℓ) : Type ℓ where
  pub rules : List (ConnectRule T)
  pub default_rule_index : Option ℕ

abbrev pub is_cover : List NetLocationMask → Bool
is_cover [] = false
is_cover (m ∷ masks) = m.address_mask.netmask == 0 || is_cover masks

module _ {ℓ} {T : Type ℓ} where
  abbrev pub has_override : ConnectAction T → Bool
  has_override (ConnectAction.allow (some l) proxies index) = true
  has_override (ConnectAction.allow none proxies index) = false
  has_override ConnectAction.block = false

  -- The loop of `new`, from index `i` on.
  unfoldable pub find_default : List (ConnectRule T) → ℕ → Option ℕ
  find_default [] i = none
  find_default (rule ∷ rules) i =
      let later = find_default rules (suc i) in
      if has_override rule.action then later else if is_cover rule.masks then some i else later

  unfoldable pub new : List (ConnectRule T) → ClientProxySelector T
  unfolding find_default
  new rules = record { rules = rules; default_rule_index = find_default rules 0 }

  -- The rule at an index, with a new action.
  abbrev pub set_action : List (ConnectRule T) → ℕ → ConnectAction T → List (ConnectRule T)
  set_action [] i action = []
  set_action (rule ∷ rules) zero action = record rule { action = action } ∷ rules
  set_action (rule ∷ rules) (suc i) action = rule ∷ set_action rules i action

  -- `self.rules[i].action.to_decision(location)`; `none` is a panic.
  unfoldable pub decide :
      ClientProxySelector T → ℕ → NetLocation → Option (ConnectDecision T × ClientProxySelector T)
  unfolding to_decision
  decide selector i location = elim (get_elem? selector.rules i) [
    | none ↦ none
    | some rule ↦ elim (to_decision rule.action location) [
      | none ↦ none
      | some (decision, action) ↦
          some (decision, record selector { rules = set_action selector.rules i action })
    ]
  ]

  abbrev decide_at :
      ClientProxySelector T
      → Option ℕ
      → NetLocation
      → Option (ConnectDecision T × ClientProxySelector T)
  decide_at selector none location = some (ConnectDecision.block, selector)
  decide_at selector (some i) location = decide selector i location

  -- `default_decision`.
  unfoldable pub default_decision :
      ClientProxySelector T → Option (ConnectDecision T × ClientProxySelector T)
  unfolding decide
  default_decision selector = decide_at selector selector.default_rule_index unspecified

  -- `judge`, from the resolver's call `calls` on.
  unfoldable pub judge :
      Resolver
      → ℕ
      → ClientProxySelector T
      → NetLocation
      → Result (Option (ConnectDecision T × ClientProxySelector T))
  unfolding match_rule decide
  judge resolver calls selector location =
      let start : MatchState = record { resolved_ip = none; calls = calls } in
      let (result, st) = match_rule resolver location selector.rules 0 start in
      elim result [
        | failure e ↦ failure e
        | success matched ↦ success (decide_at selector matched location)
      ]
