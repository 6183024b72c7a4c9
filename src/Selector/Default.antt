-- ===== src/Selector/Default.antt =====
-- The default rule, and the decision of a rule, of `src/client_proxy_selector.rs`.
use shoes_on_shuttle.Common.{
  ◌∙◌, Bool-cases, ℕ, zero, suc, ◌+◌, ◌-◌, ◌≤◌, ◌<◌, ◌≡◌, refl, arith, List, [], ◌∷◌, Bool, true,
  false, some, length, get_elem?, ◌⊎◌, inl, inr,
}
use shoes_on_shuttle.Address.{NetLocation}
use shoes_on_shuttle.OptionUtil.{OneOrSome}
use shoes_on_shuttle.Selector.Decision.{
  ConnectRule, ConnectAction, ConnectDecision, to_decision, choose, remote_location_of,
}
use shoes_on_shuttle.Selector.Rules.{find_default, has_override, is_cover, new}
use shoes_on_shuttle.Selector.Rotation.{select_proxy_lem}

sub_zero : (k : ℕ) → k - 0 ≡ k
sub_zero k = omega arith

module _ {ℓ} {T : Type ℓ} where
  -- A rule that may serve as the default: no override, and a mask that covers everything.
  abbrev pub IsDefault : ConnectRule T → Type 0
  IsDefault rule = (has_override rule.action ≡ false) × (is_cover rule.masks ≡ true)

  IsDefault-cases : (rule : ConnectRule T) → IsDefault rule ⊎ ¬ IsDefault rule
  IsDefault-cases rule = by_tests (has_override rule.action) (is_cover rule.masks) refl refl
    where
      by_tests :
          (o c : Bool)
          → has_override rule.action ≡ o
          → is_cover rule.masks ≡ c
          → IsDefault rule ⊎ ¬ IsDefault rule
      by_tests true c ho hc = inr (λ d. cc d.0)
      by_tests false true ho hc = inl (ho, hc)
      by_tests false false ho hc = inr (λ d. cc d.1)

  find_default-skip :
      (r : ConnectRule T) (rules : List (ConnectRule T)) (i : ℕ)
      → ¬ IsDefault r
      → find_default (r ∷ rules) i ≡ find_default rules (suc i)
  unfolding find_default
  find_default-skip r rules i d = elim (Bool-cases (has_override r.action)) [
    | inl o ↦ rw o
    | inr o ↦ elim (Bool-cases (is_cover r.masks)) [ inl c ↦ absurd (d (o, c)) | inr c ↦ rw (o, c) ]
  ]

  find_default-here :
      (r : ConnectRule T) (rules : List (ConnectRule T)) (i : ℕ)
      → IsDefault r
      → find_default (r ∷ rules) i ≡ some i
  unfolding find_default
  find_default-here r rules i d = ground arith

  find_default_sound :
      (rules : List (ConnectRule T)) (i k : ℕ)
      → find_default rules i ≡ some k
      → (rule : ConnectRule T) × (i ≤ k) × (get_elem? rules (k - i) ≡ some rule) × IsDefault rule
  find_default_sound [] i k e = unfold find_default in cc
  find_default_sound (r ∷ rules) i k e = elim (IsDefault-cases r) [
    | inl d ↦ (
      r,
      ground (arith, find_default-here r rules i d),
      rw (here (ground (arith, find_default-here r rules i d))),
      d,
    )
    | inr d ↦
        let (rule, le, found, is_default) =
          find_default_sound rules (suc i) k (rw (find_default-skip r rules i d) at e) in
        let next : k - i ≡ suc (k - suc i) = omega arith in
        (rule, omega arith, rw next found, is_default)
  ]
    where
      here : i ≡ k → k - i ≡ 0
      here h = omega arith

  find_default_earliest :
      (rules : List (ConnectRule T)) (i j : ℕ) (rule : ConnectRule T)
      → get_elem? rules j ≡ some rule
      → IsDefault rule
      → (k : ℕ) × (find_default rules i ≡ some k) × (k ≤ i + j)
  find_default_earliest [] i j rule e d = cc
  find_default_earliest (r ∷ rules) i zero rule e d =
      let same : r ≡ rule = cc in (i, find_default-here r rules i (rw same d), omega arith)
  find_default_earliest (r ∷ rules) i (suc j) rule e d = elim (IsDefault-cases r) [
    | inl here ↦ (i, find_default-here r rules i here, omega arith)
    | inr skip ↦
        let (k, found, le) = find_default_earliest rules (suc i) j rule e d in
        (k, find_default-skip r rules i skip ∙ found, omega arith)
  ]

  -- The default rule of a new selector overrides no address and has a mask for every address.
  pub new-IsDefault_sound :
      (rules : List (ConnectRule T)) (k : ℕ)
      → (new rules).default_rule_index ≡ some k
      → (rule : ConnectRule T) × (get_elem? rules k ≡ some rule) × IsDefault rule
  unfolding new
  new-IsDefault_sound rules k e =
      let (rule, le, found, d) = find_default_sound rules 0 k e in
      (rule, rw (sub_zero k) at found, d)

  -- For every rule that overrides no address and has a mask for every address, a new selector has a
  -- default rule, at its index or an earlier one.
  pub new-IsDefault_first :
      (rules : List (ConnectRule T)) (j : ℕ) (rule : ConnectRule T)
      → get_elem? rules j ≡ some rule
      → IsDefault rule
      → (k : ℕ) × ((new rules).default_rule_index ≡ some k) × (k ≤ j)
  unfolding new
  new-IsDefault_first rules j rule e d =
      let (k, found, le) = find_default_earliest rules 0 j rule e d in (k, found, omega arith)

  -- The proxies of a rule are not an empty list, as the configuration is read.
  abbrev pub HasProxy : ConnectAction T → Type 0
  HasProxy (ConnectAction.allow o (OneOrSome.one p) i) = Unit
  HasProxy (ConnectAction.allow o (OneOrSome.several ps) i) = 0 < length ps
  HasProxy ConnectAction.block = Unit

  -- A rule with a proxy decides on every location, and keeps a proxy.
  pub to_decision_total :
      (action : ConnectAction T) (location : NetLocation)
      → HasProxy action
      → (d : ConnectDecision T) × (action' : ConnectAction T) × (to_decision action location
          ≡ some (d, action'))
        × HasProxy action'
  unfolding to_decision
  to_decision_total ConnectAction.block location h = (_, _, refl, tt)
  to_decision_total (ConnectAction.allow o (OneOrSome.one p) i) location h = (_, _, refl, tt)
  to_decision_total (ConnectAction.allow o (OneOrSome.several ps) i) location h =
      let (p, i', e, at) = select_proxy_lem ps i h in
      (
        ConnectDecision.allow p (remote_location_of o location),
        ConnectAction.allow o (OneOrSome.several ps) i',
        rw (e, to_decision, choose),
        h,
      )
