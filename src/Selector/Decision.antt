-- ===== src/Selector/Decision.antt =====
-- `ConnectRule`, `ConnectAction`, `select_proxy` and `to_decision` of `src/client_proxy_selector.rs`.
use shoes_on_shuttle.Common.{
  ℕ, ◌+◌, ◌%◌, ◌^◌, List, [], ◌∷◌, Option, none, some, ltb, if◌then◌else◌, length, get_elem?,
}
use shoes_on_shuttle.Address.{NetLocation, NetLocationMask}
use shoes_on_shuttle.OptionUtil.{OneOrSome}

module _ {ℓ} {T : Type ℓ} where
  -- `select_proxy` with the counter it finds: the proxy and the counter it leaves. `none` is the
  -- panic on an empty list. The counter wraps at 32 bits.
  unfoldable pub select_proxy : List T → ℕ → Option (T × ℕ)
  select_proxy [] index = none
  select_proxy (x ∷ []) index = some (x, index)
  select_proxy (x ∷ y ∷ rest) index =
      let proxies = x ∷ y ∷ rest in
      elim (get_elem? proxies (index % length proxies)) [
        | some proxy ↦ some (proxy, (index + 1) % 2 ^ 32)
        | none ↦ none
      ]

pub data ConnectAction {ℓ} (T : Type ℓ) : Type ℓ where
  allow :
      (override_address : Option NetLocation) (client_proxies : OneOrSome T) (next_proxy_index : ℕ)
      → ConnectAction T
  block : ConnectAction T

pub data ConnectDecision {ℓ} (T : Type ℓ) : Type ℓ where
  allow : (client_proxy : T) (remote_location : NetLocation) → ConnectDecision T
  block : ConnectDecision T

pub record ConnectRule {ℓ} (T : Type ℓ) : Type ℓ where
  pub masks : List NetLocationMask
  pub action : ConnectAction T

-- The `remote_location` of `to_decision`.
abbrev pub remote_location_of : Option NetLocation → NetLocation → NetLocation
remote_location_of none target = target
remote_location_of (some l) target =
    if ltb 0 l.port then l else record { address = l.address; port = target.port }

module _ {ℓ} {T : Type ℓ} where
  abbrev pub choose : OneOrSome T → ℕ → Option (T × ℕ)
  choose (OneOrSome.one item) index = some (item, index)
  choose (OneOrSome.several proxies) index = select_proxy proxies index

  -- `to_decision`, with the action that it leaves; `none` is a panic.
  unfoldable pub to_decision :
      ConnectAction T → NetLocation → Option (ConnectDecision T × ConnectAction T)
  unfolding select_proxy
  to_decision ConnectAction.block target = some (ConnectDecision.block, ConnectAction.block)
  to_decision (ConnectAction.allow override_address proxies index) target =
      elim (choose proxies index) [
        | none ↦ none
        | some (proxy, index') ↦ some (
          ConnectDecision.allow proxy (remote_location_of override_address target),
          ConnectAction.allow override_address proxies index',
        )
      ]
