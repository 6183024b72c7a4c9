-- ===== src/Selector/Rotation.antt =====
-- `select_proxy` of `src/client_proxy_selector.rs` over several connections.
use shoes_on_shuttle.Common.{
  drop-length, ◌*◌, ℕ, zero, suc, ◌+◌, ◌%◌, ◌^◌, ◌<◌, ◌≡◌, refl, ◌∙◌, arith, List, [], ◌∷◌, Option,
  none, some, length, get_elem?, drop, get_elem?-drop,
}
use shoes_on_shuttle.Selector.Decision.{select_proxy}
use native.Mathlib.Nat.{mod-one, mul-add-mod_self_right, mod-eq_of_lt}

module _ {ℓ} {T : Type ℓ} where
  -- A choice is made, at the counter taken modulo the number of proxies, whenever there is a proxy.
  pub select_proxy_lem :
      (proxies : List T) (index : ℕ)
      → 0 < length proxies
      → (p : T) × (index' : ℕ) × (select_proxy proxies index ≡ some (p, index'))
        × (get_elem? proxies (index % length proxies) ≡ some p)
  unfolding select_proxy
  select_proxy_lem [] index h = absurd (omega arith)
  select_proxy_lem (x ∷ []) index h = (x, index, refl, rw mod-one)
  select_proxy_lem (x ∷ y ∷ rest) index h =
      let proxies = x ∷ y ∷ rest in
      let i = index % length proxies in
      let (p, found, next) = get_elem?-drop i proxies (omega (arith)) in
      (p, (index + 1) % 2 ^ 32, rw (found, select_proxy), found)

  -- So many connections in a row through one rule.
  unfoldable pub select_many : ℕ → List T → ℕ → Option (List T × ℕ)
  select_many zero proxies index = some ([], index)
  select_many (suc n) proxies index = elim (select_proxy proxies index) [
    | none ↦ none
    | some (p, index') ↦ elim (select_many n proxies index') [
      | none ↦ none
      | some (ps, last) ↦ some (p ∷ ps, last)
    ]
  ]

  -- From position `j` of a round on, the next connections go to the proxies in order, as long as the
  -- round lasts and the counter does not wrap.
  select_many-drop :
      (n j q : ℕ) (x y : T) (rest : List T)
      → let proxies = x ∷ y ∷ rest in
        j + n ≡ length proxies
        → q * length proxies + j + n < 2 ^ 32
        → select_many n proxies (q * length proxies + j)
          ≡ some (drop j proxies, q * length proxies + j + n)
  unfolding select_many select_proxy
  select_many-drop zero j q x y rest e h = ground (arith, drop-length (x ∷ y ∷ rest))
  select_many-drop (suc n) j q x y rest e h =
      let proxies = x ∷ y ∷ rest in
      let (p, found, next) = get_elem?-drop j proxies (omega arith) in
      let place : (q * length proxies + j) % length proxies ≡ j =
        mul-add-mod_self_right q (length proxies) j ∙ mod-eq_of_lt (omega arith) in
      ground (arith, place, found, next, select_many-drop n (j + 1) q x y rest)

  -- As long as the counter does not wrap, one round of connections, begun where the counter is a
  -- multiple of the number of proxies, goes once to each proxy, in the order of the list.
  pub select_many-round :
      (q : ℕ) (proxies : List T)
      → 1 < length proxies
      → q * length proxies + length proxies < 2 ^ 32
      → select_many (length proxies) proxies (q * length proxies)
        ≡ some (proxies, q * length proxies + length proxies)
  select_many-round q [] h l = absurd (omega arith)
  select_many-round q (x ∷ []) h l = absurd (omega arith)
  select_many-round q (x ∷ y ∷ rest) h l =
      ground (arith, select_many-drop (length (x ∷ y ∷ rest)) 0 q x y rest)
