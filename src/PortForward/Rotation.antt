-- ===== src/PortForward/Rotation.antt =====
-- The choice of the targets of `src/port_forward_handler.rs` over several connections.
use shoes_on_shuttle.Stream.{err, ok, Stream, Outcome}
use shoes_on_shuttle.TcpHandler.{tcp_forward}
use shoes_on_shuttle.PortForward.{
  PortForwardServerHandler, TcpServerSetupResult, setup_server_stream,
}
use shoes_on_shuttle.Address.{NetLocation}
use shoes_on_shuttle.Common.{
  ◌^◌, ◌+◌, ◌*◌, ◌≡◌, ◌∷◌, ◌%◌, get_elem?, some, ℕ, none, length, false, Option, ◌<◌, List, [],
  get_elem?-drop, drop, drop-length, map, refl, arith, ◌∙◌,
}
use shoes_on_shuttle.OptionUtil.{NoneOrOne}
use native.Mathlib.Nat.{mod-one, mul-add-mod_self_right, mod-eq_of_lt}

abbrev pub forward : NetLocation → TcpServerSetupResult
forward l = tcp_forward l false none none NoneOrOne.unspecified

-- With at least one target, the handler forwards to the target at the index modulo their number, with
-- nothing read from the stream or written to it, and keeps its targets.
pub setup_server_stream-target :
    (h : PortForwardServerHandler) (s : Stream)
    → 0 < length h.targets
    → (l : NetLocation) × (h' : PortForwardServerHandler) × (get_elem? h.targets
          (h.next_target_index % length h.targets)
        ≡ some l)
      × (setup_server_stream h s ≡ ok (forward l, h') s)
      × (h'.targets ≡ h.targets)
unfolding setup_server_stream
setup_server_stream-target h s n = by_targets h.targets h.next_target_index n
  where
    by_targets :
        (targets : List NetLocation) (i : ℕ)
        → 0 < length targets
        → let h : PortForwardServerHandler = record { targets = targets; next_target_index = i } in
          (l : NetLocation) × (h' : PortForwardServerHandler) × (get_elem? targets
              (i % length targets)
            ≡ some l)
          × (setup_server_stream h s ≡ ok (forward l, h') s)
          × (h'.targets ≡ targets)
    by_targets [] i n = absurd (omega arith)
    by_targets (x ∷ []) i n = (x, _, rw mod-one, refl, refl)
    by_targets (x ∷ y ∷ rest) i n =
        let targets = x ∷ y ∷ rest in
        let (l, found, next) = get_elem?-drop (i % length targets) targets (omega arith) in
        (
          l,
          record { targets = targets; next_target_index = (i + 1) % 2 ^ 32 },
          found,
          ground (arith, found),
          refl,
        )

-- So many connections in a row, each on a stream of its own: where they are forwarded to, and the
-- counter in the end.
unfoldable pub forward_many :
    List Stream → PortForwardServerHandler → Option (List TcpServerSetupResult × ℕ)
forward_many [] h = some ([], h.next_target_index)
forward_many (s ∷ ss) h = elim (setup_server_stream h s) [
  | ok (r, h') s' ↦ elim (forward_many ss h') [
    | none ↦ none
    | some (rs, last) ↦ some (r ∷ rs, last)
  ]
  | err e s' ↦ none
  | Outcome.panic ↦ none
]

forward_many-drop :
    (ss : List Stream) (j q : ℕ) (x y : NetLocation) (rest : List NetLocation)
    → let targets = x ∷ y ∷ rest in
      let at = q * length targets + j in
      j + length ss ≡ length targets
      → at + length ss < 2 ^ 32
      → forward_many ss (record { targets = targets; next_target_index = at })
        ≡ some (map forward (drop j targets), at + length ss)
unfolding forward_many setup_server_stream
forward_many-drop [] j q x y rest e h = ground (arith, drop-length (x ∷ y ∷ rest))
forward_many-drop (s ∷ ss) j q x y rest e h =
    let targets = x ∷ y ∷ rest in
    let (l, found, next) = get_elem?-drop j targets (omega arith) in
    let place : (q * length targets + j) % length targets ≡ j =
      mul-add-mod_self_right q (length targets) j ∙ mod-eq_of_lt (omega arith) in
    ground (arith, place, found, next, forward_many-drop ss (j + 1) q x y rest)

-- With at least two targets, and the counter at a multiple of their number, as many connections as
-- there are targets are forwarded one to each target, in order, as long as the counter does not wrap.
pub forward_many-round :
    (ss : List Stream) (q : ℕ) (targets : List NetLocation)
    → 1 < length targets
    → length ss ≡ length targets
    → q * length targets + length ss < 2 ^ 32
    → forward_many ss (record { targets = targets; next_target_index = q * length targets })
      ≡ some (map forward targets, q * length targets + length ss)
forward_many-round ss q [] n e h = absurd (omega arith)
forward_many-round ss q (x ∷ []) n e h = absurd (omega arith)
forward_many-round ss q (x ∷ y ∷ rest) n e h = ground (arith, forward_many-drop ss 0 q x y rest)
