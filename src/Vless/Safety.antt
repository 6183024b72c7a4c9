-- ===== src/Vless/Safety.antt =====
-- The check of the user id and the addons of `src/vless_handler.rs`.
use shoes_on_shuttle.Socks.Location.{byte_at}
use shoes_on_shuttle.Common.{
  [], ◌∷◌, take-append-drop, length-take, append_assoc, true, drop_front, refl, length-append, take,
  ◌-◌, drop, inl, inr, split_exact-append, arith, split_exact-cases, ◌++◌, ◌+◌, ◌<◌, All, ◌≡◌, ◌≤◌,
  length, ℕ, Bytes,
}
use shoes_on_shuttle.Hex.{zip_eq, zip_eq→eq}
use shoes_on_shuttle.TcpHandler.{TcpServerSetupResult}
use shoes_on_shuttle.Vless.Addons.{
  shift_in, read_varint, parse_addons, read_varint_from, read_addons,
}
use shoes_on_shuttle.Stream.{err, Outcome, ok, Stream}
use shoes_on_shuttle.Vless.Server.{VlessTcpHandler, check_user, setup_server_stream}

-- 18 bytes that start with 0 and go on with the 16 bytes of `id`.
prefix_parts :
    (id prefix : Bytes)
    → length id ≡ 16
    → length prefix ≡ 18
    → byte_at prefix 0 ≡ 0
    → zip_eq id (take 16 (drop 1 prefix)) ≡ true
    → prefix ≡ 0 ∷ (id ++ drop 16 (drop 1 prefix))
prefix_parts id [] h n z e = absurd (omega arith)
prefix_parts id (b ∷ bs) h n z e =
    let same : id ≡ take 16 bs = zip_eq→eq id (take 16 bs) (omega (arith, length-take 16 bs)) e in
    cc (take-append-drop 16 bs)

check_user-eq-ok :
    (handler : VlessTcpHandler) (s s' : Stream) (x : Unit {0})
    → length handler.user_id ≡ 16
    → check_user handler s ≡ ok x s'
    → (rest : Bytes) × (s.incoming ≡ 0 ∷ (handler.user_id ++ rest))
unfolding check_user
check_user-eq-ok handler s s' x h e = elim (split_exact-cases 18 s.incoming) [
  | inl no_more ↦ ground arith
  | inr (prefix, rest, found, parts, size) ↦
      let id = handler.user_id in
      let after = drop 16 (drop 1 prefix) in
      (after ++ rest, ground (arith, prefix_parts id prefix h size, append_assoc id after rest))
]

-- Only a client that knows the user id is served: with a user id of 16 bytes, whenever the server
-- returns with success, what it received starts with the version 0 and that user id.
pub setup_server_stream-user_id :
    (handler : VlessTcpHandler) (s s' : Stream) (r : TcpServerSetupResult)
    → length handler.user_id ≡ 16
    → setup_server_stream handler s ≡ ok r s'
    → (rest : Bytes) × (s.incoming ≡ 0 ∷ (handler.user_id ++ rest))
unfolding setup_server_stream
setup_server_stream-user_id handler s s' r h e = by_check (check_user handler s) refl
  where
    by_check :
        (o : Outcome (Unit {0}))
        → check_user handler s ≡ o
        → (rest : Bytes) × (s.incoming ≡ 0 ∷ (handler.user_id ++ rest))
    by_check (ok x t) k = check_user-eq-ok handler s t x h k
    by_check (err x t) k = ground arith
    by_check Outcome.panic k = ground arith

-- Addons of one flow and one seed, each of fewer than 128 bytes and all of them fewer than 256, are
-- read to their end, and what follows is left.
pub read_addons-well_formed :
    (flow seed rest : Bytes) (s : Stream)
    → length flow < 128
    → length seed < 128
    → length flow + length seed < 254
    → let addons = (length flow ∷ flow) ++ (length seed ∷ seed) in
      read_addons (length addons) (record s { incoming = addons ++ rest })
      ≡ ok tt (record s { incoming = rest })
unfolding read_addons parse_addons read_varint
read_addons-well_formed flow seed rest s hf hs ht =
    let second : Bytes = length seed ∷ seed in
    let addons : Bytes = (length flow ∷ flow) ++ second in
    ground (
      arith,
      split_exact-append addons rest,
      length-append flow second,
      drop_front (1 + length flow) (length flow ∷ flow) second (omega arith),
    )

-- A varint that does not end: every byte has its highest bit set.
abbrev pub Unfinished : ℕ → Type 0
Unfinished byte = 128 ≤ byte

read_varint_from-Unfinished :
    (bytes : Bytes) (cursor len : ℕ) (s : Stream)
    → All Unfinished bytes
    → cursor + length bytes < 8
    → read_varint_from bytes cursor len (cursor + length bytes) s ≡ Outcome.panic
unfolding read_varint_from
read_varint_from-Unfinished [] cursor len s h n = refl
read_varint_from-Unfinished (b ∷ bs) cursor len s (hb, hbs) n =
    ground (arith, read_varint_from-Unfinished bs (cursor + 1) (shift_in len (b - 128)) s hbs)

-- A remote client can make the task panic: fewer than eight bytes of addons that all have their
-- highest bit set run past the end of the data, where the check of the length comes too late.
pub read_addons-panics :
    (addons rest : Bytes) (s : Stream)
    → length addons < 8
    → All Unfinished addons
    → read_addons (length addons) (record s { incoming = addons ++ rest }) ≡ Outcome.panic
unfolding read_addons parse_addons read_varint
read_addons-panics addons rest s n h = ground (
  arith,
  split_exact-append addons rest,
  read_varint_from-Unfinished addons 0 0 (record s { incoming = rest }) h (omega arith),
)
